-- ===== src/RateLimit/Sharing.antt =====
-- The shared map of internal/api/ratelimit.go, seen from one subject: what one call of `allow`
-- does to what the map holds for it.
use go_webapp_template.Base.{
  ℕ, ◌*◌, ◌≤◌, ◌<◌, ◌≡◌, refl, ap, inl, inr, true, false, Option, none, some, List, [], ◌∷◌, arith,
  All, length, Option-cases, Bool-cases,
}
use go_webapp_template.Base.Text.{Text, same}
use go_webapp_template.Base.Dict.{
  Dict, lookup, insert, HasDistinctKeys, insert-HasDistinctKeys, sweep-HasDistinctKeys, All-insert,
  All-sweep, lookup-insert, lookup-insert_self, lookup-sweep, lookup-sweep-none, All-lookup,
}
use go_webapp_template.Base.Known.{occurs, HasKeysIn, length-HasKeysIn}
use go_webapp_template.Base.Time.{Time, sub, at_least}
use go_webapp_template.RateLimit.{
  Bucket, RateLimiter, rate_limit_max_buckets, rate_limit_cleanup_interval, rate_limit_bucket_ttl,
  is_live, cleanup_locked, maybe_cleanup, make_room, fresh_bucket, serve, serve_in, allow,
}
use go_webapp_template.RateLimit.Buckets.{
  IsSane, IsFull, serve-IsSane, fresh_bucket-IsFull, idle-IsFull,
}

-- The buckets of a limiter, between calls.
pub record IsTidy (burst : ℕ) (now : Time) (m : Dict Bucket) : Type 0 where
  pub distinct : HasDistinctKeys m
  pub sane : All (λ e. IsSane burst now e.1) m

-- What the map holds for a subject stands for the bucket `b` of the specification.
abbrev pub Stands : ℕ → ℕ → Time → Option Bucket → Bucket → Type 0
Stands rate burst now none b = IsFull rate burst now b
Stands rate burst now (some c) b = c ≡ b

pub IsSane-later :
    (burst : ℕ) (start now : Time) (m : Dict Bucket)
    → start ≤ now
    → All (λ e. IsSane burst start e.1) m
    → All (λ e. IsSane burst now e.1) m
IsSane-later burst start now [] le h = tt
IsSane-later burst start now (e ∷ m) le (h, hs) =
    (omega arith, IsSane-later burst start now m le hs)

module _ (rate burst : ℕ) (rate_pos : 0 < rate) (fits : burst * rate ≤ rate_limit_bucket_ttl) where
  -- A sweep drops only buckets that are full again.
  sweep-Stands :
      (now : Time) (s : Text) (m : Dict Bucket) (b : Bucket)
      → IsTidy burst now m
      → Stands rate burst now (lookup s m) b
      → Stands rate burst now (lookup s (cleanup_locked now m)) b
  unfolding cleanup_locked
  sweep-Stands now s m b h st = elim (Option-cases (lookup s m)) [
    | inl missing ↦ rw (lookup-sweep-none (is_live now) s m missing) (rw missing at st)
    | inr (c, found) ↦
        let same_bucket : c ≡ b = rw found at st in
        rw (lookup-sweep (is_live now) s c m h.distinct found) (elim (Bool-cases (is_live now c)) [
          | inl live ↦ rw live same_bucket
          | inr idle ↦ rw idle (
              rw same_bucket at (
                idle-IsFull rate burst now c rate_pos fits
                  (All-lookup (λ e. IsSane burst now e.1) s c m h.sane found) idle))
        ])
  ]

  abbrev bucket_or_fresh : Option Bucket → Bucket
  bucket_or_fresh none = fresh_bucket burst
  bucket_or_fresh (some c) = c

  -- What stands for `b` answers as `b` does, and stands for what becomes of `b`.
  serve-Stands :
      (now : Time) (o : Option Bucket) (b : Bucket)
      → Stands rate burst now o b
      → serve rate burst now (bucket_or_fresh o) ≡ serve rate burst now b
  serve-Stands now none b st =
      rw (st now (omega arith), fresh_bucket-IsFull rate burst now now (omega arith))
  serve-Stands now (some c) b st = rw st

module _ (rate burst : ℕ) (names : List Text) (rate_pos : 0 < rate)
    (fits : burst * rate ≤ rate_limit_bucket_ttl)
    (few : length names ≤ rate_limit_max_buckets) where
  -- The state of a limiter at `now`, when `names` are all the subjects that it has met.
  pub record IsReady (now : Time) (rl : RateLimiter) : Type 0 where
    pub tidy : IsTidy burst now rl.buckets
    pub rate_kept : rl.rate ≡ rate
    pub burst_kept : rl.burst ≡ burst
    pub known : HasKeysIn names rl.buckets

  maybe_cleanup-IsReady :
      (now : Time) (rl : RateLimiter) → IsReady now rl → IsReady now (maybe_cleanup now rl)
  unfolding maybe_cleanup cleanup_locked
  maybe_cleanup-IsReady now rl h =
      elim (Bool-cases (at_least (sub now rl.last_cleanup) rate_limit_cleanup_interval)) [
        | inl due ↦ rw due (record {
          tidy = record {
            distinct = sweep-HasDistinctKeys (is_live now) rl.buckets h.tidy.distinct;
            sane = All-sweep (λ e. IsSane burst now e.1) (is_live now) rl.buckets h.tidy.sane;
          };
          rate_kept = h.rate_kept;
          burst_kept = h.burst_kept;
          known = All-sweep (λ e. occurs e.0 names ≡ true) (is_live now) rl.buckets h.known;
        })
        | inr early ↦ rw early h
      ]

  maybe_cleanup-Stands :
      (now : Time) (rl : RateLimiter) (s : Text) (b : Bucket)
      → IsReady now rl
      → Stands rate burst now (lookup s rl.buckets) b
      → Stands rate burst now (lookup s (maybe_cleanup now rl).buckets) b
  unfolding maybe_cleanup
  maybe_cleanup-Stands now rl s b h st =
      elim (Bool-cases (at_least (sub now rl.last_cleanup) rate_limit_cleanup_interval)) [
        | inl due ↦ rw due (sweep-Stands rate burst rate_pos fits now s rl.buckets b h.tidy st)
        | inr early ↦ rw early st
      ]

  abbrev stored : Time → RateLimiter → Text → Bucket → RateLimiter
  stored now rl j c = record rl { buckets = insert j (serve rate burst now c).0 rl.buckets }

  -- A subject that has no bucket finds room for one, since the others have one bucket each.
  has_room :
      (now : Time) (rl : RateLimiter) (j : Text)
      → occurs j names ≡ true
      → IsReady now rl
      → lookup j rl.buckets ≡ none
      → length rl.buckets < rate_limit_max_buckets
  has_room now rl j in_names h missing = omega (
    arith,
    few,
    length-HasKeysIn names ((j, fresh_bucket burst) ∷ rl.buckets) (missing, h.tidy.distinct)
        (in_names, h.known),
  )

  -- A call stores the served bucket and touches nothing else.
  serve_in_lem :
      (now : Time) (rl : RateLimiter) (j : Text) (o : Option Bucket)
      → occurs j names ≡ true
      → lookup j rl.buckets ≡ o
      → IsReady now rl
      → serve_in rl now j o ≡ (
        stored now rl j (bucket_or_fresh rate burst rate_pos fits o),
        (serve rate burst now (bucket_or_fresh rate burst rate_pos fits o)).1,
      )
  unfolding serve_in make_room
  serve_in_lem now rl j none in_names e h = ground (arith, has_room now rl j in_names h e)
  serve_in_lem now rl j (some c) in_names e h = ground arith

  found-IsSane :
      (now : Time) (rl : RateLimiter) (j : Text) (o : Option Bucket)
      → lookup j rl.buckets ≡ o
      → IsReady now rl
      → IsSane burst now (bucket_or_fresh rate burst rate_pos fits o)
  found-IsSane now rl j none e h = omega arith
  found-IsSane now rl j (some c) e h =
      All-lookup (λ e. IsSane burst now e.1) j c rl.buckets h.tidy.sane e

  stored-IsReady :
      (now : Time) (rl : RateLimiter) (j : Text)
      → occurs j names ≡ true
      → IsReady now rl
      → IsReady now
          (stored now rl j (bucket_or_fresh rate burst rate_pos fits (lookup j rl.buckets)))
  stored-IsReady now rl j in_names h =
      let c = bucket_or_fresh rate burst rate_pos fits (lookup j rl.buckets) in
      let c' = (serve rate burst now c).0 in
      record {
        tidy = record {
          distinct = insert-HasDistinctKeys j c' rl.buckets h.tidy.distinct;
          sane =
              All-insert (λ e. IsSane burst now e.1) j c' rl.buckets h.tidy.sane
                (serve-IsSane rate burst now c (found-IsSane now rl j _ refl h));
        };
        rate_kept = h.rate_kept;
        burst_kept = h.burst_kept;
        known = All-insert (λ e. occurs e.0 names ≡ true) j c' rl.buckets h.known in_names;
      }

  -- One call, seen from the subject `s`: its own call is answered by its bucket, and the call of
  -- another subject changes nothing.
  pub allow-IsReady :
      (now : Time) (rl : RateLimiter) (j : Text)
      → occurs j names ≡ true
      → IsReady now rl
      → IsReady now (allow rl now j).0
  unfolding allow
  allow-IsReady now rl j in_names h =
      let rl' = maybe_cleanup now rl in
      let h' = maybe_cleanup-IsReady now rl h in
      rw (serve_in_lem now rl' j (lookup j rl'.buckets) in_names refl h')
        (stored-IsReady now rl' j in_names h')

  pub allow-Stands_other :
      (now : Time) (rl : RateLimiter) (j s : Text) (b : Bucket)
      → occurs j names ≡ true
      → IsReady now rl
      → same j s ≡ false
      → Stands rate burst now (lookup s rl.buckets) b
      → Stands rate burst now (lookup s (allow rl now j).0.buckets) b
  unfolding allow
  allow-Stands_other now rl j s b in_names h other st =
      let rl' = maybe_cleanup now rl in
      let h' = maybe_cleanup-IsReady now rl h in
      let st' = maybe_cleanup-Stands now rl s b h st in
      rw (serve_in_lem now rl' j (lookup j rl'.buckets) in_names refl h')
        (rw (lookup-insert j s _ rl'.buckets) (rw other st'))

  pub allow-Stands_own :
      (now : Time) (rl : RateLimiter) (s : Text) (b : Bucket)
      → occurs s names ≡ true
      → IsReady now rl
      → Stands rate burst now (lookup s rl.buckets) b
      → ((allow rl now s).1 ≡ (serve rate burst now b).1)
        × Stands rate burst now (lookup s (allow rl now s).0.buckets) (serve rate burst now b).0
  unfolding allow
  allow-Stands_own now rl s b in_names h st =
      let rl' = maybe_cleanup now rl in
      let h' = maybe_cleanup-IsReady now rl h in
      let st' = maybe_cleanup-Stands now rl s b h st in
      let e = serve-Stands rate burst rate_pos fits now (lookup s rl'.buckets) b st' in
      rw (serve_in_lem now rl' s (lookup s rl'.buckets) in_names refl h')
        (ap (λ r. r.1) e, rw (lookup-insert_self s _ rl'.buckets) (ap (λ r. r.0) e))

  pub IsReady-later :
      (start now : Time) (rl : RateLimiter) → start ≤ now → IsReady start rl → IsReady now rl
  IsReady-later start now rl le h = record {
    tidy = record {
      distinct = h.tidy.distinct;
      sane = IsSane-later burst start now rl.buckets le h.tidy.sane;
    };
    rate_kept = h.rate_kept;
    burst_kept = h.burst_kept;
    known = h.known;
  }

  pub Stands-later :
      (start now : Time) (o : Option Bucket) (b : Bucket)
      → start ≤ now
      → Stands rate burst start o b
      → Stands rate burst now o b
  Stands-later start now none b le st = λ u h. st u (omega arith)
  Stands-later start now (some c) b le st = st
