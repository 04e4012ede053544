-- ===== src/RateLimit/Capacity.antt =====
-- The bound on the number of buckets in internal/api/ratelimit.go, for every history of calls.
use go_webapp_template.Base.{
  ℕ, ◌+◌, ◌≤◌, ◌<◌, ◌≡◌, ◌≢◌, inl, inr, refl, ap, Option, none, some, List, [], ◌∷◌, arith, All,
  length, leb, leb→le, length-filter-le, Bool-cases,
}
use go_webapp_template.Base.Text.{Text}
use go_webapp_template.Base.Dict.{
  Dict, lookup, HasDistinctKeys, length-remove_old, length-insert_new, length-insert_old,
  insert-HasDistinctKeys, remove-HasDistinctKeys, sweep-HasDistinctKeys, All-insert, All-remove,
  All-sweep, lookup-remove,
}
use go_webapp_template.Base.Time.{Time, sub, at_least}
use go_webapp_template.RateLimit.{
  Bucket, RateLimiter, rate_limit_max_buckets, rate_limit_cleanup_interval, new_rate_limiter, take,
  is_live, cleanup_locked, maybe_cleanup, make_room, fresh_bucket, serve, serve_in, allow,
  allow_all,
}
use go_webapp_template.RateLimit.Eviction.{IsUsed, evict_oldest_locked_lem}

pub record IsBounded (buckets : Dict Bucket) : Type 0 where
  pub distinct : HasDistinctKeys buckets
  pub used : All IsUsed buckets
  pub capped : length buckets ≤ rate_limit_max_buckets

take-last : (now : Time) (b : Bucket) (rate burst : ℕ) → (serve rate burst now b).0.last ≡ now
unfolding take
take-last now b rate burst = ground arith

cleanup_locked-IsBounded :
    (now : Time) (m : Dict Bucket) → IsBounded m → IsBounded (cleanup_locked now m)
unfolding cleanup_locked
cleanup_locked-IsBounded now m h = record {
  distinct = sweep-HasDistinctKeys (is_live now) m h.distinct;
  used = All-sweep IsUsed (is_live now) m h.used;
  capped = omega (arith, h.capped, length-filter-le (λ (e : Text × Bucket). is_live now e.1) m);
}

pub maybe_cleanup-IsBounded :
    (now : Time) (rl : RateLimiter)
    → IsBounded rl.buckets
    → IsBounded (maybe_cleanup now rl).buckets
unfolding maybe_cleanup
maybe_cleanup-IsBounded now rl h =
    elim (Bool-cases (at_least (sub now rl.last_cleanup) rate_limit_cleanup_interval)) [
      | inl due ↦ rw due (cleanup_locked-IsBounded now rl.buckets h)
      | inr early ↦ rw early h
    ]

-- Making room leaves at most one bucket less than the limit, and adds no key.
make_room_lem :
    (m : Dict Bucket)
    → IsBounded m
    → IsBounded (make_room m)
      × (length (make_room m) + 1 ≤ rate_limit_max_buckets)
      × ((k : Text) → lookup k m ≡ none → lookup k (make_room m) ≡ none)
unfolding make_room
make_room_lem m h = elim (Bool-cases (leb rate_limit_max_buckets (length m))) [
  | inl full ↦
      let (k, b, found, _, e) =
        evict_oldest_locked_lem m
          (λ empty. absurd (omega (arith, leb→le _ _ full, ap length empty))) h.distinct h.used in
      rw (full, e)
        (
          record {
            distinct = remove-HasDistinctKeys k m h.distinct;
            used = All-remove IsUsed k m h.used;
            capped = omega (arith, h.capped, length-remove_old k b m found);
          },
          omega (arith, h.capped, length-remove_old k b m found),
          (λ j missing. ground (arith, lookup-remove k j m)),
        )
  | inr room ↦ rw room (h, ground arith, (λ k e. e))
]

serve_in-IsBounded :
    (rl : RateLimiter) (now : Time) (subject : Text) (o : Option Bucket)
    → lookup subject rl.buckets ≡ o
    → 0 < now
    → subject ≢ []
    → IsBounded rl.buckets
    → IsBounded (serve_in rl now subject o).0.buckets
unfolding serve_in
serve_in-IsBounded rl now subject (some b) e t ne h =
    let b' = (serve rl.rate rl.burst now b).0 in
    record {
      distinct = insert-HasDistinctKeys subject b' rl.buckets h.distinct;
      used =
          All-insert IsUsed subject b' rl.buckets h.used
            (ne, rw (take-last now b rl.rate rl.burst) t);
      capped = omega (arith, h.capped, length-insert_old subject b' b rl.buckets e);
    }
serve_in-IsBounded rl now subject none e t ne h =
    let b = fresh_bucket rl.burst in
    let b' = (serve rl.rate rl.burst now b).0 in
    let m = make_room rl.buckets in
    let (h', room, missing) = make_room_lem rl.buckets h in
    record {
      distinct = insert-HasDistinctKeys subject b' m h'.distinct;
      used = All-insert IsUsed subject b' m h'.used (ne, rw (take-last now b rl.rate rl.burst) t);
      capped = omega (arith, room, length-insert_new subject b' m (missing subject e));
    }

pub allow-IsBounded :
    (rl : RateLimiter) (now : Time) (subject : Text)
    → 0 < now
    → subject ≢ []
    → IsBounded rl.buckets
    → IsBounded (allow rl now subject).0.buckets
unfolding allow
allow-IsBounded rl now subject t ne h =
    serve_in-IsBounded (maybe_cleanup now rl) now subject _ refl t ne
      (maybe_cleanup-IsBounded now rl h)

-- Calls that the clock and the middleware can make.
abbrev pub IsCall : Time × Text → Type 0
IsCall (now, subject) = (0 < now) × (subject ≢ [])

allow_all-IsBounded :
    (rl : RateLimiter) (calls : List (Time × Text))
    → All IsCall calls
    → IsBounded rl.buckets
    → IsBounded (allow_all rl calls).0.buckets
unfolding allow_all
allow_all-IsBounded rl [] cs h = h
allow_all-IsBounded rl ((now, subject) ∷ calls) ((t, ne), cs) h =
    allow_all-IsBounded (allow rl now subject).0 calls cs (allow-IsBounded rl now subject t ne h)

-- Whatever the calls of a new limiter, with subjects that are not empty and a clock past Go's zero
-- time, it never holds more than `rateLimitMaxBuckets` buckets, each subject has at most one, and
-- no bucket is under the empty subject.
pub capacity :
    (rate burst : ℕ) (calls : List (Time × Text))
    → All IsCall calls
    → IsBounded (allow_all (new_rate_limiter rate burst) calls).0.buckets
unfolding new_rate_limiter
capacity rate burst calls cs =
    allow_all-IsBounded (new_rate_limiter rate burst) calls cs
      (record { distinct = tt; used = tt; capped = omega arith })
