-- ===== src/RateLimit/Isolation.antt =====
-- Each subject of internal/api/ratelimit.go meets a token bucket of its own: the shared map, its
-- sweeps and the buckets made anew cannot be told from one bucket kept for ever.
use go_webapp_template.Base.{
  ℕ, All, true, ◌*◌, ◌≤◌, ◌<◌, ◌≡◌, refl, inl, inr, Bool, List, [], ◌∷◌, length, Bool-cases,
  if◌then◌else◌,
}
use go_webapp_template.Base.Text.{Text, same, same_iff, same_refl}
use go_webapp_template.Base.Dict.{lookup}
use go_webapp_template.Base.Known.{occurs}
use go_webapp_template.Base.Time.{Time}
use go_webapp_template.RateLimit.{
  Bucket, RateLimiter, rate_limit_max_buckets, rate_limit_bucket_ttl, new_rate_limiter,
  fresh_bucket, serve, allow, allow_all,
}
use go_webapp_template.RateLimit.Sharing.{
  Stands, IsReady, IsReady-later, Stands-later, allow-IsReady, allow-Stands_other, allow-Stands_own,
}
use go_webapp_template.RateLimit.Buckets.{fresh_bucket-IsFull}

-- The specification: one bucket, and its answers at the given times.
abbrev pub serve_all : ℕ → ℕ → Bucket → List Time → List Bool
serve_all rate burst b [] = []
serve_all rate burst b (now ∷ times) =
    (serve rate burst now b).1 ∷ serve_all rate burst (serve rate burst now b).0 times

-- The times of the calls of one subject, and the answers that it gets.
abbrev pub times_of : Text → List (Time × Text) → List Time
times_of s [] = []
times_of s ((now, j) ∷ calls) = let rest = times_of s calls in if same j s then now ∷ rest else rest

abbrev pub answers_of : Text → List (Time × Text) → List Bool → List Bool
answers_of s [] oks = []
answers_of s (c ∷ calls) [] = []
answers_of s ((now, j) ∷ calls) (ok ∷ oks) =
    let rest = answers_of s calls oks in if same j s then ok ∷ rest else rest

-- The clock does not go back.
abbrev pub IsChronological : Time → List (Time × Text) → Type 0
IsChronological start [] = Unit
IsChronological start ((now, j) ∷ calls) = (start ≤ now) × IsChronological now calls

-- Every call comes from one of the names.
abbrev pub Among : List Text → List (Time × Text) → Type 0
Among names calls = All (λ c. occurs c.1 names ≡ true) calls

module _ (rate burst : ℕ) (names : List Text) (rate_pos : 0 < rate)
    (fits : burst * rate ≤ rate_limit_bucket_ttl)
    (few : length names ≤ rate_limit_max_buckets) where
  allow_all-Stands :
      (start : Time) (rl : RateLimiter) (calls : List (Time × Text)) (s : Text) (b : Bucket)
      → IsChronological start calls
      → Among names calls
      → IsReady rate burst names rate_pos fits few start rl
      → Stands rate burst start (lookup s rl.buckets) b
      → answers_of s calls (allow_all rl calls).1 ≡ serve_all rate burst b (times_of s calls)
  unfolding allow_all
  allow_all-Stands start rl [] s b ordered among h st = refl
  allow_all-Stands start rl ((now, j) ∷ calls) s b (le, ordered) (in_names, among) h st =
      let h' = IsReady-later rate burst names rate_pos fits few start now rl le h in
      let st' =
        Stands-later rate burst names rate_pos fits few start now (lookup s rl.buckets) b le st in
      let ready = allow-IsReady rate burst names rate_pos fits few now rl j in_names h' in
      elim (Bool-cases (same j s)) [
        | inl own ↦
            let j_s : j ≡ s = (same_iff j s).0 own in
            let s_in : occurs s names ≡ true = rw j_s at in_names in
            let (answer, st'') =
              allow-Stands_own rate burst names rate_pos fits few now rl s b s_in h' st' in
            let ih =
              allow_all-Stands now (allow rl now s).0 calls s (serve rate burst now b).0 ordered
                among (allow-IsReady rate burst names rate_pos fits few now rl s s_in h') st'' in
            rw j_s (rw (same_refl s) (cc (answer, ih)))
        | inr other ↦ rw other (
            allow_all-Stands now (allow rl now j).0 calls s b ordered among ready (
              allow-Stands_other rate burst names rate_pos fits few now rl j s b in_names h' other
                st'))
      ]

-- If a bucket refills within the time after which it is swept, the clock does not go back, and the
-- subjects that call are not more than `rateLimitMaxBuckets`, then each subject gets the answers of
-- a bucket of its own, whatever the other subjects do, however many calls there are and whatever
-- the limiter has swept in between.
pub isolation :
    (rate burst : ℕ) (names : List Text) (calls : List (Time × Text)) (s : Text)
    → 0 < rate
    → burst * rate ≤ rate_limit_bucket_ttl
    → length names ≤ rate_limit_max_buckets
    → Among names calls
    → IsChronological 0 calls
    → answers_of s calls (allow_all (new_rate_limiter rate burst) calls).1
      ≡ serve_all rate burst (fresh_bucket burst) (times_of s calls)
unfolding new_rate_limiter lookup
isolation rate burst names calls s rate_pos fits few among ordered =
    allow_all-Stands rate burst names rate_pos fits few 0 (new_rate_limiter rate burst) calls s
      (fresh_bucket burst) ordered among
      (record {
        tidy = record { distinct = tt; sane = tt };
        rate_kept = refl;
        burst_kept = refl;
        known = tt;
      })
      (fresh_bucket-IsFull rate burst 0)
