-- ===== src/RateLimit/Tokens.antt =====
-- The `int` tokens of internal/api/ratelimit.go: no sum leaves 64 bits.
use Prim.Native.Nat.{min}
use native.Mathlib.Nat.{le-div_iff_mul-le}
use go_webapp_template.Base.{
  ℕ, ◌+◌, ◌-◌, ◌*◌, ◌/◌, ◌^◌, ◌≤◌, ◌<◌, ◌≡◌, refl, inl, inr, Option, none, some, List, [], ◌∷◌, All,
  All-imp, Bool-cases, arith,
}
use go_webapp_template.Base.Text.{Text}
use go_webapp_template.Base.Dict.{Dict, lookup, All-insert, All-remove, All-sweep, All-lookup}
use go_webapp_template.Base.Time.{
  ℤ, negsuc, pos, ◌≤ℤ◌, ◌+ℤ◌, quo, Time, sub, sub_forward, max_duration, at_least,
}
use go_webapp_template.RateLimit.{
  Bucket, RateLimiter, rate_limit_cleanup_interval, new_rate_limiter, is_live, find_oldest,
  evict_oldest_locked, cleanup_locked, maybe_cleanup, make_room, fresh_bucket, serve, serve_in,
  allow, allow_all,
}
use go_webapp_template.RateLimit.Buckets.{IsSane, serve-IsSane}
use go_webapp_template.RateLimit.Sharing.{IsSane-later}
use go_webapp_template.RateLimit.Isolation.{IsChronological}

-- Between calls: the limiter's numbers, and buckets with 0 to `burst` tokens used before `now`.
record IsSound (rate burst : ℕ) (now : Time) (rl : RateLimiter) : Type 0 where
  same_rate : rl.rate ≡ rate
  same_burst : rl.burst ≡ burst
  sane : All (λ e. IsSane burst now e.1) rl.buckets

IsSound-later :
    (rate burst : ℕ) (start now : Time) (rl : RateLimiter)
    → start ≤ now
    → IsSound rate burst start rl
    → IsSound rate burst now rl
IsSound-later rate burst start now rl le h = record {
  same_rate = h.same_rate;
  same_burst = h.same_burst;
  sane = IsSane-later burst start now rl.buckets le h.sane;
}

maybe_cleanup-IsSound :
    (rate burst : ℕ) (now : Time) (rl : RateLimiter)
    → IsSound rate burst now rl
    → IsSound rate burst now (maybe_cleanup now rl)
unfolding maybe_cleanup cleanup_locked
maybe_cleanup-IsSound rate burst now rl h =
    elim (Bool-cases (at_least (sub now rl.last_cleanup) rate_limit_cleanup_interval)) [
      | inl due ↦ rw due (record {
        same_rate = h.same_rate;
        same_burst = h.same_burst;
        sane = All-sweep (λ e. IsSane burst now e.1) (is_live now) rl.buckets h.sane;
      })
      | inr early ↦ rw early h
    ]

make_room-All :
    (burst : ℕ) (now : Time) (m : Dict Bucket)
    → All (λ e. IsSane burst now e.1) m
    → All (λ e. IsSane burst now e.1) (make_room m)
unfolding make_room evict_oldest_locked
make_room-All burst now m h =
    let removed = All-remove (λ e. IsSane burst now e.1) (find_oldest m [] 0).0 m h in ground arith

serve_in-IsSound :
    (rate burst : ℕ) (now : Time) (rl : RateLimiter) (subject : Text) (o : Option Bucket)
    → lookup subject rl.buckets ≡ o
    → IsSound rate burst now rl
    → IsSound rate burst now (serve_in rl now subject o).0
unfolding serve_in
serve_in-IsSound rate burst now rl subject (some b) e h =
    let own : IsSane burst now b =
      All-lookup (λ e. IsSane burst now e.1) subject b rl.buckets h.sane e in
    let kept = serve-IsSane rl.rate rl.burst now b (rw h.same_burst own) in
    record {
      same_rate = h.same_rate;
      same_burst = h.same_burst;
      sane =
          All-insert (λ e. IsSane burst now e.1) subject (serve rl.rate rl.burst now b).0 rl.buckets
            h.sane (rw (← h.same_burst) kept);
    }
serve_in-IsSound rate burst now rl subject none e h =
    let b = fresh_bucket rl.burst in
    let new : IsSane rl.burst now b = record {
      nonneg = omega arith;
      small = omega arith;
      past = omega arith;
    } in
    let kept = serve-IsSane rl.rate rl.burst now b new in
    record {
      same_rate = h.same_rate;
      same_burst = h.same_burst;
      sane =
          All-insert (λ e. IsSane burst now e.1) subject (serve rl.rate rl.burst now b).0
            (make_room rl.buckets) (make_room-All burst now rl.buckets h.sane)
            (rw (← h.same_burst) kept);
    }

allow_all-IsSound :
    (rate burst : ℕ) (start : Time) (rl : RateLimiter) (calls : List (Time × Text))
    → IsChronological start calls
    → IsSound rate burst start rl
    → (now : Time) × IsSound rate burst now (allow_all rl calls).0
unfolding allow_all allow
allow_all-IsSound rate burst start rl [] c h = (start, h)
allow_all-IsSound rate burst start rl ((now, subject) ∷ calls) (le, c) h =
    let swept =
      maybe_cleanup-IsSound rate burst now rl (IsSound-later rate burst start now rl le h) in
    let rl' = maybe_cleanup now rl in
    allow_all-IsSound rate burst now (serve_in rl' now subject (lookup subject rl'.buckets)).0 calls
      c (serve_in-IsSound rate burst now rl' subject (lookup subject rl'.buckets) refl swept)

-- The sum in `b.tokens += int(elapsed / rl.rate)` at a call at `now`.
abbrev pub FitsWord : ℕ → ℕ → Bucket → Type 0
FitsWord rate burst b =
    (pos 0 ≤ℤ b.tokens)
    × (b.tokens ≤ℤ pos burst)
    × ((now : Time)
        → b.last ≤ now
        → let sum = b.tokens +ℤ quo (sub now b.last) rate in
          (pos 0 ≤ℤ sum) × (sum ≤ℤ pos (2 ^ 63 - 1)))

pub div_mono : (n m d : ℕ) → 0 < d → n ≤ m → n / d ≤ m / d
div_mono n m d r le =
    let least : n / d * d ≤ n = (le-div_iff_mul-le {x = n / d} {y = n} r).0 (omega arith) in
    (le-div_iff_mul-le {x = n / d} {y = m} r).1 (omega (arith, le, least))

sum_fits :
    (burst more : ℕ) (t : ℤ)
    → pos 0 ≤ℤ t
    → t ≤ℤ pos burst
    → burst + more < 2 ^ 63
    → (pos 0 ≤ℤ (t +ℤ pos more)) × ((t +ℤ pos more) ≤ℤ pos (2 ^ 63 - 1))
unfolding ◌+ℤ◌
sum_fits burst more (pos n) h k room = ground arith
sum_fits burst more (negsuc n) h k room = absurd (omega arith)

IsSane-FitsWord :
    (rate burst : ℕ) (now : Time) (b : Bucket)
    → 0 < rate
    → burst + max_duration / rate < 2 ^ 63
    → IsSane burst now b
    → FitsWord rate burst b
unfolding ◌+ℤ◌ quo
IsSane-FitsWord rate burst now b r room h = (
  h.nonneg,
  h.small,
  (λ u le.
      let span = min (u - b.last) max_duration in
      let earned : span / rate ≤ max_duration / rate =
        div_mono span max_duration rate r (omega arith) in
      rw (sub_forward b.last u le)
        (sum_fits burst (span / rate) b.tokens h.nonneg h.small (omega arith))),
)

-- From an empty limiter, on a clock that does not go back, with a positive rate and a burst so
-- small that it and all the tokens of the longest duration stay below 2 ^ 63: whatever the
-- requests, every bucket holds from 0 to the burst tokens, and the sum that its next refill
-- computes is from 0 to 2 ^ 63 - 1, so that no `int` wraps.
pub allow_all-FitsWord :
    (rate burst : ℕ) (start : Time) (calls : List (Time × Text))
    → 0 < rate
    → burst + max_duration / rate < 2 ^ 63
    → IsChronological start calls
    → All (λ e. FitsWord rate burst e.1) (allow_all (new_rate_limiter rate burst) calls).0.buckets
unfolding new_rate_limiter
allow_all-FitsWord rate burst start calls r room c =
    let new : IsSound rate burst start (new_rate_limiter rate burst) = record {
      same_rate = refl;
      same_burst = refl;
      sane = tt;
    } in
    let (now, h) = allow_all-IsSound rate burst start (new_rate_limiter rate burst) calls c new in
    All-imp (λ e. IsSane-FitsWord rate burst now e.1 r room) _ h.sane
