-- ===== src/RateLimit/Throughput.antt =====
-- How many requests a subject of internal/api/ratelimit.go is granted over time.
use native.Mathlib.Nat.{le-div_iff_mul-le, div-mul-le_self, div-eq_of_lt}
use Prim.Native.Nat.{min}
use go_webapp_template.Base.{
  ℕ, ◌+◌, ◌-◌, ◌*◌, ◌/◌, ◌≤◌, ◌<◌, ◌≡◌, Bool, true, List, [], ◌∷◌, arith, length, if◌then◌else◌,
}
use go_webapp_template.Base.Text.{Text}
use go_webapp_template.Base.Time.{pos_part, ◌+ℤ◌, Time, max_duration}
use go_webapp_template.RateLimit.{
  Bucket, rate_limit_max_buckets, rate_limit_bucket_ttl, new_rate_limiter, fresh_bucket, serve,
  take, allow_all,
}
use go_webapp_template.RateLimit.Buckets.{
  IsSane, earned, serve-IsSane, refill_forward, fresh_bucket-IsFull,
}
use go_webapp_template.RateLimit.Isolation.{
  serve_all, times_of, answers_of, IsChronological, Among, isolation,
}

-- The number of requests granted.
abbrev pub granted : List Bool → ℕ
granted [] = 0
granted (ok ∷ oks) = (if ok then 1 else 0) + granted oks

-- Times in order from `start`, and the last of them.
abbrev pub IsOrdered : Time → List Time → Type 0
IsOrdered start [] = Unit
IsOrdered start (now ∷ times) = (start ≤ now) × IsOrdered now times

abbrev pub last_of : Time → List Time → Time
last_of start [] = start
last_of start (now ∷ times) = last_of now times

last_of-ge :
    (start : Time) (times : List Time) → IsOrdered start times → start ≤ last_of start times
last_of-ge start [] h = omega arith
last_of-ge start (now ∷ times) (le, h) = omega (arith, last_of-ge now times h)

add-div-le : (a b c d : ℕ) → 0 < d → a + b ≤ c → a / d + b / d ≤ c / d
add-div-le a b c d h le =
    (le-div_iff_mul-le {x = a / d + b / d} {y = c} h).1
      (grind (arith, div-mul-le_self a d, div-mul-le_self b d))

-- Each time is less than `rate` after the one before it.
abbrev pub IsHasty : ℕ → Time → List Time → Type 0
IsHasty rate start [] = Unit
IsHasty rate start (now ∷ times) = (now < start + rate) × IsHasty rate now times

module _ (rate burst : ℕ) (rate_pos : 0 < rate) where
  -- One call spends at most what the bucket held and has earned since.
  serve_spends :
      (now : Time) (b : Bucket)
      → IsSane burst now b
      → pos_part (serve rate burst now b).0.tokens + (if (serve rate burst now b).1 then 1 else 0)
        ≤ pos_part b.tokens + earned rate b.last now
  unfolding take ◌+ℤ◌
  serve_spends now b h = ground (arith, refill_forward rate burst now b h)

  pub serve-last : (now : Time) (b : Bucket) → (serve rate burst now b).0.last ≡ now
  unfolding take
  serve-last now b = ground arith

  earned-le : (last now : Time) → earned rate last now ≤ (now - last) / rate
  earned-le last now =
      omega (
        arith,
        add-div-le (min (now - last) max_duration) 0 (now - last) rate rate_pos (omega arith),
      )

  pub granted-le :
      (start : Time) (b : Bucket) (times : List Time)
      → IsSane burst start b
      → b.last ≡ start
      → IsOrdered start times
      → granted (serve_all rate burst b times)
        ≤ pos_part b.tokens + (last_of start times - start) / rate
  granted-le start b [] h e ordered = omega arith
  granted-le start b (now ∷ times) h e (le, ordered) =
      let sane : IsSane burst now b = record {
        nonneg = h.nonneg;
        small = h.small;
        past = omega arith;
      } in
      let spent = serve_spends now b sane in
      let ih =
        granted-le now (serve rate burst now b).0 times (serve-IsSane rate burst now b sane)
          (serve-last now b) ordered in
      let gap : earned rate b.last now ≤ (now - start) / rate = rw e (earned-le start now) in
      let last = last_of-ge now times ordered in
      let split =
        add-div-le (now - start) (last_of now times - now) (last_of now times - start) rate rate_pos
          (omega arith) in
      omega arith

  -- Requests closer together than the rate earn nothing.
  pub granted-hasty :
      (start : Time) (b : Bucket) (times : List Time)
      → IsSane burst start b
      → b.last ≡ start
      → IsOrdered start times
      → IsHasty rate start times
      → granted (serve_all rate burst b times) ≤ pos_part b.tokens
  granted-hasty start b [] h e ordered hasty = omega arith
  granted-hasty start b (now ∷ times) h e (le, ordered) (soon, hasty) =
      let sane : IsSane burst now b = record {
        nonneg = h.nonneg;
        small = h.small;
        past = omega arith;
      } in
      let spent = serve_spends now b sane in
      let ih =
        granted-hasty now (serve rate burst now b).0 times (serve-IsSane rate burst now b sane)
          (serve-last now b) ordered hasty in
      let gap : earned rate b.last now ≤ (now - start) / rate = rw e (earned-le start now) in
      let nothing = div-eq_of_lt {n = now - start} {m = rate} (omega arith) in omega arith

IsOrdered-weaken : (a b : Time) (times : List Time) → a ≤ b → IsOrdered b times → IsOrdered a times
IsOrdered-weaken a b [] le h = tt
IsOrdered-weaken a b (now ∷ times) le (le', h) = (omega arith, h)

-- The calls of a subject are in order if all calls are.
pub times_of-IsOrdered :
    (start : Time) (s : Text) (calls : List (Time × Text))
    → IsChronological start calls
    → IsOrdered start (times_of s calls)
times_of-IsOrdered start s [] h = tt
times_of-IsOrdered start s ((now, j) ∷ calls) (le, h) =
    ground
      (arith, times_of-IsOrdered now s calls h, IsOrdered-weaken start now (times_of s calls) le)

-- The first call of a subject leaves a bucket below the burst by one.
pub first_serve :
    (rate burst now : ℕ)
    → 0 < burst
    → let r = serve rate burst now (fresh_bucket burst) in
      (r.1 ≡ true) × (pos_part r.0.tokens + 1 ≡ burst) × IsSane burst now r.0 × (r.0.last ≡ now)
unfolding take ◌+ℤ◌
first_serve rate burst now h = ground (arith, fresh_bucket-IsFull rate burst now now)

-- Under the conditions of `isolation`, between its first request and its last a subject is granted
-- at most the burst and one request for each full `rate` of the time between.
pub rate_bound :
    (rate burst : ℕ) (names : List Text) (calls : List (Time × Text)) (s : Text) (first : Time)
    (times : List Time)
    → 0 < rate
    → 0 < burst
    → burst * rate ≤ rate_limit_bucket_ttl
    → length names ≤ rate_limit_max_buckets
    → Among names calls
    → IsChronological 0 calls
    → times_of s calls ≡ first ∷ times
    → granted (answers_of s calls (allow_all (new_rate_limiter rate burst) calls).1)
      ≤ burst + (last_of first times - first) / rate
rate_bound rate burst names calls s first times rate_pos burst_pos fits few among ordered e =
    let (ok, tokens, sane, last) = first_serve rate burst first burst_pos in
    let in_order : IsOrdered 0 (first ∷ times) = rw e at (times_of-IsOrdered 0 s calls ordered) in
    let rest =
      granted-le rate burst rate_pos first (serve rate burst first (fresh_bucket burst)).0 times
        sane last in_order.1 in
    rw (isolation rate burst names calls s rate_pos fits few among ordered, e) (rw ok (omega arith))

-- Under the same conditions a subject whose requests follow each other by less than `rate` is
-- granted no more than the burst in all, however long it goes on.
pub starvation :
    (rate burst : ℕ) (names : List Text) (calls : List (Time × Text)) (s : Text) (first : Time)
    (times : List Time)
    → 0 < rate
    → 0 < burst
    → burst * rate ≤ rate_limit_bucket_ttl
    → length names ≤ rate_limit_max_buckets
    → Among names calls
    → IsChronological 0 calls
    → times_of s calls ≡ first ∷ times
    → IsHasty rate first times
    → granted (answers_of s calls (allow_all (new_rate_limiter rate burst) calls).1) ≤ burst
starvation rate burst names calls s first times rate_pos burst_pos fits few among ordered e hasty =
    let (ok, tokens, sane, last) = first_serve rate burst first burst_pos in
    let in_order : IsOrdered 0 (first ∷ times) = rw e at (times_of-IsOrdered 0 s calls ordered) in
    let rest =
      granted-hasty rate burst rate_pos first (serve rate burst first (fresh_bucket burst)).0 times
        sane last in_order.1 hasty in
    rw (isolation rate burst names calls s rate_pos fits few among ordered, e) (rw ok (omega arith))
