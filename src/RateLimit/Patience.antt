-- ===== src/RateLimit/Patience.antt =====
-- The subjects that internal/api/ratelimit.go never refuses.
use Prim.Native.Nat.{min}
use native.Mathlib.Nat.{le-div_iff_mul-le}
use go_webapp_template.Base.{
  ℕ, ◌+◌, ◌-◌, ◌*◌, ◌≤◌, ◌<◌, ◌≡◌, Bool, true, List, [], ◌∷◌, arith, length, All,
}
use go_webapp_template.Base.Text.{Text}
use go_webapp_template.Base.Time.{◌+ℤ◌, Time, max_duration}
use go_webapp_template.RateLimit.{
  Bucket, rate_limit_max_buckets, rate_limit_bucket_ttl, new_rate_limiter, fresh_bucket, serve,
  take, allow_all,
}
use go_webapp_template.RateLimit.Buckets.{IsSane, earned, serve-IsSane, refill_forward}
use go_webapp_template.RateLimit.Isolation.{
  serve_all, times_of, answers_of, IsChronological, Among, isolation,
}
use go_webapp_template.RateLimit.Throughput.{serve-last, first_serve}

-- Each time is at least `rate` after the one before it.
abbrev pub IsPatient : ℕ → Time → List Time → Type 0
IsPatient rate start [] = Unit
IsPatient rate start (now ∷ times) = (start + rate ≤ now) × IsPatient rate now times

abbrev pub IsGranted : Bool → Type 0
IsGranted ok = ok ≡ true

module _ (rate burst : ℕ) (rate_pos : 0 < rate) (burst_pos : 0 < burst)
    (fits : burst * rate ≤ rate_limit_bucket_ttl) where
  rate-le : rate ≤ rate_limit_bucket_ttl
  rate-le = grind arith

  -- A full `rate` earns a token.
  earned-pos : (last now : Time) → last + rate ≤ now → 1 ≤ earned rate last now
  earned-pos last now le =
      (le-div_iff_mul-le {x = 1} {y = min (now - last) max_duration} rate_pos).1
        (omega (arith, rate-le))

  patient_serve :
      (now : Time) (b : Bucket)
      → IsSane burst now b
      → b.last + rate ≤ now
      → (serve rate burst now b).1 ≡ true
  unfolding take ◌+ℤ◌
  patient_serve now b h le =
      ground (arith, refill_forward rate burst now b h, earned-pos b.last now le)

  serve_all-All :
      (start : Time) (b : Bucket) (times : List Time)
      → IsSane burst start b
      → b.last ≡ start
      → IsPatient rate start times
      → All IsGranted (serve_all rate burst b times)
  serve_all-All start b [] h e patient = tt
  serve_all-All start b (now ∷ times) h e (late, patient) =
      let sane : IsSane burst now b = record {
        nonneg = h.nonneg;
        small = h.small;
        past = omega arith;
      } in
      (
        patient_serve now b sane (omega arith),
        serve_all-All now (serve rate burst now b).0 times (serve-IsSane rate burst now b sane)
            (serve-last rate burst rate_pos now b) patient,
      )

-- Under the conditions of `isolation`, a subject whose requests follow each other by `rate` or
-- more is never refused, whatever the other subjects do.
pub patience :
    (rate burst : ℕ) (names : List Text) (calls : List (Time × Text)) (s : Text) (first : Time)
    (times : List Time)
    → 0 < rate
    → 0 < burst
    → burst * rate ≤ rate_limit_bucket_ttl
    → length names ≤ rate_limit_max_buckets
    → Among names calls
    → IsChronological 0 calls
    → times_of s calls ≡ first ∷ times
    → IsPatient rate first times
    → All IsGranted (answers_of s calls (allow_all (new_rate_limiter rate burst) calls).1)
patience rate burst names calls s first times rate_pos burst_pos fits few among ordered e patient =
    let (ok, tokens, sane, last) = first_serve rate burst first burst_pos in
    rw (isolation rate burst names calls s rate_pos fits few among ordered, e)
      (
        ok,
        serve_all-All rate burst rate_pos burst_pos fits first
            (serve rate burst first (fresh_bucket burst)).0 times sane last patient,
      )
