-- ===== src/RateLimit/Buckets.antt =====
-- One bucket of internal/api/ratelimit.go: the refill, read over natural numbers.
use Prim.Native.Nat.{min}
use native.Mathlib.Nat.{le-div_iff_mul-le}
use go_webapp_template.Base.{ℕ, ◌+◌, ◌-◌, ◌*◌, ◌/◌, ◌≤◌, ◌<◌, ◌≡◌, false, arith}
use go_webapp_template.Base.Time.{pos, pos_part, ◌≤ℤ◌, ◌+ℤ◌, quo, Time, sub_forward, max_duration}
use go_webapp_template.RateLimit.{
  Bucket, refill, take, serve, fresh_bucket, rate_limit_bucket_ttl, is_live,
}

-- What `allow` leaves behind: a number of tokens from 0 to the burst, and a time that has passed.
pub record IsSane (burst : ℕ) (now : Time) (b : Bucket) : Type 0 where
  pub nonneg : pos 0 ≤ℤ b.tokens
  pub small : b.tokens ≤ℤ pos burst
  pub past : b.last ≤ now

-- The tokens earned in a span of time.
abbrev pub earned : ℕ → Time → Time → ℕ
earned rate last now = min (now - last) max_duration / rate

pub refill_forward :
    (rate burst now : ℕ) (b : Bucket)
    → IsSane burst now b
    → refill rate burst now b ≡ pos (min (pos_part b.tokens + earned rate b.last now) burst)
unfolding refill ◌+ℤ◌ quo
refill_forward rate burst now b h = ground (arith, sub_forward b.last now h.past)

pub serve-IsSane :
    (rate burst now : ℕ) (b : Bucket)
    → IsSane burst now b
    → IsSane burst now (serve rate burst now b).0
unfolding take ◌+ℤ◌
serve-IsSane rate burst now b h = ground (arith, refill_forward rate burst now b h)

-- A bucket that is back at the burst at every later call.
abbrev pub IsFull : ℕ → ℕ → Time → Bucket → Type 0
IsFull rate burst now b = (u : Time) → now ≤ u → refill rate burst u b ≡ pos burst

pub fresh_bucket-IsFull : (rate burst now : ℕ) → IsFull rate burst now (fresh_bucket burst)
unfolding refill ◌+ℤ◌ quo
fresh_bucket-IsFull rate burst now u h = ground (arith, sub_forward 0 u)

pub idle-IsFull :
    (rate burst now : ℕ) (b : Bucket)
    → 0 < rate
    → burst * rate ≤ rate_limit_bucket_ttl
    → IsSane burst now b
    → is_live now b ≡ false
    → IsFull rate burst now b
idle-IsFull rate burst now b r fits h idle u le = ground (
  arith,
  refill_forward rate burst u b
      (record { nonneg = h.nonneg; small = h.small; past = omega (arith, h.past) }),
  sub_forward b.last now h.past,
  (le-div_iff_mul-le {x = burst} {y = min (u - b.last) max_duration} r).1,
)
