-- ===== src/Base/Time.antt =====
-- Go's `time.Time` and `time.Duration`. A `Time` counts nanoseconds from Go's zero time, so 0 is
-- the zero value; a `Duration` is a signed number of nanoseconds that `Sub` saturates at 64 bits.
use Prim.Native.Nat.{ℕ, suc, ◌+◌, ◌-◌, ◌*◌, ◌/◌, ◌^◌, ◌≤◌, min}
use mathlib.Core.Path.{◌≡◌}
use mathlib.Core.Bool.{Bool}
use native.Mathlib.Omega.{arith}
use go_webapp_template.Base.Tests.{ltb, leb, ◌==◌, if◌then◌else◌}

-- `negsuc n` is -(n + 1).
pub data ℤ : Type 0 where
  pos : ℕ → ℤ
  negsuc : ℕ → ℤ

abbrev pub pos_part : ℤ → ℕ
pos_part (pos n) = n
pos_part (negsuc n) = 0

abbrev pub neg_part : ℤ → ℕ
neg_part (pos n) = 0
neg_part (negsuc n) = suc n

-- a - b, as an integer.
abbrev pub sub_ℕ : ℕ → ℕ → ℤ
sub_ℕ a b = if leb b a then pos (a - b) else negsuc (b - a - 1)

infixl 65 ◌+ℤ◌
infix 50 ◌≤ℤ◌
unfoldable pub ◌+ℤ◌ : ℤ → ℤ → ℤ
a +ℤ b = sub_ℕ (pos_part a + pos_part b) (neg_part a + neg_part b)

abbrev pub ◌≤ℤ◌ : ℤ → ℤ → Type 0
a ≤ℤ b = pos_part a + neg_part b ≤ pos_part b + neg_part a

abbrev pub leb_ℤ : ℤ → ℤ → Bool
leb_ℤ a b = leb (pos_part a + neg_part b) (pos_part b + neg_part a)

abbrev pub ltb_ℤ : ℤ → ℤ → Bool
ltb_ℤ a b = ltb (pos_part a + neg_part b) (pos_part b + neg_part a)

-- Go's `/` rounds towards zero; the divisor is positive.
unfoldable pub quo : ℤ → ℕ → ℤ
quo (pos n) d = pos (n / d)
quo (negsuc n) d = sub_ℕ 0 (suc n / d)

abbrev pub Time : Type 0
Time = ℕ

abbrev pub Duration : Type 0
Duration = ℤ

abbrev pub second : ℕ
second = 1000000000

abbrev pub max_duration : ℕ
max_duration = 2 ^ 63 - 1

-- `time.Unix(t, 0)`: the seconds count from 1970.
unfoldable pub time_of_unix : ℤ → Time
time_of_unix t = (62135596800 + pos_part t - neg_part t) * second

-- `now.Sub(t)`
unfoldable pub sub : Time → Time → Duration
sub now t =
    if leb t now then pos (min (now - t) max_duration) else negsuc (min (t - now - 1) max_duration)

-- `t.IsZero()` and `t.Before(u)`
abbrev pub is_zero : Time → Bool
is_zero t = t == 0

abbrev pub before : Time → Time → Bool
before t u = ltb t u

-- `now.Sub(t) >= d` and `now.Sub(t) < d`, for a positive constant `d`.
abbrev pub at_least : Duration → ℕ → Bool
at_least e d = leb_ℤ (pos d) e

abbrev pub less_than : Duration → ℕ → Bool
less_than e d = ltb_ℤ e (pos d)

-- In the direction of time a difference is the number of nanoseconds passed, up to the cap.
pub sub_forward : (t now : Time) → t ≤ now → sub now t ≡ pos (min (now - t) max_duration)
unfolding sub
sub_forward t now h = ground arith
