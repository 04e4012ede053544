-- ===== src/Base/Decimal.antt =====
-- `strconv.FormatUint(n, 10)` and `strconv.Itoa` on numbers that are not negative: a number below
-- 2 ^ 64 has at most twenty digits, which bounds the rounds.
use Prim.Native.Nat.{ℕ, zero, suc, ◌+◌, ◌-◌, ◌*◌, ◌/◌, ◌%◌, ◌^◌, ◌<◌}
use mathlib.Core.Path.{◌≡◌, refl}
use mathlib.Core.List.{[], ◌∷◌, ◌++◌}
use native.Mathlib.Omega.{arith}
use go_webapp_template.Base.Tests.{ltb, if◌then◌else◌}
use go_webapp_template.Base.Text.{Text}

unfoldable pub digits : ℕ → ℕ → Text
digits zero n = []
digits (suc rounds) n =
    let rest = digits rounds (n / 10) in
    if ltb n 10 then (b'0' + n) ∷ [] else rest ++ (b'0' + n % 10) ∷ []

unfoldable pub format_uint : ℕ → Text
unfolding digits
format_uint n = digits 20 n

-- The number that digits stand for, behind a number read so far.
abbrev pub value_from : ℕ → Text → ℕ
value_from acc [] = acc
value_from acc (c ∷ s) = value_from (acc * 10 + (c - b'0')) s

value_from-append :
    (acc c : ℕ) (s : Text) → value_from acc (s ++ c ∷ []) ≡ value_from acc s * 10 + (c - b'0')
value_from-append acc c [] = refl
value_from-append acc c (d ∷ s) = value_from-append (acc * 10 + (d - b'0')) c s

value_from-digits : (rounds n : ℕ) → n < 10 ^ rounds → value_from 0 (digits rounds n) ≡ n
unfolding digits
value_from-digits zero n h = omega arith
value_from-digits (suc rounds) n h =
    let short : n / 10 < 10 ^ rounds = omega arith in
    let rest = value_from-digits rounds (n / 10) short in
    let last = value_from-append 0 (b'0' + n % 10) (digits rounds (n / 10)) in
    ground (arith, rest, last)

-- Twenty rounds are enough for every number of 64 bits.
pub value_from-format_uint : (n : ℕ) → n < 2 ^ 64 → value_from 0 (format_uint n) ≡ n
unfolding format_uint
value_from-format_uint n h = value_from-digits 20 n (omega arith)
