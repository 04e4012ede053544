-- ===== src/Base/Text.antt =====
-- Go strings: lists of bytes, compared by `==` of the source.
use Prim.Native.Char.{code}
use Prim.Native.String.{String}
use Prim.Native.Nat.{ℕ}
use mathlib.Core.Path.{◌≡◌, refl}
use mathlib.Core.Logic.{◌↔◌}
use mathlib.Core.Bool.{Bool, true, false, ◌&&◌}
use mathlib.Core.List.{List, [], ◌∷◌}
use native.Mathlib.Omega.{arith}
use go_webapp_template.Base.Tests.{◌==◌}

abbrev pub Text : Type 0
Text = List ℕ

-- The bytes of an ASCII literal.
unfoldable pub text : String → Text
text String.[] = []
text (String.◌∷◌ c s) = code c ∷ text s

-- `a == b` on strings.
unfoldable pub same : Text → Text → Bool
same [] [] = true
same (a ∷ x) (b ∷ y) = a == b && same x y
same _ _ = false

same_sound : (x y : Text) → same x y ≡ true → x ≡ y
unfolding same
same_sound [] [] h = refl
same_sound (a ∷ x) (b ∷ y) h = ground (arith, same_sound x y)
same_sound [] (b ∷ y) h = cc
same_sound (a ∷ x) [] h = cc

pub same_refl : (x : Text) → same x x ≡ true
unfolding same
same_refl [] = refl
same_refl (a ∷ x) = ground (arith, same_refl x)

pub same_iff : (x y : Text) → (same x y ≡ true) ↔ (x ≡ y)
same_iff x y = (same_sound x y, λ e. rw e (same_refl y))

-- `s == ""`.
abbrev pub is_empty : Text → Bool
is_empty [] = true
is_empty (c ∷ s) = false

-- `strings.HasPrefix`.
unfoldable pub has_prefix : Text → Text → Bool
has_prefix s [] = true
has_prefix [] (c ∷ p) = false
has_prefix (d ∷ s) (c ∷ p) = d == c && has_prefix s p

-- What follows a prefix of the given shape; used once the prefix is known to be there.
abbrev pub drop_prefix : Text → Text → Text
drop_prefix s [] = s
drop_prefix [] (c ∷ p) = []
drop_prefix (d ∷ s) (c ∷ p) = drop_prefix s p
