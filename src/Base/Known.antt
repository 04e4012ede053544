-- ===== src/Base/Known.antt =====
-- How many keys a map can hold: no more than the names they are taken from.
use Prim.Native.Nat.{◌+◌, ◌≤◌}
use mathlib.Core.Path.{◌≡◌}
use mathlib.Core.Bool.{Bool, true, false, ◌||◌}
use mathlib.Core.Option.{none}
use mathlib.Core.List.{List, [], ◌∷◌}
use native.Mathlib.Omega.{arith}
use go_webapp_template.Base.Tests.{if◌then◌else◌}
use go_webapp_template.Base.Lists.{length, All}
use go_webapp_template.Base.Text.{Text, same, same_iff}
use go_webapp_template.Base.Dict.{Dict, lookup, HasDistinctKeys}

-- The name is one of the names.
abbrev pub occurs : Text → List Text → Bool
occurs k [] = false
occurs k (j ∷ names) = same j k || occurs k names

-- The names without one of them.
abbrev without : Text → List Text → List Text
without k [] = []
without k (j ∷ names) = let rest = without k names in if same j k then rest else j ∷ rest

length-without-le : (k : Text) (names : List Text) → length (without k names) ≤ length names
length-without-le k [] = omega arith
length-without-le k (j ∷ names) = ground (arith, length-without-le k names)

length-without :
    (k : Text) (names : List Text)
    → occurs k names ≡ true
    → length (without k names) + 1 ≤ length names
length-without k [] h = cc
length-without k (j ∷ names) h = ground (arith, length-without k names, length-without-le k names)

occurs-without :
    (k j : Text) (names : List Text)
    → same k j ≡ false
    → occurs j names ≡ true
    → occurs j (without k names) ≡ true
occurs-without k j [] ne h = cc
occurs-without k j (i ∷ names) ne h =
    ground (arith, same_iff i k, same_iff i j, same_iff k j, occurs-without k j names ne)

module _ {ℓ} {V : Type ℓ} where
  -- Every key of the map is one of the names.
  abbrev pub HasKeysIn : List Text → Dict V → Type 0
  HasKeysIn names m = All (λ e. occurs e.0 names ≡ true) m

  HasKeysIn-without :
      (k : Text) (names : List Text) (m : Dict V)
      → lookup k m ≡ none
      → HasKeysIn names m
      → HasKeysIn (without k names) m
  unfolding lookup
  HasKeysIn-without k names [] new h = tt
  HasKeysIn-without k names ((j, v) ∷ m) new (h, hs) =
      ground
        (arith, same_iff j k, same_iff k j, occurs-without k j names, HasKeysIn-without k names m)

  pub length-HasKeysIn :
      (names : List Text) (m : Dict V)
      → HasDistinctKeys m
      → HasKeysIn names m
      → length m ≤ length names
  length-HasKeysIn names [] d h = omega arith
  length-HasKeysIn names ((k, v) ∷ m) (new, d) (h, hs) = omega (
    arith,
    length-without k names h,
    length-HasKeysIn (without k names) m d (HasKeysIn-without k names m new hs),
  )
