-- ===== src/Base/Dict.antt =====
-- Go maps with string keys: association lists, in the order that a `range` over the map happens
-- to take. A Go map holds a key once, which is `HasDistinctKeys` here.
use Prim.Native.Nat.{◌+◌, ◌≤◌}
use mathlib.Core.Path.{◌≡◌, refl}
use mathlib.Core.Bool.{Bool}
use mathlib.Core.Option.{Option, none, some}
use mathlib.Core.List.{List, [], ◌∷◌}
use native.Mathlib.Omega.{arith}
use go_webapp_template.Base.Tests.{if◌then◌else◌}
use go_webapp_template.Base.Lists.{length, filter, All}
use go_webapp_template.Base.Text.{Text, same, same_iff, same_refl}

abbrev pub Dict {ℓ} : Type ℓ → Type ℓ
Dict V = List (Text × V)

module _ {ℓ} {V : Type ℓ} where
  -- `v, ok := m[k]`
  unfoldable pub lookup : Text → Dict V → Option V
  lookup k [] = none
  lookup k ((j, v) ∷ m) = if same j k then some v else lookup k m

  -- `m[k] = v`
  unfoldable pub insert : Text → V → Dict V → Dict V
  insert k v [] = (k, v) ∷ []
  insert k v ((j, w) ∷ m) = if same j k then (k, v) ∷ m else (j, w) ∷ insert k v m

  -- `delete(m, k)`
  unfoldable pub remove : Text → Dict V → Dict V
  remove k [] = []
  remove k ((j, w) ∷ m) = let rest = remove k m in if same j k then rest else (j, w) ∷ rest

  pub lookup-insert :
      (k j : Text) (v : V) (m : Dict V)
      → lookup j (insert k v m) ≡ (if same k j then some v else lookup j m)
  unfolding lookup insert
  lookup-insert k j v [] = refl
  lookup-insert k j v ((i, w) ∷ m) =
      ground (arith, same_iff k j, same_iff i k, same_iff i j, lookup-insert k j v m)

  pub lookup-insert_self : (k : Text) (v : V) (m : Dict V) → lookup k (insert k v m) ≡ some v
  lookup-insert_self k v m = rw (lookup-insert k k v m, same_refl k)

  pub lookup-remove :
      (k j : Text) (m : Dict V) → lookup j (remove k m) ≡ (if same k j then none else lookup j m)
  unfolding lookup remove
  lookup-remove k j [] = ground arith
  lookup-remove k j ((i, w) ∷ m) =
      ground (arith, same_iff k j, same_iff i k, same_iff i j, lookup-remove k j m)

  pub length-insert_new :
      (k : Text) (v : V) (m : Dict V) → lookup k m ≡ none → length (insert k v m) ≡ length m + 1
  unfolding lookup insert
  length-insert_new k v [] h = omega arith
  length-insert_new k v ((j, w) ∷ m) h = ground (arith, length-insert_new k v m)

  pub length-insert_old :
      (k : Text) (v w : V) (m : Dict V) → lookup k m ≡ some w → length (insert k v m) ≡ length m
  unfolding lookup insert
  length-insert_old k v w [] h = cc
  length-insert_old k v w ((j, u) ∷ m) h = ground (arith, length-insert_old k v w m)

  pub length-remove-le : (k : Text) (m : Dict V) → length (remove k m) ≤ length m
  unfolding remove
  length-remove-le k [] = omega arith
  length-remove-le k ((j, u) ∷ m) = ground (arith, length-remove-le k m)

  pub length-remove_old :
      (k : Text) (w : V) (m : Dict V) → lookup k m ≡ some w → length (remove k m) + 1 ≤ length m
  unfolding lookup remove
  length-remove_old k w [] h = cc
  length-remove_old k w ((j, u) ∷ m) h =
      ground (arith, length-remove_old k w m, length-remove-le k m)

  abbrev pub HasDistinctKeys : Dict V → Type ℓ
  HasDistinctKeys [] = Unit
  HasDistinctKeys ((k, v) ∷ m) = (lookup k m ≡ none) × HasDistinctKeys m

  pub insert-HasDistinctKeys :
      (k : Text) (v : V) (m : Dict V) → HasDistinctKeys m → HasDistinctKeys (insert k v m)
  unfolding lookup insert
  insert-HasDistinctKeys k v [] h = (refl, tt)
  insert-HasDistinctKeys k v ((j, w) ∷ m) (h, hs) =
      ground
        (arith, same_iff j k, same_iff k j, lookup-insert k j v m, insert-HasDistinctKeys k v m hs)

  pub remove-HasDistinctKeys :
      (k : Text) (m : Dict V) → HasDistinctKeys m → HasDistinctKeys (remove k m)
  unfolding remove
  remove-HasDistinctKeys k [] h = tt
  remove-HasDistinctKeys k ((j, w) ∷ m) (h, hs) =
      ground (arith, same_iff k j, lookup-remove k j m, remove-HasDistinctKeys k m hs)

  -- What a sweep keeps: a `range` over the map with a `delete` under a test on the value.
  module _ (keep : V → Bool) where
    abbrev pub sweep : Dict V → Dict V
    sweep m = filter (λ e. keep e.1) m

    pub lookup-sweep-none : (k : Text) (m : Dict V) → lookup k m ≡ none → lookup k (sweep m) ≡ none
    unfolding lookup
    lookup-sweep-none k [] h = refl
    lookup-sweep-none k ((j, w) ∷ m) h = ground (arith, lookup-sweep-none k m)

    pub lookup-sweep :
        (k : Text) (v : V) (m : Dict V)
        → HasDistinctKeys m
        → lookup k m ≡ some v
        → lookup k (sweep m) ≡ (if keep v then some v else none)
    unfolding lookup
    lookup-sweep k v [] d h = cc
    lookup-sweep k v ((j, w) ∷ m) (new, d) h =
        ground (arith, same_iff j k, lookup-sweep-none k m, lookup-sweep k v m d)

    pub sweep-HasDistinctKeys : (m : Dict V) → HasDistinctKeys m → HasDistinctKeys (sweep m)
    sweep-HasDistinctKeys [] h = tt
    sweep-HasDistinctKeys ((j, w) ∷ m) (h, hs) =
        ground (arith, lookup-sweep-none j m, sweep-HasDistinctKeys m hs)

  -- A predicate on every entry is kept by the operations.
  module _ {κ} (P : Text × V → Type κ) where
    pub All-insert : (k : Text) (v : V) (m : Dict V) → All P m → P (k, v) → All P (insert k v m)
    unfolding insert
    All-insert k v [] h p = (p, tt)
    All-insert k v ((j, w) ∷ m) (h, hs) p = ground (arith, All-insert k v m hs p)

    pub All-remove : (k : Text) (m : Dict V) → All P m → All P (remove k m)
    unfolding remove
    All-remove k [] h = tt
    All-remove k ((j, w) ∷ m) (h, hs) = ground (arith, All-remove k m hs)

    pub All-sweep : (keep : V → Bool) (m : Dict V) → All P m → All P (sweep keep m)
    All-sweep keep [] h = tt
    All-sweep keep ((j, w) ∷ m) (h, hs) = ground (arith, All-sweep keep m hs)

    pub All-lookup : (k : Text) (v : V) (m : Dict V) → All P m → lookup k m ≡ some v → P (k, v)
    unfolding lookup
    All-lookup k v [] h e = cc
    All-lookup k v ((j, w) ∷ m) (h, hs) e = ground (arith, same_iff j k, All-lookup k v m hs)
