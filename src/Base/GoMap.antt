-- ===== src/Base/GoMap.antt =====
-- A Go map as the program sees it: which value each key has, and not in which order a `range`
-- gives them. It is the quotient of the association lists that hold each key once.
use mathlib.Core.Path.{◌≡◌, refl}
use mathlib.Core.Bool.{false}
use mathlib.Core.Quot
use mathlib.Core.Quot.{Quot, Quot-set}
use native.Mathlib.Omega.{arith}
use go_webapp_template.Base.Text.{Text, same, same_iff}
use go_webapp_template.Base.Dict.{
  Dict, lookup, insert, HasDistinctKeys, insert-HasDistinctKeys, lookup-insert,
}

abbrev pub Distinct : Type 0 → Type 0
Distinct V = (m : Dict V) × HasDistinctKeys m

abbrev pub SameContents : {V : Type 0} → Distinct V → Distinct V → Type 0
SameContents (m, d) (m', d') = (j : Text) → lookup j m ≡ lookup j m'

abbrev pub GoMap : Type 0 → Type 0
GoMap V = Quot (SameContents {V = V})

module _ {V : Type 0} where
  abbrev pub put_in : Text → V → Distinct V → Distinct V
  put_in k v (m, d) = (insert k v m, insert-HasDistinctKeys k v m d)

  pub insert-SameContents :
      (k : Text) (v : V) (a b : Distinct V)
      → SameContents a b
      → SameContents (put_in k v a) (put_in k v b)
  insert-SameContents k v (m, d) (m', d') h j =
      rw (lookup-insert k j v m, lookup-insert k j v m', h j) refl

  -- `m[k] = v`
  unfoldable pub put : Text → V → GoMap V → GoMap V
  put k v =
      Quot.lift Quot-set (λ a. Quot.mk (put_in k v a))
        (λ a b h. Quot.sound (insert-SameContents k v a b h))

  insert-insert_comm :
      (k j : Text) (v w : V) (a : Distinct V)
      → same k j ≡ false
      → SameContents (put_in k v (put_in j w a)) (put_in j w (put_in k v a))
  insert-insert_comm k j v w (m, d) h i =
      rw
        (
          lookup-insert k i v (insert j w m),
          lookup-insert j i w m,
          lookup-insert j i w (insert k v m),
          lookup-insert k i v m,
        )
        (ground (arith, same_iff k j, same_iff k i, same_iff j i))

  -- Writes under two keys can be done in either order.
  pub put-put_comm :
      (k j : Text) (v w : V) (m : GoMap V)
      → same k j ≡ false
      → put k v (put j w m) ≡ put j w (put k v m)
  unfolding put
  put-put_comm k j v w m h =
      Quot.ind {β = λ m. put k v (put j w m) ≡ put j w (put k v m)} (λ b. Quot-set _ _)
        (λ a. Quot.sound (insert-insert_comm k j v w a h)) m
