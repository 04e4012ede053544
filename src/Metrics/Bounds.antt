-- ===== src/Metrics/Bounds.antt =====
-- The bounds of a histogram of internal/metrics/metrics.go: `HistogramVec` sorts them.
use go_webapp_template.Base.{
  ℕ, ◌≡◌, refl, true, false, some, List, [], ◌∷◌, ◌++◌, All, length, get_elem?, Bool-cases, inl,
  inr, arith,
}
use go_webapp_template.Base.Text.{Text}
use go_webapp_template.Metrics.{Float64, histogram, Family}
use go_webapp_template.Metrics.Registry.{
  Registry, is_name, register, new_family, insert_sorted, sort_floats, histogram_vec,
}
use go_webapp_template.Metrics.Tally.{count_le, IsAscending, IsTransitive}

-- Of two bounds, one is at most the other: none is a NaN.
abbrev pub IsTotal : {F : Type 0} → Float64 F → Type 0
IsTotal {F} fl = (a b : F) → fl.le a b ≡ false → fl.le b a ≡ true

get_elem?-snoc : {A : Type 0} (xs : List A) (x : A) → get_elem? (xs ++ x ∷ []) (length xs) ≡ some x
get_elem?-snoc [] x = refl
get_elem?-snoc (y ∷ xs) x = get_elem?-snoc xs x

module _ {F : Type 0} ⦃fl : Float64 F⦄ where
  module _ (total : IsTotal fl) (trans : IsTransitive fl) where
    le-All :
        (a b : F) (bs : List F)
        → fl.le a b ≡ true
        → All (λ c. fl.le b c ≡ true) bs
        → All (λ c. fl.le a c ≡ true) bs
    le-All a b [] h hs = tt
    le-All a b (c ∷ bs) h (k, ks) = (trans a b c h k, le-All a b bs h ks)

    insert_sorted-All :
        (a x : F) (bs : List F)
        → fl.le a x ≡ true
        → All (λ c. fl.le a c ≡ true) bs
        → All (λ c. fl.le a c ≡ true) (insert_sorted x bs)
    unfolding insert_sorted
    insert_sorted-All a x [] h hs = (h, tt)
    insert_sorted-All a x (b ∷ bs) h (k, ks) = elim (Bool-cases (fl.le x b)) [
      | inl here ↦ rw here (h, (k, ks))
      | inr later ↦ rw later (k, insert_sorted-All a x bs h ks)
    ]

    insert_sorted-IsAscending :
        (x : F) (bs : List F) → IsAscending bs → IsAscending (insert_sorted x bs)
    unfolding insert_sorted
    insert_sorted-IsAscending x [] h = (tt, tt)
    insert_sorted-IsAscending x (b ∷ bs) (h, hs) = elim (Bool-cases (fl.le x b)) [
      | inl here ↦ rw here ((here, le-All x b bs here h), (h, hs))
      | inr later ↦
          rw later (insert_sorted-All b x bs (total x b later) h, insert_sorted-IsAscending x bs hs)
    ]

    sort_floats-IsAscending : (bs : List F) → IsAscending (sort_floats bs)
    unfolding sort_floats
    sort_floats-IsAscending [] = tt
    sort_floats-IsAscending (b ∷ bs) =
        insert_sorted-IsAscending b (sort_floats bs) (sort_floats-IsAscending bs)

  count_le-insert_sorted :
      (v x : F) (bs : List F) → count_le v (insert_sorted x bs) ≡ count_le v (x ∷ bs)
  unfolding insert_sorted
  count_le-insert_sorted v x [] = refl
  count_le-insert_sorted v x (b ∷ bs) = elim (Bool-cases (fl.le x b)) [
    | inl here ↦ rw here refl
    | inr later ↦ rw later (omega (arith, count_le-insert_sorted v x bs))
  ]

  count_le-sort_floats : (v : F) (bs : List F) → count_le v (sort_floats bs) ≡ count_le v bs
  unfolding sort_floats
  count_le-sort_floats v [] = refl
  count_le-sort_floats v (b ∷ bs) =
      omega (arith, count_le-insert_sorted v b (sort_floats bs), count_le-sort_floats v bs)

  -- On buckets that are numbers, at least one, and under a name that is not registered yet,
  -- `HistogramVec` returns a pointer to a new histogram without series, with the labels given,
  -- whose bounds ascend and are the buckets: for every number, as many are at most that number.
  pub histogram_vec-IsAscending :
      (r : Registry F) (name help : Text) (b : F) (bs : List F) (labels : List Text)
      → IsTotal fl
      → IsTransitive fl
      → is_name name r.by_name ≡ false
      → (r' : Registry F) × (place : ℕ) × (f : Family F) × (histogram_vec r name help
            (b ∷ bs)
            labels
          ≡ some (r', place))
        × (get_elem? r'.families place ≡ some f)
        × (f.kind ≡ histogram)
        × (f.series ≡ [])
        × (f.label_names ≡ labels)
        × IsAscending f.bounds
        × ((v : F) → count_le v f.bounds ≡ count_le v (b ∷ bs))
  unfolding histogram_vec register
  histogram_vec-IsAscending r name help b bs labels total trans new =
      let f = new_family name help histogram labels (sort_floats (b ∷ bs)) in
      (
        record { families = r.families ++ f ∷ []; by_name = name ∷ r.by_name },
        length r.families,
        f,
        rw new refl,
        get_elem?-snoc r.families f,
        refl,
        refl,
        refl,
        sort_floats-IsAscending total trans (b ∷ bs),
        λ v. count_le-sort_floats v (b ∷ bs),
      )
