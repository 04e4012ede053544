-- ===== src/Metrics/Registry.antt =====
-- `Registry` of internal/metrics/metrics.go. `CounterVec`, `Gauge` and `HistogramVec` point to a
-- family: a pointer is the family's place in the list, which only grows.
use go_webapp_template.Base.{
  ℕ, Bool, Option, none, some, List, [], ◌∷◌, ◌++◌, any, length, get_elem?, set, if◌then◌else◌,
  ◌>>=◌,
}
use go_webapp_template.Base.Text.{Text, same}
use go_webapp_template.Metrics.{
  Float64, Kind, counter, gauge, histogram, Family, add, set_value, observe,
}

pub record Registry (F : Type 0) : Type 0 where
  pub families : List (Family F)
  pub by_name : List Text

abbrev pub is_name : Text → List Text → Bool
is_name n names = any (λ m. same m n) names

module _ {F : Type 0} where
  abbrev pub new_registry : Registry F
  new_registry = record { families = []; by_name = [] }

  unfoldable pub register : Registry F → Family F → Option (Registry F × ℕ)
  register r f =
      if is_name f.name r.by_name
      then none
      else some (
        record { families = r.families ++ f ∷ []; by_name = f.name ∷ r.by_name },
        length r.families,
      )

  abbrev pub new_family : Text → Text → Kind → List Text → List F → Family F
  new_family name help kind label_names bounds = record {
    name = name;
    help = help;
    kind = kind;
    label_names = label_names;
    bounds = bounds;
    series = [];
  }

  unfoldable pub counter_vec : Registry F → Text → Text → List Text → Option (Registry F × ℕ)
  unfolding register
  counter_vec r name help labels = register r (new_family name help counter labels [])

  unfoldable pub new_gauge : Registry F → Text → Text → Option (Registry F × ℕ)
  unfolding register
  new_gauge r name help = register r (new_family name help gauge [] [])

  -- An operation through a pointer.
  unfoldable pub on_family : Registry F → ℕ → (Family F → Option (Family F)) → Option (Registry F)
  on_family r h op = do
    f ← get_elem? r.families h
    f' ← op f
    some (record r { families = set r.families h f' })

module _ {F : Type 0} ⦃fl : Float64 F⦄ where
  -- `slices.Sort`, on floats that are numbers.
  unfoldable pub insert_sorted : F → List F → List F
  insert_sorted x [] = x ∷ []
  insert_sorted x (y ∷ ys) =
      let rest = insert_sorted x ys in if fl.le x y then x ∷ y ∷ ys else y ∷ rest

  unfoldable pub sort_floats : List F → List F
  unfolding insert_sorted
  sort_floats [] = []
  sort_floats (x ∷ xs) = insert_sorted x (sort_floats xs)

  unfoldable pub histogram_vec :
      Registry F → Text → Text → List F → List Text → Option (Registry F × ℕ)
  unfolding register sort_floats
  histogram_vec r name help [] labels = none
  histogram_vec r name help (b ∷ bs) labels =
      register r (new_family name help histogram labels (sort_floats (b ∷ bs)))

  unfoldable pub counter_inc : Registry F → ℕ → List Text → Option (Registry F)
  unfolding on_family add
  counter_inc r h values = on_family r h (λ f. add f fl.one values)

  unfoldable pub counter_add : Registry F → ℕ → F → List Text → Option (Registry F)
  unfolding on_family add
  counter_add r h delta values = on_family r h (λ f. add f delta values)

  unfoldable pub gauge_inc : Registry F → ℕ → Option (Registry F)
  unfolding on_family add
  gauge_inc r h = on_family r h (λ f. add f fl.one [])

  unfoldable pub gauge_dec : Registry F → ℕ → Option (Registry F)
  unfolding on_family add
  gauge_dec r h = on_family r h (λ f. add f fl.minus_one [])

  unfoldable pub gauge_set : Registry F → ℕ → F → Option (Registry F)
  unfolding on_family set_value
  gauge_set r h v = on_family r h (λ f. set_value f v [])

  unfoldable pub histogram_observe : Registry F → ℕ → F → List Text → Option (Registry F)
  unfolding on_family observe
  histogram_observe r h v values = on_family r h (λ f. observe f v values)
