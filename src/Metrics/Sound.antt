-- ===== src/Metrics/Sound.antt =====
-- The shape of the series of internal/metrics/metrics.go: every call of the registry keeps it.
use go_webapp_template.Base.{
  ℕ, zero, suc, ◌≡◌, refl, subst, Bool, true, false, Option, none, some, List, [], ◌∷◌, ◌++◌, All,
  All-append, length, get_elem?, set, replicate, >>=-eq-some, Bool-cases, inl, inr, arith,
}
use go_webapp_template.Base.Text.{Text}
use go_webapp_template.Base.Dict.{Dict, lookup, insert, All-insert, All-lookup}
use go_webapp_template.Metrics.{
  Float64, counter, gauge, histogram, is_histogram, Series, Family, join, bump, search_float64s,
  label_count, series_for, fresh, or_fresh, store, add, set_value, observe, observe_series,
}
use go_webapp_template.Metrics.Registry.{
  Registry, is_name, register, new_family, on_family, counter_vec, new_gauge, histogram_vec,
  counter_inc, counter_add, gauge_inc, gauge_dec, gauge_set, histogram_observe, sort_floats,
}
use go_webapp_template.Metrics.Calls.{
  Call, new_counter, new_single, new_histogram, count_one, count_by, raise_gauge, lower_gauge,
  put_gauge, record_value, forget, run, run_all,
}

-- A series with a value for each name and, in a histogram, a bucket for each bound.
abbrev pub HasBuckets : Bool → ℕ → ℕ → Type 0
HasBuckets true n m = n ≡ m
HasBuckets false n m = Unit

pub record IsShaped {F : Type 0} (f : Family F) (e : Text × Series F) : Type 0 where
  pub valued : length e.1.labels ≡ length f.label_names
  pub bucketed : HasBuckets (is_histogram f.kind) (length e.1.buckets) (length f.bounds)

abbrev pub IsSound : {F : Type 0} → Family F → Type 0
IsSound f = All (IsShaped f) f.series

length-bump : (i : ℕ) (cs : List ℕ) → length (bump i cs) ≡ length cs
unfolding bump
length-bump i [] = refl
length-bump zero (c ∷ cs) = refl
length-bump (suc i) (c ∷ cs) = omega (arith, length-bump i cs)

length-replicate : (n : ℕ) → length (replicate {A = ℕ} n 0) ≡ n
length-replicate zero = refl
length-replicate (suc n) = omega (arith, length-replicate n)

bump-HasBuckets :
    (b : Bool) (i : ℕ) (cs : List ℕ) (m : ℕ)
    → HasBuckets b (length cs) m
    → HasBuckets b (length (bump i cs)) m
bump-HasBuckets true i cs m h = omega (arith, length-bump i cs)
bump-HasBuckets false i cs m h = tt

module _ {F : Type 0} ⦃fl : Float64 F⦄ where
  fresh-IsShaped :
      (f : Family F) (values : List Text) (k : Text)
      → length values ≡ length f.label_names
      → IsShaped f (k, fresh f values)
  fresh-IsShaped f values k e = elim (Bool-cases (is_histogram f.kind)) [
    | inl hist ↦ record { valued = e; bucketed = rw hist (length-replicate (length f.bounds)) }
    | inr other ↦ record { valued = e; bucketed = rw other tt }
  ]

  series_for-IsShaped :
      (f : Family F) (values : List Text) (o : Option (Series F))
      → length values ≡ length f.label_names
      → lookup (join values) f.series ≡ o
      → IsSound f
      → IsShaped f (join values, or_fresh f values o)
  series_for-IsShaped f values none e found h = fresh-IsShaped f values (join values) e
  series_for-IsShaped f values (some s) e found h =
      All-lookup (IsShaped f) (join values) s f.series h found

  label_count-some :
      (f : Family F) (values : List Text) {u : Unit {0}}
      → label_count f values ≡ some u
      → length values ≡ length f.label_names
  unfolding label_count
  label_count-some f values h = ground arith

  store-IsSound :
      (f : Family F) (values : List Text) (s : Series F)
      → IsSound f
      → IsShaped f (join values, s)
      → All (IsShaped (store f values s)) (store f values s).series
  store-IsSound f values s h shaped =
      reshape (insert (join values) s f.series)
        (All-insert (IsShaped f) (join values) s f.series h shaped)
    where
      reshape : (m : Dict (Series F)) → All (IsShaped f) m → All (IsShaped (store f values s)) m
      reshape [] hs = tt
      reshape (e ∷ m) (h, hs) = (record { valued = h.valued; bucketed = h.bucketed }, reshape m hs)

  add-IsSound :
      (f : Family F) (delta : F) (values : List Text) (f' : Family F)
      → add f delta values ≡ some f'
      → IsSound f
      → IsSound f'
  unfolding add series_for
  add-IsSound f delta values f' ran h =
      let (u, counted, rest) = >>=-eq-some (label_count f values) _ ran in
      let s = or_fresh f values (lookup (join values) f.series) in
      let shaped = series_for-IsShaped f values _ (label_count-some f values counted) refl h in
      let e : store f values (record s { value = fl.plus s.value delta }) ≡ f' = cc in
      subst (λ f'. IsSound f') e
        (store-IsSound f values _ h (record { valued = shaped.valued; bucketed = shaped.bucketed }))

  set_value-IsSound :
      (f : Family F) (v : F) (values : List Text) (f' : Family F)
      → set_value f v values ≡ some f'
      → IsSound f
      → IsSound f'
  unfolding set_value series_for
  set_value-IsSound f v values f' ran h =
      let (u, counted, rest) = >>=-eq-some (label_count f values) _ ran in
      let s = or_fresh f values (lookup (join values) f.series) in
      let shaped = series_for-IsShaped f values _ (label_count-some f values counted) refl h in
      let e : store f values (record s { value = v }) ≡ f' = cc in
      subst (λ f'. IsSound f') e
        (store-IsSound f values _ h (record { valued = shaped.valued; bucketed = shaped.bucketed }))

  observe-IsSound :
      (f : Family F) (v : F) (values : List Text) (f' : Family F)
      → observe f v values ≡ some f'
      → IsSound f
      → IsSound f'
  unfolding observe observe_series series_for
  observe-IsSound f v values f' ran h =
      let (u, counted, rest) = >>=-eq-some (label_count f values) _ ran in
      let s = or_fresh f values (lookup (join values) f.series) in
      let shaped = series_for-IsShaped f values _ (label_count-some f values counted) refl h in
      let e : store f values (observe_series f.bounds v s) ≡ f' = cc in
      subst (λ f'. IsSound f') e
        (store-IsSound f values _ h (record {
          valued = shaped.valued;
          bucketed =
              bump-HasBuckets (is_histogram f.kind) (search_float64s f.bounds v) s.buckets
                (length f.bounds) shaped.bucketed;
        }))

  abbrev pub AllSound : Registry F → Type 0
  AllSound r = All (λ (f : Family F). IsSound f) r.families

  All-set :
      (fs : List (Family F)) (i : ℕ) (f : Family F)
      → All (λ (f : Family F). IsSound f) fs
      → IsSound f
      → All (λ (f : Family F). IsSound f) (set fs i f)
  All-set [] i f h k = tt
  All-set (g ∷ fs) zero f (h, hs) k = (k, hs)
  All-set (g ∷ fs) (suc i) f (h, hs) k = (h, All-set fs i f hs k)

  All-get_elem? :
      (fs : List (Family F)) (i : ℕ) (f : Family F)
      → All (λ (f : Family F). IsSound f) fs
      → get_elem? fs i ≡ some f
      → IsSound f
  All-get_elem? [] i f h e = cc
  All-get_elem? (g ∷ fs) zero f (h, hs) e =
      let same_family : g ≡ f = cc in subst (λ f. IsSound f) same_family h
  All-get_elem? (g ∷ fs) (suc i) f (h, hs) e = All-get_elem? fs i f hs e

  on_family-AllSound :
      (r r' : Registry F) (place : ℕ) (op : Family F → Option (Family F))
      → ((f f' : Family F) → op f ≡ some f' → IsSound f → IsSound f')
      → on_family r place op ≡ some r'
      → AllSound r
      → AllSound r'
  unfolding on_family
  on_family-AllSound r r' place op keeps ran h =
      let (f, found, ran₁) = >>=-eq-some (get_elem? r.families place) _ ran in
      let (f', done, ran₂) = >>=-eq-some (op f) _ ran₁ in
      let e : record r { families = set r.families place f' } ≡ r' = cc in
      subst (λ (r' : Registry F). AllSound r') e
        (All-set r.families place f' h (keeps f f' done (All-get_elem? r.families place f h found)))

  register-AllSound :
      (r r' : Registry F) (f : Family F)
      → f.series ≡ []
      → forget (register r f) ≡ some r'
      → AllSound r
      → AllSound r'
  unfolding register
  register-AllSound r r' f new ran h = elim (Bool-cases (is_name f.name r.by_name)) [
    | inl taken ↦ cc (rw taken at ran)
    | inr free ↦
        let e : record { families = r.families ++ f ∷ []; by_name = f.name ∷ r.by_name } ≡ r' =
          cc (rw free at ran) in
        subst (λ (r' : Registry F). AllSound r') e
          (All-append (λ (f : Family F). IsSound f) r.families (f ∷ []) h (rw new tt, tt))
  ]

  run-AllSound : (r r' : Registry F) (c : Call F) → run r c ≡ some r' → AllSound r → AllSound r'
  unfolding run counter_vec new_gauge histogram_vec counter_inc counter_add gauge_inc gauge_dec
      gauge_set histogram_observe
  run-AllSound r r' (new_counter name help labels) ran h =
      register-AllSound r r' (new_family name help counter labels []) refl ran h
  run-AllSound r r' (new_single name help) ran h =
      register-AllSound r r' (new_family name help gauge [] []) refl ran h
  run-AllSound r r' (new_histogram name help [] labels) ran h = cc
  run-AllSound r r' (new_histogram name help (b ∷ bs) labels) ran h =
      register-AllSound r r' (new_family name help histogram labels (sort_floats (b ∷ bs))) refl ran
        h
  run-AllSound r r' (count_one place values) ran h =
      on_family-AllSound r r' place _ (λ f f'. add-IsSound f fl.one values f') ran h
  run-AllSound r r' (count_by place delta values) ran h =
      on_family-AllSound r r' place _ (λ f f'. add-IsSound f delta values f') ran h
  run-AllSound r r' (raise_gauge place) ran h =
      on_family-AllSound r r' place _ (λ f f'. add-IsSound f fl.one [] f') ran h
  run-AllSound r r' (lower_gauge place) ran h =
      on_family-AllSound r r' place _ (λ f f'. add-IsSound f fl.minus_one [] f') ran h
  run-AllSound r r' (put_gauge place v) ran h =
      on_family-AllSound r r' place _ (λ f f'. set_value-IsSound f v [] f') ran h
  run-AllSound r r' (record_value place v values) ran h =
      on_family-AllSound r r' place _ (λ f f'. observe-IsSound f v values f') ran h

  pub run_all-AllSound :
      (r r' : Registry F) (calls : List (Call F))
      → run_all r calls ≡ some r'
      → AllSound r
      → AllSound r'
  unfolding run_all
  run_all-AllSound r r' [] ran h =
      let e : r ≡ r' = cc in subst (λ (r' : Registry F). AllSound r') e h
  run_all-AllSound r r' (c ∷ calls) ran h =
      let (r₁, first, rest) = >>=-eq-some (run r c) _ ran in
      run_all-AllSound r₁ r' calls rest (run-AllSound r r₁ c first h)
