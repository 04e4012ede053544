-- ===== src/Metrics/Histogram.antt =====
-- The histograms of internal/metrics/metrics.go, from the observations to the lines of their
-- buckets.
use go_webapp_template.Base.{
  ℕ, suc, ◌+◌, ◌%◌, ◌≤◌, ◌<◌, ◌≡◌, ◌↔◌, refl, ap, Bool, true, false, ◌&&◌, Option, none, some, List,
  [], ◌∷◌, ◌++◌, All, length, map, replicate, Bool-cases, inl, inr, if◌then◌else◌, ◌>>=◌, arith,
}
use go_webapp_template.Base.Text.{Text, same, same_iff}
use go_webapp_template.Base.Dict.{lookup, lookup-insert, lookup-insert_self}
use go_webapp_template.Base.Decimal.{format_uint}
use go_webapp_template.Metrics.{
  Float64, histogram, Series, Family, u64_mod, join, label_count, series_for, fresh, or_fresh,
  store, observe_series, observe,
}
use go_webapp_template.Metrics.Keys.{IsJoinable, keys_differ}
use go_webapp_template.Metrics.Render.{bucket_lines, bucket_name, write_series_line}
use go_webapp_template.Metrics.Tally.{
  sums, count_le, IsAscending, IsTransitive, IsBelow, counts-IsBelow, Tallies,
  observe_series-Tallies,
}

unfoldable pub same_all : List Text → List Text → Bool
same_all [] [] = true
same_all (s ∷ ss) (t ∷ ts) = same s t && same_all ss ts
same_all _ _ = false

same_all_iff : (ss ts : List Text) → (same_all ss ts ≡ true) ↔ (ss ≡ ts)
unfolding same_all
same_all_iff [] [] = ((λ h. refl), (λ h. refl))
same_all_iff [] (t ∷ ts) = ((λ h. cc), (λ h. cc))
same_all_iff (s ∷ ss) [] = ((λ h. cc), (λ h. cc))
same_all_iff (s ∷ ss) (t ∷ ts) = ground (arith, same_iff s t, same_all_iff ss ts)

-- Label values that a family takes: one for each name, none with the byte 0xff.
abbrev pub Fits : {F : Type 0} → Family F → List Text → Type 0
Fits f labels = (length labels ≡ length f.label_names) × All IsJoinable labels

-- The values observed under the given labels, behind `vs`, the latest first.
abbrev pub collect : {F : Type 0} → List Text → List (List Text × F) → List F → List F
collect labels [] vs = vs
collect labels ((l, v) ∷ obs) vs = collect labels obs (if same_all l labels then v ∷ vs else vs)

module _ {F : Type 0} ⦃fl : Float64 F⦄ where
  unfoldable pub observe_all : Family F → List (List Text × F) → Option (Family F)
  unfolding observe
  observe_all f [] = some f
  observe_all f ((l, v) ∷ obs) = observe f v l >>= λ f'. observe_all f' obs

  -- The series under the labels shows the values: it is missing while there are none.
  abbrev pub Shows : Family F → List Text → List F → Option (Series F) → Type 0
  Shows f labels vs none = vs ≡ []
  Shows f labels vs (some s) = (s.labels ≡ labels) × Tallies f.bounds vs s

  fresh_sums :
      (bounds : List F) → sums 0 (replicate (length bounds) 0) ≡ map (λ b. count_le b []) bounds
  fresh_sums [] = refl
  fresh_sums (b ∷ bs) = ap (λ l. 0 ∷ l) (fresh_sums bs)

  module _ (trans : IsTransitive fl) where
    own_series :
        (f : Family F) (v : F) (labels : List Text) (vs : List F) (o : Option (Series F))
        → f.kind ≡ histogram
        → IsAscending f.bounds
        → suc (length vs) < u64_mod
        → Shows f labels vs o
        → Shows f labels (v ∷ vs) (some (observe_series f.bounds v (or_fresh f labels o)))
    unfolding observe_series
    own_series f v labels vs none k asc room h =
        let begun : Tallies f.bounds [] (fresh f labels) = record {
          counted = refl;
          tallied = rw k (fresh_sums f.bounds);
        } in
        rw h (
          refl,
          observe_series-Tallies trans f.bounds [] v (fresh f labels) asc (omega arith) begun,
        )
    own_series f v labels vs (some s) k asc room (same_labels, h) =
        (same_labels, observe_series-Tallies trans f.bounds vs v s asc room h)

    abbrev observed : Family F → F → List Text → Family F
    observed f v l = store f l (observe_series f.bounds v (or_fresh f l (lookup (join l) f.series)))

    observe-observed :
        (f : Family F) (v : F) (l : List Text)
        → length l ≡ length f.label_names
        → observe f v l ≡ some (observed f v l)
    unfolding observe label_count series_for
    observe-observed f v l fits = ground (arith)

    observed-Shows :
        (f : Family F) (v : F) (l labels : List Text) (vs : List F)
        → f.kind ≡ histogram
        → IsAscending f.bounds
        → suc (length vs) < u64_mod
        → Fits f l
        → Fits f labels
        → Shows f labels vs (lookup (join labels) f.series)
        → Shows f labels
            (if same_all l labels then v ∷ vs else vs)
            (lookup (join labels) (observed f v l).series)
    observed-Shows f v l labels vs k asc room fits fits' h = elim (Bool-cases (same_all l labels)) [
      | inl own ↦
          let e = (same_all_iff l labels).0 own in
          let served = own_series f v labels vs (lookup (join labels) f.series) k asc room h in
          rw
            (
              own,
              e,
              lookup-insert_self (join labels)
                  (observe_series f.bounds v (or_fresh f labels (lookup (join labels) f.series)))
                  f.series,
            )
            served
      | inr other ↦
          let differs : same (join l) (join labels) ≡ false =
            keys_differ l labels (omega arith) fits.1 fits'.1
              (λ e. cc ((same_all_iff l labels).1 e, other)) in
          rw
            (
              other,
              lookup-insert (join l) (join labels)
                  (observe_series f.bounds v (or_fresh f l (lookup (join l) f.series))) f.series,
              differs,
            )
            h
    ]

    -- Every observation is taken, and the family keeps what it was registered with.
    observe_all-Shows :
        (f : Family F) (obs : List (List Text × F)) (labels : List Text) (vs : List F)
        → f.kind ≡ histogram
        → IsAscending f.bounds
        → length obs + length vs < u64_mod
        → All (λ (o : List Text × F). Fits f o.0) obs
        → Fits f labels
        → Shows f labels vs (lookup (join labels) f.series)
        → (f' : Family F) × (observe_all f obs ≡ some f')
          × (f'.bounds ≡ f.bounds)
          × Shows f' labels (collect labels obs vs) (lookup (join labels) f'.series)
    unfolding observe_all
    observe_all-Shows f [] labels vs k asc room fits fits' h = (f, refl, refl, h)
    observe_all-Shows f ((l, v) ∷ obs) labels vs k asc room (fit, fits) fits' h =
        let vs' = if same_all l labels then v ∷ vs else vs in
        let step = observed-Shows f v l labels vs k asc (omega arith) fit fits' h in
        let (f', ran, kept, shown) =
          observe_all-Shows (observed f v l) obs labels vs' k asc (ground arith) fits fits' step in
        (f', rw (observe-observed f v l fit.0) ran, kept, shown)

  -- The lines of the buckets, with the numbers to show.
  abbrev pub lines_of : Family F → List Text → List F → List ℕ → Option Text
  lines_of f labels [] ts = some []
  lines_of f labels (b ∷ bounds) [] = none
  lines_of f labels (b ∷ bounds) (t ∷ ts) = do
    line ← write_series_line (bucket_name f) f.label_names labels (fl.format b) (format_uint t)
    rest ← lines_of f labels bounds ts
    some (line ++ rest)

  bucket_lines-lines_of :
      (f : Family F) (s : Series F) (acc : ℕ) (bounds : List F) (cs : List ℕ)
      → IsBelow u64_mod (sums acc cs)
      → bucket_lines f s acc bounds cs ≡ lines_of f s.labels bounds (sums acc cs)
  unfolding bucket_lines
  bucket_lines-lines_of f s acc [] cs h = refl
  bucket_lines-lines_of f s acc (b ∷ bounds) [] h = refl
  bucket_lines-lines_of f s acc (b ∷ bounds) (c ∷ cs) (h, hs) =
      let e : (acc + c) % u64_mod ≡ acc + c = omega arith in
      rw (e, bucket_lines-lines_of f s (acc + c) bounds cs hs) refl

  -- The series under the labels tells how many of the values are at most each bound.
  abbrev pub Exposes : Family F → List Text → List F → Option (Series F) → Type 0
  Exposes f labels vs none = vs ≡ []
  Exposes f labels vs (some s) =
      (s.labels ≡ labels)
      × (s.count ≡ length vs)
      × (bucket_lines f s 0 f.bounds s.buckets
          ≡ lines_of f labels f.bounds (map (λ b. count_le b vs) f.bounds))

  length-collect-le :
      (labels : List Text) (obs : List (List Text × F)) (vs : List F)
      → length (collect labels obs vs) ≤ length obs + length vs
  length-collect-le labels [] vs = omega arith
  length-collect-le labels ((l, v) ∷ obs) vs =
      ground (arith, length-collect-le labels obs (v ∷ vs), length-collect-le labels obs vs)

  Shows-Exposes :
      (f : Family F) (labels : List Text) (vs : List F) (o : Option (Series F))
      → length vs < u64_mod
      → Shows f labels vs o
      → Exposes f labels vs o
  Shows-Exposes f labels vs none room h = h
  Shows-Exposes f labels vs (some s) room (same_labels, h) =
      let below : IsBelow u64_mod (sums 0 s.buckets) =
        rw h.tallied (counts-IsBelow u64_mod f.bounds vs room) in
      (
        same_labels,
        h.counted,
        rw (bucket_lines-lines_of f s 0 f.bounds s.buckets below, h.tallied, same_labels) refl,
      )

  -- For a histogram that is registered with ascending bounds, and fewer than 2 ^ 64 observations
  -- that have a value without the byte 0xff for each label: no observation panics, and then, for
  -- each list of label values, there is a series as soon as there was an observation; it counts the
  -- observations under these labels, and the line of each bucket shows how many of them were at
  -- most its bound. The order on `float64` is only taken to be transitive, so a NaN observed counts
  -- in no bucket.
  pub histogram-Exposes :
      (f : Family F) (obs : List (List Text × F)) (labels : List Text)
      → IsTransitive fl
      → f.kind ≡ histogram
      → f.series ≡ []
      → IsAscending f.bounds
      → length obs < u64_mod
      → All (λ (o : List Text × F). Fits f o.0) obs
      → Fits f labels
      → (f' : Family F) × (observe_all f obs ≡ some f')
        × (f'.bounds ≡ f.bounds)
        × Exposes f' labels (collect labels obs []) (lookup (join labels) f'.series)
  unfolding lookup
  histogram-Exposes f obs labels trans k new asc room fits fits' =
      let (f', ran, kept, shown) =
        observe_all-Shows trans f obs labels [] k asc (omega arith) fits fits' (rw new refl) in
      let few = length-collect-le labels obs [] in
      (f', ran, kept, Shows-Exposes f' labels (collect labels obs []) _ (omega arith) shown)
