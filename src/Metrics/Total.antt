-- ===== src/Metrics/Total.antt =====
-- `Render` of internal/metrics/metrics.go indexes the label values by the names and the buckets by
-- the bounds: no sequence of calls makes it go out of range.
use go_webapp_template.Base.{
  ℕ, ◌+◌, ◌%◌, ◌≡◌, refl, Bool, true, false, ◌&&◌, Option, some, List, [], ◌∷◌, ◌++◌, All, length,
  map, ◌>>=◌, Bool-cases, inl, inr, arith,
}
use go_webapp_template.Base.Text.{Text, text, is_empty, same, same_refl}
use go_webapp_template.Base.Dict.{Dict, lookup, All-lookup}
use go_webapp_template.Base.Decimal.{format_uint}
use go_webapp_template.Metrics.{Float64, is_histogram, Series, Family, u64_mod}
use go_webapp_template.Metrics.Registry.{Registry, new_registry}
use go_webapp_template.Metrics.Render.{
  label_pairs, label_set, no_names, write_series_line, bucket_name, bucket_lines, histogram_lines,
  series_lines, all_lines, text_le, insert_key, sort_keys, render_family, render_families, render,
}
use go_webapp_template.Metrics.Calls.{Call, run_all}
use go_webapp_template.Metrics.Sound.{IsShaped, IsSound, run_all-AllSound}

-- A call that does not panic.
abbrev pub Returns : {A : Type 0} → Option A → Type 0
Returns {A} o = (a : A) × (o ≡ some a)

>>=-Returns :
    {A B : Type 0} (m : Option A) (f : A → Option B)
    → Returns m
    → ((a : A) → Returns (f a))
    → Returns (m >>= f)
>>=-Returns m f (a, e) k = let (b, h) = k a in (b, rw e h)

label_pairs-Returns :
    (first : Bool) (names values : List Text)
    → length values ≡ length names
    → Returns (label_pairs first names values)
unfolding label_pairs
label_pairs-Returns first [] values e = ([], refl)
label_pairs-Returns first (n ∷ names) [] e = absurd (omega arith)
label_pairs-Returns first (n ∷ names) (v ∷ values) e =
    >>=-Returns (label_pairs false names values) _
      (label_pairs-Returns false names values (omega arith)) (λ t. (_, refl))

label_set-Returns :
    (names values : List Text) (le : Text)
    → length values ≡ length names
    → Returns (label_set names values le)
unfolding label_set
label_set-Returns names values le e = elim (Bool-cases (no_names names && is_empty le)) [
  | inl bare ↦ ([], rw bare refl)
  | inr shown ↦ rw shown (
      >>=-Returns (label_pairs true names values) _ (label_pairs-Returns true names values e)
        (λ t. (_, refl)))
]

write_series_line-Returns :
    (name : Text) (names values : List Text) (le v : Text)
    → length values ≡ length names
    → Returns (write_series_line name names values le v)
unfolding write_series_line
write_series_line-Returns name names values le v e =
    >>=-Returns (label_set names values le) _ (label_set-Returns names values le e) (λ t. (_, refl))

-- Keys that the map has.
abbrev AllFound : {V : Type 0} → Dict V → List Text → Type 0
AllFound {V} m = All (λ k. (v : V) × (lookup k m ≡ some v))

insert_key-AllFound :
    {V : Type 0} (m : Dict V) (k : Text) (keys : List Text)
    → (v : V) × (lookup k m ≡ some v)
    → AllFound m keys
    → AllFound m (insert_key k keys)
unfolding insert_key
insert_key-AllFound m k [] found h = (found, tt)
insert_key-AllFound m k (j ∷ keys) found (h, hs) = elim (Bool-cases (text_le k j)) [
  | inl here ↦ rw here (found, (h, hs))
  | inr later ↦ rw later (h, insert_key-AllFound m k keys found hs)
]

sort_keys-AllFound :
    {V : Type 0} (m : Dict V) (keys : List Text) → AllFound m keys → AllFound m (sort_keys keys)
unfolding sort_keys
sort_keys-AllFound m [] h = tt
sort_keys-AllFound m (k ∷ keys) (h, hs) =
    insert_key-AllFound m k (sort_keys keys) h (sort_keys-AllFound m keys hs)

skip_one :
    {V : Type 0} (m : Dict V) (j : Text) (w : V) (keys : List Text)
    → AllFound m keys
    → AllFound ((j, w) ∷ m) keys
unfolding lookup
skip_one m j w [] h = tt
skip_one m j w (k ∷ keys) ((v, found), hs) = elim (Bool-cases (same j k)) [
  | inl here ↦ ((w, rw here refl), skip_one m j w keys hs)
  | inr there ↦ ((v, rw there found), skip_one m j w keys hs)
]

keys-AllFound : {V : Type 0} (m : Dict V) → AllFound m (map (λ (e : Text × V). e.0) m)
unfolding lookup
keys-AllFound [] = tt
keys-AllFound ((k, v) ∷ m) =
    ((v, rw (same_refl k) refl), skip_one m k v (map (λ e. e.0) m) (keys-AllFound m))

module _ {F : Type 0} ⦃fl : Float64 F⦄ where
  bucket_lines-Returns :
      (f : Family F) (s : Series F) (acc : ℕ) (bounds : List F) (cs : List ℕ)
      → length s.labels ≡ length f.label_names
      → length cs ≡ length bounds
      → Returns (bucket_lines f s acc bounds cs)
  unfolding bucket_lines
  bucket_lines-Returns f s acc [] cs e n = ([], refl)
  bucket_lines-Returns f s acc (b ∷ bounds) [] e n = absurd (omega arith)
  bucket_lines-Returns f s acc (b ∷ bounds) (c ∷ cs) e n =
      let total = (acc + c) % u64_mod in
      >>=-Returns
        (write_series_line (bucket_name f) f.label_names s.labels (fl.format b) (format_uint total))
        _
        (write_series_line-Returns (bucket_name f) f.label_names s.labels (fl.format b)
          (format_uint total) e)
        (λ line.
          >>=-Returns (bucket_lines f s total bounds cs) _
            (bucket_lines-Returns f s total bounds cs e (omega arith)) (λ rest. (_, refl)))

  histogram_lines-Returns :
      (f : Family F) (s : Series F)
      → length s.labels ≡ length f.label_names
      → length s.buckets ≡ length f.bounds
      → Returns (histogram_lines f s)
  unfolding histogram_lines
  histogram_lines-Returns f s e n =
      let line =
        λ (name le v : Text). write_series_line-Returns name f.label_names s.labels le v e in
      >>=-Returns (bucket_lines f s 0 f.bounds s.buckets) _
        (bucket_lines-Returns f s 0 f.bounds s.buckets e n)
        (λ t. >>=-Returns _ _ (line (bucket_name f) (text "+Inf") (format_uint s.count)) (λ t₁.
          >>=-Returns _ _ (line (f.name ++ text "_sum") [] (fl.format s.sum)) (λ t₂.
            >>=-Returns _ _ (line (f.name ++ text "_count") [] (format_uint s.count))
              (λ t₃. (_, refl)))))

  series_lines-Returns :
      (f : Family F) (k : Text) (s : Series F) → IsShaped f (k, s) → Returns (series_lines f s)
  unfolding series_lines
  series_lines-Returns f k s h = elim (Bool-cases (is_histogram f.kind)) [
    | inl hist ↦
        let n : length s.buckets ≡ length f.bounds = rw hist at h.bucketed in
        rw hist (histogram_lines-Returns f s h.valued n)
    | inr other ↦
        rw other
          (write_series_line-Returns f.name f.label_names s.labels [] (fl.format s.value) h.valued)
  ]

  all_lines-Returns :
      (f : Family F) (keys : List Text)
      → IsSound f
      → AllFound f.series keys
      → Returns (all_lines f keys)
  unfolding all_lines
  all_lines-Returns f [] h found = ([], refl)
  all_lines-Returns f (k ∷ keys) h ((s, here), more) = rw here (
      >>=-Returns (series_lines f s) _
        (series_lines-Returns f k s (All-lookup (IsShaped f) k s f.series h here))
        (λ t. >>=-Returns (all_lines f keys) _ (all_lines-Returns f keys h more) (λ u. (_, refl))))

  render_families-Returns :
      (fs : List (Family F)) → All (λ (f : Family F). IsSound f) fs → Returns (render_families fs)
  unfolding render_families render_family
  render_families-Returns [] h = ([], refl)
  render_families-Returns (f ∷ fs) (h, hs) =
      let unsorted = map (λ (e : Text × Series F). e.0) f.series in
      let lines =
        all_lines-Returns f (sort_keys unsorted) h
          (sort_keys-AllFound f.series unsorted (keys-AllFound f.series)) in
      >>=-Returns (render_family f) _
        (>>=-Returns (all_lines f (sort_keys unsorted)) _ lines (λ t. (_, refl)))
        (λ t. >>=-Returns (render_families fs) _ (render_families-Returns fs hs) (λ u. (_, refl)))

  -- After any sequence of calls that the registry has taken, registrations among them, `Render`
  -- returns a text: the lists of label values and buckets that it indexes are never too short.
  pub render-Returns :
      (calls : List (Call F)) (r : Registry F) (goroutines alloc : ℕ)
      → run_all new_registry calls ≡ some r
      → Returns (render r goroutines alloc)
  unfolding render
  render-Returns calls r goroutines alloc ran =
      >>=-Returns (render_families r.families) _
        (render_families-Returns r.families (run_all-AllSound new_registry r calls ran tt))
        (λ t. (_, refl))
