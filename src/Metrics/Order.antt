-- ===== src/Metrics/Order.antt =====
-- The order of the series in the output of internal/metrics/metrics.go: `render` sorts their keys,
-- whatever the order in which a `range` over the map gives them.
use go_webapp_template.Base.{
  ℕ, ◌+◌, ◌%◌, ◌≡◌, refl, sym, ap, ◌∙◌, true, false, Option, none, some, List, [], ◌∷◌, ◌++◌,
  Bool-cases, inl, inr, map, ◌>>=◌, arith,
}
use go_webapp_template.Base.Text.{Text, same, same_iff, same_refl}
use go_webapp_template.Base.Dict.{
  Dict, lookup, remove, HasDistinctKeys, lookup-remove, remove-HasDistinctKeys,
}
use go_webapp_template.Metrics.{Float64, Series, Family, u64_mod}
use go_webapp_template.Metrics.Render.{
  text_le, insert_key, sort_keys, bucket_lines, histogram_lines, all_lines, series_lines, header,
  render_family,
}

text_le_total : (s t : Text) → text_le s t ≡ false → text_le t s ≡ true
unfolding text_le
text_le_total [] t h = cc
text_le_total (c ∷ s) [] h = refl
text_le_total (c ∷ s) (d ∷ t) h = ground (arith, text_le_total s t)

text_le_antisym : (s t : Text) → text_le s t ≡ true → text_le t s ≡ true → s ≡ t
unfolding text_le
text_le_antisym [] [] h k = refl
text_le_antisym [] (d ∷ t) h k = cc
text_le_antisym (c ∷ s) [] h k = cc
text_le_antisym (c ∷ s) (d ∷ t) h k = ground (arith, text_le_antisym s t)

text_le_trans : (s t u : Text) → text_le s t ≡ true → text_le t u ≡ true → text_le s u ≡ true
unfolding text_le
text_le_trans [] t u h k = refl
text_le_trans (c ∷ s) [] u h k = cc
text_le_trans (c ∷ s) (d ∷ t) [] h k = cc
text_le_trans (c ∷ s) (d ∷ t) (e ∷ u) h k = ground (arith, text_le_trans s t u)

insert_key_comm :
    (a b : Text) (l : List Text) → insert_key a (insert_key b l) ≡ insert_key b (insert_key a l)
unfolding insert_key
insert_key_comm a b [] = ground (arith, text_le_total a b, text_le_antisym a b)
insert_key_comm a b (c ∷ l) = ground (
  arith,
  text_le_total a b,
  text_le_total b a,
  text_le_antisym a b,
  text_le_trans a b c,
  text_le_trans b a c,
  insert_key_comm a b l,
)

abbrev keys_of : {V : Type 0} → Dict V → List Text
keys_of m = map (λ (e : Text × _). e.0) m

module _ {V : Type 0} where
  remove_absent : (k : Text) (m : Dict V) → lookup k m ≡ none → remove k m ≡ m
  unfolding lookup remove
  remove_absent k [] h = refl
  remove_absent k ((j, w) ∷ m) h = ground (arith, remove_absent k m)

  -- A key comes to its place wherever the map gives it.
  sort_keys-remove :
      (k : Text) (v : V) (m : Dict V)
      → HasDistinctKeys m
      → lookup k m ≡ some v
      → sort_keys (keys_of m) ≡ insert_key k (sort_keys (keys_of (remove k m)))
  unfolding sort_keys lookup remove
  sort_keys-remove k v [] d h = cc
  sort_keys-remove k v ((j, w) ∷ m) (new, d) h = elim (Bool-cases (same j k)) [
    | inl own ↦
        let one_key = (same_iff j k).0 own in
        rw (own, remove_absent k m (rw one_key at new), one_key) refl
    | inr other ↦
        rw (other, sort_keys-remove k v m d (rw other at h))
          (insert_key_comm j k (sort_keys (keys_of (remove k m))))
  ]

  lookup-rest :
      (k : Text) (v : V) (m m' : Dict V) (j : Text)
      → lookup k m ≡ none
      → lookup j ((k, v) ∷ m) ≡ lookup j m'
      → lookup j m ≡ lookup j (remove k m')
  unfolding lookup
  lookup-rest k v m m' j new h = elim (Bool-cases (same k j)) [
    | inl own ↦ rw (lookup-remove k j m', own, ← (same_iff k j).0 own) new
    | inr other ↦ rw (lookup-remove k j m', other) (rw other at h)
  ]

  sort_keys-lookup :
      (m m' : Dict V)
      → HasDistinctKeys m
      → HasDistinctKeys m'
      → ((j : Text) → lookup j m ≡ lookup j m')
      → sort_keys (keys_of m) ≡ sort_keys (keys_of m')
  unfolding sort_keys lookup
  sort_keys-lookup [] [] d d' h = refl
  sort_keys-lookup [] ((k, v) ∷ m') d d' h =
      let clash : none ≡ some v = h k ∙ (rw (same_refl k) refl) in cc
  sort_keys-lookup ((k, v) ∷ m) m' (new, d) d' h =
      let found : lookup k m' ≡ some v = sym (h k) ∙ (rw (same_refl k) refl) in
      let rest =
        sort_keys-lookup m (remove k m') d (remove-HasDistinctKeys k m' d')
          (λ j. lookup-rest k v m m' j new (h j)) in
      ap (insert_key k) rest ∙ sym (sort_keys-remove k v m' d' found)

module _ {F : Type 0} ⦃fl : Float64 F⦄ where
  bucket_lines-series :
      (f : Family F) (m : Dict (Series F)) (s : Series F) (acc : ℕ) (bounds : List F)
      (buckets : List ℕ)
      → bucket_lines (record f { series = m }) s acc bounds buckets
        ≡ bucket_lines f s acc bounds buckets
  unfolding bucket_lines
  bucket_lines-series f m s acc [] buckets = refl
  bucket_lines-series f m s acc (b ∷ bounds) [] = refl
  bucket_lines-series f m s acc (b ∷ bounds) (c ∷ buckets) =
      rw (bucket_lines-series f m s ((acc + c) % u64_mod) bounds buckets) refl

  series_lines-series :
      (f : Family F) (m : Dict (Series F)) (s : Series F)
      → series_lines (record f { series = m }) s ≡ series_lines f s
  unfolding series_lines histogram_lines
  series_lines-series f m s = rw (bucket_lines-series f m s 0 f.bounds s.buckets) refl

  -- The lines of one series, and the rest.
  abbrev line_of : Family F → Option Text → Option (Series F) → Option Text
  line_of f more o = do s ← o; lines ← series_lines f s; rest ← more; some (lines ++ rest)

  line_of-series :
      (f : Family F) (m : Dict (Series F)) (more : Option Text) (o : Option (Series F))
      → line_of (record f { series = m }) more o ≡ line_of f more o
  line_of-series f m more none = refl
  line_of-series f m more (some s) = rw (series_lines-series f m s) refl

  all_lines-series :
      (f : Family F) (m : Dict (Series F)) (keys : List Text)
      → ((j : Text) → lookup j m ≡ lookup j f.series)
      → all_lines (record f { series = m }) keys ≡ all_lines f keys
  unfolding all_lines
  all_lines-series f m [] h = refl
  all_lines-series f m (k ∷ keys) h =
      rw (h k, all_lines-series f m keys h)
        (line_of-series f m (all_lines f keys) (lookup k f.series))

  -- The text of a family depends only on the contents of its map, not on the order in which a
  -- `range` gives its series: it is the same for every map that holds each key once and has the
  -- same series under every key.
  pub render_family-lookup :
      (f : Family F) (m : Dict (Series F))
      → HasDistinctKeys f.series
      → HasDistinctKeys m
      → ((j : Text) → lookup j m ≡ lookup j f.series)
      → render_family (record f { series = m }) ≡ render_family f
  unfolding render_family header
  render_family-lookup f m d d' h =
      rw (sort_keys-lookup m f.series d' d h, all_lines-series f m (sort_keys (keys_of f.series)) h)
        refl
