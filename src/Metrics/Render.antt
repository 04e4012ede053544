-- ===== src/Metrics/Render.antt =====
-- The text exposition of internal/metrics/metrics.go: `writeSeriesLine`, `family.render`,
-- `writeRuntime` and `Registry.Render`. An index out of range is a panic, `none`.
use mathlib.Core.List.{flat_map}
use go_webapp_template.Base.{
  ℕ, ◌+◌, ◌%◌, Bool, true, false, ◌&&◌, Option, none, some, List, [], ◌∷◌, ◌++◌, map, ltb, ◌==◌,
  if◌then◌else◌, ◌>>=◌,
}
use go_webapp_template.Base.Text.{Text, text, is_empty}
use go_webapp_template.Base.Dict.{lookup}
use go_webapp_template.Base.Decimal.{format_uint}
use go_webapp_template.Metrics.{Float64, type_name, is_histogram, Series, Family, u64_mod}
use go_webapp_template.Metrics.Registry.{Registry}

abbrev pub backslash : ℕ
backslash = b'\\'

abbrev pub quote : ℕ
quote = b'"'

abbrev pub newline : ℕ
newline = b'\n'

-- `labelEscaper` and `helpEscaper`: a `strings.Replacer` of single bytes works byte by byte.
unfoldable pub escape_label_byte : ℕ → Text
escape_label_byte c =
    if c == backslash
    then backslash ∷ backslash ∷ []
    else if c == quote
    then backslash ∷ quote ∷ []
    else if c == newline
    then backslash ∷ b'n' ∷ []
    else c ∷ []

unfoldable pub escape_label : Text → Text
unfolding escape_label_byte flat_map
escape_label = flat_map escape_label_byte

unfoldable pub escape_help_byte : ℕ → Text
escape_help_byte c =
    if c == backslash
    then backslash ∷ backslash ∷ []
    else if c == newline
    then backslash ∷ b'n' ∷ []
    else c ∷ []

unfoldable pub escape_help : Text → Text
unfolding escape_help_byte flat_map
escape_help = flat_map escape_help_byte

-- The loop over the label names; the flag is `i == 0`.
unfoldable pub label_pairs : Bool → List Text → List Text → Option Text
unfolding escape_label
label_pairs first [] values = some []
label_pairs first (n ∷ names) [] = none
label_pairs first (n ∷ names) (v ∷ values) = do
  rest ← label_pairs false names values
  let pair = n ++ (b'=' ∷ quote ∷ (escape_label v ++ (quote ∷ rest)))
  some (if first then pair else b',' ∷ pair)

abbrev pub no_names : List Text → Bool
no_names [] = true
no_names (n ∷ names) = false

-- The optional label `le`.
unfoldable pub le_pair : List Text → Text → Text
unfolding text
le_pair names le =
    if is_empty le
    then []
    else let pair = text "le=" ++ (quote ∷ (le ++ (quote ∷ []))) in
      if no_names names then pair else b',' ∷ pair

unfoldable pub label_set : List Text → List Text → Text → Option Text
unfolding label_pairs le_pair
label_set names values le = if no_names names && is_empty le then some [] else do
  pairs ← label_pairs true names values
  some (b'{' ∷ (pairs ++ (le_pair names le ++ (b'}' ∷ []))))

unfoldable pub write_series_line : Text → List Text → List Text → Text → Text → Option Text
unfolding label_set
write_series_line name names values le v = do
  labels ← label_set names values le
  some (name ++ (labels ++ (b' ' ∷ (v ++ (newline ∷ [])))))

-- `a <= b` on strings: by their bytes.
unfoldable pub text_le : Text → Text → Bool
text_le [] t = true
text_le (c ∷ s) [] = false
text_le (c ∷ s) (d ∷ t) = let rest = text_le s t in if c == d then rest else ltb c d

-- `slices.Sort` on strings.
unfoldable pub insert_key : Text → List Text → List Text
unfolding text_le
insert_key k [] = k ∷ []
insert_key k (j ∷ keys) =
    let rest = insert_key k keys in if text_le k j then k ∷ j ∷ keys else j ∷ rest

unfoldable pub sort_keys : List Text → List Text
unfolding insert_key
sort_keys [] = []
sort_keys (k ∷ keys) = insert_key k (sort_keys keys)

-- `goroutines` and `alloc` are what the Go runtime reports.
unfoldable pub write_runtime : ℕ → ℕ → Text
unfolding text format_uint
write_runtime goroutines alloc =
    text
      "# HELP go_goroutines Number of live goroutines.\n# TYPE go_goroutines gauge\ngo_goroutines "
    ++ (format_uint goroutines
        ++ (text
              "\n# HELP go_memstats_alloc_bytes Bytes of allocated heap objects not yet freed.\n# TYPE go_memstats_alloc_bytes gauge\ngo_memstats_alloc_bytes "
            ++ (format_uint alloc ++ (newline ∷ []))))

module _ {F : Type 0} ⦃fl : Float64 F⦄ where
  abbrev pub bucket_name : Family F → Text
  bucket_name f = f.name ++ text "_bucket"

  -- The loop over the bounds with its variable `cumulative`.
  unfoldable pub bucket_lines : Family F → Series F → ℕ → List F → List ℕ → Option Text
  unfolding write_series_line text
  bucket_lines f s cumulative [] buckets = some []
  bucket_lines f s cumulative (b ∷ bounds) [] = none
  bucket_lines f s cumulative (b ∷ bounds) (c ∷ buckets) = do
    let total = (cumulative + c) % u64_mod
    line ←
        write_series_line (bucket_name f) f.label_names s.labels (fl.format b) (format_uint total)
    rest ← bucket_lines f s total bounds buckets
    some (line ++ rest)

  unfoldable pub histogram_lines : Family F → Series F → Option Text
  unfolding bucket_lines write_series_line text
  histogram_lines f s = do
    buckets ← bucket_lines f s 0 f.bounds s.buckets
    inf ←
        write_series_line (bucket_name f) f.label_names s.labels (text "+Inf") (format_uint s.count)
    sum ← write_series_line (f.name ++ text "_sum") f.label_names s.labels [] (fl.format s.sum)
    count ←
        write_series_line (f.name ++ text "_count") f.label_names s.labels [] (format_uint s.count)
    some (buckets ++ (inf ++ (sum ++ count)))

  unfoldable pub series_lines : Family F → Series F → Option Text
  unfolding histogram_lines write_series_line
  series_lines f s =
      if is_histogram f.kind
      then histogram_lines f s
      else write_series_line f.name f.label_names s.labels [] (fl.format s.value)

  -- The loop over the sorted keys.
  unfoldable pub all_lines : Family F → List Text → Option Text
  unfolding series_lines
  all_lines f [] = some []
  all_lines f (k ∷ keys) = do
    s ← lookup k f.series
    lines ← series_lines f s
    rest ← all_lines f keys
    some (lines ++ rest)

  unfoldable pub header : Family F → Text
  unfolding escape_help type_name text
  header f =
      text "# HELP "
      ++ (f.name
          ++ (b' '
              ∷ (escape_help f.help
                  ++ (newline
                      ∷ (text "# TYPE "
                          ++ (f.name ++ (b' ' ∷ (type_name f.kind ++ (newline ∷ [])))))))))

  unfoldable pub render_family : Family F → Option Text
  unfolding header all_lines sort_keys
  render_family f = do
    lines ← all_lines f (sort_keys (map (λ (e : Text × Series F). e.0) f.series))
    some (header f ++ lines)

  unfoldable pub render_families : List (Family F) → Option Text
  unfolding render_family
  render_families [] = some []
  render_families (f ∷ families) = do
    here ← render_family f
    rest ← render_families families
    some (here ++ rest)

  unfoldable pub render : Registry F → ℕ → ℕ → Option Text
  unfolding render_families write_runtime
  render r goroutines alloc = do
    families ← render_families r.families
    some (families ++ write_runtime goroutines alloc)
