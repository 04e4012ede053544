-- ===== src/Metrics.antt =====
-- internal/metrics/metrics.go: the families of series and the registry. A panic is `none`. Each
-- operation of a family holds its lock for its whole length, so a run is a sequence of operations.
-- `float64` is a type with the operations that the code uses; `uint64` wraps at 2 ^ 64.
pub mod Registry
pub mod Render
pub mod Keys
pub mod Tally
pub mod Histogram
pub mod Escape
pub mod Calls
pub mod Sound
pub mod Total
pub mod Bounds
pub mod Order
pub mod Commute
use go_webapp_template.Base.{
  ℕ, zero, suc, ◌+◌, ◌%◌, Bool, true, false, ◌||◌, Option, none, some, List, [], ◌∷◌, ◌++◌, any,
  length, replicate, ◌==◌, if◌then◌else◌, ◌>>=◌, ◌>>◌,
}
use go_webapp_template.Base.Text.{Text, text, same}
use go_webapp_template.Base.Dict.{Dict, lookup, insert}

-- `thousandths n` is the literal n / 1000, `format` is `strconv.FormatFloat(v, 'g', -1, 64)`.
pub record Float64 (F : Type 0) : Type 0 where
  pub nought : F
  pub one : F
  pub thousandths : ℕ → F
  pub minus_one : F
  pub plus : F → F → F
  pub le : F → F → Bool
  pub format : F → Text

pub data Kind : Type 0 where
  counter gauge histogram : Kind

unfoldable pub type_name : Kind → Text
unfolding text
type_name counter = text "counter"
type_name gauge = text "gauge"
type_name histogram = text "histogram"

abbrev pub is_histogram : Kind → Bool
is_histogram counter = false
is_histogram gauge = false
is_histogram histogram = true

pub record Series (F : Type 0) : Type 0 where
  pub labels : List Text
  pub value : F
  pub count : ℕ
  pub sum : F
  pub buckets : List ℕ

pub record Family (F : Type 0) : Type 0 where
  pub name : Text
  pub help : Text
  pub kind : Kind
  pub label_names : List Text
  pub bounds : List F
  pub series : Dict (Series F)

abbrev pub u64_mod : ℕ
u64_mod = 18446744073709551616

-- `strings.Join(values, "\xff")`
unfoldable pub join : List Text → Text
join [] = []
join (v ∷ []) = v
join (v ∷ w ∷ vs) = v ++ (0xff ∷ join (w ∷ vs))

-- `s.buckets[i]++` under the test `i < len(s.buckets)`
unfoldable pub bump : ℕ → List ℕ → List ℕ
bump i [] = []
bump zero (c ∷ cs) = ((c + 1) % u64_mod) ∷ cs
bump (suc i) (c ∷ cs) = c ∷ bump i cs

module _ {F : Type 0} ⦃fl : Float64 F⦄ where
  -- `labelCount`
  unfoldable pub label_count : Family F → List Text → Option (Unit {0})
  label_count f values = if length values == length f.label_names then some tt else none

  abbrev pub fresh : Family F → List Text → Series F
  fresh f values = record {
    labels = values;
    value = fl.nought;
    count = 0;
    sum = fl.nought;
    buckets = if is_histogram f.kind then replicate (length f.bounds) 0 else [];
  }

  abbrev pub or_fresh : Family F → List Text → Option (Series F) → Series F
  or_fresh f values none = fresh f values
  or_fresh f values (some s) = s

  -- `seriesFor`. The map holds pointers, so its callers store the series back.
  unfoldable pub series_for : Family F → List Text → Series F
  unfolding join
  series_for f values = or_fresh f values (lookup (join values) f.series)

  abbrev pub store : Family F → List Text → Series F → Family F
  store f values s = record f { series = insert (join values) s f.series }

  unfoldable pub add : Family F → F → List Text → Option (Family F)
  unfolding label_count series_for
  add f delta values = do
    label_count f values
    let s = series_for f values
    some (store f values (record s { value = fl.plus s.value delta }))

  unfoldable pub set_value : Family F → F → List Text → Option (Family F)
  unfolding label_count series_for
  set_value f v values = do
    label_count f values
    some (store f values (record (series_for f values) { value = v }))

  -- `sort.Search`: the first index whose bound is at least `v`, or the length.
  unfoldable pub search_float64s : List F → F → ℕ
  search_float64s [] v = 0
  search_float64s (b ∷ bs) v = if fl.le v b then 0 else suc (search_float64s bs v)

  unfoldable pub observe_series : List F → F → Series F → Series F
  unfolding search_float64s bump
  observe_series bounds v s = record s {
    count = (s.count + 1) % u64_mod;
    sum = fl.plus s.sum v;
    buckets = bump (search_float64s bounds v) s.buckets;
  }

  unfoldable pub observe : Family F → F → List Text → Option (Family F)
  unfolding label_count series_for observe_series
  observe f v values = do
    label_count f values
    some (store f values (observe_series f.bounds v (series_for f values)))
