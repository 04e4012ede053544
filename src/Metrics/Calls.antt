-- ===== src/Metrics/Calls.antt =====
-- Sequences of calls of the registry of internal/metrics/metrics.go.
use go_webapp_template.Base.{ℕ, Option, none, some, List, [], ◌∷◌, ◌>>=◌}
use go_webapp_template.Base.Text.{Text}
use go_webapp_template.Metrics.{Float64}
use go_webapp_template.Metrics.Registry.{
  Registry, counter_vec, new_gauge, histogram_vec, counter_inc, counter_add, gauge_inc, gauge_dec,
  gauge_set, histogram_observe,
}

-- A pointer is the family's place among the families registered.
pub data Call (F : Type 0) : Type 0 where
  new_counter : (name help : Text) (labels : List Text) → Call F
  new_single : (name help : Text) → Call F
  new_histogram : (name help : Text) (buckets : List F) (labels : List Text) → Call F
  count_one : (place : ℕ) (values : List Text) → Call F
  count_by : (place : ℕ) (delta : F) (values : List Text) → Call F
  raise_gauge lower_gauge : (place : ℕ) → Call F
  put_gauge : (place : ℕ) (v : F) → Call F
  record_value : (place : ℕ) (v : F) (values : List Text) → Call F

abbrev pub forget : {F : Type 0} → Option (Registry F × ℕ) → Option (Registry F)
forget none = none
forget (some (r, place)) = some r

module _ {F : Type 0} ⦃fl : Float64 F⦄ where
  unfoldable pub run : Registry F → Call F → Option (Registry F)
  unfolding counter_vec new_gauge histogram_vec counter_inc counter_add gauge_inc gauge_dec
      gauge_set histogram_observe
  run r (new_counter name help labels) = forget (counter_vec r name help labels)
  run r (new_single name help) = forget (new_gauge r name help)
  run r (new_histogram name help buckets labels) = forget (histogram_vec r name help buckets labels)
  run r (count_one place values) = counter_inc r place values
  run r (count_by place delta values) = counter_add r place delta values
  run r (raise_gauge place) = gauge_inc r place
  run r (lower_gauge place) = gauge_dec r place
  run r (put_gauge place v) = gauge_set r place v
  run r (record_value place v values) = histogram_observe r place v values

  unfoldable pub run_all : Registry F → List (Call F) → Option (Registry F)
  unfolding run
  run_all r [] = some r
  run_all r (c ∷ calls) = run r c >>= λ r'. run_all r' calls
