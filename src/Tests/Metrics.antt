-- ===== src/Tests/Metrics.antt =====
-- Runs of the registry of internal/metrics/metrics.go and of its use in internal/api/metrics.go,
-- on whole numbers in place of `float64`.
use mathlib.Core.List.{flat_map}
use go_webapp_template.Base.{
  ℕ, ◌+◌, ◌≡◌, refl, true, some, List, [], ◌∷◌, All, leb, map, ◌>>=◌, arith,
}
use go_webapp_template.Base.Text.{Text, text}
use go_webapp_template.Base.Dict.{lookup, insert}
use go_webapp_template.Base.Decimal.{format_uint}
use go_webapp_template.Api.Env.{MetricCall, active_inc, active_dec, requests_inc, duration_observe}
use go_webapp_template.Api.Measured.{HttpMetrics, new_http_metrics, call_of, http_metrics-Returns}
use go_webapp_template.Metrics.{
  Float64, counter, histogram, add, Family, join, label_count, series_for,
}
use go_webapp_template.Metrics.Registry.{
  Registry, new_registry, register, new_family, on_family, counter_vec, counter_inc,
}
use go_webapp_template.Metrics.Render.{
  escape_label, escape_label_byte, write_series_line, label_set, label_pairs, le_pair, render,
}
use go_webapp_template.Metrics.Keys.{IsJoinable}
use go_webapp_template.Metrics.Histogram.{observe_all, collect, Exposes, histogram-Exposes}
use go_webapp_template.Metrics.Escape.Reader.{read_line}
use go_webapp_template.Metrics.Escape.Lines.{shown, read_line-write_series_line}
use go_webapp_template.Metrics.Tally.{count_le, IsAscending}
use go_webapp_template.Metrics.{Series}
use go_webapp_template.Metrics.Order.{render_family-lookup}
use go_webapp_template.Metrics.Commute.{update, add_by, update-render_comm}
use go_webapp_template.Metrics.Render.{render_family}
use go_webapp_template.Base.Text.{same_iff}
use go_webapp_template.Base.Dict.{Dict, HasDistinctKeys}
use go_webapp_template.Metrics.Bounds.{histogram_vec-IsAscending}
use go_webapp_template.Metrics.Registry.{is_name, histogram_vec}
use go_webapp_template.Base.Text.{same}
use go_webapp_template.Base.{get_elem?, false, ◌≢◌}
use go_webapp_template.Metrics.Calls.{Call, new_counter, count_one, run, run_all}
use go_webapp_template.Metrics.Total.{Returns, render-Returns}

instance abbrev whole : Float64 ℕ
whole = record {
  nought = 0;
  one = 1;
  thousandths = λ n. n;
  minus_one = 0;
  plus = λ a b. a + b;
  le = leb;
  format = format_uint;
}

unfoldable path : Text
unfolding text
path = text "/a\"\\b\nc"

abbrev get : Text
get = 0x47 ∷ []

path-IsJoinable : All IsJoinable (get ∷ path ∷ [])
unfolding path text
path-IsJoinable = ground arith

get-IsJoinable : All IsJoinable (get ∷ [])
get-IsJoinable = ground arith

path-only : All IsJoinable (path ∷ [])
unfolding path text
path-only = ground arith

read_line-write_series_line_example :
    (write_series_line (text "hits") (text "path" ∷ []) (path ∷ []) [] (text "7") >>= read_line)
    ≡ some (text "hits", shown (text "path" ∷ []) (path ∷ []) [], text "7")
unfolding text escape_label
read_line-write_series_line_example =
    read_line-write_series_line (text "hits") (text "path" ∷ []) (path ∷ []) [] (text "7")
      (ground arith) (ground arith) (ground arith) (ground arith) (ground arith) refl refl
      (ground arith)

-- The line itself.
unfoldable line : Text
unfolding text
line = text "hits{path=\"/a\\\"\\\\b\\nc\",le=\"5\"} 7\n"

write_series_line_run :
    write_series_line (text "hits") (text "path" ∷ []) (path ∷ []) (text "5") (text "7") ≡ some line
unfolding write_series_line line path text label_set label_pairs le_pair escape_label
    escape_label_byte flat_map
write_series_line_run = refl

abbrev latency : Family ℕ
latency = new_family get [] histogram (path ∷ []) (5 ∷ 10 ∷ [])

abbrev seen : List (List Text × ℕ)
seen = (get ∷ [], 7) ∷ (path ∷ [], 3) ∷ (get ∷ [], 10) ∷ []

order : (a b c : ℕ) → leb a b ≡ true → leb b c ≡ true → leb a c ≡ true
order a b c h k = ground arith

histogram-Exposes_example :
    (f : Family ℕ) × (observe_all latency seen ≡ some f)
    × (f.bounds ≡ 5 ∷ 10 ∷ [])
    × Exposes f (get ∷ []) (collect (get ∷ []) seen []) (lookup (join (get ∷ [])) f.series)
histogram-Exposes_example =
    histogram-Exposes latency seen (get ∷ []) order refl refl ((refl, tt), (tt, tt)) (omega arith)
      ((refl, get-IsJoinable), ((refl, path-only), ((refl, get-IsJoinable), tt)))
      (refl, get-IsJoinable)

abbrev calls : List (Call ℕ)
calls = new_counter get [] (get ∷ []) ∷ count_one 0 (path ∷ []) ∷ []

abbrev counted : Registry ℕ
counted = record {
  families =
      record (new_family get [] counter (get ∷ []) []) {
        series =
            (path, record { labels = path ∷ []; value = 1; count = 0; sum = 0; buckets = [] }) ∷ [];
      }
      ∷ [];
  by_name = get ∷ [];
}

counted_run : run_all new_registry calls ≡ some counted
unfolding run_all run counter_vec register counter_inc on_family add label_count series_for join
    lookup insert
counted_run = refl

render-Returns_example : Returns (render counted 4 4096)
render-Returns_example = render-Returns calls counted 4 4096 counted_run

abbrev served : List (ℕ × MetricCall)
served =
    (0, active_inc)
    ∷ (0, requests_inc get path 200)
    ∷ (2, duration_observe get path)
    ∷ (0, active_dec)
    ∷ []

http_metrics-Returns_example :
    (m : HttpMetrics ℕ) × (new_http_metrics ≡ some m)
    × (r : Registry ℕ) × (run_all m.registry (map (call_of m) served) ≡ some r)
    × Returns (render r 4 4096)
http_metrics-Returns_example = http_metrics-Returns served 4 4096

reach : (a b : ℕ) → leb a b ≡ false → leb b a ≡ true
reach a b h = ground arith

path_new : is_name path counted.by_name ≡ false
unfolding path text same
path_new = refl

histogram_vec-IsAscending_example :
    (r : Registry ℕ) × (place : ℕ) × (f : Family ℕ) × (histogram_vec counted path []
        (10 ∷ 5 ∷ [])
        (get ∷ [])
      ≡ some (r, place))
    × (get_elem? r.families place ≡ some f)
    × (f.kind ≡ histogram)
    × (f.series ≡ [])
    × (f.label_names ≡ get ∷ [])
    × IsAscending f.bounds
    × ((v : ℕ) → count_le v f.bounds ≡ count_le v (10 ∷ 5 ∷ []))
histogram_vec-IsAscending_example =
    histogram_vec-IsAscending counted path [] 10 (5 ∷ []) (get ∷ []) reach order path_new

-- Two series in the two orders that a `range` may take.
abbrev one_hit : Text → Series ℕ
one_hit label = record { labels = label ∷ []; value = 1; count = 0; sum = 0; buckets = [] }

abbrev hits : Family ℕ
hits = record (new_family get [] counter (get ∷ []) []) {
  series = (get, one_hit get) ∷ (path, one_hit path) ∷ [];
}

abbrev other_order : Dict (Series ℕ)
other_order = (path, one_hit path) ∷ (get, one_hit get) ∷ []

get_path : same get path ≡ false
unfolding path text same
get_path = refl

path_get : same path get ≡ false
unfolding path text same
path_get = refl

hits_distinct : HasDistinctKeys hits.series
unfolding lookup same path text
hits_distinct = (refl, (refl, tt))

other_distinct : HasDistinctKeys other_order
unfolding lookup same path text
other_distinct = (refl, (refl, tt))

same_contents : (j : Text) → lookup j other_order ≡ lookup j hits.series
unfolding lookup
same_contents j = ground (arith, same_iff get j, same_iff path j, get_path)

render_family-lookup_example :
    render_family (record hits { series = other_order }) ≡ render_family hits
render_family-lookup_example =
    render_family-lookup hits other_order hits_distinct other_distinct same_contents

-- A hit on each of the two paths, in either order.
get_is_not_path : get ∷ [] ≢ path ∷ []
unfolding path text
get_is_not_path e = cc

update-render_comm_example :
    (update hits (add_by 1) (get ∷ []) >>= λ f. update f (add_by 2) (path ∷ []) >>= render_family)
    ≡ (update hits (add_by 2) (path ∷ []) >>= λ f. update f (add_by 1) (get ∷ []) >>= render_family)
update-render_comm_example =
    update-render_comm hits (add_by 1) (add_by 2) (get ∷ []) (path ∷ []) hits_distinct
      get-IsJoinable path-only get_is_not_path
