-- ===== src/Api/Measured.antt =====
-- internal/api/metrics.go: the metrics that the middleware records, in the registry of
-- internal/metrics/metrics.go.
use go_webapp_template.Base.{
  ℕ, zero, suc, get_elem?, set, ◌≡◌, refl, ◌∙◌, Option, some, List, [], ◌∷◌, ◌++◌, length, map,
  ◌>>=◌, arith,
}
use go_webapp_template.Base.Text.{Text, text, same}
use go_webapp_template.Base.Decimal.{format_uint}
use go_webapp_template.Api.Env.{MetricCall, active_inc, active_dec, requests_inc, duration_observe}
use go_webapp_template.Metrics.{
  Float64, counter, gauge, histogram, Family, label_count, add, observe, series_for, store,
  observe_series,
}
use go_webapp_template.Metrics.Registry.{
  Registry, new_family, sort_floats, new_registry, register, counter_vec, histogram_vec, new_gauge,
  on_family, counter_inc, gauge_inc, gauge_dec, histogram_observe,
}
use go_webapp_template.Metrics.Render.{render}
use go_webapp_template.Metrics.Calls.{
  Call, new_counter, new_histogram, new_single, count_one, raise_gauge, lower_gauge, record_value,
  run, run_all,
}
use go_webapp_template.Metrics.Total.{Returns, render-Returns}

-- `httpMetricsSet`; a pointer is the family's place.
pub record HttpMetrics (F : Type 0) : Type 0 where
  pub registry : Registry F
  pub requests : ℕ
  pub duration : ℕ
  pub active : ℕ

unfoldable pub requests_name : Text
unfolding text
requests_name = text "http_requests_total"

unfoldable pub requests_help : Text
unfolding text
requests_help = text "Total HTTP requests on the authenticated chain."

unfoldable pub requests_labels : List Text
unfolding text
requests_labels = text "method" ∷ text "route" ∷ text "status" ∷ []

unfoldable pub duration_name : Text
unfolding text
duration_name = text "http_request_duration_seconds"

unfoldable pub duration_help : Text
unfolding text
duration_help = text "HTTP request latency in seconds on the authenticated chain."

unfoldable pub duration_labels : List Text
unfolding text
duration_labels = text "method" ∷ text "route" ∷ []

unfoldable pub active_name : Text
unfolding text
active_name = text "http_active_requests"

unfoldable pub active_help : Text
unfolding text
active_help = text "In-flight HTTP requests on the authenticated chain."

module _ {F : Type 0} ⦃fl : Float64 F⦄ where
  unfoldable pub duration_buckets : List F
  duration_buckets =
      map fl.thousandths (5 ∷ 10 ∷ 25 ∷ 50 ∷ 100 ∷ 250 ∷ 500 ∷ 1000 ∷ 2500 ∷ 5000 ∷ [])

  unfoldable pub new_http_metrics : Option (HttpMetrics F)
  unfolding counter_vec histogram_vec new_gauge
  new_http_metrics = do
    (r, requests) ← counter_vec new_registry requests_name requests_help requests_labels
    (r', duration) ← histogram_vec r duration_name duration_help duration_buckets duration_labels
    (r'', active) ← new_gauge r' active_name active_help
    some (record { registry = r''; requests = requests; duration = duration; active = active })

  -- A call of the middleware, with the seconds that its request has taken.
  unfoldable pub call_of : HttpMetrics F → F × MetricCall → Call F
  unfolding format_uint
  call_of m (seconds, active_inc) = raise_gauge m.active
  call_of m (seconds, active_dec) = lower_gauge m.active
  call_of m (seconds, requests_inc method route status) =
      count_one m.requests (method ∷ route ∷ format_uint status ∷ [])
  call_of m (seconds, duration_observe method route) =
      record_value m.duration seconds (method ∷ route ∷ [])

  -- How many labels each family has.
  abbrev arities : List (Family F) → List ℕ
  arities = map (λ (f : Family F). length f.label_names)

  -- An operation that a family with `n` labels takes, and that keeps their names.
  abbrev Takes : ℕ → (Family F → Option (Family F)) → Type 0
  Takes n op =
      (f : Family F)
      → length f.label_names ≡ n
      → (f' : Family F) × (op f ≡ some f') × (f'.label_names ≡ f.label_names)

  get_elem?-arities :
      (fs : List (Family F)) (i n : ℕ)
      → get_elem? (arities fs) i ≡ some n
      → (f : Family F) × (get_elem? fs i ≡ some f) × (length f.label_names ≡ n)
  get_elem?-arities [] i n h = cc
  get_elem?-arities (f ∷ fs) zero n h = (f, refl, cc)
  get_elem?-arities (f ∷ fs) (suc i) n h = get_elem?-arities fs i n h

  arities-set :
      (fs : List (Family F)) (i : ℕ) (f f' : Family F)
      → get_elem? fs i ≡ some f
      → f'.label_names ≡ f.label_names
      → arities (set fs i f') ≡ arities fs
  arities-set [] i f f' h e = refl
  arities-set (g ∷ fs) zero f f' h e = let same_family : g ≡ f = cc in rw (e, same_family) refl
  arities-set (g ∷ fs) (suc i) f f' h e = rw (arities-set fs i f f' h e) refl

  on_family-Returns :
      (r : Registry F) (i n : ℕ) (op : Family F → Option (Family F))
      → get_elem? (arities r.families) i ≡ some n
      → Takes n op
      → (r' : Registry F) × (on_family r i op ≡ some r')
        × (arities r'.families ≡ arities r.families)
  unfolding on_family
  on_family-Returns r i n op h takes =
      let (f, here, labels) = get_elem?-arities r.families i n h in
      let (f', ran, kept) = takes f labels in
      (
        record r { families = set r.families i f' },
        rw (here, ran) refl,
        arities-set r.families i f f' here kept,
      )

  add-Takes : (delta : F) (values : List Text) → Takes (length values) (λ f. add f delta values)
  unfolding add label_count
  add-Takes delta values f e =
      let s = series_for f values in
      (store f values (record s { value = fl.plus s.value delta }), ground arith, refl)

  observe-Takes : (v : F) (values : List Text) → Takes (length values) (λ f. observe f v values)
  unfolding observe label_count
  observe-Takes v values f e =
      (store f values (observe_series f.bounds v (series_for f values)), ground arith, refl)

  abbrev IsReady : HttpMetrics F → Registry F → Type 0
  IsReady m r =
      (get_elem? (arities r.families) m.requests ≡ some 3)
      × (get_elem? (arities r.families) m.duration ≡ some 2)
      × (get_elem? (arities r.families) m.active ≡ some 0)

  run-arities :
      (m : HttpMetrics F) (r : Registry F) (c : F × MetricCall)
      → IsReady m r
      → (r' : Registry F) × (run r (call_of m c) ≡ some r')
        × (arities r'.families ≡ arities r.families)
  unfolding run call_of counter_inc gauge_inc gauge_dec histogram_observe
  run-arities m r (seconds, active_inc) (p, q, s) =
      on_family-Returns r m.active 0 _ s (add-Takes fl.one [])
  run-arities m r (seconds, active_dec) (p, q, s) =
      on_family-Returns r m.active 0 _ s (add-Takes fl.minus_one [])
  run-arities m r (seconds, requests_inc method route status) (p, q, s) =
      on_family-Returns r m.requests 3 _ p
        (add-Takes fl.one (method ∷ route ∷ format_uint status ∷ []))
  run-arities m r (seconds, duration_observe method route) (p, q, s) =
      on_family-Returns r m.duration 2 _ q (observe-Takes seconds (method ∷ route ∷ []))

  run_all-IsReady :
      (m : HttpMetrics F) (r : Registry F) (calls : List (F × MetricCall))
      → IsReady m r
      → (r' : Registry F) × (run_all r (map (call_of m) calls) ≡ some r')
  unfolding run_all
  run_all-IsReady m r [] h = (r, refl)
  run_all-IsReady m r (c ∷ calls) h =
      let (r', ran, kept) = run-arities m r c h in
      let (r'', rest) = run_all-IsReady m r' calls (rw kept h) in (r'', rw ran rest)

  abbrev made : HttpMetrics F
  made = record {
    registry = record {
      families =
          new_family requests_name requests_help counter requests_labels []
          ∷ new_family duration_name duration_help histogram duration_labels
              (sort_floats duration_buckets)
          ∷ new_family active_name active_help gauge [] []
          ∷ [];
      by_name = active_name ∷ duration_name ∷ requests_name ∷ [];
    };
    requests = 0;
    duration = 1;
    active = 2;
  }

  new_http_metrics-made : new_http_metrics ≡ some made
  unfolding new_http_metrics counter_vec histogram_vec new_gauge register duration_buckets
      requests_name duration_name active_name text same
  new_http_metrics-made = refl

  abbrev registrations : List (Call F)
  registrations =
      new_counter requests_name requests_help requests_labels
      ∷ new_histogram duration_name duration_help duration_buckets duration_labels
      ∷ new_single active_name active_help
      ∷ []

  run_all-registrations :
      (calls : List (Call F))
      → run_all new_registry (registrations ++ calls) ≡ run_all made.registry calls
  unfolding run_all run counter_vec histogram_vec new_gauge register duration_buckets requests_name
      duration_name active_name text same
  run_all-registrations calls = refl

  -- The metrics of the middleware are registered without a panic, none of the calls that it makes
  -- panics, whatever the requests, and after them the registry renders to a text.
  pub http_metrics-Returns :
      (calls : List (F × MetricCall)) (goroutines alloc : ℕ)
      → (m : HttpMetrics F) × (new_http_metrics ≡ some m)
        × (r : Registry F) × (run_all m.registry (map (call_of m) calls) ≡ some r)
        × Returns (render r goroutines alloc)
  unfolding requests_labels duration_labels
  http_metrics-Returns calls goroutines alloc =
      let (r, ran) = run_all-IsReady made made.registry calls (refl, refl, refl) in
      let all = map (call_of made) calls in
      (
        made,
        new_http_metrics-made,
        r,
        ran,
        render-Returns (registrations ++ all) r goroutines alloc (run_all-registrations all ∙ ran),
      )
