-- ===== src/Api/Middleware.antt =====
-- internal/api/middleware.go, the middleware of internal/api/metrics.go,
-- internal/auth/middleware.go and internal/api/ratelimit.go. Durations are left out of the log
-- lines and the observations.
use go_webapp_template.Base.{
  ℕ, Bool, false, not, ◌||◌, Option, none, some, List, [], ◌∷◌, ◌++◌, if◌then◌else◌,
}
use go_webapp_template.Base.Text.{Text, text, same, is_empty, has_prefix}
use go_webapp_template.Auth.Principal.{Principal, has_role}
use go_webapp_template.Http.{
  Context, Request, Writer, header_get, is_get_or_head, with_request_id, request_id_from_context,
  set_header, write_problem, write_json, Body, problem,
}
use go_webapp_template.RateLimit.{RateLimiter, allow}
use go_webapp_template.Api.Env.{
  Env, Result, ok, err, Io, Handler, MetricCall, active_inc, active_dec, requests_inc,
  duration_observe, LogLine, access, failed,
}

abbrev pub is_probe : Request → Bool
is_probe r = same r.path (text "/healthz") || same r.path (text "/readyz")

abbrev pub subject_of : Option Principal → Option Text
subject_of none = none
subject_of (some p) = some p.subject

abbrev pub access_line : Request → ℕ → LogLine
access_line r status =
    access (is_probe r) r.method r.path status (request_id_from_context r.context)
      (subject_of r.context.principal)

-- A new statusRecorder around the writer.
abbrev pub record_status : Writer → Writer
record_status w = record w { status = 200 }

abbrev pub max_request_body_bytes : ℕ
max_request_body_bytes = 1048576

abbrev pub has_mutation_header : Request → Bool
has_mutation_header r =
    same (header_get r (text "X-Requested-With")) (text "fetch")
    || same (header_get r (text "HX-Request")) (text "true")

-- The cases of the `switch` on Sec-Fetch-Site that pass.
abbrev pub is_trusted_site : Text → Bool
is_trusted_site site =
    is_empty site
    || same site (text "same-origin")
    || same site (text "same-site")
    || same site (text "none")

-- internal/auth/middleware.go
abbrev pub with_principal : Principal → Context → Context
with_principal p c = record c { principal = some p }

abbrev pub holds_role : Text → Option Principal → Bool
holds_role role none = false
holds_role role (some p) = has_role p role

abbrev pub route_label : Text → Text
route_label pattern = if is_empty pattern then text "-" else pattern

-- What `securityHeaders` sets before the next handler runs.
unfoldable pub hardened : Bool → Request → Writer → Writer
unfolding set_header has_prefix
hardened disable_hsts r writer =
    let w = set_header (text "Referrer-Policy") (text "no-referrer") (
      set_header (text "X-Content-Type-Options") (text "nosniff") (
        set_header (text "X-Frame-Options") (text "DENY") (
          set_header (text "Content-Security-Policy")
            (text "default-src 'self'; script-src 'self'; style-src 'self'; frame-ancestors 'none'")
            writer))) in
    let w' =
      if disable_hsts
      then w
      else set_header (text "Strict-Transport-Security")
          (text "max-age=63072000; includeSubDomains") w in
    let w'' =
      set_header (text "Permissions-Policy")
        (text
          "accelerometer=(), camera=(), geolocation=(), gyroscope=(), magnetometer=(), microphone=(), payment=(), usb=()")
        w' in
    if has_prefix r.path (text "/api/")
    then set_header (text "Cache-Control") (text "no-store") w''
    else w''

-- What `WriteProblem` and `writeJSON` log of the error of `Encode`, which may have written a part
-- of the body.
abbrev pub encoding_lines : Text → Option Text → List LogLine
encoding_lines message none = []
encoding_lines message (some why) = failed message why [] ∷ []

module _ {e : Env} where
  abbrev pub answer : (Writer → Writer) → Handler e
  answer f io = record io { writer = f io.writer }

  abbrev pub log_line : LogLine → Handler e
  log_line l io = record io { world = record (io.world) { logs = io.world.logs ++ l ∷ [] } }

  -- `next.ServeHTTP(w, r.WithContext(…))`: the copy is dropped when `next` returns.
  abbrev pub with_context : (Context → Context) → Handler e → Handler e
  with_context f next io =
      let r = io.request in
      record (next (record io { request = record r { context = f r.context } })) { request = r }

  abbrev pub log_encoding : Text → Option Text → Handler e
  log_encoding message o io = record io {
    world = record (io.world) { logs = io.world.logs ++ encoding_lines message o };
  }

  -- Every call of `WriteProblem` but for the detail: the title is `http.StatusText(status)`.
  abbrev pub refuse : ℕ → Text → Handler e
  refuse status detail io =
      let title = e.status_text status in
      log_encoding (text "writing problem response")
        (e.encode_error (problem status title detail) io.writer)
        (answer (write_problem status title detail) io)

  abbrev pub answer_json : ℕ → Body → Handler e
  answer_json status body io =
      log_encoding (text "writing JSON response") (e.encode_error body io.writer)
        (answer (write_json status body) io)

  -- The request with its identifier, which is on the response too.
  unfoldable pub identified : Text → Io e → Io e
  unfolding set_header
  identified id io =
      let r = io.request in
      record io {
        request = record r { context = with_request_id id r.context };
        writer = set_header (text "X-Request-Id") id io.writer;
      }

  -- What follows the call of `rand.Read`, whose failure is `none`.
  unfoldable pub assign_id : Handler e → Option Text → Handler e
  unfolding identified write_problem
  assign_id next none io = refuse 500 [] io
  assign_id next (some id) io = record (next (identified id io)) { request = io.request }

  unfoldable pub request_id : Handler e → Handler e
  unfolding assign_id
  request_id next io = assign_id next io.random io

  unfoldable pub logging : Handler e → Handler e
  logging next io =
      let io' = next (answer record_status io) in
      log_line (access_line io'.request io'.writer.status) io'

  unfoldable pub security_headers : Bool → Handler e → Handler e
  unfolding hardened
  security_headers disable_hsts next io =
      next (record io { writer = hardened disable_hsts io.request io.writer })

  unfoldable pub max_body : Handler e → Handler e
  max_body next io =
      if is_get_or_head io.request
      then next io
      else next
          (record io { request = record (io.request) { limit = some max_request_body_bytes } })

  unfoldable pub csrf : Handler e → Handler e
  unfolding write_problem
  csrf next io =
      if is_get_or_head io.request
      then next io
      else if not (has_mutation_header io.request)
      then refuse 403 [] io
      else if is_trusted_site (header_get io.request (text "Sec-Fetch-Site"))
      then next io
      else refuse 403 [] io

  -- What follows the call of `Authenticate`.
  unfoldable pub answer_principal : Handler e → Result Principal → Handler e
  unfolding write_problem
  answer_principal next (ok p) io = with_context (with_principal p) next io
  answer_principal next (err why) io = refuse 401 [] (
      log_line
        (failed (text "authentication failed") why (request_id_from_context io.request.context)) io)

  abbrev pub with_auth : e.Auth → Io e → Io e
  with_auth auth io = record io { world = record (io.world) { auth = auth } }

  unfoldable pub auth_middleware : Handler e → Handler e
  unfolding answer_principal
  auth_middleware next io =
      let (result, auth) = e.authenticate io.request io.now io.world.auth in
      answer_principal next result (with_auth auth io)

  unfoldable pub require_role : Text → Handler e → Handler e
  unfolding write_problem has_role
  require_role role next io =
      if holds_role role io.request.context.principal then next io else refuse 403 [] io

  -- internal/api/ratelimit.go
  -- What follows `PrincipalFromContext`.
  abbrev pub with_limiter : RateLimiter → Io e → Io e
  with_limiter limiter io = record io { world = record (io.world) { limiter = limiter } }

  unfoldable pub limit_principal : Handler e → Option Principal → Handler e
  unfolding write_problem
  limit_principal next none io = refuse 500 [] io
  limit_principal next (some p) io =
      let (limiter, allowed) = allow io.world.limiter io.now p.subject in
      if allowed then next (with_limiter limiter io) else refuse 429 [] (with_limiter limiter io)

  unfoldable pub admin_middleware : Handler e → Handler e
  unfolding limit_principal
  admin_middleware next io = limit_principal next io.request.context.principal io

  -- internal/api/metrics.go
  abbrev pub count : List MetricCall → Handler e
  count calls io = record io { world = record (io.world) { metrics = io.world.metrics ++ calls } }

  unfoldable pub metrics_middleware : Handler e → Handler e
  metrics_middleware next io =
      let io' = next (answer record_status (count (active_inc ∷ []) io)) in
      let route = route_label io'.request.pattern in
      count
        (requests_inc io'.request.method route io'.writer.status
          ∷ duration_observe io'.request.method route
          ∷ active_dec
          ∷ [])
        io'
