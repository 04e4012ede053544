-- ===== src/Api/Observed.antt =====
-- What the access log and the metrics of internal/api see of a request: `r.WithContext` copies the
-- request, so what happens behind the authentication does not reach the middleware in front.
use go_webapp_template.Base.{
  ℕ, ◌≡◌, inl, inr, refl, Bool, none, some, List, [], ◌∷◌, ◌++◌, Bool-cases, arith,
}
use go_webapp_template.Base.Text.{text}
use go_webapp_template.Auth.Principal.{Principal}
use go_webapp_template.Http.{Request, is_get_or_head, request_id_from_context}
use go_webapp_template.Api.Env.{
  Env, Result, ok, err, Io, Handler, MetricCall, active_inc, active_dec, requests_inc,
  duration_observe, LogLine, access,
}
use go_webapp_template.Api.Middleware.{
  is_probe, csrf, auth_middleware, answer_principal, max_body, metrics_middleware, security_headers,
  hardened, logging, max_request_body_bytes, with_auth, record_status, count, answer,
}
use go_webapp_template.Api.Handlers.{healthz, readyz}
use go_webapp_template.Api.Ui.{static_handler}
use go_webapp_template.Api.Routes.{
  RootRoute, health, ready, scrape, static, static_redirect, authed, authed_mux, authed_chain,
  root_route, root_dispatch, root,
}

-- The fields of a request that its log line and its series are made of.
abbrev IsSeenAs : Request → Request → Type 0
IsSeenAs r r' =
    (r'.method ≡ r.method)
    × (r'.path ≡ r.path)
    × (r'.pattern ≡ r.pattern)
    × (r'.context ≡ r.context)

module _ {e : Env} where
  auth-request :
      (next : Handler e) (result : Result Principal) (io : Io e)
      → (answer_principal next result io).request ≡ io.request
  unfolding answer_principal
  auth-request next (ok p) io = refl
  auth-request next (err why) io = refl

  csrf-request :
      (next : Handler e) (io : Io e)
      → ((io' : Io e) → (next io').request ≡ io'.request)
      → (csrf next io).request ≡ io.request
  unfolding csrf
  csrf-request next io kept = ground (arith, kept io)

  guarded-request : (io : Io e) → (csrf (auth_middleware authed_mux) io).request ≡ io.request
  unfolding auth_middleware
  guarded-request io = csrf-request (auth_middleware authed_mux) io (λ io'.
      let (result, auth) = e.authenticate io'.request io'.now io'.world.auth in
      auth-request authed_mux result (with_auth auth io'))

  max_body-IsSeenAs :
      (io : Io e) → IsSeenAs io.request (max_body (csrf (auth_middleware authed_mux)) io).request
  unfolding max_body
  max_body-IsSeenAs io = elim (Bool-cases (is_get_or_head io.request)) [
    | inl safe ↦
        let passed : max_body (csrf (auth_middleware authed_mux)) io
            ≡ csrf (auth_middleware authed_mux) io =
          rw safe in
        rw (passed, guarded-request io) (refl, refl, refl, refl)
    | inr unsafe ↦
        let io' = record io {
          request = record (io.request) { limit = some max_request_body_bytes };
        } in
        let passed : max_body (csrf (auth_middleware authed_mux)) io
            ≡ csrf (auth_middleware authed_mux) io' =
          rw unsafe in
        rw (passed, guarded-request io') (refl, refl, refl, refl)
  ]

  -- The series of a request that reaches the authenticated chain through the root mux are labelled
  -- with the pattern "/" of that mux, whatever the authenticated mux or the UI mux then matches
  -- and also where the request is refused before them.
  pub route_label_root :
      (io : Io e)
      → root_route io.request ≡ authed
      → (calls : List MetricCall) × (status : ℕ) × ((root io).world.metrics
          ≡ calls
            ++ requests_inc io.request.method (text "/") status
              ∷ duration_observe io.request.method (text "/")
              ∷ active_dec
              ∷ [])
  unfolding root root_dispatch authed_chain metrics_middleware text
  route_label_root io h =
      let io₁ = record io { request = record (io.request) { pattern = text "/" } } in
      let io₂ = answer record_status (count (active_inc ∷ []) io₁) in
      let out = max_body (csrf (auth_middleware authed_mux)) io₂ in
      let (m, _, p, _) = max_body-IsSeenAs io₂ in
      (out.world.metrics, out.writer.status, rw h (rw (m, p) refl))

  authed_chain-context : (io : Io e) → (authed_chain io).request.context ≡ io.request.context
  unfolding authed_chain metrics_middleware
  authed_chain-context io =
      (max_body-IsSeenAs (answer record_status (count (active_inc ∷ []) io))).3

  authed_chain-line :
      (io : Io e)
      → ((authed_chain io).request.method ≡ io.request.method)
        × ((authed_chain io).request.path ≡ io.request.path)
  unfolding authed_chain metrics_middleware
  authed_chain-line io =
      let (m, p, _, _) = max_body-IsSeenAs (answer record_status (count (active_inc ∷ []) io)) in
      (m, p)

  abbrev SameLine : Io e → Io e → Type 0
  SameLine io io' =
      (io'.request.method ≡ io.request.method)
      × (io'.request.path ≡ io.request.path)
      × (io'.request.context ≡ io.request.context)

  root_dispatch-SameLine : (r : RootRoute) (io : Io e) → SameLine io (root_dispatch r io)
  unfolding root_dispatch healthz readyz static_handler
  root_dispatch-SameLine health io = (refl, refl, refl)
  root_dispatch-SameLine ready io = ground arith
  root_dispatch-SameLine scrape io = (refl, refl, refl)
  root_dispatch-SameLine static io = (refl, refl, refl)
  root_dispatch-SameLine static_redirect io = (refl, refl, refl)
  root_dispatch-SameLine authed io =
      let io' = record io { request = record (io.request) { pattern = text "/" } } in
      let (m, p) = authed_chain-line io' in (m, p, authed_chain-context io')

  root-SameLine : (io : Io e) → SameLine io (root io)
  unfolding root
  root-SameLine io = root_dispatch-SameLine (root_route io.request) io

  -- For a request that comes without a principal, as every request of a client does, the access
  -- log line has no subject, whether or not the provider has authenticated the caller.
  pub logging-no_subject :
      (disable_hsts : Bool) (io : Io e)
      → io.request.context.principal ≡ none
      → (logs : List LogLine) × (status : ℕ) × ((logging
            (security_headers disable_hsts root)
            io).world.logs
          ≡ logs
            ++ access
                (is_probe io.request)
                io.request.method
                io.request.path
                status
                (request_id_from_context io.request.context)
                none
              ∷ [])
  unfolding logging security_headers
  logging-no_subject disable_hsts io h =
      let io₁ = answer record_status io in
      let io₂ = record io₁ { writer = hardened disable_hsts io₁.request io₁.writer } in
      let out = root io₂ in
      let (m, p, c) = root-SameLine io₂ in (out.world.logs, out.writer.status, rw (m, p, c, h) refl)
