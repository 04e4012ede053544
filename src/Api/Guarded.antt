-- ===== src/Api/Guarded.antt =====
-- The whole chain of internal/api/routes.go around the muxes: only a guarded request writes.
use go_webapp_template.Base.{
  ◌≡◌, ◌⊎◌, inl, inr, refl, ◌∙◌, Bool, true, false, Option, none, some, Bool-cases, [], ◌∷◌, arith,
}
use go_webapp_template.Base.Text.{Text, text, same, same_iff}
use go_webapp_template.Auth.Principal.{Principal, has_role}
use go_webapp_template.Http.{Request, header_get, is_get_or_head}
use go_webapp_template.RateLimit.{allow}
use go_webapp_template.Store.Key.{valid_config_key}
use go_webapp_template.Api.Env.{Env, ok, Io, active_inc}
use go_webapp_template.Api.Middleware.{
  has_mutation_header, is_trusted_site, csrf, auth_middleware, max_body, metrics_middleware,
  security_headers, logging, request_id, with_auth, max_request_body_bytes, assign_id, identified,
  hardened, record_status, count, answer,
}
use go_webapp_template.Api.Handlers.{healthz, readyz}
use go_webapp_template.Api.Ui.{static_handler}
use go_webapp_template.Api.Routes.{
  is_put, RootRoute, health, ready, scrape, static, static_redirect, authed, authed_mux,
  authed_chain, root_route, root_dispatch, root, routes,
}
use go_webapp_template.Api.Guards.{csrf_cases, answer_principal_cases, authenticated}
use go_webapp_template.Api.Mutation.{IsConfigPath, authed_mux-writes}

-- A write, with all that the request had to bring. `seen` is the request as the provider sees it.
pub record ConfigWrite (e : Env) (io : Io e) (db' : e.Db) : Type 0 where
  pub key : Text
  pub value : Text
  pub principal : Principal
  pub seen : Request
  pub same_headers : seen.headers ≡ io.request.headers
  pub put : is_put io.request ≡ true
  pub at_key : IsConfigPath io.request key
  pub header : has_mutation_header io.request ≡ true
  pub site : is_trusted_site (header_get io.request (text "Sec-Fetch-Site")) ≡ true
  pub authenticated : (e.authenticate seen io.now io.world.auth).0 ≡ ok principal
  pub allowed : (allow io.world.limiter io.now principal.subject).1 ≡ true
  pub admin : has_role principal (text "admin") ≡ true
  pub valid : valid_config_key key ≡ true
  pub stored : e.set_config io.world.db key value ≡ ok db'

put-unsafe : (r : Request) → is_put r ≡ true → is_get_or_head r ≡ false
unfolding same text
put-unsafe r h = rw ((same_iff r.method (text "PUT")).0 h)

module _ {e : Env} where
  -- The request's fields that the guards of the chain read, and the state that they use.
  abbrev Writes : Io e → Io e → Type 0
  Writes io io' = (io'.world.db ≡ io.world.db) ⊎ ConfigWrite e io io'.world.db

  auth-Writes :
      (io : Io e)
      → ((auth_middleware authed_mux io).world.db ≡ io.world.db)
        ⊎ ((is_put io.request ≡ true)
            × (has_mutation_header io.request ≡ true
                → is_trusted_site (header_get io.request (text "Sec-Fetch-Site")) ≡ true
                → ConfigWrite e io (auth_middleware authed_mux io).world.db))
  unfolding auth_middleware header_get
  auth-Writes io =
      let auth = (e.authenticate io.request io.now io.world.auth).1 in
      let result = (e.authenticate io.request io.now io.world.auth).0 in
      let io₁ = with_auth auth io in
      elim (answer_principal_cases authed_mux result io₁) [
        | inr kept ↦ inl kept
        | inl (p, found, same_world) ↦ elim (authed_mux-writes (authenticated io₁ p)) [
          | inl kept ↦ inl (rw same_world kept)
          | inr w ↦
              let same_caller : w.principal ≡ p = ground (arith, w.caller) in
              inr (
                w.put,
                λ header site. record {
                  key = w.key;
                  value = w.value;
                  principal = w.principal;
                  seen = io.request;
                  same_headers = refl;
                  put = w.put;
                  at_key = w.at_key;
                  header = header;
                  site = site;
                  authenticated = rw same_caller found;
                  allowed = w.allowed;
                  admin = w.admin;
                  valid = w.valid;
                  stored = rw same_world w.stored;
                },
              )
        ]
      ]

  csrf-Writes : (io : Io e) → Writes io (csrf (auth_middleware authed_mux) io)
  csrf-Writes io = elim (csrf_cases (auth_middleware authed_mux) io) [
    | inl (safe, passed) ↦ elim (auth-Writes io) [
      | inl kept ↦ inl (rw passed kept)
      | inr (put, _) ↦ cc (put-unsafe io.request put)
    ]
    | inr (inl (header, site, passed)) ↦ elim (auth-Writes io) [
      | inl kept ↦ inl (rw passed kept)
      | inr (_, write) ↦ inr (rw passed (write header site))
    ]
    | inr (inr kept) ↦ inl kept
  ]

  -- A layer that hands on the request with its method, segments and headers, and the state.
  transfer :
      (io io' : Io e) (db' : e.Db)
      → io'.request.method ≡ io.request.method
      → io'.request.segments ≡ io.request.segments
      → io'.request.headers ≡ io.request.headers
      → io'.now ≡ io.now
      → io'.world.db ≡ io.world.db
      → io'.world.limiter ≡ io.world.limiter
      → io'.world.auth ≡ io.world.auth
      → ConfigWrite e io' db'
      → ConfigWrite e io db'
  unfolding header_get
  transfer io io' db' m s h n d l a w = record {
    key = w.key;
    value = w.value;
    principal = w.principal;
    seen = w.seen;
    same_headers = rw (← h) w.same_headers;
    put = rw (← m) w.put;
    at_key = rw (← s) w.at_key;
    header = rw (← h) w.header;
    site = rw (← h) w.site;
    authenticated = rw (← n, ← a) w.authenticated;
    allowed = rw (← l, ← n) w.allowed;
    admin = w.admin;
    valid = w.valid;
    stored = rw (← d) w.stored;
  }

  transfer-Writes :
      (io io' out : Io e)
      → io'.request.method ≡ io.request.method
      → io'.request.segments ≡ io.request.segments
      → io'.request.headers ≡ io.request.headers
      → io'.now ≡ io.now
      → io'.world.db ≡ io.world.db
      → io'.world.limiter ≡ io.world.limiter
      → io'.world.auth ≡ io.world.auth
      → Writes io' out
      → Writes io out
  transfer-Writes io io' out m s h n d l a (inl kept) = inl (kept ∙ d)
  transfer-Writes io io' out m s h n d l a (inr w) =
      inr (transfer io io' out.world.db m s h n d l a w)

  max_body-Writes : (io : Io e) → Writes io (max_body (csrf (auth_middleware authed_mux)) io)
  unfolding max_body
  max_body-Writes io = elim (Bool-cases (is_get_or_head io.request)) [
    | inl safe ↦
        let passed : max_body (csrf (auth_middleware authed_mux)) io
            ≡ csrf (auth_middleware authed_mux) io =
          rw safe in
        rw passed (csrf-Writes io)
    | inr unsafe ↦
        let io' = record io {
          request = record (io.request) { limit = some max_request_body_bytes };
        } in
        let out = csrf (auth_middleware authed_mux) io' in
        let passed : max_body (csrf (auth_middleware authed_mux)) io ≡ out = rw unsafe in
        rw passed (transfer-Writes io io' out refl refl refl refl refl refl refl (csrf-Writes io'))
  ]

  authed_chain-Writes : (io : Io e) → Writes io (authed_chain io)
  unfolding authed_chain metrics_middleware
  authed_chain-Writes io =
      let io' = answer record_status (count (active_inc ∷ []) io) in
      transfer-Writes io io' (max_body (csrf (auth_middleware authed_mux)) io') refl refl refl refl
        refl refl refl (max_body-Writes io')

  root_dispatch-Writes : (r : RootRoute) (io : Io e) → Writes io (root_dispatch r io)
  unfolding root_dispatch healthz readyz static_handler
  root_dispatch-Writes health io = inl refl
  root_dispatch-Writes ready io = inl (ground arith)
  root_dispatch-Writes scrape io = inl refl
  root_dispatch-Writes static io = inl refl
  root_dispatch-Writes static_redirect io = inl refl
  root_dispatch-Writes authed io =
      let io' = record io { request = record (io.request) { pattern = text "/" } } in
      transfer-Writes io io' (authed_chain io') refl refl refl refl refl refl refl
        (authed_chain-Writes io')

  root-Writes : (io : Io e) → Writes io (root io)
  unfolding root
  root-Writes io = root_dispatch-Writes (root_route io.request) io

  security_headers-Writes :
      (disable_hsts : Bool) (io : Io e) → Writes io (security_headers disable_hsts root io)
  unfolding security_headers
  security_headers-Writes disable_hsts io =
      let io' = record io { writer = hardened disable_hsts io.request io.writer } in
      transfer-Writes io io' (root io') refl refl refl refl refl refl refl (root-Writes io')

  logging-Writes :
      (disable_hsts : Bool) (io : Io e)
      → Writes io (logging (security_headers disable_hsts root) io)
  unfolding logging
  logging-Writes disable_hsts io =
      let io' = answer record_status io in
      transfer-Writes io io' (security_headers disable_hsts root io') refl refl refl refl refl refl
        refl (security_headers-Writes disable_hsts io')

  assign_id-Writes :
      (disable_hsts : Bool) (id : Option Text) (io : Io e)
      → Writes io (assign_id (logging (security_headers disable_hsts root)) id io)
  unfolding assign_id
  assign_id-Writes disable_hsts none io = inl refl
  assign_id-Writes disable_hsts (some id) io =
      let io' = identified id io in
      let out = logging (security_headers disable_hsts root) io' in
      transfer-Writes io io' out refl refl refl refl refl refl refl
        (logging-Writes disable_hsts io')

  -- Whatever the request and the state, the handler of `Routes` leaves the store as it is, or it
  -- has stored one value under a valid key that the path names: for a PUT with a mutation header
  -- and a trusted Sec-Fetch-Site, whose caller the provider has authenticated, who holds the role
  -- "admin" and whom the limiter has allowed.
  pub routes_guarded :
      (disable_hsts : Bool) (io : Io e)
      → ((routes disable_hsts io).world.db ≡ io.world.db)
        ⊎ ConfigWrite e io (routes disable_hsts io).world.db
  unfolding routes request_id
  routes_guarded disable_hsts io = assign_id-Writes disable_hsts io.random io
