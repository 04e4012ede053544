-- ===== src/Api/Audit/Chain.antt =====
-- The muxes of internal/api/routes.go and the chain around them, by what a request does to the
-- store, the limiter and the audit lines.
use go_webapp_template.Base.{
  ◌≡◌, inl, inr, refl, ◌∙◌, Bool, true, false, not, Option, none, some, [], ◌∷◌, ◌++◌,
  if◌then◌else◌, ℕ,
}
use go_webapp_template.Base.Text.{Text, text}
use go_webapp_template.Auth.Principal.{Principal}
use go_webapp_template.Http.{header_get, is_get_or_head}
use go_webapp_template.Api.Env.{Env, Result, ok, err, World, Io, LogLine, active_inc}
use go_webapp_template.Api.Middleware.{
  has_mutation_header, is_trusted_site, csrf, auth_middleware, answer_principal, max_body,
  metrics_middleware, security_headers, logging, request_id, with_auth, max_request_body_bytes,
  assign_id, identified, record_status, count, answer, access_line, refuse,
}
use go_webapp_template.Api.Handlers.{healthz, version_handler, put_config}
use go_webapp_template.Api.Ui.{home, static_handler, ui_put_config}
use go_webapp_template.Api.Routes.{
  RootRoute, health, ready, scrape, static, static_redirect, authed, UiRoute, home_page, put_form,
  not_allowed, AuthedRoute, api_me, api_version, api_config, api_put, other_page, ui_dispatch,
  ui_handler, authed_route, authed_dispatch, authed_mux, authed_chain, root_dispatch, root, routes,
}
use go_webapp_template.Api.Guards.{authenticated}
use go_webapp_template.Api.Audit.{
  changes, changes-other, changes-encoding, changes-failed, MuxAudit, Audit,
}
use go_webapp_template.Api.Audit.Handlers.{
  render-Quiet, me-Quiet, list_config-Quiet, readyz-Quiet, put_config-Edits, ui_put_config-Edits,
  admin_only-MuxAudit,
}

module _ {e : Env} where
  ui_dispatch-MuxAudit : (r : UiRoute) (io : Io e) → MuxAudit io (ui_dispatch r io).world
  unfolding ui_dispatch home
  ui_dispatch-MuxAudit home_page io = inl (render-Quiet (text "home") _)
  ui_dispatch-MuxAudit (put_form key) io =
      admin_only-MuxAudit (ui_put_config key) _ (ui_put_config-Edits key)
  ui_dispatch-MuxAudit not_allowed io = inl (refl, (refl, refl))

  authed_dispatch-MuxAudit :
      (r : AuthedRoute) (io : Io e) → MuxAudit io (authed_dispatch r io).world
  unfolding authed_dispatch version_handler ui_handler
  authed_dispatch-MuxAudit api_me io = inl (me-Quiet _)
  authed_dispatch-MuxAudit api_version io = inl (refl, (refl, changes-encoding io.world.logs _ _))
  authed_dispatch-MuxAudit api_config io = inl (list_config-Quiet _)
  authed_dispatch-MuxAudit (api_put key) io =
      admin_only-MuxAudit (put_config key) _ (put_config-Edits key)
  authed_dispatch-MuxAudit other_page io = ui_dispatch-MuxAudit _ _

  authed_mux-MuxAudit : (io : Io e) → MuxAudit io (authed_mux io).world
  unfolding authed_mux
  authed_mux-MuxAudit io = authed_dispatch-MuxAudit (authed_route io.request) io

  quiet : (io : Io e) → Audit io io.world
  quiet io = inl (refl, (refl, refl))

  denied : (io : Io e) (status : ℕ) (detail : Text) → Audit io (refuse status detail io).world
  denied io status detail = inl (refl, (refl, changes-encoding io.world.logs _ _))

  if-Audit :
      (b : Bool) (io x y : Io e)
      → Audit io x.world
      → Audit io y.world
      → Audit io (if b then x else y).world
  if-Audit true io x y h k = h
  if-Audit false io x y h k = k

  answer_principal-Audit :
      (io : Io e) (result : Result Principal)
      → (e.authenticate io.request io.now io.world.auth).0 ≡ result
      → Audit io
          (answer_principal authed_mux result
            (with_auth (e.authenticate io.request io.now io.world.auth).1 io)).world
  unfolding answer_principal
  answer_principal-Audit io (err why) h =
      inl (refl, (refl, changes-failed io.world.logs _ _ _ refl))
  answer_principal-Audit io (ok p) h =
      let io' = with_auth (e.authenticate io.request io.now io.world.auth).1 io in
      elim (authed_mux-MuxAudit (authenticated io' p)) [
        | inl calm ↦ inl calm
        | inr (q, caller, tried) ↦
            let same_caller : p ≡ q = cc in inr (q, io.request, h ∙ rw same_caller refl, tried)
      ]

  auth_middleware-Audit : (io : Io e) → Audit io (auth_middleware authed_mux io).world
  unfolding auth_middleware
  auth_middleware-Audit io = answer_principal-Audit io _ refl

  csrf-Audit : (io : Io e) → Audit io (csrf (auth_middleware authed_mux) io).world
  unfolding csrf
  csrf-Audit io = if-Audit (is_get_or_head io.request) io _ _ (auth_middleware-Audit io) (
      if-Audit (not (has_mutation_header io.request)) io _ _ (denied io _ _) (
        if-Audit (is_trusted_site (header_get io.request (text "Sec-Fetch-Site"))) io _ _
          (auth_middleware-Audit io) (denied io _ _)))

  max_body-Audit : (io : Io e) → Audit io (max_body (csrf (auth_middleware authed_mux)) io).world
  unfolding max_body
  max_body-Audit io = if-Audit (is_get_or_head io.request) io _ _ (csrf-Audit io) (
      csrf-Audit
        (record io { request = record (io.request) { limit = some max_request_body_bytes } }))

  authed_chain-Audit : (io : Io e) → Audit io (authed_chain io).world
  unfolding authed_chain metrics_middleware
  authed_chain-Audit io = max_body-Audit (answer record_status (count (active_inc ∷ []) io))

  root_dispatch-Audit : (r : RootRoute) (io : Io e) → Audit io (root_dispatch r io).world
  unfolding root_dispatch healthz static_handler
  root_dispatch-Audit health io = inl (refl, (refl, changes-encoding io.world.logs _ _))
  root_dispatch-Audit ready io = inl (readyz-Quiet _)
  root_dispatch-Audit scrape io = quiet io
  root_dispatch-Audit static io = quiet io
  root_dispatch-Audit static_redirect io = quiet io
  root_dispatch-Audit authed io =
      authed_chain-Audit (record io { request = record (io.request) { pattern = text "/" } })

  -- A line of the log that is no audit line.
  other_line-Audit :
      (io : Io e) (w : World e) (l : LogLine)
      → changes (l ∷ []) ≡ []
      → Audit io w
      → Audit io (record w { logs = w.logs ++ l ∷ [] })
  other_line-Audit io w l h (inl (limiter, (db, lines))) =
      inl (limiter, (db, changes-other w.logs l h ∙ lines))
  other_line-Audit io w l h (inr (p, seen, found, (limiter, inl (db, lines)))) =
      inr (p, seen, found, (limiter, inl (db, changes-other w.logs l h ∙ lines)))
  other_line-Audit io w l h
        (inr (p, seen, found, (limiter, inr (granted, (key, value, set, lines))))) =
      inr (
        p,
        seen,
        found,
        (limiter, inr (granted, (key, value, set, changes-other w.logs l h ∙ lines))),
      )

  logging-Audit :
      (disable_hsts : Bool) (io : Io e)
      → Audit io (logging (security_headers disable_hsts root) io).world
  unfolding logging security_headers root
  logging-Audit disable_hsts io =
      let out = security_headers disable_hsts root (answer record_status io) in
      other_line-Audit io out.world (access_line out.request out.writer.status) refl
        (root_dispatch-Audit _ _)

  assign_id-Audit :
      (disable_hsts : Bool) (id : Option Text) (io : Io e)
      → Audit io (assign_id (logging (security_headers disable_hsts root)) id io).world
  unfolding assign_id
  assign_id-Audit disable_hsts none io = denied io _ _
  assign_id-Audit disable_hsts (some id) io = logging-Audit disable_hsts (identified id io)

  -- Whatever the request and the state: the limiter and the store stay as they are and no audit
  -- line is written; or the limiter is called once, for the subject of a caller whom the provider
  -- has authenticated, and then either the store stays as it is without an audit line, or the call
  -- was granted, one entry was set, and one audit line names that subject and the entry's key.
  pub routes-Audit : (disable_hsts : Bool) (io : Io e) → Audit io (routes disable_hsts io).world
  unfolding routes request_id
  routes-Audit disable_hsts io = assign_id-Audit disable_hsts io.random io
