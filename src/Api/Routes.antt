-- ===== src/Api/Routes.antt =====
-- internal/api/routes.go, with the ServeMux patterns that it registers, and `ui.Handler`.
-- Paths are clean: ServeMux first redirects any other path to its clean form.
use go_webapp_template.Base.{
  Bool, true, false, not, ◌&&◌, Option, none, some, List, [], ◌∷◌, if◌then◌else◌,
}
use go_webapp_template.Base.Text.{Text, text, same, is_empty}
use go_webapp_template.Http.{Request, Writer, is_get_or_head, write_body, set_header, metrics_text}
use go_webapp_template.Api.Env.{Env, Handler}
use go_webapp_template.Api.Middleware.{
  answer, request_id, logging, security_headers, max_body, csrf, auth_middleware, require_role,
  admin_middleware, metrics_middleware,
}
use go_webapp_template.Api.Handlers.{healthz, readyz, me, version_handler, list_config, put_config}
use go_webapp_template.Api.Ui.{home, ui_put_config, static_handler}

-- The path is exactly the given segments.
unfoldable pub path_is : List Text → List Text → Bool
path_is [] [] = true
path_is (s ∷ ss) (t ∷ ts) = same s t && path_is ss ts
path_is _ _ = false

-- The path is `/a/b/{key}`.
unfoldable pub key_after : Text → Text → List Text → Option Text
key_after a b (x ∷ y ∷ k ∷ []) = if same x a && same y b && not (is_empty k) then some k else none
key_after a b _ = none

abbrev pub is_put : Request → Bool
is_put r = same r.method (text "PUT")

-- What the patterns of each mux select.
pub data UiRoute : Type 0 where
  home_page : UiRoute
  put_form : (key : Text) → UiRoute
  not_allowed : UiRoute

pub data AuthedRoute : Type 0 where
  api_me api_version api_config : AuthedRoute
  api_put : (key : Text) → AuthedRoute
  other_page : AuthedRoute

pub data RootRoute : Type 0 where
  health ready scrape static static_redirect authed : RootRoute

abbrev ui_key : Option Text → UiRoute
ui_key none = not_allowed
ui_key (some key) = put_form key

unfoldable pub ui_route : Request → UiRoute
unfolding key_after
ui_route r =
    if is_get_or_head r
    then home_page
    else if is_put r
    then ui_key (key_after (text "ui") (text "config") r.segments)
    else not_allowed

abbrev api_key : Option Text → AuthedRoute
api_key none = other_page
api_key (some key) = api_put key

unfoldable pub authed_route : Request → AuthedRoute
unfolding key_after path_is
authed_route r =
    if is_get_or_head r
    then if path_is r.segments (text "api" ∷ text "me" ∷ [])
      then api_me
      else if path_is r.segments (text "api" ∷ text "version" ∷ [])
      then api_version
      else if path_is r.segments (text "api" ∷ text "config" ∷ [])
      then api_config
      else other_page
    else if is_put r
    then api_key (key_after (text "api") (text "config") r.segments)
    else other_page

abbrev static_or : List Text → RootRoute
static_or [] = authed
static_or (s ∷ []) = if same s (text "static") then static_redirect else authed
static_or (s ∷ t ∷ ts) = if same s (text "static") then static else authed

unfoldable pub root_route : Request → RootRoute
unfolding path_is
root_route r =
    if is_get_or_head r && path_is r.segments (text "healthz" ∷ [])
    then health
    else if is_get_or_head r && path_is r.segments (text "readyz" ∷ [])
    then ready
    else if is_get_or_head r && path_is r.segments (text "metrics" ∷ [])
    then scrape
    else static_or r.segments

-- `Registry.Handler`: the rendering is modelled with the registry.
abbrev pub scrape_metrics : Writer → Writer
scrape_metrics w =
    write_body metrics_text
      (set_header (text "Content-Type") (text "text/plain; version=0.0.4; charset=utf-8") w)

module _ {e : Env} where
  -- ServeMux writes the pattern into the request that it was given.
  abbrev pub with_pattern : Text → Handler e → Handler e
  with_pattern p h io = h (record io { request = record (io.request) { pattern = p } })

  unfoldable pub ui_dispatch : UiRoute → Handler e
  ui_dispatch home_page = with_pattern (text "GET /") home
  ui_dispatch (put_form key) =
      with_pattern (text "PUT /ui/config/{key}")
        (admin_middleware (require_role (text "admin") (ui_put_config key)))
  ui_dispatch not_allowed = with_pattern [] (answer (e.mux_answer 405))

  unfoldable pub ui_handler : Handler e
  unfolding ui_dispatch ui_route
  ui_handler io = ui_dispatch (ui_route io.request) io

  unfoldable pub authed_dispatch : AuthedRoute → Handler e
  authed_dispatch api_me = with_pattern (text "GET /api/me") me
  authed_dispatch api_version = with_pattern (text "GET /api/version") version_handler
  authed_dispatch api_config = with_pattern (text "GET /api/config") list_config
  authed_dispatch (api_put key) =
      with_pattern (text "PUT /api/config/{key}")
        (admin_middleware (require_role (text "admin") (put_config key)))
  authed_dispatch other_page = with_pattern (text "/") ui_handler

  unfoldable pub authed_mux : Handler e
  unfolding authed_dispatch authed_route
  authed_mux io = authed_dispatch (authed_route io.request) io

  unfoldable pub authed_chain : Handler e
  authed_chain = metrics_middleware (max_body (csrf (auth_middleware authed_mux)))

  unfoldable pub root_dispatch : RootRoute → Handler e
  root_dispatch health = with_pattern (text "GET /healthz") healthz
  root_dispatch ready = with_pattern (text "GET /readyz") readyz
  root_dispatch scrape = with_pattern (text "GET /metrics") (answer scrape_metrics)
  root_dispatch static = with_pattern (text "/static/") static_handler
  root_dispatch static_redirect = with_pattern (text "/static/") (answer (e.mux_answer 301))
  root_dispatch authed = with_pattern (text "/") authed_chain

  unfoldable pub root : Handler e
  unfolding root_dispatch root_route
  root io = root_dispatch (root_route io.request) io

  -- The handler that `Routes` returns.
  unfoldable pub routes : Bool → Handler e
  unfolding root
  routes disable_hsts = request_id (logging (security_headers disable_hsts root))
