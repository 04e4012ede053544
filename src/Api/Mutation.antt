-- ===== src/Api/Mutation.antt =====
-- Which requests can change the runtime configuration, through the whole handler of
-- internal/api/routes.go.
use go_webapp_template.Base.{◌≡◌, ◌⊎◌, inl, inr, refl, true, some, arith}
use go_webapp_template.Base.Text.{Text, text}
use go_webapp_template.Auth.Principal.{Principal, has_role}
use go_webapp_template.Http.{Request}
use go_webapp_template.RateLimit.{allow}
use go_webapp_template.Store.Key.{valid_config_key}
use go_webapp_template.Api.Env.{Env, ok, Io, Handler}
use go_webapp_template.Api.Handlers.{me, version_handler, list_config, put_config}
use go_webapp_template.Api.Ui.{render, home, ui_put_config}
use go_webapp_template.Api.Routes.{
  is_put, key_after, UiRoute, home_page, put_form, not_allowed, AuthedRoute, api_me, api_version,
  api_config, api_put, other_page, with_pattern, ui_route, ui_dispatch, ui_handler, authed_route,
  authed_dispatch, authed_mux,
}
use go_webapp_template.Api.Guards.{put_config-Stores, ui_put_config-Stores, admin_only}

-- A path that carries a key: `/api/config/{key}` or `/ui/config/{key}`.
abbrev pub IsConfigPath : Request → Text → Type 0
IsConfigPath r key =
    (key_after (text "api") (text "config") r.segments ≡ some key)
    ⊎ (key_after (text "ui") (text "config") r.segments ≡ some key)

-- A write behind the mux: who made it, and what it stored.
pub record MuxWrite (e : Env) (io : Io e) (db' : e.Db) : Type 0 where
  pub key : Text
  pub value : Text
  pub principal : Principal
  pub put : is_put io.request ≡ true
  pub at_key : IsConfigPath io.request key
  pub caller : io.request.context.principal ≡ some principal
  pub allowed : (allow io.world.limiter io.now principal.subject).1 ≡ true
  pub admin : has_role principal (text "admin") ≡ true
  pub valid : valid_config_key key ≡ true
  pub stored : e.set_config io.world.db key value ≡ ok db'

ui_route_put :
    (r : Request) (key : Text)
    → ui_route r ≡ put_form key
    → (is_put r ≡ true) × (key_after (text "ui") (text "config") r.segments ≡ some key)
unfolding ui_route
ui_route_put r key h = ground arith

authed_route_put :
    (r : Request) (key : Text)
    → authed_route r ≡ api_put key
    → (is_put r ≡ true) × (key_after (text "api") (text "config") r.segments ≡ some key)
unfolding authed_route
authed_route_put r key h = ground arith

module _ {e : Env} where
  render-db : (name : Text) (io : Io e) → (render name io).world.db ≡ io.world.db
  unfolding render
  render-db name io = ground arith

  home-db : (io : Io e) → (home io).world.db ≡ io.world.db
  unfolding home
  home-db io = render-db (text "home") io

  with_pattern-db :
      (p : Text) (h : Handler e) (io : Io e)
      → ((io' : Io e) → (h io').world.db ≡ io'.world.db)
      → (with_pattern p h io).world.db ≡ io.world.db
  with_pattern-db p h io kept = kept (record io { request = record (io.request) { pattern = p } })

  ui_dispatch-writes :
      (r : UiRoute) (io : Io e)
      → ui_route io.request ≡ r
      → ((ui_dispatch r io).world.db ≡ io.world.db) ⊎ MuxWrite e io (ui_dispatch r io).world.db
  unfolding ui_dispatch
  ui_dispatch-writes home_page io h = inl (with_pattern-db (text "GET /") home io home-db)
  ui_dispatch-writes (put_form key) io h =
      elim (admin_only key (ui_put_config key) _ (ui_put_config-Stores key)) [
        | inl kept ↦ inl kept
        | inr (p, caller, allowed, admin, valid, value, stored) ↦
            let (put, at_key) = ui_route_put io.request key h in
            inr (record {
              key = key;
              value = value;
              principal = p;
              put = put;
              at_key = inr at_key;
              caller = caller;
              allowed = allowed;
              admin = admin;
              valid = valid;
              stored = stored;
            })
      ]
  ui_dispatch-writes not_allowed io h = inl refl

  ui_handler-writes :
      (io : Io e)
      → ((ui_handler io).world.db ≡ io.world.db) ⊎ MuxWrite e io (ui_handler io).world.db
  unfolding ui_handler
  ui_handler-writes io = ui_dispatch-writes (ui_route io.request) io refl

  me-db : (io : Io e) → (me io).world.db ≡ io.world.db
  unfolding me
  me-db io = ground arith

  list_config-db : (io : Io e) → (list_config io).world.db ≡ io.world.db
  unfolding list_config
  list_config-db io = ground arith

  authed_dispatch-writes :
      (r : AuthedRoute) (io : Io e)
      → authed_route io.request ≡ r
      → ((authed_dispatch r io).world.db ≡ io.world.db)
        ⊎ MuxWrite e io (authed_dispatch r io).world.db
  unfolding authed_dispatch version_handler
  authed_dispatch-writes api_me io h = inl (with_pattern-db (text "GET /api/me") me io me-db)
  authed_dispatch-writes api_version io h = inl refl
  authed_dispatch-writes api_config io h =
      inl (with_pattern-db (text "GET /api/config") list_config io list_config-db)
  authed_dispatch-writes (api_put key) io h =
      elim (admin_only key (put_config key) _ (put_config-Stores key)) [
        | inl kept ↦ inl kept
        | inr (p, caller, allowed, admin, valid, value, stored) ↦
            let (put, at_key) = authed_route_put io.request key h in
            inr (record {
              key = key;
              value = value;
              principal = p;
              put = put;
              at_key = inl at_key;
              caller = caller;
              allowed = allowed;
              admin = admin;
              valid = valid;
              stored = stored;
            })
      ]
  authed_dispatch-writes other_page io h =
      elim (ui_handler-writes
        (record io { request = record (io.request) { pattern = text "/" } })) [
          | inl kept ↦ inl kept
          | inr w ↦ inr (record {
            key = w.key;
            value = w.value;
            principal = w.principal;
            put = w.put;
            at_key = w.at_key;
            caller = w.caller;
            allowed = w.allowed;
            admin = w.admin;
            valid = w.valid;
            stored = w.stored;
          })
        ]

  pub authed_mux-writes :
      (io : Io e)
      → ((authed_mux io).world.db ≡ io.world.db) ⊎ MuxWrite e io (authed_mux io).world.db
  unfolding authed_mux
  authed_mux-writes io = authed_dispatch-writes (authed_route io.request) io refl
