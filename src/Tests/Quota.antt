-- ===== src/Tests/Quota.antt =====
-- Two requests to the handler of internal/api/routes.go, and their audit lines.
use go_webapp_template.Base.{
  ◌+◌, ◌-◌, ◌*◌, ◌/◌, ◌≤◌, ◌≡◌, refl, true, false, List, [], ◌∷◌, arith, subst,
}
use go_webapp_template.Base.Text.{Text, text, same, has_prefix}
use go_webapp_template.Base.Dict.{insert, lookup}
use go_webapp_template.Base.Known.{occurs}
use go_webapp_template.Base.Time.{Time, second, sub, ◌+ℤ◌, quo}
use go_webapp_template.Http.{Request, set_header, write_body, write_header, write_json, header_get}
use go_webapp_template.Auth.Principal.{Principal, has_role}
use go_webapp_template.RateLimit.{
  allow, take, refill, cleanup_locked, make_room, maybe_cleanup, serve_in, new_rate_limiter,
  rate_limit_rate, rate_limit_burst,
}
use go_webapp_template.Api.Env.{ok, World}
use go_webapp_template.Api.Serving.{Incoming, begin_io, serve_all}
use go_webapp_template.Api.Routes.{
  authed_chain, authed_mux, authed_dispatch, authed_route, key_after, root_dispatch, root, routes,
  root_route, path_is,
}
use go_webapp_template.Api.Middleware.{
  request_id, metrics_middleware, max_body, csrf, auth_middleware, admin_middleware,
  answer_principal, assign_id, hardened, identified, limit_principal, require_role, logging,
  security_headers,
}
use go_webapp_template.Api.Handlers.{put_config, store_decoded, store_value}
use go_webapp_template.Store.Key.{all_key_bytes, is_key_byte, valid_config_key}
use go_webapp_template.Api.Audit.{Audit, changes}
use go_webapp_template.Api.Audit.Chain.{routes-Audit}
use go_webapp_template.Api.Audit.Quota.{changes_by, changes_by-le}
use go_webapp_template.Tests.Requests.{env, admin}
use go_webapp_template.Tests.Provenance.{put_motd}

abbrev world : World env
world = record {
  limiter = new_rate_limiter rate_limit_rate rate_limit_burst;
  db = [];
  auth = 0;
  metrics = [];
  logs = [];
}

-- The same again, a second later.
abbrev requests : List Incoming
requests = put_motd ∷ record put_motd { now = 1001 * second } ∷ []

abbrev names : List Text
names = text "ann" ∷ []

admin_known : occurs admin.subject names ≡ true
unfolding admin same text
admin_known = refl

known :
    (seen : Request) (now : Time) (auth : env.Auth) (p : Principal)
    → (env.authenticate seen now auth).0 ≡ ok p
    → occurs p.subject names ≡ true
known seen now auth p h =
    let same_caller : admin ≡ p = cc in
    subst (λ q. occurs q.subject names ≡ true) same_caller admin_known

routes-Audit_example :
    Audit (begin_io world put_motd) (routes false (begin_io world put_motd)).world
routes-Audit_example = routes-Audit false (begin_io world put_motd)

changes_by-le_example :
    changes_by (text "ann") (serve_all false world requests).logs
    ≤ changes_by (text "ann") world.logs
      + (rate_limit_burst + (1001 * second - 1000 * second) / rate_limit_rate)
changes_by-le_example =
    changes_by-le false rate_limit_rate rate_limit_burst names (1000 * second) (1001 * second) world
      requests (text "ann") (omega arith) (omega arith) (omega arith) (omega arith) known refl
      (omega arith)

-- The first of the two leaves one line.
audited_run :
    changes (routes false (begin_io world put_motd)).world.logs ≡ (text "ann", text "motd") ∷ []
unfolding admin routes root_route path_is same text lookup insert root request_id logging
    security_headers authed_chain metrics_middleware max_body csrf header_get auth_middleware
    authed_mux admin_middleware allow sub new_rate_limiter take refill ◌+ℤ◌ put_config store_decoded
    store_value answer_principal assign_id hardened identified limit_principal require_role
    authed_dispatch authed_route key_after root_dispatch has_role has_prefix quo set_header
    write_body write_header write_json cleanup_locked make_room maybe_cleanup serve_in all_key_bytes
    is_key_byte valid_config_key
audited_run = refl
