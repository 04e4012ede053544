-- ===== src/Tests/Requests.antt =====
-- A run of the whole handler of internal/api/routes.go: an administrator sets one value.
use go_webapp_template.Base.{ℕ, ◌*◌, ◌≡◌, ◌⊎◌, refl, false, none, some, List, [], ◌∷◌, ◌++◌}
use go_webapp_template.Base.Text.{Text, text, same, has_prefix}
use go_webapp_template.Base.Dict.{Dict, insert, lookup}
use go_webapp_template.Base.Time.{sub, ◌+ℤ◌, quo, second}
use go_webapp_template.Auth.Principal.{Principal, has_role}
use go_webapp_template.Http.{
  set_header, write_body, write_header, write_json, request_id_from_context, header_get,
}
use go_webapp_template.RateLimit.{
  allow, take, refill, cleanup_locked, make_room, maybe_cleanup, serve_in, new_rate_limiter,
  rate_limit_rate, rate_limit_burst,
}
use go_webapp_template.Api.Env.{
  Env, ok, decoded, Io, MetricCall, requests_inc, duration_observe, active_dec, LogLine, access,
}
use go_webapp_template.Api.Middleware.{
  request_id, metrics_middleware, max_body, csrf, auth_middleware, admin_middleware,
  answer_principal, assign_id, hardened, identified, limit_principal, require_role, is_probe,
  logging, security_headers,
}
use go_webapp_template.Api.Routes.{
  authed_chain, authed_mux, authed_dispatch, authed_route, key_after, root_dispatch, root, routes,
  root_route, authed, path_is,
}
use go_webapp_template.Api.Guarded.{ConfigWrite, routes_guarded}
use go_webapp_template.Api.Observed.{route_label_root, logging-no_subject}
use go_webapp_template.Api.Handlers.{put_config, store_decoded, store_value}
use go_webapp_template.Store.Key.{all_key_bytes, is_key_byte, valid_config_key}

unfoldable pub admin : Principal
unfolding text
admin = record { subject = text "ann"; email = []; display_name = []; roles = text "admin" ∷ [] }

-- A store that keeps its entries in a map, and a provider that knows one caller.
abbrev pub env : Env
env = record {
  Db = Dict Text;
  Auth = ℕ;
  ping = λ db. none;
  list_config = λ db. ok [];
  set_config = λ db key value. ok (insert key value db);
  authenticate = λ r now n. (ok admin, n);
  parse_media_type = λ s. some s;
  decode_body = λ limit body. decoded body;
  parse_form = λ r. none;
  post_form_value = λ r name. [];
  status_text = λ status. [];
  template_error = λ name page. none;
  encode_error = λ body w. none;
  path_ext = λ path. [];
  serve_file = λ path w. w;
  mux_answer = λ status w. w;
}

unfoldable put_site_name : Io env
unfolding text
put_site_name = record {
  request = record {
    method = text "PUT";
    path = text "/api/config/site_name";
    segments = text "api" ∷ text "config" ∷ text "site_name" ∷ [];
    headers =
        (text "X-Requested-With", text "fetch")
        ∷ (text "Content-Type", text "application/json")
        ∷ [];
    body = text "Shop";
    limit = none;
    pattern = [];
    context = record { request_id = none; principal = none };
  };
  writer = record { header = []; sent = none; status = 200; bodies = [] };
  world = record {
    limiter = new_rate_limiter rate_limit_rate rate_limit_burst;
    db = [];
    auth = 0;
    metrics = [];
    logs = [];
  };
  now = 1000 * second;
  random = some (text "id");
}

routes_guarded_example :
    ((routes false put_site_name).world.db ≡ put_site_name.world.db)
    ⊎ ConfigWrite env put_site_name (routes false put_site_name).world.db
routes_guarded_example = routes_guarded false put_site_name

is_authed : root_route put_site_name.request ≡ authed
unfolding put_site_name root_route path_is same text
is_authed = refl

route_label_root_example :
    (calls : List MetricCall) × (status : ℕ) × ((root put_site_name).world.metrics
      ≡ calls
        ++ requests_inc put_site_name.request.method (text "/") status
          ∷ duration_observe put_site_name.request.method (text "/")
          ∷ active_dec
          ∷ [])
route_label_root_example = route_label_root put_site_name is_authed

no_principal : put_site_name.request.context.principal ≡ none
unfolding put_site_name
no_principal = refl

logging-no_subject_example :
    (logs : List LogLine) × (status : ℕ) × ((logging
        (security_headers false root)
        put_site_name).world.logs
      ≡ logs
        ++ access
            (is_probe put_site_name.request)
            put_site_name.request.method
            put_site_name.request.path
            status
            (request_id_from_context put_site_name.request.context)
            none
          ∷ [])
logging-no_subject_example = logging-no_subject false put_site_name no_principal

-- The value is stored.
stored_run : (routes false put_site_name).world.db ≡ (text "site_name", text "Shop") ∷ []
unfolding admin put_site_name routes root_route path_is same text lookup insert root request_id
    logging security_headers authed_chain metrics_middleware max_body csrf header_get
    auth_middleware authed_mux admin_middleware allow sub new_rate_limiter take refill ◌+ℤ◌
    put_config store_decoded store_value answer_principal assign_id hardened identified
    limit_principal require_role authed_dispatch authed_route key_after root_dispatch has_role
    has_prefix quo set_header write_body write_header write_json cleanup_locked make_room
    maybe_cleanup serve_in all_key_bytes is_key_byte valid_config_key
stored_run = refl
