-- ===== src/Api/Serving.antt =====
-- Requests that the handler of internal/api/routes.go serves one after the other.
use go_webapp_template.Base.{Bool, Option, none, List, [], ◌∷◌}
use go_webapp_template.Base.Text.{Text}
use go_webapp_template.Base.Time.{Time}
use go_webapp_template.Http.{Request}
use go_webapp_template.Api.Env.{Env, World, Io}
use go_webapp_template.Api.Routes.{routes}

-- A request that comes in, with the clock's reading and the random bytes.
pub record Incoming : Type 0 where
  pub request : Request
  pub now : Time
  pub random : Option Text

module _ {e : Env} where
  abbrev pub begin_io : World e → Incoming → Io e
  begin_io world r = record {
    request = r.request;
    writer = record { header = []; sent = none; status = 200; bodies = [] };
    world = world;
    now = r.now;
    random = r.random;
  }

  unfoldable pub serve_all : Bool → World e → List Incoming → World e
  serve_all disable_hsts world [] = world
  serve_all disable_hsts world (r ∷ rs) =
      serve_all disable_hsts (routes disable_hsts (begin_io world r)).world rs
