-- ===== src/Tests/Provenance.antt =====
-- A run of the handler of internal/api/routes.go over a table that is a list.
use go_webapp_template.Base.{◌*◌, ◌≡◌, ◌⊎◌, refl, false, Option, none, some, [], ◌∷◌}
use go_webapp_template.Base.Text.{Text, text}
use go_webapp_template.Base.Dict.{Dict}
use go_webapp_template.Base.Time.{second}
use go_webapp_template.RateLimit.{new_rate_limiter, rate_limit_rate, rate_limit_burst}
use go_webapp_template.Store.Entries.{Lists, value_of, list_config-AllScanned}
use go_webapp_template.Api.Env.{World}
use go_webapp_template.Api.Serving.{Incoming, serve_all}
use go_webapp_template.Api.Provenance.{over_table, Put, settings_provenance}
use go_webapp_template.Tests.Requests.{env}
use go_webapp_template.Tests.Table.{table, contents, entries, walk}

abbrev no_ping : Dict Text → Option Text
no_ping db = none

abbrev world : World (over_table table no_ping env)
world = record {
  limiter = new_rate_limiter rate_limit_rate rate_limit_burst;
  db = (text "motd", text "Hi") ∷ [];
  auth = 0;
  metrics = [];
  logs = [];
}

abbrev pub put_motd : Incoming
put_motd = record {
  request = record {
    method = text "PUT";
    path = text "/api/config/motd";
    segments = text "api" ∷ text "config" ∷ text "motd" ∷ [];
    headers =
        (text "X-Requested-With", text "fetch")
        ∷ (text "Content-Type", text "application/json")
        ∷ [];
    body = text "Shop";
    limit = none;
    pattern = [];
    context = record { request_id = none; principal = none };
  };
  now = 1000 * second;
  random = some (text "id");
}

lists : (db : Dict Text) → Lists table db (entries db)
lists db =
    (list_config-AllScanned table db (record { rows = db; broken = false; close_fails = false })
        (entries db) refl).1.1
      (walk db, refl, refl)

abbrev later : Dict Text
later = (serve_all false world (put_motd ∷ [])).db

settings_provenance_example :
    (value_of (text "motd") (entries later) ≡ value_of (text "motd") (entries world.db))
    ⊎ Put table no_ping env false contents
        (text "motd")
        world
        (put_motd ∷ [])
        (value_of (text "motd") (entries later))
settings_provenance_example =
    settings_provenance table no_ping env false contents (text "motd") world (put_motd ∷ [])
      (entries world.db) (entries later) (lists world.db) (lists later)
