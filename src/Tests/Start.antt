-- ===== src/Tests/Start.antt =====
-- Runs of cmd/app/main.go and of `Open` of internal/store/store.go.
use go_webapp_template.Base.{if◌then◌else◌, ◌≡◌, refl, true, none, some, List, ◌⊎◌, [], ◌∷◌, ℕ}
use go_webapp_template.Base.Text.{text, same, has_prefix}
use go_webapp_template.Base.Dict.{lookup, insert}
use go_webapp_template.Config.{
  load, read_config, read_auth, env_string, env_bool, env_duration, duration_problems,
  validate_http_addr, validate_database_path, auth_problems,
}
use go_webapp_template.Auth.Providers.{
  contains_dots, new_provider, registry, register, new_local_jwt_provider, new_jwt_provider,
}
use go_webapp_template.Store.Migrate.{
  migrate, version_of, base_from, versions_of, first_unknown, apply_migration, apply_pending,
}
use go_webapp_template.Store.Open.{
  Connector, open_store, prepare, conclude, OpensOrCloses, open_store-OpensOrCloses,
}
use go_webapp_template.Program.{
  server_closed, signalled, Surroundings, run, close_after, wait, main, is_version_flag,
  version_line, info, BuildInfo, printed,
}
use go_webapp_template.Program.Orderly.{ClosesLast, handle, run-ClosesLast}
use go_webapp_template.Program.Listening.{PreparedBy, run-PreparedBy}
use go_webapp_template.Program.Settings.{run-StopsEarly}
use go_webapp_template.Program.{stop, bad_config, Run, exited}
use go_webapp_template.Config.{Config, Environment, Problem}
use go_webapp_template.Config.Ready.{settings_of, lacks_settings}
use go_webapp_template.Program.Success.{starts, EndsWell, exit_status, AsksVersion, main-Served}
use go_webapp_template.Tests.Migrations.{driver, books, files, old}
use go_webapp_template.Tests.Settings.{parse_duration, port_of}
use go_webapp_template.Tests.Settings
use go_webapp_template.Tests.Requests

abbrev connector : Connector driver
connector = record {
  open_path = λ path. some old;
  set_max_open_conns = λ n db. db;
  exec_pragma = λ pragma db. some db;
  ping = λ db. true;
  close = λ db. true;
}

open_store-OpensOrCloses_example :
    OpensOrCloses books files (some old) (open_store connector files (text "app.db"))
open_store-OpensOrCloses_example = open_store-OpensOrCloses connector books files (text "app.db")

abbrev surroundings : Surroundings ℕ driver
surroundings = record {
  parse_duration = parse_duration;
  port_of = port_of;
  parse_level = λ level. some 0;
  connector = connector;
  files = files;
  templates_parse = true;
  ending = signalled (text "interrupt") none server_closed;
}

run-ClosesLast_example :
    ClosesLast
      (handle Requests.env surroundings Settings.env)
      (run Requests.env surroundings Settings.env).events
run-ClosesLast_example = run-ClosesLast Requests.env surroundings Settings.env

run-PreparedBy_example :
    PreparedBy Requests.env surroundings books
      (load parse_duration port_of Settings.env)
      (run Requests.env surroundings Settings.env).events
run-PreparedBy_example = run-PreparedBy Requests.env surroundings books Settings.env

ended_well : (run Requests.env surroundings Settings.env).error ≡ none
unfolding run close_after wait load read_config read_auth env_string env_bool env_duration
    duration_problems validate_http_addr validate_database_path auth_problems contains_dots
    has_prefix Settings.env same text open_store prepare conclude migrate files old version_of
    base_from versions_of first_unknown apply_migration apply_pending new_provider registry register
    insert lookup new_local_jwt_provider new_jwt_provider
ended_well = refl

abbrev build : BuildInfo
build = record { version = text "1.0"; commit = text "abc"; build_time = text "now" }

exits_well :
    exit_status Requests.env surroundings
      (main Requests.env surroundings build (text "app" ∷ []) Settings.env)
    ≡ some 0
unfolding main is_version_flag
exits_well = rw ended_well refl

main-Served_example :
    let args = text "app" ∷ [] in
    let p = main Requests.env surroundings build args Settings.env in
    (AsksVersion Requests.env surroundings args × (p ≡ printed (version_line (info build))))
    ⊎ ((r : Run ℕ driver Requests.env) × (p ≡ exited 0 r)
        × (starts Requests.env surroundings r.events ≡ 1)
        × EndsWell Requests.env surroundings surroundings.ending)
main-Served_example =
    main-Served Requests.env surroundings build (text "app" ∷ []) Settings.env exits_well

version_run :
    main Requests.env surroundings build (text "app" ∷ text "--version" ∷ []) Settings.env
    ≡ printed (text "1.0 abc (now)\n")
unfolding main is_version_flag same text version_line info lookup
version_run = refl

-- A local provider without its settings.
unfoldable lacking : Environment
unfolding same text
lacking name = if same name (text "APP_AUTH_PROVIDER") then text "local" else []

abbrev lacking_config : Config
lacking_config = read_config parse_duration port_of lacking

lacks_one :
    lacks_settings (new_provider lacking_config.auth.provider (settings_of lacking_config.auth))
    ≡ true
unfolding read_config read_auth env_string env_bool env_duration lacking same text new_provider
    registry register insert lookup new_local_jwt_provider
lacks_one = refl

run-StopsEarly_example :
    (problems : List Problem) × (run Requests.env surroundings lacking
      ≡ stop Requests.env surroundings (bad_config problems))
run-StopsEarly_example = run-StopsEarly Requests.env surroundings lacking lacks_one
