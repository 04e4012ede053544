-- ===== src/Program/Settings.antt =====
-- The settings of the provider in cmd/app/main.go, as internal/config has checked them.
use go_webapp_template.Base.{List, ◌≡◌, refl, Bool, true, false, Option, none, some, if◌then◌else◌}
use go_webapp_template.Base.Text.{text, same}
use go_webapp_template.Auth.Principal.{Principal}
use go_webapp_template.Auth.Claims.{Claims}
use go_webapp_template.Auth.Verify.{JwtConfig}
use go_webapp_template.Auth.Providers.{ProviderError, Built, built, failed, new_provider}
use go_webapp_template.Config.{
  Config, Environment, Loaded, loaded, invalid, load, read_config, Problem,
}
use go_webapp_template.Config.Ready.{
  settings_of, is_missing, lacks_settings, load_ready, load-read_config,
}
use go_webapp_template.Store.Migrate.{Driver}
use go_webapp_template.Store.Open.{Opened, open_store}
use go_webapp_template.Api.Env.{Env, Handler}
use go_webapp_template.Program.{
  stop, bad_config, bad_provider, closing_store, ServeError, server_closed, serve_failed, Ending,
  served, signalled, RunError, warn_local, Run, Surroundings, after, sent, wait, build_routes,
  with_routes, with_provider, with_close_error, close_after, with_store, with_logger, with_config,
  run,
}

module _ {L : Type 0} {d : Driver} (e : Env) (w : Surroundings L d) where
  -- If the error blames the provider, it is not for a setting that is missing.
  abbrev pub Excuses : Option RunError → Type 0
  Excuses error = (why : ProviderError) → error ≡ some (bad_provider why) → is_missing why ≡ false

  sent-Excuses : (result : ServeError) → Excuses (sent e w result)
  sent-Excuses server_closed why h = cc
  sent-Excuses (serve_failed reason) why h = cc

  wait-Excuses : (cfg : Config) (ending : Ending) → Excuses (wait e w cfg ending).error
  unfolding wait
  wait-Excuses cfg (served result) = sent-Excuses result
  wait-Excuses cfg (signalled signal none late) = sent-Excuses late
  wait-Excuses cfg (signalled signal (some reason) late) = λ why h. cc

  with_routes-Excuses :
      (cfg : Config) (db : d.Db) (jwt : JwtConfig) (map_fn : Claims → Principal)
      (o : Option (Handler e))
      → Excuses (with_routes e w cfg db jwt map_fn o).error
  with_routes-Excuses cfg db jwt map_fn none = λ why h. cc
  with_routes-Excuses cfg db jwt map_fn (some handler) = wait-Excuses cfg w.ending

  warn_local-Excuses :
      (local : Bool) (r : Run L d e)
      → Excuses r.error
      → Excuses (if local then after e w warn_local r else r).error
  warn_local-Excuses true r h = h
  warn_local-Excuses false r h = h

  with_provider-Excuses :
      (cfg : Config) (db : d.Db) (p : Built)
      → lacks_settings p ≡ false
      → Excuses (with_provider e w cfg db p).error
  with_provider-Excuses cfg db (failed reason) fine =
      λ why h. let one : reason ≡ why = cc in rw one at fine
  with_provider-Excuses cfg db (built jwt map_fn) fine =
      warn_local-Excuses (same cfg.auth.provider (text "local")) _
        (with_routes-Excuses cfg db jwt map_fn (build_routes e w cfg))

  closing-Excuses : (closes : Bool) → Excuses (if closes then none else some closing_store)
  closing-Excuses true = λ why h. cc
  closing-Excuses false = λ why h. cc

  with_close_error-Excuses :
      (db : d.Db) (o : Option RunError) → Excuses o → Excuses (with_close_error e w db o)
  with_close_error-Excuses db none h = closing-Excuses (w.connector.close db)
  with_close_error-Excuses db (some why) h = h

  with_store-Excuses :
      (cfg : Config) (opened : Opened d) (store : Option d.Db)
      → lacks_settings (new_provider cfg.auth.provider (settings_of cfg.auth)) ≡ false
      → Excuses (with_store e w cfg opened store).error
  unfolding close_after
  with_store-Excuses cfg opened none fine = λ why h. cc
  with_store-Excuses cfg opened (some db) fine =
      let provider = new_provider cfg.auth.provider (settings_of cfg.auth) in
      with_close_error-Excuses db (with_provider e w cfg db provider).error
        (with_provider-Excuses cfg db provider fine)

  with_logger-Excuses :
      (cfg : Config) (o : Option L)
      → lacks_settings (new_provider cfg.auth.provider (settings_of cfg.auth)) ≡ false
      → Excuses (with_logger e w cfg o).error
  with_logger-Excuses cfg none fine = λ why h. cc
  with_logger-Excuses cfg (some level) fine =
      let opened = open_store w.connector w.files cfg.database_path in
      with_store-Excuses cfg opened opened.store fine

  with_config-Excuses :
      (env : Environment) (l : Loaded)
      → load w.parse_duration w.port_of env ≡ l
      → Excuses (with_config e w l).error
  with_config-Excuses env (invalid problems) is = λ why h. cc
  with_config-Excuses env (loaded cfg) is =
      let (_, _, fine) = load_ready w.parse_duration w.port_of env cfg is in
      with_logger-Excuses cfg (w.parse_level cfg.log_level) fine

  -- If `run` returns an error of the provider, this is never one about a setting that is missing.
  run-Excuses :
      (env : Environment) (why : ProviderError)
      → (run e w env).error ≡ some (bad_provider why)
      → is_missing why ≡ false
  unfolding run
  run-Excuses env why h = with_config-Excuses env (load w.parse_duration w.port_of env) refl why h

  lacking-Stops :
      (env : Environment) (l : Loaded)
      → load w.parse_duration w.port_of env ≡ l
      → let cfg = read_config w.parse_duration w.port_of env in
        lacks_settings (new_provider cfg.auth.provider (settings_of cfg.auth)) ≡ true
        → (problems : List Problem) × (with_config e w l ≡ stop e w (bad_config problems))
  lacking-Stops env (invalid problems) is lacking = (problems, refl)
  lacking-Stops env (loaded cfg) is lacking =
      let (_, _, fine) = load_ready w.parse_duration w.port_of env cfg is in
      let read = load-read_config w.parse_duration w.port_of env cfg is in
      let fine' : lacks_settings (
            new_provider (read_config w.parse_duration w.port_of env).auth.provider
              (settings_of (read_config w.parse_duration w.port_of env).auth))
          ≡ false =
        rw read fine in
      cc

  -- If the environment names a provider and lacks a setting that this provider requires, `run`
  -- returns an error about the configuration and has done nothing: no logger was set, no handle
  -- closed and no server started.
  pub run-StopsEarly :
      (env : Environment)
      → let cfg = read_config w.parse_duration w.port_of env in
        lacks_settings (new_provider cfg.auth.provider (settings_of cfg.auth)) ≡ true
        → (problems : List Problem) × (run e w env ≡ stop e w (bad_config problems))
  unfolding run
  run-StopsEarly env lacking = lacking-Stops env (load w.parse_duration w.port_of env) refl lacking
