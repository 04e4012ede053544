-- ===== src/Program/Orderly.antt =====
-- The order in which `run` of cmd/app/main.go starts and ends what it uses.
use go_webapp_template.Base.{◌≡◌, refl, ap, Option, none, some, List, [], ◌∷◌, ◌++◌, arith}
use go_webapp_template.Auth.Principal.{Principal}
use go_webapp_template.Auth.Claims.{Claims}
use go_webapp_template.Auth.Verify.{JwtConfig}
use go_webapp_template.Auth.Providers.{Built, built, failed, new_provider}
use go_webapp_template.Config.{Config, Environment, Loaded, loaded, invalid, load}
use go_webapp_template.Config.Ready.{settings_of}
use go_webapp_template.Store.Migrate.{Driver}
use go_webapp_template.Store.Open.{Opened, open_store, KeepsOrCloses, open_store-KeepsOrCloses}
use go_webapp_template.Api.Env.{Env, Handler}
use go_webapp_template.Program.{
  Ending, served, signalled, Event, set_default, warn_local, listen, shut_down, close_handle,
  Surroundings, wait, build_routes, with_routes, with_provider, close_after, with_store,
  with_logger, with_config, run,
}

-- The handles that the events close.
abbrev pub closes : {L : Type 0} {d : Driver} {e : Env} → List (Event L d e) → List d.Db
closes [] = []
closes (set_default level ∷ events) = closes events
closes (warn_local ∷ events) = closes events
closes (listen server db jwt map_fn ∷ events) = closes events
closes (shut_down signal timeout ∷ events) = closes events
closes (close_handle db ∷ events) = db ∷ closes events

-- The one handle is closed by the last event.
abbrev pub ClosesLast :
    {L : Type 0} {d : Driver} {e : Env} → Option d.Db → List (Event L d e) → Type 0
ClosesLast none events = closes events ≡ []
ClosesLast {L} {d} {e} (some handle) events =
    (before : List (Event L d e)) × (db : d.Db) × (events ≡ before ++ close_handle db ∷ [])
    × (closes before ≡ [])

module _ {L : Type 0} {d : Driver} (e : Env) (w : Surroundings L d) where
  -- What `sql.Open` has given the run, if it came to it.
  abbrev opened_by : Config → Option L → Option d.Db
  opened_by cfg none = none
  opened_by cfg (some level) = w.connector.open_path cfg.database_path

  abbrev handle_of : Loaded → Option d.Db
  handle_of (invalid problems) = none
  handle_of (loaded cfg) = opened_by cfg (w.parse_level cfg.log_level)

  abbrev pub handle : Environment → Option d.Db
  handle env = handle_of (load w.parse_duration w.port_of env)

  set_default-ClosesLast :
      (level : L) (o : Option d.Db) (events : List (Event L d e))
      → ClosesLast o events
      → ClosesLast o (set_default level ∷ events)
  set_default-ClosesLast level none events h = h
  set_default-ClosesLast level (some db) events (before, db', split, quiet) =
      (set_default level ∷ before, db', ap (λ l. set_default level ∷ l) split, quiet)

  closes-wait : (cfg : Config) (ending : Ending) → closes (wait e w cfg ending).events ≡ []
  unfolding wait
  closes-wait cfg (served result) = refl
  closes-wait cfg (signalled signal none late) = refl
  closes-wait cfg (signalled signal (some why) late) = refl

  closes-with_routes :
      (cfg : Config) (db : d.Db) (jwt : JwtConfig) (map_fn : Claims → Principal)
      (o : Option (Handler e))
      → closes (with_routes e w cfg db jwt map_fn o).events ≡ []
  closes-with_routes cfg db jwt map_fn none = refl
  closes-with_routes cfg db jwt map_fn (some handler) = closes-wait cfg w.ending

  closes-with_provider :
      (cfg : Config) (db : d.Db) (p : Built) → closes (with_provider e w cfg db p).events ≡ []
  closes-with_provider cfg db (failed why) = refl
  closes-with_provider cfg db (built jwt map_fn) =
      let h = closes-with_routes cfg db jwt map_fn (build_routes e w cfg) in ground arith

  with_store-ClosesLast :
      (cfg : Config) (o : Option d.Db) (opened : Opened d) (store : Option d.Db)
      → opened.store ≡ store
      → KeepsOrCloses (λ db. Unit) o opened
      → ClosesLast o (with_store e w cfg opened store).events
  unfolding close_after
  with_store-ClosesLast cfg none opened none is h =
      let (wrong, closed) = rw is at h in rw closed refl
  with_store-ClosesLast cfg (some given) opened none is h =
      let (wrong, (db, closed)) = rw is at h in rw closed ([], db, refl, refl)
  with_store-ClosesLast cfg none opened (some db) is h =
      let (migrated, fine, closed, got) = rw is at h in absurd (got refl)
  with_store-ClosesLast cfg (some given) opened (some db) is h =
      let provider = new_provider cfg.auth.provider (settings_of cfg.auth) in
      ((with_provider e w cfg db provider).events, db, refl, closes-with_provider cfg db provider)

  with_logger-ClosesLast :
      (cfg : Config) (o : Option L) → ClosesLast (opened_by cfg o) (with_logger e w cfg o).events
  with_logger-ClosesLast cfg none = refl
  with_logger-ClosesLast cfg (some level) =
      let opened = open_store w.connector w.files cfg.database_path in
      set_default-ClosesLast level _ _ (
        with_store-ClosesLast cfg (w.connector.open_path cfg.database_path) opened opened.store refl
          (open_store-KeepsOrCloses w.connector w.files (λ db. Unit) (λ db db' h. tt)
            cfg.database_path))

  -- Whatever the process meets: if `sql.Open` gives `run` a handle, the last thing that `run` does
  -- is to close a handle, and it has closed none before; otherwise it closes none.
  pub run-ClosesLast : (env : Environment) → ClosesLast (handle env) (run e w env).events
  unfolding run
  run-ClosesLast env =
      elim (load w.parse_duration w.port_of env)
        as (λ l. ClosesLast (handle_of l) (with_config e w l).events) [
          | invalid problems ↦ refl
          | loaded cfg ↦ with_logger-ClosesLast cfg (w.parse_level cfg.log_level)
        ]
