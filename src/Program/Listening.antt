-- ===== src/Program/Listening.antt =====
-- What holds when the server of cmd/app/main.go starts to listen.
use go_webapp_template.Base.{
  ◌≡◌, refl, Bool, true, false, Option, none, some, List, [], ◌∷◌, All, All-append, All-map,
  if◌then◌else◌,
}
use go_webapp_template.Base.Text.{text, same}
use go_webapp_template.Auth.Principal.{Principal}
use go_webapp_template.Auth.Claims.{Claims}
use go_webapp_template.Auth.Verify.{JwtConfig}
use go_webapp_template.Auth.Providers.{Built, built, failed, new_provider}
use go_webapp_template.Auth.Providers.Pinned.{IsPinned, AllPinned, new_provider-AllPinned}
use go_webapp_template.Config.{Config, Environment, Loaded, loaded, invalid, load}
use go_webapp_template.Config.Ready.{settings_of}
use go_webapp_template.Store.Migrate.{Driver}
use go_webapp_template.Store.Migrate.Books.{Bookkeeping, pending}
use go_webapp_template.Store.Open.{Opened, open_store, OpensOrCloses, open_store-OpensOrCloses}
use go_webapp_template.Api.Env.{Env}
use go_webapp_template.Api.Routes.{routes}
use go_webapp_template.Program.{
  new_server, server_config_of, Ending, served, signalled, Event, set_default, warn_local, listen,
  shut_down, close_handle, Run, Surroundings, after, wait, with_routes, with_provider, close_after,
  with_store, with_logger, with_config, run,
}

module _ {L : Type 0} {d : Driver} (e : Env) (w : Surroundings L d) (books : Bookkeeping d) where
  -- The server is the one of an accepted configuration with the program's routes, over a store in
  -- which no migration is pending, with a provider that pins its algorithm, issuer and audience.
  abbrev pub IsPrepared : Config → Event L d e → Type 0
  IsPrepared cfg (set_default level) = Unit
  IsPrepared cfg warn_local = Unit
  IsPrepared cfg (shut_down signal timeout) = timeout ≡ cfg.shutdown_timeout
  IsPrepared cfg (close_handle db) = Unit
  IsPrepared cfg (listen server db jwt map_fn) =
      (server ≡ new_server (server_config_of cfg) (routes cfg.disable_hsts))
      × (pending w.files (books.recorded db) ≡ [])
      × IsPinned jwt map_fn

  wait-All : (cfg : Config) (ending : Ending) → All (IsPrepared cfg) (wait e w cfg ending).events
  unfolding wait
  wait-All cfg (served result) = tt
  wait-All cfg (signalled signal none late) = (refl, tt)
  wait-All cfg (signalled signal (some why) late) = (refl, tt)

  with_routes-All :
      (cfg : Config) (db : d.Db) (jwt : JwtConfig) (map_fn : Claims → Principal) (parse : Bool)
      → pending w.files (books.recorded db) ≡ []
      → IsPinned jwt map_fn
      → All
          (IsPrepared cfg)
          (with_routes e w cfg db jwt map_fn
            (if parse then some (routes cfg.disable_hsts) else none)).events
  with_routes-All cfg db jwt map_fn false ready pinned = tt
  with_routes-All cfg db jwt map_fn true ready pinned =
      ((refl, ready, pinned), wait-All cfg w.ending)

  warn_local-All :
      (cfg : Config) (local : Bool) (r : Run L d e)
      → All (IsPrepared cfg) r.events
      → All (IsPrepared cfg) (if local then after e w warn_local r else r).events
  warn_local-All cfg true r h = (tt, h)
  warn_local-All cfg false r h = h

  with_provider-All :
      (cfg : Config) (db : d.Db) (p : Built)
      → pending w.files (books.recorded db) ≡ []
      → AllPinned p
      → All (IsPrepared cfg) (with_provider e w cfg db p).events
  with_provider-All cfg db (failed why) ready pinned = tt
  with_provider-All cfg db (built jwt map_fn) ready pinned =
      warn_local-All cfg (same cfg.auth.provider (text "local")) _
        (with_routes-All cfg db jwt map_fn w.templates_parse ready pinned)

  with_store-All :
      (cfg : Config) (o : Option d.Db) (opened : Opened d) (store : Option d.Db)
      → opened.store ≡ store
      → OpensOrCloses books w.files o opened
      → All (IsPrepared cfg) (with_store e w cfg opened store).events
  unfolding close_after
  with_store-All cfg o opened none is h =
      All-map (IsPrepared cfg) (λ db. close_handle db) opened.closed (λ db. tt)
  with_store-All cfg o opened (some db) is h =
      let provider = new_provider cfg.auth.provider (settings_of cfg.auth) in
      let (ready, _, _, _) = rw is at h in
      All-append (IsPrepared cfg) (with_provider e w cfg db provider).events (close_handle db ∷ [])
        (with_provider-All cfg db provider ready
          (new_provider-AllPinned cfg.auth.provider (settings_of cfg.auth)))
        (tt, tt)

  with_logger-All :
      (cfg : Config) (o : Option L) → All (IsPrepared cfg) (with_logger e w cfg o).events
  with_logger-All cfg none = tt
  with_logger-All cfg (some level) =
      let opened = open_store w.connector w.files cfg.database_path in
      (
        tt,
        with_store-All cfg (w.connector.open_path cfg.database_path) opened opened.store refl
            (open_store-OpensOrCloses w.connector books w.files cfg.database_path),
      )

  abbrev pub PreparedBy : Loaded → List (Event L d e) → Type 0
  PreparedBy (invalid problems) events = events ≡ []
  PreparedBy (loaded cfg) events = All (IsPrepared cfg) events

  -- For a driver that keeps the rows of `schema_migrations` as documented, and whatever else the
  -- process meets: `run` does nothing if `Load` does not accept the configuration. Otherwise, if it
  -- starts a server, this is the one of the configuration with the program's routes, no migration
  -- is then pending in its store, and its provider pins the algorithm RS256 or ES256, a header,
  -- issuer, audience and key set; a shutdown gets the configured time.
  pub run-PreparedBy :
      (env : Environment) → PreparedBy (load w.parse_duration w.port_of env) (run e w env).events
  unfolding run
  run-PreparedBy env =
      elim (load w.parse_duration w.port_of env) as (λ l. PreparedBy l (with_config e w l).events) [
        | invalid problems ↦ refl
        | loaded cfg ↦ with_logger-All cfg (w.parse_level cfg.log_level)
      ]
