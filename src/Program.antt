-- ===== src/Program.antt =====
-- cmd/app/main.go, with internal/logger, internal/version and `NewServer` of
-- internal/api/server.go: what the process does from its start to its end, as a list of events.
-- What it meets on the way, as an error of the operating system or a signal, is an argument.
pub mod Orderly
pub mod Listening
pub mod Success
pub mod Settings
use go_webapp_template.Base.{
  ℕ, Bool, true, false, ◌||◌, Option, none, some, List, [], ◌∷◌, ◌++◌, map, if◌then◌else◌,
}
use go_webapp_template.Base.Text.{Text, text, same}
use go_webapp_template.Base.Dict.{Dict, lookup}
use go_webapp_template.Base.Time.{Duration}
use go_webapp_template.Http.{or_empty}
use go_webapp_template.Auth.Providers.{ProviderError, Built, built, failed, new_provider}
use go_webapp_template.Auth.Principal.{Principal}
use go_webapp_template.Auth.Claims.{Claims}
use go_webapp_template.Auth.Verify.{JwtConfig}
use go_webapp_template.Config.{Config, Problem, Environment, Loaded, loaded, invalid, load}
use go_webapp_template.Config.Ready.{settings_of}
use go_webapp_template.Store.Migrate.{Driver}
use go_webapp_template.Store.Open.{Connector, OpenError, Opened, open_store}
use go_webapp_template.Api.Env.{Env, Handler}
use go_webapp_template.Api.Routes.{routes}

-- internal/version: the variables that the linker sets.
pub record BuildInfo : Type 0 where
  pub version : Text
  pub commit : Text
  pub build_time : Text

unfoldable pub info : BuildInfo → Dict Text
unfolding text
info b =
    (text "version", b.version) ∷ (text "commit", b.commit) ∷ (text "build_time", b.build_time) ∷ []

unfoldable pub is_version_flag : List Text → Bool
is_version_flag (program ∷ flag ∷ args) =
    same flag (text "-version") || same flag (text "--version")
is_version_flag _ = false

abbrev pub info_value : Text → Dict Text → Text
info_value key m = or_empty (lookup key m)

-- `fmt.Printf("%s %s (%s)\n", …)`
unfoldable pub version_line : Dict Text → Text
unfolding lookup
version_line m =
    info_value (text "version") m
    ++ (b' '
        ∷ (info_value (text "commit") m
            ++ (b' ' ∷ b'(' ∷ (info_value (text "build_time") m ++ (b')' ∷ b'\n' ∷ [])))))

-- internal/logger: `New`. A logger is its level; that it writes JSON to the standard error is left
-- out. `none` is the error of `slog.Level.UnmarshalText`.
abbrev pub new_logger : {L : Type 0} → (Text → Option L) → Text → Option L
new_logger unmarshal_text level = unmarshal_text level

-- internal/api/server.go
pub record ServerConfig : Type 0 where
  pub addr : Text
  pub read_header_timeout : Duration
  pub read_timeout : Duration
  pub write_timeout : Duration
  pub idle_timeout : Duration

pub record Server (e : Env) : Type 0 where
  pub addr : Text
  pub handler : Handler e
  pub read_header_timeout : Duration
  pub read_timeout : Duration
  pub write_timeout : Duration
  pub idle_timeout : Duration

unfoldable pub new_server : {e : Env} → ServerConfig → Handler e → Server e
new_server cfg handler = record {
  addr = cfg.addr;
  handler = handler;
  read_header_timeout = cfg.read_header_timeout;
  read_timeout = cfg.read_timeout;
  write_timeout = cfg.write_timeout;
  idle_timeout = cfg.idle_timeout;
}

abbrev pub server_config_of : Config → ServerConfig
server_config_of cfg = record {
  addr = cfg.http_addr;
  read_header_timeout = cfg.read_header_timeout;
  read_timeout = cfg.read_timeout;
  write_timeout = cfg.write_timeout;
  idle_timeout = cfg.idle_timeout;
}

-- What `ListenAndServe` returns, which is never nil, and how the wait in `run` comes to its end.
pub data ServeError : Type 0 where
  server_closed : ServeError
  serve_failed : (why : Text) → ServeError

pub data Ending : Type 0 where
  served : ServeError → Ending
  signalled : (signal : Text) (shutdown : Option Text) (late : ServeError) → Ending

pub data RunError : Type 0 where
  bad_config : List Problem → RunError
  bad_log_level : RunError
  bad_store : List OpenError → RunError
  bad_provider : ProviderError → RunError
  building_routes : RunError
  serving : (why : Text) → RunError
  graceful_shutdown : (why : Text) → RunError
  closing_store : RunError

-- `set_default` makes a logger of that level the default, `listen` is the start of the server over
-- the store, with the provider.
pub data Event (L : Type 0) (d : Driver) (e : Env) : Type 0 where
  set_default : L → Event L d e
  warn_local : Event L d e
  listen : Server e → d.Db → JwtConfig → (Claims → Principal) → Event L d e
  shut_down : (signal : Text) (timeout : Duration) → Event L d e
  close_handle : d.Db → Event L d e

pub record Run (L : Type 0) (d : Driver) (e : Env) : Type 0 where
  pub error : Option RunError
  pub events : List (Event L d e)

-- What the process meets: `parse_level` is `slog.Level.UnmarshalText`, `templates_parse` tells
-- whether `ui.Handler` parses the embedded templates.
pub record Surroundings (L : Type 0) (d : Driver) : Type 0 where
  pub parse_duration : Text → Option Duration
  pub port_of : Text → Option Text
  pub parse_level : Text → Option L
  pub connector : Connector d
  pub files : List (Text × Text)
  pub templates_parse : Bool
  pub ending : Ending

module _ {L : Type 0} {d : Driver} (e : Env) (w : Surroundings L d) where
  abbrev pub stop : RunError → Run L d e
  stop why = record { error = some why; events = [] }

  abbrev pub after : Event L d e → Run L d e → Run L d e
  after event r = record r { events = event ∷ r.events }

  -- What the goroutine sends: `http.ErrServerClosed` is no error.
  abbrev pub sent : ServeError → Option RunError
  sent server_closed = none
  sent (serve_failed why) = some (serving why)

  -- The `select`.
  unfoldable pub wait : Config → Ending → Run L d e
  wait cfg (served result) = record { error = sent result; events = [] }
  wait cfg (signalled signal none late) = record {
    error = sent late;
    events = shut_down signal cfg.shutdown_timeout ∷ [];
  }
  wait cfg (signalled signal (some why) late) = record {
    error = some (graceful_shutdown why);
    events = shut_down signal cfg.shutdown_timeout ∷ [];
  }

  -- `api.Routes`, which fails if a template does not parse.
  abbrev pub build_routes : Config → Option (Handler e)
  build_routes cfg = if w.templates_parse then some (routes cfg.disable_hsts) else none

  abbrev pub with_routes :
      Config → d.Db → JwtConfig → (Claims → Principal) → Option (Handler e) → Run L d e
  with_routes cfg db jwt map_fn none = stop building_routes
  with_routes cfg db jwt map_fn (some handler) =
      after (listen (new_server (server_config_of cfg) handler) db jwt map_fn) (wait cfg w.ending)

  abbrev pub with_provider : Config → d.Db → Built → Run L d e
  with_provider cfg db (failed why) = stop (bad_provider why)
  with_provider cfg db (built jwt map_fn) =
      let rest = with_routes cfg db jwt map_fn (build_routes cfg) in
      if same cfg.auth.provider (text "local") then after warn_local rest else rest

  -- The deferred function.
  abbrev pub with_close_error : d.Db → Option RunError → Option RunError
  with_close_error db (some why) = some why
  with_close_error db none = if w.connector.close db then none else some closing_store

  unfoldable pub close_after : d.Db → Run L d e → Run L d e
  close_after db r = record {
    error = with_close_error db r.error;
    events = r.events ++ close_handle db ∷ [];
  }

  abbrev pub with_store : Config → Opened d → Option d.Db → Run L d e
  with_store cfg opened none = record {
    error = some (bad_store opened.errors);
    events = map (λ db. close_handle db) opened.closed;
  }
  with_store cfg opened (some db) =
      close_after db (with_provider cfg db (new_provider cfg.auth.provider (settings_of cfg.auth)))

  -- Behind `logger.New`.
  abbrev pub with_logger : Config → Option L → Run L d e
  with_logger cfg none = stop bad_log_level
  with_logger cfg (some level) =
      let opened = open_store w.connector w.files cfg.database_path in
      after (set_default level) (with_store cfg opened opened.store)

  abbrev pub with_config : Loaded → Run L d e
  with_config (invalid problems) = stop (bad_config problems)
  with_config (loaded cfg) = with_logger cfg (new_logger w.parse_level cfg.log_level)

  unfoldable pub run : Environment → Run L d e
  unfolding new_server wait close_after text
  run env = with_config (load w.parse_duration w.port_of env)

  -- What `main` comes to: a line printed, or a run and the exit status.
  pub data Process : Type 0 where
    printed : Text → Process
    exited : ℕ → Run L d e → Process

  abbrev pub exit : Option RunError → Run L d e → Process
  exit none r = exited 0 r
  exit (some why) r = exited 1 r

  unfoldable pub main : BuildInfo → List Text → Environment → Process
  unfolding is_version_flag version_line info run
  main b args env =
      let r = run env in
      if is_version_flag args then printed (version_line (info b)) else exit r.error r
