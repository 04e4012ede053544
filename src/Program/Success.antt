-- ===== src/Program/Success.antt =====
-- The runs of cmd/app/main.go that end without an error.
use go_webapp_template.Base.{
  ℕ, suc, ◌+◌, ◌≡◌, refl, ap, ◌∙◌, Bool, true, false, Option, none, some, List, [], ◌∷◌, ◌++◌,
  Bool-cases, inl, inr, ◌⊎◌, if◌then◌else◌, arith,
}
use go_webapp_template.Base.Text.{Text, text, same, same_iff}
use go_webapp_template.Auth.Principal.{Principal}
use go_webapp_template.Auth.Claims.{Claims}
use go_webapp_template.Auth.Verify.{JwtConfig}
use go_webapp_template.Auth.Providers.{Built, built, failed, new_provider}
use go_webapp_template.Config.{Config, Environment, Loaded, loaded, invalid, load}
use go_webapp_template.Config.Ready.{settings_of}
use go_webapp_template.Store.Migrate.{Driver}
use go_webapp_template.Store.Open.{Opened, open_store}
use go_webapp_template.Api.Env.{Env, Handler}
use go_webapp_template.Program.{
  ServeError, server_closed, serve_failed, Ending, served, signalled, RunError, Event, set_default,
  warn_local, listen, shut_down, close_handle, Run, Surroundings, after, sent, wait, build_routes,
  with_routes, with_provider, with_close_error, close_after, with_store, with_logger, with_config,
  run, Process, printed, exited, exit, is_version_flag, BuildInfo, main, info, version_line,
}

module _ {L : Type 0} {d : Driver} (e : Env) (w : Surroundings L d) where
  -- An ending that is no error: `ListenAndServe` ended by `Shutdown` or `Close`, and a shutdown
  -- within its time.
  abbrev pub EndsWell : Ending → Type 0
  EndsWell (served result) = result ≡ server_closed
  EndsWell (signalled signal shutdown late) = (shutdown ≡ none) × (late ≡ server_closed)

  -- How often the events start a server.
  abbrev pub starts : List (Event L d e) → ℕ
  starts [] = 0
  starts (set_default level ∷ events) = starts events
  starts (warn_local ∷ events) = starts events
  starts (listen server db jwt map_fn ∷ events) = suc (starts events)
  starts (shut_down signal timeout ∷ events) = starts events
  starts (close_handle db ∷ events) = starts events

  starts-append : (xs ys : List (Event L d e)) → starts (xs ++ ys) ≡ starts xs + starts ys
  starts-append [] ys = omega arith
  starts-append (set_default level ∷ xs) ys = starts-append xs ys
  starts-append (warn_local ∷ xs) ys = starts-append xs ys
  starts-append (listen server db jwt map_fn ∷ xs) ys = omega (arith, starts-append xs ys)
  starts-append (shut_down signal timeout ∷ xs) ys = starts-append xs ys
  starts-append (close_handle db ∷ xs) ys = starts-append xs ys

  -- A run without an error has served, once, and ended well.
  abbrev pub Served : Run L d e → Type 0
  Served r = r.error ≡ none → (starts r.events ≡ 1) × EndsWell w.ending

  sent-none : (result : ServeError) → sent e w result ≡ none → result ≡ server_closed
  sent-none server_closed h = refl
  sent-none (serve_failed why) h = cc

  wait-EndsWell :
      (cfg : Config) (ending : Ending)
      → (wait e w cfg ending).error ≡ none
      → (starts (wait e w cfg ending).events ≡ 0) × EndsWell ending
  unfolding wait
  wait-EndsWell cfg (served result) h = (refl, sent-none result h)
  wait-EndsWell cfg (signalled signal none late) h = (refl, (refl, sent-none late h))
  wait-EndsWell cfg (signalled signal (some why) late) h = cc

  with_routes-Served :
      (cfg : Config) (db : d.Db) (jwt : JwtConfig) (map_fn : Claims → Principal)
      (o : Option (Handler e))
      → Served (with_routes e w cfg db jwt map_fn o)
  with_routes-Served cfg db jwt map_fn none h = cc
  with_routes-Served cfg db jwt map_fn (some handler) h =
      let (quiet, well) = wait-EndsWell cfg w.ending h in (ap suc quiet, well)

  warn_local-Served :
      (local : Bool) (r : Run L d e)
      → Served r
      → Served (if local then after e w warn_local r else r)
  warn_local-Served true r h = h
  warn_local-Served false r h = h

  with_provider-Served :
      (cfg : Config) (db : d.Db) (p : Built) → Served (with_provider e w cfg db p)
  with_provider-Served cfg db (failed why) = λ h. cc
  with_provider-Served cfg db (built jwt map_fn) =
      warn_local-Served (same cfg.auth.provider (text "local")) _
        (with_routes-Served cfg db jwt map_fn (build_routes e w cfg))

  with_close_error-none :
      (db : d.Db) (o : Option RunError) → with_close_error e w db o ≡ none → o ≡ none
  with_close_error-none db none h = refl
  with_close_error-none db (some why) h = cc

  close_after-Served : (db : d.Db) (r : Run L d e) → Served r → Served (close_after e w db r)
  unfolding close_after
  close_after-Served db r served_once h =
      let (once, well) = served_once (with_close_error-none db r.error h) in
      (starts-append r.events (close_handle db ∷ []) ∙ rw once refl, well)

  with_store-Served :
      (cfg : Config) (opened : Opened d) (store : Option d.Db)
      → Served (with_store e w cfg opened store)
  with_store-Served cfg opened none = λ h. cc
  with_store-Served cfg opened (some db) =
      close_after-Served db _
        (with_provider-Served cfg db (new_provider cfg.auth.provider (settings_of cfg.auth)))

  with_logger-Served : (cfg : Config) (o : Option L) → Served (with_logger e w cfg o)
  with_logger-Served cfg none = λ h. cc
  with_logger-Served cfg (some level) =
      let opened = open_store w.connector w.files cfg.database_path in
      with_store-Served cfg opened opened.store

  with_config-Served : (l : Loaded) → Served (with_config e w l)
  with_config-Served (invalid problems) = λ h. cc
  with_config-Served (loaded cfg) = with_logger-Served cfg (w.parse_level cfg.log_level)

  -- If `run` returns no error, it has started one server, which ended because it was closed; on a
  -- signal, the shutdown kept within its time.
  pub run-Served : (env : Environment) → Served (run e w env)
  unfolding run
  run-Served env = with_config-Served (load w.parse_duration w.port_of env)

  abbrev pub exit_status : Process e w → Option ℕ
  exit_status (printed line) = some 0
  exit_status (exited status r) = some status

  exit-Served :
      (r : Run L d e) (o : Option RunError)
      → r.error ≡ o
      → Served r
      → exit_status (exit e w o r) ≡ some 0
      → (exit e w o r ≡ exited 0 r) × (starts r.events ≡ 1) × EndsWell w.ending
  exit-Served r none is h status = let (once, well) = h is in (refl, once, well)
  exit-Served r (some why) is h status = cc

  -- The first argument asks for the version.
  abbrev pub AsksVersion : List Text → Type 0
  AsksVersion args =
      (program : Text) × (flag : Text) × (rest : List Text) × (args ≡ program ∷ flag ∷ rest)
      × ((flag ≡ text "-version") ⊎ (flag ≡ text "--version"))

  is_version_flag-AsksVersion : (args : List Text) → is_version_flag args ≡ true → AsksVersion args
  unfolding is_version_flag
  is_version_flag-AsksVersion [] h = cc
  is_version_flag-AsksVersion (program ∷ []) h = cc
  is_version_flag-AsksVersion (program ∷ flag ∷ rest) h =
      let named : (flag ≡ text "-version") ⊎ (flag ≡ text "--version") =
        ground (arith, same_iff flag (text "-version"), same_iff flag (text "--version")) in
      (program, flag, rest, refl, named)

  -- The process exits with status 0 only if its first argument asks for the version, and then it
  -- prints the line with the version and starts no server; or after a run that has started one
  -- server, which ended because it was closed; on a signal, the shutdown kept within its time.
  pub main-Served :
      (b : BuildInfo) (args : List Text) (env : Environment)
      → exit_status (main e w b args env) ≡ some 0
      → (AsksVersion args × (main e w b args env ≡ printed (version_line (info b))))
        ⊎ ((r : Run L d e) × (main e w b args env ≡ exited 0 r)
            × (starts r.events ≡ 1)
            × EndsWell w.ending)
  unfolding main
  main-Served b args env h = elim (Bool-cases (is_version_flag args)) [
    | inl version ↦ rw version (inl (is_version_flag-AsksVersion args version, refl))
    | inr normal ↦
        let (ended, once, well) =
          exit-Served (run e w env) _ refl (run-Served env) (rw normal at h) in
        rw normal (inr (run e w env, ended, once, well))
  ]
