-- ===== src/Api/Handlers.antt =====
-- internal/api/handlers.go.
use go_webapp_template.Base.{Bool, false, not, Option, none, some, [], if◌then◌else◌}
use go_webapp_template.Base.Text.{Text, text, same}
use go_webapp_template.Http.{
  Request, header_get, or_empty, request_id_from_context, status_json, principal_json, version_json,
  entries_json, entry_json, write_json, write_problem,
}
use go_webapp_template.Store.Key.{valid_config_key}
use go_webapp_template.Api.Env.{
  Env, ok, err, Decoded, decoded, too_large, malformed, Handler, failed, config_changed,
}
use go_webapp_template.Api.Middleware.{answer_json, log_line, refuse, subject_of}

abbrev pub is_media_type : Text → Option Text → Bool
is_media_type wanted none = false
is_media_type wanted (some t) = same t wanted

-- The test of `putConfig` on the Content-Type header.
abbrev pub is_json : Env → Request → Bool
is_json e r =
    is_media_type (text "application/json")
      (e.parse_media_type (header_get r (text "Content-Type")))

module _ {e : Env} where
  -- `slog.Error(message, "error", err, "request_id", …)`
  abbrev pub log_error : Text → Text → Handler e
  log_error message why io =
      log_line (failed message why (request_id_from_context io.request.context)) io

  abbrev pub set_db : e.Db → Handler e
  set_db db io = record io { world = record (io.world) { db = db } }

  unfoldable pub healthz : Handler e
  unfolding write_json
  healthz = answer_json 200 status_json

  unfoldable pub readyz : Handler e
  unfolding write_json write_problem
  readyz io = elim (e.ping io.world.db) [
    | none ↦ answer_json 200 status_json io
    | some why ↦ refuse 503 [] (log_error (text "readiness check failed") why io)
  ]

  unfoldable pub me : Handler e
  unfolding write_json write_problem
  me io = elim io.request.context.principal [
    | none ↦ refuse 401 [] io
    | some p ↦ answer_json 200 (principal_json p) io
  ]

  unfoldable pub version_handler : Handler e
  unfolding write_json
  version_handler = answer_json 200 version_json

  unfoldable pub list_config : Handler e
  unfolding write_json write_problem
  list_config io = elim (e.list_config io.world.db) [
    | ok entries ↦ answer_json 200 (entries_json entries) io
    | err why ↦ refuse 500 [] (log_error (text "listing config") why io)
  ]

  abbrev pub log_config_changed : Text → Handler e
  log_config_changed key io =
      log_line
        (config_changed (or_empty (subject_of io.request.context.principal)) key
          (request_id_from_context io.request.context))
        io

  -- The part of `putConfig` after the body is read; `key` is `r.PathValue("key")`.
  unfoldable pub store_value : Text → Text → Handler e
  unfolding write_json write_problem
  store_value key value io = elim (e.set_config io.world.db key value) [
    | ok db ↦
        answer_json 200 (entry_json (record { key = key; value = value }))
          (log_config_changed key (set_db db io))
    | err why ↦ refuse 500 [] (log_error (text "setting config") why io)
  ]

  -- The part from the decoding of the body on.
  unfoldable pub store_decoded : Text → Decoded → Handler e
  unfolding store_value write_problem
  store_decoded key (decoded value) io = store_value key value io
  store_decoded key (too_large why) io =
      refuse 413 (text "request body too large") (log_error (text "setting config") why io)
  store_decoded key (malformed why) io =
      refuse 400 (text "invalid request body") (log_error (text "setting config") why io)

  unfoldable pub put_config : Text → Handler e
  unfolding store_decoded write_problem
  put_config key io =
      if not (valid_config_key key)
      then refuse 400 (text "invalid key") io
      else if not (is_json e io.request)
      then refuse 415 [] io
      else store_decoded key (e.decode_body io.request.limit io.request.body) io
