-- ===== src/Api/Ui.antt =====
-- internal/ui/ui.go. `template.ExecuteTemplate` is the body that it writes, up to its error if it
-- has one, and that error.
use go_webapp_template.Base.{Bool, not, Option, none, some, List, [], ◌∷◌, if◌then◌else◌}
use go_webapp_template.Base.Text.{Text, text, same}
use go_webapp_template.Auth.Principal.{Principal, has_role}
use go_webapp_template.Http.{
  Request, header_get, ConfigEntry, PageData, template, set_header, write_body, write_problem,
}
use go_webapp_template.Store.Key.{valid_config_key}
use go_webapp_template.Api.Env.{Env, Result, ok, err, Io, Handler}
use go_webapp_template.Api.Middleware.{answer, refuse}
use go_webapp_template.Api.Handlers.{log_error, set_db, log_config_changed}

-- The loop of `LoadPageData` over the variable `siteName`.
unfoldable pub site_name_from : Text → List ConfigEntry → Text
site_name_from site_name [] = site_name
site_name_from site_name (entry ∷ entries) =
    site_name_from (if same entry.key (text "site_name") then entry.value else site_name) entries

abbrev pub page_data : Principal → List ConfigEntry → PageData
page_data p entries = record {
  site_name = site_name_from (text "Web App") entries;
  principal = p;
  entries = entries;
  is_admin = has_role p (text "admin");
}

abbrev pub is_fragment : Request → Bool
is_fragment r = same (header_get r (text "HX-Request")) (text "true")

-- `LoadPageData`; the handlers reach the store through it and `SetConfig` of the same model.
abbrev pub load_page_data : (e : Env) → e.Db → Principal → Result PageData
load_page_data e db p = elim (e.list_config db) [
  | ok entries ↦ ok (page_data p entries)
  | err why ↦ err why
]

module _ {e : Env} where
  -- `handler.data`
  abbrev pub data_of : Io e → Result PageData
  data_of io = elim io.request.context.principal [
    | none ↦ err (text "missing principal in request context")
    | some p ↦ load_page_data e io.world.db p
  ]

  abbrev pub log_template : Option Text → Handler e
  log_template none io = io
  log_template (some why) io = log_error (text "rendering template") why io

  unfoldable pub render : Text → Handler e
  unfolding set_header write_body write_problem
  render full_page io = elim (data_of io) [
    | err why ↦ refuse 500 [] (log_error (text "loading page data") why io)
    | ok d ↦
        let name = if not (is_fragment io.request) then full_page else text "config-section" in
        log_template (e.template_error name d) (
          answer
            (λ w.
              write_body (template name d)
                (set_header (text "Content-Type") (text "text/html; charset=utf-8") w))
            io)
  ]

  unfoldable pub home : Handler e
  home = render (text "home")

  unfoldable pub store_form_value : Text → Text → Handler e
  unfolding render write_problem
  store_form_value key value io = elim (e.set_config io.world.db key value) [
    | ok db ↦ render (text "home") (log_config_changed key (set_db db io))
    | err why ↦ refuse 500 [] (log_error (text "setting config") why io)
  ]

  -- `putConfig` after the call of `ParseForm`, whose error is the argument.
  unfoldable pub store_form : Text → Option Text → Handler e
  unfolding store_form_value write_problem
  store_form key (some why) io = refuse 400 (text "invalid form body") io
  store_form key none io =
      if not (valid_config_key key)
      then refuse 400 (text "invalid key") io
      else store_form_value key (e.post_form_value io.request (text "value")) io

  unfoldable pub ui_put_config : Text → Handler e
  unfolding store_form
  ui_put_config key io = store_form key (e.parse_form io.request) io

  -- `StaticHandler`: the content type is set by extension before the file server runs.
  unfoldable pub static_handler : Handler e
  unfolding set_header
  static_handler io =
      let ext = e.path_ext io.request.path in
      answer
        (λ w. e.serve_file io.request.path (
          if same ext (text ".js")
          then set_header (text "Content-Type") (text "text/javascript; charset=utf-8") w
          else if same ext (text ".css")
          then set_header (text "Content-Type") (text "text/css; charset=utf-8") w
          else w))
        io
