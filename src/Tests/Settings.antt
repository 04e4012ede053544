-- ===== src/Tests/Settings.antt =====
-- Runs of internal/config/config.go.
use go_webapp_template.Base.{◌≡◌, ◌≢◌, refl, false, Option, none, some, [], ◌∷◌, if◌then◌else◌}
use go_webapp_template.Base.Text.{Text, text, same, has_prefix}
use go_webapp_template.Base.Time.{Duration}
use go_webapp_template.Auth.Providers.{contains_dots, new_provider}
use go_webapp_template.Auth.Providers.Pinned.{AllPinned, new_provider-AllPinned}
use go_webapp_template.Config.{
  Config, Environment, loaded, load, read_config, read_auth, env_string, env_bool, env_duration,
  duration_problems, validate_http_addr, validate_database_path, auth_problems,
}
use go_webapp_template.Config.Ready.{settings_of, lacks_settings, load_ready}

-- Every address has a port, and no duration is set.
abbrev pub parse_duration : Text → Option Duration
parse_duration s = none

abbrev pub port_of : Text → Option Text
port_of s = some (b'8' ∷ [])

-- A local provider with its three settings.
unfoldable pub env : Environment
unfolding same text
env name =
    if same name (text "APP_AUTH_PROVIDER")
    then text "local"
    else if same name (text "APP_AUTH_LOCAL_ISSUER")
    then text "issuer"
    else if same name (text "APP_AUTH_LOCAL_AUDIENCE")
    then text "audience"
    else if same name (text "APP_AUTH_LOCAL_JWKS_URL")
    then text "http://localhost/jwks"
    else []

abbrev cfg : Config
cfg = read_config parse_duration port_of env

load_run : load parse_duration port_of env ≡ loaded cfg
unfolding load read_config read_auth env_string env_bool env_duration duration_problems
    validate_http_addr validate_database_path auth_problems contains_dots has_prefix env same text
load_run = refl

load_ready_example :
    (cfg.database_path ≢ [])
    × (contains_dots cfg.database_path ≡ false)
    × (lacks_settings (new_provider cfg.auth.provider (settings_of cfg.auth)) ≡ false)
load_ready_example = load_ready parse_duration port_of env cfg load_run

new_provider-AllPinned_example : AllPinned (new_provider cfg.auth.provider (settings_of cfg.auth))
new_provider-AllPinned_example = new_provider-AllPinned cfg.auth.provider (settings_of cfg.auth)
