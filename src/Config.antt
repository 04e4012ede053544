-- ===== src/Config.antt =====
-- internal/config/config.go, and the settings that cmd/app/main.go makes of the configuration.
-- The environment is a function: `os.Getenv` reads "" for a variable that is not set.
pub mod Ready
use go_webapp_template.Base.{
  ℕ, ◌*◌, Bool, false, not, ◌&&◌, ◌||◌, Option, none, some, List, [], ◌∷◌, ◌++◌, leb, map, ◌+◌,
  if◌then◌else◌,
}
use go_webapp_template.Base.Text.{Text, text, same, is_empty}
use go_webapp_template.Base.Time.{pos, Duration, second}
use go_webapp_template.Auth.Providers.{contains_dots}

pub record LocalConfig : Type 0 where
  pub issuer : Text
  pub audience : Text
  pub jwks_url : Text
  pub header : Text
  pub algorithm : Text

pub record CloudflareConfig : Type 0 where
  pub team_domain : Text
  pub audience : Text

pub record PomeriumConfig : Type 0 where
  pub jwks_url : Text
  pub issuer : Text
  pub audience : Text
  pub header : Text
  pub algorithm : Text
  pub role_prefix : Text

pub record AuthConfig : Type 0 where
  pub provider : Text
  pub cloudflare : CloudflareConfig
  pub local : LocalConfig
  pub pomerium : PomeriumConfig

pub record Config : Type 0 where
  pub http_addr : Text
  pub read_header_timeout : Duration
  pub read_timeout : Duration
  pub write_timeout : Duration
  pub idle_timeout : Duration
  pub shutdown_timeout : Duration
  pub disable_hsts : Bool
  pub auth : AuthConfig
  pub database_path : Text
  pub log_level : Text

-- The problems that the error lists.
pub data Problem : Type 0 where
  invalid_duration : (key : Text) → Problem
  empty_addr invalid_addr missing_port empty_path path_with_dots : Problem
  required : (key : Text) → Problem

abbrev pub Environment : Type 0
Environment = Text → Text

unfoldable pub env_string : Environment → Text → Text → Text
env_string env key fallback = let v = env key in if not (is_empty v) then v else fallback

-- `strings.ToLower` on ASCII.
abbrev pub to_lower : Text → Text
to_lower = map (λ c. if leb b'A' c && leb c b'Z' then c + 32 else c)

unfoldable pub env_bool : Environment → Text → Bool
env_bool env key =
    let v = to_lower (env key) in
    if is_empty (env key)
    then false
    else same v (text "1") || same v (text "true") || same v (text "yes")

-- `if err != nil { problems = append(problems, …) }`
abbrev pub when : Bool → Problem → List Problem
when b p = if b then p ∷ [] else []

unfoldable pub validate_database_path : Text → List Problem
unfolding contains_dots
validate_database_path path =
    if is_empty path then empty_path ∷ [] else when (contains_dots path) path_with_dots

abbrev pub seconds : ℕ → Duration
seconds n = pos (n * second)

unfoldable pub read_auth : Environment → AuthConfig
unfolding env_string
read_auth env = record {
  provider = env_string env (text "APP_AUTH_PROVIDER") (text "cloudflare-access");
  cloudflare = record {
    team_domain = env (text "APP_AUTH_CLOUDFLARE_TEAM_DOMAIN");
    audience = env (text "APP_AUTH_CLOUDFLARE_AUDIENCE");
  };
  local = record {
    issuer = env (text "APP_AUTH_LOCAL_ISSUER");
    audience = env (text "APP_AUTH_LOCAL_AUDIENCE");
    jwks_url = env (text "APP_AUTH_LOCAL_JWKS_URL");
    header = env_string env (text "APP_AUTH_LOCAL_HEADER") (text "Cf-Access-Jwt-Assertion");
    algorithm = env_string env (text "APP_AUTH_LOCAL_ALGORITHM") (text "RS256");
  };
  pomerium = record {
    jwks_url = env (text "APP_AUTH_POMERIUM_JWKS_URL");
    issuer = env (text "APP_AUTH_POMERIUM_ISSUER");
    audience = env (text "APP_AUTH_POMERIUM_AUDIENCE");
    header = env_string env (text "APP_AUTH_POMERIUM_HEADER") (text "X-Pomerium-Jwt-Assertion");
    algorithm = env_string env (text "APP_AUTH_POMERIUM_ALGORITHM") (text "ES256");
    role_prefix = env (text "APP_AUTH_POMERIUM_ROLE_PREFIX");
  };
}

abbrev pub require : Text → Text → List Problem
require key value = when (is_empty value) (required key)

-- The required settings of each provider.
abbrev pub cloudflare_problems : CloudflareConfig → List Problem
cloudflare_problems c =
    require (text "APP_AUTH_CLOUDFLARE_TEAM_DOMAIN") c.team_domain
    ++ require (text "APP_AUTH_CLOUDFLARE_AUDIENCE") c.audience

abbrev pub local_problems : LocalConfig → List Problem
local_problems c =
    require (text "APP_AUTH_LOCAL_ISSUER") c.issuer
    ++ (require (text "APP_AUTH_LOCAL_AUDIENCE") c.audience
        ++ require (text "APP_AUTH_LOCAL_JWKS_URL") c.jwks_url)

abbrev pub pomerium_problems : PomeriumConfig → List Problem
pomerium_problems c =
    require (text "APP_AUTH_POMERIUM_JWKS_URL") c.jwks_url
    ++ (require (text "APP_AUTH_POMERIUM_ISSUER") c.issuer
        ++ require (text "APP_AUTH_POMERIUM_AUDIENCE") c.audience)

abbrev pub chosen : Bool → List Problem → List Problem
chosen b problems = if b then problems else []

unfoldable pub auth_problems : AuthConfig → List Problem
auth_problems a =
    chosen (same a.provider (text "cloudflare-access")) (cloudflare_problems a.cloudflare)
    ++ (chosen (same a.provider (text "local")) (local_problems a.local)
        ++ chosen (same a.provider (text "pomerium")) (pomerium_problems a.pomerium))

pub data Loaded : Type 0 where
  loaded : Config → Loaded
  invalid : List Problem → Loaded

-- `if len(problems) > 0`
abbrev pub accept : Config → List Problem → Loaded
accept cfg [] = loaded cfg
accept cfg (p ∷ ps) = invalid (p ∷ ps)

-- `time.ParseDuration` and the port of `net.SplitHostPort`.
module _ (parse_duration : Text → Option Duration) (port_of : Text → Option Text) where
  abbrev pub duration_or : Text → Option Duration → Duration × List Problem
  duration_or key none = (pos 0, invalid_duration key ∷ [])
  duration_or key (some d) = (d, [])

  unfoldable pub env_duration : Environment → Text → Duration → Duration × List Problem
  env_duration env key fallback =
      let v = env key in if is_empty v then (fallback, []) else duration_or key (parse_duration v)

  abbrev pub check_port : Option Text → List Problem
  check_port none = invalid_addr ∷ []
  check_port (some port) = when (is_empty port) missing_port

  abbrev pub or_else : Option Text → Option Text → Option Text
  or_else none o = o
  or_else (some p) o = some p

  unfoldable pub validate_http_addr : Text → List Problem
  validate_http_addr addr =
      if is_empty addr
      then empty_addr ∷ []
      else check_port (or_else (port_of addr) (port_of (text "0.0.0.0" ++ addr)))

  -- The settings before their checks: `Load` without its list of problems.
  unfoldable pub read_config : Environment → Config
  unfolding env_string env_bool env_duration
  read_config env = record {
    http_addr = env_string env (text "APP_HTTP_ADDR") (text ":8080");
    read_header_timeout = (env_duration env (text "APP_HTTP_READ_HEADER_TIMEOUT") (seconds 5)).0;
    read_timeout = (env_duration env (text "APP_HTTP_READ_TIMEOUT") (seconds 10)).0;
    write_timeout = (env_duration env (text "APP_HTTP_WRITE_TIMEOUT") (seconds 30)).0;
    idle_timeout = (env_duration env (text "APP_HTTP_IDLE_TIMEOUT") (seconds 60)).0;
    shutdown_timeout = (env_duration env (text "APP_HTTP_SHUTDOWN_TIMEOUT") (seconds 15)).0;
    disable_hsts = env_bool env (text "APP_HTTP_DISABLE_HSTS");
    auth = read_auth env;
    database_path = env_string env (text "APP_DATABASE_PATH") (text "app.db");
    log_level = env_string env (text "APP_LOG_LEVEL") (text "info");
  }

  -- The durations that do not parse, in the order of `Load`.
  unfoldable pub duration_problems : Environment → List Problem
  unfolding env_duration
  duration_problems env =
      (env_duration env (text "APP_HTTP_READ_HEADER_TIMEOUT") (seconds 5)).1
      ++ ((env_duration env (text "APP_HTTP_READ_TIMEOUT") (seconds 10)).1
          ++ ((env_duration env (text "APP_HTTP_WRITE_TIMEOUT") (seconds 30)).1
              ++ ((env_duration env (text "APP_HTTP_IDLE_TIMEOUT") (seconds 60)).1
                  ++ (env_duration env (text "APP_HTTP_SHUTDOWN_TIMEOUT") (seconds 15)).1)))

  unfoldable pub load : Environment → Loaded
  unfolding read_config duration_problems validate_http_addr validate_database_path auth_problems
  load env =
      let cfg = read_config env in
      accept cfg (
        duration_problems env
        ++ (validate_http_addr cfg.http_addr
            ++ (validate_database_path cfg.database_path ++ auth_problems cfg.auth)))
