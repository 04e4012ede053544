-- ===== src/Config/Ready.antt =====
-- What `Load` of internal/config/config.go promises to the program that starts with its result.
use go_webapp_template.Base.{
  ◌≡◌, ◌≢◌, refl, Bool, true, false, Option, List, [], ◌∷◌, ◌++◌, Bool-cases, inl, inr, arith,
}
use go_webapp_template.Base.Text.{Text, text, same, is_empty}
use go_webapp_template.Base.Time.{Duration}
use go_webapp_template.Auth.Jwk.Strength.{non_empty}
use go_webapp_template.Auth.Providers.{
  Settings, ProviderError, jwt_settings_required, unsupported_algorithm, local_settings_required,
  local_jwks_required, pomerium_settings_required, cloudflare_settings_required,
  invalid_team_domain, unknown_provider, Built, built, failed, contains_dots, new_provider,
  provider_named, new_provider-provider_named, new_jwt_provider, new_local_jwt_provider,
  new_pomerium_provider, new_cloudflare, cloudflare_issuer, or_default,
}
use go_webapp_template.Config.{
  Config, AuthConfig, Problem, Environment, when, require, loaded, accept, load, read_config,
  validate_database_path, auth_problems, chosen, cloudflare_problems, local_problems,
  pomerium_problems,
}

-- The settings that main.go hands to `auth.NewProvider`.
abbrev pub settings_of : AuthConfig → Settings
settings_of a = record {
  team_domain = a.cloudflare.team_domain;
  audience = a.cloudflare.audience;
  local_issuer = a.local.issuer;
  local_audience = a.local.audience;
  jwks_url = a.local.jwks_url;
  local_header = a.local.header;
  local_algorithm = a.local.algorithm;
  pomerium_jwks_url = a.pomerium.jwks_url;
  pomerium_issuer = a.pomerium.issuer;
  pomerium_audience = a.pomerium.audience;
  pomerium_header = a.pomerium.header;
  pomerium_algorithm = a.pomerium.algorithm;
  pomerium_role_prefix = a.pomerium.role_prefix;
}

-- The errors of a provider that say that a setting is missing.
abbrev pub is_missing : ProviderError → Bool
is_missing unsupported_algorithm = false
is_missing invalid_team_domain = false
is_missing unknown_provider = false
is_missing jwt_settings_required = true
is_missing local_settings_required = true
is_missing local_jwks_required = true
is_missing pomerium_settings_required = true
is_missing cloudflare_settings_required = true

abbrev pub lacks_settings : Built → Bool
lacks_settings (built cfg map_fn) = false
lacks_settings (failed why) = is_missing why

none_left : (xs ys : List Problem) → xs ++ ys ≡ [] → (xs ≡ []) × (ys ≡ [])
none_left [] ys h = (refl, h)
none_left (x ∷ xs) ys h = cc

when_clear : (b : Bool) (p : Problem) → when b p ≡ [] → b ≡ false
when_clear b p h = ground arith

require_clear : (key value : Text) → require key value ≡ [] → is_empty value ≡ false
require_clear key value h = when_clear (is_empty value) _ h

accept_loaded :
    (c cfg : Config) (ps : List Problem) → accept c ps ≡ loaded cfg → (ps ≡ []) × (c ≡ cfg)
accept_loaded c cfg [] h = (refl, cc)
accept_loaded c cfg (p ∷ ps) h = cc

or_default_named : (value : Text) (c : _) (s : Text) → is_empty (or_default value (c ∷ s)) ≡ false
or_default_named value c s = ground arith

path_clear :
    (path : Text) → validate_database_path path ≡ [] → (path ≢ []) × (contains_dots path ≡ false)
unfolding validate_database_path
path_clear path h = elim (Bool-cases (is_empty path)) [
  | inl empty ↦ cc (rw empty at h)
  | inr named ↦ (non_empty path named, when_clear (contains_dots path) _ (rw named at h))
]

local_ready :
    (s : Settings)
    → is_empty s.local_issuer ≡ false
    → is_empty s.local_audience ≡ false
    → is_empty s.jwks_url ≡ false
    → lacks_settings (new_local_jwt_provider s) ≡ false
unfolding new_local_jwt_provider new_jwt_provider text
local_ready s i a u =
    let h : is_empty (or_default s.local_header (text "Cf-Access-Jwt-Assertion")) ≡ false =
      or_default_named s.local_header _ _ in
    rw (i, a, u) (rw h (ground arith))

pomerium_ready :
    (s : Settings)
    → is_empty s.pomerium_jwks_url ≡ false
    → is_empty s.pomerium_issuer ≡ false
    → is_empty s.pomerium_audience ≡ false
    → lacks_settings (new_pomerium_provider s) ≡ false
unfolding new_pomerium_provider new_jwt_provider text
pomerium_ready s u i a =
    let h : is_empty (or_default s.pomerium_header (text "X-Pomerium-Jwt-Assertion")) ≡ false =
      or_default_named s.pomerium_header _ _ in
    rw (u, i, a) (rw h (ground arith))

cloudflare_ready :
    (domain audience : Text) (map_roles : Option (Text → Text))
    → is_empty domain ≡ false
    → is_empty audience ≡ false
    → lacks_settings (new_cloudflare domain audience map_roles) ≡ false
unfolding new_cloudflare new_jwt_provider cloudflare_issuer text same
cloudflare_ready domain audience map_roles d a = rw (d, a) (ground arith)

-- The part of the problems that the provider named has to clear.
chosen_clear :
    (b : Bool) (problems : List Problem) → chosen b problems ≡ [] → b ≡ true → problems ≡ []
chosen_clear b problems h e = rw e at h

auth_named :
    (a : AuthConfig)
    → auth_problems a ≡ []
    → lacks_settings (provider_named a.provider (settings_of a)) ≡ false
unfolding auth_problems
auth_named a h =
    let (cf, rest) = none_left (chosen _ (cloudflare_problems a.cloudflare)) _ h in
    let (lo, po) = none_left (chosen _ (local_problems a.local)) _ rest in
    let s = settings_of a in
    elim (Bool-cases (same a.provider (text "cloudflare-access"))) [
      | inl named ↦
          let (d, au) =
            none_left (require _ s.team_domain) (require _ s.audience)
              (chosen_clear _ (cloudflare_problems a.cloudflare) cf named) in
          rw named (
            cloudflare_ready s.team_domain s.audience _ (require_clear _ s.team_domain d)
              (require_clear _ s.audience au))
      | inr not_cf ↦ elim (Bool-cases (same a.provider (text "local"))) [
        | inl named ↦
            let (i, more) =
              none_left (require _ s.local_issuer) _
                (chosen_clear _ (local_problems a.local) lo named) in
            let (au, u) = none_left (require _ s.local_audience) (require _ s.jwks_url) more in
            rw (not_cf, named)
              (local_ready s (require_clear _ s.local_issuer i)
                (require_clear _ s.local_audience au) (require_clear _ s.jwks_url u))
        | inr not_local ↦ elim (Bool-cases (same a.provider (text "pomerium"))) [
          | inl named ↦
              let (u, more) =
                none_left (require _ s.pomerium_jwks_url) _
                  (chosen_clear _ (pomerium_problems a.pomerium) po named) in
              let (i, au) =
                none_left (require _ s.pomerium_issuer) (require _ s.pomerium_audience) more in
              rw (not_cf, not_local, named)
                (pomerium_ready s (require_clear _ s.pomerium_jwks_url u)
                  (require_clear _ s.pomerium_issuer i) (require_clear _ s.pomerium_audience au))
          | inr unknown ↦ rw (not_cf, not_local, unknown) refl
        ]
      ]
    ]

auth_ready :
    (a : AuthConfig)
    → auth_problems a ≡ []
    → lacks_settings (new_provider a.provider (settings_of a)) ≡ false
auth_ready a h = rw (new_provider-provider_named a.provider (settings_of a)) (auth_named a h)

-- A configuration that `Load` returns has a database path that is not empty and holds no "..",
-- and the provider that main.go builds from it never fails because a setting is missing,
-- whichever provider it names.
pub load_ready :
    (parse_duration : Text → Option Duration) (port_of : Text → Option Text) (env : Environment)
    (cfg : Config)
    → load parse_duration port_of env ≡ loaded cfg
    → (cfg.database_path ≢ [])
      × (contains_dots cfg.database_path ≡ false)
      × (lacks_settings (new_provider cfg.auth.provider (settings_of cfg.auth)) ≡ false)
unfolding load
load_ready parse_duration port_of env cfg h =
    let (clear, e) = accept_loaded (read_config parse_duration port_of env) cfg _ h in
    let (_, rest) = none_left _ _ clear in
    let (_, rest') = none_left _ _ rest in
    let (path, auth) = none_left _ _ rest' in
    let (named, plain) = path_clear _ path in rw (← e) (named, plain, auth_ready _ auth)

-- What `Load` returns is what it has read, if it found no problem.
pub load-read_config :
    (parse_duration : Text → Option Duration) (port_of : Text → Option Text) (env : Environment)
    (cfg : Config)
    → load parse_duration port_of env ≡ loaded cfg
    → read_config parse_duration port_of env ≡ cfg
unfolding load
load-read_config parse_duration port_of env cfg h =
    (accept_loaded (read_config parse_duration port_of env) cfg _ h).1
