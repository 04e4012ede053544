-- ===== src/Auth/Providers.antt =====
-- The providers of internal/auth and how they are built: `NewJWTProvider` of jwt.go, `NewProvider`
-- of provider.go, and localprovider.go, cloudflare.go and pomerium.go. The HTTP client and the
-- clock that the settings may carry are left to the functions that use them.
pub mod Pinned
use mathlib.Core.List.{reverse}
use go_webapp_template.Base.Dict.{Dict, lookup, insert}
use go_webapp_template.Base.{
  ℕ, Option, none, some, ◌≡◌, refl, arith, Bool, true, false, not, ◌&&◌, ◌||◌, [], ◌∷◌, ◌++◌, leb,
  ◌==◌, if◌then◌else◌,
}
use go_webapp_template.Base.Text.{Text, text, same, same_iff, is_empty, has_prefix, drop_prefix}
use go_webapp_template.Auth.Principal.{Principal}
use go_webapp_template.Auth.Claims.{
  Claims, identity_role_mapper, map_local_claims, map_cloudflare_claims, map_pomerium_claims,
  trim_role_prefix,
}
use go_webapp_template.Auth.Verify.{JwtConfig}

pub record Settings : Type 0 where
  pub team_domain : Text
  pub audience : Text
  pub local_issuer : Text
  pub local_audience : Text
  pub jwks_url : Text
  pub local_header : Text
  pub local_algorithm : Text
  pub pomerium_jwks_url : Text
  pub pomerium_issuer : Text
  pub pomerium_audience : Text
  pub pomerium_header : Text
  pub pomerium_algorithm : Text
  pub pomerium_role_prefix : Text

pub data ProviderError : Type 0 where
  jwt_settings_required unsupported_algorithm local_settings_required local_jwks_required
        pomerium_settings_required cloudflare_settings_required invalid_team_domain
        unknown_provider :
      ProviderError

-- A provider is its configuration with its mapping of claims.
pub data Built : Type 0 where
  built : JwtConfig → (Claims → Principal) → Built
  failed : ProviderError → Built

abbrev pub is_supported : Text → Bool
is_supported algorithm = same algorithm (text "RS256") || same algorithm (text "ES256")

unfoldable pub new_jwt_provider : JwtConfig → (Claims → Principal) → Built
new_jwt_provider cfg map_fn =
    if is_empty cfg.header || is_empty cfg.issuer || is_empty cfg.audience || is_empty cfg.jwks_url
    then failed jwt_settings_required
    else if not (is_supported cfg.algorithm)
    then failed unsupported_algorithm
    else built cfg map_fn

-- `header := default; if s.X != "" { header = s.X }`
abbrev pub or_default : Text → Text → Text
or_default value fallback = if is_empty value then fallback else value

unfoldable pub new_local_jwt_provider : Settings → Built
unfolding new_jwt_provider
new_local_jwt_provider s =
    if is_empty s.local_issuer || is_empty s.local_audience
    then failed local_settings_required
    else if is_empty s.jwks_url
    then failed local_jwks_required
    else new_jwt_provider
        (record {
          header = or_default s.local_header (text "Cf-Access-Jwt-Assertion");
          issuer = s.local_issuer;
          audience = s.local_audience;
          algorithm = or_default s.local_algorithm (text "RS256");
          jwks_url = s.jwks_url;
        })
        map_local_claims

unfoldable pub new_pomerium_provider : Settings → Built
unfolding new_jwt_provider
new_pomerium_provider s =
    if is_empty s.pomerium_jwks_url || is_empty s.pomerium_issuer || is_empty s.pomerium_audience
    then failed pomerium_settings_required
    else new_jwt_provider
        (record {
          header = or_default s.pomerium_header (text "X-Pomerium-Jwt-Assertion");
          issuer = s.pomerium_issuer;
          audience = s.pomerium_audience;
          algorithm = or_default s.pomerium_algorithm (text "ES256");
          jwks_url = s.pomerium_jwks_url;
        })
        (λ c. map_pomerium_claims c (trim_role_prefix s.pomerium_role_prefix))

unfoldable pub is_domain_byte : ℕ → Bool
is_domain_byte c =
    leb b'a' c && leb c b'z'
    || leb b'A' c && leb c b'Z'
    || leb b'0' c && leb c b'9'
    || c == b'-'
    || c == b'.'

unfoldable pub all_domain_bytes : Text → Bool
unfolding is_domain_byte
all_domain_bytes [] = true
all_domain_bytes (c ∷ s) = if is_domain_byte c then all_domain_bytes s else false

abbrev pub has_suffix : Text → Text → Bool
has_suffix s suffix = has_prefix (reverse s) (reverse suffix)

abbrev pub trim_suffix : Text → Text → Text
trim_suffix s suffix =
    if has_suffix s suffix then reverse (drop_prefix (reverse s) (reverse suffix)) else s

-- `strings.Contains(s, "..")`
unfoldable pub contains_dots : Text → Bool
unfolding has_prefix text
contains_dots [] = false
contains_dots (c ∷ s) = has_prefix (c ∷ s) (text "..") || contains_dots s

unfoldable pub is_valid_team_domain : Text → Bool
unfolding all_domain_bytes contains_dots
is_valid_team_domain s =
    if is_empty s
    then false
    else if has_prefix s (text ".")
        || has_suffix s (text ".")
        || has_prefix s (text "-")
        || has_suffix s (text "-")
    then false
    else if contains_dots s
    then false
    else all_domain_bytes s

unfoldable pub cloudflare_issuer : Text → Text
unfolding has_prefix text
cloudflare_issuer team_domain =
    text "https://"
    ++ (trim_suffix team_domain (text ".cloudflareaccess.com") ++ text ".cloudflareaccess.com")

-- A role mapper that may be nil.
abbrev pub or_identity : Option (Text → Text) → Text → Text
or_identity none = identity_role_mapper
or_identity (some map_roles) = map_roles

unfoldable pub new_cloudflare : Text → Text → Option (Text → Text) → Built
unfolding new_jwt_provider is_valid_team_domain
new_cloudflare team_domain audience map_roles =
    if is_empty team_domain || is_empty audience
    then failed cloudflare_settings_required
    else if not (is_valid_team_domain team_domain)
    then failed invalid_team_domain
    else new_jwt_provider
        (record {
          header = text "Cf-Access-Jwt-Assertion";
          issuer = cloudflare_issuer team_domain;
          audience = audience;
          algorithm = text "RS256";
          jwks_url = cloudflare_issuer team_domain ++ text "/cdn-cgi/access/certs";
        })
        (λ c. map_cloudflare_claims c (or_identity map_roles))

-- The registry: each `init` function adds its entry.
unfoldable pub register :
    Text → (Settings → Built) → Dict (Settings → Built) → Dict (Settings → Built)
register name new entries = insert name new entries

unfoldable pub registry : Dict (Settings → Built)
unfolding register
registry = register (text "pomerium") new_pomerium_provider (
    register (text "local") new_local_jwt_provider
      (register (text "cloudflare-access") (λ s. new_cloudflare s.team_domain s.audience none) []))

abbrev pub new_from : Option (Settings → Built) → Settings → Built
new_from none s = failed unknown_provider
new_from (some new) s = new s

unfoldable pub new_provider : Text → Settings → Built
unfolding registry
new_provider name s = new_from (lookup name registry) s

-- What the entries come to.
abbrev pub provider_named : Text → Settings → Built
provider_named name s =
    if same name (text "cloudflare-access")
    then new_cloudflare s.team_domain s.audience none
    else if same name (text "local")
    then new_local_jwt_provider s
    else if same name (text "pomerium")
    then new_pomerium_provider s
    else failed unknown_provider

registry_entries :
    registry
    ≡ (text "cloudflare-access", λ s. new_cloudflare s.team_domain s.audience none)
      ∷ (text "local", new_local_jwt_provider)
      ∷ (text "pomerium", new_pomerium_provider)
      ∷ []
unfolding registry register insert same text
registry_entries = refl

same_comm : (a b : Text) → same a b ≡ same b a
same_comm a b = ground (arith, same_iff a b, same_iff b a)

pub new_provider-provider_named :
    (name : Text) (s : Settings) → new_provider name s ≡ provider_named name s
unfolding new_provider lookup
new_provider-provider_named name s =
    rw
      (
        registry_entries,
        same_comm name (text "cloudflare-access"),
        same_comm name (text "local"),
        same_comm name (text "pomerium"),
      )
      (ground arith)
