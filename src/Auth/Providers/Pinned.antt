-- ===== src/Auth/Providers/Pinned.antt =====
-- What every provider that internal/auth can build has in common.
use go_webapp_template.Base.{
  Option, ◌≡◌, ◌≢◌, ◌⊎◌, refl, Bool, true, false, ◌||◌, Bool-cases, inl, inr, [], if◌then◌else◌,
  arith,
}
use go_webapp_template.Base.Text.{Text, text, same, same_iff, is_empty}
use go_webapp_template.Auth.Principal.{Principal}
use go_webapp_template.Auth.Claims.{
  Claims, map_local_claims, map_cloudflare_claims, map_pomerium_claims,
}
use go_webapp_template.Auth.Jwk.Strength.{non_empty}
use go_webapp_template.Auth.Verify.{JwtConfig}
use go_webapp_template.Auth.Providers.{
  Settings, ProviderError, Built, built, failed, is_supported, new_jwt_provider,
  new_local_jwt_provider, new_pomerium_provider, new_cloudflare, new_provider,
  new_provider-provider_named,
}

-- A provider with a signature algorithm pinned, its settings in place, and the subject kept.
pub record IsPinned (cfg : JwtConfig) (map_fn : Claims → Principal) : Type 0 where
  pub algorithm : (cfg.algorithm ≡ text "RS256") ⊎ (cfg.algorithm ≡ text "ES256")
  pub header : cfg.header ≢ []
  pub issuer : cfg.issuer ≢ []
  pub audience : cfg.audience ≢ []
  pub jwks_url : cfg.jwks_url ≢ []
  pub subject : (c : Claims) → (map_fn c).subject ≡ c.subject

abbrev pub AllPinned : Built → Type 0
AllPinned (built cfg map_fn) = IsPinned cfg map_fn
AllPinned (failed why) = Unit

is_supported_iff :
    (algorithm : Text)
    → is_supported algorithm ≡ true
    → (algorithm ≡ text "RS256") ⊎ (algorithm ≡ text "ES256")
is_supported_iff algorithm h = elim (Bool-cases (same algorithm (text "RS256"))) [
  | inl rs ↦ inl ((same_iff algorithm (text "RS256")).0 rs)
  | inr other ↦ inr ((same_iff algorithm (text "ES256")).0 (rw other at h))
]

new_jwt_provider-AllPinned :
    (cfg : JwtConfig) (map_fn : Claims → Principal)
    → ((c : Claims) → (map_fn c).subject ≡ c.subject)
    → AllPinned (new_jwt_provider cfg map_fn)
unfolding new_jwt_provider
new_jwt_provider-AllPinned cfg map_fn kept =
    elim (Bool-cases (
      is_empty cfg.header
      || is_empty cfg.issuer
      || is_empty cfg.audience
      || is_empty cfg.jwks_url)) [
        | inl missing ↦ rw missing tt
        | inr set ↦ elim (Bool-cases (is_supported cfg.algorithm)) [
          | inr other ↦ rw (set, other) tt
          | inl supported ↦
              rw (set, supported)
                (record {
                  algorithm = is_supported_iff cfg.algorithm supported;
                  header = non_empty cfg.header (ground arith);
                  issuer = non_empty cfg.issuer (ground arith);
                  audience = non_empty cfg.audience (ground arith);
                  jwks_url = non_empty cfg.jwks_url (ground arith);
                  subject = kept;
                })
        ]
      ]

local-subject : (c : Claims) → (map_local_claims c).subject ≡ c.subject
unfolding map_local_claims
local-subject c = refl

cloudflare-subject :
    (f : Text → Text) (c : Claims) → (map_cloudflare_claims c f).subject ≡ c.subject
unfolding map_cloudflare_claims
cloudflare-subject f c = refl

pomerium-subject : (f : Text → Text) (c : Claims) → (map_pomerium_claims c f).subject ≡ c.subject
unfolding map_pomerium_claims
pomerium-subject f c = refl

-- A guard in front of a constructor of providers.
guarded :
    (b : Bool) (why : ProviderError) (p : Built)
    → AllPinned p
    → AllPinned (if b then failed why else p)
guarded true why p h = tt
guarded false why p h = h

either : (b : Bool) (p q : Built) → AllPinned p → AllPinned q → AllPinned (if b then p else q)
either true p q h k = h
either false p q h k = k

new_local-AllPinned : (s : Settings) → AllPinned (new_local_jwt_provider s)
unfolding new_local_jwt_provider
new_local-AllPinned s = search (guarded, new_jwt_provider-AllPinned, local-subject)

new_pomerium-AllPinned : (s : Settings) → AllPinned (new_pomerium_provider s)
unfolding new_pomerium_provider
new_pomerium-AllPinned s = search (guarded, new_jwt_provider-AllPinned, pomerium-subject)

new_cloudflare-AllPinned :
    (domain audience : Text) (map_roles : Option (Text → Text))
    → AllPinned (new_cloudflare domain audience map_roles)
unfolding new_cloudflare
new_cloudflare-AllPinned domain audience map_roles =
    search (guarded, new_jwt_provider-AllPinned, cloudflare-subject)

-- Whatever the name and the settings, `NewProvider` gives an error, or a provider whose algorithm
-- is RS256 or ES256, whose header, issuer, audience and key set's address are not empty, and
-- whose principals have the subject of the token's claims.
pub new_provider-AllPinned : (name : Text) (s : Settings) → AllPinned (new_provider name s)
new_provider-AllPinned name s =
    rw (new_provider-provider_named name s)
      (search (either, new_cloudflare-AllPinned, new_local-AllPinned, new_pomerium-AllPinned))
