-- ===== src/Tests/Tokens.antt =====
-- Runs of the verification of internal/auth/jwt.go, with a library that accepts one token.
use go_webapp_template.Base.{
  ℕ, ◌+◌, ◌&&◌, ltb, if◌then◌else◌, Bool-cases, inl, inr, arith, List, ◌≡◌, refl, true, Option,
  none, some, [], ◌∷◌,
}
use go_webapp_template.Base.Text.{Text, text, same}
use go_webapp_template.Base.Time.{pos, Time, time_of_unix}
use go_webapp_template.Base.Dict.{lookup}
use go_webapp_template.Base.Known.{occurs}
use go_webapp_template.Auth.Principal.{Principal}
use go_webapp_template.Auth.Jwks.{PublicKey, ecdsa}
use go_webapp_template.Auth.Claims.{
  MapClaims, list_or_empty, Verified, valid, invalid, claims_from_map, map_local_claims,
  collect_roles,
}
use go_webapp_template.Auth.Verify.{
  JwtConfig, Token, Parsed, accepted, rejected, JwtLibrary, IsUnexpired, own, verify, authenticate,
  verification_key, fits_algorithm,
}
use go_webapp_template.Auth.Verify.Soundness.{Shown, authenticate_sound}

abbrev pub kid : Text
kid = b'k' ∷ []

abbrev pub es256 : Text
es256 = b'E' ∷ b'S' ∷ b'2' ∷ b'5' ∷ b'6' ∷ []

abbrev pub token : Token
token = record { method = es256; kid = kid }

abbrev pub cfg : JwtConfig
cfg = record {
  header = b'H' ∷ [];
  issuer = b'i' ∷ [];
  audience = b'a' ∷ [];
  algorithm = es256;
  jwks_url = b'u' ∷ [];
}

abbrev pub claims_for : Text → MapClaims
claims_for issuer = record {
  expiration_time = some (some (pos 2000));
  subject = some (b's' ∷ []);
  issuer = some issuer;
  audience = some ((b'a' ∷ []) ∷ []);
  not_before = some none;
  issued_at = some none;
  custom = [];
}

-- The library takes every signature for a key that the keyfunc finds.
abbrev pub our_audience : List Text
our_audience = (b'a' ∷ []) ∷ []

abbrev pub parse_with : JwtConfig → ℕ → Time → Verified PublicKey → Parsed
parse_with c leeway now (valid key) =
    if occurs c.audience our_audience && ltb now (time_of_unix (pos 2000) + leeway)
    then accepted (claims_for c.issuer)
    else rejected [] true
parse_with c leeway now (invalid why) = rejected (own why ∷ []) true

pub parse_with-accepted :
    (c : JwtConfig) (leeway : ℕ) (now : Time) (v : Verified PublicKey) (m : MapClaims)
    → parse_with c leeway now v ≡ accepted m
    → (key : PublicKey) × (v ≡ valid key)
      × (true ≡ true)
      × (m.issuer ≡ some (c.issuer))
      × (occurs c.audience (list_or_empty m.audience) ≡ true)
      × IsUnexpired leeway now m.expiration_time
parse_with-accepted c leeway now (valid key) m h =
    let addressed = occurs c.audience our_audience in
    let unexpired = ltb now (time_of_unix (pos 2000) + leeway) in
    elim (Bool-cases (addressed && unexpired)) [
      | inl both ↦
          let e : claims_for c.issuer ≡ m = cc (rw both at h) in
          rw (← e) (key, refl, refl, refl, ground arith, ground arith)
      | inr refused ↦ cc (rw refused at h)
    ]
parse_with-accepted c leeway now (invalid why) m h = cc

abbrev pub library : JwtLibrary
library = record {
  parse = λ c leeway now t keyfunc. parse_with c leeway now (keyfunc token);
  header_of = λ t. some token;
  verifies = λ t key. true;
  accepted_only = λ c leeway now t keyfunc m h.
      let (key, found, signed, issued, addressed, unexpired) =
        parse_with-accepted c leeway now (keyfunc token) m h in
      (token, key, refl, found, signed, issued, addressed, unexpired);
}

abbrev key_of : Text → Option PublicKey
key_of s = some (ecdsa 1 2)

abbrev pub principal : Principal
principal = record { subject = b's' ∷ []; email = []; display_name = []; roles = [] }

accepted_run : authenticate library cfg key_of 0 map_local_claims (b't' ∷ []) ≡ valid principal
unfolding time_of_unix authenticate verify verification_key fits_algorithm claims_from_map
    map_local_claims same collect_roles text lookup
accepted_run = refl

authenticate_sound_example : Shown library cfg key_of 0 (b't' ∷ []) map_local_claims principal
authenticate_sound_example =
    authenticate_sound library cfg key_of 0 map_local_claims (b't' ∷ []) principal accepted_run
