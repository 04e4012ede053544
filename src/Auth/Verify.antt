-- ===== src/Auth/Verify.antt =====
-- The verification of a token: `Authenticate`, `verify`, `verificationKey` and `mapJWTError` of
-- internal/auth/jwt.go. The library golang-jwt is a parameter.
pub mod Soundness
use go_webapp_template.Base.{
  ℕ, ◌+◌, ◌*◌, ◌<◌, ◌≡◌, ◌≢◌, refl, Bool, true, false, not, ◌||◌, Option, none, some, List, [], ◌∷◌,
  any, ◌==◌, Bool-cases, inl, inr, if◌then◌else◌, arith,
}
use go_webapp_template.Base.Text.{Text, text, same, same_iff, is_empty}
use go_webapp_template.Base.Time.{Time, ℤ, second, time_of_unix}
use go_webapp_template.Base.Known.{occurs}
use go_webapp_template.Auth.Principal.{Principal}
use go_webapp_template.Auth.Jwks.{PublicKey, rsa, ecdsa}
use go_webapp_template.Auth.Claims.{
  Claims, MapClaims, Reason, no_token, unexpected_algorithm, missing_key_id, no_usable_key,
  key_type_mismatch, malformed_token, token_expired, issued_in_future, not_yet_valid,
  unexpected_issuer, unexpected_audience, missing_claim, invalid_signature, validation_failed,
  Verified, valid, invalid, claims_from_map, list_or_empty,
}

-- 60 seconds
abbrev pub expiry_leeway : ℕ
expiry_leeway = 60 * second

pub record JwtConfig : Type 0 where
  pub header : Text
  pub issuer : Text
  pub audience : Text
  pub algorithm : Text
  pub jwks_url : Text

-- A parsed token, before its signature is checked: `kid` is the header's key id, "" if it is no
-- string.
pub record Token : Type 0 where
  pub method : Text
  pub kid : Text

-- The sentinels that `errors.Is` finds in an error of the parser.
pub data Sentinel : Type 0 where
  own : Reason → Sentinel
  malformed invalid_type expired used_before_issued not_valid_yet bad_issuer bad_audience
        required_missing signature_invalid unverifiable :
      Sentinel

pub data Parsed : Type 0 where
  accepted : MapClaims → Parsed
  rejected : List Sentinel → (keyfunc_ran : Bool) → Parsed

abbrev pub sentinel_code : Sentinel → ℕ
sentinel_code (own r) = 0
sentinel_code malformed = 1
sentinel_code invalid_type = 2
sentinel_code expired = 3
sentinel_code used_before_issued = 4
sentinel_code not_valid_yet = 5
sentinel_code bad_issuer = 6
sentinel_code bad_audience = 7
sentinel_code required_missing = 8
sentinel_code signature_invalid = 9
sentinel_code unverifiable = 10

abbrev pub is_err : List Sentinel → Sentinel → Bool
is_err errs s = any (λ t. sentinel_code t == sentinel_code s) errs

abbrev pub own_reason : List Sentinel → Option Reason
own_reason [] = none
own_reason (own r ∷ errs) = some r
own_reason (s ∷ errs) = own_reason errs

-- The cases of the `switch` below the keyfunc's own sentinels, in order.
unfoldable pub library_reason : List Sentinel → Bool → Reason
library_reason errs keyfunc_ran =
    if is_err errs malformed || is_err errs invalid_type
    then malformed_token
    else if is_err errs expired
    then token_expired
    else if is_err errs used_before_issued
    then issued_in_future
    else if is_err errs not_valid_yet
    then not_yet_valid
    else if is_err errs bad_issuer
    then unexpected_issuer
    else if is_err errs bad_audience
    then unexpected_audience
    else if is_err errs required_missing
    then missing_claim
    else if is_err errs signature_invalid
    then if not keyfunc_ran then unexpected_algorithm else invalid_signature
    else if is_err errs unverifiable
    then no_usable_key
    else validation_failed

abbrev pub reason_or : Option Reason → Reason → Reason
reason_or none r = r
reason_or (some own_one) r = own_one

unfoldable pub map_jwt_error : List Sentinel → Bool → Reason
unfolding library_reason
map_jwt_error errs keyfunc_ran = reason_or (own_reason errs) (library_reason errs keyfunc_ran)

-- The `switch` on the pinned algorithm in `verificationKey`.
unfoldable pub fits_algorithm : Text → PublicKey → Bool
fits_algorithm algorithm (rsa n e) = not (same algorithm (text "ES256"))
fits_algorithm algorithm (ecdsa x y) = not (same algorithm (text "RS256"))

abbrev pub typed_key : Text → Option PublicKey → Verified PublicKey
typed_key algorithm none = invalid no_usable_key
typed_key algorithm (some key) =
    if fits_algorithm algorithm key then valid key else invalid key_type_mismatch

-- `key_of` is what the JWKS cache answers for a key id.
unfoldable pub verification_key : Text → (Text → Option PublicKey) → Token → Verified PublicKey
verification_key algorithm key_of token =
    if not (same token.method algorithm)
    then invalid unexpected_algorithm
    else if is_empty token.kid
    then invalid missing_key_id
    else typed_key algorithm (key_of token.kid)

-- The token's expiry, if it has one, is less than the leeway ago.
abbrev pub IsUnexpired : ℕ → Time → Option (Option ℤ) → Type 0
IsUnexpired leeway now none = Unit
IsUnexpired leeway now (some none) = Unit
IsUnexpired leeway now (some (some exp)) = now < time_of_unix exp + leeway

-- golang-jwt: the parser with the options of `NewJWTProvider`, and the verification of a
-- signature. `header_of` is the header that the parser decodes from a token and hands to the
-- keyfunc. What the library documents and the program relies on: a token is accepted only if the
-- keyfunc has returned, for its header, a key that verifies its signature, its issuer is the
-- configured one, its audience holds the configured one and it has not expired for longer than the
-- leeway.
pub record JwtLibrary : Type 0 where
  pub parse : JwtConfig → ℕ → Time → Text → (Token → Verified PublicKey) → Parsed
  pub header_of : Text → Option Token
  pub verifies : Text → PublicKey → Bool
  pub accepted_only :
      (cfg : JwtConfig) (leeway : ℕ) (now : Time) (token : Text)
      (keyfunc : Token → Verified PublicKey) (m : MapClaims)
      → parse cfg leeway now token keyfunc ≡ accepted m
      → (t : Token) × (key : PublicKey) × (header_of token ≡ some t)
        × (keyfunc t ≡ valid key)
        × (verifies token key ≡ true)
        × (m.issuer ≡ some (cfg.issuer))
        × (occurs cfg.audience (list_or_empty m.audience) ≡ true)
        × IsUnexpired leeway now m.expiration_time

abbrev pub read_claims : Parsed → Verified Claims
read_claims (accepted m) = claims_from_map m
read_claims (rejected errs keyfunc_ran) = invalid (map_jwt_error errs keyfunc_ran)

abbrev pub map_verified : (Claims → Principal) → Verified Claims → Verified Principal
map_verified f (valid c) = valid (f c)
map_verified f (invalid why) = invalid why

module _ (lib : JwtLibrary) (cfg : JwtConfig) (key_of : Text → Option PublicKey) (now : Time) where
  unfoldable pub verify : Text → Verified Claims
  unfolding verification_key map_jwt_error claims_from_map
  verify token =
      read_claims (lib.parse cfg expiry_leeway now token (verification_key cfg.algorithm key_of))

  -- `token` is the value of the configured header.
  unfoldable pub authenticate : (Claims → Principal) → Text → Verified Principal
  unfolding verify
  authenticate map_fn token =
      if is_empty token then invalid no_token else map_verified map_fn (verify token)
