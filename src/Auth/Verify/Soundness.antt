-- ===== src/Auth/Verify/Soundness.antt =====
-- What an authenticated request has shown, in internal/auth/jwt.go.
use go_webapp_template.Base.{
  ◌+◌, ◌<◌, ◌≡◌, ◌≢◌, refl, ap, subst, ◌∙◌, true, Option, none, some, [], ◌∷◌, Bool-cases, inl, inr,
}
use go_webapp_template.Base.Text.{Text, same, same_iff, is_empty}
use go_webapp_template.Base.Time.{Time, ℤ, time_of_unix}
use go_webapp_template.Base.Known.{occurs}
use go_webapp_template.Auth.Principal.{Principal}
use go_webapp_template.Auth.Jwks.{PublicKey}
use go_webapp_template.Auth.Jwk.Strength.{non_empty}
use go_webapp_template.Auth.Claims.{
  Claims, MapClaims, Verified, valid, invalid, claims_from_map, text_or_empty, list_or_empty,
  claims_with, subject_claims, expiry_claims,
}
use go_webapp_template.Auth.Verify.{
  JwtConfig, Token, Parsed, accepted, rejected, verification_key, typed_key, fits_algorithm,
  JwtLibrary, expiry_leeway, read_claims, map_verified, verify, authenticate,
}

typed_key_valid :
    (algorithm : Text) (o : Option PublicKey) (key : PublicKey)
    → typed_key algorithm o ≡ valid key
    → (o ≡ some key) × (fits_algorithm algorithm key ≡ true)
typed_key_valid algorithm none key h = cc
typed_key_valid algorithm (some k) key h = elim (Bool-cases (fits_algorithm algorithm k)) [
  | inl fits ↦
      let e : k ≡ key = cc (rw fits at h) in
      (ap some e, subst (λ j. fits_algorithm algorithm j ≡ true) e fits)
  | inr misfit ↦ cc (rw misfit at h)
]

verification_key_valid :
    (algorithm : Text) (key_of : Text → Option PublicKey) (t : Token) (key : PublicKey)
    → verification_key algorithm key_of t ≡ valid key
    → (t.method ≡ algorithm)
      × (t.kid ≢ [])
      × (key_of t.kid ≡ some key)
      × (fits_algorithm algorithm key ≡ true)
unfolding verification_key
verification_key_valid algorithm key_of t key h = elim (Bool-cases (same t.method algorithm)) [
  | inr differs ↦ cc (rw differs at h)
  | inl pinned ↦ elim (Bool-cases (is_empty t.kid)) [
    | inl missing ↦ cc (rw (pinned, missing) at h)
    | inr named ↦
        let (found, fits) =
          typed_key_valid algorithm (key_of t.kid) key (rw (pinned, named) at h) in
        ((same_iff t.method algorithm).0 pinned, non_empty t.kid named, found, fits)
  ]
]

subject_claims_valid :
    (m : MapClaims) (exp : ℤ) (o : Option Text) (c : Claims)
    → subject_claims m exp o ≡ valid c
    → (c.subject ≢ [])
      × (o ≡ some (c.subject))
      × (c.expires_at ≡ exp)
      × (c.issuer ≡ text_or_empty m.issuer)
      × (c.audience ≡ list_or_empty m.audience)
subject_claims_valid m exp none c h = cc
subject_claims_valid m exp (some []) c h = cc
subject_claims_valid m exp (some (x ∷ sub)) c h =
    let e : claims_with m exp (x ∷ sub) ≡ c = cc in rw (← e) ((λ n. cc), refl, refl, refl, refl)

expiry_claims_valid :
    (m : MapClaims) (o : Option (Option ℤ)) (c : Claims)
    → expiry_claims m o ≡ valid c
    → (c.subject ≢ [])
      × (m.subject ≡ some (c.subject))
      × (o ≡ some (some (c.expires_at)))
      × (c.issuer ≡ text_or_empty m.issuer)
      × (c.audience ≡ list_or_empty m.audience)
expiry_claims_valid m none c h = cc
expiry_claims_valid m (some none) c h = cc
expiry_claims_valid m (some (some exp)) c h =
    let (named, found, e, i, a) = subject_claims_valid m exp m.subject c h in
    (named, found, rw e refl, i, a)

-- The claims of a token are accepted only with an expiry and a subject that is not empty, and
-- they are the token's.
pub claims_from_map_valid :
    (m : MapClaims) (c : Claims)
    → claims_from_map m ≡ valid c
    → (c.subject ≢ [])
      × (m.subject ≡ some (c.subject))
      × (m.expiration_time ≡ some (some (c.expires_at)))
      × (c.issuer ≡ text_or_empty m.issuer)
      × (c.audience ≡ list_or_empty m.audience)
unfolding claims_from_map
claims_from_map_valid m c h = expiry_claims_valid m m.expiration_time c h

-- What stands behind an authenticated principal.
pub record Shown (lib : JwtLibrary) (cfg : JwtConfig) (key_of : Text → Option PublicKey)
    (now : Time) (token : Text) (map_fn : Claims → Principal) (p : Principal) : Type 0 where
  pub present : token ≢ []
  pub header : Token
  pub key : PublicKey
  pub claims : Claims
  pub header_read : lib.header_of token ≡ some header
  pub pinned : header.method ≡ cfg.algorithm
  pub key_named : header.kid ≢ []
  pub key_known : key_of header.kid ≡ some key
  pub key_fits : fits_algorithm cfg.algorithm key ≡ true
  pub signed : lib.verifies token key ≡ true
  pub issued : claims.issuer ≡ cfg.issuer
  pub addressed : occurs cfg.audience claims.audience ≡ true
  pub unexpired : now < time_of_unix claims.expires_at + expiry_leeway
  pub named : claims.subject ≢ []
  pub mapped : p ≡ map_fn claims

module _ (lib : JwtLibrary) (cfg : JwtConfig) (key_of : Text → Option PublicKey) (now : Time)
    (map_fn : Claims → Principal) (token : Text) where
  read_claims-Shown :
      (r : Parsed) (c : Claims)
      → token ≢ []
      → lib.parse cfg expiry_leeway now token (verification_key cfg.algorithm key_of) ≡ r
      → read_claims r ≡ valid c
      → Shown lib cfg key_of now token map_fn (map_fn c)
  read_claims-Shown (rejected errs ran) c present e h = cc
  read_claims-Shown (accepted m) c present e h =
      let (t, key, decoded, found, signed, issuer, audience, unexpired) =
        lib.accepted_only cfg expiry_leeway now token (verification_key cfg.algorithm key_of) m e in
      let (pinned, kid, known, fits) = verification_key_valid cfg.algorithm key_of t key found in
      let (named, _, expires, issued, addressed) = claims_from_map_valid m c h in
      record {
        present = present;
        header = t;
        header_read = decoded;
        key = key;
        claims = c;
        pinned = pinned;
        key_named = kid;
        key_known = known;
        key_fits = fits;
        signed = signed;
        issued = issued ∙ ap text_or_empty issuer;
        addressed = rw addressed audience;
        unexpired = rw expires at unexpired;
        named = named;
        mapped = refl;
      }

  map_verified_valid :
      (v : Verified Claims) (p : Principal)
      → map_verified map_fn v ≡ valid p
      → (c : Claims) × (v ≡ valid c) × (map_fn c ≡ p)
  map_verified_valid (valid c) p h = (c, refl, cc)
  map_verified_valid (invalid why) p h = cc

  -- A principal is authenticated only for a token that is there, whose own header, as the library
  -- decodes it, has the pinned algorithm for its method and a key id that is not empty and names a
  -- key of the cache of the algorithm's type that verifies the token's signature, whose issuer is
  -- the configured one, whose audience holds the configured one, whose expiry is less than the
  -- leeway ago and whose subject is not empty; the principal is what the provider maps the claims
  -- to.
  pub authenticate_sound :
      (p : Principal)
      → authenticate lib cfg key_of now map_fn token ≡ valid p
      → Shown lib cfg key_of now token map_fn p
  unfolding authenticate verify
  authenticate_sound p h = elim (Bool-cases (is_empty token)) [
    | inl missing ↦ cc (rw missing at h)
    | inr present ↦
        let (c, read, mapped) =
          map_verified_valid
            (read_claims
              (lib.parse cfg expiry_leeway now token (verification_key cfg.algorithm key_of)))
            p (rw present at h) in
        subst (Shown lib cfg key_of now token map_fn) mapped (
          read_claims-Shown
            (lib.parse cfg expiry_leeway now token (verification_key cfg.algorithm key_of)) c
            (non_empty token present) refl read)
  ]
