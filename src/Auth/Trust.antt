-- ===== src/Auth/Trust.antt =====
-- `Authenticate` of internal/auth/jwt.go on the keys that the calls of `key` have returned.
use mathlib.Core.List.{Memᴰ}
use go_webapp_template.Base.{ℕ, ◌≡◌, subst, sym, true, Option, some, List, [], ◌∷◌, All}
use go_webapp_template.Base.Text.{Text}
use go_webapp_template.Base.Time.{Time}
use go_webapp_template.Auth.Principal.{Principal}
use go_webapp_template.Auth.Jwks.{PublicKey}
use go_webapp_template.Auth.Jwk.Strength.{IsBytes, IsStrong}
use go_webapp_template.Auth.Jwk.Fetch.{Endpoint}
use go_webapp_template.Auth.Callers.{returned, Calls, History}
use go_webapp_template.Auth.Callers.Safety.{IsServed, calls-AllServed}
use go_webapp_template.Auth.Claims.{Claims, valid}
use go_webapp_template.Auth.Verify.{JwtConfig, JwtLibrary, authenticate, fits_algorithm}
use go_webapp_template.Auth.Verify.Soundness.{authenticate_sound}

All-Memᴰ {ℓ κ} : {A : Type ℓ} (P : A → Type κ) (x : A) (xs : List A) → All P xs → Memᴰ x xs → P x
All-Memᴰ P x [] h m = elim m [ ]
All-Memᴰ P x (y ∷ ys) (h, hs) (Memᴰ.head e) = subst P (sym e) h
All-Memᴰ P x (y ∷ ys) (h, hs) (Memᴰ.tail m) = All-Memᴰ P x ys hs m

-- The key behind an accepted token: strong, of the pinned algorithm's type, and the one that
-- verifies the signature.
pub record IsTrusted (p : Endpoint) (lib : JwtLibrary) (cfg : JwtConfig) (token : Text)
    (key : PublicKey) : Type 0 where
  pub strong : IsStrong p.parse_point key
  pub fits : fits_algorithm cfg.algorithm key ≡ true
  pub signed : lib.verifies token key ≡ true

-- Where decoded base64 consists of bytes, and the verification gets its keys from calls of `key`
-- that have returned them in some interleaving, with whatever answers of the key set's address: a
-- principal is authenticated only for a token whose signature a strong key verifies, an RSA key of
-- 2048 bits or more with an odd exponent from 3 up to 32 bits or a point that the curve's parser
-- accepts, and of the type of the pinned algorithm.
pub authenticate-IsTrusted :
    (p : Endpoint)
    → ((s bs : Text) → p.decode s ≡ some bs → IsBytes bs)
    → {limit : ℕ} {start : Time} {s : Calls} → History p limit start s
    → (lib : JwtLibrary) (cfg : JwtConfig) (key_of : Text → Option PublicKey) (now : Time)
      (map_fn : Claims → Principal) (token : Text) (who : Principal)
    → ((kid : Text) (key : PublicKey)
        → key_of kid ≡ some key
        → Memᴰ (returned kid (some key)) s.callers)
    → authenticate lib cfg key_of now map_fn token ≡ valid who
    → (key : PublicKey) × IsTrusted p lib cfg token key
authenticate-IsTrusted p bytes {s = s} h lib cfg key_of now map_fn token who from e =
    let shown = authenticate_sound lib cfg key_of now map_fn token who e in
    let (_, strong) =
      All-Memᴰ (IsServed p) (returned shown.header.kid (some (shown.key))) s.callers
        (calls-AllServed p bytes h) (from shown.header.kid shown.key shown.key_known) in
    (shown.key, record { strong = strong; fits = shown.key_fits; signed = shown.signed })
