-- ===== src/Auth/Jwk.antt =====
-- The JSON Web Keys of internal/auth/jwt.go: which entries of a key set become keys.
pub mod Entries
pub mod Strength
pub mod Fetch
pub mod Serving
use go_webapp_template.Base.{
  ℕ, zero, suc, ◌+◌, ◌-◌, ◌*◌, ◌/◌, ◌%◌, ◌^◌, ◌≤◌, ◌<◌, ◌≡◌, ◌≢◌, refl, Bool, true, false, not,
  ◌&&◌, ◌||◌, Option, none, some, List, [], ◌∷◌, ◌++◌, All, length, leb, ltb, ◌==◌, if◌then◌else◌,
  Bool-cases, Option-cases, inl, inr, ap, subst, length-append, arith,
}
use go_webapp_template.Base.Text.{Text, text, same, is_empty}
use go_webapp_template.Base.Dict.{Dict, insert, All-insert}
use go_webapp_template.Auth.Jwks.{PublicKey, rsa, ecdsa}

-- One entry of `jwkSet`.
pub record JwkEntry : Type 0 where
  pub key_type : Text
  pub key_id : Text
  pub use_for : Text
  pub n : Text
  pub e : Text
  pub x : Text
  pub y : Text
  pub curve : Text

-- `new(big.Int).SetBytes(…)`, and the loop `e = e<<8 | int(b)`: the bytes are below 256.
unfoldable pub be_value_from : ℕ → Text → ℕ
be_value_from acc [] = acc
be_value_from acc (b ∷ bs) = be_value_from (acc * 256 + b) bs

abbrev pub be_value : Text → ℕ
be_value bs = be_value_from 0 bs

abbrev pub min_rsa_key_bits : ℕ
min_rsa_key_bits = 2048

abbrev pub max_rsa_exponent_bytes : ℕ
max_rsa_exponent_bytes = 4

-- `n.BitLen() < minRSAKeyBits`: a number has 2048 bits or more when it is 2^2047 or more.
unfoldable pub is_small_modulus : ℕ → Bool
is_small_modulus n = ltb n (2 ^ (min_rsa_key_bits - 1))

unfoldable pub rsa_key : Text → Text → Option PublicKey
rsa_key n_bytes e_bytes =
    let n = be_value n_bytes in
    let e = be_value e_bytes in
    if is_small_modulus n
    then none
    else if ltb max_rsa_exponent_bytes (length e_bytes)
    then none
    else if ltb e 3 || e % 2 == 0
    then none
    else some (rsa n e)

abbrev pub coord_len : ℕ
coord_len = 32

unfoldable pub zeros : ℕ → Text
zeros zero = []
zeros (suc n) = 0 ∷ zeros n

-- The array of 65 bytes: `copy` puts each coordinate at the right end of its 32 bytes.
unfoldable pub uncompressed_point : Text → Text → Text
unfolding zeros
uncompressed_point x y =
    0x04 ∷ ((zeros (coord_len - length x) ++ x) ++ (zeros (coord_len - length y) ++ y))

abbrev pub point_key : Option (ℕ × ℕ) → Option PublicKey
point_key none = none
point_key (some (x, y)) = some (ecdsa x y)

-- `base64.RawURLEncoding.DecodeString` and `ecdsa.ParseUncompressedPublicKey` on P-256.
module _ (decode : Text → Option Text) (parse_point : Text → Option (ℕ × ℕ)) where
  abbrev pub both : Option Text → Option Text → (Text → Text → Option PublicKey) → Option PublicKey
  both none b f = none
  both (some a) none f = none
  both (some a) (some b) f = f a b

  unfoldable pub parse_rsa_jwk : Text → Text → Option PublicKey
  unfolding rsa_key
  parse_rsa_jwk n e = both (decode n) (decode e) rsa_key

  unfoldable pub ec_key : Text → Text → Option PublicKey
  unfolding uncompressed_point
  ec_key x y =
      if ltb coord_len (length x) || ltb coord_len (length y)
      then none
      else point_key (parse_point (uncompressed_point x y))

  unfoldable pub parse_ec_jwk : Text → Text → Text → Option PublicKey
  unfolding ec_key
  parse_ec_jwk curve x y =
      if not (same curve (text "P-256")) then none else both (decode x) (decode y) ec_key

  abbrev pub add_key : Text → Option PublicKey → Dict PublicKey → Dict PublicKey
  add_key kid none keys = keys
  add_key kid (some key) keys = insert kid key keys

  -- The body of the loop of `fetch`.
  unfoldable pub add_entry : JwkEntry → Dict PublicKey → Dict PublicKey
  add_entry k keys =
      if is_empty k.key_id
      then keys
      else if not (is_empty k.use_for) && not (same k.use_for (text "sig"))
      then keys
      else if same k.key_type (text "RSA")
      then add_key k.key_id (parse_rsa_jwk k.n k.e) keys
      else if same k.key_type (text "EC")
      then add_key k.key_id (parse_ec_jwk k.curve k.x k.y) keys
      else keys

  unfoldable pub keys_of : List JwkEntry → Dict PublicKey → Dict PublicKey
  unfolding add_entry
  keys_of [] keys = keys
  keys_of (k ∷ entries) keys = keys_of entries (add_entry k keys)
