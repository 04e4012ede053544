-- ===== src/Auth/Jwk/Strength.antt =====
-- The keys that `fetch` of internal/auth/jwt.go accepts.
use go_webapp_template.Base.{
  ℕ, zero, suc, ◌-◌, ◌%◌, ◌^◌, ◌≤◌, ◌<◌, ◌≡◌, ◌≢◌, refl, false, not, ◌&&◌, ◌||◌, Option, none, some,
  List, [], ◌∷◌, ◌++◌, All, length, ltb, Bool-cases, inl, inr, ap, subst, length-append, arith,
}
use go_webapp_template.Base.Text.{Text, text, same, is_empty}
use go_webapp_template.Base.Dict.{Dict, All-insert}
use go_webapp_template.Auth.Jwks.{PublicKey, rsa, ecdsa}
use go_webapp_template.Auth.Jwk.{
  JwkEntry, be_value_from, be_value, max_rsa_exponent_bytes, is_small_modulus, rsa_key, coord_len,
  zeros, uncompressed_point, point_key, both, parse_rsa_jwk, ec_key, parse_ec_jwk, add_key,
  add_entry, keys_of,
}

-- What a cached key has to be, whatever the Identity Provider has sent.
abbrev pub IsStrong : (Text → Option (ℕ × ℕ)) → PublicKey → Type 0
IsStrong parse_point (rsa n e) = (2 ^ 2047 ≤ n) × (3 ≤ e) × (e % 2 ≡ 1) × (e < 2 ^ 32)
IsStrong parse_point (ecdsa x y) =
    (point : Text) × (length point ≡ 65) × (parse_point point ≡ some (x, y))

-- Bytes.
abbrev pub IsBytes : Text → Type 0
IsBytes bs = All (λ b. b < 256) bs

be_value-lt : (bs : Text) → IsBytes bs → length bs ≤ 4 → be_value bs < 2 ^ 32
unfolding be_value_from
be_value-lt [] h len = omega arith
be_value-lt (a ∷ []) h len = omega arith
be_value-lt (a ∷ b ∷ []) h len = omega arith
be_value-lt (a ∷ b ∷ c ∷ []) h len = omega arith
be_value-lt (a ∷ b ∷ c ∷ d ∷ []) h len = omega arith
be_value-lt (a ∷ b ∷ c ∷ d ∷ x ∷ bs) h len = absurd (omega arith)

pub non_empty : (s : Text) → is_empty s ≡ false → s ≢ []
non_empty [] h e = cc
non_empty (c ∷ s) h e = cc

large_modulus : (n : ℕ) → is_small_modulus n ≡ false → 2 ^ 2047 ≤ n
unfolding is_small_modulus
large_modulus n h = ground arith

-- The tests of `parseRSAJWK` after the decoding, read off an accepted key.
rsa_key_tests :
    (n_bytes e_bytes : Text) (key : PublicKey)
    → rsa_key n_bytes e_bytes ≡ some key
    → (key ≡ rsa (be_value n_bytes) (be_value e_bytes))
      × (is_small_modulus (be_value n_bytes) ≡ false)
      × (length e_bytes ≤ max_rsa_exponent_bytes)
      × (3 ≤ be_value e_bytes)
      × (be_value e_bytes % 2 ≢ 0)
unfolding rsa_key
rsa_key_tests n_bytes e_bytes key e = ground arith

rsa_key-IsStrong :
    (parse_point : Text → Option (ℕ × ℕ)) (n_bytes e_bytes : Text) (key : PublicKey)
    → IsBytes e_bytes
    → rsa_key n_bytes e_bytes ≡ some key
    → IsStrong parse_point key
rsa_key-IsStrong parse_point n_bytes e_bytes key h e =
    let (same_key, large, short, big, odd) = rsa_key_tests n_bytes e_bytes key e in
    rw same_key
      (large_modulus (be_value n_bytes) large, big, omega arith, be_value-lt e_bytes h short)

length-zeros : (n : ℕ) → length (zeros n) ≡ n
unfolding zeros
length-zeros zero = refl
length-zeros (suc n) = ap suc (length-zeros n)

length-uncompressed_point :
    (x y : Text)
    → length x ≤ coord_len
    → length y ≤ coord_len
    → length (uncompressed_point x y) ≡ 65
unfolding uncompressed_point
length-uncompressed_point x y hx hy = omega (
  arith,
  length-append (zeros (coord_len - length x) ++ x) (zeros (coord_len - length y) ++ y),
  length-append (zeros (coord_len - length x)) x,
  length-append (zeros (coord_len - length y)) y,
  length-zeros (coord_len - length x),
  length-zeros (coord_len - length y),
)

module _ (decode : Text → Option Text) (parse_point : Text → Option (ℕ × ℕ))
    (decode-IsBytes : (s bs : Text) → decode s ≡ some bs → IsBytes bs) where
  ec_key-IsStrong :
      (x y : Text) (key : PublicKey)
      → ec_key decode parse_point x y ≡ some key
      → IsStrong parse_point key
  unfolding ec_key
  ec_key-IsStrong x y key e =
      elim (Bool-cases (ltb coord_len (length x) || ltb coord_len (length y))) [
        | inl long ↦ cc (rw long at e)
        | inr fits ↦ go (parse_point (uncompressed_point x y)) refl (rw fits at e)
      ]
    where
      go :
          (o : Option (ℕ × ℕ))
          → parse_point (uncompressed_point x y) ≡ o
          → point_key o ≡ some key
          → IsStrong parse_point key
      go none p q = cc
      go (some (a, b)) p q =
          let made : ecdsa a b ≡ key = cc in
          subst (IsStrong parse_point) made
            (uncompressed_point x y, length-uncompressed_point x y (ground arith) (ground arith), p)

  abbrev IsSafeEntry : Text × PublicKey → Type 0
  IsSafeEntry (kid, key) = (kid ≢ []) × IsStrong parse_point key

  add_key-IsSafe :
      (kid : Text) (o : Option PublicKey) (keys : Dict PublicKey)
      → kid ≢ []
      → ((key : PublicKey) → o ≡ some key → IsStrong parse_point key)
      → All IsSafeEntry keys
      → All IsSafeEntry (add_key decode parse_point kid o keys)
  add_key-IsSafe kid none keys ne strong h = h
  add_key-IsSafe kid (some key) keys ne strong h =
      All-insert IsSafeEntry kid key keys h (ne, strong key refl)

  both-some :
      (o p : Option Text) (f : Text → Text → Option PublicKey) (key : PublicKey)
      → both decode parse_point o p f ≡ some key
      → (a : Text) × (b : Text) × (o ≡ some a) × (p ≡ some b) × (f a b ≡ some key)
  both-some none p f key e = cc
  both-some (some a) none f key e = cc
  both-some (some a) (some b) f key e = (a, b, refl, refl, e)

  parse_rsa_jwk-IsStrong :
      (n e : Text) (key : PublicKey)
      → parse_rsa_jwk decode parse_point n e ≡ some key
      → IsStrong parse_point key
  unfolding parse_rsa_jwk
  parse_rsa_jwk-IsStrong n e key h =
      let (n_bytes, e_bytes, _, found, accepted) = both-some (decode n) (decode e) rsa_key key h in
      rsa_key-IsStrong parse_point n_bytes e_bytes key (decode-IsBytes e e_bytes found) accepted

  parse_ec_jwk-IsStrong :
      (curve x y : Text) (key : PublicKey)
      → parse_ec_jwk decode parse_point curve x y ≡ some key
      → IsStrong parse_point key
  unfolding parse_ec_jwk
  parse_ec_jwk-IsStrong curve x y key h = elim (Bool-cases (same curve (text "P-256"))) [
    | inr other ↦ cc (rw other at h)
    | inl p256 ↦
        let (a, b, _, _, accepted) =
          both-some (decode x) (decode y) (ec_key decode parse_point) key (rw p256 at h) in
        ec_key-IsStrong a b key accepted
  ]

  add_entry-IsSafe :
      (k : JwkEntry) (keys : Dict PublicKey)
      → All IsSafeEntry keys
      → All IsSafeEntry (add_entry decode parse_point k keys)
  unfolding add_entry
  add_entry-IsSafe k keys h = elim (Bool-cases (is_empty k.key_id)) [
    | inl empty ↦ rw empty h
    | inr named ↦
        elim (Bool-cases (not (is_empty k.use_for) && not (same k.use_for (text "sig")))) [
          | inl other_use ↦ rw (named, other_use) h
          | inr for_sig ↦ elim (Bool-cases (same k.key_type (text "RSA"))) [
            | inl is_rsa ↦
                rw (named, for_sig, is_rsa)
                  (add_key-IsSafe k.key_id (parse_rsa_jwk decode parse_point k.n k.e) keys
                    (non_empty k.key_id named) (parse_rsa_jwk-IsStrong k.n k.e) h)
            | inr not_rsa ↦ elim (Bool-cases (same k.key_type (text "EC"))) [
              | inl is_ec ↦
                  rw (named, for_sig, not_rsa, is_ec)
                    (add_key-IsSafe k.key_id (parse_ec_jwk decode parse_point k.curve k.x k.y) keys
                      (non_empty k.key_id named) (parse_ec_jwk-IsStrong k.curve k.x k.y) h)
              | inr not_ec ↦ rw (named, for_sig, not_rsa, not_ec) h
            ]
          ]
        ]
  ]

  keys_of-IsSafe :
      (entries : List JwkEntry) (keys : Dict PublicKey)
      → All IsSafeEntry keys
      → All IsSafeEntry (keys_of decode parse_point entries keys)
  unfolding keys_of
  keys_of-IsSafe [] keys h = h
  keys_of-IsSafe (k ∷ entries) keys h =
      keys_of-IsSafe entries (add_entry decode parse_point k keys) (add_entry-IsSafe k keys h)

-- Whatever key set is fetched, where decoded base64 consists of bytes: every key that it leaves in
-- the cache has a key id; an RSA key has a modulus of 2048 bits or more and an odd exponent from 3
-- up to 32 bits; an EC key is a point that the curve's parser accepts from its 65 bytes.
pub fetched_keys_safe :
    (decode : Text → Option Text) (parse_point : Text → Option (ℕ × ℕ))
    → ((s bs : Text) → decode s ≡ some bs → IsBytes bs)
    → (entries : List JwkEntry)
    → All (λ e. (e.0 ≢ []) × IsStrong parse_point e.1) (keys_of decode parse_point entries [])
fetched_keys_safe decode parse_point bytes entries =
    keys_of-IsSafe decode parse_point bytes entries [] tt
