-- ===== src/Auth/Jwk/Entries.antt =====
-- Which keys the loop of `fetch` in internal/auth/jwt.go leaves in the cache, read from the
-- entries.
use go_webapp_template.Base.{
  ◌≡◌, ◌∙◌, refl, Bool, true, false, not, ◌&&◌, ◌||◌, Option, none, some, List, [], ◌∷◌,
  if◌then◌else◌, Bool-cases, inl, inr, arith, ℕ,
}
use go_webapp_template.Base.Text.{Text, text, same, is_empty}
use go_webapp_template.Base.Dict.{Dict, lookup, lookup-insert}
use go_webapp_template.Auth.Jwks.{PublicKey}
use go_webapp_template.Auth.Jwk.{JwkEntry, parse_rsa_jwk, parse_ec_jwk, add_key, add_entry, keys_of}

abbrev pub or_key : Option PublicKey → Option PublicKey → Option PublicKey
or_key none o = o
or_key (some key) o = some key

or_key-none : (o : Option PublicKey) → or_key o none ≡ o
or_key-none none = refl
or_key-none (some key) = refl

or_key_assoc :
    (a b o : Option PublicKey) (own : Bool)
    → or_key a (if own then or_key b o else o) ≡ or_key (or_key a (if own then b else none)) o
or_key_assoc none b o true = refl
or_key_assoc none b o false = refl
or_key_assoc (some key) b o own = refl

other_use_skipped :
    (k : JwkEntry)
    → (is_empty k.use_for || same k.use_for (text "sig")) ≡ false
    → (not (is_empty k.use_for) && not (same k.use_for (text "sig"))) ≡ true
other_use_skipped k h = ground arith

for_sig_read :
    (k : JwkEntry)
    → (is_empty k.use_for || same k.use_for (text "sig")) ≡ true
    → (not (is_empty k.use_for) && not (same k.use_for (text "sig"))) ≡ false
for_sig_read k h = ground arith

module _ (decode : Text → Option Text) (parse_point : Text → Option (ℕ × ℕ)) where
  -- The key that an entry for signatures describes.
  abbrev described : JwkEntry → Option PublicKey
  described k =
      if same k.key_type (text "RSA")
      then parse_rsa_jwk decode parse_point k.n k.e
      else if same k.key_type (text "EC")
      then parse_ec_jwk decode parse_point k.curve k.x k.y
      else none

  -- The key that an entry gives: none without a key id or for another use than signatures.
  abbrev given : JwkEntry → Option PublicKey
  given k =
      if is_empty k.key_id || not (is_empty k.use_for || same k.use_for (text "sig"))
      then none
      else described k

  -- The key of the last entry with this id that gives one.
  unfoldable pub last_key : Text → List JwkEntry → Option PublicKey
  last_key kid [] = none
  last_key kid (k ∷ entries) =
      or_key (last_key kid entries) (if same k.key_id kid then given k else none)

  lookup-add_key :
      (id kid : Text) (o : Option PublicKey) (keys : Dict PublicKey)
      → lookup kid (add_key decode parse_point id o keys)
        ≡ (if same id kid then or_key o (lookup kid keys) else lookup kid keys)
  lookup-add_key id kid none keys = ground arith
  lookup-add_key id kid (some key) keys = lookup-insert id kid key keys

  lookup-add_entry :
      (kid : Text) (k : JwkEntry) (keys : Dict PublicKey)
      → lookup kid (add_entry decode parse_point k keys)
        ≡ (if same k.key_id kid then or_key (given k) (lookup kid keys) else lookup kid keys)
  unfolding add_entry
  lookup-add_entry kid k keys =
      let ignored = lookup-add_key k.key_id kid none keys in
      elim (Bool-cases (is_empty k.key_id)) [
        | inl nameless ↦ rw nameless ignored
        | inr named ↦ elim (Bool-cases (is_empty k.use_for || same k.use_for (text "sig"))) [
          | inr other_use ↦ rw (named, other_use, other_use_skipped k other_use) ignored
          | inl for_sig ↦ elim (Bool-cases (same k.key_type (text "RSA"))) [
            | inl is_rsa ↦
                rw (named, for_sig, for_sig_read k for_sig, is_rsa)
                  (lookup-add_key k.key_id kid (parse_rsa_jwk decode parse_point k.n k.e) keys)
            | inr not_rsa ↦ elim (Bool-cases (same k.key_type (text "EC"))) [
              | inl is_ec ↦
                  rw (named, for_sig, for_sig_read k for_sig, not_rsa, is_ec)
                    (lookup-add_key k.key_id kid (parse_ec_jwk decode parse_point k.curve k.x k.y)
                      keys)
              | inr not_ec ↦ rw (named, for_sig, for_sig_read k for_sig, not_rsa, not_ec) ignored
            ]
          ]
        ]
      ]

  lookup-keys_of_onto :
      (kid : Text) (entries : List JwkEntry) (keys : Dict PublicKey)
      → lookup kid (keys_of decode parse_point entries keys)
        ≡ or_key (last_key kid entries) (lookup kid keys)
  unfolding keys_of last_key
  lookup-keys_of_onto kid [] keys = refl
  lookup-keys_of_onto kid (k ∷ entries) keys =
      rw
        (
          lookup-keys_of_onto kid entries (add_entry decode parse_point k keys),
          lookup-add_entry kid k keys,
        )
        (or_key_assoc (last_key kid entries) (given k) (lookup kid keys) (same k.key_id kid))

  pub lookup-keys_of :
      (kid : Text) (entries : List JwkEntry)
      → lookup kid (keys_of decode parse_point entries []) ≡ last_key kid entries
  unfolding lookup
  lookup-keys_of kid entries =
      lookup-keys_of_onto kid entries [] ∙ or_key-none (last_key kid entries)
