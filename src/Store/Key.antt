-- ===== src/Store/Key.antt =====
-- `ValidConfigKey` of internal/store/store.go.
use go_webapp_template.Base.{
  ℕ, ◌≡◌, ◌≢◌, ◌↔◌, refl, Bool, true, false, ◌&&◌, ◌||◌, [], ◌∷◌, All, ◌≤◌, ◌==◌, leb, arith, ◌⊎◌,
  if◌then◌else◌,
}
use go_webapp_template.Base.Text.{Text}

unfoldable pub is_key_byte : ℕ → Bool
is_key_byte c =
    leb b'a' c && leb c b'z'
    || leb b'A' c && leb c b'Z'
    || leb b'0' c && leb c b'9'
    || c == b'-'
    || c == b'_'

-- The loop over the bytes.
unfoldable pub all_key_bytes : Text → Bool
unfolding is_key_byte
all_key_bytes [] = true
all_key_bytes (c ∷ s) = if is_key_byte c then all_key_bytes s else false

unfoldable pub valid_config_key : Text → Bool
unfolding all_key_bytes
valid_config_key [] = false
valid_config_key (c ∷ s) = all_key_bytes (c ∷ s)

-- The alphabet of keys, by code point.
abbrev IsKeyByte : ℕ → Type 0
IsKeyByte c =
    ((97 ≤ c) × (c ≤ 122))
    ⊎ (((65 ≤ c) × (c ≤ 90)) ⊎ (((48 ≤ c) × (c ≤ 57)) ⊎ ((c ≡ 45) ⊎ (c ≡ 95))))

is_key_byte_iff : (c : ℕ) → (is_key_byte c ≡ true) ↔ IsKeyByte c
unfolding is_key_byte
is_key_byte_iff c = ground arith

all_key_bytes_iff : (s : Text) → (all_key_bytes s ≡ true) ↔ All IsKeyByte s
unfolding all_key_bytes
all_key_bytes_iff [] = ((λ _. tt), (λ _. refl))
all_key_bytes_iff (c ∷ s) = ground (arith, is_key_byte_iff c, all_key_bytes_iff s)

-- A key is accepted exactly when it is not empty and each of its bytes is a letter, a digit, a
-- hyphen or an underscore of ASCII.
valid_config_key_iff :
    (key : Text) → (valid_config_key key ≡ true) ↔ ((key ≢ []) × All IsKeyByte key)
unfolding valid_config_key
valid_config_key_iff [] = ((λ h. cc), (λ h. absurd (h.0 refl)))
valid_config_key_iff (c ∷ s) =
    ((λ h. ((λ e. cc), (all_key_bytes_iff (c ∷ s)).0 h)), (λ h. (all_key_bytes_iff (c ∷ s)).1 h.1))
