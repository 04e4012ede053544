-- ===== src/Auth/Claims.antt =====
-- The claims of a token and their mapping to a principal: internal/auth/provider.go, and the
-- `map…Claims` functions of localprovider.go, cloudflare.go and pomerium.go.
use go_webapp_template.Base.{Option, none, some, List, [], ◌∷◌, if◌then◌else◌}
use go_webapp_template.Base.Text.{Text, text, is_empty, has_prefix, drop_prefix}
use go_webapp_template.Base.Dict.{Dict, lookup}
use go_webapp_template.Base.Time.{ℤ, pos}
use go_webapp_template.Auth.Principal.{Principal}

-- A claim's value as far as the program looks at it: a string, an array whose strings are `some`,
-- or anything else.
pub data Claim : Type 0 where
  str : Text → Claim
  array : List (Option Text) → Claim
  other : Claim

pub record Claims : Type 0 where
  pub subject : Text
  pub issuer : Text
  pub audience : List Text
  pub expires_at : ℤ
  pub not_before : ℤ
  pub issued_at : ℤ
  pub custom : Dict Claim

-- What the parser leaves in the map, through its getters. The outer `none` is an error of the
-- getter, the inner one an absent claim; an absent subject reads "".
pub record MapClaims : Type 0 where
  pub expiration_time : Option (Option ℤ)
  pub subject : Option Text
  pub issuer : Option Text
  pub audience : Option (List Text)
  pub not_before : Option (Option ℤ)
  pub issued_at : Option (Option ℤ)
  pub custom : Dict Claim

pub data Reason : Type 0 where
  no_token unexpected_algorithm missing_key_id no_usable_key key_type_mismatch malformed_token
        token_expired issued_in_future not_yet_valid unexpected_issuer unexpected_audience
        missing_claim invalid_signature validation_failed missing_expiry missing_subject :
      Reason

pub data Verified {ℓ} (A : Type ℓ) : Type ℓ where
  valid : A → Verified A
  invalid : Reason → Verified A

abbrev pub text_or_empty : Option Text → Text
text_or_empty none = []
text_or_empty (some s) = s

abbrev pub list_or_empty : Option (List Text) → List Text
list_or_empty none = []
list_or_empty (some l) = l

-- `if t, _ := get(); t != nil { out = t.Unix() }`
abbrev pub unix_or_zero : Option (Option ℤ) → ℤ
unix_or_zero none = pos 0
unix_or_zero (some none) = pos 0
unix_or_zero (some (some t)) = t

abbrev pub claims_with : MapClaims → ℤ → Text → Claims
claims_with m exp sub = record {
  subject = sub;
  issuer = text_or_empty m.issuer;
  audience = list_or_empty m.audience;
  expires_at = exp;
  not_before = unix_or_zero m.not_before;
  issued_at = unix_or_zero m.issued_at;
  custom = m.custom;
}

abbrev pub subject_claims : MapClaims → ℤ → Option Text → Verified Claims
subject_claims m exp none = invalid missing_subject
subject_claims m exp (some sub) =
    if is_empty sub then invalid missing_subject else valid (claims_with m exp sub)

abbrev pub expiry_claims : MapClaims → Option (Option ℤ) → Verified Claims
expiry_claims m none = invalid malformed_token
expiry_claims m (some none) = invalid missing_expiry
expiry_claims m (some (some exp)) = subject_claims m exp m.subject

unfoldable pub claims_from_map : MapClaims → Verified Claims
claims_from_map m = expiry_claims m m.expiration_time

-- `c.Custom[name].(string)` and `c.Custom[name].([]any)`, with the zero value otherwise.
abbrev pub as_string : Option Claim → Text
as_string none = []
as_string (some (str s)) = s
as_string (some (array l)) = []
as_string (some other) = []

abbrev pub as_array : Option Claim → List (Option Text)
as_array none = []
as_array (some (str s)) = []
as_array (some (array l)) = l
as_array (some other) = []

-- The loop over the raw roles: strings that are not empty, through the role mapper.
unfoldable pub collect_roles : (Text → Text) → List (Option Text) → List Text
collect_roles map_roles [] = []
collect_roles map_roles (none ∷ raw) = collect_roles map_roles raw
collect_roles map_roles (some s ∷ raw) =
    let rest = collect_roles map_roles raw in if is_empty s then rest else map_roles s ∷ rest

abbrev pub principal_of : Claims → Text → (Text → Text) → Principal
principal_of c roles_claim map_roles = record {
  subject = c.subject;
  email = as_string (lookup (text "email") c.custom);
  display_name = as_string (lookup (text "name") c.custom);
  roles = collect_roles map_roles (as_array (lookup roles_claim c.custom));
}

unfoldable pub identity_role_mapper : Text → Text
identity_role_mapper role = role

unfoldable pub map_local_claims : Claims → Principal
unfolding collect_roles
map_local_claims c = principal_of c (text "roles") (λ role. role)

unfoldable pub map_cloudflare_claims : Claims → (Text → Text) → Principal
unfolding collect_roles
map_cloudflare_claims c map_roles = principal_of c (text "roles") map_roles

unfoldable pub map_pomerium_claims : Claims → (Text → Text) → Principal
unfolding collect_roles
map_pomerium_claims c map_roles = principal_of c (text "groups") map_roles

-- `strings.TrimPrefix`
abbrev pub trim_prefix : Text → Text → Text
trim_prefix s prefix = if has_prefix s prefix then drop_prefix s prefix else s

unfoldable pub trim_role_prefix : Text → Text → Text
unfolding identity_role_mapper has_prefix
trim_role_prefix prefix role =
    if is_empty prefix then identity_role_mapper role else trim_prefix role prefix
