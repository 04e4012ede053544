-- ===== src/Auth/Principal.antt =====
-- internal/auth/principal.go.
use go_webapp_template.Base.{List, Bool, any}
use go_webapp_template.Base.Text.{Text, same}

pub record Principal : Type 0 where
  pub subject : Text
  pub email : Text
  pub display_name : Text
  pub roles : List Text

-- `slices.Contains(p.Roles, role)`
unfoldable pub has_role : Principal → Text → Bool
has_role p role = any (λ r. same r role) p.roles
