-- ===== src/Http.antt =====
-- net/http as the program uses it, and internal/httputil.
-- A handler gets a request by pointer: it returns the request as it leaves it. A context is a
-- value of the request, so `r.WithContext` makes a copy and the caller keeps its own request.
use go_webapp_template.Base.{ℕ, Bool, ◌||◌, Option, none, some, List, [], ◌∷◌, ◌++◌}
use go_webapp_template.Base.Text.{Text, text, same}
use go_webapp_template.Base.Dict.{Dict, lookup, insert}
use go_webapp_template.Auth.Principal.{Principal}

pub record Context : Type 0 where
  pub request_id : Option Text
  pub principal : Option Principal

-- `segments` are the decoded segments of the path, as ServeMux compares them with a pattern.
-- `limit` is the number of body bytes that may be read, once `http.MaxBytesReader` is set.
pub record Request : Type 0 where
  pub method : Text
  pub path : Text
  pub segments : List Text
  pub headers : Dict Text
  pub body : Text
  pub limit : Option ℕ
  pub pattern : Text
  pub context : Context

abbrev pub or_empty : Option Text → Text
or_empty none = []
or_empty (some v) = v

-- `r.Header.Get(name)`
unfoldable pub header_get : Request → Text → Text
header_get r name = or_empty (lookup name r.headers)

abbrev pub is_get_or_head : Request → Bool
is_get_or_head r = same r.method (text "GET") || same r.method (text "HEAD")

-- internal/httputil: the two values that the context carries.
abbrev pub with_request_id : Text → Context → Context
with_request_id id c = record c { request_id = some id }

abbrev pub request_id_from_context : Context → Text
request_id_from_context c = or_empty c.request_id

pub record ConfigEntry : Type 0 where
  pub key : Text
  pub value : Text

pub record PageData : Type 0 where
  pub site_name : Text
  pub principal : Principal
  pub entries : List ConfigEntry
  pub is_admin : Bool

pub data Body : Type 0 where
  problem : (status : ℕ) (title detail : Text) → Body
  status_json : Body
  principal_json : Principal → Body
  version_json : Body
  entries_json : List ConfigEntry → Body
  entry_json : ConfigEntry → Body
  template : (name : Text) → PageData → Body
  metrics_text : Body
  file : Text → Body

-- The response: the live header map, what the first `WriteHeader` sent, and the bodies written.
-- `status` is the field of the statusRecorder: both recorders of a request see the same calls.
pub record Writer : Type 0 where
  pub header : Dict Text
  pub sent : Option (ℕ × Dict Text)
  pub status : ℕ
  pub bodies : List Body

unfoldable pub set_header : Text → Text → Writer → Writer
set_header name value w = record w { header = insert name value w.header }

abbrev pub first_sent : Option (ℕ × Dict Text) → ℕ × Dict Text → Option (ℕ × Dict Text)
first_sent none s = some s
first_sent (some t) s = some t

-- `statusRecorder.WriteHeader`; net/http ignores all but the first.
unfoldable pub write_header : ℕ → Writer → Writer
write_header status w = record w { status = status; sent = first_sent w.sent (status, w.header) }

-- The first write sends the header with 200 if nothing has sent it.
unfoldable pub write_body : Body → Writer → Writer
write_body b w = record w { sent = first_sent w.sent (200, w.header); bodies = w.bodies ++ b ∷ [] }

-- `WriteProblem` and `writeJSON`.
unfoldable pub write_problem : ℕ → Text → Text → Writer → Writer
unfolding set_header write_header write_body
write_problem status title detail w =
    write_body (problem status title detail)
      (write_header status (set_header (text "Content-Type") (text "application/problem+json") w))

unfoldable pub write_json : ℕ → Body → Writer → Writer
unfolding set_header write_header write_body
write_json status b w =
    write_body b
      (write_header status (set_header (text "Content-Type") (text "application/json") w))
