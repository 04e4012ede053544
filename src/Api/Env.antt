-- ===== src/Api/Env.antt =====
-- What the HTTP surface takes from elsewhere, and the state that requests share.
use go_webapp_template.Base.{ℕ, Bool, Option, List}
use go_webapp_template.Base.Text.{Text}
use go_webapp_template.Base.Time.{Time}
use go_webapp_template.Auth.Principal.{Principal}
use go_webapp_template.Http.{Body, Request, Writer, ConfigEntry, PageData}
use go_webapp_template.RateLimit.{RateLimiter}

-- `(T, error)`; of an error only its text is used.
pub data Result {ℓ} (A : Type ℓ) : Type ℓ where
  ok : A → Result A
  err : Text → Result A

-- The outcome of `json.NewDecoder(r.Body).Decode(&body)`, whose value is the field `Value`.
pub data Decoded : Type 0 where
  decoded : Text → Decoded
  too_large malformed : (error : Text) → Decoded

-- The store (internal/store), the provider (internal/auth) and the libraries that read a request.
pub record Env : Type 1 where
  pub Db : Type 0
  pub Auth : Type 0
  pub ping : Db → Option Text
  pub list_config : Db → Result (List ConfigEntry)
  pub set_config : Db → Text → Text → Result Db
  pub authenticate : Request → Time → Auth → Result Principal × Auth
  pub parse_media_type : Text → Option Text
  pub decode_body : Option ℕ → Text → Decoded
  pub parse_form : Request → Option Text
  pub post_form_value : Request → Text → Text
  pub status_text : ℕ → Text
  pub template_error : Text → PageData → Option Text
  pub encode_error : Body → Writer → Option Text
  pub path_ext : Text → Text
  pub serve_file : Text → Writer → Writer
  pub mux_answer : ℕ → Writer → Writer

-- One call of the metrics registry by the middleware, and one line of the log. An error that is
-- logged without the request's identifier has the identifier "".
pub data MetricCall : Type 0 where
  active_inc active_dec : MetricCall
  requests_inc : (method route : Text) (status : ℕ) → MetricCall
  duration_observe : (method route : Text) → MetricCall

pub data LogLine : Type 0 where
  access :
      (debug : Bool) (method path : Text) (status : ℕ) (id : Text) (subject : Option Text) → LogLine
  failed : (message error id : Text) → LogLine
  config_changed : (subject key id : Text) → LogLine

-- What the requests share.
pub record World (e : Env) : Type 0 where
  pub limiter : RateLimiter
  pub db : e.Db
  pub auth : e.Auth
  pub metrics : List MetricCall
  pub logs : List LogLine

-- A request in flight: `now` is the clock's reading and `random` what `crypto/rand` gives it.
pub record Io (e : Env) : Type 0 where
  pub request : Request
  pub writer : Writer
  pub world : World e
  pub now : Time
  pub random : Option Text

abbrev pub Handler : Env → Type 0
Handler e = Io e → Io e
