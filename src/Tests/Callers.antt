-- ===== src/Tests/Callers.antt =====
-- Two calls of `key` of internal/auth/jwt.go that meet at the key cache.
use mathlib.Core.List.{Memᴰ}
use go_webapp_template.Tests.Tokens
use go_webapp_template.Auth.Trust.{IsTrusted, authenticate-IsTrusted}
use go_webapp_template.Auth.Verify.{authenticate, verify, verification_key, fits_algorithm}
use go_webapp_template.Auth.Claims.{valid, claims_from_map, map_local_claims, collect_roles}
use go_webapp_template.Base.{
  Option, none, inl, inr, sym, Bool-cases, if◌then◌else◌, ◌+◌, ◌*◌, ◌≡◌, refl, true, some, [], ◌∷◌,
  All, arith,
}
use go_webapp_template.Base.Dict.{lookup, insert}
use go_webapp_template.Base.Text.{Text, text, same, same_iff}
use go_webapp_template.Base.Time.{second, sub, time_of_unix}
use go_webapp_template.Auth.Jwks.{
  PublicKey, begin, begin_with, finish, finish_with, ecdsa, jwks_min_refresh_interval,
}
use go_webapp_template.Auth.Jwk.{keys_of, add_entry, parse_ec_jwk, ec_key}
use go_webapp_template.Auth.Jwk.Fetch.{fetch, read_set}
use go_webapp_template.Auth.Callers.{Calls, History, Move, waiting, returned}
use go_webapp_template.Auth.Callers.Safety.{IsServed, calls-AllServed}
use go_webapp_template.Auth.Callers.Completion.{Completes, History-Completes}
use go_webapp_template.Tests.Keys.{kid, other_kid, start, entry, endpoint, decode-IsBytes}

-- The first call claims the slot, and the second one waits for its channel.
unfoldable waiting_run : (s : Calls) × History endpoint jwks_min_refresh_interval start s
unfolding begin begin_with lookup sub
waiting_run = (
  _,
  History.next
      (History.next (History.next History.here (Move.call start kid (omega arith) (omega arith)))
        (Move.call start other_kid (omega arith) (omega arith)))
      (Move.tick (start + 10 * second) (omega arith) (omega arith)),
)

History-Completes_example :
    Completes endpoint {limit = jwks_min_refresh_interval}
      (omega arith)
      (omega arith)
      true
      endpoint.response
      waiting_run.0
History-Completes_example =
    History-Completes endpoint (omega arith) (omega arith) true endpoint.response waiting_run.1

-- The fetch brings a key, and the first call returns it.
unfoldable served_run : (s : Calls) × History endpoint jwks_min_refresh_interval start s
unfolding waiting_run begin begin_with lookup sub finish finish_with fetch read_set
served_run = (
  _,
  History.next
      (History.next
        (History.next waiting_run.1
          (Move.arrive kid start (waiting other_kid 0 ∷ []) [] refl true endpoint.response))
        (Move.close kid start (waiting other_kid 0 ∷ []) [] refl))
      (Move.answer kid (waiting other_kid 0 ∷ []) [] refl),
)

calls-AllServed_example : All (IsServed endpoint) served_run.0.callers
calls-AllServed_example = calls-AllServed endpoint decode-IsBytes served_run.1

-- The first call has been given the key that the fetch has brought.
served_answer : served_run.0.callers ≡ waiting other_kid 0 ∷ returned kid (some (ecdsa 7 7)) ∷ []
unfolding served_run waiting_run begin begin_with lookup sub finish finish_with fetch read_set
    keys_of add_entry parse_ec_jwk ec_key entry text same insert
served_answer = refl

-- A token of Tests.Tokens, checked with the key that the first call has returned.
abbrev key_of : Text → Option PublicKey
key_of k = if same k kid then some (ecdsa 7 7) else none

key_of_returned :
    (k : Text) (key : PublicKey)
    → key_of k ≡ some key
    → Memᴰ (returned k (some key)) served_run.0.callers
key_of_returned k key h = elim (Bool-cases (same k kid)) [
  | inl named ↦
      let same_key : ecdsa 7 7 ≡ key = cc (rw named at h) in
      let same_call : returned kid (some (ecdsa 7 7)) ≡ returned k (some key) =
        cc (same_key, (same_iff k kid).0 named) in
      rw served_answer (Memᴰ.tail (Memᴰ.head (sym same_call)))
  | inr other ↦ cc (rw other at h)
]

trusted_run :
    authenticate Tokens.library Tokens.cfg key_of 0 map_local_claims (b't' ∷ [])
    ≡ valid Tokens.principal
unfolding time_of_unix authenticate verify verification_key fits_algorithm claims_from_map
    map_local_claims same collect_roles text lookup
trusted_run = refl

authenticate-IsTrusted_example :
    (key : PublicKey) × IsTrusted endpoint Tokens.library Tokens.cfg (b't' ∷ []) key
authenticate-IsTrusted_example =
    authenticate-IsTrusted endpoint decode-IsBytes served_run.1 Tokens.library Tokens.cfg key_of 0
      map_local_claims (b't' ∷ []) Tokens.principal key_of_returned trusted_run
