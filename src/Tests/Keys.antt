-- ===== src/Tests/Keys.antt =====
-- Runs of the key cache of internal/auth/jwt.go and of the keys that it takes in.
use go_webapp_template.Base.{
  ℕ, ◌+◌, ◌*◌, ◌≡◌, ◌≢◌, ◌⊎◌, refl, true, false, Option, none, some, [], ◌∷◌, arith,
}
use go_webapp_template.Base.Text.{Text, text}
use go_webapp_template.Base.Dict.{Dict, lookup}
use go_webapp_template.Base.Time.{Time, second, sub}
use go_webapp_template.Auth.Jwks.{
  Cache, PublicKey, ecdsa, fetches, is_fresh, is_throttled, begin, begin_with, finish,
  new_jwks_client, jwks_min_refresh_interval,
}
use go_webapp_template.Auth.Jwks.System.{System, Reach, here, next, call, arrive, tick, finishes}
use go_webapp_template.Auth.Jwks.Throttle.{IsSpaced, fetches-IsSpaced}
use go_webapp_template.Auth.Jwks.SingleFlight.{IsSafe, single_flight, overtaken-panics}
use go_webapp_template.Auth.Jwks.Sequential.{key_alone, expected, key_alone_lem}
use go_webapp_template.Auth.Jwk.{JwkEntry}
use go_webapp_template.Auth.Jwk.Fetch.{
  Endpoint, bad_status, fetch, read_set, Replaces, fetch-Replaces,
}
use go_webapp_template.Auth.Jwk.Strength.{IsBytes}

abbrev pub kid : Text
kid = b'k' ∷ []

abbrev pub other_kid : Text
other_kid = b'o' ∷ []

abbrev pub start : Time
start = 1000 * second

abbrev key : PublicKey
key = ecdsa 1 2

abbrev keys : Dict PublicKey
keys = (kid, key) ∷ []

-- A call claims the slot, its fetch brings a key ten seconds later and ends.
unfoldable run : (s : System) × Reach jwks_min_refresh_interval start s
unfolding begin begin_with lookup sub
run = (
  _,
  next
      (next
        (next (next here (call start kid (omega arith) (omega arith)))
          (tick (start + 10 * second) (omega arith) (omega arith)))
        (arrive start [] [] refl keys))
      (finishes start [] [] refl),
)

single_flight_example : IsSafe jwks_min_refresh_interval run.0
single_flight_example = single_flight (omega arith) (omega arith) run.1

fetches-IsSpaced_example : IsSpaced run.0.attempts
fetches-IsSpaced_example = fetches-IsSpaced run.1

overtaken-panics_example :
    let first = begin new_jwks_client start kid in
    let second_call = begin first.0 (start + jwks_min_refresh_interval) other_kid in
    (first.1 ≡ fetches)
    × (second_call.1 ≡ fetches)
    × ((d : Cache) × (finish second_call.0 ≡ some d) × (finish d ≡ none))
unfolding lookup sub
overtaken-panics_example =
    overtaken-panics new_jwks_client start (start + jwks_min_refresh_interval) kid other_kid refl
      refl refl (omega arith)

key_alone_example :
    let cached = lookup kid (new_jwks_client.keys) in
    let r = key_alone new_jwks_client start kid (start + second) (some keys) in
    ((r ≡ (new_jwks_client, cached))
      × (((is_fresh new_jwks_client start ≡ true) × (cached ≢ none))
          ⊎ (is_throttled new_jwks_client start ≡ true)))
    ⊎ (((is_fresh new_jwks_client start ≡ false) ⊎ (cached ≡ none))
        × (is_throttled new_jwks_client start ≡ false)
        × (r.1 ≡ expected cached kid (some keys))
        × (r.0.last_fetch_attempt ≡ start)
        × (r.0.fetching ≡ none))
key_alone_example = key_alone_lem new_jwks_client start kid (start + second) (some keys) refl

-- A decoder that knows one coordinate, and a curve that takes one point.
abbrev pub decode : Text → Option Text
decode [] = none
decode (c ∷ s) = some (7 ∷ [])

pub decode-IsBytes : (s bs : Text) → decode s ≡ some bs → IsBytes bs
decode-IsBytes [] bs e = cc
decode-IsBytes (c ∷ s) bs e =
    let same_bytes : 7 ∷ [] ≡ bs = cc in rw (← same_bytes) (omega arith, tt)

abbrev pub parse_point : Text → Option (ℕ × ℕ)
parse_point s = some (7, 7)

unfoldable pub entry : JwkEntry
unfolding text
entry = record {
  key_type = text "EC";
  key_id = kid;
  use_for = [];
  n = [];
  e = [];
  x = kid;
  y = kid;
  curve = text "P-256";
}

-- An address that answers with the one entry.
abbrev pub endpoint : Endpoint
endpoint = record {
  makes_request = true;
  response = some (record { status = 200; body = []; close_fails = false });
  decode_set = λ s. some (entry ∷ []);
  decode = decode;
  parse_point = parse_point;
}

fetch-Replaces_example :
    Replaces endpoint new_jwks_client start (fetch endpoint new_jwks_client start)
fetch-Replaces_example = fetch-Replaces endpoint new_jwks_client start decode-IsBytes

-- An answer with another status leaves the cache alone.
refused_run :
    fetch
      (record endpoint { response = some (record { status = 503; body = []; close_fails = true }) })
      new_jwks_client
      start
    ≡ (new_jwks_client, some (bad_status 503))
unfolding fetch read_set
refused_run = refl
