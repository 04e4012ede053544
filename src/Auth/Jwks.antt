-- ===== src/Auth/Jwks.antt =====
-- `jwksClient` of internal/auth/jwt.go: the cache of verification keys and its throttled refresh.
-- Each function is one critical section under `c.mu`, so that other goroutines may run between
-- them; a channel is a number, and `made` counts the channels made.
pub mod System
pub mod Throttle
pub mod SingleFlight
pub mod Sequential
use go_webapp_template.Base.{
  ℕ, suc, ◌+◌, ◌*◌, Bool, true, false, ◌&&◌, Option, none, some, List, [], ◌∷◌, if◌then◌else◌,
}
use go_webapp_template.Base.Text.{Text}
use go_webapp_template.Base.Dict.{Dict, lookup}
use go_webapp_template.Base.Time.{Time, second, sub, less_than}

abbrev pub jwks_ttl : ℕ
jwks_ttl = 900 * second

abbrev pub jwks_min_refresh_interval : ℕ
jwks_min_refresh_interval = 30 * second

-- `*rsa.PublicKey` and `*ecdsa.PublicKey`, the latter by the coordinates of its point.
pub data PublicKey : Type 0 where
  rsa : (modulus exponent : ℕ) → PublicKey
  ecdsa : (x y : ℕ) → PublicKey

pub record Cache : Type 0 where
  pub keys : Dict PublicKey
  pub fetched_at : Time
  pub last_fetch_attempt : Time
  pub fetching : Option ℕ
  pub made : ℕ

abbrev pub new_jwks_client : Cache
new_jwks_client = record {
  keys = [];
  fetched_at = 0;
  last_fetch_attempt = 0;
  fetching = none;
  made = 0;
}

-- How the first section of `key` ends: with an answer, with "unknown key id", with a channel to
-- wait for, or with the fetch slot.
pub data Turn : Type 0 where
  answers : PublicKey → Turn
  unknown : Turn
  waits : (channel : ℕ) → Turn
  fetches : Turn

abbrev pub is_fresh : Cache → Time → Bool
is_fresh c now = less_than (sub now c.fetched_at) jwks_ttl

abbrev pub is_throttled : Cache → Time → Bool
is_throttled c now = less_than (sub now c.last_fetch_attempt) jwks_min_refresh_interval

abbrev pub wait_or_unknown : Option ℕ → Turn
wait_or_unknown none = unknown
wait_or_unknown (some channel) = waits channel

abbrev pub claim : Cache → Time → Cache
claim c now = record c { last_fetch_attempt = now; fetching = some (c.made); made = suc (c.made) }

unfoldable pub begin_with : Cache → Time → Option PublicKey → Cache × Turn
begin_with c now (some key) =
    if is_fresh c now
    then (c, answers key)
    else if is_throttled c now
    then (c, answers key)
    else (claim c now, fetches)
begin_with c now none =
    if is_throttled c now then (c, wait_or_unknown c.fetching) else (claim c now, fetches)

unfoldable pub begin : Cache → Time → Text → Cache × Turn
unfolding begin_with
begin c now kid = begin_with c now (lookup kid c.keys)

-- The swap at the end of a successful `fetch`.
abbrev pub swap : Cache → Time → Dict PublicKey → Cache
swap c now keys = record c { keys = keys; fetched_at = now }

-- `close(c.fetching); c.fetching = nil`. Closing a nil channel panics.
unfoldable pub finish_with : Cache → Option ℕ → Option Cache
finish_with c none = none
finish_with c (some channel) = some (record c { fetching = none })

unfoldable pub finish : Cache → Option Cache
unfolding finish_with
finish c = finish_with c c.fetching
