-- ===== src/RateLimit.antt =====
-- internal/api/ratelimit.go: the token-bucket limiter. Each call takes its lock for its whole
-- length, so a run is a sequence of calls; the clock's reading is an argument of the call.
-- `int` tokens are integers without wrap-around.
pub mod Eviction
pub mod Capacity
pub mod Buckets
pub mod Sharing
pub mod Isolation
pub mod Throughput
pub mod Patience
pub mod Tokens
use go_webapp_template.Base.{
  ℕ, ◌*◌, Bool, true, false, not, ◌||◌, Option, none, some, List, [], ◌∷◌, leb, length,
  if◌then◌else◌,
}
use go_webapp_template.Base.Text.{Text, is_empty}
use go_webapp_template.Base.Dict.{Dict, lookup, insert, remove, sweep}
use go_webapp_template.Base.Time.{
  ℤ, pos, negsuc, ◌+ℤ◌, ltb_ℤ, quo, Time, second, sub, is_zero, before, at_least,
}

abbrev pub rate_limit_rate : ℕ
rate_limit_rate = 500000000

abbrev pub rate_limit_burst : ℕ
rate_limit_burst = 10

abbrev pub rate_limit_max_buckets : ℕ
rate_limit_max_buckets = 10000

abbrev pub rate_limit_bucket_ttl : ℕ
rate_limit_bucket_ttl = 3600 * second

abbrev pub rate_limit_cleanup_interval : ℕ
rate_limit_cleanup_interval = 60 * second

pub record Bucket : Type 0 where
  pub tokens : ℤ
  pub last : Time

pub record RateLimiter : Type 0 where
  pub buckets : Dict Bucket
  pub rate : ℕ
  pub burst : ℕ
  pub last_cleanup : Time

unfoldable pub new_rate_limiter : ℕ → ℕ → RateLimiter
new_rate_limiter rate burst = record { buckets = []; rate = rate; burst = burst; last_cleanup = 0 }

-- A bucket's part of `allow`: refill by the time elapsed, cap at the burst, take a token.
unfoldable pub refill : ℕ → ℕ → Time → Bucket → ℤ
refill rate burst now b =
    let tokens = b.tokens +ℤ quo (sub now b.last) rate in
    if ltb_ℤ (pos burst) tokens then pos burst else tokens

unfoldable pub take : Time → ℤ → Bucket × Bool
take now tokens =
    if ltb_ℤ (pos 0) tokens
    then (record { tokens = tokens +ℤ negsuc 0; last = now }, true)
    else (record { tokens = tokens; last = now }, false)

abbrev pub serve : ℕ → ℕ → Time → Bucket → Bucket × Bool
serve rate burst now b = take now (refill rate burst now b)

abbrev pub is_live : Time → Bucket → Bool
is_live now b = not (at_least (sub now b.last) rate_limit_bucket_ttl)

unfoldable pub cleanup_locked : Time → Dict Bucket → Dict Bucket
cleanup_locked now buckets = sweep (is_live now) buckets

-- The loop of `evictOldestLocked` over the variables `oldestKey` and `oldest`.
unfoldable pub find_oldest : Dict Bucket → Text → Time → Text × Time
find_oldest [] oldest_key oldest = (oldest_key, oldest)
find_oldest ((k, b) ∷ m) oldest_key oldest =
    let older = is_zero oldest || before b.last oldest in
    find_oldest m (if older then k else oldest_key) (if older then b.last else oldest)

unfoldable pub evict_oldest_locked : Dict Bucket → Dict Bucket
unfolding find_oldest
evict_oldest_locked buckets =
    let oldest_key = (find_oldest buckets [] 0).0 in
    if is_empty oldest_key then buckets else remove oldest_key buckets

-- The sweep at the head of `allow`.
unfoldable pub maybe_cleanup : Time → RateLimiter → RateLimiter
unfolding cleanup_locked
maybe_cleanup now rl =
    if at_least (sub now rl.last_cleanup) rate_limit_cleanup_interval
    then record rl { buckets = cleanup_locked now rl.buckets; last_cleanup = now }
    else rl

-- The map after room is made for one more bucket.
unfoldable pub make_room : Dict Bucket → Dict Bucket
unfolding evict_oldest_locked
make_room buckets =
    if leb rate_limit_max_buckets (length buckets) then evict_oldest_locked buckets else buckets

abbrev pub fresh_bucket : ℕ → Bucket
fresh_bucket burst = record { tokens = pos burst; last = 0 }

-- `b, ok := rl.buckets[subject]`, with the bucket made when it is missing, and what follows. The
-- map holds a pointer to the bucket, so the served bucket is stored back under its key.
unfoldable pub serve_in : RateLimiter → Time → Text → Option Bucket → RateLimiter × Bool
unfolding make_room
serve_in rl now subject (some b) =
    let (b', ok) = serve rl.rate rl.burst now b in
    (record rl { buckets = insert subject b' rl.buckets }, ok)
serve_in rl now subject none =
    let (b', ok) = serve rl.rate rl.burst now (fresh_bucket rl.burst) in
    (record rl { buckets = insert subject b' (make_room rl.buckets) }, ok)

unfoldable pub allow : RateLimiter → Time → Text → RateLimiter × Bool
unfolding maybe_cleanup serve_in
allow rl now subject =
    let rl' = maybe_cleanup now rl in serve_in rl' now subject (lookup subject rl'.buckets)

-- A sequence of calls, each with its clock reading and subject, and their answers.
unfoldable pub allow_all : RateLimiter → List (Time × Text) → RateLimiter × List Bool
allow_all rl [] = (rl, [])
allow_all rl ((now, subject) ∷ calls) =
    let (rl', ok) = allow rl now subject in
    let (rl'', oks) = allow_all rl' calls in (rl'', ok ∷ oks)
