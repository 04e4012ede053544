-- ===== src/Tests/Limiter.antt =====
-- Runs of internal/api/ratelimit.go, with the limits of the program.
use go_webapp_template.Base.{
  All, ℕ, ◌+◌, ◌-◌, ◌*◌, ◌/◌, ◌≤◌, ◌≡◌, ◌≢◌, refl, true, false, some, List, [], ◌∷◌, arith,
}
use go_webapp_template.Base.Text.{Text, same}
use go_webapp_template.Base.Dict.{Dict, lookup, insert, remove}
use go_webapp_template.Base.Time.{Time, pos, second, sub, ◌+ℤ◌, quo}
use go_webapp_template.RateLimit.{
  take, refill, allow, maybe_cleanup, cleanup_locked, make_room, serve_in, Bucket, rate_limit_rate,
  rate_limit_burst, new_rate_limiter, fresh_bucket, allow_all, evict_oldest_locked,
}
use go_webapp_template.RateLimit.Eviction.{IsEarliest, evict_oldest_locked_lem}
use go_webapp_template.RateLimit.Capacity.{IsBounded, capacity}
use go_webapp_template.RateLimit.Isolation.{Among, isolation, answers_of, times_of, serve_all}
use go_webapp_template.RateLimit.Tokens.{FitsWord, allow_all-FitsWord}
use go_webapp_template.RateLimit.Patience.{IsGranted, patience}
use go_webapp_template.RateLimit.Throughput.{rate_bound, starvation, granted, last_of}

abbrev alice : Text
alice = b'a' ∷ []

abbrev bob : Text
bob = b'b' ∷ []

-- Twelve requests of alice within a tenth of a second of each other, and one of bob.
abbrev start : Time
start = 100 * second

abbrev hasty : ℕ → Time × Text
hasty n = (start + n * 100000000, alice)

abbrev calls : List (Time × Text)
calls =
    hasty 0
    ∷ hasty 1
    ∷ hasty 2
    ∷ hasty 3
    ∷ hasty 4
    ∷ hasty 5
    ∷ (start + 500000000, bob)
    ∷ hasty 6
    ∷ hasty 7
    ∷ hasty 8
    ∷ hasty 9
    ∷ hasty 10
    ∷ hasty 11
    ∷ []

-- The two of them.
abbrev names : List Text
names = alice ∷ bob ∷ []

abbrev later : List Time
later =
    (hasty 1).0
    ∷ (hasty 2).0
    ∷ (hasty 3).0
    ∷ (hasty 4).0
    ∷ (hasty 5).0
    ∷ (hasty 6).0
    ∷ (hasty 7).0
    ∷ (hasty 8).0
    ∷ (hasty 9).0
    ∷ (hasty 10).0
    ∷ (hasty 11).0
    ∷ []

times_of-alice : times_of alice calls ≡ start ∷ later
unfolding same
times_of-alice = refl

calls-Among : Among names calls
unfolding same
calls-Among = ground arith

-- With a burst of one, the second call within the rate is refused.
answers_run :
    (allow_all (new_rate_limiter rate_limit_rate 1) (hasty 0 ∷ hasty 1 ∷ [])).1 ≡ true ∷ false ∷ []
unfolding allow_all new_rate_limiter same lookup insert take refill allow maybe_cleanup
    cleanup_locked make_room serve_in sub ◌+ℤ◌ quo
answers_run = refl

isolation_example :
    answers_of alice calls (allow_all (new_rate_limiter rate_limit_rate rate_limit_burst) calls).1
    ≡ serve_all rate_limit_rate rate_limit_burst
        (fresh_bucket rate_limit_burst)
        (times_of alice calls)
isolation_example =
    isolation rate_limit_rate rate_limit_burst names calls alice (omega arith) (omega arith)
      (omega arith) calls-Among (omega arith)

rate_bound_example :
    granted (
      answers_of alice calls
        (allow_all (new_rate_limiter rate_limit_rate rate_limit_burst) calls).1)
    ≤ rate_limit_burst + (last_of start later - start) / rate_limit_rate
rate_bound_example =
    rate_bound rate_limit_rate rate_limit_burst names calls alice start later (omega arith)
      (omega arith) (omega arith) (omega arith) calls-Among (omega arith) times_of-alice

starvation_example :
    granted (
      answers_of alice calls
        (allow_all (new_rate_limiter rate_limit_rate rate_limit_burst) calls).1)
    ≤ rate_limit_burst
starvation_example =
    starvation rate_limit_rate rate_limit_burst names calls alice start later (omega arith)
      (omega arith) (omega arith) (omega arith) calls-Among (omega arith) times_of-alice
      (omega arith)

-- Bob asks twice, two seconds apart, and alice in between.
abbrev slow_calls : List (Time × Text)
slow_calls = (start, bob) ∷ (start + second, alice) ∷ (start + 2 * second, bob) ∷ []

times_of-bob : times_of bob slow_calls ≡ start ∷ (start + 2 * second) ∷ []
unfolding same
times_of-bob = refl

slow_calls-Among : Among names slow_calls
unfolding same
slow_calls-Among = ground arith

patience_example : All IsGranted (
    answers_of bob slow_calls
      (allow_all (new_rate_limiter rate_limit_rate rate_limit_burst) slow_calls).1)
patience_example =
    patience rate_limit_rate rate_limit_burst names slow_calls bob start ((start + 2 * second) ∷ [])
      (omega arith) (omega arith) (omega arith) (omega arith) slow_calls-Among (omega arith)
      times_of-bob (omega arith, tt)

abbrev two_calls : List (Time × Text)
two_calls = (start, alice) ∷ (start + second, bob) ∷ []

alice-ne : alice ≢ []
alice-ne e = cc

bob-ne : bob ≢ []
bob-ne e = cc

capacity_example :
    IsBounded (allow_all (new_rate_limiter rate_limit_rate rate_limit_burst) two_calls).0.buckets
capacity_example =
    capacity rate_limit_rate rate_limit_burst two_calls
      ((omega arith, alice-ne), ((omega arith, bob-ne), tt))

abbrev two_buckets : Dict Bucket
two_buckets =
    (alice, record { tokens = pos 3; last = 7 }) ∷ (bob, record { tokens = pos 9; last = 5 }) ∷ []

two_buckets-ne : two_buckets ≢ []
two_buckets-ne e = cc

evict_oldest_locked_example :
    (k : Text) × (b : Bucket) × (lookup k two_buckets ≡ some b)
    × IsEarliest b.last two_buckets
    × (evict_oldest_locked two_buckets ≡ remove k two_buckets)
unfolding lookup same
evict_oldest_locked_example =
    evict_oldest_locked_lem two_buckets two_buckets-ne (refl, (refl, tt))
      ((alice-ne, omega arith), ((bob-ne, omega arith), tt))

allow_all-FitsWord_example :
    All
      (λ (e : Text × Bucket). FitsWord rate_limit_rate rate_limit_burst e.1)
      (allow_all (new_rate_limiter rate_limit_rate rate_limit_burst) calls).0.buckets
allow_all-FitsWord_example =
    allow_all-FitsWord rate_limit_rate rate_limit_burst 0 calls (omega arith) (omega arith)
      (omega arith)
