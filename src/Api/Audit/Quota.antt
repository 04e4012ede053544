-- ===== src/Api/Audit/Quota.antt =====
-- How many entries one caller can change through the handler of internal/api/routes.go over time.
use go_webapp_template.Base.{
  ℕ, ◌+◌, ◌-◌, ◌*◌, ◌/◌, ◌≤◌, ◌<◌, ◌≡◌, inl, inr, refl, sym, subst, true, Bool, List, [], ◌∷◌, ◌++◌,
  arith, length, All, if◌then◌else◌,
}
use go_webapp_template.Base.Text.{Text, same}
use go_webapp_template.Base.Known.{occurs}
use go_webapp_template.Base.Time.{Time}
use go_webapp_template.Http.{Request}
use go_webapp_template.Auth.Principal.{Principal}
use go_webapp_template.RateLimit.{
  rate_limit_max_buckets, rate_limit_bucket_ttl, new_rate_limiter, allow, allow_all, RateLimiter,
}
use go_webapp_template.RateLimit.Isolation.{times_of, answers_of, IsChronological, Among, isolation}
use go_webapp_template.RateLimit.Throughput.{
  granted, IsOrdered, last_of, times_of-IsOrdered, rate_bound,
}
use go_webapp_template.RateLimit.Tokens.{div_mono}
use go_webapp_template.Api.Env.{Env, ok, World, Io, LogLine}
use go_webapp_template.Api.Routes.{routes}
use go_webapp_template.Api.Serving.{Incoming, begin_io, serve_all}
use go_webapp_template.Api.Audit.{changes, Audit, Tried}
use go_webapp_template.Api.Audit.Chain.{routes-Audit}

abbrev count_of : Text → List (Text × Text) → ℕ
count_of s [] = 0
count_of s ((subject, key) ∷ pairs) = (if same subject s then 1 else 0) + count_of s pairs

-- How many audit lines name the subject.
abbrev pub changes_by : Text → List LogLine → ℕ
changes_by s lines = count_of s (changes lines)

count_of-append :
    (s : Text) (pairs more : List (Text × Text))
    → count_of s (pairs ++ more) ≡ count_of s pairs + count_of s more
count_of-append s [] more = omega arith
count_of-append s ((subject, key) ∷ pairs) more = omega (arith, count_of-append s pairs more)

-- The clock's readings of the requests are in order, from `start` to `stop`.
abbrev pub IsWithin : Time → Time → List Incoming → Type 0
IsWithin start stop [] = start ≤ stop
IsWithin start stop (r ∷ rs) = (start ≤ r.now) × IsWithin r.now stop rs

IsWithin-le : (start stop : Time) (rs : List Incoming) → IsWithin start stop rs → start ≤ stop
IsWithin-le start stop [] h = h
IsWithin-le start stop (r ∷ rs) (le, h) = omega (arith, IsWithin-le r.now stop rs h)

IsChronological-weaken :
    (a b : Time) (calls : List (Time × Text))
    → a ≤ b
    → IsChronological b calls
    → IsChronological a calls
IsChronological-weaken a b [] le h = tt
IsChronological-weaken a b ((now, j) ∷ calls) le (le', h) = (omega arith, h)

-- One call more.
granted-call :
    (s : Text) (now : Time) (j : Text) (calls : List (Time × Text)) (rl : RateLimiter)
    → granted (answers_of s ((now, j) ∷ calls) (allow_all rl ((now, j) ∷ calls)).1)
      ≡ (if same j s then (if (allow rl now j).1 then 1 else 0) else 0)
        + granted (answers_of s calls (allow_all (allow rl now j).0 calls).1)
unfolding allow_all
granted-call s now j calls rl = ground arith

times_of-All :
    (s : Text) (stop : Time) (calls : List (Time × Text))
    → All (λ c. c.0 ≤ stop) calls
    → All (λ t. t ≤ stop) (times_of s calls)
times_of-All s stop [] h = tt
times_of-All s stop ((now, j) ∷ calls) (h, hs) = ground (arith, times_of-All s stop calls hs)

last_of-le :
    (stop first : Time) (times : List Time)
    → All (λ t. t ≤ stop) (first ∷ times)
    → last_of first times ≤ stop
last_of-le stop first [] (h, hs) = h
last_of-le stop first (t ∷ times) (h, hs) = last_of-le stop t times hs

-- The calls of the limiter within a time, from a new limiter: how many are granted to a subject.
granted-within :
    (rate burst : ℕ) (names : List Text) (calls : List (Time × Text)) (s : Text) (start stop : Time)
    → 0 < rate
    → 0 < burst
    → burst * rate ≤ rate_limit_bucket_ttl
    → length names ≤ rate_limit_max_buckets
    → Among names calls
    → IsChronological start calls
    → All (λ c. c.0 ≤ stop) calls
    → (times : List Time) → times_of s calls ≡ times
    → granted (answers_of s calls (allow_all (new_rate_limiter rate burst) calls).1)
      ≤ burst + (stop - start) / rate
granted-within rate burst names calls s start stop rate_pos burst_pos fits few among ordered in_time
      [] e =
    let ordered' = IsChronological-weaken 0 start calls (omega arith) ordered in
    rw (isolation rate burst names calls s rate_pos fits few among ordered', e) (omega arith)
granted-within rate burst names calls s start stop rate_pos burst_pos fits few among ordered in_time
      (first ∷ times) e =
    let ordered' = IsChronological-weaken 0 start calls (omega arith) ordered in
    let bound =
      rate_bound rate burst names calls s first times rate_pos burst_pos fits few among ordered'
        e in
    let from_start : IsOrdered start (first ∷ times) =
      rw e at (times_of-IsOrdered start s calls ordered) in
    let to_stop : All (λ t. t ≤ stop) (first ∷ times) =
      rw e at (times_of-All s stop calls in_time) in
    let last = last_of-le stop first times to_stop in
    let (after_start, _) = from_start in
    let span = div_mono (last_of first times - first) (stop - start) rate rate_pos (omega arith) in
    omega arith

module _ {e : Env} (names : List Text)
    (known : (seen : Request) (now : Time) (auth : e.Auth) (p : Principal)
      → (e.authenticate seen now auth).0 ≡ ok p
      → occurs p.subject names ≡ true)
    (s : Text) where
  -- The calls of the limiter that requests have made, and the audit lines that they have left.
  record Traced (start stop : Time) (w w' : World e) : Type 0 where
    calls : List (Time × Text)
    ordered : IsChronological start calls
    among : Among names calls
    in_time : All (λ c. c.0 ≤ stop) calls
    counted :
        changes_by s w'.logs
        ≤ changes_by s w.logs + granted (answers_of s calls (allow_all w.limiter calls).1)

  -- One call leaves an audit line only if it is granted.
  Tried-changes_by :
      (w w' : World e) (now : Time) (j : Text)
      → Tried w now j w'
      → changes_by s w'.logs
        ≤ changes_by s w.logs
          + (if same j s then (if (allow w.limiter now j).1 then 1 else 0) else 0)
  Tried-changes_by w w' now j (limiter, inl (db, lines)) = rw lines (omega arith)
  Tried-changes_by w w' now j (limiter, inr (granted, (key, value, set, lines))) =
      rw (lines, granted) (omega (arith, count_of-append s (changes w.logs) ((j, key) ∷ [])))

  extend :
      (io : Io e) (start stop : Time) (w w' : World e)
      → start ≤ io.now
      → io.now ≤ stop
      → Audit io w
      → Traced io.now stop w w'
      → Traced start stop io.world w'
  extend io start stop w w' le in_time (inl (limiter, (db, lines))) t = record {
    calls = t.calls;
    ordered = IsChronological-weaken start io.now t.calls le t.ordered;
    among = t.among;
    in_time = t.in_time;
    counted = rw (← limiter, ← lines) t.counted;
  }
  extend io start stop w w' le in_time (inr (p, seen, found, (limiter, out))) t = record {
    calls = (io.now, p.subject) ∷ t.calls;
    ordered = (le, t.ordered);
    among = (known seen io.now io.world.auth p found, t.among);
    in_time = (in_time, t.in_time);
    counted =
        let one = Tried-changes_by io.world w io.now p.subject (limiter, out) in
        let call = granted-call s io.now p.subject t.calls io.world.limiter in
        let rest = rw limiter at t.counted in omega arith;
  }

  serve_all-Traced :
      (disable_hsts : Bool) (start stop : Time) (w : World e) (rs : List Incoming)
      → IsWithin start stop rs
      → Traced start stop w (serve_all disable_hsts w rs)
  unfolding serve_all
  serve_all-Traced disable_hsts start stop w [] h = record {
    calls = [];
    ordered = tt;
    among = tt;
    in_time = tt;
    counted = omega arith;
  }
  serve_all-Traced disable_hsts start stop w (r ∷ rs) (le, h) =
      let io = begin_io w r in
      let w' = (routes disable_hsts io).world in
      extend io start stop w' (serve_all disable_hsts w' rs) le (IsWithin-le r.now stop rs h)
        (routes-Audit disable_hsts io) (serve_all-Traced disable_hsts r.now stop w' rs h)

-- If a bucket refills within the time after which it is swept, the provider authenticates no more
-- than `rateLimitMaxBuckets` subjects, the limiter is a new one, and the clock's readings of the
-- requests are in order from `start` to `stop`: whatever the requests that the handler of `Routes`
-- serves one after the other, the audit lines that they add for a subject are at most the burst
-- and one for each full `rate` of that time.
pub changes_by-le :
    {e : Env} (disable_hsts : Bool) (rate burst : ℕ) (names : List Text) (start stop : Time)
    (w : World e) (rs : List Incoming) (s : Text)
    → 0 < rate
    → 0 < burst
    → burst * rate ≤ rate_limit_bucket_ttl
    → length names ≤ rate_limit_max_buckets
    → ((seen : Request) (now : Time) (auth : e.Auth) (p : Principal)
        → (e.authenticate seen now auth).0 ≡ ok p
        → occurs p.subject names ≡ true)
    → w.limiter ≡ new_rate_limiter rate burst
    → IsWithin start stop rs
    → changes_by s (serve_all disable_hsts w rs).logs
      ≤ changes_by s w.logs + (burst + (stop - start) / rate)
changes_by-le {e = e} disable_hsts rate burst names start stop w rs s rate_pos burst_pos fits few
      known new h =
    let t = serve_all-Traced {e = e} names known s disable_hsts start stop w rs h in
    let bound =
      granted-within rate burst names t.calls s start stop rate_pos burst_pos fits few t.among
        t.ordered t.in_time (times_of s t.calls) refl in
    let few_granted =
      subst
        (λ rl.
          granted (answers_of s t.calls (allow_all rl t.calls).1) ≤ burst + (stop - start) / rate)
        (sym new) bound in
    omega (arith, few_granted, t.counted)
