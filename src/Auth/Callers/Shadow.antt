-- ===== src/Auth/Callers/Shadow.antt =====
-- The calls of `key` in internal/auth/jwt.go move as the cache and its flights in Auth.Jwks.System
-- do: what is proved of its interleavings holds of theirs.
use mathlib.Core.Bool.{or-true}
use go_webapp_template.Base.{
  ℕ, ◌≡◌, ◌⊎◌, inl, inr, refl, ap, subst, sym, Bool, true, false, ◌||◌, Option, none, some, List,
  [], ◌∷◌, ◌++◌,
}
use go_webapp_template.Base.Text.{Text}
use go_webapp_template.Base.Dict.{Dict}
use go_webapp_template.Base.Time.{Time}
use go_webapp_template.Auth.Jwks.{
  Cache, PublicKey, Turn, answers, unknown, waits, fetches, begin, swap, finish,
}
use go_webapp_template.Auth.Jwks.System.{
  System, enter, land, tick, call, arrive, finishes, Reach, here, next,
}
use go_webapp_template.Auth.Jwk.Fetch.{Endpoint, fetch, fetch-Takes}
use go_webapp_template.Auth.Jwk.{keys_of}
use go_webapp_template.Auth.Callers.{
  Caller, waiting, fetching, closing, reading, returned, crashed, Calls, join_calls, close_slot,
  in_flight, answering, Move, History,
}

abbrev pub has_crashed : List Caller → Bool
has_crashed [] = false
has_crashed (crashed kid ∷ callers) = true
has_crashed (waiting kid channel ∷ callers) = has_crashed callers
has_crashed (fetching kid since ∷ callers) = has_crashed callers
has_crashed (closing kid since ∷ callers) = has_crashed callers
has_crashed (reading kid ∷ callers) = has_crashed callers
has_crashed (returned kid answer ∷ callers) = has_crashed callers

-- What Auth.Jwks.System keeps of the calls.
abbrev pub seen : List Time → Calls → System
seen attempts s = record {
  cache = s.cache;
  now = s.now;
  flights = in_flight s.callers;
  attempts = attempts;
  panicked = has_crashed s.callers;
}

pub in_flight-append :
    (before after : List Caller) → in_flight (before ++ after) ≡ in_flight before ++ in_flight after
in_flight-append [] after = refl
in_flight-append (fetching kid since ∷ before) after =
    ap (λ l. since ∷ l) (in_flight-append before after)
in_flight-append (closing kid since ∷ before) after =
    ap (λ l. since ∷ l) (in_flight-append before after)
in_flight-append (waiting kid channel ∷ before) after = in_flight-append before after
in_flight-append (reading kid ∷ before) after = in_flight-append before after
in_flight-append (returned kid answer ∷ before) after = in_flight-append before after
in_flight-append (crashed kid ∷ before) after = in_flight-append before after

has_crashed-append :
    (before after : List Caller)
    → has_crashed (before ++ after) ≡ (has_crashed before || has_crashed after)
has_crashed-append [] after = refl
has_crashed-append (fetching kid since ∷ before) after = has_crashed-append before after
has_crashed-append (closing kid since ∷ before) after = has_crashed-append before after
has_crashed-append (waiting kid channel ∷ before) after = has_crashed-append before after
has_crashed-append (reading kid ∷ before) after = has_crashed-append before after
has_crashed-append (returned kid answer ∷ before) after = has_crashed-append before after
has_crashed-append (crashed kid ∷ before) after = refl

-- A caller that moves on without a claim, a close or a panic changes nothing that is seen.
seen_alike :
    (attempts : List Time) (s : Calls) (before after : List Caller) (x y : Caller)
    → s.callers ≡ before ++ x ∷ after
    → in_flight (y ∷ after) ≡ in_flight (x ∷ after)
    → has_crashed (y ∷ after) ≡ has_crashed (x ∷ after)
    → seen attempts (record s { callers = before ++ y ∷ after }) ≡ seen attempts s
seen_alike attempts s before after x y e flights crashes =
    rw
      (
        e,
        in_flight-append before (y ∷ after),
        in_flight-append before (x ∷ after),
        has_crashed-append before (y ∷ after),
        has_crashed-append before (x ∷ after),
        flights,
        crashes,
      )
      refl

-- A flight that is there is a flight that is seen.
flight_seen :
    (callers before after : List Caller) (x : Caller) (since : Time)
    → callers ≡ before ++ x ∷ after
    → in_flight (x ∷ after) ≡ since ∷ in_flight after
    → in_flight callers ≡ in_flight before ++ since ∷ in_flight after
flight_seen callers before after x since e flights =
    rw (e, in_flight-append before (x ∷ after), flights) refl

-- The fetch leaves the cache as it is, or swaps it.
pub fetch_cases :
    (p : Endpoint) (c : Cache) (later : Time)
    → ((fetch p c later).0 ≡ c)
      ⊎ ((keys : Dict PublicKey) × ((fetch p c later).0 ≡ swap c later keys))
fetch_cases p c later = elim (fetch-Takes p c later) [
  | inl (kept, _, _) ↦ inl kept
  | inr (_, entries, _, swapped, _) ↦ inr (keys_of p.decode p.parse_point entries [], swapped)
]

entered :
    (attempts : List Time) (read : Time) (kid : Text) (s : Calls) (r : Cache × Turn)
    → (attempts' : List Time) × (enter read (seen attempts s) r
        ≡ seen attempts' (join_calls read kid s r))
entered attempts read kid s (c, answers key) = (attempts, refl)
entered attempts read kid s (c, unknown) = (attempts, refl)
entered attempts read kid s (c, waits channel) = (attempts, refl)
entered attempts read kid s (c, fetches) = (read ∷ attempts, refl)

landed :
    (attempts : List Time) (s : Calls) (kid : Text) (since : Time) (before after : List Caller)
    → s.callers ≡ before ++ closing kid since ∷ after
    → (o : Option Cache)
    → land (seen attempts s) (in_flight before ++ in_flight after) o
      ≡ seen attempts (close_slot s kid before after o)
landed attempts s kid since before after e none =
    rw
      (
        in_flight-append before (crashed kid ∷ after),
        has_crashed-append before (crashed kid ∷ after),
      )
      (rw or-true refl)
landed attempts s kid since before after e (some c) =
    rw
      (
        e,
        in_flight-append before (reading kid ∷ after),
        has_crashed-append before (reading kid ∷ after),
        has_crashed-append before (closing kid since ∷ after),
      )
      refl

Move-seen :
    (p : Endpoint) (limit : ℕ) {start : Time} {s t : Calls} (attempts : List Time)
    → Move p limit s t
    → Reach limit start (seen attempts s)
    → (attempts' : List Time) × Reach limit start (seen attempts' t)
Move-seen p limit attempts (Move.tick now le ok) r = (attempts, next r (tick now le ok))
Move-seen p limit {start} {s} attempts (Move.call read kid le soon) r =
    let (attempts', e) = entered attempts read kid s (begin s.cache read kid) in
    (attempts', subst (Reach limit start) e (next r (call read kid le soon)))
Move-seen p limit {start} {s} attempts (Move.arrive kid since before after e made response) r =
    let s' = record s { callers = before ++ closing kid since ∷ after } in
    let moved : Reach limit start (seen attempts s') =
      subst (Reach limit start)
        (sym
          (seen_alike attempts s before after (fetching kid since) (closing kid since) e refl refl))
        r in
    let flight = flight_seen s'.callers before after (closing kid since) since refl refl in
    (
      attempts,
      elim (fetch_cases (answering p made response) s.cache s.now) [
        | inl kept ↦
            subst (λ c. Reach limit start (seen attempts (record s' { cache = c }))) (sym kept)
              moved
        | inr (keys, swapped) ↦
            subst (λ c. Reach limit start (seen attempts (record s' { cache = c }))) (sym swapped)
              (next moved (arrive since (in_flight before) (in_flight after) flight keys))
      ],
    )
Move-seen p limit {start} {s} attempts (Move.close kid since before after e) r = (
  attempts,
  subst (Reach limit start) (landed attempts s kid since before after e (finish s.cache)) (
      next r (
        finishes since (in_flight before) (in_flight after)
          (flight_seen s.callers before after (closing kid since) since e refl))),
)
Move-seen p limit {start} {s} attempts (Move.wake kid channel before after e closed) r = (
  attempts,
  subst (Reach limit start)
      (sym (seen_alike attempts s before after (waiting kid channel) (reading kid) e refl refl)) r,
)
Move-seen p limit {start} {s} attempts (Move.cancel kid channel before after e) r = (
  attempts,
  subst (Reach limit start)
      (sym
        (seen_alike attempts s before after (waiting kid channel) (returned kid none) e refl refl))
      r,
)
Move-seen p limit {start} {s} attempts (Move.answer kid before after e) r = (
  attempts,
  subst (Reach limit start) (sym (seen_alike attempts s before after (reading kid) _ e refl refl))
      r,
)

-- In every history of the calls, what is seen of them can be reached in Auth.Jwks.System.
pub History-seen :
    (p : Endpoint) (limit : ℕ) {start : Time} {s : Calls}
    → History p limit start s
    → (attempts : List Time) × Reach limit start (seen attempts s)
History-seen p limit History.here = ([], here)
History-seen p limit (History.next h m) =
    let (attempts, r) = History-seen p limit h in Move-seen p limit attempts m r
