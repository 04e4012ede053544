-- ===== src/Auth/Callers/Completion.antt =====
-- Every call of `key` in internal/auth/jwt.go comes to its end: no call waits for ever.
use mathlib.Core.List.{Memᴰ}
use go_webapp_template.Base.{
  ℕ, zero, suc, ◌+◌, ◌≡◌, ◌⊎◌, ◌≤◌, ◌<◌, inl, inr, refl, ◌∙◌, Option, none, some, List, ◌∷◌, ◌++◌,
  map, All, Bool, true, arith,
}
use go_webapp_template.Base.Text.{Text}
use go_webapp_template.Base.Time.{Time}
use go_webapp_template.Auth.Jwks.{Cache, finish, jwks_min_refresh_interval}
use go_webapp_template.Auth.Jwk.Fetch.{Endpoint, Response}
use go_webapp_template.Auth.Callers.Shadow.{seen}
use go_webapp_template.Auth.Callers.Wakeups.{HasChannel, History-IsSafe, History-HaveChannels}
use go_webapp_template.Auth.Callers.Progress.{
  weights, weights-less, key_id, key_ids-same, is_active, is_waiting, IsReturned, find_split,
  no_flights, quiet-AllReturned, free_slot, waiting_closed, All-at,
}
use go_webapp_template.Auth.Callers.{
  Caller, waiting, fetching, closing, reading, returned, crashed, Calls, close_slot, Move, History,
}

module _ (p : Endpoint) {limit : ℕ} (pos : 0 < limit) (short : limit ≤ jwks_min_refresh_interval)
    (made : Bool) (response : Option Response) where
  -- A move that nobody else has to make: no time passes, no call is new, no wait is given up, and
  -- the address of the key set answers with `made` and `response`.
  abbrev pub IsOwn : {s t : Calls} → Move p limit s t → Type 0
  IsOwn (Move.tick now le ok) = ⊥
  IsOwn (Move.call read kid le soon) = ⊥
  IsOwn (Move.arrive kid since before after e made' response') =
      (made' ≡ made) × (response' ≡ response)
  IsOwn (Move.close kid since before after e) = Unit
  IsOwn (Move.wake kid channel before after e closed) = Unit
  IsOwn (Move.cancel kid channel before after e) = ⊥
  IsOwn (Move.answer kid before after e) = Unit

  pub data Run : Calls → Calls → Type 0 where
    done : {s : Calls} → Run s s
    move : {s t u : Calls} (m : Move p limit s t) → IsOwn m → Run t u → Run s u

  record Advance (s : Calls) : Type 0 where
    after : Calls
    move : Move p limit s after
    own : IsOwn move
    fewer : weights after.callers < weights s.callers
    same_ids : map key_id after.callers ≡ map key_id s.callers
    same_now : after.now ≡ s.now

  advance :
      {s t : Calls} (m : Move p limit s t)
      → IsOwn m
      → weights t.callers < weights s.callers
      → map key_id t.callers ≡ map key_id s.callers
      → t.now ≡ s.now
      → Advance s
  advance {t = t} m own fewer same_ids same_now = record {
    after = t;
    move = m;
    own = own;
    fewer = fewer;
    same_ids = same_ids;
    same_now = same_now;
  }

  closes :
      (s : Calls) (kid : Text) (since : Time) (before after : List Caller)
      → s.callers ≡ before ++ closing kid since ∷ after
      → (o : Option Cache)
      → let t = close_slot s kid before after o in
        (weights t.callers < weights s.callers)
        × (map key_id t.callers ≡ map key_id s.callers)
        × (t.now ≡ s.now)
  closes s kid since before after e none = rw e (
    weights-less before after (closing kid since) (crashed kid) (omega arith),
    key_ids-same before after (closing kid since) (crashed kid) refl,
    refl,
  )
  closes s kid since before after e (some c) = rw e (
    weights-less before after (closing kid since) (reading kid) (omega arith),
    key_ids-same before after (closing kid since) (reading kid) refl,
    refl,
  )

  active_advances :
      (s : Calls) (before : List Caller) (x : Caller) (after : List Caller)
      → s.callers ≡ before ++ x ∷ after
      → is_active x ≡ true
      → Advance s
  active_advances s before (fetching kid since) after e a =
      advance (Move.arrive kid since before after e made response) (refl, refl)
        (rw e (weights-less before after (fetching kid since) (closing kid since) (omega arith)))
        (rw e (key_ids-same before after (fetching kid since) (closing kid since) refl)) refl
  active_advances s before (closing kid since) after e a =
      let (fewer, same_ids, same_now) = closes s kid since before after e (finish s.cache) in
      advance (Move.close kid since before after e) tt fewer same_ids same_now
  active_advances s before (reading kid) after e a =
      advance (Move.answer kid before after e) tt
        (rw e (weights-less before after (reading kid) (returned kid _) (omega arith)))
        (rw e (key_ids-same before after (reading kid) (returned kid _) refl)) refl
  active_advances s before (waiting kid channel) after e a = cc
  active_advances s before (returned kid answer) after e a = cc
  active_advances s before (crashed kid) after e a = cc

  wakes :
      (s : Calls) (before : List Caller) (x : Caller) (after : List Caller)
      → s.callers ≡ before ++ x ∷ after
      → (kid : Text) (channel : ℕ) → x ≡ waiting kid channel
      → Memᴰ channel s.closed
      → Advance s
  wakes s before x after e kid channel same closed =
      let e' : s.callers ≡ before ++ waiting kid channel ∷ after = rw same at e in
      advance (Move.wake kid channel before after e' closed) tt
        (rw e' (weights-less before after (waiting kid channel) (reading kid) (omega arith)))
        (rw e' (key_ids-same before after (waiting kid channel) (reading kid) refl)) refl

  advances :
      {start : Time} (s : Calls) → History p limit start s → All IsReturned s.callers ⊎ Advance s
  advances s h = elim (find_split is_active s.callers) [
    | inl (before, x, after, e, active) ↦ inr (active_advances s before x after e active)
    | inr passive ↦
        let (attempts, safe) = History-IsSafe p pos short h in
        let free = free_slot (seen attempts s) (no_flights s.callers passive) safe in
        let channels : All (HasChannel s.closed none) s.callers =
          rw free at (History-HaveChannels p pos short h) in
        elim (find_split is_waiting s.callers) [
          | inl (before, x, after, e, waits) ↦
              let (kid, channel, same, closed) =
                waiting_closed s.closed x waits
                  (All-at (HasChannel s.closed none) before x after (rw e at channels)) in
              inr (wakes s before x after e kid channel same closed)
          | inr quiet ↦ inl (quiet-AllReturned s.callers passive quiet safe.calm)
        ]
  ]

  -- The calls of `s` have all returned, by moves of their own.
  pub record Completes (s : Calls) : Type 0 where
    pub last : Calls
    pub run : Run s last
    pub all_returned : All IsReturned last.callers
    pub same_ids : map key_id last.callers ≡ map key_id s.callers
    pub same_now : last.now ≡ s.now

  complete :
      {start : Time} (n : ℕ) (s : Calls)
      → weights s.callers < n
      → History p limit start s
      → Completes s
  complete zero s fuel h = absurd (omega arith)
  complete (suc n) s fuel h = elim (advances s h) [
    | inl end ↦ record {
      last = s;
      run = Run.done;
      all_returned = end;
      same_ids = refl;
      same_now = refl;
    }
    | inr a ↦
        let r = complete n a.after (omega (arith, a.fewer)) (History.next h a.move) in
        record {
          last = r.last;
          run = Run.move a.move a.own r.run;
          all_returned = r.all_returned;
          same_ids = r.same_ids ∙ a.same_ids;
          same_now = r.same_now ∙ a.same_now;
        }
  ]

  -- If a call takes the lock, and closes the channel of its fetch, in less than
  -- `jwksMinRefreshInterval` from its reading of the clock: from every state that the calls of
  -- `key` can come to, and whatever the address of the key set answers, they can all go on to their
  -- return, none of them given up, without time passing or a new call. So none waits for a channel
  -- that nobody closes.
  pub History-Completes : {start : Time} {s : Calls} → History p limit start s → Completes s
  History-Completes {s = s} h = complete (weights s.callers + 1) s (omega arith) h
