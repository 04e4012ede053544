-- ===== src/Auth/Callers/Wakeups.antt =====
-- The waits of `key` in internal/auth/jwt.go: which channel a caller waits for, and who closes it.
use mathlib.Core.List.{Memᴰ}
use go_webapp_template.Base.{
  ℕ, ◌≡◌, ◌⊎◌, ◌≤◌, ◌<◌, inl, inr, refl, sym, subst, Option, none, some, List, ◌∷◌, ◌++◌, All,
  All-imp, All-replace, false,
}
use go_webapp_template.Base.Text.{Text}
use go_webapp_template.Base.Time.{Time}
use go_webapp_template.Auth.Jwks.{
  Cache, Turn, answers, unknown, waits, fetches, begin, finish, finish_with, is_throttled,
  jwks_min_refresh_interval,
}
use go_webapp_template.Auth.Jwks.SingleFlight.{IsSafe, single_flight, due_slot_free}
use go_webapp_template.Auth.Jwk.Fetch.{Endpoint, fetch}
use go_webapp_template.Auth.Callers.Turns.{Turns, begin-Turns}
use go_webapp_template.Auth.Callers.Shadow.{seen, fetch_cases, History-seen}
use go_webapp_template.Auth.Callers.{
  Caller, waiting, fetching, closing, reading, returned, crashed, Calls, join_calls, close_slot,
  answering, Move, History,
}

-- The channel of a caller that waits has been closed, or is the one in the slot.
abbrev pub HasChannel : List ℕ → Option ℕ → Caller → Type 0
HasChannel closed slot (waiting kid channel) = Memᴰ channel closed ⊎ (slot ≡ some channel)
HasChannel closed slot (returned kid answer) = Unit
HasChannel closed slot (fetching kid since) = Unit
HasChannel closed slot (closing kid since) = Unit
HasChannel closed slot (reading kid) = Unit
HasChannel closed slot (crashed kid) = Unit

abbrev HaveChannels : Calls → Type 0
HaveChannels s = All (HasChannel s.closed s.cache.fetching) s.callers

-- A slot that is free is nobody's channel, so that it can be claimed.
free-HasChannel :
    (closed : List ℕ) (slot slot' : Option ℕ) (x : Caller)
    → slot ≡ none
    → HasChannel closed slot x
    → HasChannel closed slot' x
free-HasChannel closed slot slot' (waiting kid channel) free (inl done) = inl done
free-HasChannel closed slot slot' (waiting kid channel) free (inr held) = cc
free-HasChannel closed slot slot' (returned kid answer) free h = tt
free-HasChannel closed slot slot' (fetching kid since) free h = tt
free-HasChannel closed slot slot' (closing kid since) free h = tt
free-HasChannel closed slot slot' (reading kid) free h = tt
free-HasChannel closed slot slot' (crashed kid) free h = tt

-- Whoever waits for the channel in the slot is woken when it is closed.
closed-HasChannel :
    (closed : List ℕ) (slot : ℕ) (x : Caller)
    → HasChannel closed (some slot) x
    → HasChannel (slot ∷ closed) none x
closed-HasChannel closed slot (waiting kid channel) (inl done) = inl (Memᴰ.tail done)
closed-HasChannel closed slot (waiting kid channel) (inr held) = inl (Memᴰ.head (cc))
closed-HasChannel closed slot (returned kid answer) h = tt
closed-HasChannel closed slot (fetching kid since) h = tt
closed-HasChannel closed slot (closing kid since) h = tt
closed-HasChannel closed slot (reading kid) h = tt
closed-HasChannel closed slot (crashed kid) h = tt

fetch-fetching :
    (p : Endpoint) (c : Cache) (later : Time) → (fetch p c later).0.fetching ≡ c.fetching
fetch-fetching p c later = elim (fetch_cases p c later) [
  | inl kept ↦ rw kept refl
  | inr (keys, swapped) ↦ rw swapped refl
]

kept-HaveChannels :
    (s : Calls) (x : Caller) (c : Cache)
    → c ≡ s.cache
    → HasChannel s.closed s.cache.fetching x
    → HaveChannels s
    → HaveChannels (record s { cache = c; callers = x ∷ s.callers })
kept-HaveChannels s x c same h v =
    subst (λ d. HaveChannels (record s { cache = d; callers = x ∷ s.callers })) (sym same) (h, v)

join_calls-HaveChannels :
    (read : Time) (kid : Text) (s : Calls) (r : Cache × Turn)
    → Turns kid s.cache read r
    → (is_throttled s.cache read ≡ false → s.cache.fetching ≡ none)
    → HaveChannels s
    → HaveChannels (join_calls read kid s r)
join_calls-HaveChannels read kid s (c, answers key) (same, _) free v =
    kept-HaveChannels s (returned kid (some key)) c same tt v
join_calls-HaveChannels read kid s (c, unknown) same free v =
    kept-HaveChannels s (returned kid none) c same tt v
join_calls-HaveChannels read kid s (c, waits channel) (same, held) free v =
    kept-HaveChannels s (waiting kid channel) c same (inr held) v
join_calls-HaveChannels read kid s (c, fetches) (same, due) free v = (
  tt,
  All-imp (λ x. free-HasChannel s.closed s.cache.fetching c.fetching x (free due)) s.callers v,
)

close_slot-HaveChannels :
    (s : Calls) (kid : Text) (before after : List Caller) (o : Option ℕ)
    → s.cache.fetching ≡ o
    → All (HasChannel s.closed o) (before ++ reading kid ∷ after)
    → HaveChannels (close_slot s kid before after (finish_with s.cache o))
unfolding finish_with
close_slot-HaveChannels s kid before after none e v =
    rw e (All-replace (HasChannel s.closed none) before (reading kid) (crashed kid) after tt v)
close_slot-HaveChannels s kid before after (some channel) e v =
    rw e (All-imp (closed-HasChannel s.closed channel) (before ++ reading kid ∷ after) v)

module _ (p : Endpoint) {limit : ℕ} (pos : 0 < limit)
    (short : limit ≤ jwks_min_refresh_interval) where
  pub History-IsSafe :
      {start : Time} {s : Calls}
      → History p limit start s
      → (attempts : List Time) × IsSafe limit (seen attempts s)
  History-IsSafe h =
      let (attempts, r) = History-seen p limit h in (attempts, single_flight pos short r)

  Move-HaveChannels :
      {s t : Calls}
      → Move p limit s t
      → (attempts : List Time) → IsSafe limit (seen attempts s)
      → HaveChannels s
      → HaveChannels t
  unfolding finish
  Move-HaveChannels (Move.tick now le ok) attempts safe v = v
  Move-HaveChannels {s = s} (Move.call read kid le soon) attempts safe v =
      join_calls-HaveChannels read kid s (begin s.cache read kid) (begin-Turns kid s.cache read)
        (λ due. due_slot_free pos short read (seen attempts s) le due safe) v
  Move-HaveChannels {s = s} (Move.arrive kid since before after e made response) attempts safe v =
      rw (fetch-fetching (answering p made response) s.cache s.now) (
        All-replace (HasChannel s.closed s.cache.fetching) before (fetching kid since)
          (closing kid since) after tt (rw e at v))
  Move-HaveChannels {s = s} (Move.close kid since before after e) attempts safe v =
      close_slot-HaveChannels s kid before after s.cache.fetching refl (
        All-replace (HasChannel s.closed s.cache.fetching) before (closing kid since) (reading kid)
          after tt (rw e at v))
  Move-HaveChannels {s = s} (Move.wake kid channel before after e closed) attempts safe v =
      All-replace (HasChannel s.closed s.cache.fetching) before (waiting kid channel) (reading kid)
        after tt (rw e at v)
  Move-HaveChannels {s = s} (Move.cancel kid channel before after e) attempts safe v =
      All-replace (HasChannel s.closed s.cache.fetching) before (waiting kid channel)
        (returned kid none) after tt (rw e at v)
  Move-HaveChannels {s = s} (Move.answer kid before after e) attempts safe v =
      All-replace (HasChannel s.closed s.cache.fetching) before (reading kid) _ after tt (rw e at v)

  pub History-HaveChannels :
      {start : Time} {s : Calls}
      → History p limit start s
      → All (HasChannel s.closed s.cache.fetching) s.callers
  History-HaveChannels History.here = tt
  History-HaveChannels (History.next h m) =
      let (attempts, safe) = History-IsSafe h in
      Move-HaveChannels m attempts safe (History-HaveChannels h)
