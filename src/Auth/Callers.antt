-- ===== src/Auth/Callers.antt =====
-- Goroutines that run `key` of internal/auth/jwt.go, each with the place it has come to: the calls
-- of one `jwksClient`, with their fetches, waits and answers, in any interleaving.
pub mod Shadow
pub mod Turns
pub mod Safety
pub mod Wakeups
pub mod Progress
pub mod Completion
use go_webapp_template.Base.{
  ◌+◌, ◌≤◌, ◌<◌, ◌≡◌, ℕ, Bool, true, false, Option, none, some, List, [], ◌∷◌, ◌++◌, All,
}
use go_webapp_template.Base.Text.{Text}
use go_webapp_template.Base.Dict.{lookup}
use go_webapp_template.Base.Time.{Time}
use go_webapp_template.Auth.Jwks.{
  Cache, PublicKey, new_jwks_client, Turn, answers, unknown, waits, fetches, begin, finish,
}
use go_webapp_template.Auth.Jwk.Fetch.{Endpoint, Response, fetch}
use mathlib.Core.List.{Memᴰ}

-- A call of `key`, by the place it has come to: it waits for a channel, its fetch is under way, its
-- fetch has returned and the channel is still open, the channel is closed and the answer is still
-- to be read, it has returned, or it has panicked.
pub data Caller : Type 0 where
  waiting : (kid : Text) (channel : ℕ) → Caller
  fetching closing : (kid : Text) (since : Time) → Caller
  reading : (kid : Text) → Caller
  returned : (kid : Text) (answer : Option PublicKey) → Caller
  crashed : (kid : Text) → Caller

-- `closed` are the channels that have been closed.
pub record Calls : Type 0 where
  pub cache : Cache
  pub now : Time
  pub callers : List Caller
  pub closed : List ℕ

abbrev pub no_calls : Time → Calls
no_calls now = record { cache = new_jwks_client; now = now; callers = []; closed = [] }

-- Where the first section of `key` leaves the call.
abbrev pub begun : Text → Time → Turn → Caller
begun kid read (answers key) = returned kid (some key)
begun kid read unknown = returned kid none
begun kid read (waits channel) = waiting kid channel
begun kid read fetches = fetching kid read

abbrev pub join_calls : Time → Text → Calls → Cache × Turn → Calls
join_calls read kid s (c, turn) = record s { cache = c; callers = begun kid read turn ∷ s.callers }

abbrev pub add_closed : Option ℕ → List ℕ → List ℕ
add_closed none closed = closed
add_closed (some channel) closed = channel ∷ closed

-- `close(c.fetching); c.fetching = nil`, of the caller between `before` and `after`.
abbrev pub close_slot : Calls → Text → List Caller → List Caller → Option Cache → Calls
close_slot s kid before after none = record s { callers = before ++ crashed kid ∷ after }
close_slot s kid before after (some c) = record s {
  cache = c;
  callers = before ++ reading kid ∷ after;
  closed = add_closed s.cache.fetching s.closed;
}

-- The readings of the clock of the calls whose fetches are under way, from the claim to the close.
abbrev pub in_flight : List Caller → List Time
in_flight [] = []
in_flight (fetching kid since ∷ callers) = since ∷ in_flight callers
in_flight (closing kid since ∷ callers) = since ∷ in_flight callers
in_flight (waiting kid channel ∷ callers) = in_flight callers
in_flight (reading kid ∷ callers) = in_flight callers
in_flight (returned kid answer ∷ callers) = in_flight callers
in_flight (crashed kid ∷ callers) = in_flight callers

abbrev pub answering : Endpoint → Bool → Option Response → Endpoint
answering p made response = record p { makes_request = made; response = response }

-- The decoders are those of `p`; what the address of the key set answers differs from fetch to
-- fetch. A call takes the lock, and closes the
-- channel of its fetch, in less than `limit` from its reading of the clock.
module _ (p : Endpoint) (limit : ℕ) where
  pub data Move (s : Calls) : Calls → Type 0 where
    tick :
        (now : Time)
        → s.now ≤ now
        → All (λ t. now < t + limit) (in_flight s.callers)
        → Move s (record s { now = now })
    call :
        (read : Time) (kid : Text)
        → read ≤ s.now
        → s.now < read + limit
        → Move s (join_calls read kid s (begin s.cache read kid))
    arrive :
        (kid : Text) (since : Time) (before after : List Caller)
        → s.callers ≡ before ++ fetching kid since ∷ after
        → (made : Bool) (response : Option Response)
        → Move s (record s {
          cache = (fetch (answering p made response) s.cache s.now).0;
          callers = before ++ closing kid since ∷ after;
        })
    close :
        (kid : Text) (since : Time) (before after : List Caller)
        → s.callers ≡ before ++ closing kid since ∷ after
        → Move s (close_slot s kid before after (finish s.cache))
    wake :
        (kid : Text) (channel : ℕ) (before after : List Caller)
        → s.callers ≡ before ++ waiting kid channel ∷ after
        → Memᴰ channel s.closed
        → Move s (record s { callers = before ++ reading kid ∷ after })
    cancel :
        (kid : Text) (channel : ℕ) (before after : List Caller)
        → s.callers ≡ before ++ waiting kid channel ∷ after
        → Move s (record s { callers = before ++ returned kid none ∷ after })
    answer :
        (kid : Text) (before after : List Caller)
        → s.callers ≡ before ++ reading kid ∷ after
        → Move s (record s { callers = before ++ returned kid (lookup kid s.cache.keys) ∷ after })

  pub data History (start : Time) : Calls → Type 0 where
    here : History start (no_calls start)
    next : {s t : Calls} → History start s → Move s t → History start t
