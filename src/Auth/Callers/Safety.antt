-- ===== src/Auth/Callers/Safety.antt =====
-- The keys that internal/auth/jwt.go hands to the verification of tokens, whatever the goroutines
-- do and whatever the address of the key set answers them.
use go_webapp_template.Base.{
  ℕ, ◌≡◌, ◌≢◌, refl, inl, inr, Option, none, some, List, [], ◌∷◌, ◌++◌, All, All-replace, Bool,
}
use go_webapp_template.Base.Text.{Text}
use go_webapp_template.Base.Dict.{Dict, lookup, All-lookup}
use go_webapp_template.Base.Time.{Time}
use go_webapp_template.Auth.Jwks.{
  Cache, PublicKey, Turn, answers, unknown, waits, fetches, begin, finish, finish_with,
}
use go_webapp_template.Auth.Jwk.Strength.{IsBytes, IsStrong}
use go_webapp_template.Auth.Jwk.Fetch.{Endpoint, Response, fetch, fetch-Replaces}
use go_webapp_template.Auth.Callers.Turns.{Turns, begin-Turns}
use go_webapp_template.Auth.Callers.{
  Caller, waiting, fetching, closing, reading, returned, crashed, Calls, join_calls, close_slot,
  answering, Move, History,
}

module _ (p : Endpoint) where
  abbrev IsSafeEntry : Text × PublicKey → Type 0
  IsSafeEntry (kid, key) = (kid ≢ []) × IsStrong p.parse_point key

  -- The key that a call has returned, if it has one, is strong, and its key id is not empty.
  abbrev pub IsServed : Caller → Type 0
  IsServed (returned kid (some key)) = (kid ≢ []) × IsStrong p.parse_point key
  IsServed (returned kid none) = Unit
  IsServed (waiting kid channel) = Unit
  IsServed (fetching kid since) = Unit
  IsServed (closing kid since) = Unit
  IsServed (reading kid) = Unit
  IsServed (crashed kid) = Unit

  record IsSound (s : Calls) : Type 0 where
    cached : All IsSafeEntry s.cache.keys
    served : All IsServed s.callers

  lookup-IsServed :
      (kid : Text) (keys : Dict PublicKey) (o : Option PublicKey)
      → lookup kid keys ≡ o
      → All IsSafeEntry keys
      → IsServed (returned kid o)
  lookup-IsServed kid keys none e h = tt
  lookup-IsServed kid keys (some key) e h = All-lookup IsSafeEntry kid key keys h e

  join_calls-IsSound :
      (read : Time) (kid : Text) (s : Calls) (r : Cache × Turn)
      → Turns kid s.cache read r
      → IsSound s
      → IsSound (join_calls read kid s r)
  join_calls-IsSound read kid s (c, answers key) (same, found) v = record {
    cached = rw same v.cached;
    served = (lookup-IsServed kid s.cache.keys (some key) found v.cached, v.served);
  }
  join_calls-IsSound read kid s (c, unknown) same v = record {
    cached = rw same v.cached;
    served = (tt, v.served);
  }
  join_calls-IsSound read kid s (c, waits channel) (same, _) v = record {
    cached = rw same v.cached;
    served = (tt, v.served);
  }
  join_calls-IsSound read kid s (c, fetches) (same, _) v = record {
    cached = rw same v.cached;
    served = (tt, v.served);
  }

  close_slot-IsSound :
      (s : Calls) (kid : Text) (before after : List Caller) (o : Option ℕ)
      → All IsServed (before ++ reading kid ∷ after)
      → IsSound s
      → IsSound (close_slot s kid before after (finish_with s.cache o))
  unfolding finish_with
  close_slot-IsSound s kid before after none served v = record {
    cached = v.cached;
    served = All-replace IsServed before (reading kid) (crashed kid) after tt served;
  }
  close_slot-IsSound s kid before after (some channel) served v = record {
    cached = v.cached;
    served = served;
  }

  module _ (bytes : (s bs : Text) → p.decode s ≡ some bs → IsBytes bs) where
    fetch-cached :
        (c : Cache) (later : Time) (made : Bool) (response : Option Response)
        → All IsSafeEntry c.keys
        → All IsSafeEntry (fetch (answering p made response) c later).0.keys
    fetch-cached c later made response h =
        elim (fetch-Replaces (answering p made response) c later bytes) [
          | inl (kept, _, _) ↦ rw kept h
          | inr (_, safe, _) ↦ safe
        ]

    Move-IsSound : {limit : ℕ} {s t : Calls} → Move p limit s t → IsSound s → IsSound t
    unfolding finish
    Move-IsSound (Move.tick now le ok) v = record { cached = v.cached; served = v.served }
    Move-IsSound {s = s} (Move.call read kid le soon) v =
        join_calls-IsSound read kid s (begin s.cache read kid) (begin-Turns kid s.cache read) v
    Move-IsSound {s = s} (Move.arrive kid since before after e made response) v = record {
      cached = fetch-cached s.cache s.now made response v.cached;
      served =
          All-replace IsServed before (fetching kid since) (closing kid since) after tt
            (rw e at v.served);
    }
    Move-IsSound {s = s} (Move.close kid since before after e) v =
        close_slot-IsSound s kid before after s.cache.fetching
          (All-replace IsServed before (closing kid since) (reading kid) after tt
            (rw e at v.served))
          v
    Move-IsSound (Move.wake kid channel before after e closed) v = record {
      cached = v.cached;
      served =
          All-replace IsServed before (waiting kid channel) (reading kid) after tt
            (rw e at v.served);
    }
    Move-IsSound (Move.cancel kid channel before after e) v = record {
      cached = v.cached;
      served =
          All-replace IsServed before (waiting kid channel) (returned kid none) after tt
            (rw e at v.served);
    }
    Move-IsSound {s = s} (Move.answer kid before after e) v = record {
      cached = v.cached;
      served =
          All-replace IsServed before (reading kid) _ after
            (lookup-IsServed kid s.cache.keys _ refl v.cached) (rw e at v.served);
    }

    History-IsSound : {limit : ℕ} {start : Time} {s : Calls} → History p limit start s → IsSound s
    History-IsSound History.here = record { cached = tt; served = tt }
    History-IsSound (History.next h m) = Move-IsSound m (History-IsSound h)

    -- Where decoded base64 consists of bytes: in every interleaving of calls of `key`, whatever the
    -- address of the key set answers each fetch, however long the fetches take and whichever waits
    -- are given up, a key that a call has returned is strong and has a key id that is not empty.
    pub calls-AllServed :
        {limit : ℕ} {start : Time} {s : Calls} → History p limit start s → All IsServed s.callers
    calls-AllServed h = (History-IsSound h).served
