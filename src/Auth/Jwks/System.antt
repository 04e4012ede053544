-- ===== src/Auth/Jwks/System.antt =====
-- Goroutines that share one `jwksClient`, as a step relation.
use go_webapp_template.Base.{
  ℕ, ◌+◌, ◌≤◌, ◌<◌, ◌≡◌, Bool, true, false, Option, none, some, List, [], ◌∷◌, ◌++◌, All,
}
use go_webapp_template.Base.Text.{Text}
use go_webapp_template.Base.Dict.{Dict}
use go_webapp_template.Base.Time.{Time}
use go_webapp_template.Auth.Jwks.{
  Cache, PublicKey, new_jwks_client, Turn, answers, unknown, waits, fetches, begin, swap, finish,
}

-- A call reads the clock before it takes the lock. `flights` are the readings of the calls whose
-- fetches are still under way, `attempts` those of all fetches, the latest claim first.
pub record System : Type 0 where
  pub cache : Cache
  pub now : Time
  pub flights : List Time
  pub attempts : List Time
  pub panicked : Bool

abbrev pub initial : Time → System
initial now = record {
  cache = new_jwks_client;
  now = now;
  flights = [];
  attempts = [];
  panicked = false;
}

-- A call of `key` enters; when it gets the fetch slot its fetch is under way.
abbrev pub enter : Time → System → Cache × Turn → System
enter read s (c, fetches) = record s {
  cache = c;
  flights = read ∷ s.flights;
  attempts = read ∷ s.attempts;
}
enter read s (c, answers key) = record s { cache = c }
enter read s (c, unknown) = record s { cache = c }
enter read s (c, waits channel) = record s { cache = c }

-- A fetch has ended and its goroutine closes the channel.
abbrev pub land : System → List Time → Option Cache → System
land s rest none = record s { flights = rest; panicked = true }
land s rest (some c) = record s { cache = c; flights = rest }

-- A call takes the lock, and its fetch ends, in less than `limit` from its reading of the clock.
pub data Step (limit : ℕ) (s : System) : System → Type 0 where
  tick :
      (now : Time)
      → s.now ≤ now
      → All (λ t. now < t + limit) s.flights
      → Step limit s (record s { now = now })
  call :
      (read : Time) (kid : Text)
      → read ≤ s.now
      → s.now < read + limit
      → Step limit s (enter read s (begin s.cache read kid))
  arrive :
      (t : Time) (before after : List Time)
      → s.flights ≡ before ++ t ∷ after
      → (keys : Dict PublicKey) → Step limit s (record s { cache = swap s.cache s.now keys })
  finishes :
      (t : Time) (before after : List Time)
      → s.flights ≡ before ++ t ∷ after
      → Step limit s (land s (before ++ after) (finish s.cache))

pub data Reach (limit : ℕ) (start : Time) : System → Type 0 where
  here : Reach limit start (initial start)
  next : {s t : System} → Reach limit start s → Step limit s t → Reach limit start t
