-- ===== src/Auth/Jwks/Throttle.antt =====
-- How often goroutines that share a `jwksClient` of internal/auth/jwt.go fetch the key set.
use go_webapp_template.Base.{
  ℕ, ◌+◌, ◌≤◌, ◌≡◌, ◌≢◌, ◌⊎◌, inl, inr, refl, sym, ap, subst, false, Option, none, some, List, [],
  ◌∷◌, ◌++◌, Bool-cases, arith,
}
use go_webapp_template.Base.Text.{Text}
use go_webapp_template.Base.Dict.{lookup}
use go_webapp_template.Base.Time.{Time, sub}
use go_webapp_template.Auth.Jwks.{
  Cache, PublicKey, Turn, answers, unknown, waits, fetches, is_fresh, is_throttled, claim, begin,
  begin_with, finish, finish_with, jwks_min_refresh_interval, wait_or_unknown,
}
use go_webapp_template.Auth.Jwks.System.{
  System, enter, land, Step, tick, call, arrive, finishes, Reach, here, next,
}

-- The first section of `key` leaves the cache alone, or claims the slot outside the interval.
abbrev pub Begins : Cache → Time → Cache × Turn → Type 0
Begins c now r =
    ((r.0 ≡ c) × (r.1 ≢ fetches)) ⊎ ((is_throttled c now ≡ false) × (r ≡ (claim c now, fetches)))

wait_or_unknown-ne : (channel : Option ℕ) → wait_or_unknown channel ≢ fetches
wait_or_unknown-ne none e = cc
wait_or_unknown-ne (some channel) e = cc

begin_with-Begins :
    (c : Cache) (now : Time) (o : Option PublicKey) → Begins c now (begin_with c now o)
unfolding begin_with
begin_with-Begins c now none = elim (Bool-cases (is_throttled c now)) [
  | inl early ↦ rw early (inl (refl, wait_or_unknown-ne c.fetching))
  | inr due ↦ rw due (inr (refl, refl))
]
begin_with-Begins c now (some key) = elim (Bool-cases (is_fresh c now)) [
  | inl fresh ↦ rw fresh (inl (refl, λ e. cc))
  | inr stale ↦ elim (Bool-cases (is_throttled c now)) [
    | inl early ↦ rw (stale, early) (inl (refl, λ e. cc))
    | inr due ↦ rw (stale, due) (inr (refl, refl))
  ]
]

pub begin-Begins : (c : Cache) (now : Time) (kid : Text) → Begins c now (begin c now kid)
unfolding begin
begin-Begins c now kid = begin_with-Begins c now (lookup kid c.keys)

pub unthrottled :
    (c : Cache) (now : Time)
    → is_throttled c now ≡ false
    → c.last_fetch_attempt + jwks_min_refresh_interval ≤ now
unfolding sub
unthrottled c now h = ground arith

-- Times, the latest first, of which any two neighbours are an interval apart.
abbrev pub HasGaps : Time → List Time → Type 0
HasGaps last [] = Unit
HasGaps last (t ∷ ts) = (t + jwks_min_refresh_interval ≤ last) × HasGaps t ts

abbrev pub IsSpaced : List Time → Type 0
IsSpaced [] = Unit
IsSpaced (t ∷ ts) = HasGaps t ts

-- The latest attempt is the one that the cache remembers.
abbrev pub IsLatest : Time → List Time → Type 0
IsLatest t [] = Unit
IsLatest t (a ∷ ts) = a ≡ t

pub record Inv (s : System) : Type 0 where
  pub past : s.cache.last_fetch_attempt ≤ s.now
  pub latest : IsLatest s.cache.last_fetch_attempt s.attempts
  pub spaced : IsSpaced s.attempts

extend-IsSpaced :
    (last now : Time) (ts : List Time)
    → IsLatest last ts
    → last + jwks_min_refresh_interval ≤ now
    → IsSpaced ts
    → IsSpaced (now ∷ ts)
extend-IsSpaced last now [] l h sp = tt
extend-IsSpaced last now (a ∷ ts) l h sp = (omega arith, sp)

-- The system after a call has claimed the slot.
abbrev pub claimed : Time → System → System
claimed read s = record s {
  cache = claim s.cache read;
  flights = read ∷ s.flights;
  attempts = read ∷ s.attempts;
}

enter_cases :
    (read : Time) (s : System) (r : Cache × Turn)
    → Begins s.cache read r
    → (enter read s r ≡ s)
      ⊎ ((is_throttled s.cache read ≡ false) × (enter read s r ≡ claimed read s))
enter_cases read s (c, answers key) (inl (e, _)) = inl (ap (λ c. record s { cache = c }) e)
enter_cases read s (c, unknown) (inl (e, _)) = inl (ap (λ c. record s { cache = c }) e)
enter_cases read s (c, waits channel) (inl (e, _)) = inl (ap (λ c. record s { cache = c }) e)
enter_cases read s (c, fetches) (inl (e, ne)) = absurd (ne refl)
enter_cases read s r (inr (due, e)) = inr (due, ap (enter read s) e)

-- A call changes nothing, or claims the slot after the interval.
pub call_cases :
    (read : Time) (s : System) (kid : Text)
    → let s' = enter read s (begin s.cache read kid) in
      (s' ≡ s) ⊎ ((is_throttled s.cache read ≡ false) × (s' ≡ claimed read s))
call_cases read s kid = enter_cases read s (begin s.cache read kid) (begin-Begins s.cache read kid)

claimed-Inv :
    (read : Time) (s : System)
    → read ≤ s.now
    → is_throttled s.cache read ≡ false
    → Inv s
    → Inv (claimed read s)
claimed-Inv read s le due v = record {
  past = le;
  latest = refl;
  spaced =
      extend-IsSpaced s.cache.last_fetch_attempt read s.attempts v.latest
        (unthrottled s.cache read due) v.spaced;
}

land-Inv :
    (s : System) (rest : List Time) (o : Option ℕ)
    → Inv s
    → Inv (land s rest (finish_with s.cache o))
unfolding finish_with
land-Inv s rest none v = record { past = v.past; latest = v.latest; spaced = v.spaced }
land-Inv s rest (some channel) v = record { past = v.past; latest = v.latest; spaced = v.spaced }

Step-Inv : {limit : ℕ} {s t : System} → Step limit s t → Inv s → Inv t
unfolding finish
Step-Inv (tick now le ok) v = record { past = omega arith; latest = v.latest; spaced = v.spaced }
Step-Inv {s = s} (call read kid le soon) v = elim (call_cases read s kid) [
  | inl same ↦ subst Inv (sym same) v
  | inr (due, e) ↦ subst Inv (sym e) (claimed-Inv read s le due v)
]
Step-Inv (arrive t before after e keys) v = record {
  past = v.past;
  latest = v.latest;
  spaced = v.spaced;
}
Step-Inv {s = s} (finishes t before after e) v = land-Inv s (before ++ after) s.cache.fetching v

pub Reach-Inv : {limit : ℕ} {start : Time} {s : System} → Reach limit start s → Inv s
Reach-Inv here = record { past = omega arith; latest = tt; spaced = tt }
Reach-Inv (next r st) = Step-Inv st (Reach-Inv r)

-- However many goroutines call `key` with whatever key ids, however long their fetches take and
-- whatever they bring, two fetches begin at least `jwksMinRefreshInterval` apart, as their calls
-- have read the clock.
pub fetches-IsSpaced :
    {limit : ℕ} {start : Time} {s : System} → Reach limit start s → IsSpaced s.attempts
fetches-IsSpaced r = (Reach-Inv r).spaced
