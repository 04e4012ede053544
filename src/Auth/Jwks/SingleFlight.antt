-- ===== src/Auth/Jwks/SingleFlight.antt =====
-- The fetch slot of `jwksClient` of internal/auth/jwt.go: who holds it, and when closing panics.
use go_webapp_template.Base.{
  ℕ, ◌+◌, ◌≤◌, ◌<◌, ◌≡◌, ◌⊎◌, inl, inr, refl, sym, ap, subst, ◌∙◌, false, Option, none, some, List,
  [], ◌∷◌, ◌++◌, All, arith,
}
use go_webapp_template.Base.Text.{Text}
use go_webapp_template.Base.Dict.{lookup}
use go_webapp_template.Base.Time.{Time, sub_forward}
use go_webapp_template.Auth.Jwks.{
  Cache, is_throttled, claim, begin, begin_with, fetches, finish, finish_with,
  jwks_min_refresh_interval,
}
use go_webapp_template.Auth.Jwks.System.{
  System, land, Step, tick, call, arrive, finishes, Reach, here, next,
}
use go_webapp_template.Auth.Jwks.Throttle.{unthrottled, claimed, call_cases}

-- The slot is free, or one fetch is under way, claimed at the latest attempt.
abbrev pub Slot : System → Type 0
Slot s =
    ((s.flights ≡ []) × (s.cache.fetching ≡ none))
    ⊎ ((channel : ℕ) × (s.flights ≡ s.cache.last_fetch_attempt ∷ [])
        × (s.cache.fetching ≡ some channel))

pub record IsSafe (limit : ℕ) (s : System) : Type 0 where
  pub slot : Slot s
  pub recent : All (λ t. s.now < t + limit) s.flights
  pub calm : s.panicked ≡ false

not-nil : (before after : List Time) (t : Time) → before ++ t ∷ after ≡ [] → ⊥
not-nil [] after t e = cc
not-nil (b ∷ before) after t e = cc

-- The only element is the one that is taken out.
take_only :
    (before after : List Time) (t a : Time) → before ++ t ∷ after ≡ a ∷ [] → before ++ after ≡ []
take_only [] [] t a e = refl
take_only [] (x ∷ after) t a e = cc
take_only (b ∷ before) after t a e = absurd (not-nil before after t (cc))

module _ {limit : ℕ} (pos : 0 < limit) (short : limit ≤ jwks_min_refresh_interval) where
  -- Once a claim is due, the fetch before it has ended and its slot is free.
  due_free :
      (read : Time) (s : System)
      → read ≤ s.now
      → is_throttled s.cache read ≡ false
      → All (λ t. s.now < t + limit) s.flights
      → Slot s
      → (s.flights ≡ []) × (s.cache.fetching ≡ none)
  due_free read s le due recent (inl free) = free
  due_free read s le due recent (inr (channel, one, _)) =
      let gap = unthrottled s.cache read due in
      let recent' : All (λ t. s.now < t + limit) (s.cache.last_fetch_attempt ∷ []) =
        rw one at recent in
      absurd (omega arith)

  pub due_slot_free :
      (read : Time) (s : System)
      → read ≤ s.now
      → is_throttled s.cache read ≡ false
      → IsSafe limit s
      → s.cache.fetching ≡ none
  due_slot_free read s le due v = (due_free read s le due v.recent v.slot).1

  claimed-IsSafe :
      (read : Time) (s : System)
      → read ≤ s.now
      → s.now < read + limit
      → is_throttled s.cache read ≡ false
      → IsSafe limit s
      → IsSafe limit (claimed read s)
  claimed-IsSafe read s le soon due v =
      let (empty, _) = due_free read s le due v.recent v.slot in
      record {
        slot = inr (s.cache.made, ap (λ l. read ∷ l) empty, refl);
        recent = (omega arith, v.recent);
        calm = v.calm;
      }

  finishes-IsSafe :
      (s : System) (t : Time) (before after : List Time) (o : Option ℕ)
      → s.cache.fetching ≡ o
      → s.flights ≡ before ++ t ∷ after
      → Slot s
      → IsSafe limit s
      → IsSafe limit (land s (before ++ after) (finish_with s.cache o))
  unfolding finish_with
  finishes-IsSafe s t before after o e f (inl (empty, _)) v =
      absurd (not-nil before after t (sym f ∙ empty))
  finishes-IsSafe s t before after none e f (inr (channel, one, held)) v = cc
  finishes-IsSafe s t before after (some channel) e f (inr (_, one, _)) v =
      let rest = take_only before after t s.cache.last_fetch_attempt (sym f ∙ one) in
      record { slot = inl (rest, refl); recent = rw rest tt; calm = v.calm }

  Step-IsSafe : {s t : System} → Step limit s t → IsSafe limit s → IsSafe limit t
  unfolding finish
  Step-IsSafe (tick now le ok) v = record { slot = v.slot; recent = ok; calm = v.calm }
  Step-IsSafe {s = s} (call read kid le soon) v = elim (call_cases read s kid) [
    | inl same ↦ subst (IsSafe limit) (sym same) v
    | inr (due, e) ↦ subst (IsSafe limit) (sym e) (claimed-IsSafe read s le soon due v)
  ]
  Step-IsSafe (arrive t before after e keys) v = record {
    slot = v.slot;
    recent = v.recent;
    calm = v.calm;
  }
  Step-IsSafe {s = s} (finishes t before after e) v =
      finishes-IsSafe s t before after s.cache.fetching refl e v.slot v

  -- If a call takes the lock, and its fetch ends, in less than `jwksMinRefreshInterval` from its
  -- reading of the clock, then in every interleaving at most
  -- one fetch is under way, the slot is held exactly while it is, and no goroutine panics by
  -- closing a nil channel.
  pub single_flight : {start : Time} {s : System} → Reach limit start s → IsSafe limit s
  single_flight here = record { slot = inl (refl, refl); recent = tt; calm = refl }
  single_flight (next r st) = Step-IsSafe st (single_flight r)

-- A fetch that outlives the interval can be overtaken. Where a call with an unknown key id has
-- claimed the slot, and a call with an unknown key id comes `jwksMinRefreshInterval` or more
-- later while that fetch is still under way, it claims the slot too; the goroutine that ends first
-- closes the second one's channel, and the other one then closes a nil channel, a panic.
pub overtaken-panics :
    (c : Cache) (now later : Time) (kid kid' : Text)
    → lookup kid c.keys ≡ none
    → lookup kid' c.keys ≡ none
    → is_throttled c now ≡ false
    → now + jwks_min_refresh_interval ≤ later
    → let first = begin c now kid in
      let second = begin first.0 later kid' in
      (first.1 ≡ fetches)
      × (second.1 ≡ fetches)
      × ((d : Cache) × (finish second.0 ≡ some d) × (finish d ≡ none))
unfolding begin begin_with finish
overtaken-panics c now later kid kid' missing missing' due late =
    let opened : begin c now kid ≡ (claim c now, fetches) = rw (missing, begin_with) (rw due) in
    let due' : is_throttled (claim c now) later ≡ false =
      ground (arith, sub_forward now later (omega arith)) in
    let reopened : begin (claim c now) later kid' ≡ (claim (claim c now) later, fetches) =
      rw (missing', begin_with) (rw due') in
    rw opened (
      rw reopened
        (refl, refl, (record (claim (claim c now) later) { fetching = none }, refl, refl)))
