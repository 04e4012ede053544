-- ===== src/Auth/Callers/Progress.antt =====
-- The callers of `key` in internal/auth/jwt.go, counted: who of them can go on, and how far it has
-- to its end.
use mathlib.Core.List.{Memᴰ}
use go_webapp_template.Base.{
  ℕ, ◌+◌, ◌≡◌, ◌⊎◌, ◌<◌, inl, inr, refl, ap, none, List, [], ◌∷◌, ◌++◌, map, All, Bool-cases, Bool,
  true, false, arith,
}
use go_webapp_template.Base.Text.{Text}
use go_webapp_template.Auth.Jwks.System.{System}
use go_webapp_template.Auth.Jwks.SingleFlight.{IsSafe}
use go_webapp_template.Auth.Callers.Shadow.{has_crashed}
use go_webapp_template.Auth.Callers.Wakeups.{HasChannel}
use go_webapp_template.Auth.Callers.{
  Caller, waiting, fetching, closing, reading, returned, crashed, in_flight,
}

-- How many moves a caller has still to make, at most.
abbrev pub weight : Caller → ℕ
weight (fetching kid since) = 3
weight (closing kid since) = 2
weight (waiting kid channel) = 2
weight (reading kid) = 1
weight (returned kid answer) = 0
weight (crashed kid) = 0

abbrev pub weights : List Caller → ℕ
weights [] = 0
weights (x ∷ callers) = weight x + weights callers

abbrev pub key_id : Caller → Text
key_id (fetching kid since) = kid
key_id (closing kid since) = kid
key_id (waiting kid channel) = kid
key_id (reading kid) = kid
key_id (returned kid answer) = kid
key_id (crashed kid) = kid

-- Not waiting and not at the end.
abbrev pub is_active : Caller → Bool
is_active (fetching kid since) = true
is_active (closing kid since) = true
is_active (waiting kid channel) = false
is_active (reading kid) = true
is_active (returned kid answer) = false
is_active (crashed kid) = false

abbrev pub is_waiting : Caller → Bool
is_waiting (waiting kid channel) = true
is_waiting (fetching kid since) = false
is_waiting (closing kid since) = false
is_waiting (reading kid) = false
is_waiting (returned kid answer) = false
is_waiting (crashed kid) = false

abbrev pub IsReturned : Caller → Type 0
IsReturned (returned kid answer) = Unit
IsReturned (waiting kid channel) = ⊥
IsReturned (fetching kid since) = ⊥
IsReturned (closing kid since) = ⊥
IsReturned (reading kid) = ⊥
IsReturned (crashed kid) = ⊥

module _ {ℓ} {A : Type ℓ} (f : A → Bool) where
  -- The first element that passes a test, or none passes it.
  pub find_split :
      (xs : List A)
      → ((before : List A) × (x : A) × (after : List A) × (xs ≡ before ++ x ∷ after) × (f x ≡ true))
        ⊎ All (λ x. f x ≡ false) xs
  find_split [] = inr tt
  find_split (x ∷ xs) = elim (Bool-cases (f x)) [
    | inl passes ↦ inl ([], x, xs, refl, passes)
    | inr fails ↦ elim (find_split xs) [
      | inl (before, y, after, e, passes) ↦ inl (x ∷ before, y, after, ap (λ l. x ∷ l) e, passes)
      | inr rest ↦ inr (fails, rest)
    ]
  ]

pub weights-less :
    (before after : List Caller) (x y : Caller)
    → weight y < weight x
    → weights (before ++ y ∷ after) < weights (before ++ x ∷ after)
weights-less [] after x y h = omega arith
weights-less (b ∷ before) after x y h = omega (arith, weights-less before after x y h)

pub key_ids-same :
    (before after : List Caller) (x y : Caller)
    → key_id y ≡ key_id x
    → map key_id (before ++ y ∷ after) ≡ map key_id (before ++ x ∷ after)
key_ids-same [] after x y h = ap (λ k. k ∷ map key_id after) h
key_ids-same (b ∷ before) after x y h = ap (λ l. key_id b ∷ l) (key_ids-same before after x y h)

pub no_flights :
    (callers : List Caller) → All (λ x. is_active x ≡ false) callers → in_flight callers ≡ []
no_flights [] h = refl
no_flights (fetching kid since ∷ callers) (h, hs) = cc
no_flights (closing kid since ∷ callers) (h, hs) = cc
no_flights (reading kid ∷ callers) (h, hs) = cc
no_flights (waiting kid channel ∷ callers) (h, hs) = no_flights callers hs
no_flights (returned kid answer ∷ callers) (h, hs) = no_flights callers hs
no_flights (crashed kid ∷ callers) (h, hs) = no_flights callers hs

pub quiet-AllReturned :
    (callers : List Caller)
    → All (λ x. is_active x ≡ false) callers
    → All (λ x. is_waiting x ≡ false) callers
    → has_crashed callers ≡ false
    → All IsReturned callers
quiet-AllReturned [] h k calm = tt
quiet-AllReturned (fetching kid since ∷ callers) (h, hs) (k, ks) calm = cc
quiet-AllReturned (closing kid since ∷ callers) (h, hs) (k, ks) calm = cc
quiet-AllReturned (reading kid ∷ callers) (h, hs) (k, ks) calm = cc
quiet-AllReturned (waiting kid channel ∷ callers) (h, hs) (k, ks) calm = cc
quiet-AllReturned (crashed kid ∷ callers) (h, hs) (k, ks) calm = cc
quiet-AllReturned (returned kid answer ∷ callers) (h, hs) (k, ks) calm =
    (tt, quiet-AllReturned callers hs ks calm)

-- With no fetch under way nobody holds the slot.
pub free_slot : {limit : ℕ} (s : System) → s.flights ≡ [] → IsSafe limit s → s.cache.fetching ≡ none
free_slot s none_fly v = elim v.slot [ inl (_, free) ↦ free | inr (channel, one, _) ↦ cc ]

pub waiting_closed :
    (closed : List ℕ) (x : Caller)
    → is_waiting x ≡ true
    → HasChannel closed none x
    → (kid : Text) × (channel : ℕ) × (x ≡ waiting kid channel) × Memᴰ channel closed
waiting_closed closed (waiting kid channel) w (inl done) = (kid, channel, refl, done)
waiting_closed closed (waiting kid channel) w (inr held) = cc
waiting_closed closed (fetching kid since) w h = cc
waiting_closed closed (closing kid since) w h = cc
waiting_closed closed (reading kid) w h = cc
waiting_closed closed (returned kid answer) w h = cc
waiting_closed closed (crashed kid) w h = cc

pub All-at {ℓ κ} :
    {A : Type ℓ} (P : A → Type κ) (before : List A) (x : A) (after : List A)
    → All P (before ++ x ∷ after)
    → P x
All-at P [] x after (h, hs) = h
All-at P (b ∷ before) x after (h, hs) = All-at P before x after hs
