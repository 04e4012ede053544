-- ===== src/Metrics/Tally.antt =====
-- The buckets of one histogram series of internal/metrics/metrics.go, against a count of the
-- values observed.
use go_webapp_template.Base.{
  ℕ, zero, suc, ◌+◌, ◌-◌, ◌%◌, ◌≤◌, ◌<◌, ◌≡◌, refl, sym, ap, ◌∙◌, true, List, [], ◌∷◌, All, length,
  map, Bool-cases, inl, inr, if◌then◌else◌, arith,
}
use go_webapp_template.Metrics.{Float64, Series, u64_mod, bump, search_float64s, observe_series}

-- The numbers that the buckets add up to, from the first on.
abbrev pub sums : ℕ → List ℕ → List ℕ
sums acc [] = []
sums acc (c ∷ cs) = (acc + c) ∷ sums (acc + c) cs

-- One more from the place `i` on.
abbrev pub raise : ℕ → List ℕ → List ℕ
raise i [] = []
raise zero (t ∷ ts) = suc t ∷ raise zero ts
raise (suc i) (t ∷ ts) = t ∷ raise i ts

abbrev pub IsBelow : ℕ → List ℕ → Type 0
IsBelow n = All (λ t. t < n)

sums-suc : (acc : ℕ) (cs : List ℕ) → sums (suc acc) cs ≡ raise zero (sums acc cs)
sums-suc acc [] = refl
sums-suc acc (c ∷ cs) =
    let e : suc acc + c ≡ suc (acc + c) = omega arith in
    rw e (ap (λ l. suc (acc + c) ∷ l) (sums-suc (acc + c) cs))

sums-bump :
    (i acc : ℕ) (cs : List ℕ)
    → IsBelow (u64_mod - 1) (sums acc cs)
    → sums acc (bump i cs) ≡ raise i (sums acc cs)
unfolding bump
sums-bump i acc [] h = refl
sums-bump zero acc (c ∷ cs) (h, hs) =
    let e : acc + (c + 1) % u64_mod ≡ suc (acc + c) = omega arith in
    rw e (ap (λ l. suc (acc + c) ∷ l) (sums-suc (acc + c) cs))
sums-bump (suc i) acc (c ∷ cs) (h, hs) = ap (λ l. (acc + c) ∷ l) (sums-bump i (acc + c) cs hs)

abbrev pub IsTransitive : {F : Type 0} → Float64 F → Type 0
IsTransitive {F} fl = (a b c : F) → fl.le a b ≡ true → fl.le b c ≡ true → fl.le a c ≡ true

module _ {F : Type 0} ⦃fl : Float64 F⦄ where
  -- How many of the values are at most the bound.
  abbrev pub count_le : F → List F → ℕ
  count_le b [] = 0
  count_le b (v ∷ vs) = (if fl.le v b then 1 else 0) + count_le b vs

  -- Each bound is at most every later one.
  abbrev pub IsAscending : List F → Type 0
  IsAscending [] = Unit
  IsAscending (b ∷ bs) = All (λ c. fl.le b c ≡ true) bs × IsAscending bs

  count_le-le : (b : F) (vs : List F) → count_le b vs ≤ length vs
  count_le-le b [] = omega arith
  count_le-le b (v ∷ vs) = ground (arith, count_le-le b vs)

  pub counts-IsBelow :
      (n : ℕ) (bounds vs : List F) → length vs < n → IsBelow n (map (λ b. count_le b vs) bounds)
  counts-IsBelow n [] vs h = tt
  counts-IsBelow n (b ∷ bs) vs h = (omega (arith, count_le-le b vs), counts-IsBelow n bs vs h)

  -- What a series has to show for the values it has observed.
  pub record Tallies (bounds vs : List F) (s : Series F) : Type 0 where
    pub counted : s.count ≡ length vs
    pub tallied : sums 0 s.buckets ≡ map (λ b. count_le b vs) bounds

  module _ (trans : IsTransitive fl) where
    count_le-raise :
        (v b : F) (bs : List F) (vs : List F)
        → fl.le v b ≡ true
        → All (λ c. fl.le b c ≡ true) bs
        → map (λ c. count_le c (v ∷ vs)) bs ≡ raise zero (map (λ c. count_le c vs) bs)
    count_le-raise v b [] vs h hs = refl
    count_le-raise v b (c ∷ bs) vs h (k, hs) = rw (trans v b c h k) (
        let e : 1 + count_le c vs ≡ suc (count_le c vs) = omega arith in
        rw e (ap (λ l. suc (count_le c vs) ∷ l) (count_le-raise v b bs vs h hs)))

    counts-raise :
        (v : F) (bounds vs : List F)
        → IsAscending bounds
        → map (λ b. count_le b (v ∷ vs)) bounds
          ≡ raise (search_float64s bounds v) (map (λ b. count_le b vs) bounds)
    unfolding search_float64s
    counts-raise v [] vs asc = refl
    counts-raise v (b ∷ bs) vs (above, asc) = elim (Bool-cases (fl.le v b)) [
      | inl reached ↦ rw reached (
          let e : 1 + count_le b vs ≡ suc (count_le b vs) = omega arith in
          rw e (ap (λ l. suc (count_le b vs) ∷ l) (count_le-raise v b bs vs reached above)))
      | inr short ↦ rw short (
          let e : 0 + count_le b vs ≡ count_le b vs = omega arith in
          rw e (ap (λ l. count_le b vs ∷ l) (counts-raise v bs vs asc)))
    ]

    pub observe_series-Tallies :
        (bounds vs : List F) (v : F) (s : Series F)
        → IsAscending bounds
        → suc (length vs) < u64_mod
        → Tallies bounds vs s
        → Tallies bounds (v ∷ vs) (observe_series bounds v s)
    unfolding observe_series
    observe_series-Tallies bounds vs v s asc room h =
        let below : IsBelow (u64_mod - 1) (sums 0 s.buckets) =
          rw h.tallied (counts-IsBelow (u64_mod - 1) bounds vs (omega arith)) in
        record {
          counted = omega (arith, h.counted);
          tallied =
              sums-bump (search_float64s bounds v) 0 s.buckets below
              ∙ ap (raise (search_float64s bounds v)) h.tallied
              ∙ sym (counts-raise v bounds vs asc);
        }
