-- ===== src/RateLimit/Eviction.antt =====
-- `evictOldestLocked` of internal/api/ratelimit.go.
use go_webapp_template.Base.{
  ◌≤◌, ◌<◌, ◌≡◌, ◌≢◌, ◌⊎◌, inl, inr, refl, sym, subst, ◌||◌, Bool-cases, none, some, [], ◌∷◌, arith,
  All,
}
use go_webapp_template.Base.Text.{Text, same_iff, same_refl}
use go_webapp_template.Base.Dict.{Dict, lookup, remove, HasDistinctKeys, All-lookup}
use go_webapp_template.Base.Time.{Time, is_zero, before}
use go_webapp_template.RateLimit.{Bucket, find_oldest, evict_oldest_locked}

-- A bucket that has served a call, under the subject of a principal.
abbrev pub IsUsed : Text × Bucket → Type 0
IsUsed (k, b) = (k ≢ []) × (0 < b.last)

-- The result `p` of the loop is what it started from, or an entry of the map.
abbrev EntryOf : Dict Bucket → Text → Time → Text × Time → Type 0
EntryOf m k t p =
    ((p.0 ≡ k) × (p.1 ≡ t)) ⊎ ((b : Bucket) × (lookup p.0 m ≡ some b) × (b.last ≡ p.1))

EntryOf-head :
    (m : Dict Bucket) (j : Text) (b : Bucket) (k : Text) (t : Time) (p : Text × Time)
    → EntryOf m j b.last p
    → lookup j m ≡ none
    → EntryOf ((j, b) ∷ m) k t p
unfolding lookup
EntryOf-head m j b k t p (inl (ek, et)) new = inr (b, rw (ek, same_refl j), sym et)
EntryOf-head m j b k t p (inr (c, found, e)) new = inr (c, ground (arith, same_iff j p.0), e)

EntryOf-tail :
    (m : Dict Bucket) (j : Text) (b : Bucket) (k : Text) (t : Time) (p : Text × Time)
    → EntryOf m k t p
    → lookup j m ≡ none
    → EntryOf ((j, b) ∷ m) k t p
unfolding lookup
EntryOf-tail m j b k t p (inl e) new = inl e
EntryOf-tail m j b k t p (inr (c, found, e)) new = inr (c, ground (arith, same_iff j p.0), e)

find_oldest-EntryOf :
    (m : Dict Bucket) (k : Text) (t : Time) → HasDistinctKeys m → EntryOf m k t (find_oldest m k t)
unfolding find_oldest
find_oldest-EntryOf [] k t d = inl (refl, refl)
find_oldest-EntryOf ((j, b) ∷ m) k t d = elim (Bool-cases (is_zero t || before b.last t)) [
  | inl older ↦
      rw (older, find_oldest) (EntryOf-head m j b k t _ (find_oldest-EntryOf m j b.last d.1) d.0)
  | inr newer ↦
      rw (newer, find_oldest) (EntryOf-tail m j b k t _ (find_oldest-EntryOf m k t d.1) d.0)
]

abbrev pub IsEarliest : Time → Dict Bucket → Type 0
IsEarliest t m = All (λ (e : Text × Bucket). t ≤ e.1.last) m

-- No entry of the map is older than the one the loop ends at.
find_oldest-le :
    (m : Dict Bucket) (k : Text) (t : Time)
    → All IsUsed m
    → (0 < t → (find_oldest m k t).1 ≤ t) × IsEarliest (find_oldest m k t).1 m
unfolding find_oldest
find_oldest-le [] k t u = ((λ _. omega arith), tt)
find_oldest-le ((j, b) ∷ m) k t (v, u) = elim (Bool-cases (is_zero t || before b.last t)) [
  | inl older ↦
      let (le, rest) = find_oldest-le m j b.last u in
      let step : find_oldest ((j, b) ∷ m) k t ≡ find_oldest m j b.last = rw older refl in
      subst (λ p. (0 < t → p.1 ≤ t) × IsEarliest p.1 ((j, b) ∷ m)) (sym step)
        ((λ h. ground arith), (le v.1, rest))
  | inr newer ↦
      let (le, rest) = find_oldest-le m k t u in
      let step : find_oldest ((j, b) ∷ m) k t ≡ find_oldest m k t = rw newer refl in
      subst (λ p. (0 < t → p.1 ≤ t) × IsEarliest p.1 ((j, b) ∷ m)) (sym step)
        (le, (ground arith, rest))
]

-- On a map that is not empty the entry found is there, and its key is a subject.
evicted :
    (m : Dict Bucket)
    → m ≢ []
    → HasDistinctKeys m
    → All IsUsed m
    → (b : Bucket) × (lookup (find_oldest m [] 0).0 m ≡ some b)
      × (b.last ≡ (find_oldest m [] 0).1)
      × ((find_oldest m [] 0).0 ≢ [])
unfolding find_oldest lookup
evicted [] ne d u = absurd (ne refl)
evicted ((j, b) ∷ m) ne d (v, u) = go (find_oldest m j b.last) (find_oldest-EntryOf m j b.last d.1)
  where
    go :
        (p : Text × Time)
        → EntryOf m j b.last p
        → (c : Bucket) × (lookup p.0 ((j, b) ∷ m) ≡ some c) × (c.last ≡ p.1) × (p.0 ≢ [])
    go p (inl (ek, et)) = (b, rw (ek, same_refl j), sym et, rw ek v.0)
    go p (inr (c, found, e)) =
        (c, ground (arith, same_iff j p.0), e, (All-lookup IsUsed p.0 c m u found).0)

-- The eviction removes one entry, and no entry of the map has been idle for longer.
pub evict_oldest_locked_lem :
    (m : Dict Bucket)
    → m ≢ []
    → HasDistinctKeys m
    → All IsUsed m
    → (k : Text) × (b : Bucket) × (lookup k m ≡ some b)
      × IsEarliest b.last m
      × (evict_oldest_locked m ≡ remove k m)
unfolding evict_oldest_locked
evict_oldest_locked_lem m ne d u =
    let (b, found, same_time, named) = evicted m ne d u in
    let (_, least) = find_oldest-le m [] 0 u in
    ((find_oldest m [] 0).0, b, found, rw same_time least, ground (arith, named))
