-- ===== src/Metrics/Keys.antt =====
-- The keys of a family's map in internal/metrics/metrics.go: `strings.Join(values, "\xff")`.
use go_webapp_template.Base.{
  ◌<◌, ◌≡◌, ◌≢◌, refl, false, List, [], ◌∷◌, ◌++◌, All, length, Bool-cases, inl, inr, arith,
}
use go_webapp_template.Base.Text.{Text, same, same_iff}
use go_webapp_template.Metrics.{join}

-- A label value without the separator, which is no byte of a text in UTF-8.
abbrev pub IsJoinable : Text → Type 0
IsJoinable = All (λ c. c < 0xff)

split_at :
    (s t r q : Text)
    → IsJoinable s
    → IsJoinable t
    → s ++ 0xff ∷ r ≡ t ++ 0xff ∷ q
    → (s ≡ t) × (r ≡ q)
split_at [] [] r q hs ht e = (refl, cc)
split_at [] (d ∷ t) r q hs (h, ht) e = let clash : 0xff ≡ d = cc in absurd (omega arith)
split_at (c ∷ s) [] r q (h, hs) ht e = let clash : c ≡ 0xff = cc in absurd (omega arith)
split_at (c ∷ s) (d ∷ t) r q (h, hs) (k, ht) e =
    let (same, rest) = split_at s t r q hs ht (cc) in (cc, rest)

-- Two lists of label values of one length, none with the byte 0xff, have one key only if they are
-- the same: no two series of a family share an entry of the map.
join-injective :
    (vs ws : List Text)
    → length vs ≡ length ws
    → All IsJoinable vs
    → All IsJoinable ws
    → join vs ≡ join ws
    → vs ≡ ws
unfolding join
join-injective [] [] n hv hw e = refl
join-injective [] (w ∷ ws) n hv hw e = absurd (omega arith)
join-injective (v ∷ vs) [] n hv hw e = absurd (omega arith)
join-injective (v ∷ []) (w ∷ []) n hv hw e = cc
join-injective (v ∷ []) (w ∷ w' ∷ ws) n hv hw e = absurd (omega arith)
join-injective (v ∷ v' ∷ vs) (w ∷ []) n hv hw e = absurd (omega arith)
join-injective (v ∷ v' ∷ vs) (w ∷ w' ∷ ws) n (h, hv) (k, hw) e =
    let (same, rest) = split_at v w (join (v' ∷ vs)) (join (w' ∷ ws)) h k e in
    let tails = join-injective (v' ∷ vs) (w' ∷ ws) (omega arith) hv hw rest in cc

-- Different lists of this kind have different keys.
pub keys_differ :
    (vs ws : List Text)
    → length vs ≡ length ws
    → All IsJoinable vs
    → All IsJoinable ws
    → vs ≢ ws
    → same (join vs) (join ws) ≡ false
keys_differ vs ws n hv hw other = elim (Bool-cases (same (join vs) (join ws))) [
  | inr differs ↦ differs
  | inl one_key ↦
      absurd (other (join-injective vs ws n hv hw ((same_iff (join vs) (join ws)).0 one_key)))
]
