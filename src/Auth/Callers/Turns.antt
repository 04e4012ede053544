-- ===== src/Auth/Callers/Turns.antt =====
-- How the first section of `key` of internal/auth/jwt.go ends: for each end, what the cache was.
use go_webapp_template.Base.{◌≡◌, refl, inl, inr, false, Option, none, some, Bool-cases, ℕ}
use go_webapp_template.Base.Text.{Text}
use go_webapp_template.Base.Dict.{lookup}
use go_webapp_template.Base.Time.{Time}
use go_webapp_template.Auth.Jwks.{
  Cache, PublicKey, Turn, answers, unknown, waits, fetches, is_fresh, is_throttled, claim, begin,
  begin_with, wait_or_unknown,
}

-- An answer is the cached key, a channel that of the fetch under way, and a claim is due.
abbrev pub Turns : Text → Cache → Time → Cache × Turn → Type 0
Turns kid c read (c', answers key) = (c' ≡ c) × (lookup kid c.keys ≡ some key)
Turns kid c read (c', unknown) = c' ≡ c
Turns kid c read (c', waits channel) = (c' ≡ c) × (c.fetching ≡ some channel)
Turns kid c read (c', fetches) = (c' ≡ claim c read) × (is_throttled c read ≡ false)

module _ (kid : Text) (c : Cache) (read : Time) where
  wait_or_unknown-Turns : (o : Option ℕ) → c.fetching ≡ o → Turns kid c read (c, wait_or_unknown o)
  wait_or_unknown-Turns none e = refl
  wait_or_unknown-Turns (some channel) e = (refl, e)

  begin_with-Turns :
      (o : Option PublicKey) → lookup kid c.keys ≡ o → Turns kid c read (begin_with c read o)
  unfolding begin_with
  begin_with-Turns none e = elim (Bool-cases (is_throttled c read)) [
    | inl early ↦ rw early (wait_or_unknown-Turns c.fetching refl)
    | inr due ↦ rw due (refl, due)
  ]
  begin_with-Turns (some key) e = elim (Bool-cases (is_fresh c read)) [
    | inl fresh ↦ rw fresh (refl, e)
    | inr stale ↦ elim (Bool-cases (is_throttled c read)) [
      | inl early ↦ rw (stale, early) (refl, e)
      | inr due ↦ rw (stale, due) (refl, due)
    ]
  ]

  pub begin-Turns : Turns kid c read (begin c read kid)
  unfolding begin
  begin-Turns = begin_with-Turns (lookup kid c.keys) refl
