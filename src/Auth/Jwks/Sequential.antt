-- ===== src/Auth/Jwks/Sequential.antt =====
-- `key` of internal/auth/jwt.go from end to end, for a goroutine that no other one disturbs.
use go_webapp_template.Base.{
  ◌≡◌, ◌≢◌, ◌⊎◌, inl, inr, refl, true, false, Option, none, some, Bool-cases, arith,
}
use go_webapp_template.Base.Text.{Text}
use go_webapp_template.Base.Dict.{Dict, lookup}
use go_webapp_template.Base.Time.{Time}
use go_webapp_template.Auth.Jwks.{
  Cache, PublicKey, Turn, answers, unknown, waits, fetches, is_fresh, is_throttled, claim, begin,
  begin_with, swap, finish, finish_with,
}

-- The cache after the fetch has ended at `later`, with the new key set or with an error.
abbrev pub fetched : Cache → Time → Option (Dict PublicKey) → Cache
fetched c later none = c
fetched c later (some keys) = swap c later keys

abbrev pub or_same : Cache → Option Cache → Cache
or_same c none = c
or_same c (some d) = d

-- The rest of `key` for each end of its first section. Both ends of a fetch answer from the cache.
unfoldable pub settle :
    Text → Time → Option (Dict PublicKey) → Cache × Turn → Cache × Option PublicKey
unfolding finish
settle kid later result (c, answers key) = (c, some key)
settle kid later result (c, unknown) = (c, none)
settle kid later result (c, waits channel) = (c, lookup kid c.keys)
settle kid later result (c, fetches) =
    let c' = or_same c (finish (fetched c later result)) in (c', lookup kid c'.keys)

unfoldable pub key_alone :
    Cache → Time → Text → Time → Option (Dict PublicKey) → Cache × Option PublicKey
unfolding settle
key_alone c now kid later result = settle kid later result (begin c now kid)

-- The key found, by the state of the cache and the outcome of the fetch.
abbrev pub expected : Option PublicKey → Text → Option (Dict PublicKey) → Option PublicKey
expected cached kid none = cached
expected cached kid (some keys) = lookup kid keys

module _ (c : Cache) (now : Time) (kid : Text) (later : Time)
    (result : Option (Dict PublicKey)) where
  settled :
      (o : Option PublicKey)
      → is_throttled c now ≡ false
      → lookup kid c.keys ≡ o
      → let r = settle kid later result (claim c now, fetches) in
        (r.1 ≡ expected o kid result) × (r.0.last_fetch_attempt ≡ now) × (r.0.fetching ≡ none)
  unfolding settle finish finish_with
  settled o due e = ground arith

  begun :
      (o : Option PublicKey)
      → lookup kid c.keys ≡ o
      → c.fetching ≡ none
      → let r = settle kid later result (begin_with c now o) in
        ((r ≡ (c, o)) × (((is_fresh c now ≡ true) × (o ≢ none)) ⊎ (is_throttled c now ≡ true)))
        ⊎ (((is_fresh c now ≡ false) ⊎ (o ≡ none))
            × (is_throttled c now ≡ false)
            × (r.1 ≡ expected o kid result)
            × (r.0.last_fetch_attempt ≡ now)
            × (r.0.fetching ≡ none))
  unfolding begin_with settle
  begun none e idle = elim (Bool-cases (is_throttled c now)) [
    | inl early ↦ inl (rw (early, idle) refl, inr early)
    | inr due ↦
        let begins : begin_with c now none ≡ (claim c now, fetches) = rw due in
        let (answer, attempt, slot) = settled none due e in
        inr (inr refl, due, rw begins answer, rw begins attempt, rw begins slot)
  ]
  begun (some key) e idle = elim (Bool-cases (is_fresh c now)) [
    | inl fresh ↦ inl (rw fresh refl, inl (fresh, λ h. cc))
    | inr stale ↦ elim (Bool-cases (is_throttled c now)) [
      | inl early ↦ inl (rw (stale, early) refl, inr early)
      | inr due ↦
          let begins : begin_with c now (some key) ≡ (claim c now, fetches) = rw (stale, due) in
          let (answer, attempt, slot) = settled (some key) due e in
          inr (inl stale, due, rw begins answer, rw begins attempt, rw begins slot)
    ]
  ]

  -- With no other fetch under way, `key` answers from the cache and changes nothing while the key
  -- is cached and fresh or the refresh is throttled. Only otherwise it fetches, remembers the
  -- attempt, frees the slot, and answers from the set fetched, or from the stale cache if the fetch
  -- failed.
  pub key_alone_lem :
      c.fetching ≡ none
      → let cached = lookup kid c.keys in
        let r = key_alone c now kid later result in
        ((r ≡ (c, cached))
          × (((is_fresh c now ≡ true) × (cached ≢ none)) ⊎ (is_throttled c now ≡ true)))
        ⊎ (((is_fresh c now ≡ false) ⊎ (cached ≡ none))
            × (is_throttled c now ≡ false)
            × (r.1 ≡ expected cached kid result)
            × (r.0.last_fetch_attempt ≡ now)
            × (r.0.fetching ≡ none))
  unfolding key_alone begin
  key_alone_lem idle = begun (lookup kid c.keys) refl idle
