-- ===== src/Auth/Jwk/Serving.antt =====
-- `key` of internal/auth/jwt.go with its fetch, for a goroutine that no other one disturbs: the
-- keys that it hands to the verification of tokens.
use go_webapp_template.Base.{
  ℕ, ◌≡◌, ◌≢◌, refl, Bool, true, false, Option, none, some, [], All, inl, inr, if◌then◌else◌,
}
use go_webapp_template.Base.Text.{Text}
use go_webapp_template.Base.Dict.{Dict, lookup, All-lookup}
use go_webapp_template.Base.Time.{Time}
use go_webapp_template.Auth.Jwks.{
  Cache, PublicKey, Turn, answers, unknown, waits, fetches, is_fresh, is_throttled, begin,
  begin_with, wait_or_unknown, claim, finish, finish_with,
}
use go_webapp_template.Auth.Jwks.Sequential.{or_same}
use go_webapp_template.Auth.Jwk.Strength.{IsBytes, IsStrong}
use go_webapp_template.Auth.Jwk.Fetch.{Endpoint, fetch, fetch-Replaces}

module _ (p : Endpoint) where
  -- Both ends of a fetch answer from the cache.
  abbrev pub answer_from : Text → Cache → Cache × Option PublicKey
  answer_from kid c = (c, lookup kid c.keys)

  unfoldable pub end_turn : Text → Time → Cache × Turn → Cache × Option PublicKey
  unfolding fetch finish
  end_turn kid later (c, answers key) = (c, some key)
  end_turn kid later (c, unknown) = (c, none)
  end_turn kid later (c, waits channel) = answer_from kid c
  end_turn kid later (c, fetches) =
      let c' = (fetch p c later).0 in answer_from kid (or_same c' (finish c'))

  unfoldable pub key_from : Cache → Time → Text → Time → Cache × Option PublicKey
  unfolding end_turn begin
  key_from c now kid later = end_turn kid later (begin c now kid)

  abbrev pub AllSafe : Dict PublicKey → Type 0
  AllSafe = All (λ (e : Text × PublicKey). (e.0 ≢ []) × IsStrong p.parse_point e.1)

  -- The cache is safe, and so is the key, if there is one.
  abbrev pub HandsOut : Text → Cache × Option PublicKey → Type 0
  HandsOut kid (c, none) = AllSafe c.keys
  HandsOut kid (c, some key) = AllSafe c.keys × (kid ≢ []) × IsStrong p.parse_point key

  lookup-HandsOut :
      (kid : Text) (c : Cache) (o : Option PublicKey)
      → lookup kid c.keys ≡ o
      → AllSafe c.keys
      → HandsOut kid (c, o)
  lookup-HandsOut kid c none e h = h
  lookup-HandsOut kid c (some key) e h =
      let (named, strong) =
        All-lookup (λ (e : Text × PublicKey). (e.0 ≢ []) × IsStrong p.parse_point e.1) kid key
          c.keys h e in
      (h, named, strong)

  finish-keys : (c : Cache) (o : Option ℕ) → (or_same c (finish_with c o)).keys ≡ c.keys
  unfolding finish_with
  finish-keys c none = refl
  finish-keys c (some channel) = refl

  module _ (bytes : (s bs : Text) → p.decode s ≡ some bs → IsBytes bs) (kid : Text)
      (later : Time) where
    fetch-AllSafe : (c : Cache) → AllSafe c.keys → AllSafe (fetch p c later).0.keys
    fetch-AllSafe c h = elim (fetch-Replaces p c later bytes) [
      | inl (kept, _, _) ↦ rw kept h
      | inr (_, safe, _) ↦ safe
    ]

    fetches-HandsOut : (c : Cache) → AllSafe c.keys → HandsOut kid (end_turn kid later (c, fetches))
    unfolding end_turn finish
    fetches-HandsOut c h =
        let c' = (fetch p c later).0 in
        let c'' = or_same c' (finish_with c' c'.fetching) in
        lookup-HandsOut kid c'' (lookup kid c''.keys) refl
          (rw (finish-keys c' c'.fetching) (fetch-AllSafe c h))

    wait_or_unknown-HandsOut :
        (c : Cache) (o : Option ℕ)
        → AllSafe c.keys
        → HandsOut kid (end_turn kid later (c, wait_or_unknown o))
    unfolding end_turn
    wait_or_unknown-HandsOut c none h = h
    wait_or_unknown-HandsOut c (some channel) h = lookup-HandsOut kid c (lookup kid c.keys) refl h

    answers-HandsOut :
        (c : Cache) (key : PublicKey)
        → lookup kid c.keys ≡ some key
        → AllSafe c.keys
        → HandsOut kid (end_turn kid later (c, answers key))
    unfolding end_turn
    answers-HandsOut c key e h = lookup-HandsOut kid c (some key) e h

    if-HandsOut :
        (b : Bool) (r r' : Cache × Turn)
        → HandsOut kid (end_turn kid later r)
        → HandsOut kid (end_turn kid later r')
        → HandsOut kid (end_turn kid later (if b then r else r'))
    if-HandsOut true r r' h k = h
    if-HandsOut false r r' h k = k

    begin_with-HandsOut :
        (c : Cache) (now : Time) (o : Option PublicKey)
        → lookup kid c.keys ≡ o
        → AllSafe c.keys
        → HandsOut kid (end_turn kid later (begin_with c now o))
    unfolding begin_with
    begin_with-HandsOut c now none e h =
        if-HandsOut (is_throttled c now) _ _ (wait_or_unknown-HandsOut c c.fetching h)
          (fetches-HandsOut (claim c now) h)
    begin_with-HandsOut c now (some key) e h =
        if-HandsOut (is_fresh c now) _ _ (answers-HandsOut c key e h) (
          if-HandsOut (is_throttled c now) _ _ (answers-HandsOut c key e h)
            (fetches-HandsOut (claim c now) h))

    -- Where decoded base64 consists of bytes, and whatever the key set's address answers: if every
    -- key in the cache has a key id and is strong, `key` leaves such a cache, and the key that it
    -- returns is strong and has a key id that is not empty.
    pub key_from-HandsOut :
        (c : Cache) (now : Time) → AllSafe c.keys → HandsOut kid (key_from c now kid later)
    unfolding key_from begin
    key_from-HandsOut c now h = begin_with-HandsOut c now (lookup kid c.keys) refl h
