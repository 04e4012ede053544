-- ===== src/Auth/Jwk/Fetch.antt =====
-- `fetch` of internal/auth/jwt.go, from the request for the key set to the swap of the cache.
use go_webapp_template.Base.{
  ℕ, zero, suc, ◌≡◌, ◌≢◌, ◌⊎◌, ◌∙◌, sym, refl, Bool, true, false, Option, none, some, List, [], ◌∷◌,
  All, ◌==◌, if◌then◌else◌, inl, inr, arith, Bool-cases, Option-cases,
}
use go_webapp_template.Base.Text.{Text}
use go_webapp_template.Base.Dict.{Dict, lookup}
use go_webapp_template.Base.Time.{Time}
use go_webapp_template.Auth.Jwks.{Cache, PublicKey, swap}
use go_webapp_template.Auth.Jwk.{JwkEntry, keys_of}
use go_webapp_template.Auth.Jwk.Entries.{last_key, lookup-keys_of}
use go_webapp_template.Auth.Jwk.Strength.{IsBytes, IsStrong, fetched_keys_safe}

-- 1 MiB
abbrev pub max_jwks_bytes : ℕ
max_jwks_bytes = 1048576

pub record Response : Type 0 where
  pub status : ℕ
  pub body : Text
  pub close_fails : Bool

-- What the fetch meets: whether the address makes a request, the answer, if there is one, and the
-- JSON decoder. With them the two decoders of the keys.
pub record Endpoint : Type 0 where
  pub makes_request : Bool
  pub response : Option Response
  pub decode_set : Text → Option (List JwkEntry)
  pub decode : Text → Option Text
  pub parse_point : Text → Option (ℕ × ℕ)

pub data FetchError : Type 0 where
  no_request unreachable parsing closing_body : FetchError
  bad_status : ℕ → FetchError

-- `io.LimitReader`
unfoldable pub limit_reader : ℕ → Text → Text
limit_reader zero s = []
limit_reader (suc n) [] = []
limit_reader (suc n) (c ∷ s) = c ∷ limit_reader n s

module _ (p : Endpoint) (c : Cache) (later : Time) where
  -- Behind the decoder: the loop over the entries, and the swap.
  abbrev pub replace : Option (List JwkEntry) → Cache × Option FetchError
  replace none = (c, some parsing)
  replace (some entries) = (swap c later (keys_of p.decode p.parse_point entries []), none)

  unfoldable pub read_set : Response → Cache × Option FetchError
  read_set r =
      let result = replace (p.decode_set (limit_reader max_jwks_bytes r.body)) in
      if r.status == 200 then result else (c, some (bad_status r.status))

  -- The deferred function.
  abbrev pub close_body : Bool → Cache × Option FetchError → Cache × Option FetchError
  close_body fails (c', some why) = (c', some why)
  close_body fails (c', none) = (c', if fails then some closing_body else none)

  abbrev pub respond : Option Response → Cache × Option FetchError
  respond none = (c, some unreachable)
  respond (some r) = close_body r.close_fails (read_set r)

  unfoldable pub fetch : Cache × Option FetchError
  fetch = if p.makes_request then respond p.response else (c, some no_request)

  -- The address has answered with this response, whose first bytes hold these entries.
  abbrev pub Answers : Response → List JwkEntry → Type 0
  Answers r entries =
      (p.makes_request ≡ true)
      × (p.response ≡ some r)
      × (r.status ≡ 200)
      × (p.decode_set (limit_reader max_jwks_bytes r.body) ≡ some entries)

  -- The cache stays as it is, there is an error and no set of keys came; or it holds the keys of
  -- the entries that came, fetched at `later`, and the only error is from the closing of the body.
  abbrev pub Takes : Cache × Option FetchError → Type 0
  Takes r =
      ((r.0 ≡ c) × (r.1 ≢ none) × ((a : Response) (entries : List JwkEntry) → ¬ Answers a entries))
      ⊎ ((a : Response) × (entries : List JwkEntry) × Answers a entries
          × (r.0 ≡ swap c later (keys_of p.decode p.parse_point entries []))
          × (r.1 ≡ (if a.close_fails then some closing_body else none)))

  replace-close_body :
      (fails : Bool) (entries : List JwkEntry)
      → let out = close_body fails (replace (some entries)) in
        (out.0 ≡ swap c later (keys_of p.decode p.parse_point entries []))
        × (out.1 ≡ (if fails then some closing_body else none))
  replace-close_body true entries = (refl, refl)
  replace-close_body false entries = (refl, refl)

  pub fetch-Takes : Takes fetch
  unfolding fetch read_set
  fetch-Takes = elim (Bool-cases p.makes_request) [
    | inr never ↦ rw never (inl (refl, (λ h. cc), (λ a entries (made, _, _, _). cc)))
    | inl made ↦ elim (Option-cases p.response) [
      | inl silent ↦ rw (made, silent) (inl (refl, (λ h. cc), (λ a entries (_, got, _, _). cc)))
      | inr (r, got) ↦ elim (Bool-cases (r.status == 200)) [
        | inr other ↦
            rw (made, got, other)
              (inl (
                refl,
                (λ h. cc),
                λ a entries (_, one, fine, _).
                    let e : r ≡ a = cc in let fine' : r.status ≡ 200 = rw e fine in ground arith,
              ))
        | inl fine ↦ elim (Option-cases (p.decode_set (limit_reader max_jwks_bytes r.body))) [
          | inl unread ↦
              rw (made, got, fine, unread)
                (inl (
                  refl,
                  (λ h. cc),
                  λ a entries (_, one, _, read).
                      let e : r ≡ a = cc in
                      let read' : p.decode_set (limit_reader max_jwks_bytes r.body) ≡ some entries =
                        rw e read in
                      let clash : none ≡ some entries = sym unread ∙ read' in cc,
                ))
          | inr (entries, read) ↦
              let (swapped, why) = replace-close_body r.close_fails entries in
              rw (made, got, fine, read)
                (inr (r, entries, (refl, refl, ground (arith), read), swapped, why))
        ]
      ]
    ]
  ]

  abbrev pub IsSafeSet : Dict PublicKey → Type 0
  IsSafeSet = All (λ (e : Text × PublicKey). (e.0 ≢ []) × IsStrong p.parse_point e.1)

  -- The cache stays as it is, there is an error and no set of keys came; or it holds safe keys now,
  -- fetched at `later`: under each key id the key of the last entry with that id that gives one.
  -- The only error is then from the closing of the body.
  abbrev pub Replaces : Cache × Option FetchError → Type 0
  Replaces r =
      ((r.0 ≡ c) × (r.1 ≢ none) × ((a : Response) (entries : List JwkEntry) → ¬ Answers a entries))
      ⊎ ((r.0 ≡ swap c later r.0.keys)
          × IsSafeSet r.0.keys
          × ((a : Response) × (entries : List JwkEntry) × Answers a entries
              × ((kid : Text) → lookup kid r.0.keys ≡ last_key p.decode p.parse_point kid entries)
              × (r.1 ≡ (if a.close_fails then some closing_body else none))))

  -- Where decoded base64 consists of bytes, whatever the key set's address answers: if it has
  -- answered with status 200 and with entries in the first MiB of the body, the cache holds under
  -- each key id the key of the last of these entries with that id that gives a key, all the keys
  -- have a key id and are strong, and `fetch` returns an error only if the body does not close.
  -- Otherwise the cache stays as it is and `fetch` returns an error.
  pub fetch-Replaces : ((s bs : Text) → p.decode s ≡ some bs → IsBytes bs) → Replaces fetch
  fetch-Replaces bytes = elim fetch-Takes [
    | inl kept ↦ inl kept
    | inr (a, entries, came, swapped, why) ↦ inr (
      rw swapped refl,
      rw swapped (fetched_keys_safe p.decode p.parse_point bytes entries),
      (
        a,
        entries,
        came,
        (λ kid. rw swapped (lookup-keys_of p.decode p.parse_point kid entries)),
        why,
      ),
    )
  ]
