-- ===== src/Api/Guards.antt =====
-- What each guard of internal/api and internal/auth lets through.
use go_webapp_template.Base.{◌≡◌, ◌⊎◌, inl, inr, refl, true, Option, none, some, Bool-cases, arith}
use go_webapp_template.Base.Text.{Text, text}
use go_webapp_template.Auth.Principal.{Principal, has_role}
use go_webapp_template.Http.{header_get, is_get_or_head}
use go_webapp_template.RateLimit.{allow}
use go_webapp_template.Store.Key.{valid_config_key}
use go_webapp_template.Api.Env.{
  Env, Result, ok, err, Io, Handler, Decoded, decoded, too_large, malformed,
}
use go_webapp_template.Api.Middleware.{
  holds_role, has_mutation_header, is_trusted_site, csrf, require_role, admin_middleware,
  limit_principal, answer_principal, with_limiter, with_principal,
}
use go_webapp_template.Api.Handlers.{is_json, store_value, store_decoded, put_config}
use go_webapp_template.Api.Ui.{store_form_value, store_form, ui_put_config}

-- What a handler of a mutation may do to the store under a key.
abbrev pub Stores : (e : Env) → Text → e.Db → e.Db → Type 0
Stores e key db db' =
    (db' ≡ db)
    ⊎ ((valid_config_key key ≡ true) × (value : Text) × (e.set_config db key value ≡ ok db'))

module _ {e : Env} where
  pub require_role_cases :
      (role : Text) (next : Handler e) (io : Io e)
      → ((holds_role role io.request.context.principal ≡ true)
          × (require_role role next io ≡ next io))
        ⊎ ((require_role role next io).world.db ≡ io.world.db)
  unfolding require_role
  require_role_cases role next io =
      elim (Bool-cases (holds_role role io.request.context.principal)) [
        | inl holds ↦ inl (holds, rw holds)
        | inr lacks ↦ inr (rw lacks)
      ]

  pub csrf_cases :
      (next : Handler e) (io : Io e)
      → ((is_get_or_head io.request ≡ true) × (csrf next io ≡ next io))
        ⊎ (((has_mutation_header io.request ≡ true)
              × (is_trusted_site (header_get io.request (text "Sec-Fetch-Site")) ≡ true)
              × (csrf next io ≡ next io))
            ⊎ ((csrf next io).world.db ≡ io.world.db))
  unfolding csrf
  csrf_cases next io = elim (Bool-cases (is_get_or_head io.request)) [
    | inl safe ↦ inl (safe, rw safe)
    | inr unsafe ↦ elim (Bool-cases (has_mutation_header io.request)) [
      | inr bare ↦ inr (inr (rw (unsafe, bare)))
      | inl header ↦
          elim (Bool-cases (is_trusted_site (header_get io.request (text "Sec-Fetch-Site")))) [
            | inl site ↦ inr (inl (header, site, rw (unsafe, header, site)))
            | inr cross ↦ inr (inr (rw (unsafe, header, cross)))
          ]
    ]
  ]

  abbrev pub limited : Io e → Principal → Io e
  limited io p = with_limiter (allow io.world.limiter io.now p.subject).0 io

  pub limit_principal_cases :
      (next : Handler e) (found : Option Principal) (io : Io e)
      → ((p : Principal) × (found ≡ some p)
          × ((allow io.world.limiter io.now p.subject).1 ≡ true)
          × (limit_principal next found io ≡ next (limited io p)))
        ⊎ ((limit_principal next found io).world.db ≡ io.world.db)
  unfolding limit_principal
  limit_principal_cases next none io = inr refl
  limit_principal_cases next (some p) io =
      elim (Bool-cases (allow io.world.limiter io.now p.subject).1) [
        | inl allowed ↦ inl (p, refl, allowed, rw allowed)
        | inr refused ↦ inr (rw refused)
      ]

  abbrev pub authenticated : Io e → Principal → Io e
  authenticated io p = record io {
    request = record (io.request) { context = with_principal p io.request.context };
  }

  pub answer_principal_cases :
      (next : Handler e) (result : Result Principal) (io : Io e)
      → ((p : Principal) × (result ≡ ok p)
          × ((answer_principal next result io).world ≡ (next (authenticated io p)).world))
        ⊎ ((answer_principal next result io).world.db ≡ io.world.db)
  unfolding answer_principal
  answer_principal_cases next (ok p) io = inl (p, refl, refl)
  answer_principal_cases next (err why) io = inr refl

  store_value-db :
      (key value : Text) (io : Io e)
      → ((store_value key value io).world.db ≡ io.world.db)
        ⊎ (e.set_config io.world.db key value ≡ ok (store_value key value io).world.db)
  unfolding store_value
  store_value-db key value io = ground arith

  store_form_value-db :
      (key value : Text) (io : Io e)
      → ((store_form_value key value io).world.db ≡ io.world.db)
        ⊎ (e.set_config io.world.db key value ≡ ok (store_form_value key value io).world.db)
  unfolding store_form_value
  store_form_value-db key value io = ground arith

  store_decoded-Stores :
      (key : Text) (d : Decoded) (io : Io e)
      → valid_config_key key ≡ true
      → Stores e key io.world.db (store_decoded key d io).world.db
  unfolding store_decoded
  store_decoded-Stores key (decoded value) io valid = elim (store_value-db key value io) [
    | inl kept ↦ inl kept
    | inr stored ↦ inr (valid, value, stored)
  ]
  store_decoded-Stores key (too_large why) io valid = inl refl
  store_decoded-Stores key (malformed why) io valid = inl refl

  pub put_config-Stores :
      (key : Text) (io : Io e) → Stores e key io.world.db (put_config key io).world.db
  unfolding put_config
  put_config-Stores key io = elim (Bool-cases (valid_config_key key)) [
    | inr invalid ↦ inl (rw invalid)
    | inl valid ↦ elim (Bool-cases (is_json e io.request)) [
      | inr other ↦ inl (rw (valid, other))
      | inl json ↦
          let d = e.decode_body io.request.limit io.request.body in
          let passed : put_config key io ≡ store_decoded key d io = rw (valid, json) in
          rw passed (store_decoded-Stores key d io valid)
    ]
  ]

  store_form-Stores :
      (key : Text) (failure : Option Text) (io : Io e)
      → Stores e key io.world.db (store_form key failure io).world.db
  unfolding store_form
  store_form-Stores key (some why) io = inl refl
  store_form-Stores key none io = elim (Bool-cases (valid_config_key key)) [
    | inr invalid ↦ inl (rw invalid)
    | inl valid ↦
        let value = e.post_form_value io.request (text "value") in
        let passed : store_form key none io ≡ store_form_value key value io = rw valid in
        rw passed (elim (store_form_value-db key value io) [
          | inl kept ↦ inl kept
          | inr stored ↦ inr (valid, value, stored)
        ])
  ]

  pub ui_put_config-Stores :
      (key : Text) (io : Io e) → Stores e key io.world.db (ui_put_config key io).world.db
  unfolding ui_put_config
  ui_put_config-Stores key io = store_form-Stores key (e.parse_form io.request) io

  -- The guards in front of the mutation of the API and of that of the UI.
  pub admin_only :
      (key : Text) (next : Handler e) (io : Io e)
      → ((io' : Io e) → Stores e key io'.world.db (next io').world.db)
      → let io' = admin_middleware (require_role (text "admin") next) io in
        (io'.world.db ≡ io.world.db)
        ⊎ ((p : Principal) × (io.request.context.principal ≡ some p)
            × ((allow io.world.limiter io.now p.subject).1 ≡ true)
            × (has_role p (text "admin") ≡ true)
            × (valid_config_key key ≡ true)
            × (value : Text) × (e.set_config io.world.db key value ≡ ok io'.world.db))
  unfolding admin_middleware
  admin_only key next io stores =
      elim (limit_principal_cases (require_role (text "admin") next) io.request.context.principal
        io) [
          | inr kept ↦ inl kept
          | inl (p, found, allowed, passed) ↦
              elim (require_role_cases (text "admin") next (limited io p)) [
                | inr kept ↦ inl (rw passed kept)
                | inl (holds, same_next) ↦ elim (stores (limited io p)) [
                  | inl kept ↦ inl (rw (passed, same_next) kept)
                  | inr (valid, value, stored) ↦ inr (
                    p,
                    found,
                    allowed,
                    rw found at holds,
                    valid,
                    value,
                    rw (passed, same_next) stored,
                  )
                ]
              ]
        ]
