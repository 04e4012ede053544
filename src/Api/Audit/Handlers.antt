-- ===== src/Api/Audit/Handlers.antt =====
-- The handlers behind the muxes of internal/api/routes.go, by what they do to the audit lines.
use go_webapp_template.Base.{
  ◌≡◌, ◌⊎◌, inl, inr, refl, ap, ◌∙◌, true, Option, none, some, sym, Bool, false, not, if◌then◌else◌,
  Bool-cases, Option-cases, ℕ, ◌++◌, ◌∷◌, [],
}
use go_webapp_template.Base.Text.{Text, text}
use go_webapp_template.Auth.Principal.{Principal}
use go_webapp_template.Http.{or_empty}
use go_webapp_template.RateLimit.{allow}
use go_webapp_template.Store.Key.{valid_config_key}
use go_webapp_template.Api.Env.{
  Env, Result, ok, err, World, Io, Handler, Decoded, decoded, too_large, malformed,
}
use go_webapp_template.Api.Middleware.{
  subject_of, holds_role, require_role, admin_middleware, limit_principal, with_limiter, refuse,
}
use go_webapp_template.Api.Handlers.{
  is_json, store_value, store_decoded, put_config, me, list_config, readyz, log_config_changed,
  set_db,
}
use go_webapp_template.Api.Ui.{
  data_of, render, store_form_value, store_form, ui_put_config, log_template,
}
use go_webapp_template.Api.Audit.{
  changes-append, changes-other, changes-encoding, changes-failed, Kept, Audited, Quiet, Tried,
  MuxAudit,
}

pub Result-cases :
    {A : Type 0} (r : Result A) → ((a : A) × (r ≡ ok a)) ⊎ ((why : Text) × (r ≡ err why))
Result-cases (ok a) = inl (a, refl)
Result-cases (err why) = inr (why, refl)

module _ {e : Env} where
  abbrev pub who : Io e → Text
  who io = or_empty (subject_of io.request.context.principal)

  -- A handler of a mutation: it leaves the limiter alone, and sets an entry with its line or none.
  abbrev pub Edits : Io e → World e → Type 0
  Edits io w' = (w'.limiter ≡ io.world.limiter) × (Kept io.world w' ⊎ Audited io.world (who io) w')

  log_template-Quiet :
      (w : World e) (o : Option Text) (io : Io e)
      → Quiet w io.world
      → Quiet w (log_template o io).world
  log_template-Quiet w none io h = h
  log_template-Quiet w (some why) io (limiter, (db, lines)) =
      (limiter, (db, changes-other io.world.logs _ refl ∙ lines))

  pub render-Quiet : (name : Text) (io : Io e) → Quiet io.world (render name io).world
  unfolding render
  render-Quiet name io = elim (Result-cases (data_of io)) [
    | inl (d, found) ↦ rw (found, render) (log_template-Quiet io.world _ _ (refl, (refl, refl)))
    | inr (why, failed) ↦
        rw (failed, render) (refl, (refl, changes-failed io.world.logs _ _ _ refl))
  ]

  store_value-Edits : (key value : Text) (io : Io e) → Edits io (store_value key value io).world
  unfolding store_value
  store_value-Edits key value io = elim (Result-cases (e.set_config io.world.db key value)) [
    | inl (db, set) ↦
        rw (set, store_value)
          (
            refl,
            inr (
              key,
              value,
              set,
              changes-encoding (io.world.logs ++ _ ∷ []) _ _ ∙ changes-append io.world.logs _,
            ),
          )
    | inr (why, failed) ↦
        rw (failed, store_value) (refl, inl (refl, changes-failed io.world.logs _ _ _ refl))
  ]

  store_form_value-Edits :
      (key value : Text) (io : Io e) → Edits io (store_form_value key value io).world
  unfolding store_form_value
  store_form_value-Edits key value io = elim (Result-cases (e.set_config io.world.db key value)) [
    | inl (db, set) ↦
        let io' = log_config_changed key (set_db db io) in
        let (limiter, (same_db, lines)) = render-Quiet (text "home") io' in
        rw (set, store_form_value)
          (
            limiter,
            inr (
              key,
              value,
              set ∙ ap (λ d. ok d) (sym same_db),
              lines ∙ changes-append io.world.logs _,
            ),
          )
    | inr (why, failed) ↦
        rw (failed, store_form_value) (refl, inl (refl, changes-failed io.world.logs _ _ _ refl))
  ]

  store_decoded-Edits :
      (key : Text) (d : Decoded) (io : Io e) → Edits io (store_decoded key d io).world
  unfolding store_decoded
  store_decoded-Edits key (decoded value) io = store_value-Edits key value io
  store_decoded-Edits key (too_large why) io =
      (refl, inl (refl, changes-failed io.world.logs _ _ _ refl))
  store_decoded-Edits key (malformed why) io =
      (refl, inl (refl, changes-failed io.world.logs _ _ _ refl))

  if-Edits :
      (b : Bool) (io x y : Io e)
      → Edits io x.world
      → Edits io y.world
      → Edits io (if b then x else y).world
  if-Edits true io x y h k = h
  if-Edits false io x y h k = k

  unchanged : (io : Io e) → Edits io io.world
  unchanged io = (refl, inl (refl, refl))

  refused : (io : Io e) (status : ℕ) (detail : Text) → Edits io (refuse status detail io).world
  refused io status detail = (refl, inl (refl, changes-encoding io.world.logs _ _))

  pub put_config-Edits : (key : Text) (io : Io e) → Edits io (put_config key io).world
  unfolding put_config
  put_config-Edits key io = if-Edits (not (valid_config_key key)) io _ _ (refused io _ _) (
      if-Edits (not (is_json e io.request)) io _ _ (refused io _ _)
        (store_decoded-Edits key (e.decode_body io.request.limit io.request.body) io))

  store_form-Edits :
      (key : Text) (failure : Option Text) (io : Io e) → Edits io (store_form key failure io).world
  unfolding store_form
  store_form-Edits key (some why) io = refused io _ _
  store_form-Edits key none io =
      if-Edits (not (valid_config_key key)) io _ _ (refused io _ _)
        (store_form_value-Edits key (e.post_form_value io.request (text "value")) io)

  pub ui_put_config-Edits : (key : Text) (io : Io e) → Edits io (ui_put_config key io).world
  unfolding ui_put_config
  ui_put_config-Edits key io = store_form-Edits key (e.parse_form io.request) io

  pub me-Quiet : (io : Io e) → Quiet io.world (me io).world
  unfolding me
  me-Quiet io = elim (Option-cases io.request.context.principal) [
    | inl missing ↦ rw (missing, me) (refl, (refl, changes-encoding io.world.logs _ _))
    | inr (p, found) ↦ rw (found, me) (refl, (refl, changes-encoding io.world.logs _ _))
  ]

  pub list_config-Quiet : (io : Io e) → Quiet io.world (list_config io).world
  unfolding list_config
  list_config-Quiet io = elim (Result-cases (e.list_config io.world.db)) [
    | inl (entries, found) ↦
        rw (found, list_config) (refl, (refl, changes-encoding io.world.logs _ _))
    | inr (why, failed) ↦
        rw (failed, list_config) (refl, (refl, changes-failed io.world.logs _ _ _ refl))
  ]

  pub readyz-Quiet : (io : Io e) → Quiet io.world (readyz io).world
  unfolding readyz
  readyz-Quiet io = elim (Option-cases (e.ping io.world.db)) [
    | inl up ↦ rw (up, readyz) (refl, (refl, changes-encoding io.world.logs _ _))
    | inr (why, down) ↦ rw (down, readyz) (refl, (refl, changes-failed io.world.logs _ _ _ refl))
  ]

  -- The guards in front of a mutation: the limiter is called once for the subject, and what the
  -- handler behind them does is done only if the call is granted.
  granted-Tried :
      (io : Io e) (p : Principal) (io' : Io e)
      → io.request.context.principal ≡ some p
      → (allow io.world.limiter io.now p.subject).1 ≡ true
      → Edits (with_limiter (allow io.world.limiter io.now p.subject).0 io) io'.world
      → Tried io.world io.now p.subject io'.world
  granted-Tried io p io' found granted (limiter, inl kept) = (limiter, inl kept)
  granted-Tried io p io' found granted (limiter, inr audited) =
      (limiter, inr (granted, rw found at audited))

  require_role-Edits :
      (role : Text) (next : Handler e) (io : Io e)
      → Edits io (next io).world
      → Edits io (require_role role next io).world
  unfolding require_role
  require_role-Edits role next io h =
      if-Edits (holds_role role io.request.context.principal) io _ _ h (refused io _ _)

  limit_principal-MuxAudit :
      (next : Handler e) (io : Io e) (found : Option Principal)
      → io.request.context.principal ≡ found
      → ((io' : Io e) → Edits io' (next io').world)
      → MuxAudit io (limit_principal (require_role (text "admin") next) found io).world
  unfolding limit_principal
  limit_principal-MuxAudit next io none same edits =
      inl (refl, (refl, changes-encoding io.world.logs _ _))
  limit_principal-MuxAudit next io (some p) same edits =
      let io' = with_limiter (allow io.world.limiter io.now p.subject).0 io in
      elim (Bool-cases (allow io.world.limiter io.now p.subject).1) [
        | inr refused ↦
            rw (refused, limit_principal)
              (inr (p, same, (refl, inl (refl, changes-encoding io.world.logs _ _))))
        | inl granted ↦
            let out = require_role (text "admin") next io' in
            let tried : Tried io.world io.now p.subject out.world =
              granted-Tried io p out same granted
                (require_role-Edits (text "admin") next io' (edits io')) in
            rw (granted, limit_principal) (inr (p, same, tried))
      ]

  pub admin_only-MuxAudit :
      (next : Handler e) (io : Io e)
      → ((io' : Io e) → Edits io' (next io').world)
      → MuxAudit io (admin_middleware (require_role (text "admin") next) io).world
  unfolding admin_middleware
  admin_only-MuxAudit next io edits =
      limit_principal-MuxAudit next io io.request.context.principal refl edits
