-- ===== src/Api/Audit.antt =====
-- The audit lines of internal/api/handlers.go and internal/ui/ui.go ("config changed"), and what a
-- request does to the store, to the limiter and to these lines.
pub mod Handlers
pub mod Chain
pub mod Quota
use mathlib.Core.List.{append-nil}
use go_webapp_template.Base.{◌≡◌, ◌⊎◌, refl, ap, ◌∙◌, true, Option, none, some, List, [], ◌∷◌, ◌++◌}
use go_webapp_template.Base.Text.{Text}
use go_webapp_template.Base.Time.{Time}
use go_webapp_template.Http.{Request}
use go_webapp_template.Auth.Principal.{Principal}
use go_webapp_template.RateLimit.{allow}
use go_webapp_template.Api.Middleware.{encoding_lines}
use go_webapp_template.Api.Env.{Env, ok, World, Io, LogLine, access, failed, config_changed}

-- Who has changed which key, in the order of the log.
abbrev pub changes : List LogLine → List (Text × Text)
changes [] = []
changes (access debug method path status id subject ∷ lines) = changes lines
changes (failed message why id ∷ lines) = changes lines
changes (config_changed subject key id ∷ lines) = (subject, key) ∷ changes lines

pub changes-append :
    (lines more : List LogLine) → changes (lines ++ more) ≡ changes lines ++ changes more
changes-append [] more = refl
changes-append (access debug method path status id subject ∷ lines) more = changes-append lines more
changes-append (failed message why id ∷ lines) more = changes-append lines more
changes-append (config_changed subject key id ∷ lines) more =
    ap (λ l. (subject, key) ∷ l) (changes-append lines more)

-- A line of another kind.
pub changes-other :
    (lines : List LogLine) (l : LogLine)
    → changes (l ∷ []) ≡ []
    → changes (lines ++ l ∷ []) ≡ changes lines
changes-other lines l h =
    changes-append lines (l ∷ []) ∙ ap (λ m. changes lines ++ m) h ∙ append-nil (changes lines)

pub changes-encoding :
    (lines : List LogLine) (message : Text) (o : Option Text)
    → changes (lines ++ encoding_lines message o) ≡ changes lines
changes-encoding lines message none = ap changes (append-nil lines)
changes-encoding lines message (some why) = changes-other lines (failed message why []) refl

-- A line of an error in front of it.
pub changes-failed :
    (lines : List LogLine) (l : LogLine) (message : Text) (o : Option Text)
    → changes (l ∷ []) ≡ []
    → changes ((lines ++ l ∷ []) ++ encoding_lines message o) ≡ changes lines
changes-failed lines l message o h =
    changes-encoding (lines ++ l ∷ []) message o ∙ changes-other lines l h

module _ {e : Env} where
  abbrev pub Kept : World e → World e → Type 0
  Kept w w' = (w'.db ≡ w.db) × (changes w'.logs ≡ changes w.logs)

  -- One entry set, with one audit line that names the subject and the key.
  abbrev pub Audited : World e → Text → World e → Type 0
  Audited w subject w' =
      (key : Text) × (value : Text) × (e.set_config w.db key value ≡ ok w'.db)
      × (changes w'.logs ≡ changes w.logs ++ (subject, key) ∷ [])

  abbrev pub Quiet : World e → World e → Type 0
  Quiet w w' = (w'.limiter ≡ w.limiter) × Kept w w'

  -- One call of the limiter, and only if it is granted an entry set.
  abbrev pub Tried : World e → Time → Text → World e → Type 0
  Tried w now subject w' =
      (w'.limiter ≡ (allow w.limiter now subject).0)
      × (Kept w w' ⊎ (((allow w.limiter now subject).1 ≡ true) × Audited w subject w'))

  -- A request behind the authentication, and a request from outside.
  abbrev pub MuxAudit : Io e → World e → Type 0
  MuxAudit io w' =
      Quiet io.world w'
      ⊎ ((p : Principal) × (io.request.context.principal ≡ some p)
          × Tried io.world io.now p.subject w')

  abbrev pub Audit : Io e → World e → Type 0
  Audit io w' =
      Quiet io.world w'
      ⊎ ((p : Principal) × (seen : Request) × ((e.authenticate seen io.now io.world.auth).0 ≡ ok p)
          × Tried io.world io.now p.subject w')
