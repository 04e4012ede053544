-- ===== src/Store/Open.antt =====
-- `Open`, `Ping` and `Close` of internal/store/store.go, over the driver of the migrations and the
-- calls that open, set up and close its handle.
use go_webapp_template.Base.{
  ℕ, ◌≡◌, ◌≢◌, refl, Bool, true, false, Option, none, some, List, [], ◌∷◌, if◌then◌else◌,
}
use go_webapp_template.Base.Text.{Text, text}
use go_webapp_template.Store.Migrate.{Driver, MigrateError, Outcome, migrated, stopped, migrate}
use go_webapp_template.Store.Migrate.Books.{Bookkeeping, pending}
use go_webapp_template.Store.Migrate.Restart.{migrate-idempotent}

-- database/sql, as far as `Open` and `Close` call it: `none` and `false` are errors.
pub record Connector (d : Driver) : Type 0 where
  pub open_path : Text → Option d.Db
  pub set_max_open_conns : ℕ → d.Db → d.Db
  pub exec_pragma : Text → d.Db → Option d.Db
  pub ping : d.Db → Bool
  pub close : d.Db → Bool

pub data OpenError : Type 0 where
  opening enabling_wal pinging closing : OpenError
  migrating : MigrateError → OpenError

-- The store, the errors joined, and the handles that were closed.
pub record Opened (d : Driver) : Type 0 where
  pub store : Option d.Db
  pub errors : List OpenError
  pub closed : List d.Db

-- What `Open` comes to behind `sql.Open`, before its deferred function.
pub data Prepared (d : Driver) : Type 0 where
  ready : d.Db → Prepared d
  gave_up : OpenError → d.Db → Prepared d

-- The handles that are to be closed: one, where `sql.Open` gave one.
abbrev pub OneClosed {ℓ} : {A : Type ℓ} → Option A → List A → Type ℓ
OneClosed none dbs = dbs ≡ []
OneClosed {A} (some handle) dbs = (db : A) × (dbs ≡ db ∷ [])

module _ {d : Driver} where
  abbrev from_migrate : Outcome d.Db → Prepared d
  from_migrate (migrated db) = ready db
  from_migrate (stopped why db) = gave_up (migrating why) db

  module _ (c : Connector d) where
    -- What follows the PRAGMA, whose failure leaves the handle `db`.
    abbrev pub with_wal : List (Text × Text) → d.Db → Option d.Db → Prepared d
    with_wal files db none = gave_up enabling_wal db
    with_wal files db (some db') =
        let rest = from_migrate (migrate d files db') in
        if c.ping db' then rest else gave_up pinging db'

    unfoldable pub prepare : List (Text × Text) → d.Db → Prepared d
    prepare files db = with_wal files db (c.exec_pragma (text "PRAGMA journal_mode=WAL") db)

    -- The deferred function.
    unfoldable pub conclude : Prepared d → Opened d
    conclude (ready db) = record { store = some db; errors = []; closed = [] }
    conclude (gave_up why db) = record {
      store = none;
      errors = why ∷ (if c.close db then [] else closing ∷ []);
      closed = db ∷ [];
    }

    abbrev pub set_up : List (Text × Text) → Option d.Db → Opened d
    set_up files none = record { store = none; errors = opening ∷ []; closed = [] }
    set_up files (some db) = conclude (prepare files (c.set_max_open_conns 1 db))

    unfoldable pub open_store : List (Text × Text) → Text → Opened d
    unfolding prepare conclude
    open_store files path = set_up files (c.open_path path)

  -- A store that is as told, with the handle left open; or errors, and the handle closed.
  abbrev pub KeepsOrCloses : (d.Db → Type 0) → Option d.Db → Opened d → Type 0
  KeepsOrCloses IsReady handle o = elim o.store [
    | some db ↦ IsReady db × (o.errors ≡ []) × (o.closed ≡ []) × (handle ≢ none)
    | none ↦ (o.errors ≢ []) × OneClosed handle o.closed
  ]

  module _ (c : Connector d) (files : List (Text × Text)) (IsReady : d.Db → Type 0)
      (ready_then : (db db' : d.Db) → migrate d files db ≡ migrated db' → IsReady db') where
    conclude-from_migrate :
        (handle db : d.Db) (o : Outcome d.Db)
        → migrate d files db ≡ o
        → KeepsOrCloses IsReady (some handle) (conclude c (from_migrate o))
    unfolding conclude
    conclude-from_migrate handle db (migrated db') h = (ready_then db db' h, refl, refl, (λ e. cc))
    conclude-from_migrate handle db (stopped why db') h = ((λ e. cc), (db', refl))

    conclude-if :
        (handle db : d.Db) (up : Bool)
        → KeepsOrCloses IsReady
            (some handle)
            (conclude c (if up then from_migrate (migrate d files db) else gave_up pinging db))
    unfolding conclude
    conclude-if handle db true = conclude-from_migrate handle db (migrate d files db) refl
    conclude-if handle db false = ((λ e. cc), (db, refl))

    conclude-with_wal :
        (handle db : d.Db) (o : Option d.Db)
        → KeepsOrCloses IsReady (some handle) (conclude c (with_wal c files db o))
    unfolding conclude
    conclude-with_wal handle db none = ((λ e. cc), (db, refl))
    conclude-with_wal handle db (some db') = conclude-if handle db' (c.ping db')

    set_up-KeepsOrCloses : (o : Option d.Db) → KeepsOrCloses IsReady o (set_up c files o)
    unfolding prepare
    set_up-KeepsOrCloses none = ((λ e. cc), refl)
    set_up-KeepsOrCloses (some handle) = conclude-with_wal handle (c.set_max_open_conns 1 handle) _

    pub open_store-KeepsOrCloses :
        (path : Text) → KeepsOrCloses IsReady (c.open_path path) (open_store c files path)
    unfolding open_store
    open_store-KeepsOrCloses path = set_up-KeepsOrCloses (c.open_path path)

  abbrev pub OpensOrCloses : Bookkeeping d → List (Text × Text) → Option d.Db → Opened d → Type 0
  OpensOrCloses books files = KeepsOrCloses (λ db. pending files (books.recorded db) ≡ [])

  -- For a driver that keeps the rows of `schema_migrations` as documented: `Open` returns either a
  -- store in which no migration is pending, without an error and with the handle that `sql.Open`
  -- gave left open, or errors, and then the handle, if `sql.Open` gave one, was closed exactly
  -- once.
  pub open_store-OpensOrCloses :
      (c : Connector d) (books : Bookkeeping d) (files : List (Text × Text)) (path : Text)
      → OpensOrCloses books files (c.open_path path) (open_store c files path)
  open_store-OpensOrCloses c books files =
      open_store-KeepsOrCloses c files (λ db. pending files (books.recorded db) ≡ [])
        (λ db db' h. (migrate-idempotent d books files db db' h).0)
