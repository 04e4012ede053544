-- ===== src/Store/Migrate.antt =====
-- `migrate`, `applyMigration` and `versionOf` of internal/store/store.go. The database driver is a
-- parameter, as are the embedded files: their names and bodies, in the order of the names.
pub mod Books
pub mod Upgrade
pub mod Restart
use go_webapp_template.Base.{
  ℕ, Bool, true, false, not, Option, none, some, List, [], ◌∷◌, ◌++◌, ◌>>=◌, any, ◌==◌,
  if◌then◌else◌,
}
use go_webapp_template.Base.Text.{Text, text, same}
use go_webapp_template.Auth.Providers.{trim_suffix}
use go_webapp_template.Store.Entries.{Cursor}

-- How `Commit` ends, and the database as it leaves it.
pub data Committed {ℓ} (A : Type ℓ) : Type ℓ where
  committed_to commit_failed : A → Committed A

-- database/sql, as far as a migration calls it; `none` is an error.
pub record Driver : Type 1 where
  pub Db : Type 0
  pub Tx : Type 0
  pub create_table : Db → Option Db
  pub Row : Type 0
  pub query_versions : Db → Option (Cursor Row)
  pub scan_version : Row → Option Text
  pub begin_tx : Db → Option Tx
  pub exec : Text → Tx → Option Tx
  pub insert_version : Text → Tx → Option Tx
  pub commit : Tx → Committed Db
  -- Whether `Rollback` gives an error that is not `sql.ErrTxDone`.
  pub rollback_fails : Tx → Bool

pub data MigrateError : Type 0 where
  creating reading closing_rows : MigrateError
  newer migration rolling_back : (version : Text) → MigrateError

-- The error, if there is one, and the database as it is left.
pub data Outcome {ℓ} (A : Type ℓ) : Type ℓ where
  migrated : A → Outcome A
  stopped : MigrateError → A → Outcome A

-- `name[strings.LastIndex(name, "/")+1:]`, from the part after the last slash so far.
unfoldable pub base_from : Text → Text → Text
base_from base [] = base
base_from base (c ∷ s) = base_from (if c == b'/' then s else base) s

unfoldable pub version_of : Text → Text
unfolding base_from text
version_of name = trim_suffix (base_from name name) (text ".up.sql")

-- How `applyMigration` ends: with an error before the commit, with one of the commit, or after it,
-- where the deferred rollback may still give one.
pub data Applied {ℓ} (A : Type ℓ) : Type ℓ where
  unapplied : Applied A
  uncommitted : A → Applied A
  done_with : (rollback_failed : Bool) → A → Applied A

abbrev pub then_do {ℓ} : {A B : Type ℓ} → Option A → (A → Applied B) → Applied B
then_do none f = unapplied
then_do (some a) f = f a

abbrev pub is_in : Text → List Text → Bool
is_in v vs = any (λ w. same w v) vs

-- `known`: the versions of the files.
unfoldable pub versions_of : List (Text × Text) → List Text
unfolding version_of
versions_of [] = []
versions_of ((name, body) ∷ files) = version_of name ∷ versions_of files

-- The first applied version that no file has.
unfoldable pub first_unknown : List Text → List Text → Option Text
first_unknown known [] = none
first_unknown known (v ∷ applied) =
    let rest = first_unknown known applied in if is_in v known then rest else some v

module _ (d : Driver) where
  abbrev pub committing : d.Tx → Committed d.Db → Applied d.Db
  committing tx (commit_failed db) = uncommitted db
  committing tx (committed_to db) = done_with (d.rollback_fails tx) db

  -- A transaction that fails before its commit is rolled back: the database stays as it was.
  unfoldable pub apply_migration : d.Db → Text → Text → Applied d.Db
  apply_migration db version body = then_do (d.begin_tx db) (λ tx.
      then_do (d.exec body tx)
        (λ tx'. then_do (d.insert_version version tx') (λ tx''. committing tx'' (d.commit tx''))))

  abbrev pub go_on : Text → d.Db → Applied d.Db → (d.Db → Outcome d.Db) → Outcome d.Db
  go_on version db unapplied rest = stopped (migration version) db
  go_on version db (uncommitted db') rest = stopped (migration version) db'
  go_on version db (done_with true db') rest = stopped (rolling_back version) db'
  go_on version db (done_with false db') rest = rest db'

  -- The loop over the files.
  unfoldable pub apply_pending : List (Text × Text) → List Text → d.Db → Outcome d.Db
  unfolding apply_migration version_of
  apply_pending [] applied db = migrated db
  apply_pending ((name, body) ∷ files) applied db =
      let version = version_of name in
      let rest = apply_pending files applied in
      if is_in version applied
      then rest db
      else go_on version db (apply_migration db version body) rest

  abbrev pub unless_newer : List (Text × Text) → List Text → d.Db → Option Text → Outcome d.Db
  unless_newer files applied db none = apply_pending files applied db
  unless_newer files applied db (some v) = stopped (newer v) db

  -- The loop over the rows of `schema_migrations`, behind the versions so far.
  unfoldable pub scan_versions : List Text → List d.Row → Option (List Text)
  scan_versions vs [] = some vs
  scan_versions vs (r ∷ rows) = d.scan_version r >>= λ v. scan_versions (vs ++ v ∷ []) rows

  -- What follows that loop, before the deferred function: `broken` is what `Err` tells.
  abbrev pub migrate_scanned : List (Text × Text) → d.Db → Bool → Option (List Text) → Outcome d.Db
  migrate_scanned files db broken none = stopped reading db
  migrate_scanned files db true (some vs) = stopped reading db
  migrate_scanned files db false (some vs) =
      unless_newer files vs db (first_unknown (versions_of files) vs)

  -- The deferred function that closes the rows, on the error so far.
  abbrev pub close_version_rows : Bool → Outcome d.Db → Outcome d.Db
  close_version_rows fails (stopped why db) = stopped why db
  close_version_rows true (migrated db) = stopped closing_rows db
  close_version_rows false (migrated db) = migrated db

  -- What follows the query.
  abbrev pub migrate_read : List (Text × Text) → d.Db → Option (Cursor d.Row) → Outcome d.Db
  migrate_read files db none = stopped reading db
  migrate_read files db (some rows) =
      close_version_rows rows.close_fails
        (migrate_scanned files db rows.broken (scan_versions [] rows.rows))

  abbrev pub migrate_created : List (Text × Text) → d.Db → Option d.Db → Outcome d.Db
  migrate_created files db none = stopped creating db
  migrate_created files db (some db') = migrate_read files db' (d.query_versions db')

  unfoldable pub migrate : List (Text × Text) → d.Db → Outcome d.Db
  unfolding apply_pending first_unknown versions_of scan_versions
  migrate files db = migrate_created files db (d.create_table db)
