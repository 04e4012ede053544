-- ===== src/Store/Migrate/Upgrade.antt =====
-- What a run of `migrate` of internal/store/store.go leaves in `schema_migrations`, however it
-- ends.
use mathlib.Core.List.{append-nil, append_assoc}
use go_webapp_template.Base.{
  Bool, ◌||◌, sym, arith, Option-cases, >>=-eq-some, ◌≡◌, refl, ap, ◌∙◌, true, false, Option, none,
  some, List, [], ◌∷◌, ◌++◌, Bool-cases, inl, inr,
}
use go_webapp_template.Base.Text.{Text, same}
use go_webapp_template.Store.Entries.{Cursor}
use go_webapp_template.Store.Migrate.{
  Driver, MigrateError, newer, reading, creating, Committed, committed_to, commit_failed,
  uncommitted, Outcome, migrated, stopped, version_of, is_in, Applied, unapplied, done_with,
  committing, scan_versions, migrate_scanned, close_version_rows, versions_of, first_unknown, go_on,
  apply_migration, apply_pending, unless_newer, migrate_read, migrate_created, migrate,
}
use go_webapp_template.Store.Migrate.Books.{
  Scans, Bookkeeping, pending, pending-cong, AllKnown, left, Ends, Ends-cong, LoopEnds,
  LoopEnds-cons, first_unknown-none, first_unknown-some, loop-Ends,
}

module _ (d : Driver) (books : Bookkeeping d) where
  scan_versions-Scans :
      (rows : List d.Row) (before out : List Text)
      → scan_versions d before rows ≡ some out
      → (vs : List Text) × (out ≡ before ++ vs) × Scans d rows vs
  unfolding scan_versions
  scan_versions-Scans [] before out h = ([], cc (append-nil before), tt)
  scan_versions-Scans (r ∷ rows) before out h =
      let (v, got, rest) = >>=-eq-some (d.scan_version r) _ h in
      let (vs, whole, scans) = scan_versions-Scans rows (before ++ v ∷ []) out rest in
      (v ∷ vs, whole ∙ append_assoc before (v ∷ []) vs, (got, scans))

  -- What has become of the rows of `db` where the transaction of a migration ends.
  abbrev Adds : d.Db → Text → Applied d.Db → Type 0
  Adds db version unapplied = Unit
  Adds db version (uncommitted db') = (v : Text) → books.recorded db' v ≡ books.recorded db v
  Adds db version (done_with fails db') =
      (v : Text) → books.recorded db' v ≡ (same version v || books.recorded db v)

  committing-Adds :
      (db : d.Db) (tx tx' tx'' : d.Tx) (version body : Text) (o : Committed d.Db)
      → d.begin_tx db ≡ some tx
      → d.exec body tx ≡ some tx'
      → d.insert_version version tx' ≡ some tx''
      → d.commit tx'' ≡ o
      → Adds db version (committing d tx'' o)
  committing-Adds db tx tx' tx'' version body (committed_to db') begun ran inserted e =
      books.committed db tx tx' tx'' db' version body begun ran inserted e
  committing-Adds db tx tx' tx'' version body (commit_failed db') begun ran inserted e =
      books.discarded db tx tx' tx'' db' version body begun ran inserted e

  apply_migration-Adds :
      (db : d.Db) (version body : Text) → Adds db version (apply_migration d db version body)
  unfolding apply_migration
  apply_migration-Adds db version body = elim (Option-cases (d.begin_tx db)) [
    | inl e ↦ rw e tt
    | inr (tx, begun) ↦ rw begun (elim (Option-cases (d.exec body tx)) [
      | inl e ↦ rw e tt
      | inr (tx', ran) ↦ rw ran (elim (Option-cases (d.insert_version version tx')) [
        | inl e ↦ rw e tt
        | inr (tx'', inserted) ↦
            rw inserted
              (committing-Adds db tx tx' tx'' version body (d.commit tx'') begun ran inserted refl)
      ])
    ])
  ]

  -- The rows of `db` with those of the versions `done`.
  abbrev Holds : d.Db → List Text → d.Db → Type 0
  Holds db done db' = (v : Text) → books.recorded db' v ≡ (is_in v done || books.recorded db v)

  abbrev Loops : List (Text × Text) → List Text → d.Db → Outcome d.Db → Type 0
  Loops files vs db o =
      (done : List Text) × (rest : List Text) × (pending files (λ v. is_in v vs) ≡ done ++ rest)
      × Holds db done (left o)
      × LoopEnds o done rest

  go_on-Loops :
      (files : List (Text × Text)) (vs : List Text) (db : d.Db) (version : Text) (o : Applied d.Db)
      → Adds db version o
      → ((db' : d.Db) → Loops files vs db' (apply_pending d files vs db'))
      → let out = go_on d version db o (apply_pending d files vs) in
        (done : List Text) × (rest : List Text) × (version ∷ pending files (λ v. is_in v vs)
          ≡ done ++ rest)
        × Holds db done (left out)
        × LoopEnds out done rest
  go_on-Loops files vs db version unapplied adds ih =
      ([], version ∷ pending files (λ v. is_in v vs), refl, (λ v. refl), (_, refl))
  go_on-Loops files vs db version (uncommitted db') adds ih =
      ([], version ∷ pending files (λ v. is_in v vs), refl, adds, (_, refl))
  go_on-Loops files vs db version (done_with true db') adds ih = (
    version ∷ [],
    pending files (λ v. is_in v vs),
    refl,
    (λ v. ground (arith, adds v)),
    ([], refl),
  )
  go_on-Loops files vs db version (done_with false db') adds ih =
      let (done, rest, split, rows, ends) = ih db' in
      (
        version ∷ done,
        rest,
        ap (λ l. version ∷ l) split,
        (λ v. ground (arith, rows v, adds v)),
        LoopEnds-cons version (apply_pending d files vs db') done rest ends,
      )

  apply_pending-Loops :
      (files : List (Text × Text)) (vs : List Text) (db : d.Db)
      → Loops files vs db (apply_pending d files vs db)
  unfolding apply_pending
  apply_pending-Loops [] vs db = ([], [], refl, (λ v. refl), refl)
  apply_pending-Loops ((name, body) ∷ files) vs db =
      elim (Bool-cases (is_in (version_of name) vs)) [
        | inl old ↦ rw (old, apply_pending) (apply_pending-Loops files vs db)
        | inr new ↦
            rw (new, apply_pending)
              (go_on-Loops files vs db (version_of name)
                (apply_migration d db (version_of name) body)
                (apply_migration-Adds db (version_of name) body) (apply_pending-Loops files vs))
      ]

  -- A run: what it has applied and what it has left, and how it ended.
  abbrev Runs : List (Text × Text) → d.Db → Outcome d.Db → Type 0
  Runs files db o =
      (done : List Text) × (rest : List Text) × (pending files (books.recorded db) ≡ done ++ rest)
      × Holds db done (left o)
      × Ends files (books.recorded db) o done rest

  nothing_done :
      (files : List (Text × Text)) (db : d.Db) (why : MigrateError)
      → Ends files (books.recorded db) (stopped why db) [] (pending files (books.recorded db))
      → Runs files db (stopped why db)
  nothing_done files db why ends = ([], pending files (books.recorded db), refl, (λ v. refl), ends)

  unless_newer-Runs :
      (files : List (Text × Text)) (db : d.Db) (vs : List Text) (o : Option Text)
      → ((v : Text) → is_in v vs ≡ books.recorded db v)
      → first_unknown (versions_of files) vs ≡ o
      → Runs files db (unless_newer d files vs db o)
  unless_newer-Runs files db vs none read e =
      let (done, rest, split, rows, ends) = apply_pending-Loops files vs db in
      let known : AllKnown files (books.recorded db) =
        λ v k. first_unknown-none (versions_of files) vs e v (read v ∙ k) in
      (
        done,
        rest,
        sym (pending-cong files (λ v. is_in v vs) (books.recorded db) read) ∙ split,
        rows,
        loop-Ends files (books.recorded db) (apply_pending d files vs db) done rest known ends,
      )
  unless_newer-Runs files db vs (some v) read e =
      let (present, missing) = first_unknown-some (versions_of files) vs v e in
      nothing_done files db (newer v) (refl, sym (read v) ∙ present, missing)

  migrate_scanned-Runs :
      (files : List (Text × Text)) (db : d.Db) (rows : Cursor d.Row)
      → d.query_versions db ≡ some rows
      → (broken : Bool) → rows.broken ≡ broken
      → (o : Option (List Text)) → scan_versions d [] rows.rows ≡ o
      → Runs files db (migrate_scanned d files db broken o)
  migrate_scanned-Runs files db rows e broken b none s = nothing_done files db reading refl
  migrate_scanned-Runs files db rows e true b (some vs) s = nothing_done files db reading refl
  migrate_scanned-Runs files db rows e false b (some vs) s =
      let (vs', whole, scans) = scan_versions-Scans rows.rows [] vs s in
      rw whole (
        unless_newer-Runs files db vs' (first_unknown (versions_of files) vs')
          (books.queried db rows vs' e b scans) refl)

  close_version_rows-Runs :
      (files : List (Text × Text)) (db : d.Db) (fails : Bool) (o : Outcome d.Db)
      → Runs files db o
      → Runs files db (close_version_rows d fails o)
  close_version_rows-Runs files db fails (stopped why db') h = h
  close_version_rows-Runs files db true (migrated db') h = h
  close_version_rows-Runs files db false (migrated db') h = h

  migrate_read-Runs :
      (files : List (Text × Text)) (db : d.Db) (o : Option (Cursor d.Row))
      → d.query_versions db ≡ o
      → Runs files db (migrate_read d files db o)
  migrate_read-Runs files db none e = nothing_done files db reading refl
  migrate_read-Runs files db (some rows) e =
      close_version_rows-Runs files db rows.close_fails
        (migrate_scanned d files db rows.broken (scan_versions d [] rows.rows))
        (migrate_scanned-Runs files db rows e rows.broken refl (scan_versions d [] rows.rows) refl)

  -- Making the table changes nothing about the run.
  Runs-created :
      (files : List (Text × Text)) (db db' : d.Db) (o : Outcome d.Db)
      → ((v : Text) → books.recorded db' v ≡ books.recorded db v)
      → Runs files db' o
      → Runs files db o
  Runs-created files db db' o same_rows (done, rest, split, rows, ends) = (
    done,
    rest,
    sym (pending-cong files (books.recorded db') (books.recorded db) same_rows) ∙ split,
    (λ v. ground (arith, rows v, same_rows v)),
    Ends-cong files (books.recorded db') (books.recorded db) o done rest same_rows ends,
  )

  migrate_created-Runs :
      (files : List (Text × Text)) (db : d.Db) (o : Option d.Db)
      → d.create_table db ≡ o
      → Runs files db (migrate_created d files db o)
  migrate_created-Runs files db none e = nothing_done files db creating refl
  migrate_created-Runs files db (some db') e =
      Runs-created files db db' (migrate_read d files db' (d.query_versions db'))
        (books.created db db' e) (migrate_read-Runs files db' (d.query_versions db') refl)

  -- However `migrate` ends, the recorded versions are those from before with the first versions
  -- that were pending, in the order of the files. It succeeds only if none is left and every
  -- version from before has a file; at a migration that fails, that one is the first of those left,
  -- and the last of those added if only its rollback gives an error; if the rows of the query do
  -- not close, none is left either; and for a recorded version that has no file, it stops before it
  -- applies any.
  pub migrate-Runs :
      (files : List (Text × Text)) (db : d.Db)
      → (done : List Text) × (rest : List Text) × (pending files (books.recorded db) ≡ done ++ rest)
        × ((v : Text)
            → books.recorded (left (migrate d files db)) v ≡ (is_in v done || books.recorded db v))
        × Ends files (books.recorded db) (migrate d files db) done rest
  unfolding migrate
  migrate-Runs files db = migrate_created-Runs files db (d.create_table db) refl
