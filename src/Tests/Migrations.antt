-- ===== src/Tests/Migrations.antt =====
-- Runs of `migrate` of internal/store/store.go on a database that is the list of its versions.
use go_webapp_template.Base.{
  ◌∙◌, sym, arith, ◌||◌, Option, false, ◌≡◌, refl, some, List, [], ◌∷◌, ◌++◌,
}
use go_webapp_template.Base.Text.{Text, text, same}
use go_webapp_template.Store.Migrate.{Driver, Committed, committed_to, is_in, migrate}
use go_webapp_template.Store.Migrate.Books.{Bookkeeping, Scans, pending, left, Ends}
use go_webapp_template.Store.Entries.{Cursor}
use go_webapp_template.Store.Migrate.Upgrade.{migrate-Runs}

is_in-snoc :
    (v : Text) (vs : List Text) (w : Text) → is_in v (vs ++ w ∷ []) ≡ (same w v || is_in v vs)
is_in-snoc v [] w = refl
is_in-snoc v (u ∷ vs) w = ground (arith, is_in-snoc v vs w)

-- The database is the list of its versions, in the order in which they were added.
abbrev pub driver : Driver
driver = record {
  Db = List Text;
  Tx = List Text;
  create_table = λ db. some db;
  Row = Text;
  query_versions = λ db. some (record { rows = db; broken = false; close_fails = false });
  scan_version = λ row. some row;
  begin_tx = λ db. some db;
  exec = λ body tx. some tx;
  insert_version = λ version tx. some (tx ++ version ∷ []);
  commit = λ tx. committed_to tx;
  rollback_fails = λ tx. false;
}

pub Scans-same : (vs rows : List Text) → Scans driver rows vs → vs ≡ rows
Scans-same [] [] h = refl
Scans-same (v ∷ vs) [] h = elim h [ ]
Scans-same [] (r ∷ rows) h = elim h [ ]
Scans-same (v ∷ vs) (r ∷ rows) (h, hs) = cc (h, Scans-same vs rows hs)

pub read_back :
    (db vs : List Text) (rows : Cursor Text)
    → some (record { rows = db; broken = false; close_fails = false }) ≡ some rows
    → Scans driver rows.rows vs
    → (v : Text) → is_in v vs ≡ is_in v db
read_back db vs rows e scans v =
    let given : db ≡ rows.rows = cc in rw (Scans-same vs rows.rows scans ∙ sym given) refl

pub row_added :
    (db tx tx' tx'' db' : List Text) (version : Text)
    → Path (Option (List Text)) (some db) (some tx)
    → Path (Option (List Text)) (some tx) (some tx')
    → Path (Option (List Text)) (some (tx' ++ version ∷ [])) (some tx'')
    → Path (Committed (List Text)) (committed_to tx'') (committed_to db')
    → (v : Text) → is_in v db' ≡ (same version v || is_in v db)
row_added db tx tx' tx'' db' version begun ran inserted done v =
    let e : db' ≡ db ++ version ∷ [] = cc in rw e (is_in-snoc v db version)

abbrev pub books : Bookkeeping driver
books = record {
  recorded = λ db v. is_in v db;
  created = λ db db' e v. let one : db ≡ db' = cc in rw one refl;
  queried = λ db rows vs e whole scans. read_back db vs rows e scans;
  committed = λ db tx tx' tx'' db' version body begun ran inserted done.
      row_added db tx tx' tx'' db' version begun ran inserted done;
  discarded = λ db tx tx' tx'' db' version body begun ran inserted e. cc;
}

unfoldable pub files : List (Text × Text)
unfolding text
files =
    (text "migrations/0001_config.up.sql", text "CREATE TABLE config")
    ∷ (text "migrations/0002_more.up.sql", text "CREATE TABLE more")
    ∷ []

unfoldable pub old : List Text
unfolding text
old = text "0001_config" ∷ []

unfoldable new : List Text
unfolding text
new = text "0001_config" ∷ text "0002_more" ∷ []

migrate-Runs_example :
    (done : List Text) × (rest : List Text) × (pending files (λ v. is_in v old) ≡ done ++ rest)
    × ((v : Text) → is_in v (left (migrate driver files old)) ≡ (is_in v done || is_in v old))
    × Ends files (λ v. is_in v old) (migrate driver files old) done rest
migrate-Runs_example = migrate-Runs driver books files old
