-- ===== src/Store/Migrate/Books.antt =====
-- The rows of `schema_migrations` of internal/store/store.go, and where a run of `migrate` may end.
use go_webapp_template.Base.{
  Bool, ◌||◌, ◌∙◌, sym, refl, arith, ◌≡◌, ap, true, false, none, some, List, [], ◌∷◌, ◌++◌,
  Bool-cases, inl, inr, if◌then◌else◌,
}
use go_webapp_template.Base.Text.{Text, same, same_iff, same_refl}
use go_webapp_template.Store.Entries.{Cursor}
use go_webapp_template.Store.Migrate.{
  Driver, committed_to, commit_failed, creating, reading, closing_rows, newer, migration,
  rolling_back, Outcome, migrated, stopped, version_of, is_in, versions_of, first_unknown,
}

-- The versions that the rows scan to, one by one.
abbrev pub Scans : (d : Driver) → List d.Row → List Text → Type 0
Scans d [] [] = Unit
Scans d [] (v ∷ vs) = ⊥
Scans d (r ∷ rows) [] = ⊥
Scans d (r ∷ rows) (v ∷ vs) = (d.scan_version r ≡ some v) × Scans d rows vs

-- Which versions have a row in `schema_migrations`, and what the driver's operations do with them,
-- in whatever order the rows are: making the table if it is missing adds none; a query that is read
-- to its end gives them; a transaction that runs the body of a migration, which leaves this table
-- alone, inserts a version and commits adds that version, and none if the commit fails.
pub record Bookkeeping (d : Driver) : Type 0 where
  pub recorded : d.Db → Text → Bool
  pub created :
      (db db' : d.Db) → d.create_table db ≡ some db' → (v : Text) → recorded db' v ≡ recorded db v
  pub queried :
      (db : d.Db) (rows : Cursor d.Row) (vs : List Text)
      → d.query_versions db ≡ some rows
      → rows.broken ≡ false
      → Scans d rows.rows vs
      → (v : Text) → is_in v vs ≡ recorded db v
  pub committed :
      (db : d.Db) (tx tx' tx'' : d.Tx) (db' : d.Db) (version body : Text)
      → d.begin_tx db ≡ some tx
      → d.exec body tx ≡ some tx'
      → d.insert_version version tx' ≡ some tx''
      → d.commit tx'' ≡ committed_to db'
      → (v : Text) → recorded db' v ≡ (same version v || recorded db v)
  pub discarded :
      (db : d.Db) (tx tx' tx'' : d.Tx) (db' : d.Db) (version body : Text)
      → d.begin_tx db ≡ some tx
      → d.exec body tx ≡ some tx'
      → d.insert_version version tx' ≡ some tx''
      → d.commit tx'' ≡ commit_failed db'
      → (v : Text) → recorded db' v ≡ recorded db v

-- The versions of the files that are not applied yet, in order.
abbrev pub pending : List (Text × Text) → (Text → Bool) → List Text
pending [] applied = []
pending ((name, body) ∷ files) applied =
    let rest = pending files applied in
    if applied (version_of name) then rest else version_of name ∷ rest

pub pending-cong :
    (files : List (Text × Text)) (f g : Text → Bool)
    → ((v : Text) → f v ≡ g v)
    → pending files f ≡ pending files g
pending-cong [] f g h = refl
pending-cong ((name, body) ∷ files) f g h = rw (h (version_of name), pending-cong files f g h) refl

abbrev pub left {ℓ} : {A : Type ℓ} → Outcome A → A
left (migrated a) = a
left (stopped why a) = a

abbrev pub AllKnown : List (Text × Text) → (Text → Bool) → Type 0
AllKnown files before = (v : Text) → before v ≡ true → is_in v (versions_of files) ≡ true

-- Where a run may end that has applied the versions `done` and not `rest`, where `before` tells
-- which versions were recorded.
abbrev pub Ends {ℓ} :
    {A : Type ℓ} → List (Text × Text) → (Text → Bool) → Outcome A → List Text → List Text → Type 0
Ends files before (migrated a) done rest = (rest ≡ []) × AllKnown files before
Ends files before (stopped (migration v) a) done rest = (later : List Text) × (rest ≡ v ∷ later)
Ends files before (stopped (rolling_back v) a) done rest =
    (earlier : List Text) × (done ≡ earlier ++ v ∷ [])
Ends files before (stopped closing_rows a) done rest = (rest ≡ []) × AllKnown files before
Ends files before (stopped (newer v) a) done rest =
    (done ≡ []) × (before v ≡ true) × (is_in v (versions_of files) ≡ false)
Ends files before (stopped creating a) done rest = done ≡ []
Ends files before (stopped reading a) done rest = done ≡ []

-- How the loop may end.
abbrev pub LoopEnds {ℓ} : {A : Type ℓ} → Outcome A → List Text → List Text → Type 0
LoopEnds (migrated a) done rest = rest ≡ []
LoopEnds (stopped (migration v) a) done rest = (later : List Text) × (rest ≡ v ∷ later)
LoopEnds (stopped (rolling_back v) a) done rest = (earlier : List Text) × (done ≡ earlier ++ v ∷ [])
LoopEnds (stopped (newer v) a) done rest = ⊥
LoopEnds (stopped creating a) done rest = ⊥
LoopEnds (stopped reading a) done rest = ⊥
LoopEnds (stopped closing_rows a) done rest = ⊥

-- One more version applied before it.
pub LoopEnds-cons :
    {A : Type 0} (v : Text) (o : Outcome A) (done rest : List Text)
    → LoopEnds o done rest
    → LoopEnds o (v ∷ done) rest
LoopEnds-cons v (migrated a) done rest h = h
LoopEnds-cons v (stopped (migration w) a) done rest h = h
LoopEnds-cons v (stopped (rolling_back w) a) done rest (earlier, e) =
    (v ∷ earlier, ap (λ l. v ∷ l) e)
LoopEnds-cons v (stopped (newer w) a) done rest h = h
LoopEnds-cons v (stopped creating a) done rest h = h
LoopEnds-cons v (stopped reading a) done rest h = h
LoopEnds-cons v (stopped closing_rows a) done rest h = h

pub first_unknown-none :
    (known applied : List Text)
    → first_unknown known applied ≡ none
    → (v : Text) → is_in v applied ≡ true
    → is_in v known ≡ true
unfolding first_unknown
first_unknown-none known [] h v k = cc
first_unknown-none known (w ∷ applied) h v k = elim (Bool-cases (is_in w known)) [
  | inr missing ↦ cc (rw missing at h)
  | inl found ↦ elim (Bool-cases (same w v)) [
    | inl here ↦ rw (← (same_iff w v).0 here) found
    | inr there ↦ first_unknown-none known applied (rw found at h) v (rw there at k)
  ]
]

pub first_unknown-some :
    (known applied : List Text) (v : Text)
    → first_unknown known applied ≡ some v
    → (is_in v applied ≡ true) × (is_in v known ≡ false)
unfolding first_unknown
first_unknown-some known [] v h = cc
first_unknown-some known (w ∷ applied) v h = elim (Bool-cases (is_in w known)) [
  | inl found ↦
      let (applied_one, missing) = first_unknown-some known applied v (rw found at h) in
      (ground arith, missing)
  | inr missing ↦ let e : w ≡ v = cc (rw missing at h) in rw (← e) (rw (same_refl w) refl, missing)
]

pub loop-Ends :
    {A : Type 0} (files : List (Text × Text)) (before : Text → Bool) (o : Outcome A)
    (done rest : List Text)
    → AllKnown files before
    → LoopEnds o done rest
    → Ends files before o done rest
loop-Ends files before (migrated a) done rest known h = (h, known)
loop-Ends files before (stopped (migration v) a) done rest known h = h
loop-Ends files before (stopped (rolling_back v) a) done rest known h = h
loop-Ends files before (stopped closing_rows a) done rest known h = absurd h
loop-Ends files before (stopped (newer v) a) done rest known h = absurd h
loop-Ends files before (stopped creating a) done rest known h = absurd h
loop-Ends files before (stopped reading a) done rest known h = absurd h

-- The same versions recorded before, the same end.
pub Ends-cong :
    {A : Type 0} (files : List (Text × Text)) (f g : Text → Bool) (o : Outcome A)
    (done rest : List Text)
    → ((v : Text) → f v ≡ g v)
    → Ends files f o done rest
    → Ends files g o done rest
Ends-cong files f g (migrated a) done rest h (e, known) = (e, λ v k. known v (h v ∙ k))
Ends-cong files f g (stopped (migration v) a) done rest h e = e
Ends-cong files f g (stopped (rolling_back v) a) done rest h e = e
Ends-cong files f g (stopped closing_rows a) done rest h (e, known) = (e, λ v k. known v (h v ∙ k))
Ends-cong files f g (stopped (newer v) a) done rest h (e, present, missing) =
    (e, sym (h v) ∙ present, missing)
Ends-cong files f g (stopped creating a) done rest h e = e
Ends-cong files f g (stopped reading a) done rest h e = e
