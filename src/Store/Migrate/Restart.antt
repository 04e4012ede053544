-- ===== src/Store/Migrate/Restart.antt =====
-- A second start after `migrate` of internal/store/store.go has succeeded.
use go_webapp_template.Base.{
  Bool, ◌||◌, ◌≡◌, refl, sym, ◌∙◌, ap, true, List, [], ◌∷◌, ◌++◌, Bool-cases, inl, inr, arith,
}
use go_webapp_template.Base.Text.{Text, same_refl}
use go_webapp_template.Store.Migrate.{Driver, migrated, version_of, is_in, migrate}
use go_webapp_template.Store.Migrate.Books.{Bookkeeping, pending, left, Ends}
use go_webapp_template.Store.Migrate.Upgrade.{migrate-Runs}

-- Versions that hold those from before and those that were pending leave none pending.
none_pending :
    (files : List (Text × Text)) (before rows : Text → Bool)
    → ((v : Text) → before v ≡ true → rows v ≡ true)
    → ((v : Text) → is_in v (pending files before) ≡ true → rows v ≡ true)
    → pending files rows ≡ []
none_pending [] before rows kept added = refl
none_pending ((name, body) ∷ files) before rows kept added =
    elim (Bool-cases (before (version_of name))) [
      | inl old ↦
          let rest = none_pending files before rows kept (rw old at added) in
          rw (kept (version_of name) old) rest
      | inr new ↦
          let more : (v : Text)
              → is_in v (version_of name ∷ pending files before) ≡ true
              → rows v ≡ true =
            rw new at added in
          let rest = none_pending files before rows kept (λ v h. more v (ground arith)) in
          rw (more (version_of name) (rw (same_refl (version_of name)) refl)) rest
    ]

nothing_pending : (done rest : List Text) → [] ≡ done ++ rest → done ≡ []
nothing_pending [] rest e = refl
nothing_pending (v ∷ done) rest e = cc

append-nil : (xs : List Text) → xs ++ [] ≡ xs
append-nil [] = refl
append-nil (x ∷ xs) = ap (λ l. x ∷ l) (append-nil xs)

pub migrate-idempotent :
    (d : Driver) (books : Bookkeeping d) (files : List (Text × Text)) (db db' : d.Db)
    → migrate d files db ≡ migrated db'
    → (pending files (books.recorded db') ≡ [])
      × ((v : Text) → books.recorded (left (migrate d files db')) v ≡ books.recorded db' v)
migrate-idempotent d books files db db' h =
    let before = books.recorded db in
    let (done, rest, split, rows, ends) = migrate-Runs d books files db in
    let (none_left, _) : Ends files before (migrated db') done rest = rw h at ends in
    let all_done : pending files before ≡ done = split ∙ rw none_left (append-nil done) in
    let rows' : (v : Text) → books.recorded db' v ≡ (is_in v done || before v) = rw h at rows in
    let clear : pending files (books.recorded db') ≡ [] =
      none_pending files before (books.recorded db') (λ v k. ground (arith, rows' v))
        (λ v k. let k' : is_in v done ≡ true = rw all_done at k in ground (arith, rows' v)) in
    let (done', rest', split', rows'', _) = migrate-Runs d books files db' in
    let idle : done' ≡ [] = nothing_pending done' rest' (sym clear ∙ split') in
    (clear, rw idle at rows'')
