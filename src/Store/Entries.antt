-- ===== src/Store/Entries.antt =====
-- `ListConfig` and `SetConfig` of internal/store/store.go, over a driver that is a parameter.
use mathlib.Core.List.{append-nil, append_assoc}
use go_webapp_template.Base.{
  ℕ, ◌≡◌, ◌↔◌, refl, arith, sym, subst, ◌>>=◌, >>=-eq-some, ap, ◌∙◌, Bool, true, false, Option,
  none, some, List, [], ◌∷◌, ◌++◌, map, if◌then◌else◌,
}
use go_webapp_template.Base.Text.{Text, text, same}
use go_webapp_template.Base.Dict.{Dict, lookup}
use go_webapp_template.Http.{ConfigEntry}

-- The rows of a query: what `Next` walks through, whether `Err` is an error behind them, and
-- whether `Close` gives one.
pub record Cursor (R : Type 0) : Type 0 where
  pub rows : List R
  pub broken : Bool
  pub close_fails : Bool

-- database/sql, as far as the two operations call it; `none` is an error.
pub record Table : Type 1 where
  pub Db : Type 0
  pub Row : Type 0
  pub query : Text → Db → Option (Cursor Row)
  pub scan : Row → Option ConfigEntry
  pub exec : Text → List Text → Db → Option Db

-- The named results, and how often the rows were closed.
pub record Listing : Type 0 where
  pub entries : Option (List ConfigEntry)
  pub failed : Bool
  pub closed : ℕ

unfoldable pub select_sql : Text
unfolding text
select_sql = text "SELECT key, value FROM config ORDER BY key"

unfoldable pub upsert_sql : Text
unfolding text
upsert_sql =
    text
      "INSERT INTO config (key, value) VALUES (?, ?) ON CONFLICT(key) DO UPDATE SET value = excluded.value"

-- The value of the first entry with the key.
abbrev pub value_of : Text → List ConfigEntry → Option Text
value_of key [] = none
value_of key (e ∷ es) = if same e.key key then some e.value else value_of key es

module _ (t : Table) where
  -- The loop over the rows behind the entries so far.
  unfoldable pub scan_rows : List ConfigEntry → List t.Row → Option (List ConfigEntry)
  scan_rows entries [] = some entries
  scan_rows entries (r ∷ rows) = t.scan r >>= λ e. scan_rows (entries ++ e ∷ []) rows

  -- The deferred function, on the result and the error so far.
  abbrev pub close_rows : Bool → Option (List ConfigEntry) → Bool → Listing
  close_rows close_fails entries failed = record {
    entries = entries;
    failed = if failed then true else close_fails;
    closed = 1;
  }

  abbrev pub checked : Cursor t.Row → Option (List ConfigEntry) → Listing
  checked rows none = close_rows rows.close_fails none true
  checked rows (some entries) =
      if rows.broken
      then close_rows rows.close_fails none true
      else close_rows rows.close_fails (some entries) false

  abbrev pub queried : Option (Cursor t.Row) → Listing
  queried none = record { entries = none; failed = true; closed = 0 }
  queried (some rows) = checked rows (scan_rows [] rows.rows)

  unfoldable pub list_config : t.Db → Listing
  unfolding scan_rows
  list_config db = queried (t.query select_sql db)

  unfoldable pub set_config : t.Db → Text → Text → Option t.Db
  set_config db key value = t.exec upsert_sql (key ∷ value ∷ []) db

  -- Each row scanned, in order.
  abbrev pub AllScanned : List t.Row → List ConfigEntry → Type 0
  AllScanned [] [] = Unit
  AllScanned [] (e ∷ es) = ⊥
  AllScanned (r ∷ rows) [] = ⊥
  AllScanned (r ∷ rows) (e ∷ es) = (t.scan r ≡ some e) × AllScanned rows es

  scan_rows-AllScanned :
      (rows : List t.Row) (before out : List ConfigEntry)
      → scan_rows before rows ≡ some out
      → (es : List ConfigEntry) × (out ≡ before ++ es) × AllScanned rows es
  unfolding scan_rows
  scan_rows-AllScanned [] before out h = ([], cc (append-nil before), tt)
  scan_rows-AllScanned (r ∷ rows) before out h =
      let (e, got, rest) = >>=-eq-some (t.scan r) _ h in
      let (es, whole, all) = scan_rows-AllScanned rows (before ++ e ∷ []) out rest in
      (e ∷ es, whole ∙ append_assoc before (e ∷ []) es, (got, all))

  AllScanned-scan_rows :
      (rows : List t.Row) (before es : List ConfigEntry)
      → AllScanned rows es
      → scan_rows before rows ≡ some (before ++ es)
  unfolding scan_rows
  AllScanned-scan_rows [] before [] h = rw (append-nil before) refl
  AllScanned-scan_rows [] before (e ∷ es) h = elim h [ ]
  AllScanned-scan_rows (r ∷ rows) before [] h = elim h [ ]
  AllScanned-scan_rows (r ∷ rows) before (e ∷ es) (h, hs) = rw h (
      AllScanned-scan_rows rows (before ++ e ∷ []) es hs
      ∙ ap (λ l. some l) (append_assoc before (e ∷ []) es))

  checked-closed :
      (rows : Cursor t.Row) (o : Option (List ConfigEntry)) → (checked rows o).closed ≡ 1
  checked-closed rows none = refl
  checked-closed rows (some es) = ground arith

  checked_iff :
      (rows : Cursor t.Row) (o : Option (List ConfigEntry)) (es : List ConfigEntry)
      → (((checked rows o).failed ≡ false) × ((checked rows o).entries ≡ some es))
        ↔ ((o ≡ some es) × (rows.broken ≡ false) × (rows.close_fails ≡ false))
  checked_iff rows none es = ((λ h. cc), (λ h. cc))
  checked_iff rows (some es') es = ground arith

  -- Once the query has given rows, `ListConfig` closes them, once. It returns without an error
  -- exactly if every row is scanned and neither the rows nor their closing gives an error, and then
  -- it returns the entries of all the rows, in their order.
  pub list_config-AllScanned :
      (db : t.Db) (rows : Cursor t.Row) (es : List ConfigEntry)
      → t.query select_sql db ≡ some rows
      → ((list_config db).closed ≡ 1)
        × ((((list_config db).failed ≡ false) × ((list_config db).entries ≡ some es))
            ↔ (AllScanned rows.rows es × (rows.broken ≡ false) × (rows.close_fails ≡ false)))
  unfolding list_config
  list_config-AllScanned db rows es h =
      let (to, from) = checked_iff rows (scan_rows [] rows.rows) es in
      rw h (
        checked-closed rows (scan_rows [] rows.rows),
        (
          (λ ok.
              let (scanned, whole, closes) = to ok in
              let (es', same_list, all) = scan_rows-AllScanned rows.rows [] es scanned in
              (subst (λ l. AllScanned rows.rows l) (sym same_list) all, whole, closes)),
          (λ (all, whole, closes). from (AllScanned-scan_rows rows.rows [] es all, whole, closes)),
        ),
      )

  -- The rows of the table `config`, and what SQLite does with them: an upsert that succeeds sets
  -- the value of its key, and where the rows of a query are not broken off and all of them scan,
  -- they are the table's rows.
  pub record Contents : Type 0 where
    pub config : t.Db → Dict Text
    pub upserted :
        (db db' : t.Db) (key value j : Text)
        → t.exec upsert_sql (key ∷ value ∷ []) db ≡ some db'
        → lookup j (config db') ≡ (if same key j then some value else lookup j (config db))
    pub selected :
        (db : t.Db) (rows : Cursor t.Row) (es : List ConfigEntry)
        → t.query select_sql db ≡ some rows
        → rows.broken ≡ false
        → AllScanned rows.rows es
        → es ≡ map (λ (e : Text × Text). record { key = e.0; value = e.1 }) (config db)

  pub AllScanned-unique :
      (rows : List t.Row) (es es' : List ConfigEntry)
      → AllScanned rows es
      → AllScanned rows es'
      → es ≡ es'
  AllScanned-unique [] [] [] h k = refl
  AllScanned-unique [] [] (e ∷ es) h k = elim k [ ]
  AllScanned-unique [] (e ∷ es) es' h k = elim h [ ]
  AllScanned-unique (r ∷ rows) [] es' h k = elim h [ ]
  AllScanned-unique (r ∷ rows) (e ∷ es) [] h k = elim k [ ]
  AllScanned-unique (r ∷ rows) (e ∷ es) (e' ∷ es') (h, hs) (k, ks) =
      let rest = AllScanned-unique rows es es' hs ks in let same_entry : e ≡ e' = cc in cc

  value_of-map :
      (j : Text) (m : Dict Text)
      → value_of j (map (λ (e : Text × Text). record { key = e.0; value = e.1 }) m) ≡ lookup j m
  unfolding lookup
  value_of-map j [] = refl
  value_of-map j ((k, v) ∷ m) = rw (value_of-map j m) refl

  queried-failed :
      (o : Option (Cursor t.Row)) → (queried o).failed ≡ false → (rows : _) × (o ≡ some rows)
  queried-failed none h = cc
  queried-failed (some rows) h = (rows, refl)

  -- `ListConfig` returned the entries without an error.
  abbrev pub Lists : t.Db → List ConfigEntry → Type 0
  Lists db es = ((list_config db).failed ≡ false) × ((list_config db).entries ≡ some es)

  module _ (c : Contents) where
    pub value_of-list_config :
        (db : t.Db) (es : List ConfigEntry) (j : Text)
        → Lists db es
        → value_of j es ≡ lookup j (c.config db)
    unfolding list_config
    value_of-list_config db es j (fine, listed) =
        let (rows, got) = queried-failed (t.query select_sql db) fine in
        let (all, whole, _) = (list_config-AllScanned db rows es got).1.0 (fine, listed) in
        rw (c.selected db rows es got whole all) (value_of-map j (c.config db))

    -- Over a table that SQLite keeps as documented: after `SetConfig` has set a key, an error-free
    -- `ListConfig` returns the new value under that key, and under every other key what it
    -- returned before.
    pub list_config-set_config :
        (db db' : t.Db) (key value j : Text) (es es' : List ConfigEntry)
        → Lists db es
        → set_config db key value ≡ some db'
        → Lists db' es'
        → value_of j es' ≡ (if same key j then some value else value_of j es)
    unfolding set_config
    list_config-set_config db db' key value j es es' before done after =
        rw (value_of-list_config db es j before, value_of-list_config db' es' j after)
          (c.upserted db db' key value j done)
