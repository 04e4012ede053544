-- ===== src/Tests/Table.antt =====
-- Runs of `ListConfig` and `SetConfig` of internal/store/store.go on a table that is a list.
use go_webapp_template.Base.{
  ◌≡◌, ◌↔◌, refl, ap, subst, true, false, Option, none, some, List, [], ◌∷◌, map, if◌then◌else◌,
}
use go_webapp_template.Base.Text.{Text, same}
use go_webapp_template.Base.Dict.{Dict, insert, lookup-insert}
use go_webapp_template.Http.{ConfigEntry}
use go_webapp_template.Store.Entries.{
  Table, Cursor, list_config, set_config, scan_rows, AllScanned, Contents, value_of, Lists,
  list_config-AllScanned, list_config-set_config, AllScanned-unique,
}

abbrev pub put : List Text → Dict Text → Option (Dict Text)
put (key ∷ value ∷ []) db = some (insert key value db)
put _ db = none

abbrev pub table : Table
table = record {
  Db = Dict Text;
  Row = Text × Text;
  query = λ sql db. some (record { rows = db; broken = false; close_fails = false });
  scan = λ r. some (record { key = r.0; value = r.1 });
  exec = λ sql args db. put args db;
}

abbrev pub entries : Dict Text → List ConfigEntry
entries = map (λ (e : Text × Text). record { key = e.0; value = e.1 })

pub walk : (db : Dict Text) → AllScanned table db (entries db)
walk [] = tt
walk (e ∷ db) = (refl, walk db)

pub contents : Contents table
contents = record {
  config = λ db. db;
  upserted = λ db db' key value j done.
      let e : insert key value db ≡ db' = cc in rw (← e) (lookup-insert key j value db);
  selected = λ db rows es got whole all.
      let given : record { rows = db; broken = false; close_fails = false } ≡ rows = cc in
      let e : db ≡ rows.rows = ap (λ (r : Cursor (Text × Text)). r.rows) given in
      AllScanned-unique table rows.rows es (entries db) all
        (subst (λ l. AllScanned table l (entries db)) e (walk db));
}

abbrev motd : Text
motd = b'm' ∷ []

abbrev site : Text
site = b's' ∷ []

abbrev old : Dict Text
old = (motd, site) ∷ (site, site) ∷ []

abbrev new : Dict Text
new = (motd, motd) ∷ (site, site) ∷ []

set_config_run : set_config table old motd motd ≡ some new
unfolding set_config insert same
set_config_run = refl

old-Lists : Lists table old (entries old)
unfolding list_config scan_rows
old-Lists = (refl, refl)

new-Lists : Lists table new (entries new)
unfolding list_config scan_rows
new-Lists = (refl, refl)

list_config-set_config_example :
    value_of site (entries new)
    ≡ (if same motd site then some motd else value_of site (entries old))
list_config-set_config_example =
    list_config-set_config table contents old new motd motd site (entries old) (entries new)
      old-Lists set_config_run new-Lists

abbrev cursor : Cursor (Text × Text)
cursor = record { rows = old; broken = false; close_fails = false }

list_config-AllScanned_example :
    ((list_config table old).closed ≡ 1)
    × ((((list_config table old).failed ≡ false)
          × ((list_config table old).entries ≡ some (entries old)))
        ↔ (AllScanned table old (entries old)
            × (cursor.broken ≡ false)
            × (cursor.close_fails ≡ false)))
list_config-AllScanned_example = list_config-AllScanned table old cursor (entries old) refl

-- A query whose rows break off lists nothing.
broken_run :
    list_config (record table { query = λ sql db. some (record cursor { broken = true }) }) old
    ≡ record { entries = none; failed = true; closed = 1 }
unfolding list_config scan_rows
broken_run = refl
