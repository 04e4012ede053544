-- ===== src/Api/Provenance.antt =====
-- The handler of internal/api/routes.go over the store of internal/store/store.go: where a
-- configuration entry's value comes from after any requests.
use mathlib.Core.List.{append_assoc}
use go_webapp_template.Base.{
  ◌≡◌, ◌⊎◌, inl, inr, refl, ap, ◌∙◌, Bool, true, false, Option, none, some, List, [], ◌∷◌, ◌++◌,
  Bool-cases,
}
use go_webapp_template.Base.Text.{Text, text, same, same_iff}
use go_webapp_template.Base.Dict.{lookup}
use go_webapp_template.Http.{ConfigEntry}
use go_webapp_template.Store.Entries.{
  Table, list_config, set_config, Contents, value_of, Lists, value_of-list_config,
}
use go_webapp_template.Api.Env.{Env, Result, ok, err, World}
use go_webapp_template.Api.Routes.{routes}
use go_webapp_template.Api.Serving.{Incoming, begin_io, serve_all}
use go_webapp_template.Api.Guarded.{ConfigWrite, routes_guarded}

-- What the handlers see of the store's results; the driver's own words are left out of an error.
abbrev pub listing_result : Bool → Option (List ConfigEntry) → Result (List ConfigEntry)
listing_result true entries = err (text "listing config")
listing_result false none = ok []
listing_result false (some entries) = ok entries

abbrev pub set_result : {D : Type 0} → Option D → Result D
set_result none = err (text "setting config")
set_result (some db) = ok db

-- The handlers' surroundings, with the store in the place of their operations on configuration.
abbrev pub over_table : (t : Table) → (t.Db → Option Text) → Env → Env
over_table t ping rest = record {
  Db = t.Db;
  Auth = rest.Auth;
  ping = ping;
  list_config = λ db. listing_result (list_config t db).failed (list_config t db).entries;
  set_config = λ db key value. set_result (set_config t db key value);
  authenticate = rest.authenticate;
  parse_media_type = rest.parse_media_type;
  decode_body = rest.decode_body;
  parse_form = rest.parse_form;
  post_form_value = rest.post_form_value;
  status_text = rest.status_text;
  template_error = rest.template_error;
  encode_error = rest.encode_error;
  path_ext = rest.path_ext;
  serve_file = rest.serve_file;
  mux_answer = rest.mux_answer;
}

module _ (t : Table) (ping : t.Db → Option Text) (rest : Env) (disable_hsts : Bool) where
  set_result-ok : {D : Type 0} (o : Option D) (db : D) → set_result o ≡ ok db → o ≡ some db
  set_result-ok none db h = cc
  set_result-ok (some d) db h = cc

  module _ (c : Contents t) (j : Text) where
    abbrev setting : World (over_table t ping rest) → Option Text
    setting world = lookup j (c.config world.db)

    -- The value under the key has been put by one of the requests, with all that a write takes.
    pub record Put (world : World (over_table t ping rest)) (rs : List Incoming)
        (found : Option Text) : Type 0 where
      pub before : List Incoming
      pub author : Incoming
      pub after : List Incoming
      pub split : rs ≡ before ++ author ∷ after
      pub db' : t.Db
      pub write :
          ConfigWrite
            (over_table t ping rest)
            (begin_io (serve_all disable_hsts world before) author)
            db'
      pub key : write.key ≡ j
      pub value : found ≡ some write.value

    routes-setting :
        (world : World (over_table t ping rest)) (r : Incoming)
        → let world' = (routes disable_hsts (begin_io world r)).world in
          (setting world' ≡ setting world) ⊎ Put world (r ∷ []) (setting world')
    unfolding set_config serve_all
    routes-setting world r =
        let world' = (routes disable_hsts (begin_io world r)).world in
        elim (routes_guarded disable_hsts (begin_io world r)) [
          | inl kept ↦ inl (ap (λ db. lookup j (c.config db)) kept)
          | inr w ↦
              let law =
                c.upserted world.db world'.db w.key w.value j
                  (set_result-ok _ world'.db w.stored) in
              elim (Bool-cases (same w.key j)) [
                | inl own ↦ inr (record {
                  before = [];
                  author = r;
                  after = [];
                  split = refl;
                  db' = world'.db;
                  write = w;
                  key = (same_iff w.key j).0 own;
                  value = law ∙ rw own refl;
                })
                | inr other ↦ inl (law ∙ rw other refl)
              ]
        ]

    serve_all-setting :
        (world : World (over_table t ping rest)) (rs : List Incoming)
        → (setting (serve_all disable_hsts world rs) ≡ setting world)
          ⊎ Put world rs (setting (serve_all disable_hsts world rs))
    unfolding serve_all
    serve_all-setting world [] = inl refl
    serve_all-setting world (r ∷ rs) =
        let world' = (routes disable_hsts (begin_io world r)).world in
        elim (serve_all-setting world' rs) [
          | inl kept ↦ elim (routes-setting world r) [
            | inl kept' ↦ inl (kept ∙ kept')
            | inr p ↦ inr (record {
              before = p.before;
              author = p.author;
              after = p.after ++ rs;
              split = ap (λ l. l ++ rs) p.split ∙ append_assoc p.before (p.author ∷ p.after) rs;
              db' = p.db';
              write = p.write;
              key = p.key;
              value = kept ∙ p.value;
            })
          ]
          | inr p ↦ inr (record {
            before = r ∷ p.before;
            author = p.author;
            after = p.after;
            split = ap (λ l. r ∷ l) p.split;
            db' = p.db';
            write = p.write;
            key = p.key;
            value = p.value;
          })
        ]

    -- Over a table that SQLite keeps as documented, and for requests served one after the other:
    -- under every key, an error-free `ListConfig` returns what it returned before them, or a value
    -- that one of them has put: a PUT under that key, with a mutation header and a trusted
    -- Sec-Fetch-Site, whose caller the provider has authenticated, who holds the role "admin" and
    -- whom the limiter has allowed.
    pub settings_provenance :
        (world : World (over_table t ping rest)) (rs : List Incoming) (es es' : List ConfigEntry)
        → Lists t world.db es
        → Lists t (serve_all disable_hsts world rs).db es'
        → (value_of j es' ≡ value_of j es) ⊎ Put world rs (value_of j es')
    settings_provenance world rs es es' before after =
        rw
          (
            value_of-list_config t c world.db es j before,
            value_of-list_config t c (serve_all disable_hsts world rs).db es' j after,
          )
          (serve_all-setting world rs)
