-- ===== src/Query/Script/Agreement.antt =====
-- Query_SelectData at a server that has the script and at one that has lost it.
use clientprefs_redis.Base.{
  ◌≡◌, refl, ap, sym, ◌∙◌, List, [], ◌∷◌, Option, none, some, true, false, All, Option-cases, inl,
  inr,
}
use mathlib.Core.List.{Perm, filter_map}
use mathlib.Core.List.Perm
use mathlib.Core.Option.{Option-elim}
use mathlib.Core.Path.{subst, fun_ext}
use clientprefs_redis.Text.{Text}
use clientprefs_redis.State.{Cookie}
use clientprefs_redis.Redis.Reply.{Reply, row_list, get_array, get_string, is_ok}
use clientprefs_redis.Query.Run.{Backend, returns, ◌>>=◌}
use clientprefs_redis.Query.Keys.{id_key}
use clientprefs_redis.Query.Select.{slow_path, slow_answer, script_answer, select_data_query}
use clientprefs_redis.Query.Script.{rows_from, array_of, texts, get_client_cookies}
use clientprefs_redis.Query.Script.Server.{
  IsServer, IsDescribed, bulks, key_bulks, row_for, row_with,
}
use clientprefs_redis.Query.Script.Slow.{slow_items_for}
use clientprefs_redis.Query.Script.Paths.{
  script_rows_for, cookie_rows_for, script_rows-script_rows_for,
}

-- The name if the cookie has an id.
abbrev pub name_if : Text → Option Text → Option Text
name_if name none = none
name_if name (some id) = some name

abbrev pub with_ids : (Text → Option Text) → List Text → List Text
with_ids text_at names = filter_map (λ name. name_if name (text_at (id_key name))) names

always-All : {P : Text → Type 0} → ((name : Text) → P name) → (names : List Text) → All P names
always-All h [] = tt
always-All h (name ∷ names) = (h name, always-All h names)

pub row_list-rows_from : (rs : List Reply) → row_list (rows_from rs) ≡ rs
unfolding row_list
row_list-rows_from [] = refl
row_list-rows_from (r ∷ rs) = ap (◌∷◌ r) (row_list-rows_from rs)

rows_of_with_ids :
    (text_at : Text → Option Text) (steam_id : Text) (names : List Text)
    → filter_map (row_for text_at steam_id) (with_ids text_at names)
      ≡ filter_map (row_for text_at steam_id) names
unfolding filter_map Option-elim
rows_of_with_ids text_at steam_id [] = refl
rows_of_with_ids text_at steam_id (name ∷ names) = elim (Option-cases (text_at (id_key name))) [
  | inl e ↦ rw e (rows_of_with_ids text_at steam_id names)
  | inr (id, e) ↦
      rw (e, e)
        (ap (λ rows. Option-elim (row_with text_at steam_id name (some id)) rows (λ x. x ∷ rows))
          (rows_of_with_ids text_at steam_id names))
]

pub texts-bulks :
    {Db : Type 0} (names : List Text) (db : Db) → texts (bulks names) db ≡ returns (names, db)
unfolding texts get_string
texts-bulks [] db = refl
texts-bulks (name ∷ names) db = rw (◌>>=◌, texts-bulks names db) refl

module _ {Db : Type 0} (b : Backend Db) (s : IsServer b) where
  -- A run of the script.
  script_run :
      (steam_id : Text) (db : Db)
      → (db' : Db) × (get_client_cookies b steam_id db
          ≡ returns (
            array_of (script_rows_for b s.reached (s.reached.text_at db) steam_id (s.listed db)),
            db',
          ))
  unfolding get_client_cookies get_array
  script_run steam_id db =
      let (db', ran) =
        cookie_rows_for b s.reached (s.reached.text_at db) steam_id s.srem (s.listed db) db
          (λ k. refl) in
      (
        db',
        rw
            (
              ◌>>=◌,
              s.smembers db,
              row_list-rows_from (bulks (s.listed db)),
              texts-bulks (s.listed db) db,
              ran,
            )
            refl,
      )

  module _ (steam_id : Text) (db : Db)
      (described : (name : Text) → IsDescribed (s.reached.text_at db) name) where
    pub scripted :
        s.has_script db ≡ true
        → (db' : Db) × (select_data_query b steam_id db
            ≡ returns (filter_map (row_for (s.reached.text_at db) steam_id) (s.listed db), db'))
    unfolding select_data_query script_answer is_ok get_array
    scripted cached =
        let (db', ran) = script_run steam_id db in
        let rows = script_rows_for b s.reached (s.reached.text_at db) steam_id (s.listed db) in
        (
          db',
          rw (◌>>=◌, s.evalsha db db' steam_id _ cached ran, row_list-rows_from rows)
              (script_rows-script_rows_for b s.reached (s.reached.text_at db) steam_id (s.listed db)
                db' (always-All described (s.listed db))),
        )

    pub unscripted :
        s.has_script db ≡ false
        → select_data_query b steam_id db
          ≡ returns (filter_map (row_for (s.reached.text_at db) steam_id) (s.stored db), db)
    unfolding select_data_query script_answer slow_path slow_answer is_ok get_array
    unscripted lost =
        rw
          (
            ◌>>=◌,
            s.evalsha_missing db steam_id lost,
            s.keys db,
            row_list-rows_from (key_bulks (s.stored db)),
          )
          (slow_items_for b s.reached (s.reached.text_at db) steam_id (s.stored db) db (λ k. refl)
            (always-All described (s.stored db)))

  -- Two states of the server that hold the same texts, one of which has the script of Query_SelectData and
  -- one has lost it, where each cookie that has an id has a description and the listed names that have an id
  -- are the names of the keys `cookies.id.*`, in any order: at both the query returns, without an
  -- exception, and fetches the same cookies with the same values, up to the order.
  pub select_data_query-Perm :
      (steam_id : Text) (db1 db2 : Db)
      → s.has_script db1 ≡ true
      → s.has_script db2 ≡ false
      → ((key : Text) → s.reached.text_at db2 key ≡ s.reached.text_at db1 key)
      → ((name : Text) → IsDescribed (s.reached.text_at db1) name)
      → Perm (with_ids (s.reached.text_at db1) (s.listed db1)) (s.stored db2)
      → (fast slow : List (Cookie × Text)) × (db' : Db) × (select_data_query b steam_id db1
          ≡ returns (fast, db'))
        × (select_data_query b steam_id db2 ≡ returns (slow, db2))
        × Perm fast slow
  select_data_query-Perm steam_id db1 db2 cached lost same described names =
      let e : s.reached.text_at db2 ≡ s.reached.text_at db1 = fun_ext same in
      let (db', ran) = scripted steam_id db1 described cached in
      let fast = filter_map (row_for (s.reached.text_at db1) steam_id) (s.listed db1) in
      let slow = filter_map (row_for (s.reached.text_at db1) steam_id) (s.stored db2) in
      let described2 = subst (λ t. (name : Text) → IsDescribed t name) (sym e) described in
      (
        fast,
        slow,
        db',
        ran,
        unscripted steam_id db2 described2 lost
            ∙ ap (λ t. returns (filter_map (row_for t steam_id) (s.stored db2), db2)) e,
        subst (λ rows. Perm rows slow)
            (rows_of_with_ids (s.reached.text_at db1) steam_id (s.listed db1))
            (Perm.filter_map (row_for (s.reached.text_at db1) steam_id) names),
      )
