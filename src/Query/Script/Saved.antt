-- ===== src/Query/Script/Saved.antt =====
-- A value that one query saves is fetched by the next query for the values of the player.
use clientprefs_redis.Base.{
  ℕ, ◌≡◌, refl, ap, sym, ◌∙◌, List, [], ◌∷◌, ◌++◌, Option, none, some, Bool, false, ◌==◌,
  if◌then◌else◌, eq_text, Bool-cases, inl, inr, arith,
}
use mathlib.Core.List.{filter_map}
use mathlib.Core.Path.{fun_ext, subst}
use clientprefs_redis.Text.{Text, codes}
use clientprefs_redis.Text.Decimal.{to_string}
use clientprefs_redis.State.{Cookie, CookieData, QueryOp, insert_data}
use clientprefs_redis.Query.Run.{Backend, returns}
use clientprefs_redis.Query.Keys.{id_key, access_key, desc_key, value_key, save_cmd}
use clientprefs_redis.Query.Select.{fetched, select_data_query}
use clientprefs_redis.Query.Execute.{run_thread_part}
use clientprefs_redis.Query.Execute.Ids.{get_answer}
use clientprefs_redis.Query.Execute.Runs.{run_thread_part_save, saving}
use clientprefs_redis.Query.Script.Server.{IsServer, IsDescribed, row_for, row_with, or_empty}
use clientprefs_redis.Query.Script.Agreement.{scripted, unscripted}

-- A Steam id starts with another letter than the keys of the cookies.
abbrev pub starts_like_key : Text → Bool
starts_like_key [] = false
starts_like_key (c ∷ s) = c == b'c'

-- SET with EX gives its key the text for the time, and keeps the other texts and the script. It
-- keeps the names of the cookies too, where the key is not one of theirs.
pub record IsKept {Db : Type 0} (b : Backend Db) (s : IsServer b) : Type 0 where
  pub save :
      (db : Db) (k v j : Text)
      → s.reached.text_at (b.command db (save_cmd k v)).1 j
        ≡ (if eq_text k j then some v else s.reached.text_at db j)
  pub same_listed :
      (db : Db) (k v : Text)
      → starts_like_key k ≡ false
      → s.listed (b.command db (save_cmd k v)).1 ≡ s.listed db
  pub same_stored :
      (db : Db) (k v : Text)
      → starts_like_key k ≡ false
      → s.stored (b.command db (save_cmd k v)).1 ≡ s.stored db
  pub same_script :
      (db : Db) (k v : Text) → s.has_script (b.command db (save_cmd k v)).1 ≡ s.has_script db

eq_text-append : (s a a' : Text) → eq_text (s ++ a) (s ++ a') ≡ eq_text a a'
unfolding eq_text
eq_text-append [] a a' = refl
eq_text-append (c ∷ s) a a' = ground (arith, eq_text-append s a a')

-- The key of a value is no key of a cookie's own fields.
value_key_apart :
    (steam_id id : Text)
    → starts_like_key steam_id ≡ false
    → starts_like_key (value_key steam_id id) ≡ false
value_key_apart [] id h = refl
value_key_apart (c ∷ s) id h = h

eq_text_key :
    (steam_id id name : Text)
    → starts_like_key steam_id ≡ false
    → (eq_text (value_key steam_id id) (id_key name) ≡ false)
      × (eq_text (value_key steam_id id) (desc_key name) ≡ false)
      × (eq_text (value_key steam_id id) (access_key name) ≡ false)
unfolding eq_text
eq_text_key [] id name h = (refl, refl, refl)
eq_text_key (c ∷ s) id name h = (ground arith, ground arith, ground arith)

module _ (text_at : Text → Option Text) (steam_id saved_id value : Text) where
  -- The row of a cookie where the value of the cookie with the id `saved_id` is `value`.
  abbrev pub saved_with : Text → Option Text → Option (Cookie × Text)
  saved_with name none = none
  saved_with name (some id) = some (
      fetched name (or_empty (text_at (desc_key name))) (get_answer (text_at (access_key name)))
        (get_answer (if eq_text saved_id id then some value else text_at (value_key steam_id id))))

  abbrev pub saved_row : Text → Option (Cookie × Text)
  saved_row name = saved_with name (text_at (id_key name))

  -- The texts with the value.
  abbrev after_save : Text → Option Text
  after_save key = if eq_text (value_key steam_id saved_id) key then some value else text_at key

  row_with-saved :
      (name : Text) (id : Option Text)
      → starts_like_key steam_id ≡ false
      → row_with after_save steam_id name id ≡ saved_with name id
  unfolding eq_text
  row_with-saved name none h = refl
  row_with-saved name (some id) h =
      let (e1, e2, e3) = eq_text_key steam_id saved_id name h in
      rw (e2, e3, eq_text-append steam_id (codes "." ++ saved_id) (codes "." ++ id)) refl

  row_for-saved :
      (name : Text)
      → starts_like_key steam_id ≡ false
      → row_for after_save steam_id name ≡ saved_row name
  row_for-saved name h =
      let (e1, e2, e3) = eq_text_key steam_id saved_id name h in
      rw e1 (row_with-saved name (text_at (id_key name)) h)

  -- The other texts are still there.
  after_save-IsDescribed :
      (name : Text)
      → starts_like_key steam_id ≡ false
      → IsDescribed text_at name
      → IsDescribed after_save name
  after_save-IsDescribed name h described id e =
      let (e1, e2, e3) = eq_text_key steam_id saved_id name h in
      let (desc, found) = described id (ground (arith, e, e1)) in (desc, rw e2 found)

module _ {Db : Type 0} (b : Backend Db) (s : IsServer b) where
  -- The names that the query goes through.
  abbrev pub names_of : Db → List Text
  names_of db = if s.has_script db then s.listed db else s.stored db

  fetches :
      (steam_id : Text) (db : Db)
      → ((name : Text) → IsDescribed (s.reached.text_at db) name)
      → (db' : Db) × (select_data_query b steam_id db
          ≡ returns (filter_map (row_for (s.reached.text_at db) steam_id) (names_of db), db'))
  fetches steam_id db described = elim (Bool-cases (s.has_script db)) [
    | inl cached ↦
        let (db', ran) = scripted b s steam_id db described cached in
        (
          db',
          ran
              ∙ ap
                  (λ c. returns (
                    filter_map (row_for (s.reached.text_at db) steam_id)
                        (if c then s.listed db else s.stored db),
                    db',
                  ))
                  (sym cached),
        )
    | inr lost ↦ (
      db,
      unscripted b s steam_id db described lost
          ∙ ap
              (λ c. returns (
                filter_map (row_for (s.reached.text_at db) steam_id)
                    (if c then s.listed db else s.stored db),
                db,
              ))
              (sym lost),
    )
  ]

  -- A query that saves a value of a player, and then the query for the values of that player, by the script or
  -- without it: both return, and the second fetches for the cookie with that id the value that
  -- was saved, and for each other cookie what it would have fetched before. The Steam id does not begin like a
  -- key of a cookie, and each cookie that has an id has a description.
  pub select_data_query-run_thread_part :
      (kept : IsKept b s) (cookies : ℕ → Option Cookie) (datums : ℕ → Option CookieData)
      (op : QueryOp) (d : ℕ) (x : CookieData) (db : Db)
      → op.type ≡ insert_data
      → op.params.datum ≡ some d
      → datums d ≡ some x
      → starts_like_key op.params.steam_id ≡ false
      → ((name : Text) → IsDescribed (s.reached.text_at db) name)
      → (db1 db2 : Db) × (run_thread_part b cookies datums op db ≡ returns (op, db1))
        × (select_data_query b op.params.steam_id db1
            ≡ returns (
              filter_map
                  (saved_row
                    (s.reached.text_at db)
                    op.params.steam_id
                    (to_string op.params.cookie_id)
                    x.value)
                  (names_of db),
              db2,
            ))
  select_data_query-run_thread_part kept cookies datums op d x db type holds found other described =
      let steam_id = op.params.steam_id in
      let saved_id = to_string op.params.cookie_id in
      let key = value_key steam_id saved_id in
      let apart = value_key_apart steam_id saved_id other in
      let db1 = (b.command db (saving b op x)).1 in
      let texts : s.reached.text_at db1
          ≡ after_save (s.reached.text_at db) steam_id saved_id x.value =
        fun_ext (kept.save db key x.value) in
      let described1 =
        subst (λ t. (name : Text) → IsDescribed t name) (sym texts)
          (λ name.
            after_save-IsDescribed (s.reached.text_at db) steam_id saved_id x.value name other
              (described name)) in
      let (db2, ran) = fetches steam_id db1 described1 in
      let rows : row_for (s.reached.text_at db1) steam_id
          ≡ saved_row (s.reached.text_at db) steam_id saved_id x.value =
        fun_ext (λ name.
          ap (λ t. row_for t steam_id name) texts
          ∙ row_for-saved (s.reached.text_at db) steam_id saved_id x.value name other) in
      let names : names_of db1 ≡ names_of db =
        rw
          (
            kept.same_script db key x.value,
            kept.same_listed db key x.value apart,
            kept.same_stored db key x.value apart,
          )
          refl in
      (
        db1,
        db2,
        run_thread_part_save b cookies datums op d x db type holds found,
        ran
            ∙ ap (λ f. returns (filter_map f (names_of db1), db2)) rows
            ∙ ap
                (λ ns.
                  returns (
                    filter_map (saved_row (s.reached.text_at db) steam_id saved_id x.value) ns,
                    db2,
                  ))
                names,
      )
