-- ===== src/Query/Script/Paths.antt =====
-- Query_SelectData with the script and without it: the same rows, in another order.
use clientprefs_redis.Base.{
  ◌≡◌, refl, ap, sym, ◌∙◌, List, [], ◌∷◌, Option, none, some, inl, inr, All, Option-cases,
}
use mathlib.Core.List.{filter_map}
use mathlib.Core.Option.{Option-elim}
use clientprefs_redis.Text.{Text}
use clientprefs_redis.State.{Cookie}
use clientprefs_redis.Redis.Reply.{Reply, row_list, get_array, get_string}
use clientprefs_redis.Query.Run.{Backend, returns, ◌>>=◌, ◌>>◌}
use clientprefs_redis.Query.Keys.{id_key, access_key, desc_key, value_key, get_cmd}
use clientprefs_redis.Query.Select.{fetched, script_rows}
use clientprefs_redis.Query.Execute.Ids.{IsReached, get_answer}
use clientprefs_redis.Query.Script.{srem_cmd, array_of, bulk, call, cookie_rows}
use clientprefs_redis.Query.Script.Server.{or_empty, IsDescribed, row_with, row_for}

module _ {Db : Type 0} (b : Backend Db) (r : IsReached b) (text_at : Text → Option Text)
    (steam_id : Text) where
  call_get :
      (db : Db) (k : Text)
      → r.text_at db k ≡ text_at k
      → call b (get_cmd k) db ≡ returns (get_answer (text_at k), db)
  call_get db k e = rw (◌>>=◌, r.get db k, e)

  -- What the script makes of a name.
  abbrev pub script_row_for : Text → Option Text → Option Reply
  script_row_for name none = none
  script_row_for name (some id) = some (
      array_of (
        bulk name
        ∷ get_answer (text_at (desc_key name))
        ∷ get_answer (text_at (access_key name))
        ∷ get_answer (text_at (value_key steam_id id))
        ∷ []))

  abbrev pub script_rows_for : List Text → List Reply
  script_rows_for names = filter_map (λ name. script_row_for name (text_at (id_key name))) names

  get_string-get_answer : (o : Option Text) → get_string (get_answer o) ≡ o
  unfolding get_string
  get_string-get_answer none = refl
  get_string-get_answer (some s) = refl

  pub filter_map-none :
      {B : Type 0} (f : Text → Option B) (name : Text) (names : List Text)
      → f name ≡ none
      → filter_map f (name ∷ names) ≡ filter_map f names
  unfolding filter_map Option-elim
  filter_map-none f name names e = rw e refl

  pub filter_map-some :
      {B : Type 0} (f : Text → Option B) (name : Text) (names : List Text) (x : B)
      → f name ≡ some x
      → filter_map f (name ∷ names) ≡ x ∷ filter_map f names
  unfolding filter_map Option-elim
  filter_map-some f name names x e = rw e refl

  cookie_rows_unknown :
      (name : Text) (names : List Text) (db : Db)
      → text_at (id_key name) ≡ none
      → ((k : Text) → r.text_at db k ≡ text_at k)
      → cookie_rows b steam_id (name ∷ names) db
        ≡ cookie_rows b steam_id names (b.command db (srem_cmd name)).1
  unfolding cookie_rows get_string
  cookie_rows_unknown name names db e same =
      rw (◌>>=◌, ◌>>◌, call_get db (id_key name) (same (id_key name)), e) refl

  cookie_rows_known :
      (name id : Text) (names : List Text) (db db' : Db) (rest : List Reply)
      → text_at (id_key name) ≡ some id
      → ((k : Text) → r.text_at db k ≡ text_at k)
      → cookie_rows b steam_id names db ≡ returns (rest, db')
      → cookie_rows b steam_id (name ∷ names) db
        ≡ returns (
          array_of (
                bulk name
                ∷ get_answer (text_at (desc_key name))
                ∷ get_answer (text_at (access_key name))
                ∷ get_answer (text_at (value_key steam_id id))
                ∷ [])
              ∷ rest,
          db',
        )
  unfolding cookie_rows get_string
  cookie_rows_known name id names db db' rest e same ran =
      rw
        (
          ◌>>=◌,
          call_get db (id_key name) (same (id_key name)),
          e,
          call_get db (desc_key name) (same (desc_key name)),
          call_get db (access_key name) (same (access_key name)),
          call_get db (value_key steam_id id) (same (value_key steam_id id)),
          ran,
        )
        refl

  pub cookie_rows_for :
      ((db : Db) (name k : Text) → r.text_at (b.command db (srem_cmd name)).1 k ≡ r.text_at db k)
      → (names : List Text) (db : Db) → ((k : Text) → r.text_at db k ≡ text_at k)
      → (db' : Db) × (cookie_rows b steam_id names db ≡ returns (script_rows_for names, db'))
  unfolding cookie_rows filter_map
  cookie_rows_for srem [] db same = (db, refl)
  cookie_rows_for srem (name ∷ names) db same = elim (Option-cases (text_at (id_key name))) [
    | inl e ↦
        let (db', ran) =
          cookie_rows_for srem names (b.command db (srem_cmd name)).1
            (λ k. srem db name k ∙ same k) in
        (
          db',
          cookie_rows_unknown name names db e same
              ∙ ran
              ∙ ap (λ rows. returns (rows, db'))
                  (sym (
                    filter_map-none (λ n. script_row_for n (text_at (id_key n))) name names
                      (ap (script_row_for name) e))),
        )
    | inr (id, e) ↦
        let (db', ran) = cookie_rows_for srem names db same in
        (
          db',
          cookie_rows_known name id names db db' (script_rows_for names) e same ran
              ∙ ap (λ rows. returns (rows, db'))
                  (sym (
                    filter_map-some (λ n. script_row_for n (text_at (id_key n))) name names _
                      (ap (script_row_for name) e))),
        )
  ]

  -- The loop over the script's rows makes the rows of the cookies.
  script_rows_known :
      (name id desc : Text) (rest : List Reply) (rows : List (Cookie × Text)) (db : Db)
      → text_at (desc_key name) ≡ some desc
      → script_rows rest db ≡ returns (rows, db)
      → script_rows
          (array_of (
              bulk name
              ∷ get_answer (text_at (desc_key name))
              ∷ get_answer (text_at (access_key name))
              ∷ get_answer (text_at (value_key steam_id id))
              ∷ [])
            ∷ rest)
          db
        ≡ returns (
          fetched name desc
                (get_answer (text_at (access_key name)))
                (get_answer (text_at (value_key steam_id id)))
              ∷ rows,
          db,
        )
  unfolding script_rows get_string get_array row_list
  script_rows_known name id desc rest rows db found ran = rw (◌>>=◌, found, ran) refl

  pub script_rows-script_rows_for :
      (names : List Text) (db : Db)
      → All (IsDescribed text_at) names
      → script_rows (script_rows_for names) db
        ≡ returns (filter_map (row_for text_at steam_id) names, db)
  unfolding script_rows filter_map
  script_rows-script_rows_for [] db h = refl
  script_rows-script_rows_for (name ∷ names) db (h, hs) =
      let rest = script_rows-script_rows_for names db hs in
      elim (Option-cases (text_at (id_key name))) [
        | inl e ↦
            ap (λ rows. script_rows rows db)
              (filter_map-none (λ n. script_row_for n (text_at (id_key n))) name names
                (ap (script_row_for name) e))
            ∙ rest
            ∙ ap (λ rows. returns (rows, db))
                (sym (
                  filter_map-none (row_for text_at steam_id) name names
                    (ap (row_with text_at steam_id name) e)))
        | inr (id, e) ↦
            let (desc, found) = h id e in
            ap (λ rows. script_rows rows db)
              (filter_map-some (λ n. script_row_for n (text_at (id_key n))) name names _
                (ap (script_row_for name) e))
            ∙ script_rows_known name id desc (script_rows_for names)
                (filter_map (row_for text_at steam_id) names) db found rest
            ∙ ap (λ rows. returns (rows, db))
                (sym (
                  filter_map-some (row_for text_at steam_id) name names _ (
                    ap (row_with text_at steam_id name) e
                    ∙ ap
                        (λ o. some (
                          fetched name (or_empty o) (get_answer (text_at (access_key name)))
                            (get_answer (text_at (value_key steam_id id)))))
                        found)))
      ]
