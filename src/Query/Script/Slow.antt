-- ===== src/Query/Script/Slow.antt =====
-- The slow path of Query_SelectData, cookie by cookie.
use clientprefs_redis.Base.{
  ◌≡◌, refl, ap, ◌∙◌, List, [], ◌∷◌, Option, none, some, inl, inr, arith, All, Option-cases,
}
use mathlib.Core.List.{filter_map}
use mathlib.Core.Option.{Option-elim}
use clientprefs_redis.Text.{Text}
use clientprefs_redis.State.{Cookie}
use clientprefs_redis.Redis.Reply.{get_string}
use clientprefs_redis.Query.Run.{Backend, returns, ◌>>=◌}
use clientprefs_redis.Query.Keys.{id_key, access_key, desc_key, value_key, get_cmd}
use clientprefs_redis.Query.Select.{slow_item, slow_items, add_item, substr}
use clientprefs_redis.Query.Execute.Ids.{IsReached, get_answer}
use clientprefs_redis.Query.Script.Server.{key_bulks, IsDescribed, row_for}

module _ {Db : Type 0} (b : Backend Db) (r : IsReached b) (text_at : Text → Option Text)
    (steam_id : Text) where
  command_get :
      (db : Db) (k : Text)
      → ((j : Text) → r.text_at db j ≡ text_at j)
      → b.command db (get_cmd k) ≡ (some (get_answer (text_at k)), db)
  command_get db k same = r.get db k ∙ ap (λ o. (some (get_answer o), db)) (same k)

  substr-id_key : (name : Text) → substr 11 (id_key name) ≡ some name
  substr-id_key name = ground arith

  slow_item_for :
      (name : Text) (db : Db)
      → ((k : Text) → r.text_at db k ≡ text_at k)
      → IsDescribed text_at name
      → slow_item b steam_id (id_key name) db ≡ returns (row_for text_at steam_id name, db)
  unfolding slow_item get_string
  slow_item_for name db same h = elim (Option-cases (text_at (id_key name))) [
    | inl e ↦ rw (◌>>=◌, substr-id_key name, command_get db (id_key name) same, e) refl
    | inr (id, e) ↦
        let (desc, found) = h id e in
        rw
          (
            ◌>>=◌,
            substr-id_key name,
            command_get db (id_key name) same,
            e,
            command_get db (value_key steam_id id) same,
            command_get db (desc_key name) same,
            command_get db (access_key name) same,
          )
          (rw (◌>>=◌, command_get db (value_key steam_id id) same)
            (rw
              (
                ◌>>=◌,
                command_get db (value_key steam_id id) same,
                command_get db (desc_key name) same,
                found,
              )
              refl))
  ]

  add_item-Option-elim :
      (o : Option (Cookie × Text)) (rest : List (Cookie × Text))
      → add_item b o rest ≡ Option-elim o rest (λ x. x ∷ rest)
  unfolding Option-elim
  add_item-Option-elim none rest = refl
  add_item-Option-elim (some x) rest = refl

  pub slow_items_for :
      (names : List Text) (db : Db)
      → ((k : Text) → r.text_at db k ≡ text_at k)
      → All (IsDescribed text_at) names
      → slow_items b steam_id (key_bulks names) db
        ≡ returns (filter_map (row_for text_at steam_id) names, db)
  unfolding slow_items filter_map get_string
  slow_items_for [] db same h = refl
  slow_items_for (name ∷ names) db same (h, hs) =
      let found = slow_item_for name db same h in
      let rest = slow_items_for names db same hs in
      let added =
        add_item-Option-elim (row_for text_at steam_id name)
          (filter_map (row_for text_at steam_id) names) in
      rw (◌>>=◌, found, rest) (ap (λ rows. returns (rows, db)) added)
