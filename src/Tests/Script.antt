-- ===== src/Tests/Script.antt =====
-- Query_SelectData at a small server.
use clientprefs_redis.Base.{
  ◌≡◌, refl, ap, sym, ◌∙◌, List, [], ◌∷◌, Option, none, some, Bool, true, false, if◌then◌else◌,
  eq_text, arith, Option-cases, Bool-cases, inl, inr,
}
use mathlib.Core.List.{Perm, filter_map}
use mathlib.Core.List.Perm
use mathlib.Core.Option.{Option-elim}
use clientprefs_redis.Text.{Text, codes}
use clientprefs_redis.State.{Cookie}
use clientprefs_redis.Redis.Reply.{Reply, get_array, get_string}
use clientprefs_redis.Query.Run.{Backend, Outcome, returns, throws, faults, ◌>>=◌, ◌>>◌}
use clientprefs_redis.Query.Keys.{id_key, desc_key}
use clientprefs_redis.Query.Select.{select_data_query}
use clientprefs_redis.Query.Execute.Ids.{IsReached, get_answer}
use clientprefs_redis.Query.Script.{array_of, get_client_cookies, cookie_rows}
use clientprefs_redis.Query.Script.Server.{IsServer, IsDescribed, bulks, key_bulks, no_script}
use clientprefs_redis.Query.Script.Agreement.{
  select_data_query-Perm, texts-bulks, row_list-rows_from,
}
use clientprefs_redis.State.{CookieData, QueryOp, insert_data, serial_op}
use clientprefs_redis.Base.{pos, ◌==◌}
use clientprefs_redis.Text.Decimal.{to_string}
use clientprefs_redis.Query.Execute.{run_thread_part}
use clientprefs_redis.Query.Script.Saved.{
  IsKept, starts_like_key, saved_row, names_of, select_data_query-run_thread_part,
}
use clientprefs_redis.Tests.Redis.{held}

-- The script cache, `cookies.list`, the names of the cookies with an id, and the texts.
record Store : Type 0 where
  has_script : Bool
  members : List Text
  names : List Text
  held_texts : List (Text × Text)

without : Text → List Text → List Text
without name [] = []
without name (n ∷ ns) = let rest = without name ns in if eq_text n name then rest else n ∷ rest

-- What follows a prefix.
behind : Text → Text → Option Text
behind [] s = some s
behind (p ∷ ps) [] = none
behind (p ∷ ps) (c ∷ s) = let rest = behind ps s in if c == p then rest else none

-- The names of the cookies with an id, after a SET of a key.
with_name : Option Text → List Text → List Text
with_name none names = names
with_name (some name) names = name ∷ without name names

stored_key : Text → List Text → List Text
unfolding with_name
stored_key key names = with_name (behind (codes "cookies.id.") key) names

-- The value under a key.
store : Text → Text → Store → Store
unfolding stored_key
store key value db = record db {
  held_texts = (key, value) ∷ db.held_texts;
  names = stored_key key db.names;
}

-- Every command but EVALSHA.
plain : Store → List Text → Option Reply × Store
unfolding store
plain db (verb ∷ key ∷ []) =
    if eq_text verb (codes "SMEMBERS")
    then (some (array_of (bulks db.members)), db)
    else if eq_text verb (codes "KEYS")
    then (some (array_of (key_bulks db.names)), db)
    else (some (get_answer (held db.held_texts key)), db)
plain db (verb ∷ key ∷ value ∷ []) = (
  some (get_answer none),
  if eq_text verb (codes "SET")
      then store key value db
      else if eq_text verb (codes "SREM")
      then record db { members = without value db.members }
      else db,
)
plain db (verb ∷ key ∷ value ∷ ex ∷ time ∷ []) = (some (get_answer none), store key value db)
plain db cmd = (none, db)

abbrev plain_redis : Backend Store
plain_redis = record { command = plain; hash = λ s. 5 }

of_run : Store → Outcome (Reply × Store) → Option Reply × Store
of_run db (returns (r, db')) = (some r, db')
of_run db throws = (none, db)
of_run db faults = (none, db)

serve_command : Store → List Text → Option Reply × Store
serve_command db (verb ∷ sha ∷ keys ∷ steam_id ∷ []) =
    if db.has_script
    then of_run db (get_client_cookies plain_redis steam_id db)
    else (some no_script, db)
serve_command db cmd = plain db cmd

abbrev redis : Backend Store
redis = record { command = serve_command; hash = λ s. 5 }

is_reached : IsReached redis
unfolding serve_command plain store held eq_text
is_reached = record {
  text_at = λ db. held db.held_texts;
  get = λ db k. refl;
  set = λ db k v j. refl;
  sadd = λ db name j. refl;
}

same_rows :
    (steam_id : Text) (names : List Text) (db : Store)
    → cookie_rows redis steam_id names db ≡ cookie_rows plain_redis steam_id names db
unfolding cookie_rows serve_command plain store eq_text get_string
same_rows steam_id [] db = refl
same_rows steam_id (name ∷ names) db = elim (Option-cases (held db.held_texts (id_key name))) [
  | inl e ↦
      rw (cookie_rows, ◌>>=◌, ◌>>◌, e)
        (same_rows steam_id names (record db { members = without name db.members }))
  | inr (id, e) ↦ rw (cookie_rows, ◌>>=◌, e) (rw (◌>>=◌, same_rows steam_id names db) refl)
]

same_script :
    (steam_id : Text) (db : Store)
    → get_client_cookies redis steam_id db ≡ get_client_cookies plain_redis steam_id db
unfolding get_client_cookies serve_command plain store eq_text get_array
same_script steam_id db =
    rw (◌>>=◌, row_list-rows_from (bulks db.members), texts-bulks db.members db)
      (rw (◌>>=◌, same_rows steam_id db.members db) refl)

is_server : IsServer redis
unfolding serve_command plain store is_reached eq_text of_run
is_server = record {
  reached = is_reached;
  listed = λ db. db.members;
  stored = λ db. db.names;
  has_script = λ db. db.has_script;
  smembers = λ db. refl;
  srem = λ db name k. refl;
  keys = λ db. refl;
  evalsha = λ db db' steam_id r cached ran.
      ap
        (λ c.
          if c
          then of_run db (get_client_cookies plain_redis steam_id db)
          else (some no_script, db))
        cached
      ∙ ap (of_run db) (sym (same_script steam_id db) ∙ ran);
  evalsha_missing = λ db steam_id lost.
      ap
        (λ c.
          if c
          then of_run db (get_client_cookies plain_redis steam_id db)
          else (some no_script, db))
        lost;
}

-- Two cookies with a value for one of them, and a name without an id.
abbrev with_two : Store
with_two = record {
  has_script = true;
  members = codes "gone" ∷ codes "a" ∷ codes "b" ∷ [];
  names = codes "b" ∷ codes "a" ∷ [];
  held_texts =
      (id_key (codes "a"), codes "11")
      ∷ (id_key (codes "b"), codes "12")
      ∷ (desc_key (codes "a"), codes "first")
      ∷ (desc_key (codes "b"), codes "second")
      ∷ (codes "STEAM_1:0:7.12", codes "red")
      ∷ [];
}

abbrev restarted : Store
restarted = record with_two { has_script = false }

described : (name : Text) → IsDescribed (held with_two.held_texts) name
unfolding held eq_text
described name id e = elim (Bool-cases (eq_text (codes "a") name)) [
  | inl a ↦ (codes "first", rw a refl)
  | inr other ↦ elim (Bool-cases (eq_text (codes "b") name)) [
    | inl b ↦ (codes "second", rw (other, b) refl)
    | inr neither ↦ absurd (ground arith)
  ]
]

select_data_query-Perm_example :
    (fast slow : List (Cookie × Text)) × (db' : Store) × (select_data_query redis
        (codes "STEAM_1:0:7")
        with_two
      ≡ returns (fast, db'))
    × (select_data_query redis (codes "STEAM_1:0:7") restarted ≡ returns (slow, restarted))
    × Perm fast slow
unfolding is_server is_reached filter_map Option-elim held eq_text
select_data_query-Perm_example =
    select_data_query-Perm redis is_server (codes "STEAM_1:0:7") with_two restarted refl refl
      (λ k. refl) described (Perm.swap _ _ _)

stored_key_other :
    (k : Text) (names : List Text) → starts_like_key k ≡ false → stored_key k names ≡ names
unfolding stored_key behind with_name
stored_key_other [] names h = refl
stored_key_other (c ∷ s) names h = rw h refl

is_kept : IsKept redis is_server
unfolding is_server is_reached serve_command plain store held eq_text
is_kept = record {
  save = λ db k v j. refl;
  same_listed = λ db k v other. refl;
  same_stored = λ db k v other. stored_key_other k db.names other;
  same_script = λ db k v. refl;
}

abbrev blue : CookieData
blue = record { value = codes "blue"; changed = true; timestamp = 7; parent = some 1 }

abbrev blue_op : QueryOp
blue_op =
    let op = serial_op insert_data 1 in
    record op {
      params = record op.params {
        steam_id = codes "STEAM_1:0:7";
        cookie_id = pos 11;
        datum = some 2;
      };
    }

select_data_query-run_thread_part_example :
    (db1 db2 : Store) × (run_thread_part redis
        (λ p. none)
        (λ d. if d == 2 then some blue else none)
        blue_op
        with_two
      ≡ returns (blue_op, db1))
    × (select_data_query redis (codes "STEAM_1:0:7") db1
        ≡ returns (
          filter_map
              (saved_row
                (is_server.reached.text_at with_two)
                (codes "STEAM_1:0:7")
                (to_string (pos 11))
                (codes "blue"))
              (names_of redis is_server with_two),
          db2,
        ))
unfolding is_server is_reached
select_data_query-run_thread_part_example =
    select_data_query-run_thread_part redis is_server is_kept (λ p. none)
      (λ d. if d == 2 then some blue else none) blue_op 2 blue with_two refl refl refl refl
      described
