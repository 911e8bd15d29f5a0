-- ===== src/Query/Execute/Ids.antt =====
-- The ids of cookies: one that was stored is found again, and Query_SelectId finds none.
use clientprefs_redis.Base.{
  ℕ, ◌≡◌, ◌≢◌, refl, ap, sym, ◌∙◌, [], Option, none, some, true, ℤ, pos, if◌then◌else◌, eq_text,
  eq_text_refl, arith,
}
use clientprefs_redis.Text.{Text}
use clientprefs_redis.Text.Decimal.{stoi, to_string, stoi-to_string, IsInt}
use clientprefs_redis.State.{insert_cookie, Cookie, CookieData, QueryOp, select_id}
use clientprefs_redis.Redis.Reply.{Reply, reply, end, string, nil, get_string}
use clientprefs_redis.Query.Run.{Outcome, Backend, returns, throws, faults, follow, pure, ◌>>=◌}
use clientprefs_redis.Query.Keys.{id_key, access_key, desc_key, get_cmd, set_cmd, sadd_cmd}
use clientprefs_redis.Query.Execute.{
  run_thread_part, run_or_connect, run_type, run_type, id_result, hash_id, insert_cookie_answer,
  insert_cookie_query, select_id_answer, select_id_query, bind_params_and_run,
}

-- What a GET of a key that holds a text, or nothing, is answered with.
abbrev pub get_answer : Option Text → Reply
get_answer none = reply nil end [] (pos 0)
get_answer (some s) = reply string end s (pos 0)

-- A server that is reached: GET answers with the text that a key holds and changes nothing, SET
-- gives its key the text and keeps the others, SADD keeps every text. The program sends no GET and no
-- SET for `cookies.list`, which is a set, and no key but that one holds anything but a text.
pub record IsReached {Db : Type 0} (b : Backend Db) : Type 0 where
  pub text_at : Db → Text → Option Text
  pub get : (db : Db) (k : Text) → b.command db (get_cmd k) ≡ (some (get_answer (text_at db k)), db)
  pub set :
      (db : Db) (k v j : Text)
      → text_at (b.command db (set_cmd k v)).1 j ≡ (if eq_text k j then some v else text_at db j)
  pub sadd : (db : Db) (name j : Text) → text_at (b.command db (sadd_cmd name)).1 j ≡ text_at db j

module _ {Db : Type 0} (b : Backend Db) where
  hash_id-IsInt : (name : Text) → IsInt (hash_id b name)
  unfolding hash_id
  hash_id-IsInt name = omega arith

  select_id_answer_never :
      (r : Reply) (db : Db) (o : Option ℤ) (db' : Db)
      → select_id_answer b r db ≡ returns (o, db')
      → o ≡ none
  unfolding select_id_answer get_string
  select_id_answer_never (reply type rows str n) db o db' h = ground arith

  follow_never :
      (a : Option Reply) (db : Db) (o : Option ℤ) (db' : Db)
      → (follow a >>= select_id_answer b) db ≡ returns (o, db')
      → o ≡ none
  follow_never none db o db' h = cc
  follow_never (some r) db o db' h = select_id_answer_never r db o db' h

  select_id_query_never :
      (name : Text) (db : Db) (o : Option ℤ) (db' : Db)
      → select_id_query b name db ≡ returns (o, db')
      → o ≡ none
  unfolding select_id_query
  select_id_query_never name db o db' h =
      follow_never (b.command db (get_cmd (id_key name))).0 _ o db' h

  id_result_never :
      (m : Outcome (Option ℤ × Db)) (op op' : QueryOp) (db db' : Db)
      → ((o : Option ℤ) (d : Db) → m ≡ returns (o, d) → o ≡ none)
      → ((λ _. m) >>= λ id. pure (id_result op id)) db ≢ returns ((true, op'), db')
  id_result_never (returns (none, d)) op op' db db' h e = cc
  id_result_never (returns (some id, d)) op op' db db' h e = cc (h (some id) d refl)
  id_result_never throws op op' db db' h e = cc
  id_result_never faults op op' db db' h e = cc

  select_id_run :
      (cookies : ℕ → Option Cookie) (datums : ℕ → Option CookieData) (op op' : QueryOp)
      (db db' : Db)
      → run_type b select_id cookies datums op db ≢ returns ((true, op'), db')
  unfolding run_type
  select_id_run cookies datums op op' db db' =
      id_result_never (select_id_query b op.params.steam_id db) op op' db db'
        (select_id_query_never op.params.steam_id db)

  -- Query_SelectId gives a cookie no id, whatever the server answers: it fails where the id is there
  -- as a text, and throws where it is not.
  pub select_id_never :
      (cookies : ℕ → Option Cookie) (datums : ℕ → Option CookieData) (op op' : QueryOp)
      (db db' : Db)
      → op.type ≡ select_id
      → bind_params_and_run b cookies datums op db ≢ returns ((true, op'), db')
  unfolding bind_params_and_run
  select_id_never cookies datums op op' db db' e ran =
      select_id_run cookies datums op op' db db'
        (ap (λ type. run_type b type cookies datums op db) (sym e) ∙ ran)

module _ {Db : Type 0} (b : Backend Db) (r : IsReached b) where
  -- The server after the four commands that store a new cookie.
  abbrev stored : Cookie → Db → Db
  stored k db =
      let a = (b.command db (sadd_cmd k.name)).1 in
      let c = (b.command a (set_cmd (access_key k.name) (to_string k.access))).1 in
      let d = (b.command c (set_cmd (desc_key k.name) k.description)).1 in
      (b.command d (set_cmd (id_key k.name) (to_string (hash_id b k.name)))).1

  query_new :
      (k : Cookie) (db : Db)
      → r.text_at db (id_key k.name) ≡ none
      → insert_cookie_query b k db ≡ returns (hash_id b k.name, stored k db)
  unfolding insert_cookie_query insert_cookie_answer
  query_new k db h = rw (r.get db (id_key k.name), h)

  query_known :
      (k : Cookie) (db : Db) (text : Text) (id : ℤ)
      → r.text_at db (id_key k.name) ≡ some text
      → stoi text ≡ some id
      → insert_cookie_query b k db ≡ returns (id, (b.command db (sadd_cmd k.name)).1)
  unfolding insert_cookie_query insert_cookie_answer get_string
  query_known k db text id h e = rw (r.get db (id_key k.name), h, e)

  stored_id :
      (k : Cookie) (db : Db)
      → r.text_at (stored k db) (id_key k.name) ≡ some (to_string (hash_id b k.name))
  stored_id k db = rw (
    r.set _ (id_key k.name) (to_string (hash_id b k.name)) (id_key k.name),
    eq_text_refl (id_key k.name),
  )

  stored_desc :
      (k : Cookie) (db : Db) → r.text_at (stored k db) (desc_key k.name) ≡ some k.description
  unfolding eq_text
  stored_desc k db =
      r.set _ (id_key k.name) (to_string (hash_id b k.name)) (desc_key k.name)
      ∙ r.set _ (desc_key k.name) k.description (desc_key k.name)
      ∙ rw (eq_text_refl (desc_key k.name))

  stored_access :
      (k : Cookie) (db : Db)
      → r.text_at (stored k db) (access_key k.name) ≡ some (to_string k.access)
  unfolding eq_text
  stored_access k db =
      r.set _ (id_key k.name) (to_string (hash_id b k.name)) (access_key k.name)
      ∙ r.set _ (desc_key k.name) k.description (access_key k.name)
      ∙ r.set _ (access_key k.name) (to_string k.access) (access_key k.name)
      ∙ rw (eq_text_refl (access_key k.name))

  -- Query_InsertCookie for a name that the server does not know: the cookie's id is the hash of its
  -- name without the sign bit, and the server then holds the id, the description and the access under
  -- the keys of the name. The next query for a cookie of that name gives the same id, read back from
  -- its decimal digits, and leaves all texts as they are.
  pub insert_cookie_stable :
      (k k' : Cookie) (db : Db)
      → k'.name ≡ k.name
      → r.text_at db (id_key k.name) ≡ none
      → (db1 db2 : Db) × (insert_cookie_query b k db ≡ returns (hash_id b k.name, db1))
        × (r.text_at db1 (id_key k.name) ≡ some (to_string (hash_id b k.name)))
        × (r.text_at db1 (desc_key k.name) ≡ some k.description)
        × (r.text_at db1 (access_key k.name) ≡ some (to_string k.access))
        × (insert_cookie_query b k' db1 ≡ returns (hash_id b k.name, db2))
        × ((key : Text) → r.text_at db2 key ≡ r.text_at db1 key)
  insert_cookie_stable k k' db e h = (
    stored k db,
    _,
    query_new k db h,
    stored_id k db,
    stored_desc k db,
    stored_access k db,
    query_known k' (stored k db) (to_string (hash_id b k.name)) (hash_id b k.name)
        (ap (λ n. r.text_at (stored k db) (id_key n)) e ∙ stored_id k db)
        (stoi-to_string (hash_id b k.name) (hash_id-IsInt b k.name)),
    λ key. r.sadd (stored k db) k'.name key,
  )

module _ {Db : Type 0} (b : Backend Db) where
  -- A thread that runs a query for an id puts what the server answers into the query.
  pub run_thread_part_id :
      (cookies : ℕ → Option Cookie) (datums : ℕ → Option CookieData) (op : QueryOp) (p : ℕ)
      (k : Cookie) (id : ℤ) (db db' : Db)
      → cookies p ≡ some k
      → insert_cookie_query b k db ≡ returns (id, db')
      → run_thread_part b cookies datums
          (record op { type = insert_cookie; params = record op.params { cookie = some p } })
          db
        ≡ returns (
          record op {
            type = insert_cookie;
            params = record op.params { cookie = some p };
            insert_id = id;
          },
          db',
        )
  unfolding run_thread_part run_or_connect bind_params_and_run run_type
  run_thread_part_id cookies datums op p k id db db' alive ran = rw (◌>>=◌, alive, ran)
