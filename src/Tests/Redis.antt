-- ===== src/Tests/Redis.antt =====
-- Texts, replies, commands and queries.
use clientprefs_redis.Base.{
  ◌==◌, ℕ, ◌≡◌, ◌≢◌, refl, List, [], ◌∷◌, ◌++◌, Option, none, some, true, if◌then◌else◌, arith, pos,
  negsuc, length, eq_text,
}
use clientprefs_redis.Text.{Text, codes, clip}
use clientprefs_redis.Text.Decimal.{to_string}
use clientprefs_redis.Text.Strncpy.{Holds, util_strncpy, util_strncpy-clip}
use clientprefs_redis.State.{Cookie, serial_op, select_id}
use clientprefs_redis.Redis.Reply
use clientprefs_redis.Redis.Reply.View.{Value, Values, view, cut, raw_of, view_reply}
use clientprefs_redis.Redis.Command.{format_command}
use clientprefs_redis.Redis.Command.Decode.{read_command, read_command-format_command}
use clientprefs_redis.Query.Run.{Backend, returns}
use clientprefs_redis.Query.Keys.{id_key, desc_key, access_key}
use clientprefs_redis.Query.Execute.{hash_id, insert_cookie_query, bind_params_and_run}
use clientprefs_redis.Base.Fault.{update}
use clientprefs_redis.State.{World, new_world}
use clientprefs_redis.Tests.Fixtures.{test_sdk, test_server}
use clientprefs_redis.Extension.Frame.{run_frame, ask_op}
use clientprefs_redis.Extension.Thread.{thread_turn, run_frame-thread_turn}
use clientprefs_redis.Query.Execute.Ids.{
  IsReached, get_answer, insert_cookie_stable, select_id_never,
}

util_strncpy-clip_example :
    (b : List ℕ) × (util_strncpy (1 ∷ 1 ∷ 1 ∷ 1 ∷ []) (some (codes "abcdef")) 3 ≡ some b)
    × Holds (clip 3 (some (codes "abcdef"))) 3 (1 ∷ 1 ∷ 1 ∷ 1 ∷ []) b
util_strncpy-clip_example =
    util_strncpy-clip 3 (1 ∷ 1 ∷ 1 ∷ 1 ∷ []) (some (codes "abcdef")) (omega arith) (omega arith)
      (omega arith) (omega arith)

abbrev answer : Value
answer = Value.array (Values.cons (Value.bulk (codes "color")) (Values.cons Value.null Values.nil))

view_reply_example : view (Reply.reply_of (raw_of answer)) ≡ cut answer
view_reply_example = view_reply answer

read_command-format_command_example :
    read_command (format_command (codes "GET" ∷ codes "k" ∷ []) ++ codes "*")
    ≡ some (codes "GET" ∷ codes "k" ∷ [], codes "*")
read_command-format_command_example =
    read_command-format_command (codes "GET" ∷ codes "k" ∷ []) (codes "*")

-- A server that holds texts by their keys, the latest first.
unfoldable pub held : List (Text × Text) → Text → Option Text
held [] j = none
held ((k, v) ∷ db) j = if eq_text k j then some v else held db j

unfoldable pub answers : List (Text × Text) → List Text → Option Reply.Reply × List (Text × Text)
unfolding held
answers db (verb ∷ key ∷ []) = (some (get_answer (held db key)), db)
answers db (verb ∷ key ∷ value ∷ rest) =
    (some (get_answer none), if eq_text verb (codes "SET") then (key, value) ∷ db else db)
answers db cmd = (none, db)

abbrev pub test_redis : Backend (List (Text × Text))
test_redis = record { command = answers; hash = length }

held_set :
    (db : List (Text × Text)) (k v j : Text)
    → held (answers db (codes "SET" ∷ k ∷ v ∷ [])).1 j ≡ (if eq_text k j then some v else held db j)
unfolding answers eq_text
held_set db k v j = refl

held_sadd :
    (db : List (Text × Text)) (name j : Text)
    → held (answers db (codes "SADD" ∷ codes "cookies.list" ∷ name ∷ [])).1 j ≡ held db j
unfolding answers eq_text
held_sadd db name j = refl

held_get :
    (db : List (Text × Text)) (k : Text)
    → answers db (codes "GET" ∷ k ∷ []) ≡ (some (get_answer (held db k)), db)
unfolding answers
held_get db k = refl

abbrev is_reached : IsReached test_redis
is_reached = record { text_at = held; get = held_get; set = held_set; sadd = held_sadd }

abbrev color : Cookie
color = record {
  name = codes "color";
  description = codes "a color";
  dbid = negsuc 0;
  data_at = λ _. none;
  access = pos 0;
}

insert_cookie_stable_example :
    (db1 db2 : List (Text × Text)) × (insert_cookie_query test_redis color []
      ≡ returns (hash_id test_redis (codes "color"), db1))
    × (held db1 (id_key (codes "color")) ≡ some (to_string (hash_id test_redis (codes "color"))))
    × (held db1 (desc_key (codes "color")) ≡ some (codes "a color"))
    × (held db1 (access_key (codes "color")) ≡ some (to_string (pos 0)))
    × (insert_cookie_query test_redis color db1 ≡ returns (hash_id test_redis (codes "color"), db2))
    × ((key : Text) → held db2 key ≡ held db1 key)
unfolding held
insert_cookie_stable_example = insert_cookie_stable test_redis is_reached color color [] refl refl

select_id_never_example :
    bind_params_and_run test_redis (λ _. none) (λ _. none) (serial_op select_id 0) []
    ≢ returns ((true, serial_op select_id 0), [])
select_id_never_example =
    select_id_never test_redis (λ _. none) (λ _. none) (serial_op select_id 0)
      (serial_op select_id 0) [] [] refl

abbrev asked : World
asked = record new_world {
  cookies = λ p. if p == 1 then some color else none;
  next = 2;
  query_queue = ask_op 1 ∷ [];
}

run_frame-thread_turn_example :
    (w1 : World) × (db1 : List (Text × Text)) × (thread_turn test_redis asked []
      ≡ returns (w1, db1))
    × (held db1 (id_key (codes "color")) ≡ some (to_string (hash_id test_redis (codes "color"))))
    × (run_frame test_server w1
        ≡ some (
          tt,
          record asked {
            query_queue = [];
            result_queue = [];
            cookies =
                update asked.cookies 1
                  (some (record color { dbid = hash_id test_redis (codes "color") }));
          },
        ))
unfolding held new_world hash_id
run_frame-thread_turn_example =
    run_frame-thread_turn test_redis is_reached test_server asked [] 1 color [] refl refl refl refl
      refl
