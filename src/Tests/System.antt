-- ===== src/Tests/System.antt =====
-- The extension as a whole, from its start.
use clientprefs_redis.Base.{
  false, ℕ, ◌≡◌, ◌≢◌, ◌⊎◌, refl, List, [], ◌∷◌, Option, none, some, true, ◌==◌, if◌then◌else◌,
  arith, pos, eq_text,
}
use clientprefs_redis.Text.{Text, codes, clip}
use clientprefs_redis.Sdk.{Server}
use clientprefs_redis.State.{CookieData, World, QueryOp, new_world, new_cookie, new_cookie_data}
use clientprefs_redis.Clients.{authorized, late_round, late_rounds, attempt_reconnection, select_op}
use clientprefs_redis.CookieManager.{create_cookie, select_id_callback, insert_cookie_callback}
use clientprefs_redis.Extension.Frame.{ask_op, id_op, run_frame, frame_of, run_think_part, think}
use clientprefs_redis.Natives.{
  Handles, reg_client_pref_cookie, set_auth_id_cookie, set_auth, save_auth, is_auth_id_connected,
  auth_rounds, auth_round, has_auth, same_id,
}
use clientprefs_redis.Natives.Auth.{auth_op, auth_data}
use clientprefs_redis.Ownership.{Owned, count, is_some}
use clientprefs_redis.Query.Run.{returns}
use clientprefs_redis.Query.Execute.{
  insert_cookie_query, run_type, bind_params_and_run, run_or_connect, run_thread_part, hash_id,
}
use clientprefs_redis.Query.Keys.{id_key, desc_key, access_key, set_cmd, sadd_cmd}
use clientprefs_redis.Text.Decimal.{to_string}
use clientprefs_redis.Query.Execute.Runs.{saving}
use clientprefs_redis.Tests.Fixtures.{test_sdk, test_server, by_key}
use clientprefs_redis.Tests.Natives.{known, known_server}
use clientprefs_redis.Tests.Redis.{test_redis, held, answers}
use clientprefs_redis.System.{
  Call, frame, register, set_value, set_auth_value, IsHost, is_astray, perform, serve, take_query,
  finish_query, Reach, loaded, later,
}
use clientprefs_redis.System.Safety.{
  Reach-Owned, perform-returns, one_owner, save_returns, held_by_queries,
}
use clientprefs_redis.System.Drain.{rounds, rounds-Drained, Drained, sent_all}

abbrev no_handle : Handles
no_handle = record { read_handle = λ h. none; create_handle = λ p. 9 }

abbrev pub its_handle : Handles
its_handle = record { read_handle = λ h. if h == 9 then some 1 else none; create_handle = λ p. 9 }

abbrev after : Option (Unit {0} × World) → World
after none = new_world
after (some (t, w)) = w

abbrev pub Db : Type 0
Db = List (Text × Text)

abbrev registering : Call
registering = register (codes "color") (codes "a color") (pos 0)

abbrev saving_red : Call
saving_red = set_auth_value (codes "STEAM_1:0:8") 9 (codes "red")

known-IsHost :
    (handles : Handles) (w : World)
    → ((h p : ℕ) → handles.read_handle h ≡ some p → is_some (w.cookies p) ≡ true)
    → IsHost known_server handles w
known-IsHost handles w alive = record {
  fits = omega arith;
  serials = λ s. ground arith;
  alive = alive;
}

-- A cookie is registered while a player is there.
w1 : World
w1 = after (perform known_server no_handle registering new_world)

ran1 : perform known_server no_handle registering new_world ≡ some (tt, w1)
unfolding w1 perform reg_client_pref_cookie attempt_reconnection late_rounds late_round authorized
    create_cookie new_world by_key eq_text
ran1 = refl

reach1 : Reach test_redis [] w1 []
reach1 = later loaded (
    serve known_server no_handle registering (known-IsHost no_handle new_world (λ h p e. cc)) tt
      ran1 refl)

-- Its two queries are taken.
w2 : World
w2 = record w1 { query_queue = ask_op 1 ∷ []; running = select_op known ∷ [] }

w3 : World
w3 = record w2 { query_queue = []; running = select_op known ∷ ask_op 1 ∷ [] }

reach3 : Reach test_redis [] w3 []
unfolding w1 w2 w3 perform reg_client_pref_cookie attempt_reconnection late_rounds late_round
    authorized create_cookie new_world by_key eq_text
reach3 =
    later (later reach1 (take_query (select_op known) (ask_op 1 ∷ []) refl refl refl))
      (take_query (ask_op 1) [] refl refl refl)

has_color : (h p : ℕ) → its_handle.read_handle h ≡ some p → is_some (w3.cookies p) ≡ true
unfolding w1 w2 w3 perform reg_client_pref_cookie attempt_reconnection late_rounds late_round
    authorized create_cookie new_world by_key eq_text
has_color h p e = ground arith

-- A value is saved for a player who is not there.
pub w4 : World
w4 = after (perform known_server its_handle saving_red w3)

ran4 : perform known_server its_handle saving_red w3 ≡ some (tt, w4)
unfolding w1 w2 w3 w4 perform reg_client_pref_cookie attempt_reconnection late_rounds late_round
    authorized create_cookie new_world by_key eq_text set_auth_id_cookie set_auth save_auth
    is_auth_id_connected auth_rounds auth_round has_auth same_id
ran4 = refl

pub reach4 : Reach test_redis [] w4 []
reach4 =
    later reach3
      (serve known_server its_handle saving_red (known-IsHost its_handle w3 has_color) tt ran4 refl)

-- The value's query is taken as well.
abbrev red_op : QueryOp
red_op =
    auth_op 1 (new_cookie (some (codes "color")) (some (codes "a color")) (pos 0))
      (codes "STEAM_1:0:8") 2

w5 : World
w5 = record w4 { query_queue = []; running = select_op known ∷ ask_op 1 ∷ red_op ∷ [] }

reach5 : Reach test_redis [] w5 []
unfolding w1 w2 w3 w4 w5 perform reg_client_pref_cookie attempt_reconnection late_rounds late_round
    authorized create_cookie new_world by_key eq_text set_auth_id_cookie set_auth save_auth
    is_auth_id_connected auth_rounds auth_round has_auth same_id new_cookie
reach5 = later reach4 (take_query red_op [] refl refl refl)

Reach-Owned_example : (own : ℕ → ℕ) × Owned own w5
Reach-Owned_example = Reach-Owned test_redis [] w5 [] reach5

pub has_color4 : (h p : ℕ) → its_handle.read_handle h ≡ some p → is_some (w4.cookies p) ≡ true
unfolding w1 w2 w3 w4 perform reg_client_pref_cookie attempt_reconnection late_rounds late_round
    authorized create_cookie new_world by_key eq_text set_auth_id_cookie set_auth save_auth
    is_auth_id_connected auth_rounds auth_round has_auth same_id
has_color4 h p e = ground arith

perform-returns_example :
    ((is_astray known_server its_handle (set_value (pos 1) 9 (codes "blue")) ≡ false)
      × (v : World) × (perform known_server its_handle (set_value (pos 1) 9 (codes "blue")) w4
          ≡ some (tt, v)))
    ⊎ ((is_astray known_server its_handle (set_value (pos 1) 9 (codes "blue")) ≡ true)
        × (perform known_server its_handle (set_value (pos 1) 9 (codes "blue")) w4 ≡ none))
perform-returns_example =
    perform-returns test_redis [] w4 [] known_server its_handle (set_value (pos 1) 9 (codes "blue"))
      reach4 (known-IsHost its_handle w4 has_color4) tt

one_owner_example :
    ((c : ℕ) × (count 2 (w5.client_data c) ≡ 1)
      × (held_by_queries w5 2 ≡ 0)
      × ((e : ℕ) → e ≢ c → count 2 (w5.client_data e) ≡ 0))
    ⊎ ((held_by_queries w5 2 ≡ 1) × ((e : ℕ) → count 2 (w5.client_data e) ≡ 0))
unfolding w1 w2 w3 w4 w5 perform reg_client_pref_cookie attempt_reconnection late_rounds late_round
    authorized create_cookie new_world by_key eq_text set_auth_id_cookie set_auth save_auth
    is_auth_id_connected auth_rounds auth_round has_auth same_id new_cookie new_cookie_data
one_owner_example =
    one_owner test_redis [] w5 [] 2 (auth_data known_server (codes "red")) reach5 refl

save_returns_example :
    (d : ℕ) × (x : CookieData) × (red_op.params.datum ≡ some d)
    × (w5.datums d ≡ some x)
    × (run_thread_part test_redis w5.cookies w5.datums red_op []
        ≡ returns (red_op, (test_redis.command [] (saving test_redis red_op x)).1))
unfolding w1 w2 w3 w4 w5 perform reg_client_pref_cookie attempt_reconnection late_rounds late_round
    authorized create_cookie new_world by_key eq_text set_auth_id_cookie set_auth save_auth
    is_auth_id_connected auth_rounds auth_round has_auth same_id new_cookie
save_returns_example =
    save_returns test_redis [] w5 [] (select_op known ∷ ask_op 1 ∷ []) [] red_op reach5 refl refl

-- Nobody is there; the cookie gets its id, and two values are saved.
abbrev pub nobody : Server
nobody = record test_server { player = λ i. none }

pub nobody-IsHost :
    (handles : Handles) (w : World)
    → ((h p : ℕ) → handles.read_handle h ≡ some p → is_some (w.cookies p) ≡ true)
    → IsHost nobody handles w
nobody-IsHost handles w alive = record {
  fits = omega arith;
  serials = λ s. ground arith;
  alive = alive;
}

u1 : World
u1 = after (perform nobody no_handle registering new_world)

u2 : World
u2 = record u1 { query_queue = []; running = ask_op 1 ∷ [] }

asked_id : QueryOp
asked_id = id_op 1 (hash_id test_redis (codes "color"))

u3 : World
u3 = record u2 { running = []; result_queue = asked_id ∷ [] }

u4 : World
u4 = after (perform nobody no_handle frame u3)

pub u5 : World
u5 = after (perform nobody its_handle saving_red u4)

abbrev saving_blue : Call
saving_blue = set_auth_value (codes "STEAM_1:0:9") 9 (codes "blue")

pub u6 : World
u6 = after (perform nobody its_handle saving_blue u5)

pub db3 : Db
db3 =
    (answers
      (answers
        (answers (answers [] (sadd_cmd (codes "color"))).1
          (set_cmd (access_key (codes "color")) (to_string (pos 0)))).1
        (set_cmd (desc_key (codes "color")) (codes "a color"))).1
      (set_cmd (id_key (codes "color")) (to_string (hash_id test_redis (codes "color"))))).1

reach_u1 : Reach test_redis [] u1 []
unfolding u1 perform reg_client_pref_cookie attempt_reconnection late_rounds late_round authorized
    create_cookie new_world by_key eq_text
reach_u1 = later loaded (
    serve nobody no_handle registering (nobody-IsHost no_handle new_world (λ h p e. cc)) tt refl
      refl)

reach_u3 : Reach test_redis [] u3 db3
unfolding u1 u2 u3 asked_id db3 perform reg_client_pref_cookie attempt_reconnection late_rounds
    late_round authorized create_cookie new_world by_key eq_text set_auth_id_cookie set_auth
    save_auth is_auth_id_connected auth_rounds auth_round has_auth same_id insert_cookie_query
    run_type bind_params_and_run run_or_connect run_thread_part hash_id held answers clip
reach_u3 =
    later (later reach_u1 (take_query (ask_op 1) [] refl refl refl))
      (finish_query [] [] (ask_op 1) asked_id refl refl refl)

alive4 : (h p : ℕ) → its_handle.read_handle h ≡ some p → is_some (u4.cookies p) ≡ true
unfolding u1 u2 u3 u4 asked_id perform reg_client_pref_cookie attempt_reconnection late_rounds
    late_round authorized create_cookie new_world by_key eq_text set_auth_id_cookie set_auth
    save_auth is_auth_id_connected auth_rounds auth_round has_auth same_id insert_cookie_query
    run_type bind_params_and_run run_or_connect run_thread_part hash_id held answers clip run_frame
    frame_of run_think_part think insert_cookie_callback select_id_callback
alive4 h p e = ground arith

pub alive5 : (h p : ℕ) → its_handle.read_handle h ≡ some p → is_some (u5.cookies p) ≡ true
unfolding u1 u2 u3 u4 u5 asked_id perform reg_client_pref_cookie attempt_reconnection late_rounds
    late_round authorized create_cookie new_world by_key eq_text set_auth_id_cookie set_auth
    save_auth is_auth_id_connected auth_rounds auth_round has_auth same_id insert_cookie_query
    run_type bind_params_and_run run_or_connect run_thread_part hash_id held answers clip run_frame
    frame_of run_think_part think insert_cookie_callback select_id_callback
alive5 h p e = ground arith

pub away6 : (i : ℕ) → u6.connected i ≡ false
unfolding u1 u2 u3 u4 u5 u6 asked_id perform reg_client_pref_cookie attempt_reconnection late_rounds
    late_round authorized create_cookie new_world by_key eq_text set_auth_id_cookie set_auth
    save_auth is_auth_id_connected auth_rounds auth_round has_auth same_id insert_cookie_query
    run_type bind_params_and_run run_or_connect run_thread_part hash_id held answers clip run_frame
    frame_of run_think_part think insert_cookie_callback select_id_callback
away6 i = refl

pub reach_u6 : Reach test_redis [] u6 db3
unfolding u1 u2 u3 u4 u5 u6 asked_id perform reg_client_pref_cookie attempt_reconnection late_rounds
    late_round authorized create_cookie new_world by_key eq_text set_auth_id_cookie set_auth
    save_auth is_auth_id_connected auth_rounds auth_round has_auth same_id insert_cookie_query
    run_type bind_params_and_run run_or_connect run_thread_part hash_id held answers clip run_frame
    frame_of run_think_part think insert_cookie_callback select_id_callback
reach_u6 =
    later
      (later
        (later reach_u3
          (serve nobody no_handle frame (nobody-IsHost no_handle u3 (λ h p e. cc)) tt refl refl))
        (serve nobody its_handle saving_red (nobody-IsHost its_handle u4 alive4) tt refl refl))
      (serve nobody its_handle saving_blue (nobody-IsHost its_handle u5 alive5) tt refl refl)

rounds-Drained_example :
    (v : World) × (rounds test_redis nobody 2 u6 db3
      ≡ some (v, sent_all test_redis u6.datums u6.query_queue db3))
    × Drained ((Reach-Owned test_redis [] u6 db3 reach_u6).0) u6 v
unfolding u1 u2 u3 u4 u5 u6 asked_id perform reg_client_pref_cookie attempt_reconnection late_rounds
    late_round authorized create_cookie new_world by_key eq_text set_auth_id_cookie set_auth
    save_auth is_auth_id_connected auth_rounds auth_round has_auth same_id insert_cookie_query
    run_type bind_params_and_run run_or_connect run_thread_part hash_id held answers clip run_frame
    frame_of run_think_part think insert_cookie_callback select_id_callback
rounds-Drained_example =
    rounds-Drained test_redis nobody u6.query_queue (Reach-Owned test_redis [] u6 db3 reach_u6).0 u6
      db3 (Reach-Owned test_redis [] u6 db3 reach_u6).1 refl refl refl (refl, (refl, tt))
