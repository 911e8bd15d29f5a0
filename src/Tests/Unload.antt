-- ===== src/Tests/Unload.antt =====
-- Unloading.
use clientprefs_redis.Base.{false, ◌==◌, ℕ, ◌≤◌, ◌≡◌, refl, [], some, none, Bool, true, arith}
use clientprefs_redis.State.{Cookie, CookieData, World, new_world}
use clientprefs_redis.Extension.Unload.{unload, save_clients, delete_cookies}
use clientprefs_redis.Disconnect.{on_client_disconnecting, player_auth, save_all, clear_query_cache}
use clientprefs_redis.Clients.{attempt_reconnection, late_rounds, late_round, authorized}
use clientprefs_redis.Extension.Lifecycle.{
  SourceMod, Life, sdk_on_dependencies_dropped, query_interface_drop,
}
use clientprefs_redis.System.Safety.{HasOnePlace}
use clientprefs_redis.System.Unload.{unload-HasOnePlace}
use clientprefs_redis.Tests.Fixtures.{test_sdk}
use clientprefs_redis.Tests.Natives.{known_server}
use clientprefs_redis.Tests.Redis.{test_redis}
use clientprefs_redis.Tests.System.{w4, reach4}

-- One player is there, and a value is on its way for another.
unload-HasOnePlace_example :
    (u v : World) × (save_clients known_server known_server.max_clients w4 ≡ some (tt, u))
    × (unload known_server w4 ≡ some (tt, v))
    × ((i : ℕ)
        → 1 ≤ i
        → i ≤ known_server.max_clients
        → w4.connected i ≡ true
        → u.client_data i ≡ [])
    × (v.cookie_list ≡ [])
    × ((p : ℕ) → v.cookies p ≡ none)
    × ((p c d : ℕ) (k : Cookie)
        → u.cookies p ≡ some k
        → c ≤ test_sdk.max_players
        → k.data_at c ≡ some d
        → v.datums d ≡ none)
    × (v.client_data ≡ u.client_data)
    × ((d : ℕ) (x : CookieData) → v.datums d ≡ some x → (u.datums d ≡ some x) × HasOnePlace v d)
unload-HasOnePlace_example =
    unload-HasOnePlace test_redis [] w4 [] known_server (omega arith) reach4

abbrev answering : SourceMod
answering = record {
  ident_type = 11;
  identity = 12;
  forward = some 5;
  cookie_type = 1;
  cookie_iterator = 2;
  menu = some 9;
  menu_handle = λ m. some 77;
  frees = λ h. true;
  phrases = some 4;
}

abbrev untouched : Life
untouched = record {
  cookie_data_loaded_forward = none;
  cookie_type = 0;
  cookie_iterator = 0;
  client_menu = none;
  phrases = none;
  has_queue = true;
  calls = [];
}

keeps_interfaces : query_interface_drop (some 3) ≡ Bool.false
unfolding query_interface_drop
keeps_interfaces = refl

one_there : World
one_there = record new_world { connected = λ i. i == 1 }

-- A player is connected when the extension is unloaded: the deleted queue is used.
deleted_queue :
    sdk_on_dependencies_dropped answering known_server
      (one_there, record untouched { has_queue = false })
    ≡ none
unfolding one_there new_world sdk_on_dependencies_dropped unload save_clients delete_cookies
    on_client_disconnecting attempt_reconnection late_rounds late_round authorized player_auth
    save_all clear_query_cache
deleted_queue = refl
