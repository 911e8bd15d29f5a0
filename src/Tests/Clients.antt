-- ===== src/Tests/Clients.antt =====
-- Clients that come and go.
use clientprefs_redis.Base.{
  ◌≡◌, refl, List, [], ◌∷◌, ◌++◌, none, some, true, ◌==◌, if◌then◌else◌, arith, pos,
}
use clientprefs_redis.Text.{Text, codes}
use clientprefs_redis.State.{Cookie, CookieData, World, new_world}
use clientprefs_redis.Clients.{attempt_reconnection, on_client_authorized, select_op}
use clientprefs_redis.Clients.Missed.{Caught, marked}
use clientprefs_redis.Clients.Late.{attempt_reconnection-Caught, on_client_authorized-Caught}
use clientprefs_redis.Disconnect.{on_client_disconnecting}
use clientprefs_redis.Disconnect.Save.{Item}
use clientprefs_redis.Disconnect.Outcome.{Left, on_client_disconnecting-Left}
use clientprefs_redis.Connect.{client_connect_callback}
use clientprefs_redis.Connect.Outcome.{IsLoaded, client_connect_callback-IsLoaded}
use clientprefs_redis.Tests.Fixtures.{test_sdk, test_server, human}

abbrev color : Cookie
color = record {
  name = codes "color";
  description = codes "a color";
  dbid = pos 5;
  data_at = λ c. if c == 1 then some 2 else none;
  access = pos 0;
}

abbrev red : CookieData
red = record { value = codes "red"; changed = true; timestamp = 3; parent = some 1 }

-- Client 1 has changed its color.
abbrev at_play : World
at_play = record new_world {
  cookies = λ p. if p == 1 then some color else none;
  datums = λ d. if d == 2 then some red else none;
  next = 3;
  client_data = λ c. if c == 1 then 2 ∷ [] else [];
}

abbrev its : List Item
its = record { address = 2; object = red; parent = 1; cookie = color } ∷ []

on_client_disconnecting-Left_example :
    (v : World) × (on_client_disconnecting test_server 1 at_play ≡ some (tt, v))
    × Left test_server 1 its at_play v
unfolding new_world
on_client_disconnecting-Left_example =
    on_client_disconnecting-Left test_server (omega arith) at_play 1 its (omega arith) (omega arith)
      refl refl
      (
        record { alive = refl; of_parent = refl; now = color; parent_alive = refl; same_id = refl },
        tt,
      )
      (tt, tt)

attempt_reconnection-Caught_example :
    (v : World) × (attempt_reconnection test_server at_play ≡ some (tt, v))
    × Caught test_server 2 at_play v
attempt_reconnection-Caught_example = attempt_reconnection-Caught test_server (omega arith) at_play

on_client_authorized-Caught_example :
    (v : World) × (on_client_authorized test_server 1 at_play
      ≡ some (tt, record v { query_queue = v.query_queue ++ select_op human ∷ [] }))
    × Caught test_server 2 (marked at_play 1) v
on_client_authorized-Caught_example =
    on_client_authorized-Caught test_server (omega arith) at_play 1 human (omega arith) refl refl

abbrev fetched : List (Cookie × Text)
fetched = (color, codes "blue") ∷ []

client_connect_callback-IsLoaded_example :
    (v : World) × (client_connect_callback test_server 101 fetched new_world ≡ some (tt, v))
    × IsLoaded new_world v 1 fetched
unfolding new_world
client_connect_callback-IsLoaded_example =
    client_connect_callback-IsLoaded test_server new_world 101 fetched (omega arith) (omega arith)
      (omega arith, tt, tt)
      (record { entries = tt; fresh_cookies = λ p h. refl; fresh_datums = λ d h. refl })
