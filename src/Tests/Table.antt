-- ===== src/Tests/Table.antt =====
-- Values as a table.
use clientprefs_redis.Base.{◌≡◌, refl, List, [], ◌∷◌, some, true, arith}
use clientprefs_redis.Text.{codes}
use clientprefs_redis.Sdk.{Server}
use clientprefs_redis.State.{World}
use clientprefs_redis.Ownership.{is_some}
use clientprefs_redis.System.Table.{Request, set, get, time, table_of, all_on_table}
use clientprefs_redis.System.Requests.{serve_all, at_times, serve_all-all_on_table}
use clientprefs_redis.Tests.Fixtures.{test_sdk}
use clientprefs_redis.Tests.Natives.{known_server}
use clientprefs_redis.Tests.Redis.{test_redis}
use clientprefs_redis.Tests.System.{w4, reach4, has_color4}

-- A value is set for one client, and read for it and for another.
abbrev requests : List (Server × Request)
requests =
    (known_server, set 1 1 (codes "red"))
    ∷ (known_server, get 1 2)
    ∷ (known_server, get 1 1)
    ∷ (known_server, time 1 1)
    ∷ []

its_cookie : is_some (w4.cookies 1) ≡ true
its_cookie = has_color4 9 1 refl

serve_all-all_on_table_example :
    (v : World) × (serve_all requests w4
      ≡ some ((all_on_table (at_times requests) (table_of w4)).0, v))
    × (table_of v ≡ (all_on_table (at_times requests) (table_of w4)).1)
serve_all-all_on_table_example = serve_all-all_on_table test_redis [] w4 [] requests reach4 (
  (its_cookie, omega arith),
  ((its_cookie, omega arith), ((its_cookie, omega arith), ((its_cookie, omega arith), tt))),
)
