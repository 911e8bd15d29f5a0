-- ===== src/Tests/Values.antt =====
-- Values and cookies.
use clientprefs_redis.Base.{
  ◌≡◌, refl, [], ◌∷◌, none, some, true, false, ◌==◌, if◌then◌else◌, arith, ℤ, pos, length,
}
use clientprefs_redis.Text.{Text, codes, clip}
use clientprefs_redis.State.{
  Cookie, World, new_world, max_value_length, max_desc_length, insert_cookie, cookie_op,
}
use clientprefs_redis.CookieManager.{set_cookie_value, get_cookie_value, create_cookie}
use clientprefs_redis.CookieManager.Values.{
  Reads, get_cookie_value-set_cookie_value, get_cookie_value_missing,
}
use clientprefs_redis.CookieManager.Create.{create_cookie_twice, create_cookie_long}
use clientprefs_redis.Tests.Fixtures.{test_sdk, test_server, by_key}

abbrev color : Cookie
color = record {
  name = codes "color";
  description = codes "a color";
  dbid = pos 5;
  data_at = λ _. none;
  access = pos 0;
}

abbrev one_cookie : World
one_cookie = record new_world { cookies = λ p. if p == 1 then some color else none; next = 2 }

get_cookie_value-set_cookie_value_example :
    (w : World) × (set_cookie_value test_server 1 4 (codes "red") one_cookie ≡ some (true, w))
    × Reads w 1 4 (clip max_value_length (some (codes "red"))) true 7
unfolding new_world
get_cookie_value-set_cookie_value_example =
    get_cookie_value-set_cookie_value test_server one_cookie 1 4 (codes "red")
      (record { cookie = color; alive = refl; in_array = refl; held = λ d h. cc })

get_cookie_value_missing_example :
    (w : World) × (get_cookie_value 1 4 one_cookie ≡ some (2, w)) × Reads w 1 4 [] false 0
unfolding new_world
get_cookie_value_missing_example = get_cookie_value_missing one_cookie 1 4 color refl refl refl

-- 31 bytes, one more than a name may have.
abbrev long_name : Text
long_name = codes "a-cookie-name-of-thirty-1-bytes"

create_cookie_long_example :
    (w1 w2 : World) × (create_cookie long_name [] (pos 0) new_world ≡ some (1, w1))
    × (create_cookie long_name [] (pos 0) w1 ≡ some (2, w2))
    × (w2.cookie_list ≡ 1 ∷ 2 ∷ [])
    × (length w2.query_queue ≡ 2)
unfolding new_world by_key
create_cookie_long_example = create_cookie_long new_world long_name [] (pos 0) (omega arith) refl

create_cookie_twice_example :
    (w1 w2 : World) × (create_cookie (codes "color") (codes "old") (pos 0) new_world ≡ some (1, w1))
    × (create_cookie (codes "color") (codes "new") (pos 2) w1 ≡ some (1, w2))
    × (w2.cookies 1
        ≡ some (record {
          name = codes "color";
          description = clip max_desc_length (some (codes "new"));
          dbid = ℤ.negsuc 0;
          data_at = λ _. none;
          access = pos 2;
        }))
    × (w2.query_queue
        ≡ record (cookie_op insert_cookie 1) {
          params = record { cookie = some 1; steam_id = []; cookie_id = pos 0; datum = none };
        }
          ∷ [])
    × (w2.cookie_list ≡ 1 ∷ [])
unfolding new_world by_key
create_cookie_twice_example =
    create_cookie_twice new_world (codes "color") (codes "old") (codes "new") (pos 0) (pos 2)
      (omega arith) refl
