-- ===== src/Tests/Natives.antt =====
-- The natives and the menu.
use clientprefs_redis.Base.{
  ◌≡◌, refl, [], ◌∷◌, none, some, true, false, ◌==◌, if◌then◌else◌, arith, pos, eq_text, get_elem?,
}
use clientprefs_redis.Base.Fault.{◌>>=◌}
use clientprefs_redis.Text.{Text, codes, clip}
use clientprefs_redis.Sdk.{Server, GamePlayer}
use clientprefs_redis.State.{Cookie, World, new_world, max_value_length}
use clientprefs_redis.CookieManager.Values.{HasSlot, Reads}
use clientprefs_redis.Clients.Missed.{Caught}
use clientprefs_redis.Natives.{
  Handles, set_client_pref_cookie, get_client_pref_cookie, get_client_cookie_time,
  are_client_cookies_cached_native, get_cookie_access, set_auth_id_cookie, is_auth_id_connected,
}
use clientprefs_redis.Natives.Errors.{Refuses, natives_no_client, natives_no_handle}
use clientprefs_redis.Natives.Values.{get_client_pref_cookie-set_client_pref_cookie}
use clientprefs_redis.Natives.Auth.{
  meets_null, highest, with_saved, is_auth_id_connected-highest, set_auth_id_cookie_absent,
}
use clientprefs_redis.Natives.Iterator.{
  row_of, get_cookie_iterator, read_all_of, read_all-get_cookie_iterator,
}
use clientprefs_redis.Menus.{
  AutoMenuData, ItemHandler, MenuItem, MenuWorld, add_settings_prefab_menu_item, options,
  on_plugin_destroyed, split_item, split_here, yes_no,
}
use clientprefs_redis.Natives.Prefab.{add_settings_prefab_menu_item_native}
use clientprefs_redis.Menus.Auto.{meaning, auto_menu_select, auto_menu_select-Reads}
use clientprefs_redis.Menus.Items.{on_plugin_destroyed_same_text}
use clientprefs_redis.Tests.Fixtures.{test_sdk, test_server, human}

abbrev color : Cookie
color = record {
  name = codes "color";
  description = codes "a color";
  dbid = pos 5;
  data_at = λ _. none;
  access = pos 0;
}

abbrev one_cookie : World
one_cookie = record new_world {
  cookies = λ p. if p == 1 then some color else none;
  next = 2;
  cookie_list = 1 ∷ [];
}

abbrev handles : Handles
handles = record { read_handle = λ h. if h == 9 then some 1 else none; create_handle = λ p. 9 }

abbrev its_slot : HasSlot one_cookie 1 1
its_slot = record { cookie = color; alive = refl; in_array = refl; held = λ d h. cc }

get_client_pref_cookie-set_client_pref_cookie_example :
    (w1 w2 w3 : World) × (set_client_pref_cookie handles test_server
        (pos 1)
        9
        (codes "red")
        one_cookie
      ≡ some (some (pos 1), w1))
    × (get_client_pref_cookie handles test_server (pos 1) 9 w1
        ≡ some (some (clip max_value_length (some (codes "red"))), w2))
    × (get_client_cookie_time handles test_server (pos 1) 9 w2 ≡ some (some 7, w3))
unfolding new_world
get_client_pref_cookie-set_client_pref_cookie_example =
    get_client_pref_cookie-set_client_pref_cookie handles test_server (omega arith) one_cookie 1 9 1
      (codes "red") (omega arith) (omega arith) refl its_slot

read_all-get_cookie_iterator_example :
    (v : World) × ((do iter ← get_cookie_iterator test_server 9; read_all_of test_server 2 iter)
        one_cookie
      ≡ some (row_of color ∷ [], v))
    × Caught test_server 2 one_cookie v
unfolding new_world
read_all-get_cookie_iterator_example =
    read_all-get_cookie_iterator test_server one_cookie (row_of color ∷ []) 9 refl (omega arith)
      (color, [], refl, refl, refl)

-- A player whose id has all forms.
abbrev pub known : GamePlayer
known = record human { steam3 = some (codes "[U:1:14]"); auth_string = some (codes "STEAM_1:0:7") }

abbrev pub known_server : Server
known_server = record test_server { player = λ i. if i == 1 then some known else none }

is_auth_id_connected-highest_example :
    is_auth_id_connected known_server (codes "[U:1:14]") new_world ≡ (
      if meets_null known_server (codes "[U:1:14]") 2
      then none
      else some (highest known_server (codes "[U:1:14]") 2, new_world))
is_auth_id_connected-highest_example =
    is_auth_id_connected-highest known_server (codes "[U:1:14]") new_world

set_auth_id_cookie_absent_example :
    (v : World) × (set_auth_id_cookie handles known_server
        (codes "STEAM_1:0:8")
        9
        (codes "red")
        one_cookie
      ≡ some (some (pos 1), with_saved known_server v 1 color (codes "STEAM_1:0:8") (codes "red")))
    × Caught known_server 2 one_cookie v
unfolding new_world eq_text
set_auth_id_cookie_absent_example =
    set_auth_id_cookie_absent handles known_server (omega arith) one_cookie 9 1 color
      (codes "STEAM_1:0:8") (codes "red") refl refl refl refl

abbrev its_menu : AutoMenuData
its_menu = record { handler = 1; cookie = some 1; datavalue = pos 0; type = some yes_no }

auto_menu_select-Reads_example :
    (option : Text) × (w' : World) × (r : Reads w' 1 1 (meaning yes_no option) true 7) × (get_elem?
        (options (some yes_no))
        1
      ≡ some option)
    × (auto_menu_select test_server its_menu 1 1 one_cookie ≡ some (r.address, w'))
unfolding new_world
auto_menu_select-Reads_example =
    auto_menu_select-Reads test_server one_cookie its_menu 1 1 1 yes_no refl refl (omega arith)
      its_slot

abbrev no_menu : MenuWorld
no_menu = record {
  handlers = λ _. none;
  autos = λ _. none;
  next = 1;
  client_menu = [];
  plugin_items = λ plugin. [];
  released = [];
}

-- The menu of another plugin with the same text.
abbrev old_handler : ItemHandler
old_handler = record { forward = some 3; auto_menu_type = none; is_auto_menu = false }

abbrev old_item : MenuItem
old_item = record { info = 2; display = codes "Color" }

abbrev old_menu : MenuWorld
old_menu = record no_menu {
  handlers = λ q. if q == 1 then some old_handler else none;
  autos = λ q. if q == 2 then some its_menu else none;
  next = 3;
  client_menu = old_item ∷ [];
}

on_plugin_destroyed_same_text_example :
    (s1 s2 : MenuWorld) × (add_settings_prefab_menu_item 7 1 yes_no
        (codes "Color")
        (some 4)
        (pos 0)
        old_menu
      ≡ some (tt, s1))
    × (on_plugin_destroyed 7 s1 ≡ some (tt, s2))
    × (s2.client_menu ≡ record { info = 4; display = codes "Color" } ∷ [])
    × (s2.released ≡ 3 ∷ [])
    × (s2.autos 2 ≡ none)
    × (s2.autos 4 ≡ s1.autos 4)
unfolding split_item split_here eq_text
on_plugin_destroyed_same_text_example =
    on_plugin_destroyed_same_text old_menu 7 1 yes_no (codes "Color") (some 4) (pos 0) old_item []
      its_menu old_handler refl refl (omega arith) (omega arith) refl refl

-- There are two clients.
natives_no_client_example :
    Refuses test_server
      (set_client_pref_cookie handles test_server (pos 3) 9 (codes "red"))
      one_cookie
    × Refuses test_server (get_client_pref_cookie handles test_server (pos 3) 9) one_cookie
    × Refuses test_server (are_client_cookies_cached_native handles test_server (pos 3)) one_cookie
natives_no_client_example =
    natives_no_client handles test_server (omega arith) one_cookie (pos 3) 9 (codes "red") refl

natives_no_handle_example :
    Refuses test_server
      (set_client_pref_cookie handles test_server (pos 1) 8 (codes "red"))
      one_cookie
    × Refuses test_server (get_client_pref_cookie handles test_server (pos 1) 8) one_cookie
    × Refuses test_server (get_client_cookie_time handles test_server (pos 1) 8) one_cookie
    × Refuses test_server (get_cookie_access handles test_server 8) one_cookie
    × Refuses test_server
        (set_auth_id_cookie handles test_server (codes "STEAM_1:0:7") 8 (codes "red"))
        one_cookie
    × ((v : World) × (add_settings_prefab_menu_item_native handles test_server 1 8
            (pos 0)
            (codes "red")
            none
            (pos 0)
            (one_cookie, no_menu)
          ≡ some (none, (v, no_menu)))
        × Caught test_server 2 one_cookie v)
natives_no_handle_example =
    natives_no_handle handles test_server (omega arith) one_cookie (pos 1) 8 (codes "STEAM_1:0:7")
      (codes "red") no_menu 1 (pos 0) none (pos 0) refl
