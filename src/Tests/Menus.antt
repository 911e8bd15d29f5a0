-- ===== src/Tests/Menus.antt =====
-- The settings menu of two plugins.
use clientprefs_redis.Base.{
  true, ◌≡◌, refl, List, [], ◌∷◌, ◌++◌, Option, none, some, pos, All, eq_text, false,
}
use clientprefs_redis.Text.{codes}
use clientprefs_redis.Extension.Lifecycle.{SourceMod, Life, get_handle, free_handle, log_error}
use clientprefs_redis.Extension.Translate.{
  FormatString, no_phrase, translate, max_translate_params, on_menu_end,
}
use clientprefs_redis.Menus.{
  MenuWorld, yes_no, add_settings_menu_item, add_settings_prefab_menu_item, on_plugin_destroyed,
  split_item, split_here,
}
use clientprefs_redis.Menus.Entries.{Entry, Holds, others, forwards_of}
use clientprefs_redis.Menus.Reach.{
  MenuReach, empty, add_item, add_prefab, new_menu, CanSelect, on_plugin_destroyed-others,
}

after : Option (Unit {0} × MenuWorld) → MenuWorld
after none = new_menu
after (some (_, s)) = s

one_item : MenuWorld
one_item = after (add_settings_menu_item 7 4 (pos 0) (codes "Color") new_menu)

two_items : MenuWorld
two_items =
    after (add_settings_prefab_menu_item 8 1 yes_no (codes "Sound") (some 5) (pos 0) one_item)

reach_two : MenuReach two_items
unfolding after one_item two_items new_menu split_item split_here eq_text add_settings_menu_item
    add_settings_prefab_menu_item
reach_two =
    add_prefab one_item two_items 8 1 yes_no (codes "Sound") (some 5) (pos 0)
      (add_item new_menu one_item 7 4 (pos 0) (codes "Color") empty refl refl) refl refl

on_plugin_destroyed-others_example :
    (es : List Entry) × (v : MenuWorld) × Holds es two_items
    × All (CanSelect two_items) es
    × (on_plugin_destroyed 7 two_items ≡ some (tt, v))
    × Holds (others 7 es) v
    × (v.released ≡ two_items.released ++ forwards_of 7 es)
on_plugin_destroyed-others_example = on_plugin_destroyed-others two_items 7 reach_two

abbrev phraseless : FormatString
phraseless maxlength format params = record { ok = false; buffer = []; fail_phrase = some format }

-- A phrase that is missing is logged.
translate_missing :
    translate phraseless (some 4) 256 (codes "%T:") []
    ≡ some (record { ok = false; buffer = some []; logged = some (no_phrase (codes "%T:")) })
unfolding translate
translate_missing = refl

-- The collection of phrases is not there.
translate_null : translate phraseless none 256 (codes "%T:") [] ≡ none
unfolding translate max_translate_params
translate_null = refl

abbrev keeping : SourceMod
keeping = record {
  ident_type = 11;
  identity = 12;
  forward = none;
  cookie_type = 1;
  cookie_iterator = 2;
  menu = none;
  menu_handle = λ m. none;
  frees = λ h. false;
  phrases = none;
}

abbrev silent : Life
silent = record {
  cookie_data_loaded_forward = none;
  cookie_type = 1;
  cookie_iterator = 2;
  client_menu = none;
  phrases = none;
  has_queue = true;
  calls = [];
}

-- A handle that is not freed is logged.
on_menu_end_error :
    on_menu_end keeping 6 silent
    ≡ some
        (tt, record silent { calls = get_handle (some 6) ∷ free_handle 6 false ∷ log_error ∷ [] })
unfolding on_menu_end
on_menu_end_error = refl
