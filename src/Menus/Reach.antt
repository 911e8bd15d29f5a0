-- ===== src/Menus/Reach.antt =====
-- The settings menu over time: plugins add items and are unloaded (natives.cpp, OnPluginDestroyed of
-- cookie.cpp), and no plugin adds a text that the menu shows already.
use clientprefs_redis.Base.{
  ℕ, suc, true, false, ◌≡◌, refl, sym, ◌∙◌, List, [], ◌∷◌, ◌++◌, Option, none, some, if◌then◌else◌,
  ℤ, All,
}
use mathlib.Core.Path.{subst}
use clientprefs_redis.Base.Fault.{◌>>=◌, ◌>>◌}
use clientprefs_redis.Text.{Text}
use clientprefs_redis.Menus.{
  CookieMenu, MenuWorld, Selected, split_item, on_plugin_destroyed, add_settings_menu_item,
  add_settings_prefab_menu_item, on_menu_select, call_of, items_of, options,
}
use clientprefs_redis.Menus.Entries.{
  Entry, text_of, info_of, place_of, forwards_of, others, Holds, heap_of-found,
}
use clientprefs_redis.Menus.Steps.{on_plugin_destroyed-Holds, with_entry, Holds-added}

-- The menu from an empty one on.
unfoldable pub new_menu : MenuWorld
new_menu = record {
  handlers = λ q. none;
  autos = λ q. none;
  next = 1;
  client_menu = [];
  plugin_items = λ plugin. [];
  released = [];
}

pub data MenuReach : MenuWorld → Type 0 where
  empty : MenuReach new_menu
  add_item :
      (s v : MenuWorld) (plugin callback : ℕ) (datavalue : ℤ) (display : Text)
      → MenuReach s
      → split_item display s.client_menu ≡ none
      → add_settings_menu_item plugin callback datavalue display s ≡ some (tt, v)
      → MenuReach v
  add_prefab :
      (s v : MenuWorld) (plugin p : ℕ) (type : CookieMenu) (display : Text) (callback : Option ℕ)
      (datavalue : ℤ)
      → MenuReach s
      → split_item display s.client_menu ≡ none
      → add_settings_prefab_menu_item plugin p type display callback datavalue s ≡ some (tt, v)
      → MenuReach v
  unloaded :
      (s v : MenuWorld) (plugin : ℕ)
      → MenuReach s
      → on_plugin_destroyed plugin s ≡ some (tt, v)
      → MenuReach v

result_of :
    (v w : MenuWorld)
    → ◌≡◌ {A = Option (Unit {0} × MenuWorld)} (some (tt, v)) (some (tt, w))
    → v ≡ w
result_of v w h = cc

-- The world that an operation made is the one with the entry.
grown :
    (es : List Entry) (s : MenuWorld) (v : MenuWorld) (e : Entry)
    → Holds es s
    → info_of e ≡ suc s.next
    → place_of e ≡ s.next
    → split_item (text_of e) s.client_menu ≡ none
    → ◌≡◌ {A = Option (Unit {0} × MenuWorld)} (some (tt, with_entry s e)) (some (tt, v))
    → (fs : List Entry) × Holds fs v
grown es s v e o info place fresh ran = (
  es ++ e ∷ [],
  subst (Holds (es ++ e ∷ [])) (result_of (with_entry s e) v ran)
      (Holds-added es s e o info place fresh),
)

Reach-Holds : (s : MenuWorld) → MenuReach s → (es : List Entry) × Holds es s
unfolding new_menu add_settings_menu_item add_settings_prefab_menu_item
Reach-Holds s empty = (
  [],
  record {
    menu = refl;
    texts = λ p. refl;
    autos = λ q. refl;
    handlers = λ q. refl;
    one_text = tt;
    one_info = tt;
    one_place = tt;
    infos_below = tt;
    places_below = tt;
  },
)
Reach-Holds _ (add_item s v plugin callback datavalue display r fresh ran) =
    let (es, o) = Reach-Holds s r in
    let e : Entry = record {
      plugin = plugin;
      item = record { info = suc s.next; display = display };
      auto = record { handler = s.next; cookie = none; datavalue = datavalue; type = none };
      handler = record { forward = some callback; auto_menu_type = none; is_auto_menu = false };
    } in
    grown es s v e o refl refl fresh ran
Reach-Holds _ (add_prefab s v plugin p type display callback datavalue r fresh ran) =
    let (es, o) = Reach-Holds s r in
    let e : Entry = record {
      plugin = plugin;
      item = record { info = suc s.next; display = display };
      auto = record { handler = s.next; cookie = some p; datavalue = datavalue; type = some type };
      handler = record { forward = callback; auto_menu_type = some type; is_auto_menu = true };
    } in
    grown es s v e o refl refl fresh ran
Reach-Holds _ (unloaded s v plugin r ran) =
    let (es, o) = Reach-Holds s r in
    let (u, ran', o', _) = on_plugin_destroyed-Holds plugin es s o in
    (others plugin es, subst (Holds (others plugin es)) (result_of u v (sym ran' ∙ ran)) o')

-- A choice of the entry's item follows no null or dangling pointer and changes nothing.
abbrev pub CanSelect : MenuWorld → Entry → Type 0
CanSelect s e = (r : Selected) × (on_menu_select (info_of e) s ≡ some (r, s))

selectable_each :
    (s : MenuWorld) (es : List Entry)
    → All (λ e. s.autos (info_of e) ≡ some e.auto) es
    → All (λ e. s.handlers (place_of e) ≡ some e.handler) es
    → All (CanSelect s) es
unfolding on_menu_select
selectable_each s [] autos handlers = tt
selectable_each s (e ∷ es) (auto, autos) (handler, handlers) =
    let r : Selected = record {
      called = call_of e.handler.forward e.auto.datavalue;
      submenu =
          if e.handler.is_auto_menu
          then some (items_of (info_of e) (options e.auto.type))
          else none;
    } in
    ((r, rw (◌>>=◌, ◌>>◌, auto, handler) refl), selectable_each s es autos handlers)

-- Plugins add items, in any order, of texts that the menu does not show then, and are unloaded. At any time
-- the items of the menu, its data and handlers are those of a list of entries with their plugins, the texts of
-- each plugin's list are those of its entries, and each item can be chosen without following a null or dangling
-- pointer. OnPluginDestroyed then returns and leaves the menu with exactly the entries of the other plugins, in
-- their order, and releases the forwards of the plugin's own entries, each once; their data and handlers are
-- deleted, and the plugin's list is empty.
pub on_plugin_destroyed-others :
    (s : MenuWorld) (plugin : ℕ)
    → MenuReach s
    → (es : List Entry) × (v : MenuWorld) × Holds es s
      × All (CanSelect s) es
      × (on_plugin_destroyed plugin s ≡ some (tt, v))
      × Holds (others plugin es) v
      × (v.released ≡ s.released ++ forwards_of plugin es)
on_plugin_destroyed-others s plugin r =
    let (es, o) = Reach-Holds s r in
    let (v, ran, left, released) = on_plugin_destroyed-Holds plugin es s o in
    (
      es,
      v,
      o,
      selectable_each s es (heap_of-found info_of (λ e. e.auto) s.autos es o.autos o.one_info)
          (heap_of-found place_of (λ e. e.handler) s.handlers es o.handlers o.one_place),
      ran,
      left,
      released,
    )
