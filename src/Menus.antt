-- ===== src/Menus.antt =====
-- The settings menu: its items and handlers (menus.h, menus.cpp), the natives that add items
-- (natives.cpp) and their removal with the plugin (OnPluginDestroyed of cookie.cpp). The info of an
-- item is the address that is printed in it. The natives' calls of AttemptReconnection, which touch
-- none of this state, are those of `Clients`.
pub mod Entries
pub mod Items
pub mod Removal
pub mod Steps
pub mod Reach
pub mod Auto
use clientprefs_redis.Base.{
  ℕ, zero, suc, List, [], ◌∷◌, ◌++◌, Option, none, some, Bool, true, false, ℤ, pos, eq_ℤ,
  if◌then◌else◌, eq_text, take,
}
use clientprefs_redis.Base.Fault.{M, ◌>>=◌, ◌>>◌, pure, gets, modify, deref, update}
use clientprefs_redis.Text.{Text, codes}

pub data CookieMenu : Type 0 where
  yes_no yes_no_int on_off on_off_int : CookieMenu
  other_menu : ℤ → CookieMenu

-- The cast of a cell, which is not checked.
unfoldable pub cookie_menu_of : ℤ → CookieMenu
cookie_menu_of n =
    if eq_ℤ n (pos 0)
    then yes_no
    else if eq_ℤ n (pos 1)
    then yes_no_int
    else if eq_ℤ n (pos 2)
    then on_off
    else if eq_ℤ n (pos 3)
    then on_off_int
    else other_menu n

-- `forward` is the function of the plugin, `none` for NULL. A field is `none` until it is written.
pub record ItemHandler : Type 0 where
  pub forward : Option ℕ
  pub auto_menu_type : Option CookieMenu
  pub is_auto_menu : Bool

pub record AutoMenuData : Type 0 where
  pub handler : ℕ
  pub cookie : Option ℕ
  pub datavalue : ℤ
  pub type : Option CookieMenu

pub record MenuItem : Type 0 where
  pub info : ℕ
  pub display : Text

-- The heap of handlers and menu data, the items of `clientMenu`, the "SettingsMenuItems" of each plugin
-- ([] where there is no list), and the forwards that were released.
pub record MenuWorld : Type 0 where
  pub handlers : ℕ → Option ItemHandler
  pub autos : ℕ → Option AutoMenuData
  pub next : ℕ
  pub client_menu : List MenuItem
  pub plugin_items : ℕ → List Text
  pub released : List ℕ

abbrev pub new_handler : ItemHandler → M MenuWorld ℕ
new_handler h s =
    some (s.next, record s { handlers = update s.handlers s.next (some h); next = suc s.next })

abbrev pub new_auto : AutoMenuData → M MenuWorld ℕ
new_auto a s = some (s.next, record s { autos = update s.autos s.next (some a); next = suc s.next })

-- AppendItem, and the copy of the text in the list of the plugin that calls.
abbrev pub append_item : ℕ → ℕ → Text → M MenuWorld Unit
append_item plugin info display = modify (λ s. record s {
  client_menu = s.client_menu ++ record { info = info; display = display } ∷ [];
  plugin_items = update s.plugin_items plugin (s.plugin_items plugin ++ display ∷ []);
})

unfoldable pub add_settings_menu_item : ℕ → ℕ → ℤ → Text → M MenuWorld Unit
add_settings_menu_item plugin callback datavalue display = do
  h ← new_handler (record { forward = some callback; auto_menu_type = none; is_auto_menu = false })
  a ← new_auto (record { handler = h; cookie = none; datavalue = datavalue; type = none })
  append_item plugin a display

-- What the native does once it has the cookie; `callback` is `none` where the plugin passed -1.
unfoldable pub add_settings_prefab_menu_item :
    ℕ → ℕ → CookieMenu → Text → Option ℕ → ℤ → M MenuWorld Unit
add_settings_prefab_menu_item plugin p type display callback datavalue = do
  h ← new_handler (record { forward = callback; auto_menu_type = some type; is_auto_menu = true })
  a ← new_auto (record { handler = h; cookie = some p; datavalue = datavalue; type = some type })
  append_item plugin a display

pub release_forward : Option ℕ → M MenuWorld Unit
release_forward none = pure tt
release_forward (some f) = modify (λ s. record s { released = s.released ++ f ∷ [] })

-- The item's forward, its handler and its data go.
pub delete_item : ℕ → M MenuWorld Unit
unfolding release_forward
delete_item info = do
  s ← gets (λ s. s)
  auto ← (λ w. deref (s.autos info) w)
  h ← (λ w. deref (s.handlers auto.handler) w)
  release_forward h.forward
  modify (λ s. record s {
    handlers = update s.handlers auto.handler none;
    autos = update s.autos info none;
  })

-- The item itself where it shows the text, and else what was found behind it.
unfoldable pub split_here :
    Bool
    → MenuItem
    → List MenuItem
    → Option (MenuItem × List MenuItem)
    → Option (MenuItem × List MenuItem)
split_here true item items rest = some (item, items)
split_here false item items none = none
split_here false item items (some (found, others)) = some (found, item ∷ others)

-- The first item that shows this text, and the items without it.
unfoldable pub split_item : Text → List MenuItem → Option (MenuItem × List MenuItem)
unfolding split_here
split_item name [] = none
split_item name (item ∷ items) =
    split_here (eq_text item.display name) item items (split_item name items)

pub remove_found : Option (MenuItem × List MenuItem) → M MenuWorld Unit
remove_found none = pure tt
remove_found (some (item, others)) = do
  delete_item item.info
  modify (λ s. record s { client_menu = others })

pub remove_name : Text → M MenuWorld Unit
unfolding remove_found
remove_name name = do items ← gets (λ s. s.client_menu); remove_found (split_item name items)

pub remove_names : List Text → M MenuWorld Unit
remove_names [] = pure tt
remove_names (name ∷ names) = do remove_name name; remove_names names

pub on_plugin_destroyed : ℕ → M MenuWorld Unit
unfolding remove_names
on_plugin_destroyed plugin = do
  names ← gets (λ s. s.plugin_items plugin)
  remove_names names
  modify (λ s. record s { plugin_items = update s.plugin_items plugin [] })

-- The options of the submenu, by the names of their phrases.
abbrev pub options : Option CookieMenu → List Text
options none = []
options (some yes_no) = codes "Yes" ∷ codes "No" ∷ []
options (some yes_no_int) = codes "Yes" ∷ codes "No" ∷ []
options (some on_off) = codes "On" ∷ codes "Off" ∷ []
options (some on_off_int) = codes "On" ∷ codes "Off" ∷ []
options (some (other_menu n)) = []

-- What ClientMenuHandler::OnMenuSelect does: the call of the forward with its action, and the
-- submenu that it shows, whose items carry the same info.
pub record Selected : Type 0 where
  pub called : Option (ℕ × ℕ × ℤ)
  pub submenu : Option (List MenuItem)

cookie_menu_action_select_option : ℕ
cookie_menu_action_select_option = 1

call_of : Option ℕ → ℤ → Option (ℕ × ℕ × ℤ)
unfolding cookie_menu_action_select_option
call_of none datavalue = none
call_of (some f) datavalue = some (f, cookie_menu_action_select_option, datavalue)

items_of : ℕ → List Text → List MenuItem
items_of info [] = []
items_of info (t ∷ ts) = record { info = info; display = t } ∷ items_of info ts

pub on_menu_select : ℕ → M MenuWorld Selected
unfolding call_of items_of
on_menu_select info = do
  s ← gets (λ s. s)
  auto ← (λ w. deref (s.autos info) w)
  h ← (λ w. deref (s.handlers auto.handler) w)
  pure (record {
    called = call_of h.forward auto.datavalue;
    submenu = if h.is_auto_menu then some (items_of info (options auto.type)) else none;
  })

-- ClientMenuHandler::OnMenuDisplayItem: the text that is drawn, or `none` where the menu draws the item
-- itself. `forward` is what the plugin makes of the buffer, and 100 is the size of the buffer.
pub on_menu_display_item : (ℕ → Text → Text) → ℕ → Text → M MenuWorld (Option Text)
on_menu_display_item forward info display = do
  s ← gets (λ s. s)
  auto ← (λ w. deref (s.autos info) w)
  h ← (λ w. deref (s.handlers auto.handler) w)
  pure (elim h.forward [ none ↦ none | some f ↦ some (forward f (take 99 display)) ])
