-- ===== src/Natives/Prefab.antt =====
-- AddSettingsPrefabMenuItem of natives.cpp from its first line: it reads the cookie's handle before it
-- adds the item to the settings menu.
use clientprefs_redis.Base.{ℕ, Option, none, some, ℤ}
use clientprefs_redis.Base.Fault.{M, ◌>>◌, pure}
use clientprefs_redis.Text.{Text}
use clientprefs_redis.Sdk.{Sdk, Server}
use clientprefs_redis.State.{World, Main}
use clientprefs_redis.Clients.{attempt_reconnection}
use clientprefs_redis.Menus.{MenuWorld, cookie_menu_of, add_settings_prefab_menu_item}
use clientprefs_redis.Natives.{Handles}

-- The cookies' part of the state, and the menu's.
unfoldable pub on_world : {A : Type 0} → Main A → M (World × MenuWorld) A
on_world m (w, s) = elim (m w) [ none ↦ none | some (a, v) ↦ some (a, (v, s)) ]

unfoldable pub on_menu : {A : Type 0} → M MenuWorld A → M (World × MenuWorld) A
on_menu m (w, s) = elim (m s) [ none ↦ none | some (a, t) ↦ some (a, (w, t)) ]

-- `none` in the result is ThrowNativeError.
unfoldable pub prefab_with :
    ℕ → Option ℕ → ℤ → Text → Option ℕ → ℤ → M (World × MenuWorld) (Option Unit)
unfolding on_menu
prefab_with plugin none type display callback datavalue = pure none
prefab_with plugin (some p) type display callback datavalue = do
  on_menu (add_settings_prefab_menu_item plugin p (cookie_menu_of type) display callback datavalue)
  pure (some tt)

module _ ⦃sdk : Sdk⦄ (handles : Handles) (server : Server) where
  -- `type` is the plugin's cell.
  unfoldable pub add_settings_prefab_menu_item_native :
      ℕ → ℕ → ℤ → Text → Option ℕ → ℤ → M (World × MenuWorld) (Option Unit)
  unfolding on_world prefab_with
  add_settings_prefab_menu_item_native plugin hndl type display callback datavalue = do
    on_world (attempt_reconnection server)
    prefab_with plugin (handles.read_handle hndl) type display callback datavalue
