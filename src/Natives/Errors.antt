-- ===== src/Natives/Errors.antt =====
-- ThrowNativeError in natives.cpp: where a native gets a client or a handle that does not exist.
use clientprefs_redis.Base.{
  ℕ, ◌≤◌, ◌≡◌, refl, Option, none, some, Bool, true, ◌||◌, ℤ, pos, negsuc, lt_ℤ, arith,
}
use clientprefs_redis.Base.Fault.{◌>>=◌, ◌>>◌}
use clientprefs_redis.Text.{Text}
use clientprefs_redis.Sdk.{Sdk, Server}
use clientprefs_redis.State.{World, Main}
use clientprefs_redis.Clients.{attempt_reconnection}
use clientprefs_redis.Menus.{MenuWorld}
use clientprefs_redis.Natives.Prefab.{on_world, prefab_with, add_settings_prefab_menu_item_native}
use clientprefs_redis.Clients.Missed.{Caught}
use clientprefs_redis.Clients.Late.{attempt_reconnection-Caught}
use clientprefs_redis.Natives.{
  Handles, valid_client, or_error, set_client_pref_cookie, get_client_pref_cookie,
  are_client_cookies_cached_native, get_cookie_access, get_client_cookie_time, set_auth_id_cookie,
}

-- The clients are counted from 1 to the greatest.
abbrev pub no_client : Server → ℤ → Bool
no_client server c = lt_ℤ c (pos 1) || lt_ℤ (pos server.max_clients) c

-- The native throws an error, and has done nothing but catch the missed clients.
abbrev pub Refuses : {A : Type 0} → Server → Main (Option A) → World → Type 0
Refuses server m w = (v : World) × (m w ≡ some (none, v)) × Caught server server.max_clients w v

valid_client-none :
    (server : Server) (c : ℤ) → no_client server c ≡ true → valid_client server c ≡ none
unfolding valid_client
valid_client-none server (pos n) h = ground arith
valid_client-none server (negsuc n) h = refl

module _ ⦃sdk : Sdk⦄ (handles : Handles) (server : Server)
    (fits : server.max_clients ≤ sdk.max_players) (w : World) where
  Refuses-first :
      {A B : Type 0} (o : Option A) (act : A → Main (Option B))
      → o ≡ none
      → Refuses server (attempt_reconnection server >> or_error o act) w
  Refuses-first o act e =
      let (v, ran, c) = attempt_reconnection-Caught server fits w in (v, rw (◌>>=◌, ran, e) refl, c)

  -- The handle is read after the client was checked.
  Refuses-later :
      {A B C : Type 0} (o : Option A) (o' : Option B) (act : A → B → Main (Option C))
      → o' ≡ none
      → Refuses server (attempt_reconnection server >> or_error o (λ a. or_error o' (act a))) w
  Refuses-later {A = A} none o' act e = Refuses-first {A = A} none (λ a. or_error o' (act a)) refl
  Refuses-later (some a) o' act e = Refuses-first o' (act a) e

  -- SetClientPrefCookie, GetClientPrefCookie and AreClientCookiesCached throw an error for a client that is less
  -- than 1 or greater than the number of clients, whatever the handle, and change nothing, but that
  -- the missed clients are caught.
  pub natives_no_client :
      (c : ℤ) (hndl : ℕ) (value : Text)
      → no_client server c ≡ true
      → Refuses server (set_client_pref_cookie handles server c hndl value) w
        × Refuses server (get_client_pref_cookie handles server c hndl) w
        × Refuses server (are_client_cookies_cached_native handles server c) w
  unfolding set_client_pref_cookie get_client_pref_cookie are_client_cookies_cached_native
  natives_no_client c hndl value h =
      let e = valid_client-none server c h in
      (
        Refuses-first (valid_client server c) _ e,
        Refuses-first (valid_client server c) _ e,
        Refuses-first (valid_client server c) _ e,
      )

  prefab_refused :
      (menu : MenuWorld) (plugin hndl : ℕ) (type : ℤ) (display : Text) (callback : Option ℕ)
      (datavalue : ℤ)
      → handles.read_handle hndl ≡ none
      → (v : World) × (add_settings_prefab_menu_item_native handles server plugin hndl type display
            callback datavalue
            (w, menu)
          ≡ some (none, (v, menu)))
        × Caught server server.max_clients w v
  unfolding add_settings_prefab_menu_item_native on_world prefab_with
  prefab_refused menu plugin hndl type display callback datavalue e =
      let (v, ran, c) = attempt_reconnection-Caught server fits w in (v, rw (◌>>=◌, ran, e) refl, c)

  -- Each of the six natives that take a cookie's handle (SetClientPrefCookie, GetClientPrefCookie,
  -- GetClientCookieTime, GetCookieAccess, SetAuthIdCookie and AddSettingsPrefabMenuItem) throws an error at a
  -- handle that cannot be read, whatever its other parameters, and changes nothing in the cookies
  -- and in the menu, but that the missed clients are caught.
  pub natives_no_handle :
      (c : ℤ) (hndl : ℕ) (steam_id value : Text) (menu : MenuWorld) (plugin : ℕ) (type : ℤ)
      (callback : Option ℕ) (datavalue : ℤ)
      → handles.read_handle hndl ≡ none
      → Refuses server (set_client_pref_cookie handles server c hndl value) w
        × Refuses server (get_client_pref_cookie handles server c hndl) w
        × Refuses server (get_client_cookie_time handles server c hndl) w
        × Refuses server (get_cookie_access handles server hndl) w
        × Refuses server (set_auth_id_cookie handles server steam_id hndl value) w
        × ((v : World) × (add_settings_prefab_menu_item_native handles server plugin hndl type value
                callback datavalue
                (w, menu)
              ≡ some (none, (v, menu)))
            × Caught server server.max_clients w v)
  unfolding set_client_pref_cookie get_client_pref_cookie get_client_cookie_time get_cookie_access
      set_auth_id_cookie
  natives_no_handle c hndl steam_id value menu plugin type callback datavalue e = (
    Refuses-later (valid_client server c) (handles.read_handle hndl) _ e,
    Refuses-later (valid_client server c) (handles.read_handle hndl) _ e,
    Refuses-first (handles.read_handle hndl) _ e,
    Refuses-first (handles.read_handle hndl) _ e,
    Refuses-first (handles.read_handle hndl) _ e,
    prefab_refused menu plugin hndl type value callback datavalue e,
  )
