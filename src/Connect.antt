-- ===== src/Connect.antt =====
-- ClientConnectCallback of cookie.cpp: the values that a query fetched become those of the client.
pub mod Registry
pub mod Round
pub mod Outcome
use clientprefs_redis.Base.{
  ℕ, [], ◌∷◌, ◌++◌, List, Option, none, some, true, false, ◌==◌, if◌then◌else◌,
}
use clientprefs_redis.Base.Fault.{◌>>=◌, ◌>>◌, pure, modify, update}
use clientprefs_redis.Text.{Text}
use clientprefs_redis.Sdk.{Sdk, Server}
use clientprefs_redis.State.{
  Cookie, CookieData, World, Main, new_cookie_data, load_data, store_data, alloc_data, append_data,
  check_client,
}
use clientprefs_redis.CookieManager.{find_cookie, create_cookie, set_slot}

module _ ⦃sdk : Sdk⦄ where
  -- The cookie of the name, made if it is not known yet.
  parent_of : Option ℕ → Cookie → Main ℕ
  parent_of (some p) cookie = pure p
  parent_of none cookie = create_cookie cookie.name cookie.description cookie.access

  -- One round of the loop over the fetched values.
  pub load_one : ℕ → Cookie → Text → Main Unit
  unfolding parent_of new_cookie_data
  load_one client cookie value = do
    let x = new_cookie_data (some value)
    d ← alloc_data (record x { changed = false; timestamp = 0 })
    found ← find_cookie cookie.name
    p ← parent_of found cookie
    y ← load_data d
    store_data d (record y { parent = some p })
    set_slot p client (some d)
    append_data client d

  unfoldable pub load_all : ℕ → List (Cookie × Text) → Main Unit
  load_all client [] = pure tt
  load_all client ((cookie, value) ∷ rest) = do load_one client cookie value; load_all client rest

  unfoldable pub loaded : ℕ → List (Cookie × Text) → Main Unit
  loaded client fetched = do
    check_client client
    modify (λ w. record w { stats_pending = update w.stats_pending client false })
    load_all client fetched
    modify (λ w. record w {
      stats_loaded = update w.stats_loaded client true;
      told = w.told ++ client ∷ [];
    })

  unfoldable pub client_connect_callback : Server → ℕ → List (Cookie × Text) → Main Unit
  unfolding loaded
  client_connect_callback server serial fetched =
      let client = server.client_from_serial serial in
      if client == 0 then pure tt else loaded client fetched
