-- ===== src/Extension/Unload.antt =====
-- CookieManager::Unload of cookie.cpp, Cookie::~Cookie of cookie.h, and SDK_OnUnload of extension.cpp.
use clientprefs_redis.Base.{ℕ, zero, suc, List, [], ◌∷◌, ◌++◌, Option, none, some, if◌then◌else◌}
use clientprefs_redis.Base.Fault.{◌>>=◌, ◌>>◌, pure, gets, modify, update}
use clientprefs_redis.Sdk.{Sdk, Server}
use clientprefs_redis.State.{QueryOp, Main, load_cookie, delete_data, check_client}
use clientprefs_redis.Disconnect.{on_client_disconnecting}

unfoldable pub delete_slot : Option ℕ → Main Unit
delete_slot none = pure tt
delete_slot (some d) = delete_data d

-- The loop of Cookie::~Cookie over the first `n` elements of `data`.
unfoldable pub delete_slots : ℕ → (ℕ → Option ℕ) → Main Unit
unfolding delete_slot
delete_slots zero slots = pure tt
delete_slots (suc n) slots = do delete_slots n slots; delete_slot (slots n)

module _ ⦃sdk : Sdk⦄ where
  -- `delete cookie`: the destructor deletes the values, and the cookie goes.
  unfoldable pub delete_cookie : ℕ → Main Unit
  unfolding delete_slots
  delete_cookie p = do
    k ← load_cookie p
    delete_slots (suc sdk.max_players) k.data_at
    modify (λ w. record w { cookies = update w.cookies p none })

  unfoldable pub delete_cookies : List ℕ → Main Unit
  unfolding delete_cookie
  delete_cookies [] = pure tt
  delete_cookies (p ∷ ps) = do delete_cookie p; delete_cookies ps

module _ ⦃sdk : Sdk⦄ where
  -- The rounds from `i` down to 1.
  unfoldable pub save_clients : Server → ℕ → Main Unit
  save_clients server zero = pure tt
  save_clients server (suc i) = do
    check_client (suc i)
    here ← gets (λ w. w.connected (suc i))
    if here then on_client_disconnecting server (suc i) else pure tt
    save_clients server i

  unfoldable pub unload : Server → Main Unit
  unfolding save_clients delete_cookies
  unload server = do
    save_clients server server.max_clients
    ps ← gets (λ w. w.cookie_list)
    delete_cookies ps
    modify (λ w. record w { cookie_list = [] })

-- The null pointers that SDK_OnUnload puts behind the queries, one for each thread.
unfoldable pub stop_threads : ℕ → List (Option QueryOp) → List (Option QueryOp)
stop_threads zero queue = queue
stop_threads (suc worker) queue = stop_threads worker (queue ++ none ∷ [])
