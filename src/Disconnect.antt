-- ===== src/Disconnect.antt =====
-- OnClientDisconnecting of cookie.cpp, with ClearQueryCache of extension.cpp: what a client changed
-- is handed to queries, and the rest of its data is deleted.
pub mod Save
pub mod Outcome
use clientprefs_redis.Base.{
  ℕ, zero, suc, [], ◌∷◌, List, Option, none, some, Bool, true, false, ◌&&◌, ◌||◌, not, ◌==◌, ℤ,
  negsuc, eq_ℤ, if◌then◌else◌,
}
use clientprefs_redis.Base.Fault.{◌>>=◌, ◌>>◌, pure, modify, update, deref, gets}
use clientprefs_redis.Text.{Text, clip}
use clientprefs_redis.Sdk.{Sdk, Server, GamePlayer}
use clientprefs_redis.State.{
  Cookie, CookieData, QueryOp, QueryType, World, Main, insert_cookie, select_data, insert_data,
  select_id, connect, serial_op, max_name_length, load_cookie, load_data, store_cookie, delete_data,
  add_query_to_queue, check_client,
}
use clientprefs_redis.CookieManager.{set_slot}
use clientprefs_redis.Clients.{attempt_reconnection, get_player_compat_auth_id}

abbrev pub is_select_data : QueryType → Bool
is_select_data select_data = true
is_select_data insert_cookie = false
is_select_data insert_data = false
is_select_data select_id = false
is_select_data connect = false

-- `delete` of an address that may be NULL.
abbrev pub delete_param : Option ℕ → Main Unit
delete_param none = pure tt
delete_param (some d) = delete_data d

-- TQueryOp::Destroy: `delete this`, whose ~ParamData deletes the data.
abbrev pub destroy : QueryOp → Main Unit
destroy op = delete_param op.params.datum

-- `cachedQueries.remove(iter--)` goes on with the element that moved into the place.
clear_cached : ℕ → List QueryOp → Main (List QueryOp)
clear_cached serial [] = pure []
clear_cached serial (op ∷ ops) =
    if is_select_data op.type && op.serial == serial
    then (do destroy op; clear_cached serial ops)
    else (do rest ← clear_cached serial ops; pure (op ∷ rest))

unfoldable pub clear_query_cache : ℕ → Main Unit
unfolding clear_cached
clear_query_cache serial = do
  ops ← gets (λ w. w.cached_queries)
  rest ← clear_cached serial ops
  modify (λ w. record w { cached_queries = rest })

-- The query that saves the object `d` of the cookie with this id.
abbrev pub save_op : ℕ → Text → ℤ → ℕ → QueryOp
save_op client auth dbid d =
    let op = serial_op insert_data client in
    record op {
      params = record op.params {
        steam_id = clip max_name_length (some auth);
        cookie_id = dbid;
        datum = some d;
      };
    }

module _ ⦃sdk : Sdk⦄ where
  -- `data[client] = NULL; delete current`
  drop : ℕ → ℕ → ℕ → Main Unit
  drop p client d = do set_slot p client none; delete_data d

  -- One round of the loop over `clientvec`, with the data, its cookie and the cookie's id;
  -- `auth` is `none` where the player or its id is NULL.
  settle : Option Text → ℕ → ℕ → Bool → ℕ → ℤ → Main Unit
  unfolding drop
  settle none client d changed p dbid = drop p client d
  settle (some auth) client d changed p dbid =
      if not changed || eq_ℤ dbid (negsuc 0)
      then drop p client d
      else (do add_query_to_queue (save_op client auth dbid d); set_slot p client none)

  pub save_one : Option Text → ℕ → ℕ → Main Unit
  save_one auth client d = do
    current ← load_data d
    p ← λ w. deref current.parent w
    parent ← load_cookie p
    settle auth client d current.changed p parent.dbid

  unfoldable pub save_all : Option Text → ℕ → List ℕ → Main Unit
  save_all auth client [] = pure tt
  save_all auth client (d ∷ ds) = do save_one auth client d; save_all auth client ds

  -- The player's id if the player is no bot, whose cached queries are cleared.
  unfoldable pub player_auth : Option GamePlayer → Main (Option Text)
  player_auth none = pure none
  player_auth (some player) =
      if player.fake
      then pure none
      else (do clear_query_cache player.serial; pure (get_player_compat_auth_id player))

  unfoldable pub on_client_disconnecting : Server → ℕ → Main Unit
  on_client_disconnecting server client = do
    check_client client
    modify (λ w. record w {
      connected = update w.connected client false;
      stats_loaded = update w.stats_loaded client false;
      stats_pending = update w.stats_pending client false;
    })
    attempt_reconnection server
    auth ← player_auth (server.player client)
    ds ← gets (λ w. w.client_data client)
    save_all auth client ds
    modify (λ w. record w { client_data = update w.client_data client [] })
