-- ===== src/Natives.antt =====
-- The natives of natives.cpp that plugins call for cookies, their values and the iterators. A
-- handle is a number, and what handlesys makes of it is a parameter; `none` in a result is
-- ThrowNativeError.
pub mod Values
pub mod Auth
pub mod Iterator
pub mod Prefab
pub mod Errors
use clientprefs_redis.Base.{
  ℕ, zero, suc, List, [], ◌∷◌, Option, none, some, Bool, true, false, ◌||◌, ◌==◌, ltb, ℤ, pos,
  negsuc, if◌then◌else◌, eq_text, get_elem?,
}
use clientprefs_redis.Base.Fault.{◌>>=◌, ◌>>◌, pure, fault, gets, deref}
use clientprefs_redis.Text.{Text, clip}
use clientprefs_redis.Sdk.{Sdk, Server, GamePlayer}
use clientprefs_redis.State.{
  Cookie, CookieData, CookieAccess, QueryOp, World, Main, insert_data, cookie_op, new_cookie_data,
  max_name_length, load_cookie, load_data, alloc_data, add_query_to_queue,
}
use clientprefs_redis.CookieManager.{
  find_cookie, create_cookie, get_cookie_value, set_cookie_value, get_cookie_time,
  are_client_cookies_cached,
}
use clientprefs_redis.Clients.{attempt_reconnection}

-- handlesys for the type of the cookies: ReadHandle, `none` at an error, and CreateHandle.
pub record Handles : Type 0 where
  pub read_handle : ℕ → Option ℕ
  pub create_handle : ℕ → ℕ

abbrev pub bad_handle : ℕ
bad_handle = 0

-- `(client < 1) || (client > playerhelpers->GetMaxClients())`, and else the index.
unfoldable pub valid_client : Server → ℤ → Option ℕ
valid_client server (negsuc n) = none
valid_client server (pos n) = if ltb n 1 || ltb server.max_clients n then none else some n

-- The act, or ThrowNativeError.
abbrev pub or_error : {A B : Type 0} → Option A → (A → Main (Option B)) → Main (Option B)
or_error none act = pure none
or_error (some a) act = act a

abbrev pub bool_cell : Bool → ℤ
bool_cell true = pos 1
bool_cell false = pos 0

abbrev is_empty : Text → Bool
is_empty [] = true
is_empty (c ∷ s) = false

-- strcmp(text, id) is 0; a NULL text is a fault.
unfoldable pub same_id : Option Text → Text → Main Bool
same_id text id = do t ← (λ w. deref text w); pure (eq_text t id)

-- The three comparisons, each made only if those before it failed.
unfoldable pub has_auth : GamePlayer → Text → Main Bool
unfolding same_id
has_auth player id = do
  by_auth_string ← same_id player.auth_string id
  if by_auth_string then pure true else (do
    by_steam2 ← same_id player.steam2 id
    if by_steam2 then pure true else same_id player.steam3 id)

unfoldable pub auth_round : Option GamePlayer → Text → Main Bool
unfolding has_auth
auth_round none id = pure false
auth_round (some player) id = if player.authorized then has_auth player id else pure false

-- The rounds from `i` down to 1.
unfoldable pub auth_rounds : Server → Text → ℕ → Main ℕ
auth_rounds server id zero = pure 0
auth_rounds server id (suc i) = do
  hit ← auth_round (server.player (suc i)) id
  if hit then pure (suc i) else auth_rounds server id i

unfoldable pub is_auth_id_connected : Server → Text → Main ℕ
is_auth_id_connected server id = auth_rounds server id server.max_clients

-- The query for a player who is not there.
unfoldable pub save_auth : ℕ → ℤ → Server → Text → Text → Main Unit
unfolding new_cookie_data
save_auth p dbid server steam_id value = do
  let payload = new_cookie_data (some value)
  d ← alloc_data (record payload { changed = true; timestamp = server.time })
  let op = cookie_op insert_data p
  add_query_to_queue (record op {
    params = record op.params {
      steam_id = clip max_name_length (some steam_id);
      cookie_id = dbid;
      datum = some d;
    };
  })

module _ ⦃sdk : Sdk⦄ (handles : Handles) (server : Server) where
  unfoldable pub reg_client_pref_cookie : Text → Text → CookieAccess → Main (Option ℕ)
  reg_client_pref_cookie name desc access = do
    attempt_reconnection server
    if is_empty name
        then pure none
        else (do p ← create_cookie name desc access; pure (some (handles.create_handle p)))

  handle_of : Option ℕ → ℕ
  handle_of none = bad_handle
  handle_of (some p) = handles.create_handle p

  unfoldable pub find_client_pref_cookie : Text → Main (Option ℕ)
  unfolding handle_of
  find_client_pref_cookie name = do
    attempt_reconnection server
    found ← find_cookie name
    pure (some (handle_of found))

  unfoldable pub set_auth : ℕ → Text → Text → Main (Option ℤ)
  set_auth p steam_id value = do
    k ← load_cookie p
    client ← is_auth_id_connected server steam_id
    if client == 0
        then (do save_auth p k.dbid server steam_id value; pure (some (pos 1)))
        else (do done ← set_cookie_value server p client value; pure (some (bool_cell done)))

  unfoldable pub set_auth_id_cookie : Text → ℕ → Text → Main (Option ℤ)
  set_auth_id_cookie steam_id hndl value = do
    attempt_reconnection server
    or_error (handles.read_handle hndl) (λ p. set_auth p steam_id value)

  unfoldable pub set_client_pref_cookie : ℤ → ℕ → Text → Main (Option ℤ)
  unfolding valid_client
  set_client_pref_cookie client hndl value = do
    attempt_reconnection server
    or_error (valid_client server client) (λ i.
        or_error (handles.read_handle hndl)
          (λ p. do done ← set_cookie_value server p i value; pure (some (bool_cell done))))

  -- The text that goes to the plugin.
  unfoldable pub get_client_pref_cookie : ℤ → ℕ → Main (Option Text)
  unfolding valid_client
  get_client_pref_cookie client hndl = do
    attempt_reconnection server
    or_error (valid_client server client) (λ i.
        or_error (handles.read_handle hndl)
          (λ p. do d ← get_cookie_value p i; x ← load_data d; pure (some x.value)))

  unfoldable pub are_client_cookies_cached_native : ℤ → Main (Option Bool)
  unfolding valid_client
  are_client_cookies_cached_native client = do
    attempt_reconnection server
    or_error (valid_client server client)
        (λ i. do cached ← are_client_cookies_cached i; pure (some cached))

  unfoldable pub get_cookie_access : ℕ → Main (Option CookieAccess)
  get_cookie_access hndl = do
    attempt_reconnection server
    or_error (handles.read_handle hndl) (λ p. do k ← load_cookie p; pure (some k.access))

  -- The client's index goes to the array as it comes.
  unfoldable pub time_of : ℤ → ℕ → Main (Option ℕ)
  time_of (negsuc n) p = fault
  time_of (pos n) p = get_cookie_time p n

  abbrev or_zero : Option ℕ → ℕ
  or_zero none = 0
  or_zero (some t) = t

  unfoldable pub get_client_cookie_time : ℤ → ℕ → Main (Option ℕ)
  unfolding time_of
  get_client_cookie_time client hndl = do
    attempt_reconnection server
    or_error (handles.read_handle hndl)
        (λ p. do value ← time_of client p; pure (some (or_zero value)))
