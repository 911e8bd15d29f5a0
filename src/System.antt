-- ===== src/System.antt =====
-- The extension as a whole: the callbacks, natives and frames of the main thread, and the threads
-- that run queries (SDK_OnLoad of extension.cpp), as steps on the world and the server.
pub mod Safety
pub mod Drain
pub mod Table
pub mod Refines
pub mod Requests
pub mod Destructor
pub mod Unload
pub mod Lifecycle
use clientprefs_redis.Base.{
  false, ◌&&◌, not, ℕ, ◌≤◌, ◌≡◌, List, [], ◌∷◌, ◌++◌, some, Bool, Option, ℤ,
}
use clientprefs_redis.Base.Fault.{◌>>=◌, ◌>>◌, pure}
use clientprefs_redis.Text.{Text}
use clientprefs_redis.Sdk.{Sdk, Server}
use clientprefs_redis.State.{CookieAccess, QueryOp, World, Main, new_world}
use clientprefs_redis.Clients.{on_core_map_start, catch_late, on_client_authorized}
use clientprefs_redis.Disconnect.{on_client_disconnecting}
use clientprefs_redis.Extension.Frame.{run_frame}
use clientprefs_redis.Natives.{
  Handles, reg_client_pref_cookie, find_client_pref_cookie, set_client_pref_cookie,
  get_client_pref_cookie, get_cookie_access, are_client_cookies_cached_native,
  get_client_cookie_time, set_auth_id_cookie,
}
use clientprefs_redis.Natives.Auth.{meets_null}
use clientprefs_redis.Natives.Iterator.{get_cookie_iterator, read_iterator_of}
use clientprefs_redis.Ownership.Natives.{HandlesAlive, in_array}
use clientprefs_redis.Ownership.{is_some}
use clientprefs_redis.Query.Run.{Backend, Outcome, returns}
use clientprefs_redis.Query.Execute.{run_thread_part}

-- What SourceMod calls on the main thread: the callbacks, the frame, the end of SDK_OnLoad, and the natives
-- on cookies, values and iterators.
pub data Call : Type 0 where
  client_authorized client_disconnecting : ℕ → Call
  map_start frame : Call
  late : Bool → Call
  register : Text → Text → CookieAccess → Call
  find : Text → Call
  set_value : ℤ → ℕ → Text → Call
  get_value : ℤ → ℕ → Call
  read_access : ℕ → Call
  read_cached : ℤ → Call
  read_time : ℤ → ℕ → Call
  set_auth_value : Text → ℕ → Text → Call
  new_iterator : ℕ → Call
  read_iterator : Option ℕ → Call

-- The players and the handles are such as SourceMod has them: the arrays have a place for each
-- client, and a handle of a cookie leads to a cookie.
pub record IsHost ⦃sdk : Sdk⦄ (server : Server) (handles : Handles) (w : World) : Type 0 where
  pub fits : server.max_clients ≤ sdk.max_players
  pub serials : (s : ℕ) → server.client_from_serial s ≤ sdk.max_players
  pub alive : HandlesAlive handles w

-- SourceMod calls the callbacks for clients that have their place in the arrays.
abbrev pub InRange : ⦃sdk : Sdk⦄ → Call → Type 0
InRange ⦃sdk⦄ (client_authorized c) = c ≤ sdk.max_players
InRange ⦃sdk⦄ (client_disconnecting c) = c ≤ sdk.max_players
InRange map_start = Unit
InRange frame = Unit
InRange (late there) = Unit
InRange (register name desc access) = Unit
InRange (find name) = Unit
InRange (set_value c h value) = Unit
InRange (get_value c h) = Unit
InRange (read_access h) = Unit
InRange (read_cached c) = Unit
InRange (read_time c h) = Unit
InRange (set_auth_value id h value) = Unit
InRange (new_iterator hndl) = Unit
InRange (read_iterator iter) = Unit

-- GetClientCookieTime at a cookie, for a client that has no place in the arrays, and SetAuthIdCookie at a
-- cookie, where the search for the id meets one that is NULL.
abbrev pub is_astray : ⦃sdk : Sdk⦄ → Server → Handles → Call → Bool
is_astray server handles (read_time c h) = is_some (handles.read_handle h) && not (in_array c)
is_astray server handles (set_auth_value id h value) =
    is_some (handles.read_handle h) && meets_null server id server.max_clients
is_astray server handles (client_authorized c) = false
is_astray server handles (client_disconnecting c) = false
is_astray server handles map_start = false
is_astray server handles frame = false
is_astray server handles (late there) = false
is_astray server handles (register name desc access) = false
is_astray server handles (find name) = false
is_astray server handles (set_value c h value) = false
is_astray server handles (get_value c h) = false
is_astray server handles (read_access h) = false
is_astray server handles (read_cached c) = false
is_astray server handles (new_iterator hndl) = false
is_astray server handles (read_iterator iter) = false

abbrev forget : {A : Type 0} → Main A → Main Unit
forget m = m >>= λ a. pure tt

module _ ⦃sdk : Sdk⦄ (server : Server) (handles : Handles) where
  unfoldable pub perform : Call → Main Unit
  unfolding on_core_map_start catch_late
  perform (client_authorized c) = on_client_authorized server c
  perform (client_disconnecting c) = on_client_disconnecting server c
  perform map_start = on_core_map_start server
  perform (late there) = catch_late there server
  perform frame = run_frame server
  perform (register name desc access) =
      forget (reg_client_pref_cookie handles server name desc access)
  perform (find name) = forget (find_client_pref_cookie handles server name)
  perform (set_value c h value) = forget (set_client_pref_cookie handles server c h value)
  perform (get_value c h) = forget (get_client_pref_cookie handles server c h)
  perform (read_access h) = forget (get_cookie_access handles server h)
  perform (read_cached c) = forget (are_client_cookies_cached_native handles server c)
  perform (read_time c h) = forget (get_client_cookie_time handles server c h)
  perform (set_auth_value id h value) = forget (set_auth_id_cookie handles server id h value)
  perform (new_iterator hndl) = forget (get_cookie_iterator server hndl)
  perform (read_iterator iter) = forget (read_iterator_of server iter)

module _ {Db : Type 0} (b : Backend Db) ⦃sdk : Sdk⦄ where
  -- From `w` and the server's `db` to `v` and `db'`: the main thread serves a call, a thread takes
  -- the first query, or a thread that has run a query puts it behind the results.
  pub data Step (w : World) (db : Db) (v : World) (db' : Db) : Type 0 where
    serve :
        (server : Server) (handles : Handles) (call : Call)
        → IsHost server handles w
        → InRange call
        → perform server handles call w ≡ some (tt, v)
        → db' ≡ db
        → Step w db v db'
    take_query :
        (op : QueryOp) (ops : List QueryOp)
        → w.query_queue ≡ op ∷ ops
        → v ≡ record w { query_queue = ops; running = w.running ++ op ∷ [] }
        → db' ≡ db
        → Step w db v db'
    finish_query :
        (before after : List QueryOp) (op op' : QueryOp)
        → w.running ≡ before ++ op ∷ after
        → run_thread_part b w.cookies w.datums op db ≡ returns (op', db')
        → v ≡ record w { running = before ++ after; result_queue = w.result_queue ++ op' ∷ [] }
        → Step w db v db'

  pub data Reach (start : Db) : World → Db → Type 0 where
    loaded : Reach start new_world start
    later : {w v : World} {db db' : Db} → Reach start w db → Step w db v db' → Reach start v db'
