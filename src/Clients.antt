-- ===== src/Clients.antt =====
-- How the extension comes to know of its clients: OnClientAuthorized of cookie.cpp, and
-- CatchLateLoadClients and AttemptReconnection of extension.cpp, which call it and are called by it.
pub mod Missed
pub mod Late
use clientprefs_redis.Base.{
  ℕ, zero, suc, [], ◌∷◌, Option, none, some, Bool, true, false, ◌||◌, if◌then◌else◌,
}
use clientprefs_redis.Base.Fault.{◌>>=◌, ◌>>◌, pure, fault, modify, update}
use clientprefs_redis.Text.{Text, clip}
use clientprefs_redis.Sdk.{Sdk, Server, GamePlayer}
use clientprefs_redis.State.{
  QueryOp, World, Main, select_data, serial_op, max_name_length, add_query_to_queue, check_client,
}
use clientprefs_redis.CookieManager.{are_client_cookies_pending, are_client_cookies_cached}

-- For legacy reasons the Steam2 id, if there is one.
unfoldable pub get_player_compat_auth_id : GamePlayer → Option Text
get_player_compat_auth_id player = elim player.steam2 [
  | none ↦ player.auth_string
  | some id ↦ some id
]

-- The query that asks for the values of a player.
abbrev pub select_op : GamePlayer → QueryOp
select_op player =
    let op = serial_op select_data player.serial in
    record op {
      params = record op.params {
        steam_id = clip max_name_length (get_player_compat_auth_id player);
      };
    }

module _ ⦃sdk : Sdk⦄ where
  -- OnClientAuthorized after its guard, with the call of AttemptReconnection that it makes.
  admit : Main Unit → ℕ → GamePlayer → Main Unit
  admit attempt_reconnection client player = do
    check_client client
    modify (λ w. record w {
      connected = update w.connected client true;
      stats_pending = update w.stats_pending client true;
    })
    attempt_reconnection
    add_query_to_queue (select_op player)

  guarded : (GamePlayer → Main Unit) → Option GamePlayer → Main Unit
  guarded act none = pure tt
  guarded act (some player) = if player.fake then pure tt else act player

  if_authorized : Main Unit → Option GamePlayer → Main Unit
  if_authorized act none = pure tt
  if_authorized act (some player) = if player.authorized then act else pure tt

  -- One round of the loop of CatchLateLoadClients.
  unfoldable pub late_round : (ℕ → Main Unit) → Server → ℕ → Main Unit
  unfolding if_authorized are_client_cookies_pending are_client_cookies_cached
  late_round authorize server i = do
    pending ← are_client_cookies_pending i
    cached ← are_client_cookies_cached i
    if pending || cached then pure tt else if_authorized (authorize i) (server.player i)

  -- The rounds from `i` down to 1.
  unfoldable pub late_rounds : (ℕ → Main Unit) → Server → ℕ → Main Unit
  late_rounds authorize server zero = pure tt
  late_rounds authorize server (suc i) = do
    late_round authorize server (suc i)
    late_rounds authorize server i

  -- OnClientAuthorized with at most `depth` calls of it inside one another.
  unfoldable pub authorized : ℕ → Server → ℕ → Main Unit
  unfolding guarded admit
  authorized zero server client = fault
  authorized (suc depth) server client =
      guarded (admit (late_rounds (authorized depth server) server server.max_clients) client)
        (server.player client)

  -- Each call inside another takes a client that is not pending yet, so the depth is enough.
  unfoldable pub attempt_reconnection : Server → Main Unit
  attempt_reconnection server =
      late_rounds (authorized (suc server.max_clients) server) server server.max_clients

  unfoldable pub on_core_map_start : Server → Main Unit
  on_core_map_start server = attempt_reconnection server

  -- The last step of SDK_OnLoad: the players who were there before the extension.
  unfoldable pub catch_late : Bool → Server → Main Unit
  catch_late late server = if late then attempt_reconnection server else pure tt

  unfoldable pub on_client_authorized : Server → ℕ → Main Unit
  on_client_authorized server client = authorized (suc (suc server.max_clients)) server client
