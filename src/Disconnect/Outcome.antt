-- ===== src/Disconnect/Outcome.antt =====
-- What a disconnecting client leaves behind.
use clientprefs_redis.Base.{
  ℕ, ◌≤◌, ◌<◌, ◌≡◌, refl, ap, ◌∙◌, [], ◌∷◌, ◌++◌, List, map, Option, none, some, false,
  if◌then◌else◌, arith, le→leb, All,
}
use clientprefs_redis.Base.Fault.{update}
use clientprefs_redis.Text.{Text}
use clientprefs_redis.Sdk.{Sdk, Server, GamePlayer}
use clientprefs_redis.State.{Cookie, CookieData, World}
use clientprefs_redis.Clients.{attempt_reconnection, get_player_compat_auth_id}
use clientprefs_redis.Clients.Missed.{is_wanted, missed_ops, is_caught}
use clientprefs_redis.Clients.Late.{attempt_reconnection-Caught}
use clientprefs_redis.Disconnect.{player_auth, clear_query_cache, on_client_disconnecting}
use clientprefs_redis.Disconnect.Save.{
  Item, Resolves, Distinct, saved_ops, settled_all, is_dropped, is_parent, cleared, save_all_lem,
  queue-settled_all, datums-settled_all, cookies-settled_all, rest-settled_all,
}

-- The Steam id that values are saved under: none for a bot, or where there is no player or id.
abbrev pub auth_of : Option GamePlayer → Option Text
auth_of none = none
auth_of (some player) = if player.fake then none else get_player_compat_auth_id player

-- The world with the flags of the client cleared.
abbrev pub offline : World → ℕ → World
offline w client = record w {
  connected = update w.connected client false;
  stats_loaded = update w.stats_loaded client false;
  stats_pending = update w.stats_pending client false;
}

-- `v` is `w` after the client has left, its data being `its`.
pub record Left (server : Server) (client : ℕ) (its : List Item) (w v : World) : Type 0 where
  pub queued :
      v.query_queue
      ≡ (w.query_queue ++ missed_ops server (offline w client) server.max_clients)
        ++ saved_ops (auth_of (server.player client)) client its
  pub freed :
      (d : ℕ)
      → v.datums d
        ≡ (if is_dropped (auth_of (server.player client)) its d then none else w.datums d)
  pub unlinked :
      (p : ℕ)
      → v.cookies p ≡ (if is_parent its p then cleared client (w.cookies p) else w.cookies p)
  pub emptied : v.client_data ≡ update w.client_data client []
  pub flag : v.connected client ≡ is_wanted (server.player client)
  pub pending : v.stats_pending client ≡ is_wanted (server.player client)
  pub unloaded : v.stats_loaded client ≡ false

module _ ⦃sdk : Sdk⦄ where
  pub player_auth_lem :
      (player : Option GamePlayer) (w : World)
      → w.cached_queries ≡ []
      → player_auth player w ≡ some (auth_of player, record w { cached_queries = [] })
  unfolding player_auth clear_query_cache
  player_auth_lem none w h = ground arith
  player_auth_lem (some player) w h = ground arith

  Resolves-same :
      (w u : World) (it : Item)
      → u.datums ≡ w.datums
      → u.cookies ≡ w.cookies
      → Resolves w it
      → Resolves u it
  Resolves-same w u it d c r = record {
    alive = ap (λ (f : ℕ → Option CookieData). f it.address) d ∙ r.alive;
    of_parent = r.of_parent;
    now = r.now;
    parent_alive = ap (λ (f : ℕ → Option Cookie). f it.parent) c ∙ r.parent_alive;
    same_id = r.same_id;
  }

  All-Resolves-same :
      (w u : World) (its : List Item)
      → u.datums ≡ w.datums
      → u.cookies ≡ w.cookies
      → All (Resolves w) its
      → All (Resolves u) its
  All-Resolves-same w u [] d c rs = tt
  All-Resolves-same w u (it ∷ its) d c rs =
      (Resolves-same w u it d c rs.0, All-Resolves-same w u its d c rs.1)

module _ ⦃sdk : Sdk⦄ (server : Server) (fits : server.max_clients ≤ sdk.max_players) where
  -- The world that the loop over the data of the client begins with.
  abbrev before : World → World
  before u = record u { cached_queries = [] }

  run_disconnecting :
      (w u : World) (client : ℕ) (its : List Item)
      → client ≤ sdk.max_players
      → attempt_reconnection server (offline w client) ≡ some (tt, u)
      → u.cached_queries ≡ []
      → u.client_data client ≡ map (λ it. it.address) its
      → All (Resolves u) its
      → Distinct its
      → let v = settled_all (auth_of (server.player client)) client (before u) its in
        on_client_disconnecting server client w
        ≡ some (tt, record v { client_data = update v.client_data client [] })
  unfolding on_client_disconnecting
  run_disconnecting w u client its h ran none_cached listed rs ds =
      let auth = auth_of (server.player client) in
      let rs' : All (Resolves (before u)) its = All-Resolves-same u (before u) its refl refl rs in
      let saved =
        save_all_lem client (le→leb client sdk.max_players h) auth (before u) its rs' ds in
      ground (
        arith,
        le→leb client sdk.max_players h,
        ran,
        listed,
        saved,
        player_auth_lem (server.player client) u none_cached,
      )

  flag_again :
      (w : World) (client : ℕ)
      → 0 < client
      → client ≤ server.max_clients
      → is_caught server (offline w client) server.max_clients client
        ≡ is_wanted (server.player client)
  flag_again w client h k = ground (arith, le→leb 1 client h, le→leb client server.max_clients k)

  -- OnClientDisconnecting of a client in range returns and faults nowhere, if its list holds
  -- distinct objects that are alive, of cookies that are alive, and no query is cached. Each changed
  -- value of a cookie with an id is queued to be saved, in the order of the list, behind the queries
  -- for the clients that were missed; exactly the other objects of the list are deleted; the slots
  -- of the client in their cookies become NULL and its list is emptied, and no other list changes.
  -- Nothing is saved of a bot or without an id. The client's values count as not loaded, and it is
  -- left connected and pending exactly if its player is there, authorized and no bot.
  pub on_client_disconnecting-Left :
      (w : World) (client : ℕ) (its : List Item)
      → 0 < client
      → client ≤ server.max_clients
      → w.cached_queries ≡ []
      → w.client_data client ≡ map (λ it. it.address) its
      → All (Resolves w) its
      → Distinct its
      → (v : World) × (on_client_disconnecting server client w ≡ some (tt, v))
        × Left server client its w v
  on_client_disconnecting-Left w client its h k none_cached listed rs ds =
      let auth = auth_of (server.player client) in
      let (u, ran, c) = attempt_reconnection-Caught server fits (offline w client) in
      let same_datums : u.datums ≡ w.datums = ap (λ (x : World). x.datums) c.rest in
      let same_cookies : u.cookies ≡ w.cookies = ap (λ (x : World). x.cookies) c.rest in
      let same_lists : u.client_data ≡ w.client_data = ap (λ (x : World). x.client_data) c.rest in
      let rs' : All (Resolves u) its = All-Resolves-same w u its same_datums same_cookies rs in
      let rest = rest-settled_all auth client (before u) its in
      let v : World = settled_all auth client (before u) its in
      (
        record v { client_data = update v.client_data client [] },
        run_disconnecting w u client its (omega arith) ran
            (ap (λ (x : World). x.cached_queries) c.rest ∙ none_cached)
            (ap (λ (f : ℕ → List ℕ). f client) same_lists ∙ listed) rs' ds,
        record {
          queued =
              queue-settled_all auth client (before u) its
              ∙ ap (λ q. q ++ saved_ops auth client its) c.queued;
          freed = λ d.
              datums-settled_all auth client (before u) its d
              ∙ ap (λ (f : ℕ → Option CookieData). if is_dropped auth its d then none else f d)
                  same_datums;
          unlinked = λ p.
              cookies-settled_all auth client (before u) its p
              ∙ ap
                  (λ (f : ℕ → Option Cookie). if is_parent its p then cleared client (f p) else f p)
                  same_cookies;
          emptied =
              ap (λ (f : ℕ → List ℕ). update f client [])
                (ap (λ (x : World). x.client_data) rest ∙ same_lists);
          flag =
              ap (λ (x : World). x.connected client) rest
              ∙ ground (arith, c.connected client, flag_again w client h k);
          pending =
              ap (λ (x : World). x.stats_pending client) rest
              ∙ ground (arith, c.pending client, flag_again w client h k);
          unloaded =
              ap (λ (x : World). x.stats_loaded client) rest
              ∙ ground (arith, ap (λ (x : World). x.stats_loaded client) c.rest);
        },
      )
