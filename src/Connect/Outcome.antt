-- ===== src/Connect/Outcome.antt =====
-- What ClientConnectCallback leaves: the client has the fetched values.
use clientprefs_redis.Base.{
  ℕ, ◌≤◌, ◌<◌, ◌≡◌, refl, ◌≢◌, [], ◌∷◌, ◌++◌, List, some, true, false, arith, leb, le→leb, All,
}
use clientprefs_redis.Base.Fault.{◌>>=◌, update}
use clientprefs_redis.Text.{Text}
use clientprefs_redis.Sdk.{Sdk, Server}
use clientprefs_redis.State.{Cookie, World}
use clientprefs_redis.Connect.{load_all, loaded, client_connect_callback}
use clientprefs_redis.Connect.Registry.{IsRegistered, HasValue}
use clientprefs_redis.Connect.Round.{round_lem, HasAll, HasAll-told, IsFetched}

module _ ⦃sdk : Sdk⦄ (client : ℕ) (inside : leb client sdk.max_players ≡ true) where
  -- What the loop leaves of the other values and of the flags.
  record Loop (w v : World) (fetched : List (Cookie × Text)) : Type 0 where
    registered : IsRegistered v
    has : HasAll v client fetched
    keeps :
        (name value : Text)
        → All (λ (other : Cookie × Text). name ≢ other.0.name) fetched
        → HasValue w client name value
        → HasValue v client name value
    flags :
        (v.stats_loaded ≡ w.stats_loaded)
        × (v.stats_pending ≡ w.stats_pending)
        × (v.connected ≡ w.connected)
        × (v.told ≡ w.told)

  load_all_lem :
      (w : World) (fetched : List (Cookie × Text))
      → IsFetched fetched
      → IsRegistered w
      → (v : World) × (load_all client fetched w ≡ some (tt, v)) × Loop w v fetched
  unfolding load_all
  load_all_lem w [] h r = (
    w,
    refl,
    record {
      registered = r;
      has = tt;
      keeps = λ name value ne hv. hv;
      flags = (refl, refl, refl, refl);
    },
  )
  load_all_lem w ((cookie, value) ∷ rest) h r =
      let (u, ran, round) = round_lem w client cookie value inside h.0 r in
      let (v, runs, loop) = load_all_lem u rest h.2 round.registered in
      (
        v,
        rw (ran, ◌>>=◌) runs,
        record {
          registered = loop.registered;
          has = (loop.keeps cookie.name value h.1 round.has, loop.has);
          keeps = λ name val ne hv. loop.keeps name val ne.1 (round.keeps name val ne.0 hv);
          flags = ground (arith, loop.flags, round.flags);
        },
      )

-- The client's values are loaded, and the forward was called for it.
pub record IsLoaded ⦃sdk : Sdk⦄ (w v : World) (client : ℕ) (fetched : List (Cookie × Text))
    : Type 0 where
  pub registered : IsRegistered v
  pub has : HasAll v client fetched
  pub is_loaded : v.stats_loaded client ≡ true
  pub no_more_pending : v.stats_pending client ≡ false
  pub told_last : v.told ≡ w.told ++ client ∷ []

module _ ⦃sdk : Sdk⦄ where
  -- ClientConnectCallback for a client that is still there: for fetched cookies of distinct names of
  -- less than 30 bytes, each is known by its name afterwards, made if need be, and the client's value
  -- of it is the fetched one, cut to 99 bytes and not marked as changed. The client counts as loaded
  -- and no more as pending, and the forward is called for it, once and last. The call returns, and
  -- the table of cookies stays sound.
  pub client_connect_callback-IsLoaded :
      (server : Server) (w : World) (serial : ℕ) (fetched : List (Cookie × Text))
      → let client = server.client_from_serial serial in
        0 < client
        → client ≤ sdk.max_players
        → IsFetched fetched
        → IsRegistered w
        → (v : World) × (client_connect_callback server serial fetched w ≡ some (tt, v))
          × IsLoaded w v client fetched
  unfolding client_connect_callback loaded
  client_connect_callback-IsLoaded server w serial fetched h k short r =
      let client = server.client_from_serial serial in
      let u : World = record w { stats_pending = update w.stats_pending client false } in
      let inside = le→leb client sdk.max_players k in
      let ru : IsRegistered u = record {
        entries = r.entries;
        fresh_cookies = r.fresh_cookies;
        fresh_datums = r.fresh_datums;
      } in
      let (v, ran, loop) = load_all_lem client inside u fetched short ru in
      (
        record v { stats_loaded = update v.stats_loaded client true; told = v.told ++ client ∷ [] },
        ground (arith, ran, inside),
        record {
          registered = record {
            entries = loop.registered.entries;
            fresh_cookies = loop.registered.fresh_cookies;
            fresh_datums = loop.registered.fresh_datums;
          };
          has = HasAll-told v client _ _ fetched loop.has;
          is_loaded = ground arith;
          no_more_pending = ground (arith, loop.flags);
          told_last = ground (arith, loop.flags);
        },
      )

  -- For a client that has left, which has no index any more, it does nothing.
  pub client_connect_callback_gone :
      (server : Server) (w : World) (serial : ℕ) (fetched : List (Cookie × Text))
      → server.client_from_serial serial ≡ 0
      → client_connect_callback server serial fetched w ≡ some (tt, w)
  unfolding client_connect_callback
  client_connect_callback_gone server w serial fetched h = ground arith
