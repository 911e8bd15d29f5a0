-- ===== src/Ownership/Loading.antt =====
-- ClientConnectCallback keeps the ownership and faults nowhere.
use clientprefs_redis.Base.{
  ℕ, suc, ◌≤◌, ◌≡◌, refl, sym, inl, inr, List, [], ◌∷◌, ◌++◌, some, true, false, ◌==◌, arith,
  Bool-cases, Option-cases, leb, le→leb,
}
use mathlib.Core.Path.{subst}
use clientprefs_redis.Base.Fault.{◌>>=◌, ◌>>◌, update}
use clientprefs_redis.Text.{Text}
use clientprefs_redis.Sdk.{Sdk, Server}
use clientprefs_redis.State.{Cookie, World, new_cookie}
use clientprefs_redis.CookieManager.Create.{with_cookie}
use clientprefs_redis.Connect.{load_one, load_all, loaded, client_connect_callback}
use clientprefs_redis.Connect.Registry.{linked, new_datum, fetched_data}
use clientprefs_redis.Connect.Round.{load_known, load_unknown}
use clientprefs_redis.Ownership.{Owned, the_client}
use clientprefs_redis.Ownership.Parts.{Owned-bump, update_twice}
use clientprefs_redis.Ownership.Values.{Owned-with_cookie, Owned-linked}
use clientprefs_redis.Ownership.Requests.{Ends, known_alive, no_slots, bumped, Owned-attached}
use clientprefs_redis.Ownership.Arrivals.{Owned-flags}

module _ ⦃sdk : Sdk⦄ (client : ℕ) (inside : leb client sdk.max_players ≡ true) where
  load_one-Ends :
      (own : ℕ → ℕ) (w : World) (cookie : Cookie) (value : Text)
      → Owned own w
      → Ends (load_one client cookie value) w
  load_one-Ends own w cookie value o = elim (Option-cases (sdk.retrieve w.finder cookie.name)) [
    | inl fresh ↦
        let k = new_cookie (some cookie.name) (some cookie.description) cookie.access in
        let x = fetched_data value (suc w.next) in
        let u = with_cookie (bumped w) cookie.name k in
        let own' = update own w.next (the_client client) in
        let v = linked u client (suc w.next) k w.next x in
        let made =
          Owned-with_cookie own (bumped w) cookie.name k
            (no_slots cookie.name cookie.description cookie.access) (Owned-bump own w o) in
        let put =
          Owned-linked own u client (suc w.next) w.next k x (o.fresh_datums w.next (omega arith))
            (omega arith) (ground arith) refl made in
        (
          tt,
          _,
          own',
          load_unknown w client cookie value inside fresh,
          subst (λ f. Owned own' (record v { datums = f }))
              (sym (update_twice w.datums w.next (some (new_datum value)) (some x))) put,
        )
    | inr (p, found) ↦
        let (k, alive) = known_alive own w cookie.name p o found in
        let x = fetched_data value p in
        let own' = update own w.next (the_client client) in
        let v = linked (bumped w) client p k w.next x in
        (
          tt,
          _,
          own',
          load_known w client p cookie k value inside found alive,
          subst (λ f. Owned own' (record v { datums = f }))
              (sym (update_twice w.datums w.next (some (new_datum value)) (some x)))
              (Owned-attached own w p client k x alive refl o),
        )
  ]

  load_all-Ends :
      (fetched : List (Cookie × Text)) (own : ℕ → ℕ) (w : World)
      → Owned own w
      → Ends (load_all client fetched) w
  unfolding load_all
  load_all-Ends [] own w o = (tt, w, own, refl, o)
  load_all-Ends ((cookie, value) ∷ rest) own w o =
      let (n, u, own1, ran, o1) = load_one-Ends own w cookie value o in
      let (m, v, own2, ran', o2) = load_all-Ends rest own1 u o1 in
      (tt, v, own2, rw (◌>>=◌, ◌>>◌, ran, ran'), o2)

  loaded-Ends :
      (own : ℕ → ℕ) (w : World) (fetched : List (Cookie × Text))
      → Owned own w
      → Ends (loaded client fetched) w
  unfolding loaded
  loaded-Ends own w fetched o =
      let u : World = record w { stats_pending = update w.stats_pending client false } in
      let (n, v, own1, ran, o1) =
        load_all-Ends fetched own u (Owned-flags own w w.connected w.stats_loaded _ w.told o) in
      (
        tt,
        record v { stats_loaded = update v.stats_loaded client true; told = v.told ++ client ∷ [] },
        own1,
        rw (◌>>=◌, ◌>>◌, inside, ran),
        Owned-flags own1 v v.connected _ v.stats_pending _ o1,
      )

module _ ⦃sdk : Sdk⦄ (server : Server) where
  pub client_connect_callback-Ends :
      (own : ℕ → ℕ) (w : World) (serial : ℕ) (fetched : List (Cookie × Text))
      → server.client_from_serial serial ≤ sdk.max_players
      → Owned own w
      → Ends (client_connect_callback server serial fetched) w
  unfolding client_connect_callback
  client_connect_callback-Ends own w serial fetched h o =
      elim (Bool-cases (server.client_from_serial serial == 0)) [
        | inl gone ↦ (tt, w, own, rw gone, o)
        | inr here ↦
            let (n, v, own1, ran, o1) =
              loaded-Ends (server.client_from_serial serial)
                (le→leb (server.client_from_serial serial) sdk.max_players h) own w fetched o in
            (n, v, own1, rw (here, ran), o1)
      ]
