-- ===== src/Ownership/Leaving.antt =====
-- OnClientDisconnecting keeps the ownership and faults nowhere.
use clientprefs_redis.Base.{
  ℕ, ◌≤◌, ◌≡◌, refl, ap, sym, ◌∙◌, inl, inr, List, [], ◌∷◌, ◌++◌, append-nil, Option, none, some,
  Bool, true, false, ◌==◌, arith, Bool-cases, Option-cases, leb, le→leb,
}
use mathlib.Core.Path.{subst, fun_ext}
use clientprefs_redis.Base.Fault.{◌>>=◌, ◌>>◌, update}
use clientprefs_redis.Text.{Text}
use clientprefs_redis.Sdk.{Sdk, Server}
use clientprefs_redis.State.{World}
use clientprefs_redis.Disconnect.{save_op, save_one, save_all, on_client_disconnecting}
use clientprefs_redis.Disconnect.Save.{Item, Resolves, is_saved, settled, save_one_lem}
use clientprefs_redis.Disconnect.Outcome.{auth_of, player_auth_lem, offline}
use clientprefs_redis.Ownership.{Owned, parent_of, ptr_alive, the_client}
use clientprefs_redis.Ownership.Parts.{update_twice}
use clientprefs_redis.Ownership.Values.{Owned-dropped, Owned-handed, unlinked}
use clientprefs_redis.Ownership.Requests.{Ends, some_of}
use clientprefs_redis.Ownership.Arrivals.{Owned-Caught, Owned-flags}
use clientprefs_redis.Clients.Late.{attempt_reconnection-Caught}

-- The world with only these values left in the client's list.
abbrev with_list : World → ℕ → List ℕ → World
with_list w client ds = record w { client_data = update w.client_data client ds }

-- The list is written once.
back :
    (w : World) (client d : ℕ) (ds : List ℕ) (rest : (ℕ → List ℕ) → World) (own : ℕ → ℕ)
    → Owned own (rest (update (update w.client_data client (d ∷ ds)) client ds))
    → Owned own (rest (update w.client_data client ds))
back w client d ds rest own =
    subst (λ f. Owned own (rest f)) (update_twice w.client_data client (d ∷ ds) ds)

-- The cookie and the object of the first value of the list.
first_item :
    (own : ℕ → ℕ) (w : World) (client d : ℕ) (ds : List ℕ)
    → Owned own (with_list w client (d ∷ ds))
    → (it : Item) × Resolves w it × (it.address ≡ d) × (w.cookies it.parent ≡ some it.cookie)
first_item own w client d ds o =
    let his : own d ≡ the_client client = ground (arith, o.lists client d) in
    let (x, found) = some_of (w.datums d) (ground (arith, o.kept d)) in
    let there : ptr_alive w (parent_of (w.datums d)) ≡ true = o.parents d (omega (arith, his)) in
    elim (Option-cases x.parent) [
      | inl orphan ↦ cc (found, orphan, there)
      | inr (p, of_p) ↦
          let (k, alive) = some_of (w.cookies p) (ground (arith, there)) in
          (
            record { address = d; object = x; parent = p; cookie = k },
            record {
              alive = found;
              of_parent = of_p;
              now = k;
              parent_alive = alive;
              same_id = refl {a = k.dbid};
            },
            refl,
            alive,
          )
    ]

-- The world after the first value was deleted, or handed to a query.
abbrev lost : World → ℕ → Item → World
lost w client it = record w {
  cookies = update w.cookies it.parent (some (unlinked it.cookie client));
  datums = update w.datums it.address none;
}

abbrev kept : World → ℕ → Item → Text → World
kept w client it auth = record w {
  cookies = update w.cookies it.parent (some (unlinked it.cookie client));
  query_queue = w.query_queue ++ save_op client auth it.cookie.dbid it.address ∷ [];
}

settled-lost :
    (auth : Option Text) (client : ℕ) (w : World) (it : Item)
    → w.cookies it.parent ≡ some it.cookie
    → is_saved auth it ≡ false
    → lost w client it ≡ settled auth client w it
settled-lost none client w it alive no_save = ground (arith, append-nil w.query_queue)
settled-lost (some auth) client w it alive no_save = ground (arith, append-nil w.query_queue)

settled_kept :
    (auth : Text) (client : ℕ) (w : World) (it : Item)
    → w.cookies it.parent ≡ some it.cookie
    → is_saved (some auth) it ≡ true
    → kept w client it auth ≡ settled (some auth) client w it
settled_kept auth client w it alive save = ground arith

lost-Owned :
    (auth : Option Text) (own : ℕ → ℕ) (w : World) (client : ℕ) (it : Item) (ds : List ℕ)
    → Resolves w it
    → w.cookies it.parent ≡ some it.cookie
    → is_saved auth it ≡ false
    → Owned own (with_list w client (it.address ∷ ds))
    → Owned (update own it.address 0) (with_list (settled auth client w it) client ds)
lost-Owned auth own w client it ds r alive no_save o =
    let own' = update own it.address 0 in
    let x : World = with_list w client (it.address ∷ ds) in
    let child : parent_of (w.datums it.address) ≡ some it.parent =
      ap parent_of r.alive ∙ r.of_parent in
    subst (λ v. Owned own' (with_list v client ds)) (settled-lost auth client w it alive no_save)
      (back w client it.address ds (λ f. record (lost w client it) { client_data = f }) own'
        (Owned-dropped own x client it.parent it.address it.cookie ds (ground arith) alive child o))

kept-Owned :
    (auth : Text) (own : ℕ → ℕ) (w : World) (client : ℕ) (it : Item) (ds : List ℕ)
    → Resolves w it
    → w.cookies it.parent ≡ some it.cookie
    → is_saved (some auth) it ≡ true
    → Owned own (with_list w client (it.address ∷ ds))
    → Owned (update own it.address 1) (with_list (settled (some auth) client w it) client ds)
kept-Owned auth own w client it ds r alive save o =
    let own' = update own it.address 1 in
    let x : World = with_list w client (it.address ∷ ds) in
    let child : parent_of (w.datums it.address) ≡ some it.parent =
      ap parent_of r.alive ∙ r.of_parent in
    subst (λ v. Owned own' (with_list v client ds)) (settled_kept auth client w it alive save)
      (back w client it.address ds (λ f. record (kept w client it auth) { client_data = f }) own'
        (Owned-handed own x client it.parent it.address it.cookie ds
          (save_op client auth it.cookie.dbid it.address) (ground arith) alive child refl refl o))

settled-Owned :
    (auth : Option Text) (own : ℕ → ℕ) (w : World) (client : ℕ) (it : Item) (ds : List ℕ)
    → Resolves w it
    → w.cookies it.parent ≡ some it.cookie
    → Owned own (with_list w client (it.address ∷ ds))
    → (own' : ℕ → ℕ) × Owned own' (with_list (settled auth client w it) client ds)
settled-Owned none own w client it ds r alive o =
    (_, lost-Owned none own w client it ds r alive refl o)
settled-Owned (some auth) own w client it ds r alive o =
    elim (Bool-cases (is_saved (some auth) it)) [
      | inl save ↦ (_, kept-Owned auth own w client it ds r alive save o)
      | inr no_save ↦ (_, lost-Owned (some auth) own w client it ds r alive no_save o)
    ]

module _ ⦃sdk : Sdk⦄ (client : ℕ) (inside : leb client sdk.max_players ≡ true) where
  -- The loop over the values that are left in the list.
  save_all-Owned :
      (auth : Option Text) (ds : List ℕ) (own : ℕ → ℕ) (w : World)
      → Owned own (with_list w client ds)
      → (v : World) × (own' : ℕ → ℕ) × (save_all auth client ds w ≡ some (tt, v))
        × Owned own' (with_list v client [])
        × (v.client_data ≡ w.client_data)
        × (v.connected ≡ w.connected)
  unfolding save_all
  save_all-Owned auth [] own w o = (w, own, refl, o, refl, refl)
  save_all-Owned auth (d ∷ ds) own w o =
      let (it, r, e, alive) = first_item own w client d ds o in
      let o' = subst (λ a. Owned own (with_list w client (a ∷ ds))) (sym e) o in
      let (own1, o1) = settled-Owned auth own w client it ds r alive o' in
      let (v, own2, ran, o2, lists, flags) =
        save_all-Owned auth ds own1 (settled auth client w it) o1 in
      let first =
        subst (λ a. save_one auth client a w ≡ some (tt, settled auth client w it)) e
          (save_one_lem client inside auth w it r) in
      (v, own2, rw (◌>>=◌, ◌>>◌, first, ran), o2, lists, flags)

module _ ⦃sdk : Sdk⦄ (server : Server) (fits : server.max_clients ≤ sdk.max_players) where
  Owned-uncached :
      (own : ℕ → ℕ) (w : World) → Owned own w → Owned own (record w { cached_queries = [] })
  Owned-uncached own w o = subst (λ q. Owned own (record w { cached_queries = q })) o.uncached o

  same_list :
      (own : ℕ → ℕ) (w : World) (client : ℕ)
      → Owned own w
      → Owned own (with_list w client (w.client_data client))
  same_list own w client o =
      let e : update w.client_data client (w.client_data client) ≡ w.client_data =
        fun_ext {f = update w.client_data client (w.client_data client)} (λ q. ground arith) in
      subst (λ f. Owned own (record w { client_data = f })) (sym e) o

  -- What a client that leaves does to the lists and to the flags of the others.
  pub on_client_disconnecting-emptied :
      (own : ℕ → ℕ) (w : World) (client : ℕ)
      → client ≤ sdk.max_players
      → Owned own w
      → (v : World) × (own' : ℕ → ℕ) × (on_client_disconnecting server client w ≡ some (tt, v))
        × Owned own' v
        × (v.client_data ≡ update w.client_data client [])
        × ((i : ℕ) → (client == i) ≡ false → w.connected i ≡ true → v.connected i ≡ true)
  unfolding on_client_disconnecting
  on_client_disconnecting-emptied own w client h o =
      let inside = le→leb client sdk.max_players h in
      let (u, ran, c) = attempt_reconnection-Caught server fits (offline w client) in
      let o1 =
        Owned-Caught server server.max_clients own (offline w client) u c
          (Owned-flags own w _ _ _ w.told o) in
      let auth = auth_of (server.player client) in
      let u' : World = record u { cached_queries = [] } in
      let (v, own2, saved, o2, lists, flags) =
        save_all-Owned client inside auth (u.client_data client) own u'
          (same_list own u' client (Owned-uncached own u o1)) in
      (
        record v { client_data = update v.client_data client [] },
        own2,
        rw (◌>>=◌, ◌>>◌, inside, ran, player_auth_lem (server.player client) u o1.uncached, saved),
        o2,
        ap (λ (f : ℕ → List ℕ). update f client [])
            (lists ∙ ap (λ (x : World). x.client_data) c.rest),
        λ i other there. ap (λ (f : ℕ → Bool). f i) flags ∙ ground (arith, c.connected i),
      )

  pub on_client_disconnecting-Ends :
      (own : ℕ → ℕ) (w : World) (client : ℕ)
      → client ≤ sdk.max_players
      → Owned own w
      → Ends (on_client_disconnecting server client) w
  on_client_disconnecting-Ends own w client h o =
      let (v, own', ran, o', lists, flags) = on_client_disconnecting-emptied own w client h o in
      (tt, v, own', ran, o')
