-- ===== src/Ownership/Arrivals.antt =====
-- AttemptReconnection and OnClientAuthorized keep the ownership and fault nowhere.
use clientprefs_redis.Base.{
  ℕ, zero, suc, ◌≤◌, ◌≡◌, refl, ap, sym, ◌∙◌, inl, inr, List, [], ◌∷◌, Option, none, some, Bool,
  true, false, not, if◌then◌else◌, arith, All, Bool-cases, Option-cases,
}
use mathlib.Core.Path.{subst}
use clientprefs_redis.Sdk.{Sdk, Server, GamePlayer}
use clientprefs_redis.State.{QueryOp, World}
use clientprefs_redis.Clients.{attempt_reconnection, on_client_authorized, select_op}
use clientprefs_redis.Clients.Missed.{Caught, missed_ops, marked, is_human, is_missed, select_of}
use clientprefs_redis.Clients.Late.{
  attempt_reconnection-Caught, on_client_authorized-Caught, on_client_authorized_bot,
}
use clientprefs_redis.Ownership.{Owned, IsSound, datum_count}
use clientprefs_redis.Ownership.Parts.{Owned-queue, All-append, datum_count-append}
use clientprefs_redis.Ownership.Requests.{Ends}

-- The flags of clients and the forwards change.
pub Owned-flags :
    (own : ℕ → ℕ) (w : World) (connected loaded pending : ℕ → Bool) (told : List ℕ)
    → Owned own w
    → Owned own (record w {
      connected = connected;
      stats_loaded = loaded;
      stats_pending = pending;
      told = told;
    })
Owned-flags own w connected loaded pending told o = record {
  fresh_cookies = o.fresh_cookies;
  fresh_datums = o.fresh_datums;
  kept = o.kept;
  parents = o.parents;
  slots = o.slots;
  lists = o.lists;
  queries = o.queries;
  waiting = o.waiting;
  taken = o.taken;
  finished = o.finished;
  table = o.table;
  listed = o.listed;
  once = λ q. ground (arith, o.once q);
  uncached = o.uncached;
}

asked_count :
    (b : Bool) (player : Option GamePlayer) (d : ℕ)
    → datum_count d (if b then select_of player else []) ≡ 0
asked_count false player d = refl
asked_count true none d = refl
asked_count true (some player) d = refl

missed_count : (server : Server) (w : World) (n d : ℕ) → datum_count d (missed_ops server w n) ≡ 0
missed_count server w zero d = refl
missed_count server w (suc n) d =
    let later = if is_missed server w (suc n) then select_of (server.player (suc n)) else [] in
    omega (
      arith,
      datum_count-append d (missed_ops server w n) later,
      missed_count server w n d,
      asked_count (is_missed server w (suc n)) (server.player (suc n)) d,
    )

asked-IsSound :
    (b : Bool) (player : Option GamePlayer) (v : World)
    → All (IsSound v) (if b then select_of player else [])
asked-IsSound false player v = tt
asked-IsSound true none v = tt
asked-IsSound true (some player) v = (refl, tt)

missed-IsSound : (server : Server) (w v : World) (n : ℕ) → All (IsSound v) (missed_ops server w n)
missed-IsSound server w v zero = tt
missed-IsSound server w v (suc n) =
    All-append (IsSound v) (missed_ops server w n) _ (missed-IsSound server w v n)
      (asked-IsSound (is_missed server w (suc n)) (server.player (suc n)) v)

-- What AttemptReconnection leaves is owned as before.
pub Owned-Caught :
    (server : Server) (n : ℕ) (own : ℕ → ℕ) (w v : World)
    → Caught server n w v
    → Owned own w
    → Owned own v
Owned-Caught server n own w v c o =
    let o' =
      Owned-queue own w (missed_ops server w n) v.connected w.stats_loaded v.stats_pending w.told
        (missed_count server w n) (missed-IsSound server w w n) o in
    subst (Owned own)
      (sym (
        c.rest
        ∙ ap
            (λ (q : List QueryOp). record w {
              connected = v.connected;
              stats_pending = v.stats_pending;
              query_queue = q;
            })
            c.queued))
      o'

module _ ⦃sdk : Sdk⦄ (server : Server) (fits : server.max_clients ≤ sdk.max_players) where
  pub attempt_reconnection-Ends :
      (own : ℕ → ℕ) (w : World) → Owned own w → Ends (attempt_reconnection server) w
  attempt_reconnection-Ends own w o =
      let (v, ran, c) = attempt_reconnection-Caught server fits w in
      (tt, v, own, ran, Owned-Caught server server.max_clients own w v c o)

  Owned-marked : (own : ℕ → ℕ) (w : World) (client : ℕ) → Owned own w → Owned own (marked w client)
  unfolding marked
  Owned-marked own w client o = Owned-flags own w _ w.stats_loaded _ w.told o

  pub on_client_authorized-Ends :
      (own : ℕ → ℕ) (w : World) (client : ℕ)
      → client ≤ sdk.max_players
      → Owned own w
      → Ends (on_client_authorized server client) w
  on_client_authorized-Ends own w client h o = elim (Option-cases (server.player client)) [
    | inl nobody_there ↦
        (tt, w, own, on_client_authorized_bot server fits w client (ap is_human nobody_there), o)
    | inr (player, at) ↦ elim (Bool-cases player.fake) [
      | inl fake ↦ (
        tt,
        w,
        own,
        on_client_authorized_bot server fits w client (ap is_human at ∙ ap not fake),
        o,
      )
      | inr human ↦
          let (v, ran, c) = on_client_authorized-Caught server fits w client player h at human in
          let ov =
            Owned-Caught server server.max_clients own (marked w client) v c
              (Owned-marked own w client o) in
          (
            tt,
            _,
            own,
            ran,
            Owned-queue own v (select_op player ∷ []) v.connected v.stats_loaded v.stats_pending
                v.told (λ d. refl) (refl, tt) ov,
          )
    ]
  ]
