-- ===== src/Clients/Late.antt =====
-- CatchLateLoadClients ends, though it calls itself through OnClientAuthorized, and takes every
-- client that was missed exactly once.
use clientprefs_redis.Base.{
  ℕ, zero, suc, ◌≤◌, ◌<◌, ◌≡◌, refl, sym, ap, ◌∙◌, ◌⊎◌, inl, inr, [], ◌∷◌, ◌++◌, some, true, false,
  arith, le→leb, Bool-cases,
}
use clientprefs_redis.Base.Fault.{◌>>=◌}
use clientprefs_redis.Sdk.{Sdk, Server, GamePlayer}
use clientprefs_redis.State.{World, Main}
use clientprefs_redis.Clients.{
  late_round, late_rounds, authorized, select_op, attempt_reconnection, on_client_authorized,
}
use clientprefs_redis.Clients.Missed.{
  is_human, is_missed, select_of, Caught, marked, NoneAbove, none_marked, none_left, Caught-take,
  not_missed_below, Caught-skip, Caught-zero, NoneAbove-all,
}

le_split : (k n : ℕ) → k ≤ suc n → (k ≤ n) ⊎ (k ≡ suc n)
le_split k n h = grind arith

module _ ⦃sdk : Sdk⦄ (server : Server) (fits : server.max_clients ≤ sdk.max_players) where
  round_skip :
      (f : ℕ) (w : World) (i : ℕ)
      → i ≤ server.max_clients
      → is_missed server w i ≡ false
      → late_round (authorized (suc f) server) server i w ≡ some (tt, w)
  unfolding late_round authorized
  round_skip f w i h e = ground (arith, le→leb i sdk.max_players)

  round_missed :
      (f : ℕ) (w v : World) (i : ℕ)
      → i ≤ server.max_clients
      → is_missed server w i ≡ true
      → late_rounds (authorized f server) server server.max_clients (marked w i) ≡ some (tt, v)
      → late_round (authorized (suc f) server) server i w
        ≡ some (tt, record v { query_queue = v.query_queue ++ select_of (server.player i) })
  unfolding late_round authorized marked
  round_missed f w v i h e r = ground (arith, le→leb i sdk.max_players)

  rounds_step :
      (authorize : ℕ → Main Unit) (n : ℕ) (w v : World)
      → late_round authorize server (suc n) w ≡ some (tt, v)
      → late_rounds authorize server (suc n) w ≡ late_rounds authorize server n v
  unfolding late_rounds
  rounds_step authorize n w v h = rw (h, ◌>>=◌)

  -- The rounds above `k` do nothing if no client above `k` is missed.
  rounds_skip :
      (f k n : ℕ) (w : World)
      → k ≤ n
      → n ≤ server.max_clients
      → NoneAbove server k w
      → late_rounds (authorized (suc f) server) server n w
        ≡ late_rounds (authorized (suc f) server) server k w
  unfolding late_rounds
  rounds_skip f zero zero w h m none_above = refl
  rounds_skip f (suc k) zero w h m none_above = absurd (omega arith)
  rounds_skip f k (suc n) w h m none_above = elim (le_split k n h) [
    | inl below ↦
        rounds_step _ n w w (round_skip f w (suc n) m (none_above (suc n) (omega arith) m))
        ∙ rounds_skip f k n w below (omega arith) none_above
    | inr here ↦ ap (λ n. late_rounds (authorized (suc f) server) server n w) (sym here)
  ]

  take_Caught :
      (k f : ℕ) (w v : World)
      → k < f
      → suc k ≤ server.max_clients
      → NoneAbove server (suc k) w
      → is_missed server w (suc k) ≡ true
      → late_rounds (authorized f server) server k (marked w (suc k)) ≡ some (tt, v)
      → Caught server k (marked w (suc k)) v
      → (u : World) × (late_rounds (authorized (suc f) server) server (suc k) w ≡ some (tt, u))
        × Caught server (suc k) w u
  unfolding late_rounds
  take_Caught k zero w v h m none_above missed ran c = absurd (omega arith)
  take_Caught k (suc f) w v h m none_above missed ran c =
      let others = none_marked server k w none_above in
      let inner =
        rounds_skip f k server.max_clients (marked w (suc k)) (omega arith) (omega arith) others
        ∙ ran in
      let left = none_left server k (marked w (suc k)) v c others in
      let u : World = record v {
        query_queue = v.query_queue ++ select_of (server.player (suc k));
      } in
      (
        u,
        rounds_step _ k w u (round_missed (suc f) w v (suc k) m missed inner)
            ∙ rounds_skip (suc f) zero k u (omega arith) (omega arith) left,
        Caught-take server k w v missed c,
      )

  -- The rounds from `k` down, when no client above `k` is missed, catch the clients up to `k`.
  rounds_Caught :
      (k f : ℕ) (w : World)
      → k < f
      → k ≤ server.max_clients
      → NoneAbove server k w
      → (v : World) × (late_rounds (authorized f server) server k w ≡ some (tt, v))
        × Caught server k w v
  unfolding late_rounds
  rounds_Caught zero f w h m none_above = (w, refl, Caught-zero server w)
  rounds_Caught (suc k) zero w h m none_above = absurd (omega arith)
  rounds_Caught (suc k) (suc f) w h m none_above = elim (Bool-cases (is_missed server w (suc k))) [
    | inl missed ↦
        let (v, ran, c) =
          rounds_Caught k f (marked w (suc k)) (omega arith) (omega arith)
            (none_marked server k w none_above) in
        take_Caught k f w v (omega arith) m none_above missed ran c
    | inr none_here ↦
        let (v, ran, c) =
          rounds_Caught k (suc f) w (omega arith) (omega arith)
            (not_missed_below server k w none_here none_above) in
        (
          v,
          rounds_step _ k w w (round_skip f w (suc k) m none_here) ∙ ran,
          Caught-skip server k w v none_here c,
        )
  ]

  -- AttemptReconnection returns, however deep it calls itself through OnClientAuthorized. Then each
  -- client that was not pending or loaded and whose player is authorized and no bot is connected and
  -- pending and has one query queued for its values, in the order of the clients; all else is as it
  -- was. The clients must have their places in the arrays.
  pub attempt_reconnection-Caught :
      (w : World)
      → (v : World) × (attempt_reconnection server w ≡ some (tt, v))
        × Caught server server.max_clients w v
  unfolding attempt_reconnection
  attempt_reconnection-Caught w =
      rounds_Caught server.max_clients (suc server.max_clients) w (omega arith) (omega arith)
        (NoneAbove-all server w)

  -- AttemptReconnection catches the missed clients, and a second one changes nothing.
  pub attempt_reconnection-settles :
      (w : World)
      → (v : World) × (attempt_reconnection server w ≡ some (tt, v))
        × (attempt_reconnection server v ≡ some (tt, v))
        × Caught server server.max_clients w v
  unfolding attempt_reconnection late_rounds
  attempt_reconnection-settles w =
      let (v, ran, c) = attempt_reconnection-Caught w in
      (
        v,
        ran,
        rounds_skip server.max_clients zero server.max_clients v (omega arith) (omega arith)
            (none_left server server.max_clients w v c (NoneAbove-all server w)),
        c,
      )

  -- A second AttemptReconnection changes nothing: it finds no client that is missed.
  pub attempt_reconnection_idem :
      (w : World)
      → (v : World) × (attempt_reconnection server w ≡ some (tt, v))
        × (attempt_reconnection server v ≡ some (tt, v))
  attempt_reconnection_idem w =
      let (v, ran, again, c) = attempt_reconnection-settles w in (v, ran, again)

  -- OnClientAuthorized of a bot, or of a client with no player, does nothing.
  pub on_client_authorized_bot :
      (w : World) (client : ℕ)
      → is_human (server.player client) ≡ false
      → on_client_authorized server client w ≡ some (tt, w)
  unfolding on_client_authorized authorized
  on_client_authorized_bot w client e = ground arith

  -- OnClientAuthorized of another player returns too: the client is connected and pending, the
  -- clients missed so far are caught, and the last query in the queue asks for its own values.
  pub on_client_authorized-Caught :
      (w : World) (client : ℕ) (player : GamePlayer)
      → client ≤ sdk.max_players
      → server.player client ≡ some player
      → player.fake ≡ false
      → (v : World) × (on_client_authorized server client w
          ≡ some (tt, record v { query_queue = v.query_queue ++ select_op player ∷ [] }))
        × Caught server server.max_clients (marked w client) v
  unfolding on_client_authorized authorized marked
  on_client_authorized-Caught w client player h at human =
      let (v, ran, c) =
        rounds_Caught server.max_clients (suc server.max_clients) (marked w client) (omega arith)
          (omega arith) (NoneAbove-all server (marked w client)) in
      (v, ground (arith, le→leb client sdk.max_players, ran), c)
