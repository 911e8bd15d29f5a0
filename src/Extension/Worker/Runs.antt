-- ===== src/Extension/Worker/Runs.antt =====
-- A query thread gets through its rounds (SDK_OnLoad of extension.cpp).
use clientprefs_redis.Base.{
  ℕ, zero, suc, ◌+◌, ◌≤◌, ◌<◌, ◌≡◌, refl, ap, sym, ◌∙◌, List, [], ◌∷◌, ◌++◌, append_assoc,
  append-nil, map, map-append, none, some, Bool, true, false, Bool-cases, inl, inr, ◌⊎◌, All,
  All-snoc, arith,
}
use clientprefs_redis.Base.Fault.{◌>>=◌, ◌>>◌}
use clientprefs_redis.State.{QueryOp}
use clientprefs_redis.Extension.Worker.{
  QueryThread, new_thread, delete_client, run_query, connect_rounds, connect_db_rounds, reconnect,
  query_rounds, QueryRound, all_return, query_thread,
}

delete_client_lem :
    (t : QueryThread) (n : ℕ)
    → t.client ≡ some n
    → t.alive ≡ n ∷ []
    → delete_client t ≡ some (tt, record t { client = none; alive = [] })
unfolding delete_client
delete_client_lem t n held alive = ground (arith, held, alive)

module _ (connects prepares : ℕ → Bool) where
  -- The thread has one client, whose Connect succeeded.
  abbrev pub HasClient : QueryThread → ℕ → Type 0
  HasClient t n = (t.client ≡ some n) × (t.alive ≡ n ∷ []) × (connects n ≡ true)

  -- connectDb returns with its client.
  connect_db_rounds-HasClient :
      (fuel : ℕ) (t u : QueryThread) (n : ℕ)
      → connect_rounds connects prepares fuel false t ≡ some (tt, u)
      → HasClient u n
      → prepares n ≡ true
      → connect_db_rounds connects prepares fuel false t ≡ some (tt, u)
  unfolding connect_db_rounds
  connect_db_rounds-HasClient fuel t u n ran (held, alive, accepted) ready =
      rw (◌>>=◌, ◌>>◌, ran) (ground (arith, held, alive, ready))

  -- After an attempt that failed the thread is as before, but for the number of attempts.
  abbrev retried : QueryThread → QueryThread
  retried t = record t { client = none; alive = []; attempts = suc t.attempts }

  abbrev connected_to : QueryThread → QueryThread
  connected_to t = record t {
    client = some t.attempts;
    alive = t.attempts ∷ [];
    attempts = suc t.attempts;
  }

  module _ (fuel : ℕ) (t : QueryThread) (away : t.client ≡ none) (no_client : t.alive ≡ []) where
    connect_hit :
        connects t.attempts ≡ true
        → connect_rounds connects prepares (suc fuel) false t ≡ some (tt, connected_to t)
    unfolding connect_rounds
    connect_hit hit = ground (arith, hit)

    connect_miss :
        connects t.attempts ≡ false
        → connect_rounds connects prepares (suc fuel) false t
          ≡ connect_rounds connects prepares fuel false (retried t)
    unfolding connect_rounds
    connect_miss miss = ground (arith, miss)

  -- The queries that the thread ran, and that each was given a client whose Connect succeeded.
  abbrev pub HasRun : QueryThread → List QueryOp → Type 0
  HasRun t ops =
      (map (λ (r : QueryOp × ℕ). r.0) t.ran ≡ ops) × All (λ r. connects (r.1) ≡ true) t.ran

  connect_rounds-HasClient :
      (k fuel : ℕ) (t : QueryThread)
      → t.client ≡ none
      → t.alive ≡ []
      → k < fuel
      → connects (t.attempts + k) ≡ true
      → (u : QueryThread) × (n : ℕ) × (connect_rounds connects prepares fuel false t ≡ some (tt, u))
        × HasClient u n
        × (u.ran ≡ t.ran)
  connect_rounds-HasClient k zero t away no_client lt at = absurd (omega arith)
  connect_rounds-HasClient zero (suc fuel) t away no_client lt at =
      let hit = ap connects (omega arith) ∙ at in
      (connected_to t, t.attempts, connect_hit fuel t away no_client hit, (refl, refl, hit), refl)
  connect_rounds-HasClient (suc k) (suc fuel) t away no_client lt at =
      elim (Bool-cases (connects t.attempts)) [
        | inl hit ↦ (
          connected_to t,
          t.attempts,
          connect_hit fuel t away no_client hit,
          (refl, refl, hit),
          refl,
        )
        | inr miss ↦
            let (u, n, ran, has, same) =
              connect_rounds-HasClient k fuel (retried t) refl refl (omega arith)
                (ap connects (omega arith) ∙ at) in
            (u, n, connect_miss fuel t away no_client miss ∙ ran, has, same)
      ]

  module _ (bound : ℕ) (succeeds : (n : ℕ) → (k : ℕ) × (k ≤ bound) × (connects (n + k) ≡ true))
      (prepared : (n : ℕ) → connects n ≡ true → prepares n ≡ true) where
    connects_again :
        (t : QueryThread)
        → t.client ≡ none
        → t.alive ≡ []
        → (u : QueryThread) × (n : ℕ) × (connect_db_rounds connects prepares (suc bound) false t
            ≡ some (tt, u))
          × HasClient u n
          × (u.ran ≡ t.ran)
    connects_again t away no_client =
        let (k, le, at) = succeeds t.attempts in
        let (u, n, ran, has, same) =
          connect_rounds-HasClient k (suc bound) t away no_client (omega arith) at in
        let (held, alive, accepted) = has in
        (
          u,
          n,
          connect_db_rounds-HasClient (suc bound) t u n ran has (prepared n accepted),
          has,
          same,
        )

    reconnect-HasClient :
        (up : Bool) (t : QueryThread) (n : ℕ)
        → HasClient t n
        → (u : QueryThread) × (m : ℕ) × (reconnect connects prepares (suc bound) up t
            ≡ some (tt, u))
          × HasClient u m
          × (u.ran ≡ t.ran)
    unfolding reconnect
    reconnect-HasClient true t n (held, alive, accepted) =
        (t, n, ground arith, (held, alive, accepted), refl)
    reconnect-HasClient false t n (held, alive, accepted) =
        let (u, m, ran, has, same) =
          connects_again (record t { client = none; alive = [] }) refl refl in
        (u, m, ground (arith, ran), has, same)

    run_query-HasRun :
        (returned : Bool) (op : QueryOp) (t : QueryThread) (n : ℕ) (ops : List QueryOp)
        → returned ≡ true
        → HasClient t n
        → HasRun t ops
        → let u : QueryThread = record t { ran = t.ran ++ (op, n) ∷ [] } in
          (run_query returned op t ≡ some (tt, u)) × HasRun u (ops ++ op ∷ [])
    unfolding run_query
    run_query-HasRun returned op t n ops did (held, alive, accepted) (ran, good) = (
      ground (arith, held, alive, did),
      (
        map-append (λ (r : QueryOp × ℕ). r.0) t.ran ((op, n) ∷ []) ∙ ap (λ xs. xs ++ op ∷ []) ran,
        All-snoc (λ (r : QueryOp × ℕ). connects (r.1) ≡ true) t.ran (op, n) good accepted,
      ),
    )

    query_rounds-HasRun :
        (rounds : List QueryRound) (t : QueryThread) (n : ℕ) (ops : List QueryOp)
        → all_return rounds ≡ true
        → HasClient t n
        → HasRun t ops
        → (u : QueryThread) × (m : ℕ) × (query_rounds connects prepares (suc bound) rounds t
            ≡ some (tt, u))
          × HasClient u m
          × HasRun u (ops ++ map (λ (r : QueryRound). r.op) rounds)
          × (u.is_ended ≡ true)
    unfolding query_rounds all_return
    query_rounds-HasRun [] t n ops all has (ran, good) =
        (record t { is_ended = true }, n, refl, has, (ran ∙ sym (append-nil ops), good), refl)
    query_rounds-HasRun (r ∷ rounds) t n ops all has (ran, good) =
        let here : r.returned ≡ true = ground (arith, all) in
        let others : all_return rounds ≡ true = ground (arith, all) in
        let op = r.op in
        let (u, m, connected, has1, same) = reconnect-HasClient r.up t n has in
        let (did, ran1) =
          run_query-HasRun r.returned op u m ops here has1 (rw same ran, rw same good) in
        let (v, k, rest, has2, (ran2, good2), ended) =
          query_rounds-HasRun rounds (record u { ran = u.ran ++ (op, m) ∷ [] }) m (ops ++ op ∷ [])
            others has1 ran1 in
        (
          v,
          k,
          rw (◌>>=◌, ◌>>◌, connected, did) rest,
          has2,
          (ran2 ∙ append_assoc ops (op ∷ []) (map (λ (r : QueryRound). r.op) rounds), good2),
          ended,
        )

    run_query_stuck :
        (returned : Bool) (op : QueryOp) (t : QueryThread) (n : ℕ)
        → returned ≡ false
        → HasClient t n
        → run_query returned op t ≡ none
    unfolding run_query
    run_query_stuck returned op t n stuck (held, alive, accepted) =
        ground (arith, held, alive, stuck)

    -- A round whose RunThreadPart does not return is the last.
    query_rounds_stuck :
        (rounds : List QueryRound) (t : QueryThread) (n : ℕ) (ops : List QueryOp)
        → all_return rounds ≡ false
        → HasClient t n
        → HasRun t ops
        → query_rounds connects prepares (suc bound) rounds t ≡ none
    unfolding query_rounds all_return
    query_rounds_stuck [] t n ops all has ran = cc
    query_rounds_stuck (r ∷ rounds) t n ops all has (ran, good) =
        let op = r.op in
        let (u, m, connected, has1, same) = reconnect-HasClient r.up t n has in
        elim (Bool-cases r.returned) [
          | inl here ↦
              let others : all_return rounds ≡ false = ground (arith, all, here) in
              let (did, ran1) =
                run_query-HasRun r.returned op u m ops here has1 (rw same ran, rw same good) in
              let rest =
                query_rounds_stuck rounds (record u { ran = u.ran ++ (op, m) ∷ [] }) m
                  (ops ++ op ∷ []) others has1 ran1 in
              rw (◌>>=◌, ◌>>◌, connected, did) rest
          | inr stuck ↦ rw (◌>>=◌, ◌>>◌, connected, run_query_stuck r.returned op u m stuck has1)
        ]

    -- If among each `bound` + 1 attempts in a row one Connect succeeds, and what connectDb does behind its loop
    -- returns with each client that is connected, then a query thread gets through its rounds,
    -- whatever IsConnected answers, exactly if RunThreadPart returns for each of its queries. Where one does
    -- not, the thread gets no further. Else it ends after the null pointer: it makes at most `bound` + 1 attempts
    -- each time that it connects, and uses and deletes no client that was deleted. It runs each query that it was
    -- given, once, in the order of the queue, with a client whose Connect had succeeded, and leaves no client
    -- behind.
    pub query_thread-HasRun :
        (rounds : List QueryRound)
        → ((all_return rounds ≡ true)
            × ((t : QueryThread) × (query_thread connects prepares (suc bound) rounds new_thread
                  ≡ some (tt, t))
                × HasRun t (map (λ (r : QueryRound). r.op) rounds)
                × (t.client ≡ none)
                × (t.alive ≡ [])
                × (t.is_ended ≡ true)))
          ⊎ ((all_return rounds ≡ false)
              × (query_thread connects prepares (suc bound) rounds new_thread ≡ none))
    unfolding query_thread new_thread
    query_thread-HasRun rounds =
        let (u, n, connected, has, same) = connects_again new_thread refl refl in
        let started : HasRun u [] = (rw same refl, rw same tt) in
        elim (Bool-cases (all_return rounds)) [
          | inl all ↦
              let (t, m, rest, (held, alive, accepted), ran, ended) =
                query_rounds-HasRun rounds u n [] all has started in
              inl (
                all,
                (
                  record t { client = none; alive = [] },
                  rw (◌>>=◌, ◌>>◌, connected)
                      (rw (◌>>=◌, ◌>>◌, rest) (delete_client_lem t m held alive)),
                  ran,
                  refl,
                  refl,
                  ended,
                ),
              )
          | inr stuck ↦ inr (
            stuck,
            rw (◌>>=◌, ◌>>◌, connected)
                (rw (◌>>=◌, ◌>>◌, query_rounds_stuck rounds u n [] stuck has started) refl),
          )
        ]
