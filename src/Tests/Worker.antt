-- ===== src/Tests/Worker.antt =====
-- A query thread whose first Connect fails.
use clientprefs_redis.Base.{
  ℕ, ◌≡◌, ◌+◌, ◌≤◌, ◌⊎◌, List, [], ◌∷◌, none, some, Bool, true, false, not, ◌==◌, arith,
}
use clientprefs_redis.Extension.Frame.{ask_op}
use clientprefs_redis.Extension.Worker.{
  QueryThread, QueryRound, all_return, new_thread, query_thread,
}
use clientprefs_redis.Extension.Worker.Runs.{HasRun, query_thread-HasRun}

abbrev connects : ℕ → Bool
connects n = not (n == 0)

-- AUTH would not be answered at the first.
abbrev prepares : ℕ → Bool
prepares n = not (n == 0)

soon : (n : ℕ) → (k : ℕ) × (k ≤ 1) × (connects (n + k) ≡ true)
soon n = (1, omega arith, ground arith)

-- The connection is lost before the second query.
abbrev rounds : List QueryRound
rounds =
    record { up = true; returned = true; op = ask_op 1 }
    ∷ record { up = false; returned = true; op = ask_op 2 }
    ∷ []

query_thread-HasRun_example :
    ((all_return rounds ≡ true)
      × ((t : QueryThread) × (query_thread connects prepares 2 rounds new_thread ≡ some (tt, t))
          × HasRun connects prepares t (ask_op 1 ∷ ask_op 2 ∷ [])
          × (t.client ≡ none)
          × (t.alive ≡ [])
          × (t.is_ended ≡ true)))
    ⊎ ((all_return rounds ≡ false) × (query_thread connects prepares 2 rounds new_thread ≡ none))
query_thread-HasRun_example = query_thread-HasRun connects prepares 1 soon (λ n e. e) rounds
