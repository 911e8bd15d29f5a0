-- ===== src/Extension/Thread.antt =====
-- A turn of a query thread of SDK_OnLoad in extension.cpp, with GetQuery and PutResult of TQueue.h.
use clientprefs_redis.Base.{ℕ, ◌≡◌, ap, ◌∙◌, refl, List, [], ◌∷◌, ◌++◌, none, some, true, pos, lt_ℤ}
use clientprefs_redis.Base.Fault.{update}
use clientprefs_redis.Sdk.{Sdk, Server}
use clientprefs_redis.State.{Cookie, QueryOp, World}
use clientprefs_redis.Query.Run.{Run, Backend, returns, ◌>>=◌, pure}
use clientprefs_redis.Text.Decimal.{to_string}
use clientprefs_redis.Extension.Frame.{run_frame, run_frame_id, ask_op, id_op}
use clientprefs_redis.Query.Execute.Ids.{IsReached, insert_cookie_stable, run_thread_part_id}
use clientprefs_redis.Query.Keys.{id_key}
use clientprefs_redis.Query.Execute.{hash_id, run_thread_part}

module _ {Db : Type 0} (b : Backend Db) where
  unfoldable pub turn : List QueryOp → World → Run Db World
  turn [] w = pure w
  turn (op ∷ ops) w = do
    op' ← run_thread_part b w.cookies w.datums op
    pure (record w { query_queue = ops; result_queue = w.result_queue ++ op' ∷ [] })

  pub turn_id :
      (w : World) (ops : List QueryOp) (op op' : QueryOp) (db db' : Db)
      → run_thread_part b w.cookies w.datums op db ≡ returns (op', db')
      → turn (op ∷ ops) w db
        ≡ returns (record w { query_queue = ops; result_queue = w.result_queue ++ op' ∷ [] }, db')
  unfolding turn
  turn_id w ops op op' db db' ran = rw (◌>>=◌, ran)

  -- GetQuery, RunThreadPart and PutResult where the client is connected; with no query it waits.
  unfoldable pub thread_turn : World → Run Db World
  unfolding turn
  thread_turn w = turn w.query_queue w

-- The query for the id of a cookie that is alive and that the server does not know, first in the
-- queue of the threads, with no result waiting: a thread stores the cookie's id on the server and
-- puts the query behind the results, and a frame that takes it gives the cookie its id, the hash
-- of its name without the sign bit, provided that is not 0. No other cookie and no value changes,
-- and both queues are left without the query.
pub run_frame-thread_turn :
    {Db : Type 0} (b : Backend Db) (r : IsReached b) ⦃sdk : Sdk⦄ (server : Server) (w : World)
    (ops : List QueryOp) (p : ℕ) (k : Cookie) (db : Db)
    → w.query_queue ≡ ask_op p ∷ ops
    → w.result_queue ≡ []
    → w.cookies p ≡ some k
    → r.text_at db (id_key k.name) ≡ none
    → lt_ℤ (pos 0) (hash_id b k.name) ≡ true
    → (w1 : World) × (db1 : Db) × (thread_turn b w db ≡ returns (w1, db1))
      × (r.text_at db1 (id_key k.name) ≡ some (to_string (hash_id b k.name)))
      × (run_frame server w1
          ≡ some (
            tt,
            record w {
              query_queue = ops;
              result_queue = [];
              cookies = update w.cookies p (some (record k { dbid = hash_id b k.name }));
            },
          ))
unfolding thread_turn
run_frame-thread_turn b r server w ops p k db queue results alive unknown positive =
    let (db1, db2, ran, stored, s2, s3, s4, s5) = insert_cookie_stable b r k k db refl unknown in
    let id = hash_id b k.name in
    let turned = run_thread_part_id b w.cookies w.datums (ask_op p) p k id db db1 alive ran in
    let w1 : World = record w {
      query_queue = ops;
      result_queue = w.result_queue ++ id_op p id ∷ [];
    } in
    let there : w1.result_queue ≡ id_op p id ∷ [] = ap (λ q. q ++ id_op p id ∷ []) results in
    (
      w1,
      db1,
      ap (λ q. turn b q w db) queue ∙ turn_id b w ops (ask_op p) (id_op p id) db db1 turned,
      stored,
      run_frame_id server w1 [] p k id there alive positive,
    )
