-- ===== src/Extension/Frame.antt =====
-- RunThinkPart of query.cpp, RunFrame of extension.cpp, and the two queues of TQueue.h, of which a
-- frame takes from the second.
use clientprefs_redis.Base.{ℕ, ℤ, pos, lt_ℤ, ◌≡◌, ap, ◌∙◌, List, [], ◌∷◌, some, true, arith}
use clientprefs_redis.Base.Fault.{◌>>=◌, ◌>>◌, pure, gets, modify, deref, update}
use clientprefs_redis.Sdk.{Sdk, Server}
use clientprefs_redis.State.{
  Cookie, QueryOp, QueryType, World, Main, insert_cookie, select_data, insert_data, select_id,
  connect, cookie_op,
}
use clientprefs_redis.CookieManager.{insert_cookie_callback, select_id_callback}
use clientprefs_redis.Connect.{client_connect_callback}
use clientprefs_redis.Disconnect.{destroy}

-- The query that CreateCookie queues for an id, and as it comes back.
abbrev pub ask_op : ℕ → QueryOp
ask_op p =
    let op = cookie_op insert_cookie p in
    record op { params = record op.params { cookie = some p } }

abbrev pub id_op : ℕ → ℤ → QueryOp
id_op p id = let op = ask_op p in record op { insert_id = id }

module _ ⦃sdk : Sdk⦄ (server : Server) where
  unfoldable pub think : QueryType → QueryOp → Main Unit
  think insert_cookie op = do p ← λ w. deref op.cookie w; insert_cookie_callback p op.insert_id
  think select_data op = client_connect_callback server op.serial op.results
  think select_id op = do p ← λ w. deref op.cookie w; select_id_callback p op.insert_id
  think insert_data op = pure tt
  think connect op = pure tt

  unfoldable pub run_think_part : QueryOp → Main Unit
  unfolding think
  run_think_part op = think op.type op

  unfoldable pub frame_of : List QueryOp → Main Unit
  frame_of [] = pure tt
  frame_of (op ∷ ops) = do
    modify (λ w. record w { result_queue = ops })
    run_think_part op
    destroy op

  -- GetResult takes the first result, if there is one.
  unfoldable pub run_frame : Main Unit
  unfolding frame_of
  run_frame = do ops ← gets (λ w. w.result_queue); frame_of ops

module _ ⦃sdk : Sdk⦄ (server : Server) where
  frame_of_id :
      (w : World) (ops : List QueryOp) (p : ℕ) (k : Cookie) (id : ℤ)
      → w.cookies p ≡ some k
      → lt_ℤ (pos 0) id ≡ true
      → frame_of server (id_op p id ∷ ops) w
        ≡ some (
          tt,
          record w {
            result_queue = ops;
            cookies = update w.cookies p (some (record k { dbid = id }));
          },
        )
  unfolding frame_of run_think_part think insert_cookie_callback select_id_callback
  frame_of_id w ops p k id alive positive = ground arith

  -- A frame that takes the result of a query for a cookie's id gives the cookie that id, if it is
  -- positive, and changes nothing else.
  pub run_frame_id :
      (w : World) (ops : List QueryOp) (p : ℕ) (k : Cookie) (id : ℤ)
      → w.result_queue ≡ id_op p id ∷ ops
      → w.cookies p ≡ some k
      → lt_ℤ (pos 0) id ≡ true
      → run_frame server w
        ≡ some (
          tt,
          record w {
            result_queue = ops;
            cookies = update w.cookies p (some (record k { dbid = id }));
          },
        )
  unfolding run_frame
  run_frame_id w ops p k id queue alive positive =
      ap (λ q. frame_of server q w) queue ∙ frame_of_id w ops p k id alive positive
