-- ===== src/System/Drain.antt =====
-- What is left in the queue reaches the server: a thread and the frames in turn.
use clientprefs_redis.Base.{
  ℕ, zero, suc, ◌≤◌, ◌≡◌, ◌≢◌, refl, ap, sym, ◌∙◌, List, [], ◌∷◌, ◌++◌, Option, none, some, false,
  ◌==◌, arith, All, length,
}
use mathlib.Core.Path.{subst}
use clientprefs_redis.Base.Fault.{update}
use clientprefs_redis.Text.{Text}
use clientprefs_redis.Sdk.{Sdk, Server}
use clientprefs_redis.State.{CookieData, QueryOp, World, insert_data}
use clientprefs_redis.Extension.Frame.{run_frame}
use clientprefs_redis.Extension.Thread.{thread_turn, turn, turn_id}
use clientprefs_redis.Ownership.{Owned, IsSound, SoundType, datum_count, is_at}
use clientprefs_redis.Ownership.Requests.{some_of}
use clientprefs_redis.Ownership.Frames.{think_saved}
use clientprefs_redis.Query.Run.{Backend, Outcome, returns, throws, faults}
use clientprefs_redis.Query.Execute.Runs.{run_thread_part_save, saving}

-- The object that a pointer leads to.
abbrev pub object_at : (ℕ → Option CookieData) → Option ℕ → Option CookieData
object_at datums none = none
object_at datums (some d) = datums d

object_at-update :
    (datums : ℕ → Option CookieData) (d : ℕ) (o : Option ℕ)
    → is_at d o ≡ 0
    → object_at (update datums d none) o ≡ object_at datums o
object_at-update datums d none h = refl
object_at-update datums d (some e) h = ground arith

held_nowhere :
    (own : ℕ → ℕ) (w : World) (d : ℕ)
    → w.query_queue ≡ []
    → w.result_queue ≡ []
    → w.running ≡ []
    → Owned own w
    → own d ≢ 1
held_nowhere own w d queue results idle o e = ground (
  arith,
  o.queries d,
  ap (datum_count d) queue,
  ap (datum_count d) results,
  ap (datum_count d) idle,
)

-- `v` is `w` after the queries' values are sent and deleted.
pub record Drained (own : ℕ → ℕ) (w v : World) : Type 0 where
  pub no_query : v.query_queue ≡ []
  pub no_result : v.result_queue ≡ []
  pub freed : (d : ℕ) → own d ≡ 1 → v.datums d ≡ none
  pub others : (d : ℕ) → own d ≢ 1 → v.datums d ≡ w.datums d
  pub same_cookies : v.cookies ≡ w.cookies

empty-Drained :
    (own : ℕ → ℕ) (w : World)
    → w.query_queue ≡ []
    → w.result_queue ≡ []
    → w.running ≡ []
    → Owned own w
    → Drained own w w
empty-Drained own w queue results idle o = record {
  no_query = queue;
  no_result = results;
  freed = λ d q. absurd (held_nowhere own w d queue results idle o q);
  others = λ d q. refl;
  same_cookies = refl;
}

module _ {Db : Type 0} (b : Backend Db) where
  abbrev pub saving_of : QueryOp → Option CookieData → List Text
  saving_of op none = []
  saving_of op (some x) = saving b op x

  -- The command for the value that a query holds.
  abbrev pub command_of : (ℕ → Option CookieData) → QueryOp → List Text
  command_of datums op = saving_of op (object_at datums op.params.datum)

  -- The server after the values of these queries were sent, in their order.
  abbrev pub sent_all : (ℕ → Option CookieData) → List QueryOp → Db → Db
  sent_all datums [] db = db
  sent_all datums (op ∷ ops) db = sent_all datums ops (b.command db (command_of datums op)).1

  sent_all-update :
      (datums : ℕ → Option CookieData) (d : ℕ) (ops : List QueryOp) (db : Db)
      → datum_count d ops ≡ 0
      → sent_all (update datums d none) ops db ≡ sent_all datums ops db
  sent_all-update datums d [] db h = refl
  sent_all-update datums d (op ∷ ops) db h =
      sent_all-update datums d ops _ (omega (arith, h))
      ∙ ap (λ o. sent_all datums ops (b.command db (saving_of op o)).1)
          (object_at-update datums d op.params.datum (omega (arith, h)))

  command_held :
      (datums : ℕ → Option CookieData) (op : QueryOp) (d : ℕ) (x : CookieData)
      → op.params.datum ≡ some d
      → datums d ≡ some x
      → command_of datums op ≡ saving b op x
  command_held datums op d x holds found =
      ap (λ o. saving_of op (object_at datums o)) holds ∙ ap (saving_of op) found

  module _ ⦃sdk : Sdk⦄ (server : Server) where
    abbrev pub framed : Db → Option (Unit {0} × World) → Option (World × Db)
    framed db none = none
    framed db (some (t, w)) = some (w, db)

    abbrev pub turned : Outcome (World × Db) → Option (World × Db)
    turned (returns (w, db)) = framed db (run_frame server w)
    turned throws = none
    turned faults = none

    abbrev pub next : (World → Db → Option (World × Db)) → Option (World × Db) → Option (World × Db)
    next f none = none
    next f (some (w, db)) = f w db

    -- A thread's turn and a frame, `n` times.
    unfoldable pub rounds : ℕ → World → Db → Option (World × Db)
    rounds zero w db = some (w, db)
    rounds (suc n) w db = next (rounds n) (turned (thread_turn b w db))

    -- One turn and one frame where the first query saves a value.
    one_round :
        (w : World) (db : Db) (op : QueryOp) (ops : List QueryOp) (d : ℕ) (x : CookieData)
        → w.query_queue ≡ op ∷ ops
        → w.result_queue ≡ []
        → op.type ≡ insert_data
        → op.params.datum ≡ some d
        → w.datums d ≡ some x
        → let w1 : World = record w { query_queue = ops; result_queue = op ∷ [] } in
          (thread_turn b w db ≡ returns (w1, (b.command db (saving b op x)).1))
          × (run_frame server w1
              ≡ some (
                tt,
                record w { query_queue = ops; result_queue = []; datums = update w.datums d none },
              ))
    unfolding thread_turn run_frame
    one_round w db op ops d x queue results type holds found =
        let w1 : World = record w { query_queue = ops; result_queue = op ∷ [] } in
        let ran = run_thread_part_save b w.cookies w.datums op d x db type holds found in
        let turned = turn_id b w ops op op db (b.command db (saving b op x)).1 ran in
        (
          ap (λ q. turn b q w db) queue
              ∙ turned
              ∙ ap
                  (λ (q : List QueryOp). returns (
                    record w { query_queue = ops; result_queue = q ++ op ∷ [] },
                    (b.command db (saving b op x)).1,
                  ))
                  results,
          think_saved server w1 op [] d x type holds found,
        )

    -- The world that a round leaves is owned.
    round-Owned :
        (own : ℕ → ℕ) (w : World) (op : QueryOp) (ops : List QueryOp) (d : ℕ)
        → w.query_queue ≡ op ∷ ops
        → w.result_queue ≡ []
        → op.params.datum ≡ some d
        → Owned own w
        → Owned
            (update own d 0)
            (record w { query_queue = ops; result_queue = []; datums = update w.datums d none })
    round-Owned own w op ops d queue results holds o =
        let his : own d ≡ 1 =
          ground (arith, o.queries d, ap (datum_count d) queue, ap (is_at d) holds) in
        record {
          fresh_cookies = o.fresh_cookies;
          fresh_datums = λ e m. ground (arith, o.fresh_datums e);
          kept = λ e. ground (arith, o.kept e);
          parents = λ e m.
              let m' : 2 ≤ own e = ground arith in
              let old : (d == e) ≡ false = ground arith in rw old (o.parents e m');
          slots = λ q c e i at held. ground (arith, o.slots q c e i at held);
          lists = λ c e. ground (arith, o.lists c e);
          queries = λ e. ground (
            arith,
            o.queries e,
            ap (datum_count e) queue,
            ap (datum_count e) results,
            ap (is_at e) holds,
          );
          waiting = (subst (All (IsSound w)) queue o.waiting).1;
          taken = o.taken;
          finished = tt;
          table = o.table;
          listed = o.listed;
          once = λ q. ground (arith, o.once q);
          uncached = o.uncached;
        }

    rounds_step :
        (n : ℕ) (w w1 w2 : World) (db db1 : Db)
        → thread_turn b w db ≡ returns (w1, db1)
        → run_frame server w1 ≡ some (tt, w2)
        → rounds (suc n) w db ≡ rounds n w2 db1
    unfolding rounds
    rounds_step n w w1 w2 db db1 turn frame =
        ap (λ o. next (rounds n) (turned o)) turn ∙ ap (λ o. next (rounds n) (framed db1 o)) frame

    -- Where nothing but values to save is queued and no query is on its way, a turn and a frame for each
    -- query end with empty queues: the value of each query was sent, in the order of the queue, and each value
    -- that the queries held is deleted, while no other value and no cookie changed.
    pub rounds-Drained :
        (ops : List QueryOp) (own : ℕ → ℕ) (w : World) (db : Db)
        → Owned own w
        → w.query_queue ≡ ops
        → w.result_queue ≡ []
        → w.running ≡ []
        → All (λ op. op.type ≡ insert_data) ops
        → (v : World) × (rounds (length ops) w db ≡ some (v, sent_all w.datums ops db))
          × Drained own w v
    unfolding rounds
    rounds-Drained [] own w db o queue results idle types =
        (w, refl, empty-Drained own w queue results idle o)
    rounds-Drained (op ∷ ops) own w db o queue results idle (type, types) =
        let sound = (subst (All (IsSound w)) queue o.waiting).0 in
        let (d, holds) = some_of op.params.datum (subst (λ t. SoundType w t op) type sound) in
        let his : own d ≡ 1 =
          ground (arith, o.queries d, ap (datum_count d) queue, ap (is_at d) holds) in
        let (x, found) = some_of (w.datums d) (ground (arith, o.kept d)) in
        let (turn, frame) = one_round w db op ops d x queue results type holds found in
        let w2 : World = record w {
          query_queue = ops;
          result_queue = [];
          datums = update w.datums d none;
        } in
        let (v, ran, dr) =
          rounds-Drained ops (update own d 0) w2 (b.command db (saving b op x)).1
            (round-Owned own w op ops d queue results holds o) refl refl idle types in
        let once : datum_count d ops ≡ 0 =
          ground (arith, o.queries d, ap (datum_count d) queue, ap (is_at d) holds) in
        let left = sent_all-update w.datums d ops (b.command db (saving b op x)).1 once in
        let first = command_held w.datums op d x holds found in
        (
          v,
          rounds_step (length ops) w _ w2 db _ turn frame
              ∙ ran
              ∙ ap (λ e. some (v, e)) left
              ∙ ap (λ cmd. some (v, sent_all w.datums ops (b.command db cmd).1)) (sym first),
          record {
            no_query = dr.no_query;
            no_result = dr.no_result;
            freed = λ e q. ground (arith, dr.freed e, dr.others e);
            others = λ e q. ground (arith, dr.others e);
            same_cookies = dr.same_cookies;
          },
        )
