-- ===== src/Ownership/Frames.antt =====
-- RunFrame, and the turns of the threads, keep the ownership; RunFrame faults nowhere.
use clientprefs_redis.Base.{
  ℕ, ◌≤◌, ◌≡◌, ◌⊎◌, refl, ap, ◌∙◌, inl, inr, List, [], ◌∷◌, ◌++◌, Option, none, some, true, false,
  ◌==◌, arith, All, Bool-cases, ℤ, pos, lt_ℤ,
}
use mathlib.Core.Path.{subst}
use clientprefs_redis.Base.Fault.{◌>>=◌, ◌>>◌, update}
use clientprefs_redis.Text.{clip}
use clientprefs_redis.Sdk.{Sdk, Server}
use clientprefs_redis.State.{
  Cookie, CookieData, QueryOp, QueryType, World, insert_cookie, select_data, insert_data, select_id,
  connect, cookie_op, max_name_length,
}
use clientprefs_redis.CookieManager.{insert_cookie_callback, select_id_callback}
use clientprefs_redis.Disconnect.{destroy}
use clientprefs_redis.Extension.Frame.{think, run_think_part, frame_of, run_frame}
use clientprefs_redis.Ownership.{Owned, IsSound, SoundType, datum_count, is_at, is_some, ptr_alive}
use clientprefs_redis.Ownership.Parts.{Owned-write_cookie, Owned-queue}
use clientprefs_redis.Ownership.Requests.{Ends, some_of}
use clientprefs_redis.Ownership.Loading.{client_connect_callback-Ends}

-- The pointer and the cookie that it leads to.
ptr_of :
    (w : World) (o : Option ℕ)
    → ptr_alive w o ≡ true
    → (p : ℕ) × (k : Cookie) × (o ≡ some p) × (w.cookies p ≡ some k)
ptr_of w none h = cc
ptr_of w (some p) h = let (k, alive) = some_of (w.cookies p) h in (p, k, refl, alive)

-- A result without a value is taken.
Owned-popped :
    (own : ℕ → ℕ) (w : World) (op : QueryOp) (ops : List QueryOp)
    → w.result_queue ≡ op ∷ ops
    → op.params.datum ≡ none
    → Owned own w
    → Owned own (record w { result_queue = ops })
Owned-popped own w op ops queue empty o = record {
  fresh_cookies = o.fresh_cookies;
  fresh_datums = o.fresh_datums;
  kept = o.kept;
  parents = o.parents;
  slots = o.slots;
  lists = o.lists;
  queries = λ d. ground (arith, o.queries d, ap (datum_count d) queue, ap (is_at d) empty);
  waiting = o.waiting;
  taken = o.taken;
  finished = (subst (All (IsSound w)) queue o.finished).1;
  table = o.table;
  listed = o.listed;
  once = λ q. ground (arith, o.once q);
  uncached = o.uncached;
}

-- A result with a value is taken, and the value is deleted.
pub Owned-freed :
    (own : ℕ → ℕ) (w : World) (op : QueryOp) (ops : List QueryOp) (d : ℕ)
    → w.result_queue ≡ op ∷ ops
    → op.params.datum ≡ some d
    → Owned own w
    → Owned (update own d 0) (record w { result_queue = ops; datums = update w.datums d none })
Owned-freed own w op ops d queue holds o =
    let his : own d ≡ 1 =
      ground (arith, o.queries d, ap (datum_count d) queue, ap (is_at d) holds) in
    record {
      fresh_cookies = o.fresh_cookies;
      fresh_datums = λ e m. ground (arith, o.fresh_datums e);
      kept = λ e. ground (arith, o.kept e);
      parents = λ e m.
          let m' : 2 ≤ own e = ground arith in
          let old : (d == e) ≡ false = ground arith in rw old (o.parents e m');
      slots = λ q c e i at held. ground (arith, o.slots q c e i at held);
      lists = λ c e. ground (arith, o.lists c e);
      queries = λ e. ground (arith, o.queries e, ap (datum_count e) queue, ap (is_at e) holds);
      waiting = o.waiting;
      taken = o.taken;
      finished = (subst (All (IsSound w)) queue o.finished).1;
      table = o.table;
      listed = o.listed;
      once = λ q. ground (arith, o.once q);
      uncached = o.uncached;
    }

select_id_callback-Ends :
    (own : ℕ → ℕ) (w : World) (p : ℕ) (k : Cookie) (id : ℤ)
    → w.cookies p ≡ some k
    → Owned own w
    → Ends (select_id_callback p id) w
unfolding select_id_callback
select_id_callback-Ends own w p k id alive o = (
  tt,
  record w { cookies = update w.cookies p (some (record k { dbid = id })) },
  own,
  ground arith,
  Owned-write_cookie own w p k (record k { dbid = id }) alive refl o,
)

insert_cookie_callback-Ends :
    (own : ℕ → ℕ) (w : World) (p : ℕ) (k : Cookie) (id : ℤ)
    → w.cookies p ≡ some k
    → Owned own w
    → Ends (insert_cookie_callback p id) w
unfolding insert_cookie_callback
insert_cookie_callback-Ends own w p k id alive o = elim (Bool-cases (lt_ℤ (pos 0) id)) [
  | inl positive ↦
      let (n, v, own1, ran, o1) = select_id_callback-Ends own w p k id alive o in
      (n, v, own1, rw (positive, ran), o1)
  | inr unknown ↦
      let blank = cookie_op select_id p in
      let op : QueryOp = record blank {
        params = record blank.params { steam_id = clip max_name_length (some k.name) };
      } in
      (
        tt,
        record w { query_queue = w.query_queue ++ op ∷ [] },
        own,
        ground arith,
        Owned-queue own w (op ∷ []) w.connected w.stats_loaded w.stats_pending w.told (λ d. refl)
            ((refl, ap is_some alive), tt) o,
      )
]

module _ ⦃sdk : Sdk⦄ (server : Server) where
  pub think_saved :
      (w : World) (op : QueryOp) (ops : List QueryOp) (d : ℕ) (x : CookieData)
      → op.type ≡ insert_data
      → op.params.datum ≡ some d
      → w.datums d ≡ some x
      → frame_of server (op ∷ ops) w
        ≡ some (tt, record w { result_queue = ops; datums = update w.datums d none })
  unfolding frame_of run_think_part think
  think_saved w op ops d x type holds found = ground arith

module _ ⦃sdk : Sdk⦄ (server : Server)
    (serials : (s : ℕ) → server.client_from_serial s ≤ sdk.max_players) where
  -- `think` at each type of query that holds no value.
  think-Ends :
      (t : QueryType) (own : ℕ → ℕ) (w : World) (op : QueryOp)
      → SoundType w t op
      → Owned own w
      → Ends (think server t op) w
  unfolding think
  think-Ends insert_cookie own w op (e, h, h') o =
      let (p, k, at, alive) = ptr_of w op.cookie h in
      let (n, v, own1, ran, o1) = insert_cookie_callback-Ends own w p k op.insert_id alive o in
      (n, v, own1, rw (◌>>=◌, at, ran), o1)
  think-Ends select_data own w op h o =
      client_connect_callback-Ends server own w op.serial op.results (serials op.serial) o
  think-Ends select_id own w op (e, h) o =
      let (p, k, at, alive) = ptr_of w op.cookie h in
      let (n, v, own1, ran, o1) = select_id_callback-Ends own w p k op.insert_id alive o in
      (n, v, own1, rw (◌>>=◌, at, ran), o1)
  think-Ends insert_data own w op h o = (tt, w, own, refl, o)
  think-Ends connect own w op h o = (tt, w, own, refl, o)

  think_empty :
      (w : World) (op : QueryOp) (ops : List QueryOp) (v : World)
      → op.params.datum ≡ none
      → think server op.type op (record w { result_queue = ops }) ≡ some (tt, v)
      → frame_of server (op ∷ ops) w ≡ some (tt, v)
  unfolding frame_of run_think_part
  think_empty w op ops v e ran = rw (◌>>=◌, ◌>>◌, ran, destroy, e)

  holding :
      (t : QueryType) (w : World) (op : QueryOp)
      → op.type ≡ t
      → SoundType w t op
      → (op.params.datum ≡ none) ⊎ ((d : ℕ) × (op.type ≡ insert_data) × (op.params.datum ≡ some d))
  holding insert_cookie w op e (h, h1, h2) = inl h
  holding select_data w op e h = inl h
  holding select_id w op e (h, h1) = inl h
  holding connect w op e h = inl h
  holding insert_data w op e h = let (d, at) = some_of op.params.datum h in inr (d, e, at)

  frame_of-Ends :
      (own : ℕ → ℕ) (w : World) (op : QueryOp) (ops : List QueryOp)
      → w.result_queue ≡ op ∷ ops
      → Owned own w
      → Ends (frame_of server (op ∷ ops)) w
  frame_of-Ends own w op ops queue o =
      let sound = (subst (All (IsSound w)) queue o.finished).0 in
      elim (holding op.type w op refl sound) [
        | inl empty ↦
            let (n, v, own1, ran, o1) =
              think-Ends op.type own (record w { result_queue = ops }) op sound
                (Owned-popped own w op ops queue empty o) in
            (tt, v, own1, think_empty w op ops v empty ran, o1)
        | inr (d, type, holds) ↦
            let his : own d ≡ 1 =
              ground (arith, o.queries d, ap (datum_count d) queue, ap (is_at d) holds) in
            let (x, found) = some_of (w.datums d) (ground (arith, o.kept d)) in
            (
              tt,
              _,
              _,
              think_saved server w op ops d x type holds found,
              Owned-freed own w op ops d queue holds o,
            )
      ]

  -- A frame returns, whatever the thread put into the result.
  pub run_frame-Ends : (own : ℕ → ℕ) (w : World) → Owned own w → Ends (run_frame server) w
  unfolding run_frame frame_of
  run_frame-Ends own w o = on_queue w.result_queue refl
    where
      on_queue : (q : List QueryOp) → w.result_queue ≡ q → Ends (run_frame server) w
      on_queue [] e = (tt, w, own, ap (λ q. frame_of server q w) e, o)
      on_queue (op ∷ ops) e =
          let (n, v, own1, ran, o1) = frame_of-Ends own w op ops e o in
          (n, v, own1, ap (λ q. frame_of server q w) e ∙ ran, o1)
