-- ===== src/Ownership/Threads.antt =====
-- A thread takes a query and brings it back: the ownership stays.
use clientprefs_redis.Base.{ℕ, ◌+◌, ◌≡◌, refl, ap, sym, ◌∙◌, List, [], ◌∷◌, ◌++◌, arith, All}
use mathlib.Core.Path.{subst}
use clientprefs_redis.State.{
  ParamData, QueryOp, QueryType, World, insert_cookie, select_data, insert_data, select_id, connect,
}
use clientprefs_redis.Ownership.{Owned, IsSound, SoundType, datum_count, is_at, is_some, ptr_alive}
use clientprefs_redis.Ownership.Parts.{All-append, datum_count-append}
use clientprefs_redis.Query.Execute.Runs.{SameHold}

-- A thread takes the first query.
pub Owned-taken :
    (own : ℕ → ℕ) (w : World) (op : QueryOp) (ops : List QueryOp)
    → w.query_queue ≡ op ∷ ops
    → Owned own w
    → Owned own (record w { query_queue = ops; running = w.running ++ op ∷ [] })
Owned-taken own w op ops queue o = record {
  fresh_cookies = o.fresh_cookies;
  fresh_datums = o.fresh_datums;
  kept = o.kept;
  parents = o.parents;
  slots = o.slots;
  lists = o.lists;
  queries = λ d.
      ground
        (arith, o.queries d, ap (datum_count d) queue, datum_count-append d w.running (op ∷ []));
  waiting = (subst (All (IsSound w)) queue o.waiting).1;
  taken =
      All-append (IsSound w) w.running (op ∷ []) o.taken
        ((subst (All (IsSound w)) queue o.waiting).0, tt);
  finished = o.finished;
  table = o.table;
  listed = o.listed;
  once = λ q. ground (arith, o.once q);
  uncached = o.uncached;
}

SoundType-SameHold :
    (t : QueryType) (w : World) (op op' : QueryOp)
    → SameHold op op'
    → SoundType w t op
    → SoundType w t op'
SoundType-SameHold insert_cookie w op op' s (e, h, h') = (
  ap (λ (r : ParamData). r.datum) s.params_is ∙ e,
  ap (ptr_alive w) s.cookie_is ∙ h,
  ap (λ (r : ParamData). ptr_alive w r.cookie) s.params_is ∙ h',
)
SoundType-SameHold select_data w op op' s e = ap (λ (r : ParamData). r.datum) s.params_is ∙ e
SoundType-SameHold select_id w op op' s (e, h) =
    (ap (λ (r : ParamData). r.datum) s.params_is ∙ e, ap (ptr_alive w) s.cookie_is ∙ h)
SoundType-SameHold insert_data w op op' s e =
    ap (λ (r : ParamData). is_some r.datum) s.params_is ∙ e
SoundType-SameHold connect w op op' s e = ap (λ (r : ParamData). r.datum) s.params_is ∙ e

IsSound-SameHold : (w : World) (op op' : QueryOp) → SameHold op op' → IsSound w op → IsSound w op'
IsSound-SameHold w op op' s h =
    subst (λ t. SoundType w t op') (sym s.type_is) (SoundType-SameHold op.type w op op' s h)

pub All-middle :
    (P : QueryOp → Type 0) (xs : List QueryOp) (op : QueryOp) (ys : List QueryOp)
    → All P (xs ++ op ∷ ys)
    → P op × All P (xs ++ ys)
All-middle P [] op ys h = h
All-middle P (x ∷ xs) op ys h = let (a, rest) = All-middle P xs op ys h.1 in (a, (h.0, rest))

pub datum_count-middle :
    (d : ℕ) (xs : List QueryOp) (op : QueryOp) (ys : List QueryOp)
    → datum_count d (xs ++ op ∷ ys) ≡ is_at d op.params.datum + datum_count d (xs ++ ys)
datum_count-middle d [] op ys = refl
datum_count-middle d (x ∷ xs) op ys = omega (arith, datum_count-middle d xs op ys)

-- A thread puts a query that it has run behind the results.
pub Owned-finished :
    (own : ℕ → ℕ) (w : World) (before after : List QueryOp) (op op' : QueryOp)
    → w.running ≡ before ++ op ∷ after
    → SameHold op op'
    → Owned own w
    → Owned own (record w { running = before ++ after; result_queue = w.result_queue ++ op' ∷ [] })
Owned-finished own w before after op op' ran s o =
    let (sound, others) =
      All-middle (IsSound w) before op after (subst (All (IsSound w)) ran o.taken) in
    record {
      fresh_cookies = o.fresh_cookies;
      fresh_datums = o.fresh_datums;
      kept = o.kept;
      parents = o.parents;
      slots = o.slots;
      lists = o.lists;
      queries = λ d. omega (
        arith,
        o.queries d,
        ap (datum_count d) ran,
        datum_count-middle d before op after,
        datum_count-append d w.result_queue (op' ∷ []),
        ap (λ (r : ParamData). is_at d r.datum) s.params_is,
      );
      waiting = o.waiting;
      taken = others;
      finished =
          All-append (IsSound w) w.result_queue (op' ∷ []) o.finished
            (IsSound-SameHold w op op' s sound, tt);
      table = o.table;
      listed = o.listed;
      once = λ q. ground (arith, o.once q);
      uncached = o.uncached;
    }
