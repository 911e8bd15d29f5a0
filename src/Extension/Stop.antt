-- ===== src/Extension/Stop.antt =====
-- How the query threads end: the loop of a thread in SDK_OnLoad, and SDK_OnUnload, which waits for
-- `worker_exit`, of extension.cpp.
use clientprefs_redis.Base.{
  ℕ, zero, suc, ◌+◌, ◌-◌, ◌^◌, ◌≤◌, ◌<◌, ◌≡◌, ◌↔◌, refl, ap, sym, ◌∙◌, List, [], ◌∷◌, ◌++◌, Option,
  none, some, Bool, true, false, ◌==◌, if◌then◌else◌, ℤ, pos, negsuc, arith,
}
use mathlib.Core.Path.{subst}
use clientprefs_redis.State.{QueryOp}
use clientprefs_redis.Extension.Unload.{stop_threads}

-- The queue of the threads with its null pointers, the threads that are in their loop, those that
-- left it, `worker_exit`, and whether the queue was deleted.
pub record Pool : Type 0 where
  pub queue : List (Option QueryOp)
  pub running : ℕ
  pub ended : ℕ
  pub worker_exit : ℤ
  pub is_deleted : Bool

-- `worker_exit` is 0 before the threads start.
unfoldable pub new_pool : ℕ → Pool
new_pool worker = record {
  queue = [];
  running = worker;
  ended = 0;
  worker_exit = pos 0;
  is_deleted = false;
}

-- _InterlockedDecrement of a long of 32 bits.
unfoldable pub interlocked_decrement : ℤ → ℤ
interlocked_decrement (pos zero) = negsuc 0
interlocked_decrement (pos (suc n)) = pos n
interlocked_decrement (negsuc n) = if n == 2 ^ 31 - 1 then pos (2 ^ 31 - 1) else negsuc (suc n)

-- A thread that takes a null pointer counts down and leaves its loop.
unfoldable pub leave_loop : Pool → List (Option QueryOp) → Pool
leave_loop p ops = record p {
  queue = ops;
  running = p.running - 1;
  ended = suc p.ended;
  worker_exit = interlocked_decrement p.worker_exit;
}

-- A query is put into the queue, a thread takes a query or a null pointer, SDK_OnUnload puts its
-- null pointers behind the queue, and goes on to delete the queue when `worker_exit` is 0.
pub data Turn (worker : ℕ) (p q : Pool) : Type 0 where
  put : (op : QueryOp) → q ≡ record p { queue = p.queue ++ some op ∷ [] } → Turn worker p q
  take_op :
      (op : QueryOp) (ops : List (Option QueryOp))
      → p.queue ≡ some op ∷ ops
      → 1 ≤ p.running
      → q ≡ record p { queue = ops }
      → Turn worker p q
  take_null :
      (ops : List (Option QueryOp))
      → p.queue ≡ none ∷ ops
      → 1 ≤ p.running
      → q ≡ leave_loop p ops
      → Turn worker p q
  stop : q ≡ record p { queue = stop_threads worker p.queue } → Turn worker p q
  go_on : p.worker_exit ≡ pos 0 → q ≡ record p { is_deleted = true } → Turn worker p q

pub data Turns (worker : ℕ) : Pool → Type 0 where
  started : Turns worker (new_pool worker)
  turned : {p q : Pool} → Turns worker p → Turn worker p q → Turns worker q

-- The number of threads that ended, below 0.
abbrev pub minus : ℕ → ℤ
minus zero = pos 0
minus (suc n) = negsuc n

pub record IsCounted (worker : ℕ) (p : Pool) : Type 0 where
  pub all : p.running + p.ended ≡ worker
  pub exit : p.worker_exit ≡ minus p.ended

interlocked_decrement-minus : (n : ℕ) → n < 2 ^ 31 → interlocked_decrement (minus n) ≡ minus (suc n)
unfolding interlocked_decrement
interlocked_decrement-minus zero h = refl
interlocked_decrement-minus (suc n) h = ground arith

Turn-IsCounted :
    (worker : ℕ) (p q : Pool)
    → worker ≤ 2 ^ 31
    → Turn worker p q
    → IsCounted worker p
    → IsCounted worker q
unfolding leave_loop
Turn-IsCounted worker p q few (put op is) c =
    subst (IsCounted worker) (sym is) (record { all = c.all; exit = c.exit })
Turn-IsCounted worker p q few (take_op op ops e one is) c =
    subst (IsCounted worker) (sym is) (record { all = c.all; exit = c.exit })
Turn-IsCounted worker p q few (take_null ops e one is) c =
    subst (IsCounted worker) (sym is) (record {
      all = omega (arith, c.all);
      exit =
          ap interlocked_decrement c.exit
          ∙ interlocked_decrement-minus p.ended (omega (arith, c.all));
    })
Turn-IsCounted worker p q few (stop is) c =
    subst (IsCounted worker) (sym is) (record { all = c.all; exit = c.exit })
Turn-IsCounted worker p q few (go_on e is) c =
    subst (IsCounted worker) (sym is) (record { all = c.all; exit = c.exit })

Turns-IsCounted : (worker : ℕ) (p : Pool) → worker ≤ 2 ^ 31 → Turns worker p → IsCounted worker p
unfolding new_pool
Turns-IsCounted worker p few started = record { all = omega arith; exit = refl }
Turns-IsCounted worker q few (turned {p} t s) =
    Turn-IsCounted worker p q few s (Turns-IsCounted worker p few t)

minus-zero : (n : ℕ) → minus n ≡ pos 0 → n ≡ 0
minus-zero zero h = refl
minus-zero (suc n) h = cc

-- Whatever the threads, the main thread and the queue did, `worker_exit` is 0 exactly while all threads are in
-- their loops: SDK_OnUnload goes on to delete the queue only while every thread still uses it, and not when a
-- thread has ended.
pub worker_exit_iff :
    (worker : ℕ) (p : Pool)
    → worker ≤ 2 ^ 31
    → Turns worker p
    → (p.worker_exit ≡ pos 0) ↔ (p.running ≡ worker)
worker_exit_iff worker p few t =
    let c = Turns-IsCounted worker p few t in
    (
      λ e. omega (arith, c.all, minus-zero p.ended (sym c.exit ∙ e)),
      λ e. let none_ended : p.ended ≡ 0 = omega (arith, c.all, e) in c.exit ∙ ap minus none_ended,
    )
