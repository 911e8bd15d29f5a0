-- ===== src/Tests/Stop.antt =====
-- Two query threads and SDK_OnUnload.
use clientprefs_redis.Base.{◌≡◌, ◌↔◌, refl, [], ◌∷◌, none, pos, arith}
use clientprefs_redis.Extension.Unload.{stop_threads}
use clientprefs_redis.Extension.Stop.{
  Pool, new_pool, leave_loop, stop, take_null, Turns, started, turned, worker_exit_iff,
}

-- The null pointers are in the queue, and one thread has taken one.
abbrev stopping : Pool
stopping = record (new_pool 2) { queue = stop_threads 2 [] }

abbrev one_left : Pool
one_left = leave_loop stopping (none ∷ [])

run : Turns 2 one_left
unfolding new_pool leave_loop stop_threads
run = turned (turned started (stop refl)) (take_null (none ∷ []) refl (omega arith) refl)

worker_exit_iff_example : (one_left.worker_exit ≡ pos 0) ↔ (one_left.running ≡ 2)
worker_exit_iff_example = worker_exit_iff 2 one_left (omega arith) run
