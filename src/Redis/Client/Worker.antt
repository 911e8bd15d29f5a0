-- ===== src/Redis/Client/Worker.antt =====
-- The worker's thread of client.cpp: a pass of its loop, and the loop with the requests that are
-- appended meanwhile.
use clientprefs_redis.Base.{
  ℕ, ◌-◌, List, [], ◌∷◌, Option, none, some, Bool, true, false, ◌==◌, ltb, min, length, take, drop,
  replicate, if◌then◌else◌,
}
use clientprefs_redis.Redis.Reply.{Reply}
use clientprefs_redis.Redis.Client.{Hiredis, CommandRequest, Client, send_batch}
use clientprefs_redis.Redis.Client.Dequeue.{Round, no_request, write_at_begin, dequeue_bulk}

-- One wait_dequeue_bulk_timed: how many requests it takes at most, and `stopped` and
-- `flush_pipeline` after it.
pub record Wait : Type 0 where
  pub count : ℕ
  pub stopped : Bool
  pub flush_pipeline : Bool

-- The rounds that take their requests from the queue, of which no more than `room` are taken.
rounds_of : ℕ → List Wait → List CommandRequest → List Round
rounds_of room [] queue = []
rounds_of room (w ∷ ws) queue =
    let took = take (min w.count room) queue in
    record { took = took; stopped = w.stopped; flush_pipeline = w.flush_pipeline }
    ∷ rounds_of (room - length took) ws (drop (length took) queue)

-- `queue_size` after `cache_size < queue_size ? queue_size : cache_size`.
abbrev pub reqs_size : ℕ → ℕ → ℕ
reqs_size cache_size queue_size = if ltb cache_size queue_size then queue_size else cache_size

-- With a pipeline timeout there is one wait.
unfoldable pub timed : ℕ → List Wait → List CommandRequest → Option (ℕ × List CommandRequest)
timed size [] queue = none
timed size (w ∷ ws) queue =
    let took = take (min w.count size) queue in
    some (length took, write_at_begin took (replicate size no_request))

-- The number of requests and the vector; `none` while the loop waits on.
unfoldable pub dequeue : ℕ → ℕ → List Wait → List CommandRequest → Option (ℕ × List CommandRequest)
unfolding rounds_of timed
dequeue cache_size pipe_timeout waits queue =
    let size = reqs_size cache_size (length queue) in
    if pipe_timeout == 0
    then dequeue_bulk cache_size (length queue) (rounds_of size waits queue)
    else timed size waits queue

module _ {C : Type 0} (h : Hiredis C) where
  unfoldable pub send_dequeued :
      C → Client C → Option (ℕ × List CommandRequest) → Option (List (ℕ × Option Reply) × Client C)
  send_dequeued c cl none = none
  send_dequeued c cl (some (dequeued, reqs)) =
      if dequeued == 0
      then some ([], cl)
      else (let (calls, c') = send_batch h (take dequeued reqs) c in
          some (
            calls,
            record cl {
              ctx = some c';
              flush_pipeline = false;
              commands = drop dequeued cl.commands;
            },
          ))

  -- `send`; an empty queue is looked at again after 100 ms.
  unfoldable pub send : C → List Wait → Client C → Option (List (ℕ × Option Reply) × Client C)
  unfolding send_dequeued
  send c waits cl =
      if length cl.commands == 0
      then some ([], cl)
      else send_dequeued c cl (dequeue cl.cache_size cl.pipe_timeout waits cl.commands)

  -- Without a cache the worker waits for a signal first.
  unfoldable pub signalled : C → List Wait → Client C → Option (List (ℕ × Option Reply) × Client C)
  signalled c waits cl =
      if cl.cache_size == 0
      then (if cl.signals == 0
          then some ([], cl)
          else send c waits (record cl { signals = cl.signals - 1 }))
      else send c waits cl

  unfoldable pub checked :
      Option C → List Wait → Client C → Option (List (ℕ × Option Reply) × Client C)
  unfolding signalled
  checked none waits cl = some ([], record cl { stopped = true })
  checked (some c) waits cl =
      if h.err c == 0 then signalled c waits cl else some ([], record cl { stopped = true })

  -- A pass of the loop `while (!stopped)`: the calls of callbacks, and the client after it; `none`
  -- while it waits on.
  unfoldable pub worker_pass : List Wait → Client C → Option (List (ℕ × Option Reply) × Client C)
  unfolding checked
  worker_pass waits cl = if cl.stopped then some ([], cl) else checked cl.ctx waits cl
