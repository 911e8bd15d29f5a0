-- ===== src/Redis/Client.antt =====
-- async_redis::client of client.h and client.cpp: the requests, the connection, and the batches
-- that the worker sends. hiredis is a parameter.
pub mod Batch
pub mod Dequeue
pub mod Worker
pub mod Fifo
use clientprefs_redis.Base.{
  ℕ, zero, suc, ◌+◌, ◌-◌, ◌*◌, ◌/◌, List, [], ◌∷◌, ◌++◌, Option, none, some, Bool, true, false,
  ◌&&◌, ◌||◌, not, ◌==◌, ltb, ℤ, pos, negsuc, if◌then◌else◌,
}
use clientprefs_redis.Text.{Text}
use clientprefs_redis.Redis.Reply.{RawReply, Reply, reply_of}
use clientprefs_redis.Redis.Command.{format_command}

-- redisAppendFormattedCommand, whether it is REDIS_OK; redisGetReply, `none` where it is not
-- REDIS_OK; and `err` and `errstr` of the context.
pub record Hiredis (C : Type 0) : Type 0 where
  pub append_formatted_command : C → Text → Bool × C
  pub get_reply : C → Option RawReply × C
  pub err : C → ℕ
  pub errstr : C → Text

-- command_request; a callback is a number, `none` the empty function.
pub record CommandRequest : Type 0 where
  pub command : Text
  pub callback : Option ℕ

-- `signals` counts what `pipeline_sem` holds, and `thread` says whether `worker` is joinable.
pub record Client (C : Type 0) : Type 0 where
  pub cache_size : ℕ
  pub pipe_timeout : ℕ
  pub ctx : Option C
  pub stopped : Bool
  pub flush_pipeline : Bool
  pub signals : ℕ
  pub thread : Bool
  pub commands : List CommandRequest

-- tv_sec and tv_usec of the timeout for the connection.
unfoldable pub timeval_of : ℕ → ℕ × ℕ
timeval_of timeout_ms =
    let tv_sec = timeout_ms / 1000 in (tv_sec, (timeout_ms - tv_sec * 1000) * 1000)

module _ {C : Type 0} (h : Hiredis C) where
  unfoldable pub new_client : ℕ → ℕ → Client C
  new_client cache_size pipeline_timeout = record {
    cache_size = cache_size;
    pipe_timeout = pipeline_timeout;
    ctx = none;
    stopped = true;
    flush_pipeline = false;
    signals = 0;
    thread = false;
    commands = [];
  }

  has_ctx : Option C → Bool
  has_ctx none = false
  has_ctx (some c) = h.err c == 0

  unfoldable pub is_connected : Client C → Bool
  unfolding has_ctx
  is_connected cl = has_ctx cl.ctx && not cl.stopped

  -- The worker is joined and the context freed.
  unfoldable pub disconnect : Client C → Client C
  disconnect cl = record cl { stopped = true; thread = false; ctx = none }

  opened : Client C → Option C → Bool × Client C
  opened cl none = (false, record cl { ctx = none })
  opened cl (some c) =
      if h.err c == 0
      then (true, record cl { ctx = some c; stopped = false; thread = true })
      else (false, record cl { ctx = none })

  -- `connect` is redisConnectWithTimeout, or redisConnect where there is no timeout; `none` is NULL.
  unfoldable pub connect_client : (Option (ℕ × ℕ) → Option C) → ℕ → Client C → Bool × Client C
  unfolding opened
  connect_client connect timeout_ms cl =
      let cl' = if is_connected cl then disconnect cl else cl in
      opened cl' (connect (if ltb 0 timeout_ms then some (timeval_of timeout_ms) else none))

  unfoldable pub append : List Text → Option ℕ → Client C → Client C
  append redis_cmd callback cl =
      let request : CommandRequest = record {
        command = format_command redis_cmd;
        callback = callback;
      } in
      record cl { commands = cl.commands ++ request ∷ [] }

  unfoldable pub commit : Client C → Client C
  commit cl =
      let cl' = record cl { flush_pipeline = true } in
      if is_connected cl' && cl.cache_size == 0
      then record cl' { signals = suc cl.signals }
      else cl'

  -- Command: the callback sets the promise, whose future the caller waits for.
  unfoldable pub request : List Text → ℕ → Bool → Client C → Client C
  request redis_cmd promise commits cl =
      let cl' = append redis_cmd (some promise) cl in if commits then commit cl' else cl'

  unfoldable pub get_error : Client C → ℤ
  get_error cl = elim cl.ctx [ none ↦ negsuc 0 | some c ↦ pos (h.err c) ]

  unfoldable pub get_error_string : Client C → Option Text
  get_error_string cl = elim cl.ctx [ none ↦ none | some c ↦ some (h.errstr c) ]

  -- The first loop over the batch: which commands were appended.
  unfoldable pub append_all : List CommandRequest → C → List Bool × C
  append_all [] c = ([], c)
  append_all (req ∷ reqs) c =
      let (success, c') = h.append_formatted_command c req.command in
      let (appended, c'') = append_all reqs c' in (success ∷ appended, c'')

  -- `req.callback(...)`; `none` is nullptr.
  pub call_of : CommandRequest → Option RawReply → List (ℕ × Option Reply) → List (ℕ × Option Reply)
  call_of req raw rest = elim req.callback [
    | none ↦ rest
    | some f ↦ (f, elim raw [ none ↦ none | some r ↦ some (reply_of r) ]) ∷ rest
  ]

  -- The second loop: the calls of the callbacks, in their order.
  unfoldable pub reply_all : List CommandRequest → List Bool → C → List (ℕ × Option Reply) × C
  unfolding call_of
  reply_all [] appended c = ([], c)
  reply_all (req ∷ reqs) [] c = ([], c)
  reply_all (req ∷ reqs) (false ∷ appended) c =
      let (calls, c') = reply_all reqs appended c in (call_of req none calls, c')
  reply_all (req ∷ reqs) (true ∷ appended) c =
      let (raw, c') = h.get_reply c in
      let (calls, c'') = reply_all reqs appended c' in (call_of req raw calls, c'')

  -- `send` after the requests were dequeued.
  unfoldable pub send_batch : List CommandRequest → C → List (ℕ × Option Reply) × C
  send_batch reqs c = let (appended, c') = append_all reqs c in reply_all reqs appended c'
