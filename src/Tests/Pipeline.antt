-- ===== src/Tests/Pipeline.antt =====
-- The worker of the client.
use clientprefs_redis.Base.{
  ℕ, ◌≡◌, ◌⊎◌, refl, inl, List, [], ◌∷◌, ◌++◌, Option, none, some, true, false, arith, pos, length,
}
use clientprefs_redis.Text.{Text, codes}
use clientprefs_redis.Redis.Reply.{Reply, RawReply, RawReplies, raw}
use clientprefs_redis.Redis.Client.{Client, Hiredis, CommandRequest, append_all, send_batch}
use clientprefs_redis.Redis.Client.Batch.{Answers, expected, sent, send_batch-expected}
use clientprefs_redis.Redis.Client.Worker.{Wait}
use clientprefs_redis.Redis.Client.Fifo.{
  appends, passes, called, callbacks, run_events, run_events-callbacks,
}
use clientprefs_redis.Redis.Client.Dequeue.{dequeue_bulk, dequeue_bulk_two, no_request}

-- A connection that answers every command with an integer, and never fails.
echo : Text → RawReply
echo t = raw 3 (pos (length t)) 0 none RawReplies.nil

next_reply : List Text → Option RawReply × List Text
unfolding echo
next_reply [] = (none, [])
next_reply (t ∷ ts) = (some (echo t), ts)

abbrev echoes : Hiredis (List Text)
echoes = record {
  append_formatted_command = λ c t. (true, c ++ t ∷ []);
  get_reply = next_reply;
  err = λ c. 0;
  errstr = λ c. [];
}

next_echo :
    (c : List Text) (t : Text) (ts : List Text)
    → c ≡ t ∷ ts
    → ((next_reply c).0 ≡ some (echo t)) × (false ≡ false) × ((next_reply c).1 ≡ ts)
unfolding next_reply
next_echo c t ts e = rw e (refl, refl, refl)

abbrev answers : Answers echoes
answers = record {
  waiting = λ c. c;
  failed = λ c. false;
  answer = echo;
  appended_ok = λ c t h. refl;
  appended_not = λ c t h. cc;
  append_failed = λ c t. refl;
  get_failed = λ c h. cc;
  get_next = λ c t ts h e. inl (next_echo c t ts e);
}

abbrev first : CommandRequest
first = record { command = codes "GET a"; callback = some 1 }

abbrev second : CommandRequest
second = record { command = codes "SET a"; callback = none }

abbrev batch : List CommandRequest
batch = first ∷ second ∷ []

send_batch-expected_example :
    (n : ℕ) × ((send_batch echoes batch []).0
      ≡ expected echo n batch (append_all echoes batch []).0)
    × ((false ≡ true) ⊎ (n ≡ length (sent batch (append_all echoes batch []).0)))
send_batch-expected_example = send_batch-expected echoes answers batch [] refl refl

dequeue_bulk_two_example :
    dequeue_bulk 3 1 (
      record { took = first ∷ []; stopped = false; flush_pipeline = false }
      ∷ record { took = second ∷ []; stopped = false; flush_pipeline = true }
      ∷ [])
    ≡ some (2, second ∷ no_request ∷ no_request ∷ [])
dequeue_bulk_two_example =
    dequeue_bulk_two 3 1 (first ∷ []) (second ∷ []) (omega arith) (omega arith) (omega arith)
      (omega arith)

-- A client with a pipeline timeout of 50 ms and one request.
abbrev timed_client : Client (List Text)
timed_client = record {
  cache_size = 2;
  pipe_timeout = 50;
  ctx = some [];
  stopped = false;
  flush_pipeline = false;
  signals = 0;
  thread = true;
  commands = first ∷ [];
}

abbrev one_wait : Wait
one_wait = record { count = 3; stopped = false; flush_pipeline = false }

run_events-callbacks_example :
    (calls : List (ℕ × Option Reply)) × (cl' : Client (List Text)) × (run_events echoes
        (passes one_wait ∷ appends second ∷ appends first ∷ passes one_wait ∷ [])
        timed_client
      ≡ some (calls, cl'))
    × (called calls ++ callbacks cl'.commands ≡ 1 ∷ 1 ∷ [])
run_events-callbacks_example =
    run_events-callbacks echoes
      (passes one_wait ∷ appends second ∷ appends first ∷ passes one_wait ∷ []) timed_client refl
