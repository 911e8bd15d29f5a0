-- ===== src/Redis/Client/Fifo.antt =====
-- The order in which the worker of client.cpp calls the callbacks.
use clientprefs_redis.Base.{
  ℕ, zero, suc, ◌-◌, ◌≡◌, refl, ap, sym, ◌∙◌, List, [], ◌∷◌, ◌++◌, append_assoc, append-nil, Option,
  none, some, Bool, true, false, inl, inr, Bool-cases, ◌==◌, min, arith, length, take, drop,
  replicate, if◌then◌else◌,
}
use clientprefs_redis.Redis.Reply.{Reply, RawReply}
use clientprefs_redis.Redis.Client.{
  Hiredis, CommandRequest, Client, append_all, reply_all, call_of, send_batch,
}
use clientprefs_redis.Redis.Client.Dequeue.{no_request, write_at_begin}
use clientprefs_redis.Redis.Client.Worker.{
  Wait, reqs_size, timed, dequeue, send_dequeued, send, signalled, checked, worker_pass,
}

abbrev id_of : Option ℕ → List ℕ
id_of none = []
id_of (some f) = f ∷ []

-- The callbacks of requests, in their order.
abbrev pub callbacks : List CommandRequest → List ℕ
callbacks [] = []
callbacks (req ∷ reqs) = id_of req.callback ++ callbacks reqs

-- The callbacks that were called.
abbrev pub called : List (ℕ × Option Reply) → List ℕ
called [] = []
called ((f, r) ∷ calls) = f ∷ called calls

callbacks-append :
    (xs ys : List CommandRequest) → callbacks (xs ++ ys) ≡ callbacks xs ++ callbacks ys
callbacks-append [] ys = refl
callbacks-append (x ∷ xs) ys =
    ap (λ s. id_of x.callback ++ s) (callbacks-append xs ys)
    ∙ sym (append_assoc (id_of x.callback) (callbacks xs) (callbacks ys))

called-append : (xs ys : List (ℕ × Option Reply)) → called (xs ++ ys) ≡ called xs ++ called ys
called-append [] ys = refl
called-append ((f, r) ∷ xs) ys = ap (◌∷◌ f) (called-append xs ys)

take-drop-length :
    {A : Type 0} (n : ℕ) (xs : List A) → take n xs ++ drop (length (take n xs)) xs ≡ xs
take-drop-length zero xs = refl
take-drop-length (suc n) [] = refl
take-drop-length (suc n) (x ∷ xs) = ap (◌∷◌ x) (take-drop-length n xs)

take-length-append : {A : Type 0} (xs ys : List A) → take (length xs) (xs ++ ys) ≡ xs
take-length-append [] ys = refl
take-length-append (x ∷ xs) ys = ap (◌∷◌ x) (take-length-append xs ys)

module _ {C : Type 0} (h : Hiredis C) where
  append_all-length :
      (reqs : List CommandRequest) (c : C) → length (append_all h reqs c).0 ≡ length reqs
  unfolding append_all
  append_all-length [] c = refl
  append_all-length (req ∷ reqs) c =
      ap suc (append_all-length reqs (h.append_formatted_command c req.command).1)

  call_of-called :
      (callback : Option ℕ) (req : CommandRequest) (raw : Option RawReply)
      (rest : List (ℕ × Option Reply))
      → req.callback ≡ callback
      → called (call_of h req raw rest) ≡ id_of callback ++ called rest
  unfolding call_of
  call_of-called none req raw rest e = rw e refl
  call_of-called (some f) req raw rest e = rw e refl

  reply_all-called :
      (reqs : List CommandRequest) (appended : List Bool) (c : C)
      → length appended ≡ length reqs
      → called (reply_all h reqs appended c).0 ≡ callbacks reqs
  unfolding reply_all
  reply_all-called [] appended c e = refl
  reply_all-called (req ∷ reqs) [] c e = absurd (omega (arith, e))
  reply_all-called (req ∷ reqs) (false ∷ appended) c e =
      call_of-called req.callback req none _ refl
      ∙ ap (λ s. id_of req.callback ++ s) (reply_all-called reqs appended c (omega (arith, e)))
  reply_all-called (req ∷ reqs) (true ∷ appended) c e =
      call_of-called req.callback req _ _ refl
      ∙ ap (λ s. id_of req.callback ++ s) (reply_all-called reqs appended _ (omega (arith, e)))

  send_batch-called :
      (reqs : List CommandRequest) (c : C) → called (send_batch h reqs c).0 ≡ callbacks reqs
  unfolding send_batch
  send_batch-called reqs c =
      reply_all-called reqs (append_all h reqs c).0 (append_all h reqs c).1
        (append_all-length reqs c)

  -- The pass ends, and what it called is what it took from the front of the queue.
  pub Passes : Option (List (ℕ × Option Reply) × Client C) → Client C → Type 0
  Passes r cl =
      (calls : List (ℕ × Option Reply)) × (cl' : Client C) × (r ≡ some (calls, cl'))
      × (called calls ++ callbacks cl'.commands ≡ callbacks cl.commands)
      × (cl'.pipe_timeout ≡ cl.pipe_timeout)

  send_dequeued-Passes :
      (c : C) (cl : Client C) (n k : ℕ)
      → Passes
          (send_dequeued h c cl (
            some (
              length (take n cl.commands),
              write_at_begin (take n cl.commands) (replicate k no_request),
            )))
          cl
  unfolding send_dequeued Passes
  send_dequeued-Passes c cl n k = elim (Bool-cases (length (take n cl.commands) == 0)) [
    | inl empty ↦ ([], cl, rw empty refl, refl, refl)
    | inr some_left ↦
        let took = take n cl.commands in
        let reqs = take (length took) (write_at_begin took (replicate k no_request)) in
        let e : reqs ≡ took =
          take-length-append took (drop (length took) (replicate k no_request)) in
        (
          (send_batch h reqs c).0,
          record cl {
            ctx = some (send_batch h reqs c).1;
            flush_pipeline = false;
            commands = drop (length took) cl.commands;
          },
          rw some_left refl,
          ap (λ s. s ++ callbacks (drop (length took) cl.commands))
                (send_batch-called reqs c ∙ ap callbacks e)
              ∙ sym (callbacks-append took (drop (length took) cl.commands))
              ∙ ap callbacks (take-drop-length n cl.commands),
          refl,
        )
  ]

  send-Passes :
      (c : C) (w : Wait) (waits : List Wait) (cl : Client C)
      → (cl.pipe_timeout == 0) ≡ false
      → Passes (send h c (w ∷ waits) cl) cl
  unfolding send dequeue timed Passes
  send-Passes c w waits cl timeout = elim (Bool-cases (length cl.commands == 0)) [
    | inl empty ↦ ([], cl, rw empty refl, refl, refl)
    | inr some_left ↦
        let size = reqs_size cl.cache_size (length cl.commands) in
        let (calls, cl', ran, order, same) = send_dequeued-Passes c cl (min w.count size) size in
        (calls, cl', rw (some_left, timeout) ran, order, same)
  ]

  signalled-Passes :
      (c : C) (w : Wait) (waits : List Wait) (cl : Client C)
      → (cl.pipe_timeout == 0) ≡ false
      → Passes (signalled h c (w ∷ waits) cl) cl
  unfolding signalled Passes
  signalled-Passes c w waits cl timeout = elim (Bool-cases (cl.cache_size == 0)) [
    | inr cached ↦
        let (calls, cl', ran, order, same) = send-Passes c w waits cl timeout in
        (calls, cl', rw cached ran, order, same)
    | inl uncached ↦ elim (Bool-cases (cl.signals == 0)) [
      | inl none_there ↦ ([], cl, rw (uncached, none_there) refl, refl, refl)
      | inr there ↦
          let (calls, cl', ran, order, same) =
            send-Passes c w waits (record cl { signals = cl.signals - 1 }) timeout in
          (calls, cl', rw (uncached, there) ran, order, same)
    ]
  ]

  checked-Passes :
      (ctx : Option C) (w : Wait) (waits : List Wait) (cl : Client C)
      → (cl.pipe_timeout == 0) ≡ false
      → Passes (checked h ctx (w ∷ waits) cl) cl
  unfolding checked Passes
  checked-Passes none w waits cl timeout = ([], record cl { stopped = true }, refl, refl, refl)
  checked-Passes (some c) w waits cl timeout = elim (Bool-cases (h.err c == 0)) [
    | inl fine ↦
        let (calls, cl', ran, order, same) = signalled-Passes c w waits cl timeout in
        (calls, cl', rw fine ran, order, same)
    | inr failed ↦ ([], record cl { stopped = true }, rw failed refl, refl, refl)
  ]

  worker_pass-Passes :
      (w : Wait) (waits : List Wait) (cl : Client C)
      → (cl.pipe_timeout == 0) ≡ false
      → Passes (worker_pass h (w ∷ waits) cl) cl
  unfolding worker_pass Passes
  worker_pass-Passes w waits cl timeout = elim (Bool-cases cl.stopped) [
    | inl stopped ↦ (
      [],
      cl,
      ap (λ t. if t then some ([], cl) else checked h cl.ctx (w ∷ waits) cl) stopped,
      refl,
      refl,
    )
    | inr going ↦
        let (calls, cl', ran, order, same) = checked-Passes cl.ctx w waits cl timeout in
        (
          calls,
          cl',
          ap (λ t. if t then some ([], cl) else checked h cl.ctx (w ∷ waits) cl) going ∙ ran,
          order,
          same,
        )
  ]

-- Append of a request, or a pass of the worker with its wait.
pub data Event : Type 0 where
  appends : CommandRequest → Event
  passes : Wait → Event

abbrev pub appended : List Event → List CommandRequest
appended [] = []
appended (appends req ∷ events) = req ∷ appended events
appended (passes w ∷ events) = appended events

module _ {C : Type 0} (h : Hiredis C) where
  -- The calls of a pass before those that follow.
  abbrev then_calls :
      List (ℕ × Option Reply)
      → Option (List (ℕ × Option Reply) × Client C)
      → Option (List (ℕ × Option Reply) × Client C)
  then_calls calls none = none
  then_calls calls (some (more, cl)) = some (calls ++ more, cl)

  abbrev after_pass :
      (Client C → Option (List (ℕ × Option Reply) × Client C))
      → Option (List (ℕ × Option Reply) × Client C)
      → Option (List (ℕ × Option Reply) × Client C)
  after_pass rest none = none
  after_pass rest (some (calls, cl)) = then_calls calls (rest cl)

  -- The calls of the callbacks in the course of the events.
  pub run_events : List Event → Client C → Option (List (ℕ × Option Reply) × Client C)
  run_events [] cl = some ([], cl)
  run_events (appends req ∷ events) cl =
      run_events events (record cl { commands = cl.commands ++ req ∷ [] })
  run_events (passes w ∷ events) cl = after_pass (run_events events) (worker_pass h (w ∷ []) cl)

  -- A worker with a pipeline timeout, whatever requests are appended between its passes and whatever hiredis does:
  -- each pass ends, and the callbacks that were called, followed by those of the requests that still
  -- wait, are those of the requests that waited at the start and of the requests that were appended,
  -- in this order. So each callback is called at most once, in the order of Append, and none is
  -- lost.
  pub run_events-callbacks :
      (events : List Event) (cl : Client C)
      → (cl.pipe_timeout == 0) ≡ false
      → (calls : List (ℕ × Option Reply)) × (cl' : Client C) × (run_events events cl
          ≡ some (calls, cl'))
        × (called calls ++ callbacks cl'.commands ≡ callbacks (cl.commands ++ appended events))
  unfolding run_events Passes
  run_events-callbacks [] cl timeout = ([], cl, refl, ap callbacks (sym (append-nil cl.commands)))
  run_events-callbacks (appends req ∷ events) cl timeout =
      let (calls, cl', ran, order) =
        run_events-callbacks events (record cl { commands = cl.commands ++ req ∷ [] }) timeout in
      (
        calls,
        cl',
        ran,
        order ∙ ap callbacks (append_assoc cl.commands (req ∷ []) (appended events)),
      )
  run_events-callbacks (passes w ∷ events) cl timeout =
      let (calls, cl1, ran, order, same) = worker_pass-Passes h w [] cl timeout in
      let (more, cl2, ran2, order2) =
        run_events-callbacks events cl1 (ap (λ n. n == 0) same ∙ timeout) in
      (
        calls ++ more,
        cl2,
        ap (after_pass (run_events events)) ran ∙ ap (then_calls calls) ran2,
        ap (λ s. s ++ callbacks cl2.commands) (called-append calls more)
            ∙ append_assoc (called calls) (called more) (callbacks cl2.commands)
            ∙ ap (λ s. called calls ++ s) (order2 ∙ callbacks-append cl1.commands (appended events))
            ∙ sym
                (append_assoc (called calls) (callbacks cl1.commands) (callbacks (appended events)))
            ∙ ap (λ s. s ++ callbacks (appended events)) order
            ∙ sym (callbacks-append cl.commands (appended events)),
      )
