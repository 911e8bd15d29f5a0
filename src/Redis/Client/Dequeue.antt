-- ===== src/Redis/Client/Dequeue.antt =====
-- The loop of `send` in client.cpp that waits for requests without a pipeline timeout.
use clientprefs_redis.Base.{
  ℕ, zero, suc, ◌+◌, ◌-◌, ◌≡◌, ◌≤◌, ◌<◌, ap, ◌∙◌, List, [], ◌∷◌, ◌++◌, Option, none, some, Bool,
  true, false, inl, inr, Bool-cases, ◌&&◌, not, ltb, arith, length, drop, replicate, if◌then◌else◌,
}
use clientprefs_redis.Redis.Client.{CommandRequest}

-- One wait_dequeue_bulk_timed: what it took, and `stopped` and `flush_pipeline` after it.
pub record Round : Type 0 where
  pub took : List CommandRequest
  pub stopped : Bool
  pub flush_pipeline : Bool

-- A default command_request.
abbrev pub no_request : CommandRequest
no_request = record { command = []; callback = none }

-- The requests are written from `reqs.begin()` on, each time.
abbrev pub write_at_begin : List CommandRequest → List CommandRequest → List CommandRequest
write_at_begin took reqs = took ++ drop (length took) reqs

-- The rounds of the do-while loop, to the last that its condition asks for: the number of requests and
-- the vector. Where the rounds end before, the loop still waits.
unfoldable pub dequeue_rounds :
    ℕ → ℕ → List CommandRequest → List Round → Option (ℕ × List CommandRequest)
dequeue_rounds queue_size dequeued reqs [] = none
dequeue_rounds queue_size dequeued reqs (r ∷ rs) =
    let dequeued' = dequeued + length r.took in
    let reqs' = write_at_begin r.took reqs in
    let rest = dequeue_rounds queue_size dequeued' reqs' rs in
    if not r.stopped && (ltb dequeued' queue_size && not r.flush_pipeline)
    then rest
    else some (dequeued', reqs')

-- resize(max(cache_size, queue_size)) of a cleared vector, and then the loop.
unfoldable pub dequeue_bulk : ℕ → ℕ → List Round → Option (ℕ × List CommandRequest)
unfolding dequeue_rounds
dequeue_bulk cache_size size_approx rounds =
    let queue_size = if ltb cache_size size_approx then size_approx else cache_size in
    dequeue_rounds queue_size 0 (replicate queue_size no_request) rounds

drop-replicate : (k n : ℕ) (r : CommandRequest) → drop k (replicate n r) ≡ replicate (n - k) r
drop-replicate zero n r = let e : n ≡ n - 0 = omega arith in ap (λ k. replicate k r) e
drop-replicate (suc k) zero r =
    let e : zero ≡ zero - suc k = omega arith in ap (λ k. replicate k r) e
drop-replicate (suc k) (suc n) r =
    let e : n - k ≡ suc n - suc k = omega arith in drop-replicate k n r ∙ ap (λ k. replicate k r) e

drop-append :
    (k : ℕ) (xs ys : List CommandRequest)
    → length xs ≤ k
    → drop k (xs ++ ys) ≡ drop (k - length xs) ys
drop-append k [] ys h = let e : k ≡ k - 0 = omega arith in ap (λ j. drop j ys) e
drop-append zero (x ∷ xs) ys h = absurd (omega arith)
drop-append (suc k) (x ∷ xs) ys h =
    let e : k - length xs ≡ suc k - suc (length xs) = omega arith in
    drop-append k xs ys (omega arith) ∙ ap (λ j. drop j ys) e

-- What is behind the second write.
overwritten :
    (first second : List CommandRequest) (n : ℕ)
    → length first ≤ length second
    → write_at_begin second (write_at_begin first (replicate n no_request))
      ≡ second ++ replicate (n - length second) no_request
overwritten first second n h =
    let e1 = drop-append (length second) first (drop (length first) (replicate n no_request)) h in
    let e2 =
      ap (drop (length second - length first)) (drop-replicate (length first) n no_request) in
    let e3 = drop-replicate (length second - length first) (n - length first) no_request in
    let e4 : n - length first - (length second - length first) ≡ n - length second = omega arith in
    ap (λ xs. second ++ xs) (e1 ∙ e2 ∙ e3 ∙ ap (λ k. replicate k no_request) e4)

-- If the loop takes requests in one round, and as many or more, and one at least, in a second,
-- after which it is told to flush, then it counts all of them, but those of the first round are
-- gone: the vector holds those of the second from its beginning, and default requests behind them.
-- The cache size must be at least the size of the queue that was read, as for a queue that fills while the
-- loop waits, and all the requests must fit into the cache size.
pub dequeue_bulk_two :
    (cache_size size_approx : ℕ) (first second : List CommandRequest)
    → size_approx ≤ cache_size
    → length first + length second ≤ cache_size
    → length first ≤ length second
    → 0 < length second
    → dequeue_bulk cache_size size_approx (
        record { took = first; stopped = false; flush_pipeline = false }
        ∷ record { took = second; stopped = false; flush_pipeline = true }
        ∷ [])
      ≡ some (
        length first + length second,
        second ++ replicate (cache_size - length second) no_request,
      )
unfolding dequeue_bulk dequeue_rounds
dequeue_bulk_two cache_size size_approx first second size fits more some_taken =
    let e = overwritten first second cache_size more in
    let e1 : ltb cache_size size_approx ≡ false = ground arith in
    let e2 : ltb (length first) cache_size ≡ true = ground arith in
    let z : 0 + length first ≡ length first = omega arith in
    elim (Bool-cases (ltb (length first + length second) cache_size)) [
      | inl more_to_come ↦ rw (e1, if◌then◌else◌, z, e2, e, more_to_come)
      | inr full ↦ rw (e1, if◌then◌else◌, z, e2, e, full)
    ]
