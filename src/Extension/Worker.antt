-- ===== src/Extension/Worker.antt =====
-- A query thread of SDK_OnLoad in extension.cpp from its start to its end: how it makes, connects and deletes
-- its clients. What connectDb sends behind its loop is `Extension.Config.connect_db`; what a query
-- does is `Query.Execute`.
pub mod Runs
use clientprefs_redis.Base.{
  ℕ, zero, suc, ◌+◌, ◌≤◌, ◌<◌, ◌≡◌, refl, ap, ◌∙◌, List, [], ◌∷◌, ◌++◌, append_assoc, append-nil,
  map, Option, none, some, Bool, true, false, ◌==◌, ◌||◌, ◌&&◌, if◌then◌else◌, Bool-cases, inl, inr,
  All, All-snoc, map-append, sym, arith,
}
use clientprefs_redis.Base.Fault.{M, ◌>>=◌, ◌>>◌, pure, fault, gets, modify, check, deref}
use clientprefs_redis.State.{QueryOp}

-- `client` is `db`, `none` for NULL. A client goes by the number of the attempt for which it was made;
-- `alive` are those that are not deleted, and `ran` the queries with the clients that they were given.
pub record QueryThread : Type 0 where
  pub client : Option ℕ
  pub alive : List ℕ
  pub attempts : ℕ
  pub ran : List (QueryOp × ℕ)
  pub is_ended : Bool

unfoldable pub new_thread : QueryThread
new_thread = record { client = none; alive = []; attempts = 0; ran = []; is_ended = false }

-- A query that GetQuery gives: the answer of IsConnected before it, and whether its RunThreadPart returns,
-- which `Query.Execute.run_thread_part` tells.
pub record QueryRound : Type 0 where
  pub up : Bool
  pub returned : Bool
  pub op : QueryOp

-- Each query's RunThreadPart returns.
pub all_return : List QueryRound → Bool
all_return [] = true
all_return (r ∷ rs) = r.returned && all_return rs

pub is_alive : ℕ → List ℕ → Bool
is_alive n [] = false
is_alive n (m ∷ ms) = (n == m) || is_alive n ms

-- The list without the client that is deleted.
pub without : ℕ → List ℕ → List ℕ
without n [] = []
without n (m ∷ ms) = let rest = without n ms in if n == m then rest else m ∷ rest

pub use_client : ℕ → M QueryThread Unit
unfolding is_alive
use_client n = do alive ← gets (λ t. t.alive); check (is_alive n alive)

pub delete_of : Option ℕ → M QueryThread Unit
unfolding use_client without
delete_of none = pure tt
delete_of (some n) = do
  use_client n
  modify (λ t. record t { client = none; alive = without n t.alive })

-- `delete db; db = nullptr`: a client is deleted once, and NULL is not followed.
pub delete_client : M QueryThread Unit
unfolding delete_of
delete_client = do client ← gets (λ t. t.client); delete_of client

pub connected_of : Bool → Option ℕ → M QueryThread Bool
unfolding use_client
connected_of up none = pure false
connected_of up (some n) = do use_client n; pure up

-- `db && db->IsConnected()`, which looks at the client; `up` is its answer.
pub is_connected : Bool → M QueryThread Bool
unfolding connected_of
is_connected up = do client ← gets (λ t. t.client); connected_of up client

pub make_client : M QueryThread Unit
make_client = modify (λ t. record t {
  client = some t.attempts;
  alive = t.attempts ∷ t.alive;
  attempts = suc t.attempts;
})

-- Commit, SetDatabase, RunThreadPart and PutResult: the client is used. Where RunThreadPart throws, faults or
-- waits for ever, the thread gets no further.
pub run_query : Bool → QueryOp → M QueryThread Unit
unfolding use_client
run_query returned op = do
  client ← gets (λ t. t.client)
  n ← deref client
  use_client n
  check returned
  modify (λ t. record t { ran = t.ran ++ (op, n) ∷ [] })

-- `connects n` tells whether the n-th Connect succeeds, and `prepares n` whether what connectDb does
-- behind its loop returns with the n-th client: it follows a null pointer where AUTH has no answer.
module _ (connects prepares : ℕ → Bool) where
  -- The loop of connectDb, with at most `fuel` rounds: a client is made and tried, and deleted where Connect
  -- fails. `up` is what IsConnected answers of the client that the thread comes with.
  pub connect_rounds : ℕ → Bool → M QueryThread Unit
  unfolding delete_client is_connected make_client
  connect_rounds zero up = fault
  connect_rounds (suc fuel) up = do
    connected ← is_connected up
    if connected then pure tt else (do
      n ← gets (λ t. t.attempts)
      make_client
      if connects n then pure tt else (do delete_client; connect_rounds fuel false))

  pub connect_db_rounds : ℕ → Bool → M QueryThread Unit
  unfolding connect_rounds
  connect_db_rounds fuel up = do
    connect_rounds fuel up
    client ← gets (λ t. t.client)
    n ← deref client
    use_client n
    check (prepares n)

  -- Before a query the client is deleted and replaced where it is not connected any more.
  pub reconnect : ℕ → Bool → M QueryThread Unit
  unfolding connect_db_rounds
  reconnect fuel up = do
    connected ← is_connected up
    if connected then pure tt else (do delete_client; connect_db_rounds fuel false)

  -- The queries that GetQuery gives, and then a null pointer.
  pub query_rounds : ℕ → List QueryRound → M QueryThread Unit
  unfolding reconnect run_query
  query_rounds fuel [] = modify (λ t. record t { is_ended = true })
  query_rounds fuel (r ∷ rounds) = do
    reconnect fuel r.up
    run_query r.returned r.op
    query_rounds fuel rounds

  unfoldable pub query_thread : ℕ → List QueryRound → M QueryThread Unit
  unfolding query_rounds
  query_thread fuel rounds = do
    connect_db_rounds fuel false
    query_rounds fuel rounds
    delete_client
