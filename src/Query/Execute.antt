-- ===== src/Query/Execute.antt =====
-- BindParamsAndRun, RunThreadPart and the other cases of the switch.
pub mod Ids
pub mod Runs
use clientprefs_redis.Base.{
  ℕ, List, [], ◌∷◌, Option, none, some, Bool, true, false, ◌%◌, ◌^◌, ℤ, pos, if◌then◌else◌,
}
use clientprefs_redis.Text.{Text}
use clientprefs_redis.Text.Decimal.{stoi, to_string}
use clientprefs_redis.State.{
  Cookie, CookieData, QueryOp, QueryType, insert_cookie, select_data, insert_data, select_id,
  connect,
}
use clientprefs_redis.Redis.Reply.{Reply, is_string, get_string}
use clientprefs_redis.Query.Run.{Run, Backend, ◌>>=◌, ◌>>◌, pure, follow, or_throw, command, append}
use clientprefs_redis.Query.Keys.{
  id_key, access_key, desc_key, value_key, get_cmd, set_cmd, sadd_cmd, save_cmd,
}
use clientprefs_redis.Query.Select.{select_data_query}

abbrev id_result : QueryOp → Option ℤ → Bool × QueryOp
id_result op none = (false, op)
id_result op (some id) = (true, record op { insert_id = id })

module _ {Db : Type 0} (b : Backend Db) where
  -- h(name) & 0x7FFFFFFF
  unfoldable pub hash_id : Text → ℤ
  hash_id name = pos (b.hash name % 2 ^ 31)

  -- The id that the server has, or the hash of the name, which is stored.
  insert_cookie_answer : Cookie → Reply → Run Db ℤ
  unfolding hash_id
  insert_cookie_answer k r =
      if is_string r
      then (do append b (sadd_cmd k.name); text ← or_throw (get_string r); or_throw (stoi text))
      else (do
        append b (sadd_cmd k.name)
        append b (set_cmd (access_key k.name) (to_string k.access))
        append b (set_cmd (desc_key k.name) k.description)
        append b (set_cmd (id_key k.name) (to_string (hash_id k.name)))
        pure (hash_id k.name))

  unfoldable pub insert_cookie_query : Cookie → Run Db ℤ
  unfolding insert_cookie_answer
  insert_cookie_query k = do
    answer ← command b (get_cmd (id_key k.name))
    r ← follow answer
    insert_cookie_answer k r

  pub insert_data_query : Text → ℤ → CookieData → Run Db Unit
  insert_data_query steam_id cookie_id x =
      append b (save_cmd (value_key steam_id (to_string cookie_id)) x.value)

  -- `none` is the result false.
  select_id_answer : Reply → Run Db (Option ℤ)
  select_id_answer r =
      if is_string r
      then pure none
      else (do text ← or_throw (get_string r); id ← or_throw (stoi text); pure (some id))

  pub select_id_query : Text → Run Db (Option ℤ)
  select_id_query name = do
    answer ← command b (get_cmd (id_key name))
    r ← follow answer
    select_id_answer r

  -- The switch. Of the heap the query reads its own cookie and data.
  unfoldable pub run_type :
      QueryType → (ℕ → Option Cookie) → (ℕ → Option CookieData) → QueryOp → Run Db (Bool × QueryOp)
  run_type insert_cookie cookies datums op = do
    p ← follow op.params.cookie
    k ← follow (cookies p)
    id ← insert_cookie_query k
    pure (true, record op { insert_id = id })
  run_type select_data cookies datums op = do
    results ← select_data_query b op.params.steam_id
    pure (true, record op { results = results })
  run_type insert_data cookies datums op = do
    d ← follow op.params.datum
    x ← follow (datums d)
    insert_data_query op.params.steam_id op.params.cookie_id x
    pure (true, op)
  run_type select_id cookies datums op = do
    id ← select_id_query op.params.steam_id
    pure (id_result op id)
  run_type connect cookies datums op = pure (false, op)

  -- The query comes back with its results.
  unfoldable pub bind_params_and_run :
      (ℕ → Option Cookie) → (ℕ → Option CookieData) → QueryOp → Run Db (Bool × QueryOp)
  unfolding run_type
  bind_params_and_run cookies datums op = run_type op.type cookies datums op

  unfoldable pub run_or_connect :
      QueryType → (ℕ → Option Cookie) → (ℕ → Option CookieData) → QueryOp → Run Db QueryOp
  run_or_connect connect cookies datums op = pure op
  run_or_connect type cookies datums op = do
    result ← bind_params_and_run cookies datums op
    pure result.1

  -- RunThreadPart: DatabaseConnect is empty, and a query that failed is logged, no more.
  unfoldable pub run_thread_part :
      (ℕ → Option Cookie) → (ℕ → Option CookieData) → QueryOp → Run Db QueryOp
  unfolding run_or_connect
  run_thread_part cookies datums op = run_or_connect op.type cookies datums op
