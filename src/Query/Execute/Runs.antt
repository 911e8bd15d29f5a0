-- ===== src/Query/Execute/Runs.antt =====
-- What a query looks like when a thread has run it.
use clientprefs_redis.Base.{
  ℕ, ℤ, ◌≡◌, refl, ap, sym, ◌∙◌, List, Option, none, some, Bool, true, false,
}
use clientprefs_redis.Text.{Text}
use clientprefs_redis.State.{
  Cookie, CookieData, QueryOp, QueryType, insert_cookie, select_data, insert_data, select_id,
  connect,
}
use clientprefs_redis.Query.Run.{
  Run, Outcome, Backend, returns, throws, faults, ◌>>=◌, pure, follow,
}
use clientprefs_redis.Query.Keys.{save_cmd, value_key}
use clientprefs_redis.Text.Decimal.{to_string}
use clientprefs_redis.Query.Select.{select_data_query}
use clientprefs_redis.Query.Execute.{
  run_thread_part, bind_params_and_run, run_or_connect, run_type, id_result, insert_cookie_query,
  insert_data_query, select_id_query,
}

-- A run that returned went through its parts.
after :
    {Db A B : Type 0} (o : Outcome (A × Db)) (f : A → Run Db B) (r : B × Db)
    → (elim o [ returns (a, db') ↦ f a db' | throws ↦ throws | faults ↦ faults ]) ≡ returns r
    → (a : A) × (db' : Db) × (o ≡ returns (a, db')) × (f a db' ≡ returns r)
after (returns (a, db')) f r h = (a, db', refl, h)
after throws f r h = cc
after faults f r h = cc

returned :
    {Db A B : Type 0} (m : Run Db A) (f : A → Run Db B) (db : Db) (r : B × Db)
    → (m >>= f) db ≡ returns r
    → (a : A) × (db' : Db) × (m db ≡ returns (a, db')) × (f a db' ≡ returns r)
returned m f db r h = after (m db) f r h

follow-some :
    {Db A B : Type 0} (o : Option A) (a : A) (f : A → Run Db B) (db : Db)
    → o ≡ some a
    → (follow o >>= f) db ≡ f a db
follow-some o a f db e = rw (◌>>=◌, e)

-- The query has the type and the pointers that it had.
pub record SameHold (op op' : QueryOp) : Type 0 where
  pub type_is : op'.type ≡ op.type
  pub cookie_is : op'.cookie ≡ op.cookie
  pub params_is : op'.params ≡ op.params

same : (op : QueryOp) → SameHold op op
same op = record { type_is = refl; cookie_is = refl; params_is = refl }

of_pair :
    {Db : Type 0} (op op1 op' : QueryOp) (done done' : Bool) (db db' : Db)
    → SameHold op op1
    → ◌≡◌ {A = Outcome ((Bool × QueryOp) × Db)}
        (returns ((done, op1), db))
        (returns ((done', op'), db'))
    → SameHold op op'
of_pair op op1 op' done done' db db' s h =
    let e : op1 ≡ op' = cc h in
    record {
      type_is = sym (ap (λ (o : QueryOp). o.type) e) ∙ s.type_is;
      cookie_is = sym (ap (λ (o : QueryOp). o.cookie) e) ∙ s.cookie_is;
      params_is = sym (ap (λ (o : QueryOp). o.params) e) ∙ s.params_is;
    }

same_id : (op : QueryOp) (id : ℤ) → SameHold op (record op { insert_id = id })
same_id op id = record { type_is = refl; cookie_is = refl; params_is = refl }

same_results : (op : QueryOp) (rs : List (Cookie × Text)) → SameHold op (record op { results = rs })
same_results op rs = record { type_is = refl; cookie_is = refl; params_is = refl }

with_flag : {Db : Type 0} → Bool → Outcome (QueryOp × Db) → Outcome ((Bool × QueryOp) × Db)
with_flag done (returns (op, db)) = returns ((done, op), db)
with_flag done throws = throws
with_flag done faults = faults

id_result-SameHold : (op : QueryOp) (o : Option ℤ) → SameHold op (id_result op o).1
id_result-SameHold op none = same op
id_result-SameHold op (some id) = record { type_is = refl; cookie_is = refl; params_is = refl }

module _ {Db : Type 0} (b : Backend Db) where
  run_type-SameHold :
      (t : QueryType) (cookies : ℕ → Option Cookie) (datums : ℕ → Option CookieData)
      (op op' : QueryOp) (done : Bool) (db db' : Db)
      → run_type b t cookies datums op db ≡ returns ((done, op'), db')
      → SameHold op op'
  unfolding run_type
  run_type-SameHold insert_cookie cookies datums op op' done db db' h =
      let (p, db1, e1, h1) = returned (follow op.params.cookie) _ db ((done, op'), db') h in
      let (k, db2, e2, h2) = returned (follow (cookies p)) _ db1 ((done, op'), db') h1 in
      let (id, db3, e3, h3) = returned (insert_cookie_query b k) _ db2 ((done, op'), db') h2 in
      of_pair op _ op' true done db3 db' (same_id op id) h3
  run_type-SameHold select_data cookies datums op op' done db db' h =
      let (results, db1, e1, h1) =
        returned (select_data_query b op.params.steam_id) _ db ((done, op'), db') h in
      of_pair op _ op' true done db1 db' (same_results op results) h1
  run_type-SameHold insert_data cookies datums op op' done db db' h =
      let (d, db1, e1, h1) = returned (follow op.params.datum) _ db ((done, op'), db') h in
      let (x, db2, e2, h2) = returned (follow (datums d)) _ db1 ((done, op'), db') h1 in
      let (n, db3, e3, h3) =
        returned (insert_data_query b op.params.steam_id op.params.cookie_id x) _ db2
          ((done, op'), db') h2 in
      of_pair op op op' true done db3 db' (same op) h3
  run_type-SameHold select_id cookies datums op op' done db db' h =
      let (id, db1, e1, h1) =
        returned (select_id_query b op.params.steam_id) _ db ((done, op'), db') h in
      of_pair op (id_result op id).1 op' (id_result op id).0 done db1 db' (id_result-SameHold op id)
        h1
  run_type-SameHold connect cookies datums op op' done db db' h =
      of_pair op op op' false done db db' (same op) h

  by_result :
      (op op' : QueryOp) (cookies : ℕ → Option Cookie) (datums : ℕ → Option CookieData)
      (db db' : Db)
      → (bind_params_and_run b cookies datums op >>= λ result. pure result.1) db
        ≡ returns (op', db')
      → SameHold op op'
  unfolding bind_params_and_run with_flag
  by_result op op' cookies datums db db' h =
      let ((done, op1), db1, e1, h1) =
        returned (bind_params_and_run b cookies datums op) _ db (op', db') h in
      let s = run_type-SameHold op.type cookies datums op op1 done db db1 e1 in
      of_pair op op1 op' done done db1 db' s
        (ap (λ (o : Outcome (QueryOp × Db)). with_flag done o) h1)

  run_or_connect-SameHold :
      (t : QueryType) (cookies : ℕ → Option Cookie) (datums : ℕ → Option CookieData)
      (op op' : QueryOp) (db db' : Db)
      → run_or_connect b t cookies datums op db ≡ returns (op', db')
      → SameHold op op'
  unfolding run_or_connect with_flag
  run_or_connect-SameHold connect cookies datums op op' db db' h =
      of_pair op op op' true true db db' (same op)
        (ap (λ (o : Outcome (QueryOp × Db)). with_flag true o) h)
  run_or_connect-SameHold insert_cookie cookies datums op op' db db' h =
      by_result op op' cookies datums db db' h
  run_or_connect-SameHold select_data cookies datums op op' db db' h =
      by_result op op' cookies datums db db' h
  run_or_connect-SameHold insert_data cookies datums op op' db db' h =
      by_result op op' cookies datums db db' h
  run_or_connect-SameHold select_id cookies datums op op' db db' h =
      by_result op op' cookies datums db db' h

  -- Whatever a thread does with a query, its type and its pointers stay.
  pub run_thread_part-SameHold :
      (cookies : ℕ → Option Cookie) (datums : ℕ → Option CookieData) (op op' : QueryOp)
      (db db' : Db)
      → run_thread_part b cookies datums op db ≡ returns (op', db')
      → SameHold op op'
  unfolding run_thread_part
  run_thread_part-SameHold cookies datums op op' db db' h =
      run_or_connect-SameHold op.type cookies datums op op' db db' h

  -- The command that saves the value of an object for a query.
  abbrev pub saving : QueryOp → CookieData → List Text
  saving op x = save_cmd (value_key op.params.steam_id (to_string op.params.cookie_id)) x.value

  save_type :
      (cookies : ℕ → Option Cookie) (datums : ℕ → Option CookieData) (op : QueryOp) (d : ℕ)
      (x : CookieData) (db : Db)
      → op.params.datum ≡ some d
      → datums d ≡ some x
      → run_type b insert_data cookies datums op db
        ≡ returns ((true, op), (b.command db (saving op x)).1)
  unfolding run_type insert_data_query
  save_type cookies datums op d x db holds found =
      follow-some op.params.datum d _ db holds ∙ follow-some (datums d) x _ db found

  save_part :
      (cookies : ℕ → Option Cookie) (datums : ℕ → Option CookieData) (op : QueryOp) (d : ℕ)
      (x : CookieData) (db : Db)
      → op.type ≡ insert_data
      → op.params.datum ≡ some d
      → datums d ≡ some x
      → run_or_connect b insert_data cookies datums op db
        ≡ returns (op, (b.command db (saving op x)).1)
  unfolding run_or_connect bind_params_and_run
  save_part cookies datums op d x db type holds found =
      let ran =
        ap (λ t. run_type b t cookies datums op db) type
        ∙ save_type cookies datums op d x db holds found in
      rw (◌>>=◌, ran)

  -- A query that saves a value runs to its end, whatever the server does.
  pub run_thread_part_save :
      (cookies : ℕ → Option Cookie) (datums : ℕ → Option CookieData) (op : QueryOp) (d : ℕ)
      (x : CookieData) (db : Db)
      → op.type ≡ insert_data
      → op.params.datum ≡ some d
      → datums d ≡ some x
      → run_thread_part b cookies datums op db ≡ returns (op, (b.command db (saving op x)).1)
  unfolding run_thread_part
  run_thread_part_save cookies datums op d x db type holds found =
      ap (λ t. run_or_connect b t cookies datums op db) type
      ∙ save_part cookies datums op d x db type holds found
