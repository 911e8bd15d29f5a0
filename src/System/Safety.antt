-- ===== src/System/Safety.antt =====
-- What holds in every world that the extension reaches.
use clientprefs_redis.Base.{
  none, true, false, ℕ, ◌+◌, ◌-◌, ◌≡◌, ◌≢◌, ◌⊎◌, inl, inr, refl, ap, sym, ◌∙◌, List, ◌∷◌, ◌++◌,
  Option, some, ◌==◌, arith, All, Bool-cases,
}
use mathlib.Core.Path.{subst}
use clientprefs_redis.Base.Fault.{◌>>=◌}
use clientprefs_redis.Sdk.{Sdk, Server}
use clientprefs_redis.State.{CookieData, QueryOp, World, Main, new_world, insert_data}
use clientprefs_redis.Natives.{
  Handles, reg_client_pref_cookie, find_client_pref_cookie, set_client_pref_cookie,
  get_client_pref_cookie, get_cookie_access, are_client_cookies_cached_native,
  get_client_cookie_time, set_auth_id_cookie,
}
use clientprefs_redis.Ownership.{Owned, IsSound, SoundType, count, datum_count, is_at, the_client}
use clientprefs_redis.Ownership.Requests.{Ends, some_of}
use clientprefs_redis.Ownership.Arrivals.{attempt_reconnection-Ends, on_client_authorized-Ends}
use clientprefs_redis.Ownership.Leaving.{on_client_disconnecting-Ends}
use clientprefs_redis.Ownership.Frames.{run_frame-Ends}
use clientprefs_redis.Ownership.Threads.{
  All-middle, datum_count-middle, Owned-taken, Owned-finished,
}
use clientprefs_redis.Ownership.Natives.{
  reg_client_pref_cookie-Ends, find_client_pref_cookie-Ends, set_client_pref_cookie-Ends,
  get_client_pref_cookie-Ends, get_cookie_access-Ends, are_client_cookies_cached_native-Ends,
  get_client_cookie_time-Ends, set_auth_id_cookie-Ends, get_client_cookie_time_faults,
  set_auth_id_cookie_faults, get_cookie_iterator-Ends, read_iterator_of-Ends,
}
use clientprefs_redis.Natives.Iterator.{get_cookie_iterator, read_iterator_of}
use clientprefs_redis.Query.Run.{Backend, returns}
use clientprefs_redis.Query.Execute.{run_thread_part}
use clientprefs_redis.Query.Execute.Runs.{run_thread_part-SameHold, run_thread_part_save, saving}
use clientprefs_redis.System.{
  Call, client_authorized, client_disconnecting, map_start, frame, register, find, set_value,
  get_value, read_access, read_cached, read_time, set_auth_value, late, new_iterator, read_iterator,
  IsHost, InRange, is_astray, perform, forget, Step, serve, take_query, finish_query, Reach, loaded,
  later,
}

-- At the start nothing is owned.
Owned-new_world : Owned (λ d. 0) new_world
unfolding new_world
Owned-new_world = record {
  fresh_cookies = λ p m. refl;
  fresh_datums = λ d m. refl;
  kept = λ d. refl;
  parents = λ d m. absurd (omega (arith, m));
  slots = λ p c d k at held. cc at;
  lists = λ c d. ground arith;
  queries = λ d. refl;
  waiting = tt;
  taken = tt;
  finished = tt;
  table = tt;
  listed = tt;
  once = λ p. refl;
  uncached = refl;
}

forget-Ends : {A : Type 0} (m : Main A) (w : World) → Ends m w → Ends (forget m) w
forget-Ends m w (a, v, own, ran, o) = (tt, v, own, rw (◌>>=◌, ran), o)

module _ ⦃sdk : Sdk⦄ (server : Server) (handles : Handles) where
  -- Each call of the main thread returns, and what it leaves is owned.
  perform-Ends :
      (call : Call) (own : ℕ → ℕ) (w : World)
      → IsHost server handles w
      → InRange call
      → is_astray server handles call ≡ false
      → Owned own w
      → Ends (perform server handles call) w
  unfolding perform
  perform-Ends (client_authorized c) own w h r a o =
      on_client_authorized-Ends server h.fits own w c r o
  perform-Ends (client_disconnecting c) own w h r a o =
      on_client_disconnecting-Ends server h.fits own w c r o
  perform-Ends map_start own w h r a o = attempt_reconnection-Ends server h.fits own w o
  perform-Ends (late true) own w h r a o = attempt_reconnection-Ends server h.fits own w o
  perform-Ends (late false) own w h r a o = (tt, w, own, refl, o)
  perform-Ends frame own w h r a o = run_frame-Ends server h.serials own w o
  perform-Ends (register name desc access) own w h r a o =
      forget-Ends (reg_client_pref_cookie handles server name desc access) w
        (reg_client_pref_cookie-Ends handles server h.fits own w name desc access o)
  perform-Ends (find name) own w h r a o =
      forget-Ends (find_client_pref_cookie handles server name) w
        (find_client_pref_cookie-Ends handles server h.fits own w name o)
  perform-Ends (set_value c n value) own w h r a o =
      forget-Ends (set_client_pref_cookie handles server c n value) w
        (set_client_pref_cookie-Ends handles server h.fits own w c n value h.alive o)
  perform-Ends (get_value c n) own w h r a o =
      forget-Ends (get_client_pref_cookie handles server c n) w
        (get_client_pref_cookie-Ends handles server h.fits own w c n h.alive o)
  perform-Ends (read_access n) own w h r a o =
      forget-Ends (get_cookie_access handles server n) w
        (get_cookie_access-Ends handles server h.fits own w n h.alive o)
  perform-Ends (read_cached c) own w h r a o =
      forget-Ends (are_client_cookies_cached_native handles server c) w
        (are_client_cookies_cached_native-Ends handles server h.fits own w c o)
  perform-Ends (read_time c n) own w h r a o =
      forget-Ends (get_client_cookie_time handles server c n) w
        (get_client_cookie_time-Ends handles server h.fits own w c n a h.alive o)
  perform-Ends (set_auth_value id n value) own w h r a o =
      forget-Ends (set_auth_id_cookie handles server id n value) w
        (set_auth_id_cookie-Ends handles server h.fits own w id n value h.alive a o)
  perform-Ends (new_iterator hndl) own w h r a o =
      forget-Ends (get_cookie_iterator server hndl) w
        (get_cookie_iterator-Ends handles server h.fits own w hndl o)
  perform-Ends (read_iterator iter) own w h r a o =
      forget-Ends (read_iterator_of server iter) w
        (read_iterator_of-Ends handles server h.fits own w iter o)

  -- A call that goes astray does not return.
  perform_faults :
      (call : Call) (w : World)
      → IsHost server handles w
      → is_astray server handles call ≡ true
      → perform server handles call w ≡ none
  unfolding perform
  perform_faults (read_time c n) w h a =
      rw (◌>>=◌, get_client_cookie_time_faults handles server h.fits w c n a) refl
  perform_faults (set_auth_value id n value) w h a =
      rw (◌>>=◌, set_auth_id_cookie_faults handles server h.fits w id n value a) refl
  perform_faults (client_authorized c) w h a = cc
  perform_faults (client_disconnecting c) w h a = cc
  perform_faults map_start w h a = cc
  perform_faults frame w h a = cc
  perform_faults (late there) w h a = cc
  perform_faults (register name desc access) w h a = cc
  perform_faults (find name) w h a = cc
  perform_faults (set_value c n value) w h a = cc
  perform_faults (get_value c n) w h a = cc
  perform_faults (read_access n) w h a = cc
  perform_faults (read_cached c) w h a = cc
  perform_faults (new_iterator hndl) w h a = cc
  perform_faults (read_iterator iter) w h a = cc

world_is : (w v : World) → ◌≡◌ {A = Option (Unit {0} × World)} (some (tt, w)) (some (tt, v)) → w ≡ v
world_is w v h = cc h

-- How often a value is held by the queries.
abbrev pub held_by_queries : World → ℕ → ℕ
held_by_queries w d =
    datum_count d w.query_queue + (datum_count d w.running + datum_count d w.result_queue)

only_place :
    (own : ℕ → ℕ) (w : World) (d c : ℕ)
    → Owned own w
    → own d ≡ the_client c
    → (count d (w.client_data c) ≡ 1)
      × (held_by_queries w d ≡ 0)
      × ((e : ℕ) → e ≢ c → count d (w.client_data e) ≡ 0)
only_place own w d c o his = (
  ground (arith, o.lists c d),
  ground (arith, o.queries d),
  λ e other. ground (arith, o.lists e d),
)

-- The value stands in the list of one client, once, or in one query, once, and nowhere else.
abbrev pub HasOnePlace : World → ℕ → Type 0
HasOnePlace w d =
    ((c : ℕ) × (count d (w.client_data c) ≡ 1)
      × (held_by_queries w d ≡ 0)
      × ((e : ℕ) → e ≢ c → count d (w.client_data e) ≡ 0))
    ⊎ ((held_by_queries w d ≡ 1) × ((e : ℕ) → count d (w.client_data e) ≡ 0))

pub Owned-one_place :
    (own : ℕ → ℕ) (w : World) (d : ℕ) (x : CookieData)
    → Owned own w
    → w.datums d ≡ some x
    → HasOnePlace w d
Owned-one_place own w d x o alive =
    let owned : own d ≢ 0 = λ e. ground (arith, o.kept d) in
    elim (Bool-cases (own d == 1)) [
      | inl query ↦ inr (ground (arith, o.queries d), λ e. ground (arith, o.lists e d))
      | inr client ↦
          let his : own d ≡ the_client (own d - 2) = ground arith in
          let (one, unheld, elsewhere) = only_place own w d (own d - 2) o his in
          inl (own d - 2, one, unheld, elsewhere)
    ]

-- The value of a query that a thread has taken.
held_alive :
    (own : ℕ → ℕ) (w : World) (before after : List QueryOp) (op : QueryOp)
    → Owned own w
    → w.running ≡ before ++ op ∷ after
    → op.type ≡ insert_data
    → (d : ℕ) × (op.params.datum ≡ some d) × (own d ≡ 1)
held_alive own w before after op o running type =
    let (sound, others) =
      All-middle (IsSound w) before op after (subst (All (IsSound w)) running o.taken) in
    let (d, holds) = some_of op.params.datum (subst (λ t. SoundType w t op) type sound) in
    let once = datum_count-middle d before op after in
    (d, holds, ground (arith, o.queries d, ap (datum_count d) running, once, ap (is_at d) holds))

module _ {Db : Type 0} (b : Backend Db) ⦃sdk : Sdk⦄ where
  Step-Owned :
      (w v : World) (db db' : Db) (own : ℕ → ℕ)
      → Step b w db v db'
      → Owned own w
      → (own' : ℕ → ℕ) × Owned own' v
  Step-Owned w v db db' own (serve server handles call host range ran same) o =
      elim (Bool-cases (is_astray server handles call)) [
        | inl astray ↦ absurd (cc (perform_faults server handles call w host astray, ran))
        | inr safe ↦
            let (n, u, own1, ran', o1) = perform-Ends server handles call own w host range safe o in
            (own1, subst (Owned own1) (world_is u v (sym ran' ∙ ran)) o1)
      ]
  Step-Owned w v db db' own (take_query op ops queue is same) o =
      (own, subst (Owned own) (sym is) (Owned-taken own w op ops queue o))
  Step-Owned w v db db' own (finish_query before after op op' running ran is) o =
      let s = run_thread_part-SameHold b w.cookies w.datums op op' db db' ran in
      (own, subst (Owned own) (sym is) (Owned-finished own w before after op op' running s o))

  -- In every world that is reached, whatever the calls, the threads and the server did: what is owned is alive
  -- and what is alive is owned, each value stands once where its owner keeps it and nowhere else, the
  -- slots of cookies lead to values of the slot's client, the values to cookies, and the queries to what
  -- their threads and frames follow. The list of cookies holds each cookie that is alive once, and no other.
  pub Reach-Owned :
      (start : Db) (w : World) (db : Db) → Reach b start w db → (own : ℕ → ℕ) × Owned own w
  Reach-Owned start w db loaded = (_, Owned-new_world)
  Reach-Owned start w db (later {w = u} {db = db1} r st) =
      let (own, o) = Reach-Owned start u db1 r in Step-Owned u w db1 db own st o

  -- In every world that is reached, a call of the main thread does not return exactly if it goes astray in one of
  -- two ways: GetClientCookieTime at a cookie for a client that has no place in the arrays, which it does not
  -- check, or SetAuthIdCookie at a cookie where the search for the id comes to an authorized player with an id that
  -- is NULL before it finds the id. All other callbacks, the frame, the end of SDK_OnLoad, and all other
  -- calls of RegClientCookie, FindClientCookie, SetClientCookie, GetClientCookie, GetCookieAccess,
  -- AreClientCookiesCached, GetClientCookieTime, SetAuthIdCookie, GetCookieIterator and ReadCookieIterator return,
  -- and follow no null or dangling pointer and leave no array. The arrays must have places for the clients of the
  -- server and of the callbacks, and a handle that is read must lead to a cookie that is alive.
  pub perform-returns :
      (start : Db) (w : World) (db : Db) (server : Server) (handles : Handles) (call : Call)
      → Reach b start w db
      → IsHost server handles w
      → InRange call
      → ((is_astray server handles call ≡ false)
          × (v : World) × (perform server handles call w ≡ some (tt, v)))
        ⊎ ((is_astray server handles call ≡ true) × (perform server handles call w ≡ none))
  perform-returns start w db server handles call r host range =
      let (own, o) = Reach-Owned start w db r in
      elim (Bool-cases (is_astray server handles call)) [
        | inl astray ↦ inr (astray, perform_faults server handles call w host astray)
        | inr safe ↦
            let (n, v, own1, ran, o1) = perform-Ends server handles call own w host range safe o in
            inl (safe, v, ran)
      ]

  -- In every world that is reached, no value leaks and none is freed or saved twice: each value that is alive
  -- stands in the list of one client, once, and in no other list and no query, or is held by one query,
  -- once, and stands in no list.
  pub one_owner :
      (start : Db) (w : World) (db : Db) (d : ℕ) (x : CookieData)
      → Reach b start w db
      → w.datums d ≡ some x
      → ((c : ℕ) × (count d (w.client_data c) ≡ 1)
          × (held_by_queries w d ≡ 0)
          × ((e : ℕ) → e ≢ c → count d (w.client_data e) ≡ 0))
        ⊎ ((held_by_queries w d ≡ 1) × ((e : ℕ) → count d (w.client_data e) ≡ 0))
  one_owner start w db d x r alive =
      let (own, o) = Reach-Owned start w db r in Owned-one_place own w d x o alive

  -- In every world that is reached, a thread that holds a query for saving a value runs it to its
  -- end: the value is still there, and what is sent is that value under the player's id and the cookie's
  -- id, with the two weeks that it is kept. The query comes back as it was.
  pub save_returns :
      (start : Db) (w : World) (db : Db) (before after : List QueryOp) (op : QueryOp)
      → Reach b start w db
      → w.running ≡ before ++ op ∷ after
      → op.type ≡ insert_data
      → (d : ℕ) × (x : CookieData) × (op.params.datum ≡ some d)
        × (w.datums d ≡ some x)
        × (run_thread_part b w.cookies w.datums op db
            ≡ returns (op, (b.command db (saving b op x)).1))
  save_returns start w db before after op r running type =
      let (own, o) = Reach-Owned start w db r in
      let (d, holds, his) = held_alive own w before after op o running type in
      let (x, found) = some_of (w.datums d) (ground (arith, o.kept d)) in
      (d, x, holds, found, run_thread_part_save b w.cookies w.datums op d x db type holds found)
