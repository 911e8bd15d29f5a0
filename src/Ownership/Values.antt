-- ===== src/Ownership/Values.antt =====
-- A value comes to a client or to a query, and goes.
use clientprefs_redis.Base.{
  ℕ, suc, ◌≤◌, ◌<◌, ◌≡◌, refl, ap, sym, inl, inr, List, [], ◌∷◌, ◌++◌, Option, none, some, true,
  false, ◌==◌, arith, Bool-cases, ℤ,
}
use mathlib.Core.Path.{subst}
use clientprefs_redis.Base.Fault.{update}
use clientprefs_redis.Text.{Text}
use clientprefs_redis.Sdk.{Sdk}
use clientprefs_redis.State.{
  Cookie, CookieData, QueryOp, World, insert_data, cookie_op, insert_cookie,
}
use clientprefs_redis.CookieManager.Create.{with_cookie}
use clientprefs_redis.Connect.Registry.{linked}
use clientprefs_redis.Ownership.{
  Owned, IsSound, SoundType, count, is_at, is_some, parent_of, the_client,
}
use clientprefs_redis.Ownership.Parts.{
  Keeps, ptr_alive-Keeps, All-IsSound-Keeps, table-Keeps, listed-Keeps, All-append, count-append,
  datum_count-append,
}

module _ ⦃sdk : Sdk⦄ where
  -- A cookie without values is made, entered, and queued for its id.
  pub Owned-with_cookie :
      (own : ℕ → ℕ) (w : World) (name : Text) (k : Cookie)
      → ((c : ℕ) → k.data_at c ≡ none)
      → Owned own w
      → Owned own (with_cookie w name k)
  Owned-with_cookie own w name k empty o =
      let v = with_cookie w name k in
      let keep : Keeps w v = λ q h. ground arith in
      let here : is_some (v.cookies w.next) ≡ true = ground arith in
      let op : QueryOp = record (cookie_op insert_cookie w.next) {
        params = record { cookie = some w.next; steam_id = []; cookie_id = ℤ.pos 0; datum = none };
      } in
      record {
        fresh_cookies = λ q m. ground (arith, o.fresh_cookies q);
        fresh_datums = λ d m. o.fresh_datums d (omega arith);
        kept = o.kept;
        parents = λ d m. ptr_alive-Keeps w v (parent_of (w.datums d)) keep (o.parents d m);
        slots = λ p c d i at held. ground (arith, o.slots p c d i, empty c);
        lists = o.lists;
        queries = λ d. ground (arith, o.queries d, datum_count-append d w.query_queue (op ∷ []));
        waiting =
            All-append (IsSound v) w.query_queue (op ∷ [])
              (All-IsSound-Keeps w v w.query_queue keep o.waiting) ((refl, here, here), tt);
        taken = All-IsSound-Keeps w v w.running keep o.taken;
        finished = All-IsSound-Keeps w v w.result_queue keep o.finished;
        table = (here, table-Keeps w v w.finder keep o.table);
        listed =
            All-append (λ p. is_some (v.cookies p) ≡ true) w.cookie_list (w.next ∷ [])
              (listed-Keeps w v w.cookie_list keep o.listed) (here, tt);
        once = λ q.
            ground (arith, o.once q, o.fresh_cookies q, count-append q w.cookie_list (w.next ∷ []));
        uncached = o.uncached;
      }

  -- A new value is written, linked with its cookie, and appended to the client's list.
  pub Owned-linked :
      (own : ℕ → ℕ) (w : World) (client p d : ℕ) (k : Cookie) (x : CookieData)
      → own d ≡ 0
      → d < w.next
      → w.cookies p ≡ some k
      → x.parent ≡ some p
      → Owned own w
      → Owned (update own d (the_client client)) (linked w client p k d x)
  Owned-linked own w client p d k x free below alive child o =
      let v = linked w client p k d x in
      let keep : Keeps w v = λ q h. ground arith in
      record {
        fresh_cookies = λ q m. ground (arith, o.fresh_cookies q);
        fresh_datums = λ e m. ground (arith, o.fresh_datums e);
        kept = λ e. ground (arith, o.kept e);
        parents = λ e m. elim (Bool-cases (d == e)) [
          | inl new ↦ ground arith
          | inr old ↦
              let m' : 2 ≤ own e = ground arith in
              rw old (ptr_alive-Keeps w v (parent_of (w.datums e)) keep (o.parents e m'))
        ];
        slots = λ q c e i at held. ground (arith, o.slots q c e i, o.slots q c e k);
        lists = λ c e. ground (arith, o.lists c e, count-append e (w.client_data c) (d ∷ []));
        queries = λ e. ground (arith, o.queries e);
        waiting = All-IsSound-Keeps w v w.query_queue keep o.waiting;
        taken = All-IsSound-Keeps w v w.running keep o.taken;
        finished = All-IsSound-Keeps w v w.result_queue keep o.finished;
        table = table-Keeps w v w.finder keep o.table;
        listed = listed-Keeps w v w.cookie_list keep o.listed;
        once = λ q. ground (arith, o.once q);
        uncached = o.uncached;
      }

-- The cookie without the client's value.
abbrev pub unlinked : Cookie → ℕ → Cookie
unlinked k client = record k { data_at = update k.data_at client none }

pub IsSound-saving :
    (w : World) (op : QueryOp) (d : ℕ)
    → op.type ≡ insert_data
    → op.params.datum ≡ some d
    → IsSound w op
IsSound-saving w op d type holds =
    subst (λ t. SoundType w t op) (sym type) (ap (λ (o : Option ℕ). is_some o) holds)

owner_of_first :
    (own : ℕ → ℕ) (w : World) (client d : ℕ) (ds : List ℕ)
    → w.client_data client ≡ d ∷ ds
    → Owned own w
    → own d ≡ the_client client
owner_of_first own w client d ds first o = ground (arith, o.lists client d, ap (count d) first)

-- The first value of a client's list is taken out of its cookie and deleted.
pub Owned-dropped :
    (own : ℕ → ℕ) (w : World) (client p d : ℕ) (k : Cookie) (ds : List ℕ)
    → w.client_data client ≡ d ∷ ds
    → w.cookies p ≡ some k
    → parent_of (w.datums d) ≡ some p
    → Owned own w
    → Owned (update own d 0) (record w {
      cookies = update w.cookies p (some (unlinked k client));
      datums = update w.datums d none;
      client_data = update w.client_data client ds;
    })
Owned-dropped own w client p d k ds first alive child o =
    let v : World = record w {
      cookies = update w.cookies p (some (unlinked k client));
      datums = update w.datums d none;
      client_data = update w.client_data client ds;
    } in
    let keep : Keeps w v = λ q h. ground arith in
    let his = owner_of_first own w client d ds first o in
    record {
      fresh_cookies = λ q m. ground (arith, o.fresh_cookies q);
      fresh_datums = λ e m. ground (arith, o.fresh_datums e);
      kept = λ e. ground (arith, o.kept e);
      parents = λ e m.
          let m' : 2 ≤ own e = ground arith in
          let old : (d == e) ≡ false = ground arith in
          rw old (ptr_alive-Keeps w v (parent_of (w.datums e)) keep (o.parents e m'));
      slots = λ q c e i at held. ground (arith, o.slots q c e i, o.slots q c e k);
      lists = λ c e. ground (arith, o.lists c e, o.lists client e, ap (count e) first);
      queries = λ e. ground (arith, o.queries e);
      waiting = All-IsSound-Keeps w v w.query_queue keep o.waiting;
      taken = All-IsSound-Keeps w v w.running keep o.taken;
      finished = All-IsSound-Keeps w v w.result_queue keep o.finished;
      table = table-Keeps w v w.finder keep o.table;
      listed = listed-Keeps w v w.cookie_list keep o.listed;
      once = λ q. ground (arith, o.once q);
      uncached = o.uncached;
    }

-- The first value of a client's list is taken out of its cookie and handed to a query.
pub Owned-handed :
    (own : ℕ → ℕ) (w : World) (client p d : ℕ) (k : Cookie) (ds : List ℕ) (op : QueryOp)
    → w.client_data client ≡ d ∷ ds
    → w.cookies p ≡ some k
    → parent_of (w.datums d) ≡ some p
    → op.type ≡ insert_data
    → op.params.datum ≡ some d
    → Owned own w
    → Owned (update own d 1) (record w {
      cookies = update w.cookies p (some (unlinked k client));
      query_queue = w.query_queue ++ op ∷ [];
      client_data = update w.client_data client ds;
    })
Owned-handed own w client p d k ds op first alive child type holds o =
    let v : World = record w {
      cookies = update w.cookies p (some (unlinked k client));
      query_queue = w.query_queue ++ op ∷ [];
      client_data = update w.client_data client ds;
    } in
    let keep : Keeps w v = λ q h. ground arith in
    let his = owner_of_first own w client d ds first o in
    record {
      fresh_cookies = λ q m. ground (arith, o.fresh_cookies q);
      fresh_datums = λ e m. ground (arith, o.fresh_datums e);
      kept = λ e. ground (arith, o.kept e);
      parents = λ e m.
          let m' : 2 ≤ own e = ground arith in
          ptr_alive-Keeps w v (parent_of (w.datums e)) keep (o.parents e m');
      slots = λ q c e i at held. ground (arith, o.slots q c e i, o.slots q c e k);
      lists = λ c e. ground (arith, o.lists c e, o.lists client e, ap (count e) first);
      queries = λ e.
          ground
            (arith, o.queries e, datum_count-append e w.query_queue (op ∷ []), ap (is_at e) holds);
      waiting =
          All-append (IsSound v) w.query_queue (op ∷ [])
            (All-IsSound-Keeps w v w.query_queue keep o.waiting)
            (IsSound-saving v op d type holds, tt);
      taken = All-IsSound-Keeps w v w.running keep o.taken;
      finished = All-IsSound-Keeps w v w.result_queue keep o.finished;
      table = table-Keeps w v w.finder keep o.table;
      listed = listed-Keeps w v w.cookie_list keep o.listed;
      once = λ q. ground (arith, o.once q);
      uncached = o.uncached;
    }

-- A new value is made for a query.
pub Owned-payload :
    (own : ℕ → ℕ) (w : World) (x : CookieData) (op : QueryOp)
    → op.type ≡ insert_data
    → op.params.datum ≡ some w.next
    → Owned own w
    → Owned (update own w.next 1) (record w {
      datums = update w.datums w.next (some x);
      next = suc w.next;
      query_queue = w.query_queue ++ op ∷ [];
    })
Owned-payload own w x op type holds o =
    let v : World = record w {
      datums = update w.datums w.next (some x);
      next = suc w.next;
      query_queue = w.query_queue ++ op ∷ [];
    } in
    let free : own w.next ≡ 0 = o.fresh_datums w.next (omega arith) in
    record {
      fresh_cookies = λ q m. o.fresh_cookies q (omega arith);
      fresh_datums = λ e m. ground (arith, o.fresh_datums e);
      kept = λ e. ground (arith, o.kept e);
      parents = λ e m.
          let m' : 2 ≤ own e = ground arith in
          let old : (w.next == e) ≡ false = ground arith in rw old (o.parents e m');
      slots = λ q c e i at held. ground (arith, o.slots q c e i at held);
      lists = λ c e. ground (arith, o.lists c e);
      queries = λ e.
          ground
            (arith, o.queries e, datum_count-append e w.query_queue (op ∷ []), ap (is_at e) holds);
      waiting =
          All-append (IsSound v) w.query_queue (op ∷ []) o.waiting
            (IsSound-saving v op w.next type holds, tt);
      taken = o.taken;
      finished = o.finished;
      table = o.table;
      listed = o.listed;
      once = λ q. ground (arith, o.once q);
      uncached = o.uncached;
    }
