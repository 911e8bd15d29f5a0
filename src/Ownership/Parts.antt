-- ===== src/Ownership/Parts.antt =====
-- The steps from which the operations are made keep the ownership.
use clientprefs_redis.Base.{
  ℕ, suc, ◌+◌, ◌≤◌, ◌≡◌, ap, sym, ◌∙◌, if◌then◌else◌, List, [], ◌∷◌, ◌++◌, Option, none, some, Bool,
  true, arith, All,
}
use mathlib.Core.Path.{fun_ext}
use clientprefs_redis.Base.Fault.{update}
use clientprefs_redis.Sdk.{Entry}
use clientprefs_redis.State.{
  Cookie, CookieData, QueryOp, QueryType, World, insert_cookie, select_data, insert_data, select_id,
  connect,
}
use clientprefs_redis.Ownership.{
  Owned, IsSound, SoundType, count, datum_count, is_some, ptr_alive, parent_of, the_client,
}

pub update_twice :
    {A : Type 0} (f : ℕ → A) (c : ℕ) (a b : A) → update (update f c a) c b ≡ update f c b
update_twice f c a b = fun_ext {f = update (update f c a) c b} (λ q. ground arith)

-- No cookie dies.
abbrev pub Keeps : World → World → Type 0
Keeps w v = (p : ℕ) → is_some (w.cookies p) ≡ true → is_some (v.cookies p) ≡ true

pub ptr_alive-Keeps :
    (w v : World) (o : Option ℕ) → Keeps w v → ptr_alive w o ≡ true → ptr_alive v o ≡ true
ptr_alive-Keeps w v none keep h = h
ptr_alive-Keeps w v (some p) keep h = keep p h

SoundType-Keeps :
    (w v : World) (t : QueryType) (op : QueryOp) → Keeps w v → SoundType w t op → SoundType v t op
SoundType-Keeps w v insert_cookie op keep (e, h, k) =
    (e, ptr_alive-Keeps w v op.cookie keep h, ptr_alive-Keeps w v op.params.cookie keep k)
SoundType-Keeps w v select_id op keep h = (h.0, ptr_alive-Keeps w v op.cookie keep h.1)
SoundType-Keeps w v insert_data op keep h = h
SoundType-Keeps w v select_data op keep h = h
SoundType-Keeps w v connect op keep h = h

pub All-IsSound-Keeps :
    (w v : World) (ops : List QueryOp) → Keeps w v → All (IsSound w) ops → All (IsSound v) ops
All-IsSound-Keeps w v [] keep h = h
All-IsSound-Keeps w v (op ∷ ops) keep h =
    (SoundType-Keeps w v op.type op keep h.0, All-IsSound-Keeps w v ops keep h.1)

pub table-Keeps :
    (w v : World) (es : List Entry)
    → Keeps w v
    → All (λ e. is_some (w.cookies e.cookie) ≡ true) es
    → All (λ e. is_some (v.cookies e.cookie) ≡ true) es
table-Keeps w v [] keep h = h
table-Keeps w v (e ∷ es) keep h = (keep e.cookie h.0, table-Keeps w v es keep h.1)

pub listed-Keeps :
    (w v : World) (ps : List ℕ)
    → Keeps w v
    → All (λ p. is_some (w.cookies p) ≡ true) ps
    → All (λ p. is_some (v.cookies p) ≡ true) ps
listed-Keeps w v [] keep h = h
listed-Keeps w v (p ∷ ps) keep h = (keep p h.0, listed-Keeps w v ps keep h.1)

pub All-append :
    {A : Type 0} (P : A → Type 0) (xs ys : List A) → All P xs → All P ys → All P (xs ++ ys)
All-append P [] ys h k = k
All-append P (x ∷ xs) ys h k = (h.0, All-append P xs ys h.1 k)

pub count-append : (d : ℕ) (xs ys : List ℕ) → count d (xs ++ ys) ≡ count d xs + count d ys
count-append d [] ys = omega arith
count-append d (x ∷ xs) ys = omega (arith, count-append d xs ys)

pub datum_count-append :
    (d : ℕ) (xs ys : List QueryOp) → datum_count d (xs ++ ys) ≡ datum_count d xs + datum_count d ys
datum_count-append d [] ys = omega arith
datum_count-append d (op ∷ ops) ys = omega (arith, datum_count-append d ops ys)

-- `v` is `w` with other cookies at the same addresses.
Owned-cookies :
    (own : ℕ → ℕ) (w : World) (cookies : ℕ → Option Cookie)
    → ((p : ℕ) → is_some (cookies p) ≡ is_some (w.cookies p))
    → ((p : ℕ) → w.next ≤ p → cookies p ≡ none)
    → ((p c d : ℕ) (k : Cookie)
        → cookies p ≡ some k
        → k.data_at c ≡ some d
        → (own d ≡ the_client c) × (parent_of (w.datums d) ≡ some p))
    → Owned own w
    → Owned own (record w { cookies = cookies })
Owned-cookies own w cookies same fresh slots o =
    let v : World = record w { cookies = cookies } in
    let keep : Keeps w v = λ p h. same p ∙ h in
    record {
      fresh_cookies = fresh;
      fresh_datums = o.fresh_datums;
      kept = o.kept;
      parents = λ d m. ptr_alive-Keeps w v (parent_of (w.datums d)) keep (o.parents d m);
      slots = slots;
      lists = o.lists;
      queries = o.queries;
      waiting = All-IsSound-Keeps w v w.query_queue keep o.waiting;
      taken = All-IsSound-Keeps w v w.running keep o.taken;
      finished = All-IsSound-Keeps w v w.result_queue keep o.finished;
      table = table-Keeps w v w.finder keep o.table;
      listed = listed-Keeps w v w.cookie_list keep o.listed;
      once = λ q. o.once q ∙ ap (λ t. if t then 1 else 0) (sym (same q));
      uncached = o.uncached;
    }

-- A cookie is written whose slots are those that it had.
pub Owned-write_cookie :
    (own : ℕ → ℕ) (w : World) (p : ℕ) (k j : Cookie)
    → w.cookies p ≡ some k
    → j.data_at ≡ k.data_at
    → Owned own w
    → Owned own (record w { cookies = update w.cookies p (some j) })
Owned-write_cookie own w p k j alive same o =
    Owned-cookies own w (update w.cookies p (some j)) (λ q. ground arith)
      (λ q m. ground (arith, o.fresh_cookies q m))
      (λ q c d i at held.
        ground (arith, o.slots q c d k, o.slots q c d i, ap (λ (f : ℕ → Option ℕ). f c) same))
      o

-- A value is written whose cookie is the one that it had.
pub Owned-write_datum :
    (own : ℕ → ℕ) (w : World) (d : ℕ) (x y : CookieData)
    → w.datums d ≡ some x
    → y.parent ≡ x.parent
    → Owned own w
    → Owned own (record w { datums = update w.datums d (some y) })
Owned-write_datum own w d x y alive same o = record {
  fresh_cookies = o.fresh_cookies;
  fresh_datums = o.fresh_datums;
  kept = λ e. ground (arith, o.kept e);
  parents = λ e m. ground (arith, o.parents e m);
  slots = λ p c e k at held. ground (arith, o.slots p c e k at held);
  lists = o.lists;
  queries = o.queries;
  waiting = o.waiting;
  taken = o.taken;
  finished = o.finished;
  table = o.table;
  listed = o.listed;
  once = λ q. ground (arith, o.once q);
  uncached = o.uncached;
}

-- An address is given away.
pub Owned-bump :
    (own : ℕ → ℕ) (w : World) → Owned own w → Owned own (record w { next = suc w.next })
Owned-bump own w o = record {
  fresh_cookies = λ p m. o.fresh_cookies p (omega arith);
  fresh_datums = λ d m. o.fresh_datums d (omega arith);
  kept = o.kept;
  parents = o.parents;
  slots = o.slots;
  lists = o.lists;
  queries = o.queries;
  waiting = o.waiting;
  taken = o.taken;
  finished = o.finished;
  table = o.table;
  listed = o.listed;
  once = λ q. ground (arith, o.once q);
  uncached = o.uncached;
}

-- Queries without a value are queued, and the flags of clients and the forwards change.
pub Owned-queue :
    (own : ℕ → ℕ) (w : World) (ops : List QueryOp) (connected loaded pending : ℕ → Bool)
    (told : List ℕ)
    → ((d : ℕ) → datum_count d ops ≡ 0)
    → All (IsSound w) ops
    → Owned own w
    → Owned own (record w {
      query_queue = w.query_queue ++ ops;
      connected = connected;
      stats_loaded = loaded;
      stats_pending = pending;
      told = told;
    })
Owned-queue own w ops connected loaded pending told none_held sound o = record {
  fresh_cookies = o.fresh_cookies;
  fresh_datums = o.fresh_datums;
  kept = o.kept;
  parents = o.parents;
  slots = o.slots;
  lists = o.lists;
  queries = λ d. ground (arith, o.queries d, none_held d, datum_count-append d w.query_queue ops);
  waiting = All-append (IsSound w) w.query_queue ops o.waiting sound;
  taken = o.taken;
  finished = o.finished;
  table = o.table;
  listed = o.listed;
  once = λ q. ground (arith, o.once q);
  uncached = o.uncached;
}
