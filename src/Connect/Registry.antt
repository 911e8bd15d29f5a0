-- ===== src/Connect/Registry.antt =====
-- The table of cookies by name and a client's values, across the steps of ClientConnectCallback.
use clientprefs_redis.Base.{
  ℕ, suc, ◌≤◌, ◌<◌, ◌≡◌, refl, ap, ◌∙◌, sym, ◌≢◌, inl, inr, [], ◌∷◌, ◌++◌, List, none, some, false,
  ◌==◌, arith, All, Bool-cases,
}
use clientprefs_redis.Base.Fault.{update}
use clientprefs_redis.Text.{Text, clip}
use clientprefs_redis.Sdk.{Sdk, Entry, HasEntry}
use clientprefs_redis.State.{Cookie, CookieData, World, max_value_length}
use clientprefs_redis.CookieManager.Create.{with_cookie}

-- The entry's cookie is alive and has the entry's name.
abbrev pub EntryAlive : World → Entry → Type 0
EntryAlive w e = (k : Cookie) × (w.cookies e.cookie ≡ some k) × (k.name ≡ e.name)

-- The table of names holds cookies that are alive, and no address from `next` on is in use.
pub record IsRegistered (w : World) : Type 0 where
  pub entries : All (EntryAlive w) w.finder
  pub fresh_cookies : (p : ℕ) → w.next ≤ p → w.cookies p ≡ none
  pub fresh_datums : (d : ℕ) → w.next ≤ d → w.datums d ≡ none

entry_alive :
    (w : World) (es : List Entry) (name : Text) (p : ℕ)
    → All (EntryAlive w) es
    → HasEntry es name p
    → (k : Cookie) × (w.cookies p ≡ some k) × (k.name ≡ name)
entry_alive w [] name p alive has = elim has [ ]
entry_alive w (e ∷ es) name p alive (inl (n, c)) =
    (alive.0.0, ap w.cookies (sym c) ∙ alive.0.1, alive.0.2 ∙ n)
entry_alive w (e ∷ es) name p alive (inr has) = entry_alive w es name p alive.1 has

module _ ⦃sdk : Sdk⦄ where
  -- The cookie of this name is known, and the client's value of it is `value`, unchanged since it was
  -- loaded.
  pub record HasValue (w : World) (client : ℕ) (name value : Text) : Type 0 where
    pub address : ℕ
    pub cookie : Cookie
    pub datum : ℕ
    pub object : CookieData
    pub known : sdk.retrieve w.finder name ≡ some address
    pub alive : w.cookies address ≡ some cookie
    pub slot : cookie.data_at client ≡ some datum
    pub held : w.datums datum ≡ some object
    pub value_is : object.value ≡ clip max_value_length (some value)
    pub unchanged : object.changed ≡ false
    pub parent_is : object.parent ≡ some address

  pub found_alive :
      (w : World) (name : Text) (p : ℕ)
      → IsRegistered w
      → sdk.retrieve w.finder name ≡ some p
      → (k : Cookie) × (w.cookies p ≡ some k) × (k.name ≡ name)
  found_alive w name p r h =
      entry_alive w w.finder name p r.entries (sdk.retrieve-HasEntry w.finder name p h)

  -- The world after one round, for the cookie `k` at `p` in the world `u`; `d` is the new object.
  abbrev pub linked : World → ℕ → ℕ → Cookie → ℕ → CookieData → World
  linked u client p k d x = record u {
    datums = update u.datums d (some x);
    cookies = update u.cookies p (some (record k { data_at = update k.data_at client (some d) }));
    client_data = update u.client_data client (u.client_data client ++ d ∷ []);
  }

  abbrev pub fetched_data : Text → ℕ → CookieData
  fetched_data value p = record {
    value = clip max_value_length (some value);
    changed = false;
    timestamp = 0;
    parent = some p;
  }

  -- An object that has no cookie yet.
  abbrev pub new_datum : Text → CookieData
  new_datum value = record {
    value = clip max_value_length (some value);
    changed = false;
    timestamp = 0;
    parent = none;
  }

  abbrev pub with_datum : World → Text → World
  with_datum w value = record w {
    datums = update w.datums w.next (some (new_datum value));
    next = suc w.next;
  }

  entries_linked :
      (u : World) (client p d : ℕ) (k : Cookie) (x : CookieData) (es : List Entry)
      → u.cookies p ≡ some k
      → All (EntryAlive u) es
      → All (EntryAlive (linked u client p k d x)) es
  entries_linked u client p d k x [] h es_alive = tt
  entries_linked u client p d k x (e ∷ es) h es_alive =
      let (j, alive, named) = es_alive.0 in
      (
        elim (Bool-cases (p == e.cookie)) [
          | inl same ↦
              (record k { data_at = update k.data_at client (some d) }, ground arith, ground arith)
          | inr apart ↦ (j, ground arith, named)
        ],
        entries_linked u client p d k x es h es_alive.1,
      )

  pub IsRegistered-linked :
      (u : World) (client p d : ℕ) (k : Cookie) (x : CookieData)
      → u.cookies p ≡ some k
      → d < u.next
      → IsRegistered u
      → IsRegistered (linked u client p k d x)
  IsRegistered-linked u client p d k x h below r = record {
    entries = entries_linked u client p d k x u.finder h r.entries;
    fresh_cookies = λ q m. ground (arith, r.fresh_cookies q m);
    fresh_datums = λ q m. ground (arith, r.fresh_datums q m);
  }

  pub HasValue-linked_self :
      (u : World) (client p d : ℕ) (k : Cookie) (name value : Text)
      → sdk.retrieve u.finder name ≡ some p
      → HasValue (linked u client p k d (fetched_data value p)) client name value
  HasValue-linked_self u client p d k name value h = record {
    address = p;
    cookie = record k { data_at = update k.data_at client (some d) };
    datum = d;
    object = fetched_data value p;
    known = h;
    alive = ground arith;
    slot = ground arith;
    held = ground arith;
    value_is = refl;
    unchanged = refl;
    parent_is = refl;
  }

  pub HasValue-linked_ne :
      (u : World) (client p d : ℕ) (k : Cookie) (x y : CookieData) (name value : Text)
      → IsRegistered u
      → u.cookies p ≡ some k
      → name ≢ k.name
      → u.datums d ≡ some y
      → y.parent ≡ none
      → HasValue u client name value
      → HasValue (linked u client p k d x) client name value
  HasValue-linked_ne u client p d k x y name value r at ne made orphan h =
      let (j, alive, named) = found_alive u name h.address r h.known in
      let elsewhere : h.address ≢ p = λ e. ne (cc (e, alive, at, named)) in
      let apart : h.datum ≢ d = λ e. cc (e, h.held, made, orphan, h.parent_is) in
      record {
        address = h.address;
        cookie = h.cookie;
        datum = h.datum;
        object = h.object;
        known = h.known;
        alive = ground arith;
        slot = h.slot;
        held = ground arith;
        value_is = h.value_is;
        unchanged = h.unchanged;
        parent_is = h.parent_is;
      }

  pub datum_below :
      (w : World) (d : ℕ) (x : CookieData) → IsRegistered w → w.datums d ≡ some x → d < w.next
  datum_below w d x r h = ground (arith, r.fresh_datums d)

  pub IsRegistered-with_datum :
      (w : World) (value : Text) → IsRegistered w → IsRegistered (with_datum w value)
  IsRegistered-with_datum w value r = record {
    entries = r.entries;
    fresh_cookies = λ q m. r.fresh_cookies q (omega arith);
    fresh_datums = λ q m. ground (arith, r.fresh_datums q);
  }

  entries-with_cookie :
      (w : World) (name : Text) (k : Cookie) (es : List Entry)
      → w.cookies w.next ≡ none
      → All (EntryAlive w) es
      → All (EntryAlive (with_cookie w name k)) es
  entries-with_cookie w name k [] free alive = tt
  entries-with_cookie w name k (e ∷ es) free alive =
      let (j, at, named) = alive.0 in
      ((j, ground arith, named), entries-with_cookie w name k es free alive.1)

  pub IsRegistered-with_cookie :
      (w : World) (name : Text) (k : Cookie) → IsRegistered w → IsRegistered (with_cookie w name k)
  IsRegistered-with_cookie w name k r = record {
    entries = (
      (k, ground arith, refl),
      entries-with_cookie w name k w.finder (r.fresh_cookies w.next (omega arith)) r.entries,
    );
    fresh_cookies = λ q m. ground (arith, r.fresh_cookies q);
    fresh_datums = λ q m. r.fresh_datums q (omega arith);
  }

  pub HasValue-with_cookie :
      (w : World) (client : ℕ) (k : Cookie) (key name value : Text)
      → IsRegistered w
      → name ≢ k.name
      → HasValue w client name value
      → HasValue (with_cookie w key k) client name value
  HasValue-with_cookie w client k key name value r ne h = record {
    address = h.address;
    cookie = h.cookie;
    datum = h.datum;
    object = h.object;
    known = sdk.retrieve-cons_ne _ w.finder name ne ∙ h.known;
    alive = ground (arith, r.fresh_cookies h.address);
    slot = h.slot;
    held = h.held;
    value_is = h.value_is;
    unchanged = h.unchanged;
    parent_is = h.parent_is;
  }
