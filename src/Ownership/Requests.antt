-- ===== src/Ownership/Requests.antt =====
-- The operations that plugins and new clients ask for keep the ownership and fault nowhere.
use clientprefs_redis.Base.{
  ℕ, suc, ◌≡◌, refl, inl, inr, List, [], ◌∷◌, Option, none, some, true, false, arith, All,
  Option-cases, leb,
}
use mathlib.Core.Path.{subst}
use clientprefs_redis.Base.Fault.{update}
use clientprefs_redis.Text.{Text, clip}
use clientprefs_redis.Sdk.{Sdk, Entry, HasEntry, Server}
use clientprefs_redis.State.{
  Cookie, CookieData, CookieAccess, World, Main, new_cookie, max_value_length, max_desc_length,
}
use clientprefs_redis.CookieManager.{create_cookie, get_cookie_value, set_cookie_value}
use clientprefs_redis.CookieManager.Create.{create_cookie_fresh}
use clientprefs_redis.Connect.Registry.{linked}
use clientprefs_redis.Ownership.{Owned, is_some, the_client}
use clientprefs_redis.Ownership.Parts.{Owned-write_cookie, Owned-write_datum, Owned-bump}
use clientprefs_redis.Ownership.Values.{Owned-with_cookie, Owned-linked}

-- The call returns, and what it leaves is owned.
abbrev pub Ends : {A : Type 0} → Main A → World → Type 0
Ends {A} m w = (a : A) × (v : World) × (own : ℕ → ℕ) × (m w ≡ some (a, v)) × Owned own v

pub some_of : {A : Type 0} (o : Option A) → is_some o ≡ true → (a : A) × (o ≡ some a)
some_of none h = cc
some_of (some a) h = (a, refl)

table_alive :
    (w : World) (es : List Entry) (name : Text) (p : ℕ)
    → All (λ e. is_some (w.cookies e.cookie) ≡ true) es
    → HasEntry es name p
    → is_some (w.cookies p) ≡ true
table_alive w [] name p alive has = elim has [ ]
table_alive w (e ∷ es) name p alive (inl (n, c)) =
    subst (λ q. is_some (w.cookies q) ≡ true) c alive.0
table_alive w (e ∷ es) name p alive (inr has) = table_alive w es name p alive.1 has

module _ ⦃sdk : Sdk⦄ where
  pub known_alive :
      (own : ℕ → ℕ) (w : World) (name : Text) (p : ℕ)
      → Owned own w
      → sdk.retrieve w.finder name ≡ some p
      → (k : Cookie) × (w.cookies p ≡ some k)
  known_alive own w name p o h =
      some_of (w.cookies p)
        (table_alive w w.finder name p o.table (sdk.retrieve-HasEntry w.finder name p h))

  create_known :
      (w : World) (name desc : Text) (access : CookieAccess) (p : ℕ) (k : Cookie)
      → sdk.retrieve w.finder name ≡ some p
      → w.cookies p ≡ some k
      → create_cookie name desc access w
        ≡ some (
          p,
          record w {
            cookies = update w.cookies p (
                some
                  (record k { description = clip max_desc_length (some desc); access = access }));
          },
        )
  unfolding create_cookie
  create_known w name desc access p k h alive = ground arith

  pub no_slots :
      (name desc : Text) (access : CookieAccess) (c : ℕ)
      → (new_cookie (some name) (some desc) access).data_at c ≡ none
  unfolding new_cookie
  no_slots name desc access c = refl

  pub create_cookie-Ends :
      (own : ℕ → ℕ) (w : World) (name desc : Text) (access : CookieAccess)
      → Owned own w
      → Ends (create_cookie name desc access) w
  create_cookie-Ends own w name desc access o = elim (Option-cases (sdk.retrieve w.finder name)) [
    | inl fresh ↦ (
      _,
      _,
      own,
      create_cookie_fresh w name desc access fresh,
      Owned-with_cookie own w name (new_cookie (some name) (some desc) access)
          (no_slots name desc access) o,
    )
    | inr (p, found) ↦
        let (k, alive) = known_alive own w name p o found in
        (
          _,
          _,
          own,
          create_known w name desc access p k found alive,
          Owned-write_cookie own w p k _ alive refl o,
        )
  ]

  -- A value that was never set is made.
  abbrev pub empty_data : ℕ → CookieData
  empty_data p = record { value = []; changed = false; timestamp = 0; parent = some p }

  abbrev pub bumped : World → World
  bumped w = record w { next = suc w.next }

  pub get_missing :
      (w : World) (p client : ℕ) (k : Cookie)
      → w.cookies p ≡ some k
      → leb client sdk.max_players ≡ true
      → k.data_at client ≡ none
      → let v = linked (bumped w) client p k w.next (empty_data p) in
        get_cookie_value p client w
        ≡ some (w.next, record v { datums = update v.datums w.next (some (empty_data p)) })
  unfolding get_cookie_value clip
  get_missing w p client k alive inside at = ground arith

  pub Owned-attached :
      (own : ℕ → ℕ) (w : World) (p client : ℕ) (k : Cookie) (x : CookieData)
      → w.cookies p ≡ some k
      → x.parent ≡ some p
      → Owned own w
      → Owned (update own w.next (the_client client)) (linked (bumped w) client p k w.next x)
  Owned-attached own w p client k x alive child o =
      Owned-linked own (bumped w) client p w.next k x (o.fresh_datums w.next (omega arith))
        (omega arith) alive child (Owned-bump own w o)

  pub slot_alive :
      (own : ℕ → ℕ) (w : World) (p client d : ℕ) (k : Cookie)
      → w.cookies p ≡ some k
      → k.data_at client ≡ some d
      → Owned own w
      → (x : CookieData) × (w.datums d ≡ some x)
  slot_alive own w p client d k alive at o =
      some_of (w.datums d) (ground (arith, o.slots p client d k alive at, o.kept d))

  -- The value whose address is the result is alive.
  pub get_cookie_value_alive :
      (own : ℕ → ℕ) (w : World) (p client : ℕ) (k : Cookie)
      → w.cookies p ≡ some k
      → leb client sdk.max_players ≡ true
      → Owned own w
      → (d : ℕ) × (v : World) × (own' : ℕ → ℕ) × (get_cookie_value p client w ≡ some (d, v))
        × Owned own' v
        × ((x : CookieData) × (v.datums d ≡ some x))
  unfolding get_cookie_value
  get_cookie_value_alive own w p client k alive inside o = elim (Option-cases (k.data_at client)) [
    | inl missing ↦
        let v = linked (bumped w) client p k w.next (empty_data p) in
        (
          _,
          _,
          _,
          get_missing w p client k alive inside missing,
          Owned-write_datum _ v w.next (empty_data p) (empty_data p) (ground arith) refl
              (Owned-attached own w p client k (empty_data p) alive refl o),
          (empty_data p, ground arith),
        )
    | inr (d, at) ↦ (d, w, own, ground arith, o, slot_alive own w p client d k alive at o)
  ]

  pub set_existing :
      (server : Server) (w : World) (p client d : ℕ) (value : Text) (k : Cookie) (x : CookieData)
      → w.cookies p ≡ some k
      → leb client sdk.max_players ≡ true
      → k.data_at client ≡ some d
      → w.datums d ≡ some x
      → let y : CookieData = record x { value = clip max_value_length (some value) } in
        let v : World = record w { datums = update w.datums d (some y) } in
        set_cookie_value server p client value w
        ≡ some (
          true,
          record v {
            datums =
                update v.datums d (some (record y { changed = true; timestamp = server.time }));
          },
        )
  unfolding set_cookie_value
  set_existing server w p client d value k x alive inside at found = ground arith

  pub set_missing :
      (server : Server) (w : World) (p client : ℕ) (value : Text) (k : Cookie)
      → w.cookies p ≡ some k
      → leb client sdk.max_players ≡ true
      → k.data_at client ≡ none
      → let x : CookieData = record {
        value = clip max_value_length (some value);
        changed = false;
        timestamp = 0;
        parent = some p;
      } in
        let v = linked (bumped w) client p k w.next x in
        set_cookie_value server p client value w
        ≡ some (
          true,
          record v {
            datums =
                update v.datums w.next
                  (some (record x { changed = true; timestamp = server.time }));
          },
        )
  unfolding set_cookie_value
  set_missing server w p client value k alive inside at = ground arith

  pub set_cookie_value-Ends :
      (server : Server) (own : ℕ → ℕ) (w : World) (p client : ℕ) (value : Text) (k : Cookie)
      → w.cookies p ≡ some k
      → leb client sdk.max_players ≡ true
      → Owned own w
      → Ends (set_cookie_value server p client value) w
  set_cookie_value-Ends server own w p client value k alive inside o =
      elim (Option-cases (k.data_at client)) [
        | inl missing ↦
            let x : CookieData = record {
              value = clip max_value_length (some value);
              changed = false;
              timestamp = 0;
              parent = some p;
            } in
            let v = linked (bumped w) client p k w.next x in
            (
              _,
              _,
              _,
              set_missing server w p client value k alive inside missing,
              Owned-write_datum _ v w.next x _ (ground arith) refl
                  (Owned-attached own w p client k x alive refl o),
            )
        | inr (d, at) ↦
            let (x, found) = slot_alive own w p client d k alive at o in
            let y : CookieData = record x { value = clip max_value_length (some value) } in
            let v : World = record w { datums = update w.datums d (some y) } in
            (
              _,
              _,
              own,
              set_existing server w p client d value k x alive inside at found,
              Owned-write_datum own v d y _ (ground arith) refl
                  (Owned-write_datum own w d x y found refl o),
            )
      ]
