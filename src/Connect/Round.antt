-- ===== src/Connect/Round.antt =====
-- One round of the loop of ClientConnectCallback: a known cookie, and one that is made.
use clientprefs_redis.Base.{
  ℕ, suc, ◌<◌, ◌≡◌, refl, ◌∙◌, ◌≢◌, inl, inr, [], ◌∷◌, List, none, some, Bool, true, arith, leb,
  All, length, Option-cases,
}
use clientprefs_redis.Text.{Text}
use clientprefs_redis.Sdk.{Sdk}
use clientprefs_redis.State.{Cookie, World, new_cookie, max_name_length}
use clientprefs_redis.CookieManager.{find_cookie}
use clientprefs_redis.CookieManager.Create.{create_cookie_fresh, with_cookie, clip_short}
use clientprefs_redis.Connect.{load_one}
use clientprefs_redis.Connect.Registry.{
  IsRegistered, HasValue, found_alive, linked, fetched_data, new_datum, with_datum,
  IsRegistered-linked, HasValue-linked_self, HasValue-linked_ne, datum_below,
  IsRegistered-with_datum, IsRegistered-with_cookie, HasValue-with_cookie,
}

module _ ⦃sdk : Sdk⦄ where
  pub load_known :
      (w : World) (client p : ℕ) (cookie k : Cookie) (value : Text)
      → leb client sdk.max_players ≡ true
      → sdk.retrieve w.finder cookie.name ≡ some p
      → w.cookies p ≡ some k
      → load_one client cookie value w
        ≡ some (tt, linked (with_datum w value) client p k w.next (fetched_data value p))
  unfolding load_one find_cookie
  load_known w client p cookie k value inside h alive = ground (arith, inside, h)

  pub load_unknown :
      (w : World) (client : ℕ) (cookie : Cookie) (value : Text)
      → leb client sdk.max_players ≡ true
      → sdk.retrieve w.finder cookie.name ≡ none
      → let k = new_cookie (some cookie.name) (some cookie.description) cookie.access in
        load_one client cookie value w
        ≡ some (
          tt,
          linked
              (with_cookie (with_datum w value) cookie.name k)
              client
              (suc w.next)
              k
              w.next
              (fetched_data value (suc w.next)),
        )
  unfolding load_one find_cookie
  load_unknown w client cookie value inside h = ground (
    arith,
    create_cookie_fresh (with_datum w value) cookie.name cookie.description cookie.access h,
  )

  HasValue-with_datum :
      (w : World) (client : ℕ) (fetched name value : Text)
      → IsRegistered w
      → HasValue w client name value
      → HasValue (with_datum w fetched) client name value
  HasValue-with_datum w client fetched name value r h =
      let below = datum_below w h.datum h.object r h.held in
      record {
        address = h.address;
        cookie = h.cookie;
        datum = h.datum;
        object = h.object;
        known = h.known;
        alive = h.alive;
        slot = h.slot;
        held = ground arith;
        value_is = h.value_is;
        unchanged = h.unchanged;
        parent_is = h.parent_is;
      }

  -- What one round does to the table and to the values.
  pub record Round (w v : World) (client : ℕ) (name value : Text) : Type 0 where
    pub registered : IsRegistered v
    pub has : HasValue v client name value
    pub keeps :
        (other val : Text)
        → other ≢ name
        → HasValue w client other val
        → HasValue v client other val
    pub flags :
        (v.stats_loaded ≡ w.stats_loaded)
        × (v.stats_pending ≡ w.stats_pending)
        × (v.connected ≡ w.connected)
        × (v.told ≡ w.told)

  Round-known :
      (w : World) (client p : ℕ) (cookie k : Cookie) (value : Text)
      → IsRegistered w
      → sdk.retrieve w.finder cookie.name ≡ some p
      → w.cookies p ≡ some k
      → k.name ≡ cookie.name
      → Round w
          (linked (with_datum w value) client p k w.next (fetched_data value p))
          client
          cookie.name
          value
  Round-known w client p cookie k value r h alive named =
      let u = with_datum w value in
      let ru = IsRegistered-with_datum w value r in
      record {
        registered = IsRegistered-linked u client p w.next k _ alive (omega arith) ru;
        has = HasValue-linked_self u client p w.next k cookie.name value h;
        keeps = λ other val ne hv.
            HasValue-linked_ne u client p w.next k _ (new_datum value) other val ru alive
              (λ e. ne (e ∙ named)) (ground arith) refl
              (HasValue-with_datum w client value other val r hv);
        flags = (refl, refl, refl, refl);
      }

  Round-unknown :
      (w : World) (client : ℕ) (cookie k : Cookie) (value : Text)
      → IsRegistered w
      → sdk.retrieve w.finder cookie.name ≡ none
      → k.name ≡ cookie.name
      → Round w
          (linked
            (with_cookie (with_datum w value) cookie.name k)
            client
            (suc w.next)
            k
            w.next
            (fetched_data value (suc w.next)))
          client
          cookie.name
          value
  Round-unknown w client cookie k value r h named =
      let u = with_datum w value in
      let ru = IsRegistered-with_datum w value r in
      let c = with_cookie u cookie.name k in
      let rc = IsRegistered-with_cookie u cookie.name k ru in
      record {
        registered =
            IsRegistered-linked c client (suc w.next) w.next k _ (ground arith) (omega arith) rc;
        has =
            HasValue-linked_self c client (suc w.next) w.next k cookie.name value
              (rw named (sdk.retrieve-cons_self w.finder cookie.name (suc w.next) h));
        keeps = λ other val ne hv.
            HasValue-linked_ne c client (suc w.next) w.next k _ (new_datum value) other val rc
              (ground arith) (λ e. ne (e ∙ named)) (ground arith) refl
              (HasValue-with_cookie u client k cookie.name other val ru (λ e. ne (e ∙ named))
                (HasValue-with_datum w client value other val r hv));
        flags = (refl, refl, refl, refl);
      }

  -- One round returns.
  pub round_lem :
      (w : World) (client : ℕ) (cookie : Cookie) (value : Text)
      → leb client sdk.max_players ≡ true
      → length cookie.name < max_name_length
      → IsRegistered w
      → (v : World) × (load_one client cookie value w ≡ some (tt, v))
        × Round w v client cookie.name value
  unfolding new_cookie
  round_lem w client cookie value inside short r =
      elim (Option-cases (sdk.retrieve w.finder cookie.name)) [
        | inl missing ↦
            let k = new_cookie (some cookie.name) (some cookie.description) cookie.access in
            (
              _,
              load_unknown w client cookie value inside missing,
              Round-unknown w client cookie k value r missing (clip_short cookie.name short),
            )
        | inr (p, found) ↦
            let (k, alive, named) = found_alive w cookie.name p r found in
            (
              _,
              load_known w client p cookie k value inside found alive,
              Round-known w client p cookie k value r found alive named,
            )
      ]

-- The client has each of the fetched values.
abbrev pub HasAll : ⦃sdk : Sdk⦄ → World → ℕ → List (Cookie × Text) → Type 0
HasAll w client [] = Unit
HasAll w client ((cookie, value) ∷ rest) =
    HasValue w client cookie.name value × HasAll w client rest

-- The flags and the forward do not matter.
pub HasAll-told :
    ⦃sdk : Sdk⦄ (v : World) (client : ℕ) (flags : ℕ → Bool) (told : List ℕ)
    (fetched : List (Cookie × Text))
    → HasAll v client fetched
    → HasAll (record v { stats_loaded = flags; told = told }) client fetched
HasAll-told v client flags told [] h = tt
HasAll-told v client flags told ((cookie, value) ∷ rest) h =
    let hv = h.0 in
    (
      record {
        address = hv.address;
        cookie = hv.cookie;
        datum = hv.datum;
        object = hv.object;
        known = hv.known;
        alive = hv.alive;
        slot = hv.slot;
        held = hv.held;
        value_is = hv.value_is;
        unchanged = hv.unchanged;
        parent_is = hv.parent_is;
      },
      HasAll-told v client flags told rest h.1,
    )

-- The cookies have short names, and no two the same.
abbrev pub IsFetched : List (Cookie × Text) → Type 0
IsFetched [] = Unit
IsFetched ((cookie, value) ∷ rest) =
    (length cookie.name < max_name_length)
    × All (λ (other : Cookie × Text). cookie.name ≢ other.0.name) rest
    × IsFetched rest
