-- ===== src/System/Refines.antt =====
-- SetCookieValue, GetCookieValue and GetCookieTime of cookie.cpp act on the heap as on a table.
use clientprefs_redis.Base.{
  ℕ, ◌≡◌, refl, ap, sym, ◌∙◌, inl, inr, Option, none, some, true, false, ◌&&◌, ◌==◌, arith,
  if◌then◌else◌, Bool-cases, Option-cases, leb,
}
use clientprefs_redis.Base.Fault.{◌>>=◌, ◌>>◌, pure, update}
use clientprefs_redis.Text.{Text, clip}
use clientprefs_redis.Sdk.{Sdk, Server}
use clientprefs_redis.State.{Cookie, CookieData, World, Main, max_value_length, load_data}
use clientprefs_redis.CookieManager.{get_cookie_value, set_cookie_value, get_cookie_time}
use clientprefs_redis.Connect.Registry.{linked}
use clientprefs_redis.Ownership.{Owned, the_client, parent_of}
use clientprefs_redis.Ownership.Parts.{Keeps, Owned-write_datum}
use clientprefs_redis.Ownership.Requests.{
  slot_alive, set_existing, set_missing, get_missing, empty_data, bumped, Owned-attached,
}
use clientprefs_redis.System.Table.{
  entry, time_in, Stored, Table, put, stored_of, slot_of, value_at, table_of, table_of-write,
}

-- The owner of the value in a slot is the slot's client, and the value leads back to the cookie.
slot_owner_of :
    (own : ℕ → ℕ) (w : World) (q e d : ℕ) (k : Option Cookie)
    → Owned own w
    → w.cookies q ≡ k
    → slot_of k e ≡ some d
    → (own d ≡ the_client e) × (parent_of (w.datums d) ≡ some q)
slot_owner_of own w q e d none o alive at = cc
slot_owner_of own w q e d (some k) o alive at = o.slots q e d k alive at

slot_owner :
    (own : ℕ → ℕ) (w : World) (q e d : ℕ)
    → Owned own w
    → slot_of (w.cookies q) e ≡ some d
    → (own d ≡ the_client e) × (parent_of (w.datums d) ≡ some q)
slot_owner own w q e d o at = slot_owner_of own w q e d (w.cookies q) o refl at

-- No two slots lead to one value.
slots_apart :
    (own : ℕ → ℕ) (w : World) (p c d q e d' : ℕ)
    → Owned own w
    → slot_of (w.cookies p) c ≡ some d
    → (q == p && e == c) ≡ false
    → slot_of (w.cookies q) e ≡ some d'
    → (d == d') ≡ false
slots_apart own w p c d q e d' o at other there =
    let (his, back) = slot_owner own w p c d o at in
    let (theirs, back') = slot_owner own w q e d' o there in
    elim (Bool-cases (d == d')) [
      | inr apart ↦ apart
      | inl same ↦
          let one : d ≡ d' = ground arith in
          let parents : some p ≡ some q = sym back ∙ ap (λ t. parent_of (w.datums t)) one ∙ back' in
          let clients : the_client c ≡ the_client e = sym his ∙ ap own one ∙ theirs in
          absurd (ground arith)
    ]

-- A fresh address is in no slot.
slots_below :
    (own : ℕ → ℕ) (w : World) (q e d : ℕ)
    → Owned own w
    → slot_of (w.cookies q) e ≡ some d
    → (w.next == d) ≡ false
slots_below own w q e d o at =
    let (his, back) = slot_owner own w q e d o at in ground (arith, o.fresh_datums d)

-- The slot of a cookie that got a new value.
slot_of-linked :
    (w : World) (p c d : ℕ) (k : Cookie)
    → w.cookies p ≡ some k
    → (q e : ℕ)
    → slot_of (update w.cookies p (some (record k { data_at = update k.data_at c (some d) })) q) e
      ≡ (if q == p && e == c then some d else slot_of (w.cookies q) e)
slot_of-linked w p c d k alive q e = elim (Bool-cases (q == p)) [
  | inl here ↦ ground (arith, alive)
  | inr other ↦ ground arith
]

-- The same slot already has a value: it stays where it is.
slot_of_same :
    (w : World) (p c d : ℕ)
    → slot_of (w.cookies p) c ≡ some d
    → (q e : ℕ)
    → slot_of (w.cookies q) e ≡ (if q == p && e == c then some d else slot_of (w.cookies q) e)
slot_of_same w p c d at q e = elim (Bool-cases (q == p && e == c)) [
  | inl here ↦
      let one : q ≡ p = ground arith in
      let two : e ≡ c = ground arith in
      rw here (ap (λ n. slot_of (w.cookies n) e) one ∙ ap (slot_of (w.cookies p)) two ∙ at)
  | inr other ↦ rw other refl
]

put-entry :
    (t : Table) (p c : ℕ) (s : Stored)
    → t p c ≡ some s
    → (q e : ℕ) → t q e ≡ put t p c (entry (t p c)) q e
put-entry t p c s here q e = elim (Bool-cases (q == p && e == c)) [
  | inl same ↦
      let one : q ≡ p = ground arith in
      let two : e ≡ c = ground arith in
      ap (λ n. t n e) one ∙ ap (t p) two ∙ here ∙ sym (rw (same, here) refl)
  | inr other ↦ rw other refl
]

module _ ⦃sdk : Sdk⦄ where
  pub set_value-table :
      (server : Server) (own : ℕ → ℕ) (w : World) (p c : ℕ) (value : Text) (k : Cookie)
      → w.cookies p ≡ some k
      → leb c sdk.max_players ≡ true
      → Owned own w
      → (v : World) × (own' : ℕ → ℕ) × (set_cookie_value server p c value w ≡ some (true, v))
        × Owned own' v
        × Keeps w v
        × ((q e : ℕ)
            → table_of v q e
              ≡ put
                  (table_of w)
                  p
                  c
                  (record {
                    value = clip max_value_length (some value);
                    changed = true;
                    timestamp = server.time;
                  })
                  q
                  e)
  set_value-table server own w p c value k alive inside o = elim (Option-cases (k.data_at c)) [
    | inl missing ↦
        let x : CookieData = record {
          value = clip max_value_length (some value);
          changed = false;
          timestamp = 0;
          parent = some p;
        } in
        let x' : CookieData = record x { changed = true; timestamp = server.time } in
        let u = linked (bumped w) c p k w.next x in
        let v : World = record u { datums = update u.datums w.next (some x') } in
        (
          v,
          _,
          set_missing server w p c value k alive inside missing,
          Owned-write_datum _ u w.next x x' (ground arith) refl
              (Owned-attached own w p c k x alive refl o),
          λ q h. ground arith,
          table_of-write w v p c w.next x' (slot_of-linked w p c w.next k alive) (λ e. ground arith)
              (λ q e other d at. slots_below own w q e d o at),
        )
    | inr (d, at) ↦
        let (x, found) = slot_alive own w p c d k alive at o in
        let y : CookieData = record x { value = clip max_value_length (some value) } in
        let y' : CookieData = record y { changed = true; timestamp = server.time } in
        let u : World = record w { datums = update w.datums d (some y) } in
        let v : World = record u { datums = update u.datums d (some y') } in
        let here : slot_of (w.cookies p) c ≡ some d = ap (λ j. slot_of j c) alive ∙ at in
        (
          v,
          own,
          set_existing server w p c d value k x alive inside at found,
          Owned-write_datum own u d y y' (ground arith) refl
              (Owned-write_datum own w d x y found refl o),
          λ q h. h,
          table_of-write w v p c d y' (slot_of_same w p c d here) (λ e. ground arith)
              (λ q e other d' there. slots_apart own w p c d q e d' o here other there),
        )
  ]

  -- The text whose address GetCookieValue hands out.
  abbrev pub read_value : ℕ → ℕ → Main Text
  read_value p c = do d ← get_cookie_value p c; x ← load_data d; pure x.value

  pub get_value-table :
      (own : ℕ → ℕ) (w : World) (p c : ℕ) (k : Cookie)
      → w.cookies p ≡ some k
      → leb c sdk.max_players ≡ true
      → Owned own w
      → (v : World) × (own' : ℕ → ℕ) × (read_value p c w ≡ some ((entry (table_of w p c)).value, v))
        × Owned own' v
        × Keeps w v
        × ((q e : ℕ) → table_of v q e ≡ put (table_of w) p c (entry (table_of w p c)) q e)
  unfolding get_cookie_value
  get_value-table own w p c k alive inside o = elim (Option-cases (k.data_at c)) [
    | inl missing ↦
        let x : CookieData = empty_data p in
        let u = linked (bumped w) c p k w.next x in
        let v : World = record u { datums = update u.datums w.next (some x) } in
        let empty : table_of w p c ≡ none =
          ap (λ j. value_at w (slot_of j c)) alive ∙ ap (value_at w) missing in
        let ran = get_missing w p c k alive inside missing in
        let found : v.datums w.next ≡ some x = ground arith in
        (
          v,
          _,
          rw (◌>>=◌, ran, found, empty) refl,
          Owned-write_datum _ u w.next x x (ground arith) refl
              (Owned-attached own w p c k x alive refl o),
          λ q h. ground arith,
          λ q e.
              table_of-write w v p c w.next x (slot_of-linked w p c w.next k alive)
                (λ i. ground arith) (λ i j other d at. slots_below own w i j d o at) q e
              ∙ ap (λ t. put (table_of w) p c (entry t) q e) (sym empty),
        )
    | inr (d, at) ↦
        let (x, found) = slot_alive own w p c d k alive at o in
        let s : Stored = record { value = x.value; changed = x.changed; timestamp = x.timestamp } in
        let here : table_of w p c ≡ some s =
          ap (λ j. value_at w (slot_of j c)) alive ∙ ap (value_at w) at ∙ ap stored_of found in
        (
          w,
          own,
          rw (◌>>=◌, ◌>>◌, here, alive, inside, at) (rw (◌>>=◌, found) refl),
          o,
          λ q h. h,
          λ q e. put-entry (table_of w) p c s here q e,
        )
  ]

  pub get_time-table :
      (own : ℕ → ℕ) (w : World) (p c : ℕ) (k : Cookie)
      → w.cookies p ≡ some k
      → leb c sdk.max_players ≡ true
      → Owned own w
      → get_cookie_time p c w ≡ some (time_in (table_of w p c), w)
  unfolding get_cookie_time
  get_time-table own w p c k alive inside o = elim (Option-cases (k.data_at c)) [
    | inl missing ↦
        let empty : table_of w p c ≡ none =
          ap (λ j. value_at w (slot_of j c)) alive ∙ ap (value_at w) missing in
        rw (◌>>=◌, ◌>>◌, empty, alive, inside, missing) refl
    | inr (d, at) ↦
        let (x, found) = slot_alive own w p c d k alive at o in
        let here : table_of w p c
            ≡ some (record { value = x.value; changed = x.changed; timestamp = x.timestamp }) =
          ap (λ j. value_at w (slot_of j c)) alive ∙ ap (value_at w) at ∙ ap stored_of found in
        rw (◌>>=◌, ◌>>◌, here, alive, inside, at) (rw (◌>>=◌, found) refl)
  ]
