-- ===== src/CookieManager/Values.antt =====
-- What a plugin reads back of the values that it sets (SetCookieValue, GetCookieValue,
-- GetCookieTime).
use clientprefs_redis.Base.{
  ℕ, suc, ◌≡◌, refl, inl, inr, none, some, Bool, true, false, arith, leb, Option-cases, ◌++◌, ◌∷◌,
  [],
}
use clientprefs_redis.Base.Fault.{update}
use clientprefs_redis.Text.{Text, clip}
use clientprefs_redis.Sdk.{Sdk, Server}
use clientprefs_redis.State.{Cookie, CookieData, World, new_cookie_data, max_value_length}
use clientprefs_redis.CookieManager.{set_cookie_value, get_cookie_value, get_cookie_time}

module _ ⦃sdk : Sdk⦄ where
  -- The cookie is alive, the client has a place in its array, and what stands there is alive too.
  pub record HasSlot (w : World) (p client : ℕ) : Type 0 where
    pub cookie : Cookie
    pub alive : w.cookies p ≡ some cookie
    pub in_array : leb client sdk.max_players ≡ true
    pub held : (d : ℕ) → cookie.data_at client ≡ some d → (x : CookieData) × (w.datums d ≡ some x)

  -- The object that a read at this cookie and client finds.
  pub record Reads (w : World) (p client : ℕ) (value : Text) (changed : Bool) (time : ℕ)
      : Type 0 where
    pub cookie : Cookie
    pub address : ℕ
    pub object : CookieData
    pub alive : w.cookies p ≡ some cookie
    pub in_array : leb client sdk.max_players ≡ true
    pub held : cookie.data_at client ≡ some address
    pub got : get_cookie_value p client w ≡ some (address, w)
    pub timed : get_cookie_time p client w ≡ some (some time, w)
    pub found : w.datums address ≡ some object
    pub value_is : object.value ≡ value
    pub changed_is : object.changed ≡ changed
    pub time_is : object.timestamp ≡ time

  set_existing :
      (server : Server) (w : World) (p client d : ℕ) (value : Text) (k : Cookie) (x : CookieData)
      → w.cookies p ≡ some k
      → leb client sdk.max_players ≡ true
      → k.data_at client ≡ some d
      → w.datums d ≡ some x
      → (w' : World) × (set_cookie_value server p client value w ≡ some (true, w'))
        × Reads w' p client (clip max_value_length (some value)) true server.time
  unfolding set_cookie_value get_cookie_value get_cookie_time
  set_existing server w p client d value k x live inside at found =
      let x' : CookieData = record x { value = clip max_value_length (some value) } in
      let x'' : CookieData = record x' { changed = true; timestamp = server.time } in
      (
        record w { datums = update (update w.datums d (some x')) d (some x'') },
        ground arith,
        record {
          address = d;
          cookie = k;
          object = x'';
          alive = ground arith;
          in_array = inside;
          held = ground arith;
          got = ground arith;
          timed = ground arith;
          found = ground arith;
          value_is = refl;
          changed_is = refl;
          time_is = refl;
        },
      )

  -- The world after a new object stands in the slot.
  abbrev attached : World → ℕ → Cookie → ℕ → CookieData → World
  attached w p k client x = record w {
    cookies =
        update w.cookies p (some (record k { data_at = update k.data_at client (some w.next) }));
    datums = update w.datums w.next (some x);
    next = suc w.next;
    client_data = update w.client_data client (w.client_data client ++ w.next ∷ []);
  }

  set_missing :
      (server : Server) (w : World) (p client : ℕ) (value : Text) (k : Cookie)
      → w.cookies p ≡ some k
      → leb client sdk.max_players ≡ true
      → k.data_at client ≡ none
      → (w' : World) × (set_cookie_value server p client value w ≡ some (true, w'))
        × Reads w' p client (clip max_value_length (some value)) true server.time
  unfolding set_cookie_value get_cookie_value get_cookie_time
  set_missing server w p client value k live inside at =
      let x : CookieData = record {
        value = clip max_value_length (some value);
        changed = false;
        timestamp = 0;
        parent = some p;
      } in
      let x' : CookieData = record x { changed = true; timestamp = server.time } in
      let v : World = attached w p k client x in
      (
        record v { datums = update v.datums w.next (some x') },
        ground arith,
        record {
          address = w.next;
          cookie = record k { data_at = update k.data_at client (some w.next) };
          object = x';
          alive = ground arith;
          in_array = inside;
          held = ground arith;
          got = ground arith;
          timed = ground arith;
          found = ground arith;
          value_is = refl;
          changed_is = refl;
          time_is = refl;
        },
      )

  -- SetCookieValue on a cookie that is alive, for a client that has a place in the arrays and whose
  -- value, if it has one, is alive, returns true and faults nowhere. From then on GetCookieValue
  -- reads the value cut to 99 bytes, marked as changed, and GetCookieTime the time of the call,
  -- whether or not the client had a value before.
  pub get_cookie_value-set_cookie_value :
      (server : Server) (w : World) (p client : ℕ) (value : Text)
      → HasSlot w p client
      → (w' : World) × (set_cookie_value server p client value w ≡ some (true, w'))
        × Reads w' p client (clip max_value_length (some value)) true server.time
  get_cookie_value-set_cookie_value server w p client value h =
      elim (Option-cases (h.cookie.data_at client)) [
        | inl missing ↦ set_missing server w p client value h.cookie h.alive h.in_array missing
        | inr (d, at) ↦
            let (x, found) = h.held d at in
            set_existing server w p client d value h.cookie x h.alive h.in_array at found
      ]

  -- GetCookieValue at a cookie that is alive and where a client in range has no value makes an
  -- empty one that is not marked as changed and has time 0, so that it is never saved, and a second
  -- read finds that same object.
  pub get_cookie_value_missing :
      (w : World) (p client : ℕ) (k : Cookie)
      → w.cookies p ≡ some k
      → leb client sdk.max_players ≡ true
      → k.data_at client ≡ none
      → (w' : World) × (get_cookie_value p client w ≡ some (w.next, w'))
        × Reads w' p client [] false 0
  unfolding get_cookie_value get_cookie_time new_cookie_data clip
  get_cookie_value_missing w p client k live inside at =
      let x : CookieData = record { value = []; changed = false; timestamp = 0; parent = some p } in
      let v : World = attached w p k client x in
      (
        record v { datums = update v.datums w.next (some x) },
        ground arith,
        record {
          address = w.next;
          cookie = record k { data_at = update k.data_at client (some w.next) };
          object = x;
          alive = ground arith;
          in_array = inside;
          held = ground arith;
          got = ground arith;
          timed = ground arith;
          found = ground arith;
          value_is = refl;
          changed_is = refl;
          time_is = refl;
        },
      )
