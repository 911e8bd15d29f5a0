-- ===== src/Ownership/Natives.antt =====
-- The natives keep the ownership and fault nowhere, where the handles lead to cookies.
use clientprefs_redis.Base.{
  false, Bool, ◌&&◌, not, ℕ, zero, suc, ◌≤◌, ◌≡◌, refl, ap, ◌∙◌, inl, inr, [], ◌∷◌, Option, none,
  some, true, ◌==◌, arith, get_elem?, All-get_elem?, Bool-cases, Option-cases, leb, le→leb, ℤ, pos,
  negsuc,
}
use clientprefs_redis.Base.Fault.{◌>>=◌, ◌>>◌, pure}
use clientprefs_redis.Text.{Text}
use clientprefs_redis.Sdk.{Sdk, Server}
use clientprefs_redis.State.{Cookie, CookieAccess, World, Main}
use clientprefs_redis.CookieManager.{
  are_client_cookies_cached, get_cookie_time, find_cookie, create_cookie, set_cookie_value,
}
use clientprefs_redis.Clients.{attempt_reconnection}
use clientprefs_redis.Natives.{
  Handles, valid_client, or_error, reg_client_pref_cookie, find_client_pref_cookie,
  set_client_pref_cookie, get_client_pref_cookie, get_cookie_access,
  are_client_cookies_cached_native, get_client_cookie_time, time_of, set_auth_id_cookie,
  is_auth_id_connected, set_auth, bool_cell,
}
use clientprefs_redis.Natives.Auth.{
  meets_null, highest, is_auth_id_connected-highest, with_saved, auth_op, auth_data, save_auth_lem,
}
use clientprefs_redis.Ownership.Values.{Owned-payload}
use clientprefs_redis.Ownership.{Owned, is_some}
use clientprefs_redis.Natives.Iterator.{
  row_of, at_place, get_cookie_iterator, read_cookie_iterator, read_iterator_of,
}
use clientprefs_redis.Ownership.Requests.{
  slot_alive, Ends, some_of, create_cookie-Ends, set_cookie_value-Ends, get_cookie_value_alive,
}
use clientprefs_redis.Ownership.Arrivals.{Owned-Caught}
use clientprefs_redis.Clients.Missed.{Caught}
use clientprefs_redis.Clients.Late.{attempt_reconnection-Caught}

-- A handle that can be read leads to a cookie that is alive.
abbrev pub HandlesAlive : Handles → World → Type 0
HandlesAlive handles w = (h p : ℕ) → handles.read_handle h ≡ some p → is_some (w.cookies p) ≡ true

-- The index has a place in an array of clients.
abbrev pub in_array : ⦃sdk : Sdk⦄ → ℤ → Bool
in_array ⦃sdk⦄ (pos i) = leb i sdk.max_players
in_array ⦃sdk⦄ (negsuc i) = false

module _ ⦃sdk : Sdk⦄ (handles : Handles) (server : Server)
    (fits : server.max_clients ≤ sdk.max_players) where
  -- A native first catches the missed clients, and the rest of it runs in a world that has the same cookies.
  after_catching :
      {A : Type 0} (m : Main A) (own : ℕ → ℕ) (w : World)
      → Owned own w
      → ((v : World) → Caught server server.max_clients w v → Owned own v → Ends m v)
      → Ends (attempt_reconnection server >> m) w
  after_catching m own w o rest =
      let (v, ran, c) = attempt_reconnection-Caught server fits w in
      let (a, v', own', ran', o') = rest v c (Owned-Caught server server.max_clients own w v c o) in
      (a, v', own', rw (◌>>=◌, ran, ran'), o')

  valid_below : (c : ℤ) (i : ℕ) → valid_client server c ≡ some i → leb i sdk.max_players ≡ true
  unfolding valid_client
  valid_below (pos n) i h = ground (arith, le→leb i sdk.max_players)
  valid_below (negsuc n) i h = cc

  or_error-Ends :
      {A B : Type 0} (o : Option A) (act : A → Main (Option B)) (own : ℕ → ℕ) (v : World)
      → Owned own v
      → ((a : A) → o ≡ some a → Ends (act a) v)
      → Ends (or_error o act) v
  or_error-Ends none act own v h rest = (none, v, own, refl, h)
  or_error-Ends (some a) act own v h rest = rest a refl

  mapped-Ends :
      {A B : Type 0} (m : Main A) (f : A → B) (v : World)
      → Ends m v
      → Ends (m >>= λ a. pure (f a)) v
  mapped-Ends m f v (a, u, own, ran, o) = (f a, u, own, rw (◌>>=◌, ran), o)

  -- The cookie of a handle, in a world with the same cookies.
  handle_alive :
      (w v : World) (h p : ℕ)
      → HandlesAlive handles w
      → Caught server server.max_clients w v
      → handles.read_handle h ≡ some p
      → (k : Cookie) × (v.cookies p ≡ some k)
  handle_alive w v h p alive c e =
      some_of (v.cookies p) (ap (λ (x : World). is_some (x.cookies p)) c.rest ∙ alive h p e)

  pub reg_client_pref_cookie-Ends :
      (own : ℕ → ℕ) (w : World) (name desc : Text) (access : CookieAccess)
      → Owned own w
      → Ends (reg_client_pref_cookie handles server name desc access) w
  unfolding reg_client_pref_cookie
  reg_client_pref_cookie-Ends own w [] desc access o =
      after_catching _ own w o (λ v c ov. (none, v, own, refl, ov))
  reg_client_pref_cookie-Ends own w (x ∷ name) desc access o = after_catching _ own w o (λ v c ov.
      mapped-Ends (create_cookie (x ∷ name) desc access) (λ p. some (handles.create_handle p)) v
        (create_cookie-Ends own v (x ∷ name) desc access ov))

  pub find_client_pref_cookie-Ends :
      (own : ℕ → ℕ) (w : World) (name : Text)
      → Owned own w
      → Ends (find_client_pref_cookie handles server name) w
  unfolding find_client_pref_cookie find_cookie
  find_client_pref_cookie-Ends own w name o =
      after_catching _ own w o (λ v c ov. (_, v, own, refl, ov))

  pub set_client_pref_cookie-Ends :
      (own : ℕ → ℕ) (w : World) (client : ℤ) (h : ℕ) (value : Text)
      → HandlesAlive handles w
      → Owned own w
      → Ends (set_client_pref_cookie handles server client h value) w
  unfolding set_client_pref_cookie
  set_client_pref_cookie-Ends own w client h value alive o = after_catching _ own w o (λ v c ov.
      or_error-Ends (valid_client server client) _ own v ov (λ i valid.
        or_error-Ends (handles.read_handle h) _ own v ov (λ p e.
          let (k, live) = handle_alive w v h p alive c e in
          mapped-Ends (set_cookie_value server p i value) _ v
            (set_cookie_value-Ends server own v p i value k live (valid_below client i valid) ov))))

  pub get_client_pref_cookie-Ends :
      (own : ℕ → ℕ) (w : World) (client : ℤ) (h : ℕ)
      → HandlesAlive handles w
      → Owned own w
      → Ends (get_client_pref_cookie handles server client h) w
  unfolding get_client_pref_cookie
  get_client_pref_cookie-Ends own w client h alive o = after_catching _ own w o (λ v c ov.
      or_error-Ends (valid_client server client) _ own v ov (λ i valid.
        or_error-Ends (handles.read_handle h) _ own v ov (λ p e.
          let (k, live) = handle_alive w v h p alive c e in
          let (d, u, own1, ran, o1, (x, found)) =
            get_cookie_value_alive own v p i k live (valid_below client i valid) ov in
          (some x.value, u, own1, rw (◌>>=◌, ran, found), o1))))

  pub get_cookie_access-Ends :
      (own : ℕ → ℕ) (w : World) (h : ℕ)
      → HandlesAlive handles w
      → Owned own w
      → Ends (get_cookie_access handles server h) w
  unfolding get_cookie_access
  get_cookie_access-Ends own w h alive o = after_catching _ own w o (λ v c ov.
      or_error-Ends (handles.read_handle h) _ own v ov (λ p e.
        let (k, live) = handle_alive w v h p alive c e in
        (some k.access, v, own, rw (◌>>=◌, live), ov)))

  pub are_client_cookies_cached_native-Ends :
      (own : ℕ → ℕ) (w : World) (client : ℤ)
      → Owned own w
      → Ends (are_client_cookies_cached_native handles server client) w
  unfolding are_client_cookies_cached_native are_client_cookies_cached
  are_client_cookies_cached_native-Ends own w client o = after_catching _ own w o (λ v c ov.
      or_error-Ends (valid_client server client) _ own v ov (λ i valid.
        (some (v.stats_loaded i), v, own, rw (◌>>=◌, ◌>>◌, valid_below client i valid) refl, ov)))

  get_cookie_time-Ends :
      (own : ℕ → ℕ) (v : World) (p i : ℕ) (k : Cookie)
      → v.cookies p ≡ some k
      → leb i sdk.max_players ≡ true
      → Owned own v
      → Ends (get_cookie_time p i) v
  unfolding get_cookie_time
  get_cookie_time-Ends own v p i k live inside o = elim (Option-cases (k.data_at i)) [
    | inl empty ↦ (none, v, own, rw (◌>>=◌, ◌>>◌, live, inside, empty) refl, o)
    | inr (d, at) ↦
        let (x, found) = slot_alive own v p i d k live at o in
        (some x.timestamp, v, own, rw (◌>>=◌, ◌>>◌, live, inside, at) (rw (◌>>=◌, found) refl), o)
  ]

  -- The native does not look at the client, which must have a place in the arrays where the handle is read.
  pub get_client_cookie_time-Ends :
      (own : ℕ → ℕ) (w : World) (client : ℤ) (h : ℕ)
      → (is_some (handles.read_handle h) && not (in_array client)) ≡ false
      → HandlesAlive handles w
      → Owned own w
      → Ends (get_client_cookie_time handles server client h) w
  unfolding get_client_cookie_time time_of
  get_client_cookie_time-Ends own w (pos i) h inside alive o = after_catching _ own w o (λ v c ov.
      or_error-Ends (handles.read_handle h) _ own v ov (λ p e.
        let (k, live) = handle_alive w v h p alive c e in
        mapped-Ends (get_cookie_time p i) _ v
          (get_cookie_time-Ends own v p i k live (ground (arith, inside, e)) ov)))
  get_client_cookie_time-Ends own w (negsuc i) h inside alive o =
      after_catching _ own w o (λ v c ov.
        or_error-Ends (handles.read_handle h) _ own v ov
          (λ p e. absurd (ground (arith, inside, e))))

  -- Else the array is left.
  pub get_client_cookie_time_faults :
      (w : World) (client : ℤ) (h : ℕ)
      → (is_some (handles.read_handle h) && not (in_array client)) ≡ true
      → get_client_cookie_time handles server client h w ≡ none
  unfolding get_client_cookie_time time_of get_cookie_time
  get_client_cookie_time_faults w client h outside =
      let (v, ran, c) = attempt_reconnection-Caught server fits w in
      let (p, read) = some_of (handles.read_handle h) (ground (arith, outside)) in
      elim (Option-cases (v.cookies p)) [
        | inl dead ↦ rw (◌>>=◌, ◌>>◌, ran, read) (ground (arith, dead))
        | inr (k, live) ↦ rw (◌>>=◌, ◌>>◌, ran, read) (ground (arith, live, outside, read))
      ]

  pub get_cookie_iterator-Ends :
      (own : ℕ → ℕ) (w : World) (hndl : ℕ) → Owned own w → Ends (get_cookie_iterator server hndl) w
  unfolding get_cookie_iterator
  get_cookie_iterator-Ends own w hndl o = after_catching _ own w o (λ v c ov. (_, v, own, refl, ov))

  read_cookie_iterator-Ends :
      (own : ℕ → ℕ) (w : World) (iter : ℕ) → Owned own w → Ends (read_cookie_iterator server iter) w
  unfolding read_cookie_iterator at_place
  read_cookie_iterator-Ends own w iter o = after_catching _ own w o (λ v c ov.
      elim (Option-cases (get_elem? v.cookie_list iter)) [
        | inl past ↦ (none, v, own, rw (◌>>=◌, past) refl, ov)
        | inr (p, at) ↦
            let (k, live) = some_of (v.cookies p) (
              All-get_elem? (λ q. is_some (v.cookies q) ≡ true) v.cookie_list iter p ov.listed
                at) in
            (some (row_of k, suc iter), v, own, rw (◌>>=◌, at) (rw (◌>>=◌, live) refl), ov)
      ])

  pub read_iterator_of-Ends :
      (own : ℕ → ℕ) (w : World) (iter : Option ℕ)
      → Owned own w
      → Ends (read_iterator_of server iter) w
  unfolding read_iterator_of
  read_iterator_of-Ends own w none o = after_catching _ own w o (λ v c ov. (none, v, own, refl, ov))
  read_iterator_of-Ends own w (some iter) o = read_cookie_iterator-Ends own w iter o

highest-below : (server : Server) (id : Text) (n : ℕ) → highest server id n ≤ n
highest-below server id zero = omega arith
highest-below server id (suc n) = ground (arith, highest-below server id n)

module _ ⦃sdk : Sdk⦄ (handles : Handles) (server : Server)
    (fits : server.max_clients ≤ sdk.max_players) where
  set_auth-Ends :
      (own : ℕ → ℕ) (v : World) (p : ℕ) (k : Cookie) (id value : Text)
      → v.cookies p ≡ some k
      → meets_null server id server.max_clients ≡ false
      → Owned own v
      → Ends (set_auth handles server p id value) v
  unfolding set_auth
  set_auth-Ends own v p k id value live ids o =
      let found : is_auth_id_connected server id v
          ≡ some (highest server id server.max_clients, v) =
        is_auth_id_connected-highest server id v ∙ ground (arith, ids) in
      let client = highest server id server.max_clients in
      elim (Bool-cases (client == 0)) [
        | inl away ↦ (
          some (pos 1),
          with_saved server v p k id value,
          _,
          rw (◌>>=◌, ◌>>◌, live, found, away, save_auth_lem server v p k id value),
          Owned-payload own v (auth_data server value) (auth_op p k id v.next) refl refl o,
        )
        | inr there ↦
            let below = highest-below server id server.max_clients in
            let (done, u, own1, ran, o1) =
              set_cookie_value-Ends server own v p client value k live
                (le→leb client sdk.max_players (omega (arith, below, fits))) o in
            (some (bool_cell done), u, own1, rw (◌>>=◌, live, found, there, ran), o1)
      ]

  pub set_auth_id_cookie-Ends :
      (own : ℕ → ℕ) (w : World) (id : Text) (h : ℕ) (value : Text)
      → HandlesAlive handles w
      → (is_some (handles.read_handle h) && meets_null server id server.max_clients) ≡ false
      → Owned own w
      → Ends (set_auth_id_cookie handles server id h value) w
  unfolding set_auth_id_cookie
  set_auth_id_cookie-Ends own w id h value alive ids o =
      after_catching handles server fits _ own w o (λ v c ov.
        or_error-Ends handles server fits (handles.read_handle h) _ own v ov (λ p e.
          let (k, live) = handle_alive handles server fits w v h p alive c e in
          set_auth-Ends own v p k id value live (ground (arith, ids, e)) ov))

  -- The search follows a null pointer.
  pub set_auth_id_cookie_faults :
      (w : World) (id : Text) (h : ℕ) (value : Text)
      → (is_some (handles.read_handle h) && meets_null server id server.max_clients) ≡ true
      → set_auth_id_cookie handles server id h value w ≡ none
  unfolding set_auth_id_cookie set_auth
  set_auth_id_cookie_faults w id h value meets =
      let (v, ran, c) = attempt_reconnection-Caught server fits w in
      let (p, read) = some_of (handles.read_handle h) (ground (arith, meets)) in
      let stuck : is_auth_id_connected server id v ≡ none =
        is_auth_id_connected-highest server id v ∙ ground (arith, meets) in
      elim (Option-cases (v.cookies p)) [
        | inl dead ↦ rw (◌>>=◌, ◌>>◌, ran, read, dead) refl
        | inr (k, live) ↦ rw (◌>>=◌, ◌>>◌, ran, read, live, stuck) refl
      ]
