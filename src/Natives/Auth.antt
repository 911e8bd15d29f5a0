-- ===== src/Natives/Auth.antt =====
-- IsAuthIdConnected and SetAuthIdCookie of natives.cpp.
use clientprefs_redis.Base.{
  ℕ, zero, suc, ◌≡◌, refl, ap, ◌∙◌, ◌≤◌, inl, inr, [], ◌∷◌, ◌++◌, Option, none, some, Bool, true,
  false, ◌||◌, ◌&&◌, arith, pos, eq_text, Bool-cases, Option-cases, not, List, if◌then◌else◌,
}
use clientprefs_redis.Base.Fault.{◌>>=◌, ◌>>◌, update}
use clientprefs_redis.Text.{Text, clip}
use clientprefs_redis.Sdk.{Sdk, Server, GamePlayer}
use clientprefs_redis.State.{
  Cookie, CookieData, QueryOp, World, insert_data, cookie_op, new_cookie_data, max_name_length,
  max_value_length,
}
use clientprefs_redis.Clients.Missed.{Caught}
use clientprefs_redis.Clients.Late.{attempt_reconnection-settles}
use clientprefs_redis.Natives.{
  Handles, is_auth_id_connected, auth_rounds, auth_round, has_auth, same_id, set_auth_id_cookie,
  set_auth, save_auth,
}

-- The text is this id.
abbrev is_id : Option Text → Text → Bool
is_id none id = false
is_id (some t) id = eq_text t id

-- An authorized player with this id in one of the three forms.
abbrev pub goes_by : Option GamePlayer → Text → Bool
goes_by none id = false
goes_by (some player) id =
    player.authorized
    && (is_id player.auth_string id || is_id player.steam2 id || is_id player.steam3 id)

-- One of the ids is NULL, and none before it is this id.
abbrev null_before : List (Option Text) → Text → Bool
null_before [] id = false
null_before (none ∷ ids) id = true
null_before (some t ∷ ids) id = not (eq_text t id) && null_before ids id

abbrev pub lacks_id : Option GamePlayer → Text → Bool
lacks_id none id = false
lacks_id (some player) id =
    player.authorized && null_before (player.auth_string ∷ player.steam2 ∷ player.steam3 ∷ []) id

-- The search from client `n` down comes to an id that is NULL before it finds the id.
abbrev pub meets_null : Server → Text → ℕ → Bool
meets_null server id zero = false
meets_null server id (suc n) =
    let below = meets_null server id n in
    lacks_id (server.player (suc n)) id || (not (goes_by (server.player (suc n)) id) && below)

-- The highest client from 1 to `n` that goes by the id, or 0.
abbrev pub highest : Server → Text → ℕ → ℕ
highest server id zero = 0
highest server id (suc n) =
    if goes_by (server.player (suc n)) id then suc n else highest server id n

-- The comparisons fault at an id that is NULL.
compare_ids :
    (player : GamePlayer) (id : Text) (w : World)
    → player.authorized ≡ true
    → has_auth player id w
      ≡ (if lacks_id (some player) id then none else some (goes_by (some player) id, w))
unfolding has_auth same_id
compare_ids player id w here = elim (Option-cases player.auth_string) [
  | inl ea ↦ ground (arith, ea, here)
  | inr (a, ea) ↦ elim (Option-cases player.steam2) [
    | inl eb ↦ ground (arith, ea, eb, here)
    | inr (b, eb) ↦ elim (Option-cases player.steam3) [
      | inl ec ↦ ground (arith, ea, eb, ec, here)
      | inr (c, ec) ↦ ground (arith, ea, eb, ec, here)
    ]
  ]
]

auth_round_lem :
    (player : Option GamePlayer) (id : Text) (w : World)
    → auth_round player id w ≡ (if lacks_id player id then none else some (goes_by player id, w))
unfolding auth_round
auth_round_lem none id w = refl
auth_round_lem (some player) id w = elim (Bool-cases player.authorized) [
  | inl here ↦ rw here (ground (arith, compare_ids player id w here))
  | inr away ↦ ground (arith, away)
]

auth_rounds-highest :
    (server : Server) (id : Text) (n : ℕ) (w : World)
    → auth_rounds server id n w
      ≡ (if meets_null server id n then none else some (highest server id n, w))
unfolding auth_rounds
auth_rounds-highest server id zero w = refl
auth_rounds-highest server id (suc n) w =
    ground (arith, auth_round_lem (server.player (suc n)) id w, auth_rounds-highest server id n w)

-- IsAuthIdConnected goes from the highest client down. Where it comes to an authorized player with an id that
-- is NULL, before it finds the id, the null pointer is followed. Else it returns the highest client whose player
-- is authorized and has the id in one of its three forms, or 0 if there is none, and changes nothing.
pub is_auth_id_connected-highest :
    (server : Server) (id : Text) (w : World)
    → is_auth_id_connected server id w ≡ (
        if meets_null server id server.max_clients
        then none
        else some (highest server id server.max_clients, w))
unfolding is_auth_id_connected
is_auth_id_connected-highest server id w = auth_rounds-highest server id server.max_clients w

-- What SetAuthIdCookie queues, and the object it makes for that.
abbrev pub auth_op : ℕ → Cookie → Text → ℕ → QueryOp
auth_op p k steam_id d =
    let op = cookie_op insert_data p in
    record op {
      params = record op.params {
        steam_id = clip max_name_length (some steam_id);
        cookie_id = k.dbid;
        datum = some d;
      };
    }

abbrev pub auth_data : Server → Text → CookieData
auth_data server value = record {
  value = clip max_value_length (some value);
  changed = true;
  timestamp = server.time;
  parent = none;
}

abbrev pub with_saved : Server → World → ℕ → Cookie → Text → Text → World
with_saved server v p k steam_id value = record v {
  datums = update v.datums v.next (some (auth_data server value));
  next = suc v.next;
  query_queue = v.query_queue ++ auth_op p k steam_id v.next ∷ [];
}

pub save_auth_lem :
    (server : Server) (v : World) (p : ℕ) (k : Cookie) (steam_id value : Text)
    → save_auth p k.dbid server steam_id value v ≡ some (tt, with_saved server v p k steam_id value)
unfolding save_auth new_cookie_data
save_auth_lem server v p k steam_id value = refl

module _ ⦃sdk : Sdk⦄ (handles : Handles) (server : Server)
    (fits : server.max_clients ≤ sdk.max_players) where
  set_auth_absent :
      (v : World) (p : ℕ) (k : Cookie) (steam_id value : Text)
      → v.cookies p ≡ some k
      → is_auth_id_connected server steam_id v ≡ some (0, v)
      → set_auth handles server p steam_id value v
        ≡ some (some (pos 1), with_saved server v p k steam_id value)
  unfolding set_auth
  set_auth_absent v p k steam_id value alive away =
      rw (◌>>=◌, ◌>>◌, alive, away, save_auth_lem server v p k steam_id value)

  -- SetAuthIdCookie for an id that no authorized player goes by, with a handle of a cookie that is
  -- alive: it returns 1 and queues, last, one query that saves the value cut to 99 bytes under the
  -- id cut to 29 bytes and the cookie's id, with the time of the call. Besides the new object of
  -- that query nothing changes, but that the missed clients are caught first. No authorized player may
  -- have an id that is NULL, which would be followed, and the clients must have their places in the
  -- arrays.
  pub set_auth_id_cookie_absent :
      (w : World) (hndl p : ℕ) (k : Cookie) (steam_id value : Text)
      → handles.read_handle hndl ≡ some p
      → w.cookies p ≡ some k
      → meets_null server steam_id server.max_clients ≡ false
      → highest server steam_id server.max_clients ≡ 0
      → (v : World) × (set_auth_id_cookie handles server steam_id hndl value w
          ≡ some (some (pos 1), with_saved server v p k steam_id value))
        × Caught server server.max_clients w v
  unfolding set_auth_id_cookie
  set_auth_id_cookie_absent w hndl p k steam_id value handle found ids away =
      let (v, ran, again, c) = attempt_reconnection-settles server fits w in
      let alive : v.cookies p ≡ some k = ap (λ (x : World). x.cookies p) c.rest ∙ found in
      let none_there : is_auth_id_connected server steam_id v ≡ some (0, v) =
        is_auth_id_connected-highest server steam_id v ∙ ground (arith, ids, away) in
      let saved = set_auth_absent v p k steam_id value alive none_there in
      (v, rw (◌>>◌, ◌>>=◌, ran, handle, saved), c)
