-- ===== src/Natives/Values.antt =====
-- What a plugin reads by the natives for the value of a client (SetClientPrefCookie,
-- GetClientPrefCookie and GetClientCookieTime of natives.cpp).
use clientprefs_redis.Base.{ℕ, ◌≡◌, ap, ◌∙◌, ◌≤◌, Option, some, true, arith, leb, pos}
use clientprefs_redis.Base.Fault.{◌>>=◌, ◌>>◌}
use clientprefs_redis.Text.{Text, clip}
use clientprefs_redis.Sdk.{Sdk, Server}
use clientprefs_redis.State.{Cookie, CookieData, World, max_value_length}
use clientprefs_redis.CookieManager.{get_cookie_value, get_cookie_time}
use clientprefs_redis.CookieManager.Values.{HasSlot, get_cookie_value-set_cookie_value}
use clientprefs_redis.Clients.Late.{attempt_reconnection-settles}
use clientprefs_redis.Natives.{
  Handles, valid_client, set_client_pref_cookie, get_client_pref_cookie, get_client_cookie_time,
}

module _ ⦃sdk : Sdk⦄ where
  get_held :
      (w : World) (p client d : ℕ) (k : Cookie)
      → w.cookies p ≡ some k
      → leb client sdk.max_players ≡ true
      → k.data_at client ≡ some d
      → get_cookie_value p client w ≡ some (d, w)
  unfolding get_cookie_value
  get_held w p client d k live inside at = ground arith

  time_held :
      (w : World) (p client d : ℕ) (k : Cookie) (x : CookieData)
      → w.cookies p ≡ some k
      → leb client sdk.max_players ≡ true
      → k.data_at client ≡ some d
      → w.datums d ≡ some x
      → get_cookie_time p client w ≡ some (some x.timestamp, w)
  unfolding get_cookie_time
  time_held w p client d k x live inside at found = ground arith

  HasSlot-same :
      (w v : World) (p client : ℕ)
      → v.cookies ≡ w.cookies
      → v.datums ≡ w.datums
      → HasSlot w p client
      → HasSlot v p client
  HasSlot-same w v p client ec ed h = record {
    cookie = h.cookie;
    alive = ap (λ (f : ℕ → Option Cookie). f p) ec ∙ h.alive;
    in_array = h.in_array;
    held = λ d at.
        let (x, found) = h.held d at in (x, ap (λ (f : ℕ → Option CookieData). f d) ed ∙ found);
  }

  valid_index :
      (server : Server) (n : ℕ)
      → 1 ≤ n
      → n ≤ server.max_clients
      → valid_client server (pos n) ≡ some n
  unfolding valid_client
  valid_index server n lo hi = ground arith

  module _ (handles : Handles) (server : Server) (fits : server.max_clients ≤ sdk.max_players) where
    -- SetClientPrefCookie for a client of the server and a handle of a cookie that is alive
    -- returns 1, if a value that the client has is alive and the clients have their places in the
    -- arrays. GetClientPrefCookie then gives the value cut to 99 bytes, and GetClientCookieTime
    -- after it the time of the call of SetClientPrefCookie, though each native first catches the
    -- clients that were missed.
    pub get_client_pref_cookie-set_client_pref_cookie :
        (w : World) (n hndl p : ℕ) (value : Text)
        → 1 ≤ n
        → n ≤ server.max_clients
        → handles.read_handle hndl ≡ some p
        → HasSlot w p n
        → (w1 w2 w3 : World) × (set_client_pref_cookie handles server (pos n) hndl value w
            ≡ some (some (pos 1), w1))
          × (get_client_pref_cookie handles server (pos n) hndl w1
              ≡ some (some (clip max_value_length (some value)), w2))
          × (get_client_cookie_time handles server (pos n) hndl w2 ≡ some (some server.time, w3))
    unfolding set_client_pref_cookie get_client_pref_cookie get_client_cookie_time
    get_client_pref_cookie-set_client_pref_cookie w n hndl p value lo hi handle slot =
        let (v, ran, again, c) = attempt_reconnection-settles server fits w in
        let at_v =
          HasSlot-same w v p n (ap (λ (x : World). x.cookies) c.rest)
            (ap (λ (x : World). x.datums) c.rest) slot in
        let (w1, done, reads) = get_cookie_value-set_cookie_value server v p n value at_v in
        let (w2, ran2, again2, c2) = attempt_reconnection-settles server fits w1 in
        let alive : w2.cookies p ≡ some reads.cookie =
          ap (λ (x : World). x.cookies p) c2.rest ∙ reads.alive in
        let found : w2.datums reads.address ≡ some reads.object =
          ap (λ (x : World). x.datums reads.address) c2.rest ∙ reads.found in
        let got = get_held w2 p n reads.address reads.cookie alive reads.in_array reads.held in
        let valid = valid_index server n lo hi in
        let timed =
          time_held w2 p n reads.address reads.cookie reads.object alive reads.in_array reads.held
            found in
        (
          w1,
          w2,
          w2,
          rw (◌>>◌, ◌>>=◌, ran, valid, handle, done),
          rw (◌>>◌, ◌>>=◌, ran2, valid, handle, got, found, reads.value_is),
          rw (◌>>◌, ◌>>=◌, again2, handle, timed, reads.time_is),
        )
