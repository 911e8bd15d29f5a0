-- ===== src/System/Unload.antt =====
-- CookieManager::Unload of cookie.cpp in the worlds that the extension reaches.
use clientprefs_redis.Base.{
  false, ℕ, zero, suc, ◌≤◌, ◌≡◌, refl, ap, ◌∙◌, inl, inr, List, [], Option, none, some, true, ◌==◌,
  arith, Bool-cases, le→leb,
}
use clientprefs_redis.Base.Fault.{◌>>=◌, ◌>>◌}
use clientprefs_redis.Sdk.{Sdk, Server}
use clientprefs_redis.State.{Cookie, CookieData, World}
use clientprefs_redis.Extension.Unload.{save_clients, unload}
use clientprefs_redis.Ownership.{Owned}
use clientprefs_redis.Ownership.Leaving.{on_client_disconnecting-emptied}
use clientprefs_redis.Query.Run.{Backend}
use clientprefs_redis.System.{Reach}
use clientprefs_redis.System.Destructor.{Deleted, delete_cookies-Deleted}
use clientprefs_redis.System.Safety.{Reach-Owned, HasOnePlace, Owned-one_place}

module _ ⦃sdk : Sdk⦄ (server : Server) (fits : server.max_clients ≤ sdk.max_players) where
  -- The rounds from `n` down empty the lists of the clients that are connected.
  save_clients-emptied :
      (n : ℕ) (own : ℕ → ℕ) (w : World)
      → n ≤ server.max_clients
      → Owned own w
      → (v : World) × (own' : ℕ → ℕ) × (save_clients server n w ≡ some (tt, v))
        × Owned own' v
        × ((i : ℕ) → w.client_data i ≡ [] → v.client_data i ≡ [])
        × ((i : ℕ) → 1 ≤ i → i ≤ n → w.connected i ≡ true → v.client_data i ≡ [])
  unfolding save_clients
  save_clients-emptied zero own w below o =
      (w, own, refl, o, λ i e. e, λ i m h there. absurd (omega arith))
  save_clients-emptied (suc n) own w below o =
      let inside = le→leb (suc n) sdk.max_players (omega arith) in
      elim (Bool-cases (w.connected (suc n))) [
        | inl here ↦
            let (u, own1, left, o1, lists, flags) =
              on_client_disconnecting-emptied server fits own w (suc n) (omega arith) o in
            let (v, own2, ran, o2, stay, others) = save_clients-emptied n own1 u (omega arith) o1 in
            (
              v,
              own2,
              rw (◌>>=◌, ◌>>◌, inside, here) (rw (◌>>=◌, ◌>>◌, left) ran),
              o2,
              λ i e. stay i (ap (λ (f : ℕ → List ℕ). f i) lists ∙ ground arith),
              λ i m h there. elim (Bool-cases (suc n == i)) [
                | inl last ↦ stay i (ap (λ (f : ℕ → List ℕ). f i) lists ∙ ground arith)
                | inr before ↦ others i m (ground arith) (flags i before there)
              ],
            )
        | inr away ↦
            let (v, own2, ran, o2, stay, others) = save_clients-emptied n own w (omega arith) o in
            (
              v,
              own2,
              rw (◌>>=◌, ◌>>◌, inside, away) ran,
              o2,
              stay,
              λ i m h there. elim (Bool-cases (suc n == i)) [
                | inl last ↦ absurd (ground arith)
                | inr before ↦ others i m (ground arith) there
              ],
            )
      ]

  -- Where no client is connected nothing is saved.
  save_clients_idle :
      (n : ℕ) (w : World)
      → n ≤ server.max_clients
      → ((i : ℕ) → 1 ≤ i → i ≤ n → w.connected i ≡ false)
      → save_clients server n w ≡ some (tt, w)
  unfolding save_clients
  save_clients_idle zero w below away = refl
  save_clients_idle (suc n) w below away =
      let inside = le→leb (suc n) sdk.max_players (omega arith) in
      let here = away (suc n) (omega arith) (omega arith) in
      rw (◌>>=◌, ◌>>◌, inside, here)
        (save_clients_idle n w (omega arith) (λ i m h. away i m (omega arith)))

  -- Unload then only deletes the cookies with their values.
  pub unload_idle :
      (own : ℕ → ℕ) (w : World)
      → Owned own w
      → ((i : ℕ) → 1 ≤ i → i ≤ server.max_clients → w.connected i ≡ false)
      → (cookies : ℕ → Option Cookie) × (datums : ℕ → Option CookieData) × (unload server w
          ≡ some (tt, record w { cookies = cookies; datums = datums; cookie_list = [] }))
        × Deleted w cookies datums
  unfolding unload
  unload_idle own w o away =
      let idle = save_clients_idle server.max_clients w (omega arith) away in
      let (cookies, datums, ran, deleted) =
        delete_cookies-Deleted w.cookie_list own w o.once o.slots in
      (cookies, datums, rw (◌>>=◌, ◌>>◌, idle, ran) refl, deleted)

-- Unload in a world that is reached, where the queue of the threads is still there, returns: it follows no
-- null or dangling pointer and deletes no cookie and no value twice. First the clients that are connected are
-- saved, after which their lists are empty. Then no cookie is left, the list of cookies is empty, and each value
-- that a cookie held for a client is deleted; the lists of the clients that are not connected stay as they are.
-- Each value that is still alive was so before the cookies were deleted, and stands in one client's list, once, or is
-- held by one query, once.
pub unload-HasOnePlace :
    {Db : Type 0} (b : Backend Db) ⦃sdk : Sdk⦄ (start : Db) (w : World) (db : Db) (server : Server)
    → server.max_clients ≤ sdk.max_players
    → Reach b start w db
    → (u v : World) × (save_clients server server.max_clients w ≡ some (tt, u))
      × (unload server w ≡ some (tt, v))
      × ((i : ℕ) → 1 ≤ i → i ≤ server.max_clients → w.connected i ≡ true → u.client_data i ≡ [])
      × (v.cookie_list ≡ [])
      × ((p : ℕ) → v.cookies p ≡ none)
      × ((p c d : ℕ) (k : Cookie)
          → u.cookies p ≡ some k
          → c ≤ sdk.max_players
          → k.data_at c ≡ some d
          → v.datums d ≡ none)
      × (v.client_data ≡ u.client_data)
      × ((d : ℕ) (x : CookieData) → v.datums d ≡ some x → (u.datums d ≡ some x) × HasOnePlace v d)
unfolding unload
unload-HasOnePlace b start w db server fits r =
    let (own, o) = Reach-Owned b start w db r in
    let (u, own1, saved, o1, stay, empty) =
      save_clients-emptied server fits server.max_clients own w (omega arith) o in
    let (cookies, datums, ran, deleted) =
      delete_cookies-Deleted u.cookie_list own1 u o1.once o1.slots in
    (
      u,
      record u { cookies = cookies; datums = datums; cookie_list = [] },
      saved,
      rw (◌>>=◌, ◌>>◌, saved, ran) refl,
      empty,
      refl,
      deleted.no_cookie,
      deleted.freed,
      refl,
      λ d x alive. let was = deleted.no_other d x alive in (was, Owned-one_place own1 u d x o1 was),
    )
