-- ===== src/System/Requests.antt =====
-- Any sequence of SetCookieValue, GetCookieValue and GetCookieTime gives the answers of a table.
use clientprefs_redis.Base.{ℕ, ◌≤◌, ◌≡◌, refl, ap, ◌∙◌, List, [], ◌∷◌, some, true, le→leb}
use mathlib.Core.Path.{fun_ext}
use clientprefs_redis.Base.Fault.{◌>>=◌, pure}
use clientprefs_redis.Sdk.{Sdk, Server}
use clientprefs_redis.State.{World, Main}
use clientprefs_redis.CookieManager.{set_cookie_value, get_cookie_time}
use clientprefs_redis.Ownership.{Owned, is_some}
use clientprefs_redis.Ownership.Parts.{Keeps}
use clientprefs_redis.Ownership.Requests.{some_of}
use clientprefs_redis.Query.Run.{Backend}
use clientprefs_redis.System.{Reach}
use clientprefs_redis.System.Safety.{Reach-Owned}
use clientprefs_redis.System.Refines.{read_value, set_value-table, get_value-table, get_time-table}
use clientprefs_redis.System.Table.{
  Request, set, get, time, Answer, done, text, timed, on_table, all_on_table, Table, table_of,
}

module _ ⦃sdk : Sdk⦄ where
  -- A request as a call of the cookie manager.
  abbrev pub serve_request : Server → Request → Main Answer
  serve_request server (set p c value) = do b ← set_cookie_value server p c value; pure (done b)
  serve_request server (get p c) = do s ← read_value p c; pure (text s)
  serve_request server (time p c) = do t ← get_cookie_time p c; pure (timed t)

  abbrev pub serve_all : List (Server × Request) → Main (List Answer)
  serve_all [] = pure []
  serve_all ((server, r) ∷ rs) = do
    a ← serve_request server r
    answers ← serve_all rs
    pure (a ∷ answers)

  -- Its cookie is alive, and its client has a place in the arrays.
  abbrev pub IsAsked : World → Request → Type 0
  IsAsked w (set p c value) = (is_some (w.cookies p) ≡ true) × (c ≤ sdk.max_players)
  IsAsked w (get p c) = (is_some (w.cookies p) ≡ true) × (c ≤ sdk.max_players)
  IsAsked w (time p c) = (is_some (w.cookies p) ≡ true) × (c ≤ sdk.max_players)

  abbrev pub at_times : List (Server × Request) → List (ℕ × Request)
  at_times [] = []
  at_times ((server, r) ∷ rs) = (server.time, r) ∷ at_times rs

  abbrev pub AllAsked : World → List (Server × Request) → Type 0
  AllAsked w [] = Unit
  AllAsked w ((server, r) ∷ rs) = IsAsked w r × AllAsked w rs

  IsAsked-Keeps : (w v : World) (r : Request) → Keeps w v → IsAsked w r → IsAsked v r
  IsAsked-Keeps w v (set p c value) keep h = (keep p h.0, h.1)
  IsAsked-Keeps w v (get p c) keep h = (keep p h.0, h.1)
  IsAsked-Keeps w v (time p c) keep h = (keep p h.0, h.1)

  AllAsked-Keeps :
      (w v : World) (rs : List (Server × Request)) → Keeps w v → AllAsked w rs → AllAsked v rs
  AllAsked-Keeps w v [] keep h = h
  AllAsked-Keeps w v ((server, r) ∷ rs) keep h =
      (IsAsked-Keeps w v r keep h.0, AllAsked-Keeps w v rs keep h.1)

  -- The call returns with the table's answer, and leaves what the table is then.
  Agrees : Main Answer → World → Answer → Table → Type 0
  Agrees m w a t =
      (v : World) × (own : ℕ → ℕ) × (m w ≡ some (a, v))
      × Owned own v
      × Keeps w v
      × ((q e : ℕ) → table_of v q e ≡ t q e)

  serve_request-Agrees :
      (server : Server) (own : ℕ → ℕ) (w : World) (r : Request)
      → IsAsked w r
      → Owned own w
      → Agrees
          (serve_request server r)
          w
          (on_table server.time r (table_of w)).0
          (on_table server.time r (table_of w)).1
  unfolding Agrees
  serve_request-Agrees server own w (set p c value) (live, below) o =
      let (k, alive) = some_of (w.cookies p) live in
      let (v, own', ran, o', keep, same) =
        set_value-table server own w p c value k alive (le→leb c sdk.max_players below) o in
      (v, own', rw (◌>>=◌, ran) refl, o', keep, same)
  serve_request-Agrees server own w (get p c) (live, below) o =
      let (k, alive) = some_of (w.cookies p) live in
      let (v, own', ran, o', keep, same) =
        get_value-table own w p c k alive (le→leb c sdk.max_players below) o in
      (v, own', rw (◌>>=◌, ran) refl, o', keep, same)
  serve_request-Agrees server own w (time p c) (live, below) o =
      let (k, alive) = some_of (w.cookies p) live in
      let ran = get_time-table own w p c k alive (le→leb c sdk.max_players below) o in
      (w, own, rw (◌>>=◌, ran) refl, o, λ q h. h, λ q e. refl)

  serve_all-Agrees :
      (rs : List (Server × Request)) (own : ℕ → ℕ) (w : World)
      → AllAsked w rs
      → Owned own w
      → (v : World) × (own' : ℕ → ℕ) × (serve_all rs w
          ≡ some ((all_on_table (at_times rs) (table_of w)).0, v))
        × Owned own' v
        × (table_of v ≡ (all_on_table (at_times rs) (table_of w)).1)
  unfolding Agrees
  serve_all-Agrees [] own w h o = (w, own, refl, o, refl)
  serve_all-Agrees ((server, r) ∷ rs) own w (asked, others) o =
      let (u, own1, ran, o1, keep, same) = serve_request-Agrees server own w r asked o in
      let e : table_of u ≡ (on_table server.time r (table_of w)).1 =
        fun_ext (λ q. fun_ext (same q)) in
      let (v, own2, ran2, o2, tables) =
        serve_all-Agrees rs own1 u (AllAsked-Keeps w u rs keep others) o1 in
      (
        v,
        own2,
        rw (◌>>=◌, ran) (rw (◌>>=◌, ran2) (rw e refl)),
        o2,
        tables ∙ ap (λ t. (all_on_table (at_times rs) t).1) e,
      )

-- In every world that is reached, any sequence of SetCookieValue, GetCookieValue and GetCookieTime for cookies that
-- are alive and clients that have places in the arrays returns the answers that a table by cookie
-- and client gives, where each call acts on its own entry only: a text is stored cut to 99 bytes,
-- marked as changed, with the time of the call, and a value that was never set is empty. What the heap
-- holds then is what the table holds then.
pub serve_all-all_on_table :
    {Db : Type 0} (b : Backend Db) ⦃sdk : Sdk⦄ (start : Db) (w : World) (db : Db)
    (requests : List (Server × Request))
    → Reach b start w db
    → AllAsked w requests
    → (v : World) × (serve_all requests w
        ≡ some ((all_on_table (at_times requests) (table_of w)).0, v))
      × (table_of v ≡ (all_on_table (at_times requests) (table_of w)).1)
serve_all-all_on_table b start w db requests r asked =
    let (own, o) = Reach-Owned b start w db r in
    let (v, own', ran, o', tables) = serve_all-Agrees requests own w asked o in (v, ran, tables)
