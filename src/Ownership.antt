-- ===== src/Ownership.antt =====
-- Who owns each object of cookie.cpp's heap: a value belongs to one client or to one query, and the
-- pointers between cookies, values, clients and queries lead to objects that are alive.
pub mod Parts
pub mod Values
pub mod Requests
pub mod Arrivals
pub mod Leaving
pub mod Loading
pub mod Frames
pub mod Threads
pub mod Natives
use clientprefs_redis.Base.{
  ℕ, suc, ◌+◌, ◌≤◌, ◌≡◌, List, [], ◌∷◌, Option, none, some, Bool, true, false, not, ◌==◌,
  if◌then◌else◌, All,
}
use clientprefs_redis.Sdk.{Entry}
use clientprefs_redis.State.{
  Cookie, CookieData, QueryOp, QueryType, World, insert_cookie, select_data, insert_data, select_id,
  connect,
}

-- An owner is a number: nobody, a query, or the client `c`.
abbrev pub nobody : ℕ
nobody = 0

abbrev pub a_query : ℕ
a_query = 1

abbrev pub the_client : ℕ → ℕ
the_client c = suc (suc c)

-- How often an address stands in a list.
abbrev pub count : ℕ → List ℕ → ℕ
count d [] = 0
count d (x ∷ xs) = (if x == d then 1 else 0) + count d xs

abbrev pub is_at : ℕ → Option ℕ → ℕ
is_at d none = 0
is_at d (some e) = if e == d then 1 else 0

-- How often an address is the datum of a query of the list.
abbrev pub datum_count : ℕ → List QueryOp → ℕ
datum_count d [] = 0
datum_count d (op ∷ ops) = is_at d op.params.datum + datum_count d ops

abbrev pub is_some {ℓ} : {A : Type ℓ} → Option A → Bool
is_some none = false
is_some (some a) = true

-- The pointer leads to a cookie.
abbrev pub ptr_alive : World → Option ℕ → Bool
ptr_alive w none = false
ptr_alive w (some p) = is_some (w.cookies p)

abbrev pub parent_of : Option CookieData → Option ℕ
parent_of none = none
parent_of (some x) = x.parent

-- The pointers that the threads and the frames follow in a query of this type; only a query that
-- saves a value holds one.
abbrev pub SoundType : World → QueryType → QueryOp → Type 0
SoundType w insert_cookie op =
    (op.params.datum ≡ none)
    × (ptr_alive w op.cookie ≡ true)
    × (ptr_alive w op.params.cookie ≡ true)
SoundType w select_id op = (op.params.datum ≡ none) × (ptr_alive w op.cookie ≡ true)
SoundType w insert_data op = is_some op.params.datum ≡ true
SoundType w select_data op = op.params.datum ≡ none
SoundType w connect op = op.params.datum ≡ none

abbrev pub IsSound : World → QueryOp → Type 0
IsSound w op = SoundType w op.type op

-- `own` says who owns each value. `kept`: what is owned is alive, and what is not owned is not.
-- `once`: the list of cookies holds each cookie that is alive once, and nothing else.
-- `lists`, `queries`: each value stands once where its owner keeps it, and nowhere else.
pub record Owned (own : ℕ → ℕ) (w : World) : Type 0 where
  pub fresh_cookies : (p : ℕ) → w.next ≤ p → w.cookies p ≡ none
  pub fresh_datums : (d : ℕ) → w.next ≤ d → own d ≡ 0
  pub kept : (d : ℕ) → is_some (w.datums d) ≡ not (own d == 0)
  pub parents : (d : ℕ) → 2 ≤ own d → ptr_alive w (parent_of (w.datums d)) ≡ true
  pub slots :
      (p c d : ℕ) (k : Cookie)
      → w.cookies p ≡ some k
      → k.data_at c ≡ some d
      → (own d ≡ the_client c) × (parent_of (w.datums d) ≡ some p)
  pub lists : (c d : ℕ) → count d (w.client_data c) ≡ (if own d == the_client c then 1 else 0)
  pub queries :
      (d : ℕ)
      → datum_count d w.query_queue + (datum_count d w.running + datum_count d w.result_queue)
        ≡ (if own d == 1 then 1 else 0)
  pub waiting : All (IsSound w) w.query_queue
  pub taken : All (IsSound w) w.running
  pub finished : All (IsSound w) w.result_queue
  pub table : All (λ e. is_some (w.cookies e.cookie) ≡ true) w.finder
  pub listed : All (λ p. is_some (w.cookies p) ≡ true) w.cookie_list
  pub once : (p : ℕ) → count p w.cookie_list ≡ (if is_some (w.cookies p) then 1 else 0)
  pub uncached : w.cached_queries ≡ []
