-- ===== src/Natives/Iterator.antt =====
-- ReadCookieIterator of natives.cpp, called until it returns 0.
use clientprefs_redis.Base.{
  ℕ, zero, suc, ◌≡◌, ap, sym, ◌∙◌, ◌≤◌, refl, List, [], ◌∷◌, Option, none, some, length, get_elem?,
  drop, false, ◌==◌, if◌then◌else◌,
}
use clientprefs_redis.Base.Fault.{◌>>=◌, ◌>>◌, pure, fault, gets}
use clientprefs_redis.Text.{Text}
use clientprefs_redis.Sdk.{Sdk, Server}
use clientprefs_redis.State.{Cookie, CookieAccess, World, Main, load_cookie}
use clientprefs_redis.Natives.{bad_handle}
use clientprefs_redis.Clients.{attempt_reconnection}
use clientprefs_redis.Clients.Missed.{Caught}
use clientprefs_redis.Clients.Late.{attempt_reconnection-settles}

-- What the native writes to the plugin's variables.
pub record CookieRow : Type 0 where
  pub name : Text
  pub description : Text
  pub access : CookieAccess

abbrev pub row_of : Cookie → CookieRow
row_of k = record { name = k.name; description = k.description; access = k.access }

-- The cookie at the iterator's place, with the place after it; `none` past the end.
unfoldable pub at_place : Option ℕ → ℕ → Main (Option (CookieRow × ℕ))
at_place none iter = pure none
at_place (some p) iter = do k ← load_cookie p; pure (some (row_of k, suc iter))

module _ ⦃sdk : Sdk⦄ (server : Server) where
  -- `hndl` is what CreateHandle answers for the new iterator, which stands at the first cookie and is deleted
  -- where it gets no handle.
  unfoldable pub get_cookie_iterator : ℕ → Main (ℕ × Option ℕ)
  get_cookie_iterator hndl = do
    attempt_reconnection server
    pure (hndl, if hndl == bad_handle then none else some 0)

  unfoldable pub read_cookie_iterator : ℕ → Main (Option (CookieRow × ℕ))
  unfolding at_place
  read_cookie_iterator iter = do
    attempt_reconnection server
    found ← gets (λ w. get_elem? w.cookie_list iter)
    at_place found iter

  -- `iter` is what ReadHandle makes of the plugin's handle; without it the native throws an error.
  unfoldable pub read_iterator_of : Option ℕ → Main (Option (CookieRow × ℕ))
  unfolding read_cookie_iterator
  read_iterator_of none = do attempt_reconnection server; pure none
  read_iterator_of (some iter) = read_cookie_iterator iter

  read_more : Option (CookieRow × ℕ) → (ℕ → Main (List CookieRow)) → Main (List CookieRow)
  read_more none loop = pure []
  read_more (some (row, iter)) loop = do rest ← loop iter; pure (row ∷ rest)

  -- A plugin's loop over an iterator, with at most `fuel` calls.
  pub read_all : ℕ → ℕ → Main (List CookieRow)
  unfolding read_more
  read_all zero iter = fault
  read_all (suc fuel) iter = do r ← read_cookie_iterator iter; read_more r (read_all fuel)

  -- The loop over the iterator behind a handle, if there is one.
  unfoldable pub read_all_of : ℕ → ℕ × Option ℕ → Main (List CookieRow)
  unfolding read_all
  read_all_of fuel (hndl, none) = pure []
  read_all_of fuel (hndl, some iter) = read_all fuel iter

-- The rows of the cookies at these addresses.
abbrev AllAlive : World → List ℕ → List CookieRow → Type 0
AllAlive w [] rows = rows ≡ []
AllAlive w (p ∷ ps) rows =
    (k : Cookie) × (rest : List CookieRow) × (w.cookies p ≡ some k)
    × (rows ≡ row_of k ∷ rest)
    × AllAlive w ps rest

get_elem?-drop :
    (xs : List ℕ) (i p : ℕ) (ps : List ℕ)
    → drop i xs ≡ p ∷ ps
    → (get_elem? xs i ≡ some p) × (drop (suc i) xs ≡ ps)
get_elem?-drop [] zero p ps h = cc
get_elem?-drop [] (suc i) p ps h = cc
get_elem?-drop (x ∷ xs) zero p ps h = (cc, cc)
get_elem?-drop (x ∷ xs) (suc i) p ps h = get_elem?-drop xs i p ps h

get_elem?-drop_end : (xs : List ℕ) (i : ℕ) → drop i xs ≡ [] → get_elem? xs i ≡ none
get_elem?-drop_end [] zero h = refl
get_elem?-drop_end [] (suc i) h = refl
get_elem?-drop_end (x ∷ xs) zero h = cc
get_elem?-drop_end (x ∷ xs) (suc i) h = get_elem?-drop_end xs i h

module _ ⦃sdk : Sdk⦄ (server : Server) where
  read_here :
      (w : World) (iter p : ℕ) (k : Cookie)
      → attempt_reconnection server w ≡ some (tt, w)
      → get_elem? w.cookie_list iter ≡ some p
      → w.cookies p ≡ some k
      → read_cookie_iterator server iter w ≡ some (some (row_of k, suc iter), w)
  unfolding read_cookie_iterator
  read_here w iter p k settled at found = rw (◌>>◌, ◌>>=◌, settled, at, found)

  read_past :
      (w : World) (iter : ℕ)
      → attempt_reconnection server w ≡ some (tt, w)
      → get_elem? w.cookie_list iter ≡ none
      → read_cookie_iterator server iter w ≡ some (none, w)
  unfolding read_cookie_iterator
  read_past w iter settled at = rw (◌>>◌, ◌>>=◌, settled, at)

  -- In a world where no client is missed any more, the loop reads what is left.
  read_rest :
      (w : World)
      → attempt_reconnection server w ≡ some (tt, w)
      → (ps : List ℕ) (rows : List CookieRow) (iter : ℕ) → drop iter w.cookie_list ≡ ps
      → AllAlive w ps rows
      → read_all server (suc (length ps)) iter w ≡ some (rows, w)
  unfolding read_all read_more
  read_rest w settled [] rows iter at alive =
      let e = read_past w iter settled (get_elem?-drop_end w.cookie_list iter at) in
      rw (e, ◌>>=◌, alive)
  read_rest w settled (p ∷ ps) rows iter at (k, rest, found, shape, alive) =
      let (e, next) = get_elem?-drop w.cookie_list iter p ps at in
      let ih = read_rest w settled ps rest (suc iter) next alive in
      let here = read_here w iter p k settled e found in rw (here, ◌>>=◌, ih, shape)

  -- The same cookies are alive in a world that differs in other fields.
  AllAlive-same :
      (w v : World)
      → v.cookies ≡ w.cookies
      → (ps : List ℕ) (rows : List CookieRow) → AllAlive w ps rows
      → AllAlive v ps rows
  AllAlive-same w v e [] rows h = h
  AllAlive-same w v e (p ∷ ps) rows (k, rest, found, shape, alive) = (
    k,
    rest,
    ap (λ (f : ℕ → Option Cookie). f p) e ∙ found,
    shape,
    AllAlive-same w v e ps rest alive,
  )

  -- A plugin that makes an iterator and reads it until it returns 0 gets name, description and access
  -- of every cookie once, in the order in which the cookies were made, with one call more than there
  -- are cookies. The iterator must get a handle, each of the cookies must be alive, and the clients must have their places in the arrays.
  -- Nothing changes but that missed clients are caught.
  pub read_all-get_cookie_iterator :
      (w : World) (rows : List CookieRow) (hndl : ℕ)
      → (hndl == bad_handle) ≡ false
      → server.max_clients ≤ sdk.max_players
      → AllAlive w w.cookie_list rows
      → (v : World) × ((do
        iter ← get_cookie_iterator server hndl
        read_all_of server (suc (length w.cookie_list)) iter)
            w
          ≡ some (rows, v))
        × Caught server server.max_clients w v
  unfolding get_cookie_iterator read_all_of
  read_all-get_cookie_iterator w rows hndl made fits alive =
      let (v, ran, again, c) = attempt_reconnection-settles server fits w in
      let same = ap (λ (x : World). x.cookies) c.rest in
      let order : w.cookie_list ≡ v.cookie_list = sym (ap (λ (x : World). x.cookie_list) c.rest) in
      let read =
        read_rest v again w.cookie_list rows 0 (sym order)
          (AllAlive-same w v same w.cookie_list rows alive) in
      (v, rw (◌>>◌, ◌>>=◌, ran, made) read, c)
