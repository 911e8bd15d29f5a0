-- ===== src/Disconnect/Save.antt =====
-- The loop of OnClientDisconnecting over the data of a client, in closed form.
use clientprefs_redis.Base.{
  ℕ, ◌≡◌, refl, ap, ◌∙◌, sym, ◌≢◌, inl, inr, [], ◌∷◌, ◌++◌, List, map, Option, none, some, Bool,
  true, false, ◌&&◌, ◌||◌, not, ◌==◌, negsuc, eq_ℤ, if◌then◌else◌, arith, leb, All, append_assoc,
  append-nil, Bool-cases, ==_iff,
}
use mathlib.Core.Path.{fun_ext}
use clientprefs_redis.Base.Fault.{update, ◌>>=◌, ◌>>◌}
use clientprefs_redis.Text.{Text}
use clientprefs_redis.Sdk.{Sdk}
use clientprefs_redis.State.{Cookie, CookieData, QueryOp, World}
use clientprefs_redis.Disconnect.{drop, settle, save_one, save_all, save_op}

-- One object of the client's list, with what the loop reads of it.
pub record Item : Type 0 where
  pub address : ℕ
  pub object : CookieData
  pub parent : ℕ
  pub cookie : Cookie

-- The item is what the heap holds; its cookie may have other slots by now.
pub record Resolves (w : World) (it : Item) : Type 0 where
  pub alive : w.datums it.address ≡ some it.object
  pub of_parent : it.object.parent ≡ some it.parent
  pub now : Cookie
  pub parent_alive : w.cookies it.parent ≡ some now
  pub same_id : now.dbid ≡ it.cookie.dbid

-- A value is saved if it was changed, its cookie has an id, and the player has a Steam id.
abbrev pub is_saved : Option Text → Item → Bool
is_saved none it = false
is_saved (some auth) it = not (not it.object.changed || eq_ℤ it.cookie.dbid (negsuc 0))

abbrev pub saved : Option Text → ℕ → Item → List QueryOp
saved none client it = []
saved (some auth) client it =
    if is_saved (some auth) it then save_op client auth it.cookie.dbid it.address ∷ [] else []

-- The queries that the loop adds, in the order of the client's list.
abbrev pub saved_ops : Option Text → ℕ → List Item → List QueryOp
saved_ops auth client [] = []
saved_ops auth client (it ∷ its) = saved auth client it ++ saved_ops auth client its

abbrev pub cleared : ℕ → Option Cookie → Option Cookie
cleared client none = none
cleared client (some k) = some (record k { data_at = update k.data_at client none })

-- The world after one round.
abbrev pub settled : Option Text → ℕ → World → Item → World
settled auth client w it = record w {
  cookies = update w.cookies it.parent (cleared client (w.cookies it.parent));
  datums = if is_saved auth it then w.datums else update w.datums it.address none;
  query_queue = w.query_queue ++ saved auth client it;
}

pub settled_all : Option Text → ℕ → World → List Item → World
settled_all auth client w [] = w
settled_all auth client w (it ∷ its) = settled_all auth client (settled auth client w it) its

-- No object stands twice in the list.
abbrev pub Distinct : List Item → Type 0
Distinct [] = Unit
Distinct (it ∷ its) = All (λ other. other.address ≢ it.address) its × Distinct its

module _ ⦃sdk : Sdk⦄ (client : ℕ) (inside : leb client sdk.max_players ≡ true) where
  drop_lem :
      (w : World) (p d : ℕ) (k : Cookie) (x : CookieData)
      → w.cookies p ≡ some k
      → w.datums d ≡ some x
      → drop p client d w
        ≡ some (
          tt,
          record w {
            cookies =
                update w.cookies p (some (record k { data_at = update k.data_at client none }));
            datums = update w.datums d none;
          },
        )
  unfolding drop
  drop_lem w p d k x h e = ground (arith, inside)

  settle_lem :
      (auth : Option Text) (w : World) (it : Item)
      → Resolves w it
      → settle auth client it.address it.object.changed it.parent it.cookie.dbid w
        ≡ some (tt, settled auth client w it)
  unfolding settle
  settle_lem none w it r =
      ground (arith, drop_lem w it.parent it.address r.now it.object, append-nil w.query_queue)
  settle_lem (some auth) w it r = elim (Bool-cases (is_saved (some auth) it)) [
    | inl keep ↦ ground (arith, inside)
    | inr lost ↦
        ground (arith, drop_lem w it.parent it.address r.now it.object, append-nil w.query_queue)
  ]

  pub save_one_lem :
      (auth : Option Text) (w : World) (it : Item)
      → Resolves w it
      → save_one auth client it.address w ≡ some (tt, settled auth client w it)
  unfolding save_one
  save_one_lem auth w it r = ground (arith, settle_lem auth w it)

  Resolves-settled :
      (auth : Option Text) (w : World) (it other : Item)
      → other.address ≢ it.address
      → Resolves w it
      → Resolves w other
      → Resolves (settled auth client w it) other
  Resolves-settled auth w it other ne r s = elim (Bool-cases (it.parent == other.parent)) [
    | inl same ↦ record {
      alive = ground arith;
      of_parent = s.of_parent;
      now = record s.now { data_at = update s.now.data_at client none };
      parent_alive = ground arith;
      same_id = s.same_id;
    }
    | inr apart ↦ record {
      alive = ground arith;
      of_parent = s.of_parent;
      now = s.now;
      parent_alive = ground arith;
      same_id = s.same_id;
    }
  ]

  All-Resolves-settled :
      (auth : Option Text) (w : World) (it : Item) (its : List Item)
      → All (λ other. other.address ≢ it.address) its
      → Resolves w it
      → All (Resolves w) its
      → All (Resolves (settled auth client w it)) its
  All-Resolves-settled auth w it [] ne r rs = tt
  All-Resolves-settled auth w it (other ∷ its) ne r rs =
      (Resolves-settled auth w it other ne.0 r rs.0, All-Resolves-settled auth w it its ne.1 r rs.1)

  -- The loop runs to its end, one round for each item.
  pub save_all_lem :
      (auth : Option Text) (w : World) (its : List Item)
      → All (Resolves w) its
      → Distinct its
      → save_all auth client (map (λ it. it.address) its) w
        ≡ some (tt, settled_all auth client w its)
  unfolding save_all settled_all
  save_all_lem auth w [] rs ds = refl
  save_all_lem auth w (it ∷ its) rs ds =
      rw (◌>>=◌, ◌>>◌, save_one_lem auth w it rs.0)
        (save_all_lem auth (settled auth client w it) its
          (All-Resolves-settled auth w it its ds.0 rs.0 rs.1) ds.1)

-- The loop adds the queries of the saved items, in order.
pub queue-settled_all :
    (auth : Option Text) (client : ℕ) (w : World) (its : List Item)
    → (settled_all auth client w its).query_queue ≡ w.query_queue ++ saved_ops auth client its
unfolding settled_all
queue-settled_all auth client w [] = sym (append-nil w.query_queue)
queue-settled_all auth client w (it ∷ its) =
    queue-settled_all auth client (settled auth client w it) its
    ∙ append_assoc w.query_queue (saved auth client it) (saved_ops auth client its)

-- Whether an address is the one of an item that is not saved.
abbrev pub is_dropped : Option Text → List Item → ℕ → Bool
is_dropped auth [] d = false
is_dropped auth (it ∷ its) d = (it.address == d && not (is_saved auth it)) || is_dropped auth its d

dropped_step :
    (b c e : Bool) (f : ℕ → Option CookieData) (a d : ℕ)
    → (a == d) ≡ c
    → (if b then none else (if e then f else update f a none) d)
      ≡ (if (c && not e) || b then none else f d)
dropped_step b c true f a d h = ground arith
dropped_step b c false f a d h = ground arith

-- Just the objects that are not saved are deleted.
pub datums-settled_all :
    (auth : Option Text) (client : ℕ) (w : World) (its : List Item) (d : ℕ)
    → (settled_all auth client w its).datums d
      ≡ (if is_dropped auth its d then none else w.datums d)
unfolding settled_all
datums-settled_all auth client w [] d = refl
datums-settled_all auth client w (it ∷ its) d =
    datums-settled_all auth client (settled auth client w it) its d
    ∙ dropped_step (is_dropped auth its d) (it.address == d) (is_saved auth it) w.datums it.address
        d refl

abbrev pub is_parent : List Item → ℕ → Bool
is_parent [] p = false
is_parent (it ∷ its) p = (it.parent == p) || is_parent its p

if_same {ℓ} : {A : Type ℓ} (b : Bool) (a : A) → (if b then a else a) ≡ a
if_same true a = refl
if_same false a = refl

cleared_idem :
    (client : ℕ) (o : Option Cookie) → cleared client (cleared client o) ≡ cleared client o
cleared_idem client none = refl
cleared_idem client (some k) =
    ap (λ f. some (record k { data_at = f }))
      (fun_ext {f = update (update k.data_at client none) client none} λ c. ground arith)

cleared_step :
    (client : ℕ) (b : Bool) (q p : ℕ) (f : ℕ → Option Cookie)
    → (if b
        then cleared client (update f q (cleared client (f q)) p)
        else update f q (cleared client (f q)) p)
      ≡ (if (q == p) || b then cleared client (f p) else f p)
cleared_step client b q p f = elim (Bool-cases (q == p)) [
  | inl same ↦
      rw (same, ap (λ r. cleared client (f r)) ((==_iff q p).0 same), cleared_idem client (f p))
        (if_same b _)
  | inr apart ↦ rw apart
]

-- Just the cookies of the items have their slot of this client set to NULL, and no other field or
-- slot of a cookie changes.
pub cookies-settled_all :
    (auth : Option Text) (client : ℕ) (w : World) (its : List Item) (p : ℕ)
    → (settled_all auth client w its).cookies p
      ≡ (if is_parent its p then cleared client (w.cookies p) else w.cookies p)
unfolding settled_all
cookies-settled_all auth client w [] p = refl
cookies-settled_all auth client w (it ∷ its) p =
    cookies-settled_all auth client (settled auth client w it) its p
    ∙ cleared_step client (is_parent its p) it.parent p w.cookies

pub rest-settled_all :
    (auth : Option Text) (client : ℕ) (w : World) (its : List Item)
    → let v = settled_all auth client w its in
      v ≡ record w { cookies = v.cookies; datums = v.datums; query_queue = v.query_queue }
unfolding settled_all
rest-settled_all auth client w [] = refl
rest-settled_all auth client w (it ∷ its) =
    rest-settled_all auth client (settled auth client w it) its
