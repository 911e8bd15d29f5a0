-- ===== src/System/Destructor.antt =====
-- The cookies that CookieManager::Unload deletes, with the values that Cookie::~Cookie of cookie.h deletes.
use mathlib.Core.Path.{fun_ext}
use clientprefs_redis.Base.{
  ==_iff, true, false, ℕ, zero, suc, ◌≤◌, ◌<◌, ◌≡◌, refl, ap, inl, inr, List, [], ◌∷◌, Option, none,
  some, Bool, ◌==◌, ◌||◌, arith, if◌then◌else◌, Bool-cases, Option-cases,
}
use clientprefs_redis.Base.Fault.{◌>>=◌, ◌>>◌, update}
use clientprefs_redis.Sdk.{Sdk}
use clientprefs_redis.State.{Cookie, CookieData, World}
use clientprefs_redis.Extension.Unload.{delete_slots, delete_cookie, delete_cookies}
use clientprefs_redis.Ownership.{count, is_some, the_client, parent_of}
use clientprefs_redis.Ownership.Requests.{some_of}

abbrev pub is_it : Option ℕ → ℕ → Bool
is_it none d = false
is_it (some e) d = e == d

-- One of the first `n` slots holds the value.
abbrev pub in_slots : ℕ → (ℕ → Option ℕ) → ℕ → Bool
in_slots zero slots d = false
in_slots (suc n) slots d = in_slots n slots d || is_it (slots n) d

slot_of :
    (n : ℕ) (slots : ℕ → Option ℕ) (d : ℕ)
    → in_slots n slots d ≡ true
    → (c : ℕ) × (c < n) × (slots c ≡ some d)
slot_of zero slots d h = cc
slot_of (suc n) slots d h = elim (Bool-cases (in_slots n slots d)) [
  | inl before ↦ let (c, lt, at) = slot_of n slots d before in (c, omega arith, at)
  | inr new ↦ elim (Option-cases (slots n)) [
    | inl empty ↦ absurd (ground arith)
    | inr (e, at) ↦ (n, omega arith, ground arith)
  ]
]

in_slots-at :
    (n : ℕ) (slots : ℕ → Option ℕ) (c d : ℕ) → c < n → slots c ≡ some d → in_slots n slots d ≡ true
in_slots-at zero slots c d lt at = absurd (omega arith)
in_slots-at (suc n) slots c d lt at = elim (Bool-cases (c == n)) [
  | inl last ↦ ground (arith, ap slots ((==_iff c n).0 last))
  | inr before ↦ ground (arith, in_slots-at n slots c d)
]

-- The heap without the values of the first `n` slots.
abbrev pub without_slots : ℕ → (ℕ → Option ℕ) → (ℕ → Option CookieData) → ℕ → Option CookieData
without_slots n slots datums d = if in_slots n slots d then none else datums d

-- Each slot holds a value of its own client that is alive.
abbrev AllOwn : (ℕ → ℕ) → (ℕ → Option ℕ) → (ℕ → Option CookieData) → Type 0
AllOwn own slots datums =
    (c d : ℕ) → slots c ≡ some d → (own d ≡ the_client c) × (is_some (datums d) ≡ true)

not_before :
    (own : ℕ → ℕ) (n : ℕ) (slots : ℕ → Option ℕ) (datums : ℕ → Option CookieData) (d : ℕ)
    → AllOwn own slots datums
    → slots n ≡ some d
    → in_slots n slots d ≡ false
not_before own n slots datums d all at = elim (Bool-cases (in_slots n slots d)) [
  | inl before ↦
      let (c, lt, same) = slot_of n slots d before in
      let (mine, _) = all n d at in let (his, _) = all c d same in absurd (omega arith)
  | inr new ↦ new
]

without_slots-step :
    (n : ℕ) (slots : ℕ → Option ℕ) (datums : ℕ → Option CookieData) (d : ℕ)
    → slots n ≡ some d
    → update (without_slots n slots datums) d none ≡ without_slots (suc n) slots datums
without_slots-step n slots datums d at = fun_ext (λ q. ground arith)

without_slots-none :
    (n : ℕ) (slots : ℕ → Option ℕ) (datums : ℕ → Option CookieData)
    → slots n ≡ none
    → without_slots n slots datums ≡ without_slots (suc n) slots datums
without_slots-none n slots datums at = fun_ext (λ q. ground arith)

delete_slots_lem :
    (own : ℕ → ℕ) (n : ℕ) (slots : ℕ → Option ℕ) (w : World)
    → AllOwn own slots w.datums
    → delete_slots n slots w ≡ some (tt, record w { datums = without_slots n slots w.datums })
unfolding delete_slots
delete_slots_lem own zero slots w all = refl
delete_slots_lem own (suc n) slots w all =
    let before = delete_slots_lem own n slots w all in
    elim (Option-cases (slots n)) [
      | inl empty ↦
          rw (◌>>=◌, ◌>>◌, before, empty)
            (ap (λ h. some (tt, record w { datums = h }))
              (without_slots-none n slots w.datums empty))
      | inr (d, at) ↦
          let (mine, alive) = all n d at in
          let (x, found) = some_of (w.datums d) alive in
          let there : without_slots n slots w.datums d ≡ some x =
            ground (arith, not_before own n slots w.datums d all at, found) in
          rw (◌>>=◌, ◌>>◌, before, at, there)
            (ap (λ h. some (tt, record w { datums = h }))
              (without_slots-step n slots w.datums d at))
    ]

-- Each slot of a cookie leads to a value of the slot's client whose parent is the cookie.
abbrev pub SlotsOwn : (ℕ → ℕ) → World → Type 0
SlotsOwn own w =
    (p c d : ℕ) (k : Cookie)
    → w.cookies p ≡ some k
    → k.data_at c ≡ some d
    → (own d ≡ the_client c) × (parent_of (w.datums d) ≡ some p)

parent_alive : (o : Option CookieData) (p : ℕ) → parent_of o ≡ some p → is_some o ≡ true
parent_alive none p h = cc
parent_alive (some x) p h = refl

module _ ⦃sdk : Sdk⦄ where
  -- The world after a cookie is deleted.
  abbrev without_cookie : World → ℕ → Cookie → World
  without_cookie w p k = record w {
    cookies = update w.cookies p none;
    datums = without_slots (suc sdk.max_players) k.data_at w.datums;
  }

  delete_cookie_lem :
      (own : ℕ → ℕ) (w : World) (p : ℕ) (k : Cookie)
      → w.cookies p ≡ some k
      → SlotsOwn own w
      → delete_cookie p w ≡ some (tt, without_cookie w p k)
  unfolding delete_cookie
  delete_cookie_lem own w p k alive slots =
      let slotted = delete_slots_lem own (suc sdk.max_players) k.data_at w (λ c d at.
        let (mine, parent) = slots p c d k alive at in
        (mine, parent_alive (w.datums d) p parent)) in
      rw (◌>>=◌, ◌>>◌, alive, slotted) refl

  SlotsOwn-without :
      (own : ℕ → ℕ) (w : World) (p : ℕ) (k : Cookie)
      → w.cookies p ≡ some k
      → SlotsOwn own w
      → SlotsOwn own (without_cookie w p k)
  SlotsOwn-without own w p k alive slots q c d j found at = elim (Bool-cases (p == q)) [
    | inl same ↦ absurd (ground (arith, found))
    | inr other ↦
        let (mine, parent) = slots q c d j (ground (arith, found)) at in
        elim (Bool-cases (in_slots (suc sdk.max_players) k.data_at d)) [
          | inl gone ↦
              let (i, lt, there) = slot_of (suc sdk.max_players) k.data_at d gone in
              let (his, hers) = slots p i d k alive there in absurd (ground (arith, parent, hers))
          | inr kept ↦ (mine, ground (arith, parent))
        ]
  ]

  -- What is left of the heap after all cookies were deleted: nothing that a slot held.
  pub record Deleted (w : World) (cookies : ℕ → Option Cookie) (datums : ℕ → Option CookieData)
      : Type 0 where
    pub no_cookie : (p : ℕ) → cookies p ≡ none
    pub no_other : (d : ℕ) (x : CookieData) → datums d ≡ some x → w.datums d ≡ some x
    pub freed :
        (p c d : ℕ) (k : Cookie)
        → w.cookies p ≡ some k
        → c ≤ sdk.max_players
        → k.data_at c ≡ some d
        → datums d ≡ none

  Deleted-cons :
      (w : World) (p : ℕ) (k : Cookie) (cookies : ℕ → Option Cookie)
      (datums : ℕ → Option CookieData)
      → w.cookies p ≡ some k
      → Deleted (without_cookie w p k) cookies datums
      → Deleted w cookies datums
  Deleted-cons w p k cookies datums alive r = record {
    no_cookie = r.no_cookie;
    no_other = λ d x e. ground (arith, r.no_other d x e);
    freed = λ q c d j found le at. elim (Bool-cases (p == q)) [
      | inl same ↦ elim (Option-cases (datums d)) [
        | inl gone ↦ gone
        | inr (x, e) ↦
            let held = in_slots-at (suc sdk.max_players) j.data_at c d (omega arith) at in
            absurd (ground (arith, r.no_other d x e, held, found, alive))
      ]
      | inr other ↦ r.freed q c d j (ground (arith, found)) le at
    ];
  }

  -- A list that holds each cookie that is alive once: all its cookies are deleted with the values in
  -- their slots, each once, and no cookie is left.
  pub delete_cookies-Deleted :
      (ps : List ℕ) (own : ℕ → ℕ) (w : World)
      → ((p : ℕ) → count p ps ≡ (if is_some (w.cookies p) then 1 else 0))
      → SlotsOwn own w
      → (cookies : ℕ → Option Cookie) × (datums : ℕ → Option CookieData) × (delete_cookies ps w
          ≡ some (tt, record w { cookies = cookies; datums = datums }))
        × Deleted w cookies datums
  unfolding delete_cookies
  delete_cookies-Deleted [] own w once slots = (
    w.cookies,
    w.datums,
    refl,
    record {
      no_cookie = λ p. ground (arith, once p);
      no_other = λ d x e. e;
      freed = λ p c d k found le at. absurd (ground (arith, once p, found));
    },
  )
  delete_cookies-Deleted (p ∷ ps) own w once slots =
      let (k, alive) = some_of (w.cookies p) (ground (arith, once p)) in
      let u = without_cookie w p k in
      let (cookies, datums, ran, r) =
        delete_cookies-Deleted ps own u (λ q. ground (arith, once q))
          (SlotsOwn-without own w p k alive slots) in
      (
        cookies,
        datums,
        rw (◌>>=◌, ◌>>◌, delete_cookie_lem own w p k alive slots) ran,
        Deleted-cons w p k cookies datums alive r,
      )
