-- ===== src/Menus/Entries.antt =====
-- What the settings menu holds, as a list of entries with their plugins: an independent view of
-- `MenuWorld`, whose operations are those of natives.cpp and OnPluginDestroyed of cookie.cpp.
use clientprefs_redis.Base.{
  ℕ, ◌<◌, ◌≤◌, ◌≡◌, ◌≢◌, refl, sym, ap, ◌∙◌, List, [], ◌∷◌, ◌++◌, Option, none, some, Bool, false,
  ◌==◌, ◌||◌, if◌then◌else◌, Bool-cases, inl, inr, All, All-snoc, arith,
}
use clientprefs_redis.Base.Fault.{update}
use clientprefs_redis.Text.{Text}
use clientprefs_redis.Menus.{ItemHandler, AutoMenuData, MenuItem, MenuWorld}

-- An item of a plugin, with its data and its handler, which stands at `auto.handler`.
pub record Entry : Type 0 where
  pub plugin : ℕ
  pub item : MenuItem
  pub auto : AutoMenuData
  pub handler : ItemHandler

abbrev pub text_of : Entry → Text
text_of e = e.item.display

abbrev pub info_of : Entry → ℕ
info_of e = e.item.info

abbrev pub place_of : Entry → ℕ
place_of e = e.auto.handler

abbrev pub menu_of : List Entry → List MenuItem
menu_of [] = []
menu_of (e ∷ es) = e.item ∷ menu_of es

-- The texts that a plugin shows, and the forwards that it gave.
abbrev pub texts_of : ℕ → List Entry → List Text
texts_of plugin [] = []
texts_of plugin (e ∷ es) =
    let rest = texts_of plugin es in if e.plugin == plugin then text_of e ∷ rest else rest

abbrev pub as_list : Option ℕ → List ℕ
as_list none = []
as_list (some f) = f ∷ []

abbrev pub forwards_of : ℕ → List Entry → List ℕ
forwards_of plugin [] = []
forwards_of plugin (e ∷ es) =
    let rest = forwards_of plugin es in
    if e.plugin == plugin then as_list e.handler.forward ++ rest else rest

-- The entries of the other plugins.
abbrev pub others : ℕ → List Entry → List Entry
others plugin [] = []
others plugin (e ∷ es) =
    let rest = others plugin es in if e.plugin == plugin then rest else e ∷ rest

-- The heap that holds the value of each entry at its key, and nothing else.
abbrev pub heap_of : {A : Type 0} → (Entry → ℕ) → (Entry → A) → List Entry → ℕ → Option A
heap_of key value [] q = none
heap_of key value (e ∷ es) q =
    let rest = heap_of key value es q in if key e == q then some (value e) else rest

-- An entry of the plugin has the key `q`.
abbrev pub frees : (Entry → ℕ) → ℕ → List Entry → ℕ → Bool
frees key plugin [] q = false
frees key plugin (e ∷ es) q =
    let rest = frees key plugin es q in if e.plugin == plugin then (key e == q) || rest else rest

abbrev pub Distinct : {K : Type 0} → (Entry → K) → List Entry → Type 0
Distinct key [] = Unit
Distinct key (e ∷ es) = All (λ f. key e ≢ key f) es × Distinct key es

-- The world holds these entries and nothing else, and no two of them show one text.
pub record Holds (es : List Entry) (s : MenuWorld) : Type 0 where
  pub menu : s.client_menu ≡ menu_of es
  pub texts : (plugin : ℕ) → s.plugin_items plugin ≡ texts_of plugin es
  pub autos : (q : ℕ) → s.autos q ≡ heap_of info_of (λ e. e.auto) es q
  pub handlers : (q : ℕ) → s.handlers q ≡ heap_of place_of (λ e. e.handler) es q
  pub one_text : Distinct text_of es
  pub one_info : Distinct info_of es
  pub one_place : Distinct place_of es
  pub infos_below : All (λ e. info_of e < s.next) es
  pub places_below : All (λ e. place_of e < s.next) es

-- What holds of each entry holds of each of the others.
pub All-others :
    (P : Entry → Type 0) (plugin : ℕ) (es : List Entry) → All P es → All P (others plugin es)
All-others P plugin [] h = tt
All-others P plugin (e ∷ es) (h, hs) =
    let rest = All-others P plugin es hs in
    elim (Bool-cases (e.plugin == plugin)) [
      | inl own ↦ rw own rest
      | inr other ↦ rw other (h, rest)
    ]

pub Distinct-others :
    {K : Type 0} (key : Entry → K) (plugin : ℕ) (es : List Entry)
    → Distinct key es
    → Distinct key (others plugin es)
Distinct-others key plugin [] d = tt
Distinct-others key plugin (e ∷ es) (apart, d) =
    let rest = Distinct-others key plugin es d in
    elim (Bool-cases (e.plugin == plugin)) [
      | inl own ↦ rw own rest
      | inr other ↦ rw other (All-others (λ f. key e ≢ key f) plugin es apart, rest)
    ]

pub texts_of-others :
    (plugin p : ℕ) (es : List Entry)
    → texts_of p (others plugin es) ≡ (if plugin == p then [] else texts_of p es)
texts_of-others plugin p [] = ground arith
texts_of-others plugin p (e ∷ es) = ground (arith, texts_of-others plugin p es)

module _ {A : Type 0} (key : Entry → ℕ) (value : Entry → A) where
  -- A key of none of the entries.
  pub heap_of-absent :
      (es : List Entry) (q : ℕ) → All (λ f. q ≢ key f) es → heap_of key value es q ≡ none
  heap_of-absent [] q h = refl
  heap_of-absent (e ∷ es) q (h, hs) = ground (arith, heap_of-absent es q hs)

  frees-absent :
      (plugin : ℕ) (es : List Entry) (q : ℕ)
      → All (λ f. q ≢ key f) es
      → frees key plugin es q ≡ false
  frees-absent plugin [] q h = refl
  frees-absent plugin (e ∷ es) q (h, hs) = ground (arith, frees-absent plugin es q hs)

  -- The heap without what the plugin's entries hold.
  pub heap_of-others :
      (plugin : ℕ) (es : List Entry) (q : ℕ)
      → Distinct key es
      → heap_of key value (others plugin es) q
        ≡ (if frees key plugin es q then none else heap_of key value es q)
  heap_of-others plugin [] q d = refl
  heap_of-others plugin (e ∷ es) q (apart, d) = elim (Bool-cases (key e == q)) [
    | inl here ↦ ground (
      arith,
      heap_of-others plugin es q d,
      heap_of-absent (others plugin es) (key e) (All-others (λ f. key e ≢ key f) plugin es apart),
      frees-absent plugin es (key e) apart,
    )
    | inr elsewhere ↦ ground (arith, heap_of-others plugin es q d)
  ]

  -- An entry that is appended.
  pub heap_of-snoc :
      (es : List Entry) (e : Entry) (q : ℕ)
      → All (λ f. key e ≢ key f) es
      → heap_of key value (es ++ e ∷ []) q
        ≡ (if key e == q then some (value e) else heap_of key value es q)
  heap_of-snoc [] e q h = refl
  heap_of-snoc (f ∷ es) e q (h, hs) = ground (arith, heap_of-snoc es e q hs)

  later :
      (g h : ℕ → Option A) (k : ℕ) (es : List Entry)
      → ((q : ℕ) → k ≢ q → g q ≡ h q)
      → All (λ f. k ≢ key f) es
      → All (λ f. h (key f) ≡ some (value f)) es
      → All (λ f. g (key f) ≡ some (value f)) es
  later g h k [] same apart at = tt
  later g h k (f ∷ es) same (a, apart) (e, at) = (same (key f) a ∙ e, later g h k es same apart at)

  -- Each entry's value is found at its key.
  pub heap_of-found :
      (g : ℕ → Option A) (es : List Entry)
      → ((q : ℕ) → g q ≡ heap_of key value es q)
      → Distinct key es
      → All (λ f. g (key f) ≡ some (value f)) es
  heap_of-found g [] same d = tt
  heap_of-found g (e ∷ es) same (apart, d) = (
    same (key e) ∙ ground arith,
    later g (heap_of key value es) (key e) es (λ q ne. same q ∙ ground arith) apart
        (heap_of-found (heap_of key value es) es (λ q. refl) d),
  )

  -- The values of the other entries stay where one is deleted.
  pub found-update :
      (g : ℕ → Option A) (k : ℕ) (es : List Entry)
      → All (λ f. k ≢ key f) es
      → All (λ f. g (key f) ≡ some (value f)) es
      → All (λ f. update g k none (key f) ≡ some (value f)) es
  found-update g k es apart at = later (update g k none) g k es (λ q ne. ground arith) apart at

pub Distinct-snoc :
    {K : Type 0} (key : Entry → K) (es : List Entry) (e : Entry)
    → Distinct key es
    → All (λ f. key e ≢ key f) es
    → Distinct key (es ++ e ∷ [])
Distinct-snoc key [] e d h = (tt, tt)
Distinct-snoc key (f ∷ es) e (apart, d) (ne, h) =
    (All-snoc (λ g. key f ≢ key g) es e apart (λ same. ne (sym same)), Distinct-snoc key es e d h)

pub menu_of-snoc :
    (es : List Entry) (e : Entry) → menu_of (es ++ e ∷ []) ≡ menu_of es ++ e.item ∷ []
menu_of-snoc [] e = refl
menu_of-snoc (f ∷ es) e = ap (λ m. f.item ∷ m) (menu_of-snoc es e)

pub texts_of-snoc :
    (p : ℕ) (es : List Entry) (e : Entry)
    → texts_of p (es ++ e ∷ [])
      ≡ (if e.plugin == p then texts_of p es ++ text_of e ∷ [] else texts_of p es)
texts_of-snoc p [] e = ground arith
texts_of-snoc p (f ∷ es) e = ground (arith, texts_of-snoc p es e)

pub All-map :
    (P Q : Entry → Type 0) (es : List Entry) → ((e : Entry) → P e → Q e) → All P es → All Q es
All-map P Q [] f h = tt
All-map P Q (e ∷ es) f (h, hs) = (f e h, All-map P Q es f hs)

-- A number that no key has reached yet.
pub above-Distinct :
    (key : Entry → ℕ) (k n : ℕ) (es : List Entry)
    → n ≤ k
    → All (λ f. key f < n) es
    → All (λ f. k ≢ key f) es
above-Distinct key k n es above below =
    All-map (λ f. key f < n) (λ f. k ≢ key f) es (λ f lt same. absurd (omega arith)) below

pub All-below :
    (key : Entry → ℕ) (n m : ℕ) (es : List Entry)
    → n ≤ m
    → All (λ f. key f < n) es
    → All (λ f. key f < m) es
All-below key n m es le below =
    All-map (λ f. key f < n) (λ f. key f < m) es (λ f lt. omega arith) below
