-- ===== src/Menus/Steps.antt =====
-- What the operations of the settings menu do to its entries (natives.cpp, OnPluginDestroyed of cookie.cpp).
use clientprefs_redis.Base.{
  ℕ, suc, ◌<◌, ◌≡◌, ◌≢◌, refl, ap, sym, ◌∙◌, List, [], ◌∷◌, ◌++◌, none, some, Bool-cases,
  Option-cases, inl, inr, All, All-snoc, eq_text, eq_text_refl, arith,
}
use clientprefs_redis.Base.Fault.{update}
use clientprefs_redis.Text.{Text}
use clientprefs_redis.Menus.{MenuWorld, split_item, split_here, remove_names, on_plugin_destroyed}
use clientprefs_redis.Menus.Entries.{
  Entry, text_of, info_of, place_of, menu_of, forwards_of, others, Holds, All-others,
  Distinct-others, texts_of-others, heap_of-others, heap_of-found, heap_of-snoc, Distinct-snoc,
  menu_of-snoc, texts_of-snoc, above-Distinct, All-below,
}
use clientprefs_redis.Menus.Items.{destroyed_after}
use clientprefs_redis.Menus.Removal.{Removed, remove_names_lem}

nothing_shown : (es : List Entry) → All (λ f. split_item (text_of f) [] ≡ none) es
unfolding split_item
nothing_shown [] = tt
nothing_shown (e ∷ es) = (refl, nothing_shown es)

Holds-Removed :
    (plugin : ℕ) (es : List Entry) (s : MenuWorld) (v : MenuWorld)
    → Holds es s
    → Removed plugin [] es s v
    → Holds (others plugin es) (record v { plugin_items = update v.plugin_items plugin [] })
Holds-Removed plugin es s v o r = record {
  menu = r.menu;
  texts = λ p. ground (
    arith,
    texts_of-others plugin p es,
    o.texts p,
    ap (λ (f : ℕ → List Text). f p) r.plugin_items,
  );
  autos = λ q.
      r.autos q
      ∙ ground (arith, o.autos q, heap_of-others info_of (λ e. e.auto) plugin es q o.one_info);
  handlers = λ q.
      r.handlers q
      ∙ ground
          (arith, o.handlers q, heap_of-others place_of (λ e. e.handler) plugin es q o.one_place);
  one_text = Distinct-others text_of plugin es o.one_text;
  one_info = Distinct-others info_of plugin es o.one_info;
  one_place = Distinct-others place_of plugin es o.one_place;
  infos_below =
      All-below info_of s.next v.next (others plugin es) (omega (arith, r.next))
        (All-others (λ e. info_of e < s.next) plugin es o.infos_below);
  places_below =
      All-below place_of s.next v.next (others plugin es) (omega (arith, r.next))
        (All-others (λ e. place_of e < s.next) plugin es o.places_below);
}

pub on_plugin_destroyed-Holds :
    (plugin : ℕ) (es : List Entry) (s : MenuWorld)
    → Holds es s
    → (v : MenuWorld) × (on_plugin_destroyed plugin s ≡ some (tt, v))
      × Holds (others plugin es) v
      × (v.released ≡ s.released ++ forwards_of plugin es)
on_plugin_destroyed-Holds plugin es s o =
    let (v, ran, r) =
      remove_names_lem plugin [] es s o.menu (nothing_shown es) o.one_text o.one_info o.one_place
        (heap_of-found info_of (λ e. e.auto) s.autos es o.autos o.one_info)
        (heap_of-found place_of (λ e. e.handler) s.handlers es o.handlers o.one_place) in
    (
      record v { plugin_items = update v.plugin_items plugin [] },
      destroyed_after plugin s v (ap (λ ns. remove_names ns s) (o.texts plugin) ∙ ran),
      Holds-Removed plugin es s v o r,
      r.released,
    )

-- The world with one more entry, whose handler is the next object and whose data the one after it.
abbrev pub with_entry : MenuWorld → Entry → MenuWorld
with_entry s e = record {
  handlers = update s.handlers s.next (some e.handler);
  autos = update s.autos (suc s.next) (some e.auto);
  next = suc (suc s.next);
  client_menu = s.client_menu ++ e.item ∷ [];
  plugin_items = update s.plugin_items e.plugin (s.plugin_items e.plugin ++ text_of e ∷ []);
  released = s.released;
}

not_shown :
    (text : Text) (es : List Entry)
    → split_item text (menu_of es) ≡ none
    → All (λ f. text ≢ text_of f) es
unfolding split_item split_here
not_shown text [] h = tt
not_shown text (e ∷ es) h = elim (Bool-cases (eq_text (text_of e) text)) [
  | inl hit ↦ cc (rw (hit) at h)
  | inr miss ↦ elim (Option-cases (split_item text (menu_of es))) [
    | inl nowhere ↦ (
      λ same. cc (eq_text_refl text, ap (λ t. eq_text t text) (sym same), miss),
      not_shown text es nowhere,
    )
    | inr (found, at) ↦ cc (rw (miss, at) at h)
  ]
]

pub Holds-added :
    (es : List Entry) (s : MenuWorld) (e : Entry)
    → Holds es s
    → info_of e ≡ suc s.next
    → place_of e ≡ s.next
    → split_item (text_of e) s.client_menu ≡ none
    → Holds (es ++ e ∷ []) (with_entry s e)
Holds-added es s e o info place fresh =
    let new_text = not_shown (text_of e) es (ap (split_item (text_of e)) (sym o.menu) ∙ fresh) in
    let new_info = above-Distinct info_of (info_of e) s.next es (omega arith) o.infos_below in
    let new_place = above-Distinct place_of (place_of e) s.next es (omega arith) o.places_below in
    record {
      menu = ground (arith, menu_of-snoc es e, o.menu);
      texts = λ p. ground (arith, texts_of-snoc p es e, o.texts p, o.texts e.plugin);
      autos = λ q. ground (arith, o.autos q, heap_of-snoc info_of (λ f. f.auto) es e q new_info);
      handlers = λ q.
          ground (arith, o.handlers q, heap_of-snoc place_of (λ f. f.handler) es e q new_place);
      one_text = Distinct-snoc text_of es e o.one_text new_text;
      one_info = Distinct-snoc info_of es e o.one_info new_info;
      one_place = Distinct-snoc place_of es e o.one_place new_place;
      infos_below =
          All-snoc (λ f. info_of f < suc (suc s.next)) es e
            (All-below info_of s.next (suc (suc s.next)) es (omega arith) o.infos_below)
            (omega arith);
      places_below =
          All-snoc (λ f. place_of f < suc (suc s.next)) es e
            (All-below place_of s.next (suc (suc s.next)) es (omega arith) o.places_below)
            (omega arith);
    }
