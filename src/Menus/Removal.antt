-- ===== src/Menus/Removal.antt =====
-- OnPluginDestroyed of cookie.cpp, for a plugin with any number of items.
use clientprefs_redis.Base.{
  ℕ, true, false, ◌≡◌, ◌≢◌, refl, ap, sym, ◌∙◌, List, [], ◌∷◌, ◌++◌, append_assoc, append-nil, none,
  some, ◌==◌, if◌then◌else◌, Bool-cases, inl, inr, All, arith,
}
use clientprefs_redis.Base.Fault.{◌>>=◌, ◌>>◌}
use clientprefs_redis.Menus.{MenuItem, MenuWorld, split_item, remove_names}
use clientprefs_redis.Menus.Entries.{
  Entry, text_of, info_of, place_of, menu_of, texts_of, forwards_of, as_list, others, frees,
  Distinct, found-update,
}
use clientprefs_redis.Menus.Items.{
  split_item-middle, split_item-snoc_none, remove_name_lem, without,
}

-- The world after the items of the plugin among `es`, which stand behind the items `before`, were removed.
pub record Removed (plugin : ℕ) (before : List MenuItem) (es : List Entry) (s : MenuWorld)
    (v : MenuWorld) : Type 0 where
  pub menu : v.client_menu ≡ before ++ menu_of (others plugin es)
  pub released : v.released ≡ s.released ++ forwards_of plugin es
  pub autos : (q : ℕ) → v.autos q ≡ (if frees info_of plugin es q then none else s.autos q)
  pub handlers :
      (q : ℕ) → v.handlers q ≡ (if frees place_of plugin es q then none else s.handlers q)
  pub next : v.next ≡ s.next
  pub plugin_items : v.plugin_items ≡ s.plugin_items

absent_snoc :
    (e : Entry) (before : List MenuItem) (es : List Entry)
    → All (λ f. split_item (text_of f) before ≡ none) es
    → All (λ f. text_of e ≢ text_of f) es
    → All (λ f. split_item (text_of f) (before ++ e.item ∷ []) ≡ none) es
absent_snoc e before [] h apart = tt
absent_snoc e before (f ∷ es) (h, hs) (ne, apart) =
    (split_item-snoc_none (text_of f) before e.item h ne, absent_snoc e before es hs apart)

Removed-other :
    (plugin : ℕ) (before : List MenuItem) (e : Entry) (es : List Entry) (s : MenuWorld)
    (v : MenuWorld)
    → (e.plugin == plugin) ≡ false
    → Removed plugin (before ++ e.item ∷ []) es s v
    → Removed plugin before (e ∷ es) s v
Removed-other plugin before e es s v other r = record {
  menu = r.menu ∙ ground (arith, append_assoc before (e.item ∷ []) (menu_of (others plugin es)));
  released = ground (arith, r.released);
  autos = λ q. ground (arith, r.autos q);
  handlers = λ q. ground (arith, r.handlers q);
  next = r.next;
  plugin_items = r.plugin_items;
}

Removed-own :
    (plugin : ℕ) (before : List MenuItem) (e : Entry) (es : List Entry) (s : MenuWorld)
    (v : MenuWorld)
    → (e.plugin == plugin) ≡ true
    → Removed plugin before es (without s (info_of e) e.auto e.handler (before ++ menu_of es)) v
    → Removed plugin before (e ∷ es) s v
Removed-own plugin before e es s v own r = record {
  menu = ground (arith, r.menu);
  released =
      r.released
      ∙ ground (arith, append_assoc s.released (as_list e.handler.forward) (forwards_of plugin es));
  autos = λ q. ground (arith, r.autos q);
  handlers = λ q. ground (arith, r.handlers q);
  next = r.next;
  plugin_items = r.plugin_items;
}

pub remove_names_lem :
    (plugin : ℕ) (before : List MenuItem) (es : List Entry) (s : MenuWorld)
    → s.client_menu ≡ before ++ menu_of es
    → All (λ f. split_item (text_of f) before ≡ none) es
    → Distinct text_of es
    → Distinct info_of es
    → Distinct place_of es
    → All (λ f. s.autos (info_of f) ≡ some f.auto) es
    → All (λ f. s.handlers (place_of f) ≡ some f.handler) es
    → (v : MenuWorld) × (remove_names (texts_of plugin es) s ≡ some (tt, v))
      × Removed plugin before es s v
unfolding remove_names
remove_names_lem plugin before [] s menu absent texts infos places autos handlers = (
  s,
  refl,
  record {
    menu = menu;
    released = sym (append-nil s.released);
    autos = λ q. refl;
    handlers = λ q. refl;
    next = refl;
    plugin_items = refl;
  },
)
remove_names_lem plugin before (e ∷ es) s menu (first, absent) (text, texts) (info, infos)
      (place, places) (auto, autos) (handler, handlers) =
    elim (Bool-cases (e.plugin == plugin)) [
      | inl own ↦
          let u = without s (info_of e) e.auto e.handler (before ++ menu_of es) in
          let found : split_item (text_of e) s.client_menu ≡ some (e.item, before ++ menu_of es) =
            ap (split_item (text_of e)) menu
            ∙ split_item-middle (text_of e) before e.item (menu_of es) first refl in
          let gone =
            remove_name_lem s (text_of e) e.item (before ++ menu_of es) e.auto e.handler found auto
              handler in
          let (v, ran, r) =
            remove_names_lem plugin before es u refl absent texts infos places
              (found-update info_of (λ f. f.auto) s.autos (info_of e) es info autos)
              (found-update place_of (λ f. f.handler) s.handlers (place_of e) es place handlers) in
          (v, rw (own, ◌>>=◌, ◌>>◌, gone) ran, Removed-own plugin before e es s v own r)
      | inr other ↦
          let (v, ran, r) =
            remove_names_lem plugin (before ++ e.item ∷ []) es s
              (menu ∙ sym (append_assoc before (e.item ∷ []) (menu_of es)))
              (absent_snoc e before es absent text) texts infos places autos handlers in
          (v, rw other ran, Removed-other plugin before e es s v other r)
    ]
