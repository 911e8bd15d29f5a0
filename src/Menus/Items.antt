-- ===== src/Menus/Items.antt =====
-- The items of the settings menu: how one is found, and what OnPluginDestroyed (cookie.cpp) does to it.
use clientprefs_redis.Base.{
  ℕ, suc, ◌≡◌, ◌<◌, ap, ◌∙◌, refl, append-nil, List, [], ◌∷◌, ◌++◌, Option, none, some, true, ℤ,
  arith, inl, inr, eq_text, eq_text_refl, eq_text→eq, ◌≢◌, Bool-cases, Option-cases,
}
use clientprefs_redis.Base.Fault.{◌>>=◌, ◌>>◌, update}
use clientprefs_redis.Text.{Text}
use clientprefs_redis.Menus.Entries.{as_list}
use clientprefs_redis.Menus.{
  CookieMenu, ItemHandler, AutoMenuData, MenuItem, MenuWorld, add_settings_prefab_menu_item,
  split_item, split_here, delete_item, remove_name, remove_names, on_plugin_destroyed,
  release_forward, remove_found,
}

pub split_item-middle :
    (name : Text) (items : List MenuItem) (item : MenuItem) (behind : List MenuItem)
    → split_item name items ≡ none
    → item.display ≡ name
    → split_item name (items ++ item ∷ behind) ≡ some (item, items ++ behind)
unfolding split_item split_here
split_item-middle name [] item behind h e = rw (e, eq_text_refl name)
split_item-middle name (x ∷ items) item behind h e = elim (Bool-cases (eq_text x.display name)) [
  | inl hit ↦ cc (rw (hit) at h)
  | inr miss ↦ elim (Option-cases (split_item name items)) [
    | inl nowhere ↦ rw (miss, split_item-middle name items item behind nowhere e)
    | inr (found, at) ↦ cc (rw (miss, at) at h)
  ]
]

pub split_item-snoc_none :
    (name : Text) (items : List MenuItem) (item : MenuItem)
    → split_item name items ≡ none
    → item.display ≢ name
    → split_item name (items ++ item ∷ []) ≡ none
unfolding split_item split_here
split_item-snoc_none name [] item h ne = elim (Bool-cases (eq_text item.display name)) [
  | inl hit ↦ absurd (ne (eq_text→eq item.display name hit))
  | inr miss ↦ rw miss refl
]
split_item-snoc_none name (x ∷ items) item h ne = elim (Bool-cases (eq_text x.display name)) [
  | inl hit ↦ cc (rw (hit) at h)
  | inr miss ↦ elim (Option-cases (split_item name items)) [
    | inl nowhere ↦ rw (miss, split_item-snoc_none name items item nowhere ne)
    | inr (found, at) ↦ cc (rw (miss, at) at h)
  ]
]

grow :
    (a b : MenuItem) (xs ys zs : List MenuItem)
    → ◌≡◌ {A = Option (MenuItem × List MenuItem)} (some (a, xs)) (some (b, ys))
    → ◌≡◌ {A = Option (MenuItem × List MenuItem)} (some (a, xs ++ zs)) (some (b, ys ++ zs))
grow a b xs ys zs h = cc

split_item-append_found :
    (name : Text) (items others : List MenuItem) (old item : MenuItem)
    → split_item name items ≡ some (old, others)
    → split_item name (items ++ item ∷ []) ≡ some (old, others ++ item ∷ [])
unfolding split_item split_here
split_item-append_found name [] others old item h = cc
split_item-append_found name (x ∷ items) others old item h =
    elim (Bool-cases (eq_text x.display name)) [
      | inl hit ↦ rw hit (grow x old items others (item ∷ []) (rw hit at h))
      | inr miss ↦ elim (Option-cases (split_item name items)) [
        | inl nowhere ↦ cc (rw (miss, nowhere) at h)
        | inr ((found, rest), at) ↦
            let ih = split_item-append_found name items rest found item at in
            rw (miss, ih) (grow found old (x ∷ rest) others (item ∷ []) (rw (miss, at) at h))
      ]
    ]

release_forward_lem :
    (s : MenuWorld) (forward : Option ℕ)
    → release_forward forward s ≡ some (tt, record s { released = s.released ++ as_list forward })
unfolding release_forward
release_forward_lem s none = rw (append-nil s.released)
release_forward_lem s (some f) = refl

delete_item_lem :
    (s : MenuWorld) (info : ℕ) (a : AutoMenuData) (h : ItemHandler)
    → s.autos info ≡ some a
    → s.handlers a.handler ≡ some h
    → delete_item info s
      ≡ some (
        tt,
        record s {
          handlers = update s.handlers a.handler none;
          autos = update s.autos info none;
          released = s.released ++ as_list h.forward;
        },
      )
unfolding delete_item
delete_item_lem s info a h ea eh = rw (◌>>=◌, ◌>>◌, ea, eh, release_forward_lem s h.forward)

-- The world without the item `found`.
abbrev pub without : MenuWorld → ℕ → AutoMenuData → ItemHandler → List MenuItem → MenuWorld
without s info a h others = record s {
  handlers = update s.handlers a.handler none;
  autos = update s.autos info none;
  client_menu = others;
  released = s.released ++ as_list h.forward;
}

remove_found_lem :
    (s : MenuWorld) (found : MenuItem) (others : List MenuItem) (a : AutoMenuData) (h : ItemHandler)
    → s.autos found.info ≡ some a
    → s.handlers a.handler ≡ some h
    → remove_found (some (found, others)) s ≡ some (tt, without s found.info a h others)
unfolding remove_found
remove_found_lem s found others a h ea eh = rw (◌>>=◌, ◌>>◌, delete_item_lem s found.info a h ea eh)

pub remove_name_lem :
    (s : MenuWorld) (name : Text) (found : MenuItem) (others : List MenuItem) (a : AutoMenuData)
    (h : ItemHandler)
    → split_item name s.client_menu ≡ some (found, others)
    → s.autos found.info ≡ some a
    → s.handlers a.handler ≡ some h
    → remove_name name s ≡ some (tt, without s found.info a h others)
unfolding remove_name
remove_name_lem s name found others a h first ea eh =
    ap (λ r. remove_found r s) first ∙ remove_found_lem s found others a h ea eh

remove_one :
    (s : MenuWorld) (name : Text) (found : MenuItem) (others : List MenuItem) (a : AutoMenuData)
    (h : ItemHandler)
    → split_item name s.client_menu ≡ some (found, others)
    → s.autos found.info ≡ some a
    → s.handlers a.handler ≡ some h
    → remove_names (name ∷ []) s ≡ some (tt, without s found.info a h others)
unfolding remove_names
remove_one s name found others a h first ea eh =
    rw (◌>>=◌, ◌>>◌, remove_name_lem s name found others a h first ea eh)

pub destroyed_after :
    (plugin : ℕ) (s s' : MenuWorld)
    → remove_names (s.plugin_items plugin) s ≡ some (tt, s')
    → on_plugin_destroyed plugin s
      ≡ some (tt, record s' { plugin_items = update s'.plugin_items plugin [] })
unfolding on_plugin_destroyed
destroyed_after plugin s s' h = rw (◌>>=◌, ◌>>◌, h)

-- The world after the plugin added its item.
abbrev pub added : MenuWorld → ℕ → ℕ → CookieMenu → Text → Option ℕ → ℤ → MenuWorld
added s plugin p type display callback datavalue = record {
  handlers =
      update s.handlers s.next
        (some (record { forward = callback; auto_menu_type = some type; is_auto_menu = true }));
  autos = update s.autos (suc s.next) (
      some (record { handler = s.next; cookie = some p; datavalue = datavalue; type = some type }));
  next = suc (suc s.next);
  client_menu = s.client_menu ++ record { info = suc s.next; display = display } ∷ [];
  plugin_items = update s.plugin_items plugin (s.plugin_items plugin ++ display ∷ []);
  released = s.released;
}

pub add_lem :
    (s : MenuWorld) (plugin : ℕ) (p : ℕ) (type : CookieMenu) (display : Text) (callback : Option ℕ)
    (datavalue : ℤ)
    → add_settings_prefab_menu_item plugin p type display callback datavalue s
      ≡ some (tt, added s plugin p type display callback datavalue)
unfolding add_settings_prefab_menu_item
add_lem s plugin p type display callback datavalue = refl

-- A plugin without items adds an automatic menu whose text an older item of the menu shows
-- already, and is unloaded: it is the older item that goes, with its data and its forward, and the
-- item of the plugin stays in the menu with its data. The older item's data and handler are alive
-- before.
pub on_plugin_destroyed_same_text :
    (s : MenuWorld) (plugin : ℕ) (p : ℕ) (type : CookieMenu) (display : Text) (callback : Option ℕ)
    (datavalue : ℤ) (old : MenuItem) (others : List MenuItem) (a : AutoMenuData) (h : ItemHandler)
    → s.plugin_items plugin ≡ []
    → split_item display s.client_menu ≡ some (old, others)
    → old.info < s.next
    → a.handler < s.next
    → s.autos old.info ≡ some a
    → s.handlers a.handler ≡ some h
    → (s1 s2 : MenuWorld) × (add_settings_prefab_menu_item plugin p type display callback datavalue
          s
        ≡ some (tt, s1))
      × (on_plugin_destroyed plugin s1 ≡ some (tt, s2))
      × (s2.client_menu ≡ others ++ record { info = suc s.next; display = display } ∷ [])
      × (s2.released ≡ s.released ++ as_list h.forward)
      × (s2.autos old.info ≡ none)
      × (s2.autos (suc s.next) ≡ s1.autos (suc s.next))
on_plugin_destroyed_same_text s plugin p type display callback datavalue old others a h own shown
      lt1 lt2 ea eh =
    let s1 = added s plugin p type display callback datavalue in
    let item : MenuItem = record { info = suc s.next; display = display } in
    let first = split_item-append_found display s.client_menu others old item shown in
    let others' = others ++ item ∷ [] in
    let s' = without s1 old.info a h others' in
    let removed = remove_one s1 display old others' a h first (ground arith) (ground arith) in
    let names : s1.plugin_items plugin ≡ display ∷ [] = ground (arith, own) in
    let ran = destroyed_after plugin s1 s' (ap (λ ns. remove_names ns s1) names ∙ removed) in
    (
      s1,
      record s' { plugin_items = update s'.plugin_items plugin [] },
      add_lem s plugin p type display callback datavalue,
      ran,
      refl,
      refl,
      ground arith,
      ground arith,
    )
