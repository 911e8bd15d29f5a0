-- ===== src/Menus/Auto.antt =====
-- AutoMenuHandler::OnMenuSelect of menus.cpp: the choice in a submenu becomes the client's value.
use clientprefs_redis.Base.{
  ℕ, zero, suc, ◌≡◌, ◌<◌, take-all, refl, [], ◌∷◌, Option, none, some, true, length, get_elem?,
  arith, if◌then◌else◌, eq_text,
}
use mathlib.Core.Path.{subst}
use clientprefs_redis.Base.Fault.{◌>>=◌, ◌>>◌, deref}
use clientprefs_redis.Text.{Text, codes, clip}
use clientprefs_redis.Sdk.{Sdk, Server}
use clientprefs_redis.State.{World, Main, max_value_length}
use clientprefs_redis.CookieManager.{set_cookie_value, get_cookie_value}
use clientprefs_redis.CookieManager.Values.{HasSlot, Reads, get_cookie_value-set_cookie_value}
use clientprefs_redis.Menus.{
  CookieMenu, AutoMenuData, options, yes_no, yes_no_int, on_off, on_off_int, other_menu,
}

-- The table `settings`; the row has two elements, and there is no row for another type.
abbrev pub settings : CookieMenu → ℕ → Option Text
settings yes_no item = get_elem? (codes "yes" ∷ codes "no" ∷ []) item
settings yes_no_int item = get_elem? (codes "1" ∷ codes "0" ∷ []) item
settings on_off item = get_elem? (codes "on" ∷ codes "off" ∷ []) item
settings on_off_int item = get_elem? (codes "1" ∷ codes "0" ∷ []) item
settings (other_menu n) item = none

module _ ⦃sdk : Sdk⦄ where
  -- The value is set, and then read for the message to the client, whose address is the result.
  pub auto_menu_select : Server → AutoMenuData → ℕ → ℕ → Main ℕ
  auto_menu_select server auto client item = do
    p ← λ w. deref auto.cookie w
    type ← λ w. deref auto.type w
    value ← λ w. deref (settings type item) w
    set_cookie_value server p client value
    get_cookie_value p client

-- A word for a word, or its number.
abbrev in_words : CookieMenu → Text → Text → Text
in_words yes_no word number = word
in_words yes_no_int word number = number
in_words on_off word number = word
in_words on_off_int word number = number
in_words (other_menu n) word number = []

-- What a client means who chooses the option that shows this text.
unfoldable pub meaning : CookieMenu → Text → Text
meaning type option =
    if eq_text option (codes "Yes")
    then in_words type (codes "yes") (codes "1")
    else if eq_text option (codes "On")
    then in_words type (codes "on") (codes "1")
    else if eq_text option (codes "No")
    then in_words type (codes "no") (codes "0")
    else in_words type (codes "off") (codes "0")

settings-options :
    (type : CookieMenu) (item : ℕ)
    → item < length (options (some type))
    → (option : Text) × (get_elem? (options (some type)) item ≡ some option)
      × (settings type item ≡ some (meaning type option))
      × (length (meaning type option) < 4)
unfolding meaning eq_text
settings-options yes_no zero h = (codes "Yes", refl, refl, omega arith)
settings-options yes_no (suc zero) h = (codes "No", refl, refl, omega arith)
settings-options yes_no (suc (suc n)) h = absurd (omega arith)
settings-options yes_no_int zero h = (codes "Yes", refl, refl, omega arith)
settings-options yes_no_int (suc zero) h = (codes "No", refl, refl, omega arith)
settings-options yes_no_int (suc (suc n)) h = absurd (omega arith)
settings-options on_off zero h = (codes "On", refl, refl, omega arith)
settings-options on_off (suc zero) h = (codes "Off", refl, refl, omega arith)
settings-options on_off (suc (suc n)) h = absurd (omega arith)
settings-options on_off_int zero h = (codes "On", refl, refl, omega arith)
settings-options on_off_int (suc zero) h = (codes "Off", refl, refl, omega arith)
settings-options on_off_int (suc (suc n)) h = absurd (omega arith)
settings-options (other_menu n) item h = absurd (omega arith)

clip_short : (value : Text) → length value < 4 → clip max_value_length (some value) ≡ value
unfolding clip
clip_short value h = take-all 99 value (omega arith)

module _ ⦃sdk : Sdk⦄ where
  -- A choice in the submenu of an automatic menu, one of the options that the submenu shows: what the
  -- chosen option means for the menu's type ("yes" or "1" for Yes, "on" or "1" for On, "no" or "0" for No,
  -- "off" or "0" for Off) becomes the client's value, uncut, marked as changed with the time of the
  -- call, and is what is read back for the message. The cookie must be alive, a value that the
  -- client has must be alive, and the client must have its place in the array.
  pub auto_menu_select-Reads :
      (server : Server) (w : World) (auto : AutoMenuData) (p client item : ℕ) (type : CookieMenu)
      → auto.cookie ≡ some p
      → auto.type ≡ some type
      → item < length (options (some type))
      → HasSlot w p client
      → (option : Text) × (w' : World) × (r : Reads w' p client
          (meaning type option)
          true
          server.time)
        × (get_elem? (options (some type)) item ≡ some option)
        × (auto_menu_select server auto client item w ≡ some (r.address, w'))
  unfolding auto_menu_select
  auto_menu_select-Reads server w auto p client item type ep et h slot =
      let (option, shown, e, short) = settings-options type item h in
      let value = meaning type option in
      let (w', done, r) = get_cookie_value-set_cookie_value server w p client value slot in
      let r' : Reads w' p client value true server.time =
        subst (λ v. Reads w' p client v true server.time) (clip_short value short) r in
      (option, w', r', shown, rw (◌>>=◌, ◌>>◌, ep, et, e, done, r'.got))
