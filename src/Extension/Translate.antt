-- ===== src/Extension/Translate.antt =====
-- Translate of extension.cpp, and what is shown with it: ShowSettingsMenu of natives.cpp and the end of
-- a submenu in menus.cpp. What FormatString makes of the phrases is a parameter.
use clientprefs_redis.Base.{
  ℕ, List, [], ◌∷◌, Option, none, some, Bool, false, ltb, length, if◌then◌else◌,
}
use clientprefs_redis.Base.Fault.{M, ◌>>=◌, ◌>>◌, pure, deref}
use clientprefs_redis.Text.{Text, codes}
use clientprefs_redis.Sdk.{Sdk, Server}
use clientprefs_redis.State.{Main}
use clientprefs_redis.Clients.{attempt_reconnection}
use clientprefs_redis.Extension.Lifecycle.{SourceMod, Life, get_handle, call, free_menu_handle}

unfoldable pub max_translate_params : ℕ
max_translate_params = 32

-- A parameter of a format: a text, or the cell of a client.
pub data Param : Type 0 where
  text : Text → Param
  client : ℕ → Param

-- What FormatString returns, and what it leaves in the buffer and in `fail_phrase`.
pub record Formatted : Type 0 where
  pub ok : Bool
  pub buffer : Text
  pub fail_phrase : Option Text

abbrev pub FormatString : Type 0
FormatString = ℕ → Text → List Param → Formatted

-- What is logged: the phrase that is missing, or an unknown error.
pub data TranslateError : Type 0 where
  no_phrase : Text → TranslateError
  unknown : TranslateError

-- The buffer is `none` where nothing was written to it.
pub record Translated : Type 0 where
  pub ok : Bool
  pub buffer : Option Text
  pub logged : Option TranslateError

error_of : Option Text → TranslateError
error_of none = unknown
error_of (some phrase) = no_phrase phrase

-- `phrases` is none for NULL, which is followed. Too many parameters are refused (in a build without assertions).
unfoldable pub translate : FormatString → Option ℕ → ℕ → Text → List Param → Option Translated
unfolding max_translate_params error_of
translate format_string phrases maxlength format params =
    if ltb max_translate_params (length params)
    then some (record { ok = false; buffer = none; logged = none })
    else elim phrases [
      | none ↦ none
      | some p ↦
          let f = format_string maxlength format params in
          some (record {
            ok = f.ok;
            buffer = some f.buffer;
            logged = if f.ok then none else some (error_of f.fail_phrase);
          })
    ]

-- The title and the client to whom the settings menu is displayed.
pub record Shown : Type 0 where
  pub title : Text
  pub client : ℕ

module _ ⦃sdk : Sdk⦄ where
  -- `menu` is `clientMenu`. The result of Translate is not looked at.
  unfoldable pub show_settings_menu : FormatString → Option ℕ → Option ℕ → Server → ℕ → Main Shown
  unfolding translate
  show_settings_menu format_string phrases menu server c = do
    attempt_reconnection server
    t ← λ w.
        deref
          (translate format_string phrases 256 (codes "%T:")
            (text (codes "Client Settings") ∷ client c ∷ []))
          w
    message ← λ w. deref t.buffer w
    λ w. deref menu w
    pure (record { title = message; client = c })

-- AutoMenuHandler::OnMenuEnd, for the handle of the submenu.
unfoldable pub on_menu_end : SourceMod → ℕ → M Life Unit
unfolding free_menu_handle
on_menu_end sm handle = do call (get_handle (some handle)); free_menu_handle sm (some handle)
