-- ===== src/Extension/Lifecycle.antt =====
-- What the extension asks of SourceMod when it is loaded and when it is unloaded: SDK_OnLoad after it
-- has started the threads, SDK_OnAllLoaded, SDK_OnUnload but for the end of the threads, which is
-- in `Extension.Stop`, and SDK_OnDependenciesDropped of extension.cpp. SourceMod is a parameter: a record of its
-- answers. What the extension asks is a list of calls.
pub mod Balance
pub mod Calls
use clientprefs_redis.Base.{
  ℕ, List, [], ◌∷◌, ◌++◌, Option, none, some, Bool, false, not, ◌&&◌, ltb, length, if◌then◌else◌,
}
use clientprefs_redis.Base.Fault.{M, ◌>>=◌, ◌>>◌, pure, gets, modify, deref}
use clientprefs_redis.Text.{Text, codes}
use clientprefs_redis.Sdk.{Sdk, Server}
use clientprefs_redis.State.{World}
use clientprefs_redis.Extension.Unload.{unload}

-- What SourceMod returns. A pointer is a number, or `none` for NULL; `menu_handle` is `none` for
-- BAD_HANDLE, and `frees` says which handles FreeHandle frees with HandleError_None.
pub record SourceMod : Type 0 where
  pub ident_type : ℕ
  pub identity : ℕ
  pub forward : Option ℕ
  pub cookie_type : ℕ
  pub cookie_iterator : ℕ
  pub menu : Option ℕ
  pub menu_handle : ℕ → Option ℕ
  pub frees : ℕ → Bool
  pub phrases : Option ℕ

-- The calls, with what they returned and with the pointers that they were given.
pub data Call : Type 0 where
  add_natives : Call
  register_library set_default_title : Text → Call
  create_ident_type : Text → ℕ → Call
  create_identity : ℕ → Call
  create_forward : Text → Option ℕ → Call
  create_type : Text → ℕ → Call
  create_menu : Option ℕ → Call
  get_handle : Option ℕ → Call
  create_phrase_collection : Option ℕ → Call
  add_phrase_file : Text → Call
  add_plugins_listener remove_plugins_listener : Call
  add_client_listener remove_client_listener : Call
  add_game_frame_hook remove_game_frame_hook : Call
  remove_type release_forward destroy_phrases : ℕ → Call
  free_handle : ℕ → Bool → Call
  log_error : Call

-- The pointers and handle types that the extension keeps, whether `tqq` is not deleted, and the calls so
-- far, the oldest first.
pub record Life : Type 0 where
  pub cookie_data_loaded_forward : Option ℕ
  pub cookie_type : ℕ
  pub cookie_iterator : ℕ
  pub client_menu : Option ℕ
  pub phrases : Option ℕ
  pub has_queue : Bool
  pub calls : List Call

abbrev pub call : Call → M Life Unit
call c = modify (λ l. record l { calls = l.calls ++ c ∷ [] })

unfoldable pub sdk_on_all_loaded : M Life Unit
sdk_on_all_loaded = do call add_client_listener; call add_game_frame_hook

unfoldable pub remove_frame_hook : M Life Unit
remove_frame_hook = call remove_game_frame_hook

-- `delete tqq` of SDK_OnUnload.
unfoldable pub delete_queue : M Life Unit
delete_queue = modify (λ l. record l { has_queue = false })

release_forward_of : Option ℕ → M Life Unit
release_forward_of none = pure tt
release_forward_of (some f) = do
  call (release_forward f)
  modify (λ l. record l { cookie_data_loaded_forward = none })

destroy_phrases_of : Option ℕ → M Life Unit
destroy_phrases_of none = pure tt
destroy_phrases_of (some p) = do call (destroy_phrases p); modify (λ l. record l { phrases = none })

module _ (sm : SourceMod) where
  -- SDK_OnLoad from `AddNatives` on.
  unfoldable pub register_all : M Life Unit
  register_all = do
    call add_natives
    call (register_library (codes "clientprefs"))
    call (create_ident_type (codes "ClientPrefs") sm.ident_type)
    call (create_identity sm.identity)
    call (create_forward (codes "OnClientCookiesCached") sm.forward)
    modify (λ l. record l { cookie_data_loaded_forward = sm.forward })
    call (create_type (codes "Cookie") sm.cookie_type)
    modify (λ l. record l { cookie_type = sm.cookie_type })
    call (create_type (codes "CookieIterator") sm.cookie_iterator)
    modify (λ l. record l { cookie_iterator = sm.cookie_iterator })
    call (create_menu sm.menu)
    modify (λ l. record l { client_menu = sm.menu })
    deref sm.menu
    call (set_default_title (codes "Client Settings:"))
    call add_plugins_listener
    call (create_phrase_collection sm.phrases)
    modify (λ l. record l { phrases = sm.phrases })
    deref sm.phrases
    call (add_phrase_file (codes "clientprefs.phrases"))
    call (add_phrase_file (codes "common.phrases"))

  unfoldable pub free_menu_handle : Option ℕ → M Life Unit
  free_menu_handle none = pure tt
  free_menu_handle (some h) = do
    call (free_handle h (sm.frees h))
    if sm.frees h then pure tt else call log_error

  free_menu : Option ℕ → M Life Unit
  unfolding free_menu_handle
  free_menu none = pure tt
  free_menu (some m) = do
    call (get_handle (sm.menu_handle m))
    free_menu_handle (sm.menu_handle m)
    modify (λ l. record l { client_menu = none })

  -- SDK_OnDependenciesDropped after `Unload`.
  unfoldable pub drop_registrations : M Life Unit
  unfolding release_forward_of free_menu destroy_phrases_of
  drop_registrations = do
    cookie_type ← gets (λ l. l.cookie_type)
    call (remove_type cookie_type)
    cookie_iterator ← gets (λ l. l.cookie_iterator)
    call (remove_type cookie_iterator)
    forward ← gets (λ l. l.cookie_data_loaded_forward)
    release_forward_of forward
    menu ← gets (λ l. l.client_menu)
    free_menu menu
    phrases ← gets (λ l. l.phrases)
    destroy_phrases_of phrases
    call remove_plugins_listener
    call remove_client_listener

  -- The cookies, and what SourceMod was asked. `Unload` may put queries behind `tqq`, which must not be
  -- deleted then.
  module _ ⦃sdk : Sdk⦄ where
    unfoldable pub sdk_on_dependencies_dropped : Server → M (World × Life) Unit
    unfolding drop_registrations
    sdk_on_dependencies_dropped server (w, l) = elim (unload server w) [
      | none ↦ none
      | some (u, v) ↦
          if ltb (length w.query_queue) (length v.query_queue) && not l.has_queue
          then none
          else elim (drop_registrations l) [ none ↦ none | some (u', l') ↦ some (tt, (v, l')) ]
    ]

-- A pointer to an interface, or `none` for NULL: no interface is given up.
unfoldable pub query_interface_drop : Option ℕ → Bool
query_interface_drop (some interface) = Bool.false
query_interface_drop none = Bool.true
