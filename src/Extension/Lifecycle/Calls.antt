-- ===== src/Extension/Lifecycle/Calls.antt =====
-- The calls that loading and unloading make, and what is alive after them.
use clientprefs_redis.Base.{
  Bool, ℕ, List, [], ◌∷◌, ◌++◌, Option, none, some, true, ◌≡◌, arith, Option-cases, inl, inr,
  append_assoc,
}
use clientprefs_redis.Base.Fault.{◌>>=◌, ◌>>◌}
use clientprefs_redis.Text.{codes}
use clientprefs_redis.Extension.Lifecycle.{
  Life, SourceMod, register_all, sdk_on_all_loaded, drop_registrations, add_natives,
  register_library, create_ident_type, create_identity, set_default_title, add_phrase_file,
  get_handle, Call, create_forward, create_type, create_menu, create_phrase_collection,
  add_plugins_listener, remove_plugins_listener, add_client_listener, remove_client_listener,
  add_game_frame_hook, remove_game_frame_hook, remove_type, release_forward, destroy_phrases,
  free_handle,
}
use clientprefs_redis.Extension.Lifecycle.Balance.{
  Thing, ident_type, identity, alive_after, loaded_things,
}

-- The calls of SDK_OnLoad and SDK_OnAllLoaded.
pub asked_on_load : SourceMod → List Call
asked_on_load sm =
    add_natives
    ∷ register_library (codes "clientprefs")
    ∷ create_ident_type (codes "ClientPrefs") sm.ident_type
    ∷ create_identity sm.identity
    ∷ create_forward (codes "OnClientCookiesCached") sm.forward
    ∷ create_type (codes "Cookie") sm.cookie_type
    ∷ create_type (codes "CookieIterator") sm.cookie_iterator
    ∷ create_menu sm.menu
    ∷ set_default_title (codes "Client Settings:")
    ∷ add_plugins_listener
    ∷ create_phrase_collection sm.phrases
    ∷ add_phrase_file (codes "clientprefs.phrases")
    ∷ add_phrase_file (codes "common.phrases")
    ∷ add_client_listener
    ∷ add_game_frame_hook
    ∷ []

-- Nothing is kept.
abbrev pub forgotten : SourceMod → Bool → List Call → Life
forgotten sm queue cs = record {
  cookie_data_loaded_forward = none;
  cookie_type = sm.cookie_type;
  cookie_iterator = sm.cookie_iterator;
  client_menu = none;
  phrases = none;
  has_queue = queue;
  calls = cs;
}

abbrev pub kept : SourceMod → Bool → List Call → Life
kept sm queue cs = record {
  cookie_data_loaded_forward = sm.forward;
  cookie_type = sm.cookie_type;
  cookie_iterator = sm.cookie_iterator;
  client_menu = sm.menu;
  phrases = sm.phrases;
  has_queue = queue;
  calls = cs;
}

forward_calls : Option ℕ → List Call
forward_calls none = []
forward_calls (some f) = release_forward f ∷ []

handle_calls : Option ℕ → List Call
handle_calls none = []
handle_calls (some h) = free_handle h true ∷ []

-- The calls of SDK_OnUnload and SDK_OnDependenciesDropped.
pub asked_on_unload : SourceMod → Option ℕ → ℕ → List Call
unfolding forward_calls handle_calls
asked_on_unload sm handle p =
    remove_game_frame_hook
    ∷ remove_type sm.cookie_type
    ∷ remove_type sm.cookie_iterator
    ∷ (forward_calls sm.forward
        ++ get_handle handle
          ∷ (handle_calls handle
              ++ destroy_phrases p ∷ remove_plugins_listener ∷ remove_client_listener ∷ []))

-- The identity of the extension and its type, which no call gives back.
abbrev pub with_identity : SourceMod → List Thing → List Thing
with_identity sm things = identity sm.identity ∷ ident_type sm.ident_type ∷ things

module _ (sm : SourceMod) (l : Life) (m : ℕ) (p : ℕ) (has_menu : sm.menu ≡ some m)
    (has_phrases : sm.phrases ≡ some p) where
  pub load_asks :
      (register_all sm >> sdk_on_all_loaded) l
      ≡ some (tt, kept sm l.has_queue (l.calls ++ asked_on_load sm))
  unfolding register_all sdk_on_all_loaded asked_on_load
  load_asks = rw (◌>>=◌, ◌>>◌, has_menu, has_phrases) (simp append_assoc)

  module _ (frees : (h : ℕ) → sm.menu_handle m ≡ some h → sm.frees h ≡ true) where
    pub unload_asks :
        (queue : Bool) (cs : List Call)
        → drop_registrations sm (kept sm queue (cs ++ remove_game_frame_hook ∷ []))
          ≡ some (tt, forgotten sm queue (cs ++ asked_on_unload sm (sm.menu_handle m) p))
    unfolding drop_registrations asked_on_unload
    unload_asks queue cs = elim (Option-cases sm.forward) [
      | inl nf ↦ elim (Option-cases (sm.menu_handle m)) [
        | inl nh ↦ rw (◌>>=◌, ◌>>◌, has_menu, has_phrases, nf, nh) (simp append_assoc)
        | inr (h, sh) ↦
            rw (◌>>=◌, ◌>>◌, has_menu, has_phrases, nf, sh, frees h sh) (simp append_assoc)
      ]
      | inr (f, sf) ↦ elim (Option-cases (sm.menu_handle m)) [
        | inl nh ↦ rw (◌>>=◌, ◌>>◌, has_menu, has_phrases, sf, nh) (simp append_assoc)
        | inr (h, sh) ↦
            rw (◌>>=◌, ◌>>◌, has_menu, has_phrases, sf, sh, frees h sh) (simp append_assoc)
      ]
    ]

  pub alive_after-load :
      (things : List Thing)
      → alive_after sm.menu_handle (asked_on_load sm) things
        ≡ some (loaded_things sm (sm.menu_handle m) p (with_identity sm things))
  unfolding asked_on_load alive_after
  alive_after-load things = elim (Option-cases sm.forward) [
    | inl nf ↦ elim (Option-cases (sm.menu_handle m)) [
      | inl nh ↦ rw (has_menu, has_phrases, nf, nh) (ground arith)
      | inr (h, sh) ↦ rw (has_menu, has_phrases, nf, sh) (ground arith)
    ]
    | inr (f, sf) ↦ elim (Option-cases (sm.menu_handle m)) [
      | inl nh ↦ rw (has_menu, has_phrases, sf, nh) (ground arith)
      | inr (h, sh) ↦ rw (has_menu, has_phrases, sf, sh) (ground arith)
    ]
  ]

  pub alive_after-unload :
      (things : List Thing)
      → alive_after sm.menu_handle
          (asked_on_unload sm (sm.menu_handle m) p)
          (loaded_things sm (sm.menu_handle m) p things)
        ≡ some things
  unfolding asked_on_unload alive_after
  alive_after-unload things = elim (Option-cases sm.forward) [
    | inl nf ↦ elim (Option-cases (sm.menu_handle m)) [
      | inl nh ↦ rw (nf, nh) (ground arith)
      | inr (h, sh) ↦ rw (nf, sh) (ground arith)
    ]
    | inr (f, sf) ↦ elim (Option-cases (sm.menu_handle m)) [
      | inl nh ↦ rw (sf, nh) (ground arith)
      | inr (h, sh) ↦ rw (sf, sh) (ground arith)
    ]
  ]
