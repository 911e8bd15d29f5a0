-- ===== src/Extension/Lifecycle/Balance.antt =====
-- What is alive after the calls of `Extension.Lifecycle`: each call obtains a thing from SourceMod, gives
-- one back, or neither.
use clientprefs_redis.Base.{
  ℕ, List, [], ◌∷◌, ◌++◌, Option, none, some, Bool, true, false, ◌==◌, ◌≡◌, arith, if◌then◌else◌,
  Option-cases, inl, inr,
}
use clientprefs_redis.Extension.Lifecycle.{
  SourceMod, Call, create_ident_type, create_identity, create_forward, create_type, create_menu,
  create_phrase_collection, add_plugins_listener, remove_plugins_listener, add_client_listener,
  remove_client_listener, add_game_frame_hook, remove_game_frame_hook, remove_type, release_forward,
  destroy_phrases, free_handle,
}

-- What SourceMod hands out. A menu is known by its handle.
pub data Thing : Type 0 where
  forward handle_type menu phrases ident_type identity : ℕ → Thing
  plugins_listener client_listener frame_hook : Thing

eq_thing : Thing → Thing → Bool
eq_thing (forward a) (forward b) = a == b
eq_thing (handle_type a) (handle_type b) = a == b
eq_thing (menu a) (menu b) = a == b
eq_thing (phrases a) (phrases b) = a == b
eq_thing (ident_type a) (ident_type b) = a == b
eq_thing (identity a) (identity b) = a == b
eq_thing plugins_listener plugins_listener = true
eq_thing client_listener client_listener = true
eq_thing frame_hook frame_hook = true
eq_thing t u = false

pub data Effect : Type 0 where
  obtains gives_back : Thing → Effect
  neither : Effect

obtains_or : (ℕ → Thing) → Option ℕ → Effect
obtains_or thing none = neither
obtains_or thing (some n) = obtains (thing n)

handle_of : (ℕ → Option ℕ) → Option ℕ → Option ℕ
handle_of menu_handle none = none
handle_of menu_handle (some m) = menu_handle m

effect : (ℕ → Option ℕ) → Call → Effect
unfolding obtains_or handle_of
effect menu_handle (create_forward name f) = obtains_or forward f
effect menu_handle (create_ident_type name t) = obtains (ident_type t)
effect menu_handle (create_identity i) = obtains (identity i)
effect menu_handle (create_type name t) = obtains (handle_type t)
effect menu_handle (create_menu m) = obtains_or menu (handle_of menu_handle m)
effect menu_handle (create_phrase_collection p) = obtains_or phrases p
effect menu_handle add_plugins_listener = obtains plugins_listener
effect menu_handle add_client_listener = obtains client_listener
effect menu_handle add_game_frame_hook = obtains frame_hook
effect menu_handle (release_forward f) = gives_back (forward f)
effect menu_handle (remove_type t) = gives_back (handle_type t)
effect menu_handle (free_handle h true) = gives_back (menu h)
effect menu_handle (destroy_phrases p) = gives_back (phrases p)
effect menu_handle remove_plugins_listener = gives_back plugins_listener
effect menu_handle remove_client_listener = gives_back client_listener
effect menu_handle remove_game_frame_hook = gives_back frame_hook
effect menu_handle c = neither

-- The list without the thing, which must be in it.
without : Thing → List Thing → Option (List Thing)
unfolding eq_thing
without t [] = none
without t (u ∷ us) =
    let rest = without t us in
    if eq_thing u t then some us else elim rest [ none ↦ none | some vs ↦ some (u ∷ vs) ]

-- What is alive after one call. What is given back must be alive.
after_call : (ℕ → Option ℕ) → Call → List Thing → Option (List Thing)
unfolding effect without
after_call menu_handle c things = elim (effect menu_handle c) [
  | obtains t ↦ some (t ∷ things)
  | gives_back t ↦ without t things
  | neither ↦ some things
]

unfoldable pub alive_after : (ℕ → Option ℕ) → List Call → List Thing → Option (List Thing)
unfolding after_call
alive_after menu_handle [] things = some things
alive_after menu_handle (c ∷ cs) things = elim (after_call menu_handle c things) [
  | none ↦ none
  | some us ↦ alive_after menu_handle cs us
]

abbrev pub things_of : (ℕ → Thing) → Option ℕ → List Thing
things_of thing none = []
things_of thing (some n) = thing n ∷ []

-- What is alive between loading and unloading, beside what was alive before.
abbrev pub loaded_things : SourceMod → Option ℕ → ℕ → List Thing → List Thing
loaded_things sm handle p things =
    frame_hook
    ∷ client_listener
    ∷ phrases p
    ∷ plugins_listener
    ∷ (things_of menu handle
        ++ handle_type sm.cookie_iterator
          ∷ handle_type sm.cookie_type
          ∷ (things_of forward sm.forward ++ things))

pub alive_after-append :
    (mh : ℕ → Option ℕ) (cs : List Call) (ds : List Call) (things : List Thing) (us : List Thing)
    → alive_after mh cs things ≡ some us
    → alive_after mh (cs ++ ds) things ≡ alive_after mh ds us
unfolding alive_after
alive_after-append mh [] ds things us e = ground arith
alive_after-append mh (d ∷ cs) ds things us e = elim (Option-cases (after_call mh d things)) [
  | inl stuck ↦ absurd (ground arith)
  | inr (vs, stepped) ↦ ground (arith, alive_after-append mh cs ds vs us)
]
