-- ===== src/Sdk.antt =====
-- What the extension is given by SourceMod and by the C++ library, none of which is under the
-- repository: the players, the table of cookies by name, the size of the player arrays.
use clientprefs_redis.Base.{ℕ, ◌≡◌, ◌≢◌, ◌⊎◌, List, [], ◌∷◌, Option, none, some, Bool}
use clientprefs_redis.Text.{Text}

-- IGamePlayer. `none` stands for a NULL text.
pub record GamePlayer : Type 0 where
  pub fake : Bool
  pub authorized : Bool
  pub serial : ℕ
  pub steam2 : Option Text
  pub steam3 : Option Text
  pub auth_string : Option Text

-- playerhelpers, and time(NULL), at the moment of a call.
pub record Server : Type 0 where
  pub max_clients : ℕ
  pub player : ℕ → Option GamePlayer
  pub client_from_serial : ℕ → ℕ
  pub time : ℕ

-- One insertion into a NameHashSet<Cookie *>: the key, the `name` of the cookie, and its address.
pub record Entry : Type 0 where
  pub key : Text
  pub name : Text
  pub cookie : ℕ

-- A cookie of this name was inserted at this address.
abbrev pub HasEntry : List Entry → Text → ℕ → Type 0
HasEntry [] k c = ⊥
HasEntry (e ∷ es) k c = ((e.name ≡ k) × (e.cookie ≡ c)) ⊎ HasEntry es k c

-- NameHashSet as the function of its insertions, the latest first, that `retrieve` is: a cookie is
-- found under a key that it was inserted with and that `Cookie::matches` its name, and never under
-- a key that is not its name; and what is found was inserted. Where the key of the insertion and the name differ, whether the name
-- finds it depends on the hashes, and nothing is assumed. SM_MAXPLAYERS is `max_players`.
pub record Sdk : Type 0 where
  pub max_players : ℕ
  pub retrieve : List Entry → Text → Option ℕ
  pub retrieve-nil : (k : Text) → retrieve [] k ≡ none
  pub retrieve-cons_self :
      (es : List Entry) (k : Text) (c : ℕ)
      → retrieve es k ≡ none
      → retrieve (record { key = k; name = k; cookie = c } ∷ es) k ≡ some c
  pub retrieve-cons_ne :
      (e : Entry) (es : List Entry) (k : Text) → k ≢ e.name → retrieve (e ∷ es) k ≡ retrieve es k
  pub retrieve-HasEntry :
      (es : List Entry) (k : Text) (c : ℕ) → retrieve es k ≡ some c → HasEntry es k c
