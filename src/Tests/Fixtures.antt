-- ===== src/Tests/Fixtures.antt =====
-- A SourceMod with a table by keys, a server with one player and one bot, and a Redis server.
use clientprefs_redis.Base.{
  ℕ, ◌≡◌, refl, ◌≢◌, inl, inr, List, [], ◌∷◌, Option, none, some, true, false, ◌&&◌, ◌==◌,
  if◌then◌else◌, eq_text, eq_text_refl, eq_text→eq, arith, Bool-cases,
}
use clientprefs_redis.Text.{Text, codes}
use clientprefs_redis.Sdk.{Sdk, Server, GamePlayer, Entry, HasEntry}

unfoldable pub by_key : List Entry → Text → Option ℕ
by_key [] k = none
by_key (e ∷ es) k = if eq_text e.key k && eq_text e.name k then some e.cookie else by_key es k

pub by_key-cons_self :
    (es : List Entry) (k : Text) (c : ℕ)
    → by_key es k ≡ none
    → by_key (record { key = k; name = k; cookie = c } ∷ es) k ≡ some c
unfolding by_key
by_key-cons_self es k c h = rw (eq_text_refl k)

pub by_key-cons_ne :
    (e : Entry) (es : List Entry) (k : Text) → k ≢ e.name → by_key (e ∷ es) k ≡ by_key es k
unfolding by_key
by_key-cons_ne e es k h = ground (arith, eq_text→eq e.name k)

pub by_key-HasEntry : (es : List Entry) (k : Text) (c : ℕ) → by_key es k ≡ some c → HasEntry es k c
unfolding by_key
by_key-HasEntry [] k c h = cc
by_key-HasEntry (e ∷ es) k c h = elim (Bool-cases (eq_text e.key k && eq_text e.name k)) [
  | inl hit ↦ inl (ground (arith, eq_text→eq e.name k), ground arith)
  | inr miss ↦ inr (by_key-HasEntry es k c (rw miss at h))
]

pub by_key-nil : (k : Text) → by_key [] k ≡ none
unfolding by_key
by_key-nil k = refl

instance abbrev pub test_sdk : Sdk
test_sdk = record {
  max_players = 65;
  retrieve = by_key;
  retrieve-nil = by_key-nil;
  retrieve-cons_self = by_key-cons_self;
  retrieve-cons_ne = by_key-cons_ne;
  retrieve-HasEntry = by_key-HasEntry;
}

abbrev pub human : GamePlayer
human = record {
  fake = false;
  authorized = true;
  serial = 101;
  steam2 = some (codes "STEAM_1:0:7");
  steam3 = none;
  auth_string = none;
}

abbrev pub bot : GamePlayer
bot = record {
  fake = true;
  authorized = true;
  serial = 102;
  steam2 = none;
  steam3 = none;
  auth_string = none;
}

abbrev pub test_server : Server
test_server = record {
  max_clients = 2;
  player = λ i. if i == 1 then some human else if i == 2 then some bot else none;
  client_from_serial = λ s. if s == 101 then 1 else 0;
  time = 7;
}
