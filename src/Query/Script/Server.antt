-- ===== src/Query/Script/Server.antt =====
-- What Query_SelectData relies on of the server, and the row of a cookie.
use clientprefs_redis.Base.{◌≡◌, List, [], ◌∷◌, Option, none, some, Bool, true, false, pos}
use clientprefs_redis.Text.{Text, codes}
use clientprefs_redis.State.{Cookie}
use clientprefs_redis.Redis.Reply.{Reply, reply, end, error}
use clientprefs_redis.Query.Run.{Backend, returns}
use clientprefs_redis.Query.Keys.{id_key, access_key, desc_key, value_key, evalsha_cmd, keys_cmd}
use clientprefs_redis.Query.Select.{fetched}
use clientprefs_redis.Query.Execute.Ids.{IsReached, get_answer}
use clientprefs_redis.Query.Script.{smembers_cmd, srem_cmd, array_of, bulk, get_client_cookies}

-- The answer of EVALSHA where the server does not have the script.
abbrev pub no_script : Reply
no_script = reply error end (codes "NOSCRIPT No matching script. Please use EVAL.") (pos 0)

abbrev pub bulks : List Text → List Reply
bulks [] = []
bulks (s ∷ ss) = bulk s ∷ bulks ss

abbrev pub key_bulks : List Text → List Reply
key_bulks [] = []
key_bulks (name ∷ names) = bulk (id_key name) ∷ key_bulks names

-- A server that is reached, with the names in `cookies.list`, the names under `cookies.id.`, and
-- the cache of scripts: SMEMBERS and KEYS answer with the names, SREM keeps every text, and
-- EVALSHA runs the script if it is cached.
pub record IsServer {Db : Type 0} (b : Backend Db) : Type 0 where
  pub reached : IsReached b
  pub listed : Db → List Text
  pub stored : Db → List Text
  pub has_script : Db → Bool
  pub smembers : (db : Db) → b.command db smembers_cmd ≡ (some (array_of (bulks (listed db))), db)
  pub srem :
      (db : Db) (name k : Text)
      → reached.text_at (b.command db (srem_cmd name)).1 k ≡ reached.text_at db k
  pub keys : (db : Db) → b.command db keys_cmd ≡ (some (array_of (key_bulks (stored db))), db)
  pub evalsha :
      (db db' : Db) (steam_id : Text) (r : Reply)
      → has_script db ≡ true
      → get_client_cookies b steam_id db ≡ returns (r, db')
      → b.command db (evalsha_cmd steam_id) ≡ (some r, db')
  pub evalsha_missing :
      (db : Db) (steam_id : Text)
      → has_script db ≡ false
      → b.command db (evalsha_cmd steam_id) ≡ (some no_script, db)

abbrev pub or_empty : Option Text → Text
or_empty none = []
or_empty (some s) = s

-- A cookie that has an id has a description.
abbrev pub IsDescribed : (Text → Option Text) → Text → Type 0
IsDescribed text_at name =
    (id : Text) → text_at (id_key name) ≡ some id → (s : Text) × (text_at (desc_key name) ≡ some s)

module _ (text_at : Text → Option Text) (steam_id : Text) where
  -- The row of a cookie that has an id.
  abbrev pub row_with : Text → Option Text → Option (Cookie × Text)
  row_with name none = none
  row_with name (some id) = some (
      fetched name (or_empty (text_at (desc_key name))) (get_answer (text_at (access_key name)))
        (get_answer (text_at (value_key steam_id id))))

  abbrev pub row_for : Text → Option (Cookie × Text)
  row_for name = row_with name (text_at (id_key name))
