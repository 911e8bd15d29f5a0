-- ===== src/Query/Script.antt =====
-- GET_CLIENT_COOKIES of query.h, the Lua script that the server runs for EVALSHA.
pub mod Server
pub mod Paths
pub mod Slow
pub mod Agreement
pub mod Saved
use clientprefs_redis.Base.{List, [], ◌∷◌, Option, none, some, pos}
use clientprefs_redis.Text.{Text, codes}
use clientprefs_redis.Redis.Reply.{
  Reply, Rows, reply, end, row, arrays, string, get_array, get_string, row_list,
}
use clientprefs_redis.Query.Run.{Run, Backend, ◌>>=◌, ◌>>◌, pure, follow, or_throw, command, append}
use clientprefs_redis.Query.Keys.{id_key, access_key, desc_key, value_key, get_cmd}

abbrev pub smembers_cmd : List Text
smembers_cmd = codes "SMEMBERS" ∷ codes "cookies.list" ∷ []

abbrev pub srem_cmd : Text → List Text
srem_cmd name = codes "SREM" ∷ codes "cookies.list" ∷ name ∷ []

-- A Lua table of replies as the server answers it, `false` as a nil.
abbrev pub rows_from : List Reply → Rows
rows_from [] = end
rows_from (r ∷ rs) = row r (rows_from rs)

abbrev pub array_of : List Reply → Reply
array_of rs = reply arrays (rows_from rs) [] (pos 0)

abbrev pub bulk : Text → Reply
bulk s = reply string end s (pos 0)

module _ {Db : Type 0} where
  unfoldable pub texts : List Reply → Run Db (List Text)
  texts [] = pure []
  texts (r ∷ rs) = do name ← or_throw (get_string r); rest ← texts rs; pure (name ∷ rest)

module _ {Db : Type 0} (b : Backend Db) where
  -- redis.call(...)
  abbrev pub call : List Text → Run Db Reply
  call cmd = command b cmd >>= follow

  -- KEYS[1] is the Steam id; a text or `false` comes from GET.
  unfoldable pub cookie_rows : Text → List Text → Run Db (List Reply)
  cookie_rows steam_id [] = pure []
  cookie_rows steam_id (name ∷ names) = do
    d ← call (get_cmd (id_key name))
    elim (get_string d) [
      | none ↦ do append b (srem_cmd name); cookie_rows steam_id names
      | some id ↦ do
        desc ← call (get_cmd (desc_key name))
        access ← call (get_cmd (access_key name))
        value ← call (get_cmd (value_key steam_id id))
        rest ← cookie_rows steam_id names
        pure (array_of (bulk name ∷ desc ∷ access ∷ value ∷ []) ∷ rest)
    ]

  unfoldable pub get_client_cookies : Text → Run Db Reply
  unfolding texts
  get_client_cookies steam_id = do
    members ← call smembers_cmd
    rows ← or_throw (get_array members)
    names ← texts (row_list rows)
    found ← cookie_rows steam_id names
    pure (array_of found)
