-- ===== src/Query/Select.antt =====
-- Query_SelectData of BindParamsAndRun: the values of a player, by the script on the server, or
-- cookie by cookie where the script is not there.
use clientprefs_redis.Base.{ℕ, List, [], ◌∷◌, Option, none, some, ltb, drop, length, if◌then◌else◌}
use clientprefs_redis.Text.{Text}
use clientprefs_redis.Text.Decimal.{stoi}
use clientprefs_redis.State.{Cookie, CookieAccess, cookie_access_public, new_cookie}
use clientprefs_redis.Redis.Reply.{Reply, is_ok, get_array, get_string, row_list}
use clientprefs_redis.Query.Run.{Run, Backend, ◌>>=◌, pure, follow, or_throw, command}
use clientprefs_redis.Query.Keys.{access_key, desc_key, value_key, get_cmd, evalsha_cmd, keys_cmd}

-- `catch (const std::exception&)`: neither a text nor a number is public.
number_or_public : Option Text → CookieAccess
number_or_public none = cookie_access_public
number_or_public (some s) = elim (stoi s) [ none ↦ cookie_access_public | some n ↦ n ]

pub access_of : Reply → CookieAccess
unfolding number_or_public
access_of r = number_or_public (get_string r)

-- The text if it is one, and else the empty text.
pub value_of : Reply → Text
value_of r = elim (get_string r) [ none ↦ [] | some s ↦ s ]

-- The element of `m_results`.
pub fetched : Text → Text → Reply → Reply → Cookie × Text
unfolding access_of value_of new_cookie
fetched name desc access value =
    (new_cookie (some name) (some desc) (access_of access), value_of value)

-- A row of the script's answer: its four columns, or `none` where the loop breaks.
abbrev pub columns : List Reply → Option (Reply × Reply × Reply × Reply)
columns (name ∷ desc ∷ access ∷ value ∷ []) = some (name, desc, access, value)
columns [] = none
columns (a ∷ []) = none
columns (a ∷ b ∷ []) = none
columns (a ∷ b ∷ c ∷ []) = none
columns (a ∷ b ∷ c ∷ d ∷ e ∷ r) = none

abbrev pub script_row : Reply → Option (Reply × Reply × Reply × Reply)
script_row r = elim (get_array r) [ none ↦ none | some rows ↦ columns (row_list rows) ]

module _ {Db : Type 0} where
  -- The loop over the script's rows.
  unfoldable pub script_rows : List Reply → Run Db (List (Cookie × Text))
  script_rows [] = pure []
  script_rows (r ∷ rs) = elim (script_row r) [
    | none ↦ pure []
    | some (name, desc, access, value) ↦ do
      n ← or_throw (get_string name)
      d ← or_throw (get_string desc)
      rest ← script_rows rs
      pure (fetched n d access value ∷ rest)
  ]

-- std::string::substr(11), which throws past the end.
abbrev pub substr : ℕ → Text → Option Text
substr n s = if ltb (length s) n then none else some (drop n s)

module _ {Db : Type 0} (b : Backend Db) where
  -- One key `cookies.id.*` of the slow path; `none` where the loop goes on with the next.
  unfoldable pub slow_item : Text → Text → Run Db (Option (Cookie × Text))
  slow_item steam_id key = do
    name ← or_throw (substr 11 key)
    answer ← command b (get_cmd key)
    cookie_id ← follow answer
    elim (get_string cookie_id) [
      | none ↦ pure none
      | some id ↦ do
        v ← command b (get_cmd (value_key steam_id id))
        d ← command b (get_cmd (desc_key name))
        a ← command b (get_cmd (access_key name))
        access ← follow a
        value ← follow v
        desc ← follow d
        text ← or_throw (get_string desc)
        pure (some (fetched name text access value))
    ]

  abbrev pub add_item : Option (Cookie × Text) → List (Cookie × Text) → List (Cookie × Text)
  add_item none rest = rest
  add_item (some item) rest = item ∷ rest

  unfoldable pub slow_items : Text → List Reply → Run Db (List (Cookie × Text))
  slow_items steam_id [] = pure []
  slow_items steam_id (item ∷ items) = do
    key ← or_throw (get_string item)
    found ← slow_item steam_id key
    rest ← slow_items steam_id items
    pure (add_item found rest)

  unfoldable pub slow_answer : Text → Option Reply → Run Db (List (Cookie × Text))
  unfolding slow_items
  slow_answer steam_id none = pure []
  slow_answer steam_id (some keys) = elim (get_array keys) [
    | none ↦ pure []
    | some rows ↦ slow_items steam_id (row_list rows)
  ]

  unfoldable pub slow_path : Text → Run Db (List (Cookie × Text))
  unfolding slow_answer
  slow_path steam_id = do keys ← command b keys_cmd; slow_answer steam_id keys

  unfoldable pub script_answer : Text → Option Reply → Run Db (List (Cookie × Text))
  unfolding slow_path
  script_answer steam_id none = slow_path steam_id
  script_answer steam_id (some r) =
      if is_ok r
      then elim (get_array r) [ none ↦ pure [] | some rows ↦ script_rows (row_list rows) ]
      else slow_path steam_id

  -- The rows that the query puts into `m_results`; it returns true in any case.
  unfoldable pub select_data_query : Text → Run Db (List (Cookie × Text))
  unfolding script_answer
  select_data_query steam_id = do
    cookies ← command b (evalsha_cmd steam_id)
    script_answer steam_id cookies
