-- ===== src/Extension/Config.antt =====
-- What SDK_OnLoad of extension.cpp takes from the configuration, and the steps by which a query
-- thread connects. `atoi` and `inet_pton` are the C library's.
pub mod Connected
use clientprefs_redis.Base.{
  ℕ, List, [], ◌∷◌, Option, none, some, Bool, true, not, ◌==◌, ℤ, pos, lt_ℤ, if◌then◌else◌, eq_text,
}
use clientprefs_redis.Text.{Text, codes}
use clientprefs_redis.Text.Decimal.{to_string}
use clientprefs_redis.Redis.Reply.{Reply, is_status, is_string, get_string}
use clientprefs_redis.Query.Run.{Run, Backend, ◌>>=◌, ◌>>◌, pure, follow, or_throw, command, append}
use clientprefs_redis.Query.Keys.{get_client_cookies_sha}

-- DatabaseInfo; `none` stands for NULL.
pub record DatabaseInfo : Type 0 where
  pub driver : Option Text
  pub host : Text
  pub port : ℕ
  pub max_timeout : ℕ
  pub pass : Option Text
  pub database : Option Text

-- The fields of `g_ClientPrefs` that are read from it, the number of query threads, and `onlylua`.
pub record Settings : Type 0 where
  pub host : Text
  pub port : ℕ
  pub max_timeout : ℕ
  pub pass : Text
  pub dbid : ℤ
  pub worker : ℤ
  pub onlylua : Bool

pub data Load : Type 0 where
  wrong_driver wrong_address : Load
  loads : Settings → Load

pub default_port : ℕ
default_port = 6379

pub default_worker : ℤ
default_worker = pos 4

is_redis : Option Text → Bool
is_redis none = true
is_redis (some []) = true
is_redis (some (c ∷ s)) = eq_text (c ∷ s) (codes "redis")

text_or_empty : Option Text → Text
text_or_empty none = []
text_or_empty (some s) = s

number_or_zero : (Text → ℤ) → Option Text → ℤ
number_or_zero atoi none = pos 0
number_or_zero atoi (some []) = pos 0
number_or_zero atoi (some (c ∷ s)) = atoi (c ∷ s)

-- `RedisQueryThread` and `RedisSlowQuery` of the core's configuration.
pub load_settings : (Text → ℤ) → (Text → Bool) → DatabaseInfo → Option Text → Option Text → Load
unfolding default_port default_worker is_redis text_or_empty number_or_zero
load_settings atoi inet_pton info num_worker slowquery =
    if not (is_redis info.driver)
    then wrong_driver
    else if not (inet_pton info.host)
    then wrong_address
    else loads (record {
      host = info.host;
      port = if info.port == 0 then default_port else info.port;
      max_timeout = info.max_timeout;
      pass = text_or_empty info.pass;
      dbid = number_or_zero atoi info.database;
      worker = elim num_worker [ none ↦ default_worker | some s ↦ atoi s ];
      onlylua = elim slowquery [ none ↦ true | some s ↦ lt_ℤ (atoi s) (pos 1) ];
    })

-- How `connectDb` ends, once the client is connected.
pub data Ready : Type 0 where
  not_authorized no_script script_refused other_script ready : Ready

module _ {Db : Type 0} (b : Backend Db) where
  abbrev pub auth_cmd : Text → List Text
  auth_cmd pass = codes "AUTH" ∷ pass ∷ []

  abbrev pub select_cmd : ℤ → List Text
  select_cmd dbid = codes "SELECT" ∷ to_string dbid ∷ []

  abbrev pub load_cmd : Text → List Text
  load_cmd script = codes "SCRIPT" ∷ codes "LOAD" ∷ script ∷ []

  sha_answer : Reply → Run Db Ready
  sha_answer r =
      if is_string r
      then (do
        sha ← or_throw (get_string r)
        pure (if eq_text sha get_client_cookies_sha then ready else other_script))
      else pure script_refused

  load_answer : Option Reply → Run Db Ready
  unfolding sha_answer
  load_answer none = pure no_script
  load_answer (some r) = sha_answer r

  -- A null reply to AUTH is followed for the message that is printed.
  auth_answer : Settings → Text → Option Reply → Run Db Ready
  unfolding load_answer
  auth_answer settings script none = follow none
  auth_answer settings script (some r) =
      if is_status r
      then (do
        append b (select_cmd settings.dbid)
        answer ← command b (load_cmd script)
        load_answer answer)
      else pure not_authorized

  -- The part of `connectDb` behind its loop; `script` is GET_CLIENT_COOKIES.
  pub connect_db : Settings → Text → Run Db Ready
  unfolding auth_answer
  connect_db settings script = do
    answer ← command b (auth_cmd settings.pass)
    auth_answer settings script answer
