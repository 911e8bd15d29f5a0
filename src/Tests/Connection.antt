-- ===== src/Tests/Connection.antt =====
-- A server that records its commands, and a query thread that connects to it.
use clientprefs_redis.Base.{
  ◌≡◌, ◌↔◌, List, [], ◌∷◌, ◌++◌, Option, none, some, true, pos, eq_text, if◌then◌else◌,
}
use clientprefs_redis.Text.{Text, codes}
use clientprefs_redis.Redis.Reply.{Reply, reply, end, status, string}
use clientprefs_redis.Query.Run.{Backend, returns}
use clientprefs_redis.Query.Keys.{get_client_cookies_sha}
use clientprefs_redis.Extension.Config.{Settings, ready, connect_db}
use clientprefs_redis.Extension.Config.Connected.{
  IsAccepted, IsLoadedScript, script_answer_at, connect_db_ready_iff,
}

record_of : List (List Text) → List Text → Option Reply × List (List Text)
record_of db [] = (none, db)
record_of db (verb ∷ args) = (
  some (
      if eq_text verb (codes "AUTH")
      then reply status end (codes "OK") (pos 0)
      else reply string end get_client_cookies_sha (pos 0)),
  db ++ (verb ∷ args) ∷ [],
)

abbrev recorder : Backend (List (List Text))
recorder = record { command = record_of; hash = λ s. 5 }

abbrev settings : Settings
settings = record {
  host = codes "127.0.0.1";
  port = 6379;
  max_timeout = 0;
  pass = codes "secret";
  dbid = pos 2;
  worker = pos 4;
  onlylua = true;
}

abbrev three_commands : List (List Text)
three_commands =
    (codes "AUTH" ∷ codes "secret" ∷ [])
    ∷ (codes "SELECT" ∷ codes "2" ∷ [])
    ∷ (codes "SCRIPT" ∷ codes "LOAD" ∷ codes "return 1" ∷ [])
    ∷ []

connect_db_ready_iff_example :
    (connect_db recorder settings (codes "return 1") [] ≡ returns (ready, three_commands)) ↔ (
      IsAccepted recorder (record_of [] (codes "AUTH" ∷ codes "secret" ∷ [])).0
      × IsLoadedScript recorder
          (script_answer_at recorder settings
            (codes "return 1")
            ((codes "AUTH" ∷ codes "secret" ∷ []) ∷ [])).0
      × ((script_answer_at recorder settings
            (codes "return 1")
            ((codes "AUTH" ∷ codes "secret" ∷ []) ∷ [])).1
          ≡ three_commands))
unfolding record_of eq_text
connect_db_ready_iff_example =
    connect_db_ready_iff recorder settings (codes "return 1") [] three_commands
