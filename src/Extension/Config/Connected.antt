-- ===== src/Extension/Config/Connected.antt =====
-- When `connectDb` of extension.cpp ends with a database that is ready.
use clientprefs_redis.Base.{
  ◌≡◌, ◌↔◌, refl, ap, ◌∙◌, Option, none, some, true, inl, inr, Bool-cases, eq_text→eq, eq_text_refl,
  arith,
}
use clientprefs_redis.Text.{Text}
use clientprefs_redis.Redis.Reply.{Reply, reply, is_status, get_string}
use clientprefs_redis.Query.Run.{Backend, returns, ◌>>=◌, ◌>>◌}
use clientprefs_redis.Query.Keys.{get_client_cookies_sha}
use clientprefs_redis.Extension.Config.{
  Settings, ready, auth_cmd, select_cmd, load_cmd, sha_answer, load_answer, auth_answer, connect_db,
}

module _ {Db : Type 0} (b : Backend Db) where
  -- SCRIPT LOAD is answered with the hash of the script.
  abbrev pub IsLoadedScript : Option Reply → Type 0
  IsLoadedScript o = (r : Reply) × (o ≡ some r) × (get_string r ≡ some get_client_cookies_sha)

  abbrev pub IsAccepted : Option Reply → Type 0
  IsAccepted o = (r : Reply) × (o ≡ some r) × (is_status r ≡ true)

  sha_answer_ready :
      (r : Reply) (db db' : Db)
      → sha_answer b r db ≡ returns (ready, db')
      → (get_string r ≡ some get_client_cookies_sha) × (db ≡ db')
  unfolding sha_answer get_string
  sha_answer_ready (reply type rows str n) db db' h =
      ground (arith, eq_text→eq str get_client_cookies_sha)

  ready_sha_answer :
      (r : Reply) (db : Db)
      → get_string r ≡ some get_client_cookies_sha
      → sha_answer b r db ≡ returns (ready, db)
  unfolding sha_answer get_string
  ready_sha_answer (reply type rows str n) db h =
      ground (arith, eq_text_refl get_client_cookies_sha)

  load_answer_ready :
      (o : Option Reply) (db db' : Db)
      → load_answer b o db ≡ returns (ready, db')
      → IsLoadedScript o × (db ≡ db')
  unfolding load_answer
  load_answer_ready none db db' h = cc
  load_answer_ready (some r) db db' h =
      let (loaded, same) = sha_answer_ready r db db' h in ((r, refl, loaded), same)

  module _ (settings : Settings) (script : Text) where
    -- The server after SELECT, and the answer to SCRIPT LOAD there.
    abbrev pub selected : Db → Db
    selected db = (b.command db (select_cmd b settings.dbid)).1

    abbrev pub script_answer_at : Db → Option Reply × Db
    script_answer_at db = b.command (selected db) (load_cmd b script)

    auth_answer_ready :
        (a : Option Reply) (db db' : Db)
        → auth_answer b settings script a db ≡ returns (ready, db')
        → IsAccepted a × IsLoadedScript (script_answer_at db).0 × ((script_answer_at db).1 ≡ db')
    unfolding auth_answer
    auth_answer_ready none db db' h = cc
    auth_answer_ready (some r) db db' h = elim (Bool-cases (is_status r)) [
      | inl accepted ↦
          let (loaded, same) =
            load_answer_ready (script_answer_at db).0 (script_answer_at db).1 db'
              (rw accepted at h) in
          ((r, refl, accepted), loaded, same)
      | inr refused ↦ cc (rw refused at h)
    ]

    ready_auth_answer :
        (a : Option Reply) (db : Db)
        → IsAccepted a
        → IsLoadedScript (script_answer_at db).0
        → auth_answer b settings script a db ≡ returns (ready, (script_answer_at db).1)
    unfolding auth_answer load_answer
    ready_auth_answer a db (r, e, accepted) (l, found, loaded) =
        rw (e, accepted, ◌>>=◌, ◌>>◌, found) (ready_sha_answer l (script_answer_at db).1 loaded)

    -- connectDb ends with a database that is ready exactly if AUTH is answered with a status and, after SELECT,
    -- SCRIPT LOAD with the hash by which the script is called later; then these three commands
    -- were sent, in this order, and no other.
    pub connect_db_ready_iff :
        (db db' : Db)
        → let answer : Option Reply × Db = b.command db (auth_cmd b settings.pass) in
          (connect_db b settings script db ≡ returns (ready, db')) ↔ (
            IsAccepted answer.0
            × IsLoadedScript (script_answer_at answer.1).0
            × ((script_answer_at answer.1).1 ≡ db'))
    unfolding connect_db
    connect_db_ready_iff db db' =
        let answer : Option Reply × Db = b.command db (auth_cmd b settings.pass) in
        (
          λ h. auth_answer_ready answer.0 answer.1 db' h,
          λ (accepted, loaded, same).
              ready_auth_answer answer.0 answer.1 accepted loaded
              ∙ ap (λ d. returns (ready, d)) same,
        )
