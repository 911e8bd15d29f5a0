-- ===== src/Query/Run.antt =====
-- A query runs on its thread against the server, may leave an exception uncaught, and may run into
-- undefined behaviour.
use clientprefs_redis.Base.{ℕ, List, Option, none, some}
use clientprefs_redis.Text.{Text}
use clientprefs_redis.Redis.Reply.{Reply}

pub data Outcome (A : Type 0) : Type 0 where
  returns : A → Outcome A
  throws : Outcome A
  faults : Outcome A

-- The server with the connection to it, and std::hash<std::string>, which each library chooses. A
-- command is answered, or `none` where the worker of the client hands out a null pointer.
pub record Backend (Db : Type 0) : Type 0 where
  pub command : Db → List Text → Option Reply × Db
  pub hash : Text → ℕ

abbrev pub Run : Type 0 → Type 0 → Type 0
Run Db A = Db → Outcome (A × Db)

module _ {Db A B : Type 0} where
  infixl 5 ◌>>=◌ ◌>>◌
  abbrev pub ◌>>=◌ : Run Db A → (A → Run Db B) → Run Db B
  ◌>>=◌ m f db = elim (m db) [ returns (a, db') ↦ f a db' | throws ↦ throws | faults ↦ faults ]

  abbrev pub ◌>>◌ : Run Db A → Run Db B → Run Db B
  m >> k = m >>= λ _. k

module _ {Db A : Type 0} where
  abbrev pub pure : A → Run Db A
  pure a db = returns (a, db)

  -- A null pointer is followed.
  abbrev pub follow : Option A → Run Db A
  follow none db = faults
  follow (some a) db = returns (a, db)

  -- The value, or the exception.
  abbrev pub or_throw : Option A → Run Db A
  or_throw none db = throws
  or_throw (some a) db = returns (a, db)

module _ {Db : Type 0} (b : Backend Db) where
  -- m_database->Command(cmd).get()
  abbrev pub command : List Text → Run Db (Option Reply)
  command cmd db = returns (b.command db cmd)

  -- m_database->Append(cmd), whose answer nobody takes, with the Commit that follows.
  abbrev pub append : List Text → Run Db Unit
  append cmd db = returns (tt, (b.command db cmd).1)
