-- ===== src/Db/Open.antt =====
-- `ensure_parent_dir`, `exec_sql`, `db_open`, `db_init_schema` and `db_close` of src/db.c.
pub mod Parents
use cellmgr.Base.{
  ℕ, zero, suc, ◌-◌, Bool, true, false, not, ◌&&◌, List, [], ◌∷◌, ◌++◌, Option, none, some, ◌==◌,
  if◌then◌else◌, Bytes, codes, length, take, drop,
}
use cellmgr.Libc.Text.{str_eq, strchr, take_while, is_nil, truncate}
use cellmgr.System.{Prog}

-- `strrchr(s, b)`, and `*slash = '\0'`: what stands in front of the last `b`, none without one.
unfoldable pub before_last : ℕ → Bytes → Option Bytes
before_last b [] = none
before_last b (c ∷ s) = elim (before_last b s) [
  | some front ↦ some (c ∷ front)
  | none ↦ if c == b then some [] else none
]

-- `strncat(cur, s, sizeof(cur) - strlen(cur) - 1)`
abbrev pub concat : Bytes → Bytes → Bytes
concat cur s = cur ++ take (511 - length cur) s

-- `cur` with the slash that a further name needs.
unfoldable pub with_slash : Bytes → Bytes
unfolding str_eq
with_slash cur =
    if not (is_nil cur) && not (str_eq cur (codes "/")) then concat cur (codes "/") else cur

-- The arguments of `mkdir` in the loop at `p`, in order; a round that goes on leaves a shorter text.
unfoldable pub parents_from : ℕ → Bytes → Bytes → List Bytes
unfolding with_slash strchr take_while
parents_from zero cur p = []
parents_from (suc fuel) cur [] = []
parents_from (suc fuel) cur (c ∷ p) =
    let next_cur = concat (with_slash cur) (take_while (λ b. not (b == b'/')) (c ∷ p)) in
    elim (strchr (c ∷ p) b'/') [
      | none ↦ next_cur ∷ []
      | some next ↦ next_cur ∷ parents_from fuel next_cur (drop 1 next)
    ]

abbrev pub parents_of : Option Bytes → List Bytes
parents_of none = []
parents_of (some []) = []
parents_of (some (c ∷ p)) =
    if c == b'/'
    then parents_from (suc (length p)) (codes "/") p
    else parents_from (suc (suc (length p))) [] (c ∷ p)

-- The directories that `ensure_parent_dir` makes.
unfoldable pub ensure_parent_dir : Bytes → List Bytes
unfolding before_last parents_from
ensure_parent_dir path = parents_of (before_last b'/' (truncate 512 path))

-- `mkdir` with mode 0755, and SQLite as it is opened, used and closed.
pub record Opening (World : Type 0) : Type 0 where
  pub mkdir : Bytes → World → World
  pub sqlite3_open : Bytes → Prog World Bool
  pub sqlite3_busy_timeout : ℕ → World → World
  pub sqlite3_exec : Bytes → Prog World Bool
  pub sqlite3_close : World → World

unfoldable pub schema_sql : Bytes
schema_sql =
    codes "PRAGMA journal_mode=WAL;"
    ++ codes "CREATE TABLE IF NOT EXISTS settings ("
    ++ codes " key TEXT PRIMARY KEY,"
    ++ codes " value TEXT NOT NULL,"
    ++ codes " updated_at INTEGER NOT NULL"
    ++ codes ");"
    ++ codes "CREATE TABLE IF NOT EXISTS device_profiles ("
    ++ codes " id TEXT PRIMARY KEY,"
    ++ codes " name TEXT NOT NULL,"
    ++ codes " json TEXT NOT NULL,"
    ++ codes " updated_at INTEGER NOT NULL"
    ++ codes ");"
    ++ codes "CREATE TABLE IF NOT EXISTS capability_cache ("
    ++ codes " profile_id TEXT NOT NULL,"
    ++ codes " capability TEXT NOT NULL,"
    ++ codes " modem_path TEXT NOT NULL,"
    ++ codes " raw_response TEXT NOT NULL,"
    ++ codes " parsed_json TEXT NOT NULL,"
    ++ codes " updated_at INTEGER NOT NULL,"
    ++ codes " ttl_sec INTEGER NOT NULL,"
    ++ codes " PRIMARY KEY (profile_id, capability, modem_path)"
    ++ codes ");"
    ++ codes "CREATE TABLE IF NOT EXISTS at_history ("
    ++ codes " id INTEGER PRIMARY KEY AUTOINCREMENT,"
    ++ codes " command TEXT NOT NULL,"
    ++ codes " response TEXT NOT NULL,"
    ++ codes " exit_code INTEGER NOT NULL,"
    ++ codes " created_at INTEGER NOT NULL"
    ++ codes ");"
    ++ codes "CREATE TABLE IF NOT EXISTS sms_messages ("
    ++ codes " id INTEGER PRIMARY KEY AUTOINCREMENT,"
    ++ codes " modem_index INTEGER,"
    ++ codes " sender TEXT,"
    ++ codes " receiver TEXT,"
    ++ codes " body TEXT,"
    ++ codes " status TEXT,"
    ++ codes " raw TEXT,"
    ++ codes " created_at INTEGER NOT NULL,"
    ++ codes " forwarded_at INTEGER"
    ++ codes ");"
    ++ codes "CREATE TABLE IF NOT EXISTS tasks ("
    ++ codes " id INTEGER PRIMARY KEY AUTOINCREMENT,"
    ++ codes " type TEXT NOT NULL,"
    ++ codes " payload TEXT NOT NULL,"
    ++ codes " status TEXT NOT NULL,"
    ++ codes " run_at INTEGER,"
    ++ codes " created_at INTEGER NOT NULL,"
    ++ codes " updated_at INTEGER NOT NULL"
    ++ codes ");"
    ++ codes "CREATE TABLE IF NOT EXISTS dbus_events ("
    ++ codes " id INTEGER PRIMARY KEY AUTOINCREMENT,"
    ++ codes " source TEXT NOT NULL,"
    ++ codes " line TEXT NOT NULL,"
    ++ codes " created_at INTEGER NOT NULL"
    ++ codes ");"

module _ {World : Type 0} (db : Opening World) where
  unfoldable pub make_dirs : List Bytes → World → World
  make_dirs [] w = w
  make_dirs (path ∷ paths) w = make_dirs paths (db.mkdir path w)

  -- Whether 0 is returned, here and below.
  unfoldable pub exec_sql : Bytes → Prog World Bool
  exec_sql sql w = db.sqlite3_exec sql w

  unfoldable pub db_open : Bytes → Prog World Bool
  unfolding make_dirs ensure_parent_dir
  db_open path w =
      let (ok, w1) = db.sqlite3_open path (make_dirs (ensure_parent_dir path) w) in
      if ok then (true, db.sqlite3_busy_timeout 3000 w1) else (false, w1)

  unfoldable pub db_init_schema : Prog World Bool
  unfolding exec_sql schema_sql
  db_init_schema w = exec_sql schema_sql w

  -- `db_close` of a connection.
  unfoldable pub db_close : World → World
  db_close w = db.sqlite3_close w
