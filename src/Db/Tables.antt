-- ===== src/Db/Tables.antt =====
-- Settings, profiles, the cache of capabilities, and the inserts of history and events in src/db.c.
-- The flag of a write is whether 0 is returned.
use cellmgr.Base.{Bool, true, false, List, [], ◌∷◌, Option, none, if◌then◌else◌, Bytes}
use cellmgr.Base.Int.{ℤ}
use cellmgr.System.{Value, text, int, Reply, refused, stepped, System, Prog}
use cellmgr.Db.Statements.{
  set_setting_sql, get_setting_sql, upsert_profile_sql, get_profile_sql, profile_exists_sql,
  delete_profile_sql, delete_cache_sql, insert_history_sql, insert_event_sql, put_cache_sql,
  get_cache_sql,
}

-- `sqlite3_step(st) == SQLITE_DONE`, of a statement that was prepared.
abbrev pub is_done : Reply → Bool
is_done refused = false
is_done (stepped [] ends) = ends
is_done (stepped (row ∷ rows) ends) = false

-- Column 0 of the first row.
abbrev pub first_text : Reply → Option Bytes
first_text refused = none
first_text (stepped [] ends) = none
first_text (stepped (row ∷ rows) ends) = row.text_of 0

-- `sqlite3_step(st) == SQLITE_ROW`
abbrev pub has_row : Reply → Bool
has_row refused = false
has_row (stepped [] ends) = false
has_row (stepped (row ∷ rows) ends) = true

module _ {World : Type 0} (sys : System World) where
  abbrev execute : Bytes → List Value → Prog World Bool
  execute sql values w = let (reply, w1) = sys.sql sql values w in (is_done reply, w1)

  abbrev select_text : Bytes → List Value → Prog World (Option Bytes)
  select_text sql values w = let (reply, w1) = sys.sql sql values w in (first_text reply, w1)

  unfoldable pub db_set_setting : Bytes → Bytes → Prog World Bool
  db_set_setting key value w =
      execute set_setting_sql (text key ∷ text value ∷ int (sys.now_unix w) ∷ []) w

  unfoldable pub db_get_setting : Bytes → Prog World (Option Bytes)
  db_get_setting key w = select_text get_setting_sql (text key ∷ []) w

  unfoldable pub db_upsert_profile : Bytes → Bytes → Bytes → Prog World Bool
  db_upsert_profile profile_id name json w =
      execute upsert_profile_sql
        (text profile_id ∷ text name ∷ text json ∷ int (sys.now_unix w) ∷ []) w

  unfoldable pub db_get_profile_json : Bytes → Prog World (Option Bytes)
  db_get_profile_json profile_id w = select_text get_profile_sql (text profile_id ∷ []) w

  unfoldable pub db_profile_exists : Bytes → Prog World Bool
  db_profile_exists profile_id w =
      let (reply, w1) = sys.sql profile_exists_sql (text profile_id ∷ []) w in (has_row reply, w1)

  -- The second statement runs only if the first one is done.
  unfoldable pub db_delete_profile : Bytes → Prog World Bool
  db_delete_profile profile_id w =
      let (deleted, w1) = execute delete_profile_sql (text profile_id ∷ []) w in
      if deleted then execute delete_cache_sql (text profile_id ∷ []) w1 else (false, w1)

  unfoldable pub db_insert_at_history : Bytes → Bytes → ℤ → Prog World Bool
  db_insert_at_history command response exit_code w =
      execute insert_history_sql
        (text command ∷ text response ∷ int exit_code ∷ int (sys.now_unix w) ∷ []) w

  unfoldable pub db_insert_dbus_event : Bytes → Bytes → Prog World Bool
  db_insert_dbus_event source line w =
      execute insert_event_sql (text source ∷ text line ∷ int (sys.now_unix w) ∷ []) w

  unfoldable pub db_put_capability_cache :
      Bytes → Bytes → Bytes → Bytes → Bytes → ℤ → Prog World Bool
  db_put_capability_cache profile_id capability modem_path raw_response parsed_json ttl_sec w =
      execute put_cache_sql
        (text profile_id
          ∷ text capability
          ∷ text modem_path
          ∷ text raw_response
          ∷ text parsed_json
          ∷ int (sys.now_unix w)
          ∷ int ttl_sec
          ∷ [])
        w

  unfoldable pub db_get_capability_cache : Bytes → Bytes → Bytes → Prog World (Option Bytes)
  db_get_capability_cache profile_id capability modem_path w =
      select_text get_cache_sql
        (text profile_id ∷ text capability ∷ text modem_path ∷ int (sys.now_unix w) ∷ []) w
