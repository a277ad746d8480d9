-- ===== src/Db/Lists.antt =====
-- The lists of src/db.c in JSON. `none` where NULL is returned.
use cellmgr.Base.{
  ℕ, Bool, true, false, ◌||◌, [], ◌∷◌, ◌++◌, map, Option, none, some, if◌then◌else◌, Bytes, codes,
}
use cellmgr.Base.Int.{ℤ, pos, leb_ℤ, ltb_ℤ, to_int}
use cellmgr.Libc.Text.{str_eq}
use cellmgr.Json.Escape.{json_prop_string, json_prop_int}
use cellmgr.Parsers.Quoted.{comma_separated}
use cellmgr.System.{int, Row, Reply, refused, stepped, System, Prog}
use cellmgr.Db.Statements.{list_profiles_sql, list_history_sql, list_events_sql}

-- A NULL of `sqlite3_column_text` is the empty text for `json_prop_string`.
abbrev column : Row → ℕ → Bytes
column row i = elim (row.text_of i) [ none ↦ [] | some t ↦ t ]

-- `active_profile && id && strcmp(active_profile, id) == 0`
abbrev is_active : Bytes → Option Bytes → Bool
is_active active_profile none = false
is_active active_profile (some id) = str_eq active_profile id

unfoldable pub profile_item : Bytes → Row → Bytes
unfolding json_prop_string json_prop_int str_eq
profile_item active_profile row =
    codes "{"
    ++ json_prop_string (codes "id") (column row 0) false
    ++ json_prop_string (codes "name") (column row 1) true
    ++ json_prop_int (codes "updated_at") (row.int_of 2) true
    ++ codes ",\"active\":"
    ++ (if is_active active_profile (row.text_of 0) then codes "true" else codes "false")
    ++ codes "}"

unfoldable pub history_item : Row → Bytes
unfolding json_prop_string json_prop_int to_int
history_item row =
    codes "{"
    ++ json_prop_int (codes "id") (row.int_of 0) false
    ++ json_prop_string (codes "command") (column row 1) true
    ++ json_prop_string (codes "response") (column row 2) true
    ++ json_prop_int (codes "exit_code") (to_int (row.int_of 3)) true
    ++ json_prop_int (codes "created_at") (row.int_of 4) true
    ++ codes "}"

unfoldable pub event_item : Row → Bytes
unfolding json_prop_string json_prop_int
event_item row =
    codes "{"
    ++ json_prop_int (codes "id") (row.int_of 0) false
    ++ json_prop_string (codes "source") (column row 1) true
    ++ json_prop_string (codes "line") (column row 2) true
    ++ json_prop_int (codes "created_at") (row.int_of 3) true
    ++ codes "}"

-- The loop over the rows that `SQLITE_ROW` announces.
abbrev list_rows : Bytes → (Row → Bytes) → Reply → Option Bytes
list_rows head item refused = none
list_rows head item (stepped rows ends) =
    some (head ++ comma_separated (map item rows) ++ codes "]}")

-- The limit of a list: the default for what is out of range.
unfoldable pub list_limit : ℤ → ℤ → ℤ → ℤ
list_limit most default limit = if leb_ℤ limit (pos 0) || ltb_ℤ most limit then default else limit

module _ {World : Type 0} (sys : System World) where
  unfoldable pub db_list_profiles_json : Bytes → Prog World (Option Bytes)
  unfolding profile_item comma_separated
  db_list_profiles_json active_profile w =
      let (reply, w1) = sys.sql list_profiles_sql [] w in
      (list_rows (codes "{\"profiles\":[") (profile_item active_profile) reply, w1)

  unfoldable pub db_list_at_history_json : ℤ → Prog World (Option Bytes)
  unfolding history_item comma_separated list_limit
  db_list_at_history_json limit w =
      let (reply, w1) =
        sys.sql list_history_sql (int (list_limit (pos 100) (pos 30) limit) ∷ []) w in
      (list_rows (codes "{\"items\":[") history_item reply, w1)

  unfoldable pub db_list_dbus_events_json : ℤ → Prog World (Option Bytes)
  unfolding event_item comma_separated list_limit
  db_list_dbus_events_json limit w =
      let (reply, w1) =
        sys.sql list_events_sql (int (list_limit (pos 200) (pos 50) limit) ∷ []) w in
      (list_rows (codes "{\"items\":[") event_item reply, w1)
