-- ===== src/Db/Statements.antt =====
-- The texts of the statements in src/db.c.
use cellmgr.Base.{◌++◌, Bytes, codes}

abbrev pub set_setting_sql : Bytes
set_setting_sql =
    codes "INSERT INTO settings(key,value,updated_at) VALUES(?,?,?) "
    ++ codes "ON CONFLICT(key) DO UPDATE SET value=excluded.value,updated_at=excluded.updated_at"

abbrev pub get_setting_sql : Bytes
get_setting_sql = codes "SELECT value FROM settings WHERE key=?"

abbrev pub upsert_profile_sql : Bytes
upsert_profile_sql =
    codes "INSERT INTO device_profiles(id,name,json,updated_at) VALUES(?,?,?,?) "
    ++ codes
        "ON CONFLICT(id) DO UPDATE SET name=excluded.name,json=excluded.json,updated_at=excluded.updated_at"

abbrev pub get_profile_sql : Bytes
get_profile_sql = codes "SELECT json FROM device_profiles WHERE id=?"

abbrev pub list_profiles_sql : Bytes
list_profiles_sql = codes "SELECT id,name,updated_at FROM device_profiles ORDER BY name,id"

abbrev pub profile_exists_sql : Bytes
profile_exists_sql = codes "SELECT 1 FROM device_profiles WHERE id=?"

abbrev pub delete_profile_sql : Bytes
delete_profile_sql = codes "DELETE FROM device_profiles WHERE id=?"

abbrev pub delete_cache_sql : Bytes
delete_cache_sql = codes "DELETE FROM capability_cache WHERE profile_id=?"

abbrev pub insert_history_sql : Bytes
insert_history_sql =
    codes "INSERT INTO at_history(command,response,exit_code,created_at) VALUES(?,?,?,?)"

abbrev pub list_history_sql : Bytes
list_history_sql =
    codes "SELECT id,command,response,exit_code,created_at FROM at_history "
    ++ codes "ORDER BY id DESC LIMIT ?"

abbrev pub insert_event_sql : Bytes
insert_event_sql = codes "INSERT INTO dbus_events(source,line,created_at) VALUES(?,?,?)"

abbrev pub list_events_sql : Bytes
list_events_sql = codes "SELECT id,source,line,created_at FROM dbus_events ORDER BY id DESC LIMIT ?"

abbrev pub put_cache_sql : Bytes
put_cache_sql =
    codes
      "INSERT INTO capability_cache(profile_id,capability,modem_path,raw_response,parsed_json,updated_at,ttl_sec) "
    ++ codes "VALUES(?,?,?,?,?,?,?) "
    ++ codes "ON CONFLICT(profile_id,capability,modem_path) DO UPDATE SET "
    ++ codes "raw_response=excluded.raw_response,parsed_json=excluded.parsed_json,"
    ++ codes "updated_at=excluded.updated_at,ttl_sec=excluded.ttl_sec"

abbrev pub get_cache_sql : Bytes
get_cache_sql =
    codes "SELECT parsed_json FROM capability_cache "
    ++ codes "WHERE profile_id=? AND capability=? AND modem_path=? "
    ++ codes "AND updated_at + ttl_sec >= ?"
