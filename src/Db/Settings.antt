-- ===== src/Db/Settings.antt =====
-- What the functions of src/db.c for settings do, as SQLite is assumed to work.
use cellmgr.Base.{true, ◌≡◌, Bytes}
use cellmgr.System.{System}
use cellmgr.Db.Tables.{db_set_setting, db_get_setting}
use cellmgr.Db.Lawful.{Tables, IsLawful, put_setting}

module _ {World : Type 0} (sys : System World) (tables : World → Tables)
    (lawful : IsLawful sys tables) where
  pub db_set_setting_lem :
      (key value : Bytes) (w : World)
      → (((db_set_setting sys key value w).0 ≡ true)
          × (tables (db_set_setting sys key value w).1 ≡ put_setting key value (tables w)))
  unfolding db_set_setting
  db_set_setting_lem key value w = lawful.set_setting key value (sys.now_unix w) w

  pub db_get_setting_lem :
      (key : Bytes) (w : World)
      → (((db_get_setting sys key w).0 ≡ (tables w).setting key)
          × (tables (db_get_setting sys key w).1 ≡ tables w))
  unfolding db_get_setting
  db_get_setting_lem key w = lawful.get_setting key w
