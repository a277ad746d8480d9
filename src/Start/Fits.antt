-- ===== src/Start/Fits.antt =====
-- The arrays of the configuration that src/main.c starts the threads with.
use cellmgr.Base.{
  ℕ, ◌-◌, ◌<◌, Bool, Option, none, some, inl, inr, arith, Bytes, codes, length, length-take,
  Option-cases,
}
use cellmgr.Config.Fields.{AppConfig}
use cellmgr.Config.Fits.{Fits, config_load-Fits}
use cellmgr.Config.Load.{config_load}
use cellmgr.System.{System}
use cellmgr.Db.Tables.{db_get_setting}
use cellmgr.Ofono.Resolve.{ofono_resolve_modem_path}
use cellmgr.Profile.Import.{given}
use cellmgr.Start.{
  text_or, restored, found_for, read_settings, restored_keys, restore_active, restore_settings,
  new_path, discover_modem, import_profile, start_config,
}

text_or-Fits :
    (size : ℕ) (dst : Bytes) (found : Option Bytes)
    → length dst < size
    → length (text_or size dst found) < size
text_or-Fits size dst none h = h
text_or-Fits size dst (some s) h = omega (arith, length-take {0} (size - 1) s)

restored-Fits :
    (found : Bytes → Option Bytes) (cfg : AppConfig) → Fits cfg → Fits (restored found cfg)
unfolding restored
restored-Fits found cfg h = omega (arith, text_or-Fits)

module _ {World : Type 0} (sys : System World) where
  restore_active-Fits : (cfg : AppConfig) (w : World) → Fits cfg → Fits (restore_active sys cfg w).0
  unfolding restore_active
  restore_active-Fits cfg w h =
      elim (Option-cases (given (db_get_setting sys (codes "active_profile") w).0)) [
        | inl e ↦ rw (e, restore_active) h
        | inr (id, e) ↦ rw (e, restore_active) (omega (arith, length-take {0} 127 id))
      ]

  discover_modem-Fits : (cfg : AppConfig) (w : World) → Fits cfg → Fits (discover_modem sys cfg w).0
  unfolding discover_modem
  discover_modem-Fits cfg w h =
      elim (Option-cases
        (new_path sys cfg (ofono_resolve_modem_path sys.run_capture cfg 128 w).0.0)) [
          | inl e ↦ rw (e, discover_modem) h
          | inr (path, e) ↦ rw (e, discover_modem) (omega (arith, length-take {0} 127 path))
        ]

  -- Whatever the configuration file and the database hold, and whatever oFono answers, the
  -- configuration that the threads start with fits its arrays.
  pub start_config-Fits :
      (is_file : Bool) (file : Option Bytes) (w : World)
      → Fits (start_config sys is_file (config_load file).1 w).0
  unfolding start_config
  start_config-Fits is_file file w =
      let cfg = (config_load file).1 in
      let w1 = import_profile sys is_file cfg w in
      let (cfg2, w2) = restore_active sys cfg w1 in
      let (cfg3, w3) = restore_settings sys cfg2 w2 in
      discover_modem-Fits cfg3 w3
        (settings-Fits cfg2 w2 (restore_active-Fits cfg w1 (config_load-Fits file).0))
    where
      settings-Fits : (cfg : AppConfig) (w : World) → Fits cfg → Fits (restore_settings sys cfg w).0
      settings-Fits cfg w h =
          unfold restore_settings in
          restored-Fits (found_for (read_settings sys restored_keys w).0) cfg h
