-- ===== src/Start.antt =====
-- src/main.c between the opening of the database and the start of the threads: the active profile and
-- the settings that the database holds, and the modem that oFono names.
use cellmgr.Base.{
  ℕ, Bool, true, false, not, ◌&&◌, ◌||◌, List, [], ◌∷◌, ◌++◌, Option, none, some, if◌then◌else◌,
  Bytes, codes,
}
use cellmgr.Base.Int.{ℤ}
use cellmgr.Libc.Text.{is_nil, str_eq, truncate}
use cellmgr.Libc.Number.{atoi}
use cellmgr.Config.Fields.{AppConfig}
use cellmgr.Command.Capture.{CommandResult}
use cellmgr.Ofono.Resolve.{ofono_resolve_modem_path}
use cellmgr.System.{System, Prog}
use cellmgr.Db.Tables.{db_get_setting, db_set_setting}
use cellmgr.Profile.Import.{given, profile_import_file}
pub mod Settings
pub mod Next
pub mod Fits
pub mod Main

-- `CELLMGR_DEFAULT_PROFILE`
abbrev pub default_profile : Bytes
default_profile = codes "./profiles/fm650.json"

-- The loop from argument 1 on, in front of which `argv` is cut.
unfoldable pub arg_value : List Bytes → Bytes → Option Bytes
unfolding str_eq
arg_value [] name = none
arg_value (a ∷ []) name = none
arg_value (a ∷ b ∷ rest) name =
    let later = arg_value (b ∷ rest) name in if str_eq a name then some b else later

-- `if (s) n = atoi(s);` and `if (s) snprintf(dst, size, "%s", s);`
abbrev pub number_or : ℤ → Option Bytes → ℤ
number_or n none = n
number_or n (some s) = atoi s

abbrev pub text_or : ℕ → Bytes → Option Bytes → Bytes
text_or size dst none = dst
text_or size dst (some s) = truncate size s

-- The settings by their keys, from the reads in order.
unfoldable pub restored : (Bytes → Option Bytes) → AppConfig → AppConfig
unfolding atoi
restored found cfg = record cfg {
  scheduled_reboot_enabled =
      number_or cfg.scheduled_reboot_enabled (found (codes "scheduled_reboot_enabled"));
  scheduled_reboot_hour =
      number_or cfg.scheduled_reboot_hour (found (codes "scheduled_reboot_hour"));
  scheduled_reboot_minute =
      number_or cfg.scheduled_reboot_minute (found (codes "scheduled_reboot_minute"));
  sms_forward_enabled = number_or cfg.sms_forward_enabled (found (codes "sms_forward_enabled"));
  sms_forward_mode = text_or 32 cfg.sms_forward_mode (found (codes "sms_forward_mode"));
  smtp_host = text_or 128 cfg.smtp_host (found (codes "smtp_host"));
  smtp_port = number_or cfg.smtp_port (found (codes "smtp_port"));
  smtp_user = text_or 128 cfg.smtp_user (found (codes "smtp_user"));
  smtp_pass = text_or 128 cfg.smtp_pass (found (codes "smtp_pass"));
  smtp_from = text_or 128 cfg.smtp_from (found (codes "smtp_from"));
  smtp_to = text_or 128 cfg.smtp_to (found (codes "smtp_to"));
  sms_webhook_url = text_or 256 cfg.sms_webhook_url (found (codes "sms_webhook_url"));
  ofono_modem_path = text_or 128 cfg.ofono_modem_path (found (codes "ofono_modem_path"));
  wan_iface = text_or 64 cfg.wan_iface (found (codes "wan_iface"));
  at_timeout_ms = number_or cfg.at_timeout_ms (found (codes "at_timeout_ms"));
  allow_dangerous_at = number_or cfg.allow_dangerous_at (found (codes "allow_dangerous_at"));
  auth_user = text_or 64 cfg.auth_user (found (codes "auth_user"));
  auth_pass = text_or 128 cfg.auth_pass (found (codes "auth_pass"));
}

abbrev pub restored_keys : List Bytes
restored_keys =
    codes "scheduled_reboot_enabled"
    ∷ codes "scheduled_reboot_hour"
    ∷ codes "scheduled_reboot_minute"
    ∷ codes "sms_forward_enabled"
    ∷ codes "sms_forward_mode"
    ∷ codes "smtp_host"
    ∷ codes "smtp_port"
    ∷ codes "smtp_user"
    ∷ codes "smtp_pass"
    ∷ codes "smtp_from"
    ∷ codes "smtp_to"
    ∷ codes "sms_webhook_url"
    ∷ codes "ofono_modem_path"
    ∷ codes "wan_iface"
    ∷ codes "at_timeout_ms"
    ∷ codes "allow_dangerous_at"
    ∷ codes "auth_user"
    ∷ codes "auth_pass"
    ∷ []

-- What was read for each key, as a function of the key.
abbrev pub found_for : List (Bytes × Option Bytes) → Bytes → Option Bytes
found_for [] key = none
found_for ((k, found) ∷ rest) key = if str_eq k key then found else found_for rest key

module _ {World : Type 0} (sys : System World) where
  -- The two imports of the profile in the file; `is_file` is `access` of `./fm650.json`.
  unfoldable pub import_profile : Bool → AppConfig → World → World
  unfolding profile_import_file str_eq
  import_profile is_file cfg w =
      let (ok, w1) = profile_import_file sys cfg.profile_path cfg.active_profile w in
      if not ok && str_eq cfg.profile_path default_profile && is_file
      then (profile_import_file sys (codes "./fm650.json") cfg.active_profile w1).1
      else w1

  unfoldable pub restore_active : AppConfig → Prog World AppConfig
  unfolding db_get_setting db_set_setting
  restore_active cfg w =
      let (active, w1) = db_get_setting sys (codes "active_profile") w in
      elim (given active) [
        | some id ↦ (record cfg { active_profile = truncate 128 id }, w1)
        | none ↦ (cfg, (db_set_setting sys (codes "active_profile") cfg.active_profile w1).1)
      ]

  unfoldable pub read_settings : List Bytes → Prog World (List (Bytes × Option Bytes))
  unfolding db_get_setting
  read_settings [] w = ([], w)
  read_settings (key ∷ keys) w =
      let (found, w1) = db_get_setting sys key w in
      let (others, w2) = read_settings keys w1 in ((key, found) ∷ others, w2)

  unfoldable pub restore_settings : AppConfig → Prog World AppConfig
  unfolding read_settings restored str_eq
  restore_settings cfg w =
      let (found, w1) = read_settings restored_keys w in (restored (found_for found) cfg, w1)

  -- Another path than the one in use, if one was found.
  abbrev pub new_path : AppConfig → Option Bytes → Option Bytes
  new_path cfg none = none
  new_path cfg (some path) =
      if not (is_nil path) && not (str_eq path cfg.ofono_modem_path) then some path else none

  unfoldable pub discover_modem : AppConfig → Prog World AppConfig
  unfolding ofono_resolve_modem_path str_eq db_set_setting
  discover_modem cfg w =
      let ((resolved_modem, modems_res), w1) = ofono_resolve_modem_path sys.run_capture cfg 128 w in
      elim (new_path cfg resolved_modem) [
        | none ↦ (cfg, w1)
        | some path ↦
            let cfg1 = record cfg { ofono_modem_path = truncate 128 path } in
            (cfg1, (db_set_setting sys (codes "ofono_modem_path") cfg1.ofono_modem_path w1).1)
      ]

  -- From the configuration of the file to the one that the threads start with.
  unfoldable pub start_config : Bool → AppConfig → Prog World AppConfig
  unfolding import_profile restore_active restore_settings discover_modem
  start_config is_file cfg w =
      let w1 = import_profile is_file cfg w in
      let (cfg2, w2) = restore_active cfg w1 in
      let (cfg3, w3) = restore_settings cfg2 w2 in discover_modem cfg3 w3
