-- ===== src/Http/Settings.antt =====
-- The handlers of src/http.c for settings, the account and the reboots.
use cellmgr.Base.{
  ℕ, Bool, true, false, not, ◌||◌, List, [], ◌∷◌, ◌++◌, Option, none, some, if◌then◌else◌, Bytes,
  codes,
}
use cellmgr.Base.Int.{ℤ, pos, eqb_ℤ, ltb_ℤ}
use cellmgr.Libc.Text.{truncate}
use cellmgr.Libc.Number.{show_int}
use cellmgr.Json.Escape.{json_prop_string, json_prop_int}
use cellmgr.Json.Lookup.{json_get_string, json_get_int}
use cellmgr.Config.Fields.{AppConfig}
use cellmgr.Command.Capture.{CommandResult}
use cellmgr.System.{System, Prog}
use cellmgr.Db.Tables.{db_set_setting}
use cellmgr.Profile.Import.{given}
use cellmgr.Http.State.{AppState, response_json_body, success, failure, command_answer, streams}
use cellmgr.Http.Modem.{confirmed}

unfoldable pub settings_text : AppConfig → Bytes
unfolding json_prop_string json_prop_int
settings_text cfg =
    codes "{"
    ++ json_prop_string (codes "listen_host") cfg.listen_host false
    ++ json_prop_int (codes "listen_port") cfg.listen_port true
    ++ json_prop_string (codes "db_path") cfg.db_path true
    ++ json_prop_string (codes "active_profile") cfg.active_profile true
    ++ json_prop_string (codes "ofono_modem_path") cfg.ofono_modem_path true
    ++ json_prop_string (codes "wan_iface") cfg.wan_iface true
    ++ json_prop_int (codes "at_timeout_ms") cfg.at_timeout_ms true
    ++ json_prop_int (codes "allow_dangerous_at") cfg.allow_dangerous_at true
    ++ json_prop_string (codes "at_backend") cfg.at_backend true
    ++ json_prop_int (codes "auth_enabled") cfg.auth_enabled true
    ++ json_prop_int (codes "scheduled_reboot_enabled") cfg.scheduled_reboot_enabled true
    ++ json_prop_int (codes "scheduled_reboot_hour") cfg.scheduled_reboot_hour true
    ++ json_prop_int (codes "scheduled_reboot_minute") cfg.scheduled_reboot_minute true
    ++ json_prop_int (codes "sms_forward_enabled") cfg.sms_forward_enabled true
    ++ json_prop_string (codes "sms_forward_mode") cfg.sms_forward_mode true
    ++ json_prop_string (codes "smtp_host") cfg.smtp_host true
    ++ json_prop_int (codes "smtp_port") cfg.smtp_port true
    ++ json_prop_string (codes "smtp_user") cfg.smtp_user true
    ++ json_prop_string (codes "smtp_from") cfg.smtp_from true
    ++ json_prop_string (codes "smtp_to") cfg.smtp_to true
    ++ json_prop_string (codes "sms_webhook_url") cfg.sms_webhook_url true
    ++ codes "}"

unfoldable pub api_settings : AppConfig → Bytes
unfolding settings_text response_json_body
api_settings cfg = success (settings_text cfg)

unfoldable pub reboot_text : CommandResult → Bytes
unfolding json_prop_string json_prop_int response_json_body
reboot_text res =
    command_answer res (
      codes "{"
      ++ json_prop_int (codes "exit_code") res.exit_code false
      ++ streams res
      ++ codes "}")

abbrev pub flag : Bool → ℤ
flag enabled = if enabled then pos 1 else pos 0

unfoldable pub scheduled_text : Bool → ℤ → ℤ → Bytes
unfolding json_prop_int
scheduled_text enabled hour minute =
    codes "{"
    ++ json_prop_int (codes "enabled") (flag enabled) false
    ++ json_prop_int (codes "hour") hour true
    ++ json_prop_int (codes "minute") minute true
    ++ codes "}"

-- `hour < 0 || hour > 23 || minute < 0 || minute > 59`
unfoldable pub bad_time : ℤ → ℤ → Bool
bad_time hour minute =
    ltb_ℤ hour (pos 0) || ltb_ℤ (pos 23) hour || ltb_ℤ minute (pos 0) || ltb_ℤ (pos 59) minute

unfoldable pub schedule : Bool → ℤ → ℤ → AppState → AppState
schedule enabled hour minute state = record state {
  cfg = record state.cfg {
    scheduled_reboot_enabled = flag enabled;
    scheduled_reboot_hour = hour;
    scheduled_reboot_minute = minute;
  };
}

-- `cfg_set_string`, which leaves `dst` as it is for a null pointer.
unfoldable pub cfg_set_string : Bytes → ℕ → Option Bytes → Bytes
cfg_set_string dst dst_sz none = dst
cfg_set_string dst dst_sz (some value) = truncate dst_sz value

-- The assignments of `api_system_settings_save`.
unfoldable pub settings_from : Bytes → AppConfig → AppConfig
unfolding json_get_string json_get_int cfg_set_string
settings_from body cfg = record cfg {
  sms_forward_enabled = json_get_int body (codes "sms_forward_enabled") cfg.sms_forward_enabled;
  smtp_port = json_get_int body (codes "smtp_port") cfg.smtp_port;
  at_timeout_ms = json_get_int body (codes "at_timeout_ms") cfg.at_timeout_ms;
  allow_dangerous_at = json_get_int body (codes "allow_dangerous_at") cfg.allow_dangerous_at;
  sms_forward_mode =
      cfg_set_string cfg.sms_forward_mode 32 (json_get_string body (codes "sms_forward_mode"));
  smtp_host = cfg_set_string cfg.smtp_host 128 (json_get_string body (codes "smtp_host"));
  smtp_user = cfg_set_string cfg.smtp_user 128 (json_get_string body (codes "smtp_user"));
  smtp_pass = cfg_set_string cfg.smtp_pass 128 (json_get_string body (codes "smtp_pass"));
  smtp_from = cfg_set_string cfg.smtp_from 128 (json_get_string body (codes "smtp_from"));
  smtp_to = cfg_set_string cfg.smtp_to 128 (json_get_string body (codes "smtp_to"));
  sms_webhook_url =
      cfg_set_string cfg.sms_webhook_url 256 (json_get_string body (codes "sms_webhook_url"));
  ofono_modem_path =
      cfg_set_string cfg.ofono_modem_path 128 (json_get_string body (codes "ofono_modem_path"));
  wan_iface = cfg_set_string cfg.wan_iface 64 (json_get_string body (codes "wan_iface"));
}

-- `snprintf(v, sizeof(v), "%d", n)`
abbrev number : ℤ → Bytes
number n = truncate 32 (show_int n)

-- The settings that are stored after it, in order.
unfoldable pub stored_settings : AppConfig → List (Bytes × Bytes)
unfolding show_int
stored_settings cfg =
    (codes "sms_forward_enabled", number cfg.sms_forward_enabled)
    ∷ (codes "sms_forward_mode", cfg.sms_forward_mode)
    ∷ (codes "smtp_host", cfg.smtp_host)
    ∷ (codes "smtp_port", number cfg.smtp_port)
    ∷ (codes "smtp_user", cfg.smtp_user)
    ∷ (codes "smtp_pass", cfg.smtp_pass)
    ∷ (codes "smtp_from", cfg.smtp_from)
    ∷ (codes "smtp_to", cfg.smtp_to)
    ∷ (codes "sms_webhook_url", cfg.sms_webhook_url)
    ∷ (codes "ofono_modem_path", cfg.ofono_modem_path)
    ∷ (codes "wan_iface", cfg.wan_iface)
    ∷ (codes "at_timeout_ms", number cfg.at_timeout_ms)
    ∷ (codes "allow_dangerous_at", number cfg.allow_dangerous_at)
    ∷ []

abbrev pub set_account : Bytes → Bytes → AppState → AppState
set_account user pass state = record state {
  cfg = record state.cfg { auth_user = truncate 64 user; auth_pass = truncate 128 pass };
}

module _ {World : Type 0} (sys : System World) where
  -- `db_set_setting` for each; what it returns is not looked at.
  unfoldable pub store_all : List (Bytes × Bytes) → World → World
  unfolding db_set_setting
  store_all [] w = w
  store_all ((key, value) ∷ rest) w = store_all rest (db_set_setting sys key value w).1

  unfoldable pub api_system_reboot : Bytes → Prog World Bytes
  unfolding confirmed response_json_body reboot_text
  api_system_reboot body w =
      if not (confirmed body)
      then (failure (codes "confirm is required"), w)
      else let (synced, w1) = sys.run_capture (codes "sync" ∷ []) (pos 3000) 1024 w in
        let (res, w2) = sys.run_capture (codes "reboot" ∷ []) (pos 3000) 1024 w1 in
        (reboot_text res.1, w2)

  unfoldable pub api_system_scheduled_reboot : AppState → Bytes → Prog World (Bytes × AppState)
  unfolding json_get_int bad_time response_json_body store_all scheduled_text schedule show_int
  api_system_scheduled_reboot state body w =
      let enabled = not (eqb_ℤ (json_get_int body (codes "enabled") (pos 0)) (pos 0)) in
      let hour = json_get_int body (codes "hour") (pos 3) in
      let minute = json_get_int body (codes "minute") (pos 30) in
      if bad_time hour minute then ((failure (codes "invalid hour or minute"), state), w) else (
        (success (scheduled_text enabled hour minute), schedule enabled hour minute state),
        store_all
            ((codes "scheduled_reboot_enabled", number (flag enabled))
              ∷ (codes "scheduled_reboot_hour", number hour)
              ∷ (codes "scheduled_reboot_minute", number minute)
              ∷ [])
            w,
      )

  unfoldable pub api_system_settings_save : AppState → Bytes → Prog World (Bytes × AppState)
  unfolding settings_from stored_settings store_all api_settings
  api_system_settings_save state body w =
      let cfg = settings_from body state.cfg in
      ((api_settings cfg, record state { cfg = cfg }), store_all (stored_settings cfg) w)

  unfoldable pub save_account :
      AppState → Option Bytes → Option Bytes → Prog World (Bytes × AppState)
  unfolding response_json_body store_all
  save_account state (some user) (some pass) w = (
    (success (codes "{\"saved\":true}"), set_account user pass state),
    store_all ((codes "auth_user", truncate 64 user) ∷ (codes "auth_pass", truncate 128 pass) ∷ [])
        w,
  )
  save_account state _ _ w = ((failure (codes "username and password are required"), state), w)

  unfoldable pub api_system_password : AppState → Bytes → Prog World (Bytes × AppState)
  unfolding json_get_string save_account
  api_system_password state body =
      save_account state (given (json_get_string body (codes "username")))
        (given (json_get_string body (codes "password")))
