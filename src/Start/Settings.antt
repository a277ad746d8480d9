-- ===== src/Start/Settings.antt =====
-- The settings that src/http.c saves and src/main.c restores.
use cellmgr.Base.{
  List, [], ◌∷◌, Option, ◌≡◌, refl, ap, ◌∙◌, arith, Bytes, codes, Option-cases, inl, inr, take-le,
}
use cellmgr.Base.Int.{ℤ, IsInt, to_int-IsInt}
use cellmgr.Json.Lookup.{find_key_value, json_get_int}
use cellmgr.Http.Fits.{WellFormed, settings_from-WellFormed}
use cellmgr.Libc.Text.{str_eq}
use cellmgr.Libc.Number.{atoi, strtol}
use cellmgr.Libc.Width.{atoi-truncate-show_int}
use cellmgr.Config.Fields.{AppConfig}
use cellmgr.Config.Fits.{Fits}
use cellmgr.System.{System}
use cellmgr.Db.Tables.{db_get_setting}
use cellmgr.Db.Lawful.{Tables, IsLawful, put_setting}
use cellmgr.Db.Settings.{db_set_setting_lem, db_get_setting_lem}
use cellmgr.Http.State.{AppState}
use cellmgr.Http.Settings.{settings_from, stored_settings, store_all, api_system_settings_save}
use cellmgr.Start.{found_for, read_settings, restored, restored_keys, restore_settings}

put_all : List (Bytes × Bytes) → Tables → Tables
put_all [] t = t
put_all ((key, value) ∷ rest) t = put_all rest (put_setting key value t)

-- What a table of settings has for each key.
unfoldable pub entries : (Bytes → Option Bytes) → List Bytes → List (Bytes × Option Bytes)
entries setting [] = []
entries setting (key ∷ keys) = (key, setting key) ∷ entries setting keys

module _ {World : Type 0} (sys : System World) (tables : World → Tables)
    (lawful : IsLawful sys tables) where
  store_all_lem :
      (kvs : List (Bytes × Bytes)) (w : World)
      → tables (store_all sys kvs w) ≡ put_all kvs (tables w)
  unfolding store_all put_all
  store_all_lem [] w = refl
  store_all_lem ((key, value) ∷ rest) w =
      store_all_lem rest _ ∙ ap (put_all rest) (db_set_setting_lem sys tables lawful key value w).1

  read_settings_lem :
      (keys : List Bytes) (w : World)
      → (read_settings sys keys w).0 ≡ entries (tables w).setting keys
  unfolding read_settings entries
  read_settings_lem [] w = refl
  read_settings_lem (key ∷ keys) w =
      let (found, same) = db_get_setting_lem sys tables lawful key w in
      rw (found, read_settings_lem keys (db_get_setting sys key w).1, same)

-- The four numbers that are saved are in the range of an `int`.
pub record IntFields (cfg : AppConfig) : Type 0 where
  pub forward_int : IsInt cfg.sms_forward_enabled
  pub port_int : IsInt cfg.smtp_port
  pub timeout_int : IsInt cfg.at_timeout_ms
  pub dangerous_int : IsInt cfg.allow_dangerous_at

-- The settings that are saved agree.
pub record SameSettings (a b : AppConfig) : Type 0 where
  pub same_forward : a.sms_forward_enabled ≡ b.sms_forward_enabled
  pub same_mode : a.sms_forward_mode ≡ b.sms_forward_mode
  pub same_host : a.smtp_host ≡ b.smtp_host
  pub same_port : a.smtp_port ≡ b.smtp_port
  pub same_user : a.smtp_user ≡ b.smtp_user
  pub same_pass : a.smtp_pass ≡ b.smtp_pass
  pub same_from : a.smtp_from ≡ b.smtp_from
  pub same_to : a.smtp_to ≡ b.smtp_to
  pub same_webhook : a.sms_webhook_url ≡ b.sms_webhook_url
  pub same_modem : a.ofono_modem_path ≡ b.ofono_modem_path
  pub same_wan : a.wan_iface ≡ b.wan_iface
  pub same_timeout : a.at_timeout_ms ≡ b.at_timeout_ms
  pub same_dangerous : a.allow_dangerous_at ≡ b.allow_dangerous_at

restored_stored :
    (cfg saved : AppConfig) (t : Tables)
    → Fits saved
    → IntFields saved
    → SameSettings
        (restored
          (found_for (entries (put_all (stored_settings saved) t).setting restored_keys))
          cfg)
        saved
unfolding restored entries put_all stored_settings str_eq
restored_stored cfg saved t fit ints = record {
  same_forward = atoi-truncate-show_int saved.sms_forward_enabled ints.forward_int;
  same_mode = take-le 31 _ (omega (arith, fit.sms_forward_mode_fits));
  same_host = take-le 127 _ (omega (arith, fit.smtp_host_fits));
  same_port = atoi-truncate-show_int saved.smtp_port ints.port_int;
  same_user = take-le 127 _ (omega (arith, fit.smtp_user_fits));
  same_pass = take-le 127 _ (omega (arith, fit.smtp_pass_fits));
  same_from = take-le 127 _ (omega (arith, fit.smtp_from_fits));
  same_to = take-le 127 _ (omega (arith, fit.smtp_to_fits));
  same_webhook = take-le 255 _ (omega (arith, fit.sms_webhook_url_fits));
  same_modem = take-le 127 _ (omega (arith, fit.ofono_modem_path_fits));
  same_wan = take-le 63 _ (omega (arith, fit.wan_iface_fits));
  same_timeout = atoi-truncate-show_int saved.at_timeout_ms ints.timeout_int;
  same_dangerous = atoi-truncate-show_int saved.allow_dangerous_at ints.dangerous_int;
}

json_get_int-IsInt :
    (json key : Bytes) (fallback : ℤ) → IsInt fallback → IsInt (json_get_int json key fallback)
unfolding json_get_int atoi
json_get_int-IsInt json key fallback h = elim (Option-cases (find_key_value json key)) [
  | inl e ↦ rw (e, json_get_int) h
  | inr (p, e) ↦ rw (e, json_get_int) (to_int-IsInt (strtol p))
]

settings_from-IntFields :
    (body : Bytes) (cfg : AppConfig) → IntFields cfg → IntFields (settings_from body cfg)
unfolding settings_from
settings_from-IntFields body cfg h = record {
  forward_int =
      json_get_int-IsInt body (codes "sms_forward_enabled") cfg.sms_forward_enabled h.forward_int;
  port_int = json_get_int-IsInt body (codes "smtp_port") cfg.smtp_port h.port_int;
  timeout_int = json_get_int-IsInt body (codes "at_timeout_ms") cfg.at_timeout_ms h.timeout_int;
  dangerous_int =
      json_get_int-IsInt body (codes "allow_dangerous_at") cfg.allow_dangerous_at h.dangerous_int;
}

module _ {World : Type 0} (sys : System World) (tables : World → Tables)
    (lawful : IsLawful sys tables) where
  restore_settings_lem :
      (cfg : AppConfig) (w : World)
      → (restore_settings sys cfg w).0
        ≡ restored (found_for (entries (tables w).setting restored_keys)) cfg
  unfolding restore_settings
  restore_settings_lem cfg w =
      ap (λ found. restored (found_for found) cfg)
        (read_settings_lem sys tables lawful restored_keys w)

  -- What restore_settings gives, where the table of settings agrees with the saved one on its keys.
  pub restored_saved :
      (state : AppState) (body : Bytes) (cfg : AppConfig) (w w1 : World)
      → WellFormed state
      → IntFields state.cfg
      → entries (tables w1).setting restored_keys
        ≡ entries (tables (api_system_settings_save sys state body w).1).setting restored_keys
      → SameSettings
          (restore_settings sys cfg w1).0
          (api_system_settings_save sys state body w).0.1.cfg
  unfolding api_system_settings_save
  restored_saved state body cfg w w1 h ints agree =
      let saved = settings_from body state.cfg in
      rw
        (
          restore_settings_lem cfg w1,
          agree,
          store_all_lem sys tables lawful (stored_settings saved) w,
        )
        (restored_stored cfg saved (tables w) (settings_from-WellFormed body state h).fits
          (settings_from-IntFields body state.cfg ints))
