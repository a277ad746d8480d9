-- ===== src/Config/Fields.antt =====
-- The fields of `app_config` in src/config.h, their defaults and their names in src/config.c.
use cellmgr.Base.{ℕ, Bytes, codes, List, [], ◌∷◌}
use cellmgr.Base.Int.{ℤ, pos}
use cellmgr.Libc.Number.{atoi}
use cellmgr.Libc.Text.{truncate}

pub record AppConfig : Type 0 where
  pub listen_host : Bytes
  pub listen_port : ℤ
  pub db_path : Bytes
  pub profile_path : Bytes
  pub active_profile : Bytes
  pub ofono_backend : Bytes
  pub ofono_destination : Bytes
  pub ofono_modem_path : Bytes
  pub at_backend : Bytes
  pub at_timeout_ms : ℤ
  pub auth_enabled : ℤ
  pub auth_user : Bytes
  pub auth_pass : Bytes
  pub allow_dangerous_at : ℤ
  pub wan_iface : Bytes
  pub sample_interval_ms : ℤ
  pub scheduled_reboot_enabled : ℤ
  pub scheduled_reboot_hour : ℤ
  pub scheduled_reboot_minute : ℤ
  pub sms_forward_enabled : ℤ
  pub sms_forward_mode : Bytes
  pub smtp_host : Bytes
  pub smtp_port : ℤ
  pub smtp_user : Bytes
  pub smtp_pass : Bytes
  pub smtp_from : Bytes
  pub smtp_to : Bytes
  pub sms_webhook_url : Bytes

-- `copy_value` into an array of `size` bytes, which is never 0 here.
unfoldable pub copy_value : ℕ → Bytes → Bytes
copy_value size src = truncate size src

-- `memset` leaves the fields that are not assigned empty.
unfoldable pub config_defaults : AppConfig
unfolding copy_value
config_defaults = record {
  listen_host = copy_value 64 (codes "0.0.0.0");
  listen_port = pos 4242;
  db_path = copy_value 256 (codes "./data/cellmgr.db");
  profile_path = copy_value 256 (codes "./profiles/fm650.json");
  active_profile = copy_value 128 (codes "fibocom-fm650");
  ofono_backend = copy_value 64 (codes "dbus-send");
  ofono_destination = copy_value 128 (codes "org.ofono");
  ofono_modem_path = copy_value 128 (codes "/ril_0");
  at_backend = copy_value 64 (codes "ofono-sendatcmd");
  at_timeout_ms = pos 3000;
  auth_enabled = pos 0;
  auth_user = copy_value 64 (codes "admin");
  auth_pass = copy_value 128 (codes "admin");
  allow_dangerous_at = pos 0;
  wan_iface = copy_value 64 (codes "rmnet_data0");
  sample_interval_ms = pos 1000;
  scheduled_reboot_enabled = pos 0;
  scheduled_reboot_hour = pos 3;
  scheduled_reboot_minute = pos 30;
  sms_forward_enabled = pos 0;
  sms_forward_mode = copy_value 32 (codes "smtp");
  smtp_host = [];
  smtp_port = pos 25;
  smtp_user = [];
  smtp_pass = [];
  smtp_from = [];
  smtp_to = [];
  sms_webhook_url = [];
}

-- The names that `set_key` compares the key with, one for each field.
pub data Key : Type 0 where
  listen_host : Key
  listen_port : Key
  db_path : Key
  profile_path : Key
  active_profile : Key
  ofono_backend : Key
  ofono_destination : Key
  ofono_modem_path : Key
  at_backend : Key
  at_timeout_ms : Key
  auth_enabled : Key
  auth_user : Key
  auth_pass : Key
  allow_dangerous_at : Key
  wan_iface : Key
  sample_interval_ms : Key
  scheduled_reboot_enabled : Key
  scheduled_reboot_hour : Key
  scheduled_reboot_minute : Key
  sms_forward_enabled : Key
  sms_forward_mode : Key
  smtp_host : Key
  smtp_port : Key
  smtp_user : Key
  smtp_pass : Key
  smtp_from : Key
  smtp_to : Key
  sms_webhook_url : Key

abbrev pub key_name : Key → Bytes
key_name listen_host = codes "listen_host"
key_name listen_port = codes "listen_port"
key_name db_path = codes "db_path"
key_name profile_path = codes "profile_path"
key_name active_profile = codes "active_profile"
key_name ofono_backend = codes "ofono_backend"
key_name ofono_destination = codes "ofono_destination"
key_name ofono_modem_path = codes "ofono_modem_path"
key_name at_backend = codes "at_backend"
key_name at_timeout_ms = codes "at_timeout_ms"
key_name auth_enabled = codes "auth_enabled"
key_name auth_user = codes "auth_user"
key_name auth_pass = codes "auth_pass"
key_name allow_dangerous_at = codes "allow_dangerous_at"
key_name wan_iface = codes "wan_iface"
key_name sample_interval_ms = codes "sample_interval_ms"
key_name scheduled_reboot_enabled = codes "scheduled_reboot_enabled"
key_name scheduled_reboot_hour = codes "scheduled_reboot_hour"
key_name scheduled_reboot_minute = codes "scheduled_reboot_minute"
key_name sms_forward_enabled = codes "sms_forward_enabled"
key_name sms_forward_mode = codes "sms_forward_mode"
key_name smtp_host = codes "smtp_host"
key_name smtp_port = codes "smtp_port"
key_name smtp_user = codes "smtp_user"
key_name smtp_pass = codes "smtp_pass"
key_name smtp_from = codes "smtp_from"
key_name smtp_to = codes "smtp_to"
key_name sms_webhook_url = codes "sms_webhook_url"

-- The comparisons in the order of the source.
abbrev pub all_keys : List Key
all_keys =
    listen_host ∷ listen_port ∷ db_path ∷ profile_path ∷ active_profile ∷ ofono_backend
    ∷ ofono_destination ∷ ofono_modem_path ∷ at_backend ∷ at_timeout_ms ∷ auth_enabled ∷ auth_user
    ∷ auth_pass ∷ allow_dangerous_at ∷ wan_iface ∷ sample_interval_ms ∷ scheduled_reboot_enabled
    ∷ scheduled_reboot_hour ∷ scheduled_reboot_minute ∷ sms_forward_enabled ∷ sms_forward_mode
    ∷ smtp_host ∷ smtp_port ∷ smtp_user ∷ smtp_pass ∷ smtp_from ∷ smtp_to ∷ sms_webhook_url ∷ []

-- The branch of each key.
unfoldable pub set_field : Key → Bytes → AppConfig → AppConfig
unfolding copy_value atoi
set_field listen_host value cfg = record cfg { listen_host = copy_value 64 value }
set_field listen_port value cfg = record cfg { listen_port = atoi value }
set_field db_path value cfg = record cfg { db_path = copy_value 256 value }
set_field profile_path value cfg = record cfg { profile_path = copy_value 256 value }
set_field active_profile value cfg = record cfg { active_profile = copy_value 128 value }
set_field ofono_backend value cfg = record cfg { ofono_backend = copy_value 64 value }
set_field ofono_destination value cfg = record cfg { ofono_destination = copy_value 128 value }
set_field ofono_modem_path value cfg = record cfg { ofono_modem_path = copy_value 128 value }
set_field at_backend value cfg = record cfg { at_backend = copy_value 64 value }
set_field at_timeout_ms value cfg = record cfg { at_timeout_ms = atoi value }
set_field auth_enabled value cfg = record cfg { auth_enabled = atoi value }
set_field auth_user value cfg = record cfg { auth_user = copy_value 64 value }
set_field auth_pass value cfg = record cfg { auth_pass = copy_value 128 value }
set_field allow_dangerous_at value cfg = record cfg { allow_dangerous_at = atoi value }
set_field wan_iface value cfg = record cfg { wan_iface = copy_value 64 value }
set_field sample_interval_ms value cfg = record cfg { sample_interval_ms = atoi value }
set_field scheduled_reboot_enabled value cfg = record cfg { scheduled_reboot_enabled = atoi value }
set_field scheduled_reboot_hour value cfg = record cfg { scheduled_reboot_hour = atoi value }
set_field scheduled_reboot_minute value cfg = record cfg { scheduled_reboot_minute = atoi value }
set_field sms_forward_enabled value cfg = record cfg { sms_forward_enabled = atoi value }
set_field sms_forward_mode value cfg = record cfg { sms_forward_mode = copy_value 32 value }
set_field smtp_host value cfg = record cfg { smtp_host = copy_value 128 value }
set_field smtp_port value cfg = record cfg { smtp_port = atoi value }
set_field smtp_user value cfg = record cfg { smtp_user = copy_value 128 value }
set_field smtp_pass value cfg = record cfg { smtp_pass = copy_value 128 value }
set_field smtp_from value cfg = record cfg { smtp_from = copy_value 128 value }
set_field smtp_to value cfg = record cfg { smtp_to = copy_value 128 value }
set_field sms_webhook_url value cfg = record cfg { sms_webhook_url = copy_value 256 value }
