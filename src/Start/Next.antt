-- ===== src/Start/Next.antt =====
-- The settings behind the next start of src/main.c, with the profile that it imports and the modem that
-- it looks for.
use cellmgr.Base.{false, Option, some, ◌≡◌, ◌⊎◌, Bytes, codes}
use cellmgr.Libc.Text.{str_eq, truncate}
use cellmgr.Config.Fields.{AppConfig}
use cellmgr.System.{System}
use cellmgr.Db.Lawful.{Tables}

-- The settings that are saved, with the path of the modem as it was saved or as it was found.
pub record NextSettings (found : Option Bytes) (a b : AppConfig) : Type 0 where
  pub same_forward : a.sms_forward_enabled ≡ b.sms_forward_enabled
  pub same_mode : a.sms_forward_mode ≡ b.sms_forward_mode
  pub same_host : a.smtp_host ≡ b.smtp_host
  pub same_port : a.smtp_port ≡ b.smtp_port
  pub same_user : a.smtp_user ≡ b.smtp_user
  pub same_pass : a.smtp_pass ≡ b.smtp_pass
  pub same_from : a.smtp_from ≡ b.smtp_from
  pub same_to : a.smtp_to ≡ b.smtp_to
  pub same_webhook : a.sms_webhook_url ≡ b.sms_webhook_url
  pub same_wan : a.wan_iface ≡ b.wan_iface
  pub same_timeout : a.at_timeout_ms ≡ b.at_timeout_ms
  pub same_dangerous : a.allow_dangerous_at ≡ b.allow_dangerous_at
  pub modem :
      (a.ofono_modem_path ≡ b.ofono_modem_path)
      ⊎ ((path : Bytes) × (found ≡ some path) × (a.ofono_modem_path ≡ truncate 128 path))

-- Two tables of settings agree, but perhaps on the active profile.
Agree : (Bytes → Option Bytes) → (Bytes → Option Bytes) → Type 0
Agree a b = (key : Bytes) → str_eq key (codes "active_profile") ≡ false → a key ≡ b key
