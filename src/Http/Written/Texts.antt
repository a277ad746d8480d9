-- ===== src/Http/Written/Texts.antt =====
-- The texts that the handlers of src/http.c write into their answers are JSON.
use cellmgr.Base.{Bool, true, false, [], ◌++◌, Bytes, codes, subst, sym, append_assoc}
use cellmgr.Base.Int.{ℤ}
use cellmgr.Command.Capture.{CommandResult}
use cellmgr.Config.Fields.{AppConfig}
use cellmgr.Json.Escape.{escape_byte, escape_bytes, json_escape, json_prop_string}
use cellmgr.Json.Grammar.{
  Json, Members, object, truth, first_string, first_int, next_string, next_int, next_member,
}
use cellmgr.Parsers.Dbus.{parse_dbus_properties_json}
use cellmgr.Parsers.Dbus.Syntax.{parse_dbus_properties_json-Json}
use cellmgr.Http.State.{or_text, out_text, streams}
use cellmgr.Http.Modem.{property_group, modem_status_text}
use cellmgr.Http.Profiles.{saved_text, active_text, deleted_text}
use cellmgr.Http.Settings.{settings_text, scheduled_text, flag}

pub streams-Members : (s : Bytes) (res : CommandResult) → Members s → Members (s ++ streams res)
streams-Members s res m =
    subst Members (append_assoc s (json_prop_string (codes "stdout") (out_text res) true) _) (
      next_string _ (codes "stderr") (or_text res.err [])
        (next_string s (codes "stdout") (out_text res) m))

-- The property `parsed` behind others.
pub parsed-Members : (s v : Bytes) → Members s → Json v → Members (s ++ codes ",\"parsed\":" ++ v)
unfolding json_escape escape_bytes escape_byte
parsed-Members s v m h =
    subst Members (sym (append_assoc s (codes ",\"parsed\":") v))
      (next_member s (codes "parsed") v m h)

pub saved_text-Json : (id name : Bytes) → Json (saved_text id name)
unfolding saved_text json_escape escape_bytes escape_byte
saved_text-Json id name = subst Json (simp append_assoc) (
    object _ (
      next_member _ (codes "saved") (codes "true")
        (next_string _ (codes "name") name (first_string (codes "id") id)) truth))

pub deleted_text-Json : (id : Bytes) → Json (deleted_text id)
unfolding deleted_text json_escape escape_bytes escape_byte
deleted_text-Json id =
    subst Json (simp append_assoc) (
      object _
        (next_member _ (codes "deleted") (codes "true") (first_string (codes "id") id) truth))

pub active_text-Json : (id : Bytes) → Json (active_text id)
unfolding active_text
active_text-Json id = object _ (first_string (codes "active_profile") id)

pub scheduled_text-Json :
    (enabled : Bool) (hour minute : ℤ) → Json (scheduled_text enabled hour minute)
unfolding scheduled_text
scheduled_text-Json enabled hour minute = object _ (
    next_int _ (codes "minute") minute
      (next_int _ (codes "hour") hour (first_int (codes "enabled") (flag enabled))))

pub settings_text-Json : (cfg : AppConfig) → Json (settings_text cfg)
unfolding settings_text
settings_text-Json cfg = object _ (
    next_string _ (codes "sms_webhook_url") cfg.sms_webhook_url (
      next_string _ (codes "smtp_to") cfg.smtp_to (
        next_string _ (codes "smtp_from") cfg.smtp_from (
          next_string _ (codes "smtp_user") cfg.smtp_user (
            next_int _ (codes "smtp_port") cfg.smtp_port (
              next_string _ (codes "smtp_host") cfg.smtp_host (
                next_string _ (codes "sms_forward_mode") cfg.sms_forward_mode (
                  next_int _ (codes "sms_forward_enabled") cfg.sms_forward_enabled (
                    next_int _ (codes "scheduled_reboot_minute") cfg.scheduled_reboot_minute (
                      next_int _ (codes "scheduled_reboot_hour") cfg.scheduled_reboot_hour (
                        next_int _ (codes "scheduled_reboot_enabled") cfg.scheduled_reboot_enabled (
                          next_int _ (codes "auth_enabled") cfg.auth_enabled (
                            next_string _ (codes "at_backend") cfg.at_backend (
                              next_int _ (codes "allow_dangerous_at") cfg.allow_dangerous_at (
                                next_int _ (codes "at_timeout_ms") cfg.at_timeout_ms (
                                  next_string _ (codes "wan_iface") cfg.wan_iface (
                                    next_string _ (codes "ofono_modem_path") cfg.ofono_modem_path (
                                      next_string _ (codes "active_profile") cfg.active_profile (
                                        next_string _ (codes "db_path") cfg.db_path (
                                          next_int _ (codes "listen_port") cfg.listen_port (
                                            first_string (codes "listen_host")
                                              cfg.listen_host)))))))))))))))))))))

-- Three properties of one command, behind others and in front.
group-Members :
    (s exit_key raw_key parsed_key : Bytes) (res : CommandResult)
    → Members s
    → Members (s ++ property_group exit_key raw_key parsed_key true res)
group-Members s exit_key raw_key parsed_key res m = subst Members (simp append_assoc) (
    next_member _ parsed_key (parse_dbus_properties_json (out_text res))
      (next_string _ raw_key (out_text res) (next_int s exit_key res.exit_code m))
      (parse_dbus_properties_json-Json (out_text res)))

first_group-Members :
    (exit_key raw_key parsed_key : Bytes) (res : CommandResult)
    → Members (codes "{" ++ property_group exit_key raw_key parsed_key false res)
first_group-Members exit_key raw_key parsed_key res = subst Members (simp append_assoc) (
    next_member _ parsed_key (parse_dbus_properties_json (out_text res))
      (next_string _ raw_key (out_text res) (first_int exit_key res.exit_code))
      (parse_dbus_properties_json-Json (out_text res)))

pub modem_status_text-Json :
    (modem net sim : CommandResult) → Json (modem_status_text modem net sim)
unfolding modem_status_text
modem_status_text-Json modem net sim = object _ (
    group-Members _ (codes "sim_exit") (codes "sim_raw") (codes "sim_parsed") sim (
      group-Members _ (codes "network_exit") (codes "network_raw") (codes "network_parsed") net (
        first_group-Members (codes "modem_exit") (codes "modem_raw") (codes "modem_parsed") modem)))
