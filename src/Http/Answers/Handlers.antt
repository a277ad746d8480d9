-- ===== src/Http/Answers/Handlers.antt =====
-- The handlers of src/http.c for the login, the modem, AT commands and messages give the answers of
-- Answered, on every branch.
use cellmgr.Base.{Bool, Option, some, inl, inr, Bytes, codes, Option-cases}
use cellmgr.Base.Int.{ℤ}
use cellmgr.Libc.Text.{strstr}
use cellmgr.Json.Lookup.{json_get_string}
use cellmgr.Config.Fields.{AppConfig}
use cellmgr.Command.Capture.{CommandResult}
use cellmgr.System.{System}
use cellmgr.Profile.Import.{profile_get_active_json}
use cellmgr.Http.State.{AppState}
use cellmgr.Http.Answers.Answered.{Answered, json, answered_list, answered_if, answered_either}
use cellmgr.Http.Commands.{
  command_text, api_dbus_commands, api_at_send, api_at_history, api_at_capabilities,
  api_at_test_capability, api_dbus_events, api_dbus_test,
}
use cellmgr.Http.Modem.{
  set_bool_text, api_auth_login, api_modem_radio, api_modem_set_bool, api_modem_status,
}
use cellmgr.Http.Sms.{
  ofono_read_text, sms_sent_text, sms_deleted_text, forward_text, sms_list_via_at, sms_read_via_at,
  sms_send_to, api_sms_delete, api_sms_forward_test, api_sms_list, api_sms_read, api_sms_send,
}

ofono_read_text-Answered :
    (index : ℤ) (res : CommandResult) (parsed : Bytes) → Answered (ofono_read_text index res parsed)
unfolding ofono_read_text
ofono_read_text-Answered index res parsed =
    elim (Option-cases (strstr parsed (codes "\"items\":[]"))) [
      | inl e ↦ rw (e, ofono_read_text) (search json)
      | inr (p, e) ↦ rw (e, ofono_read_text) (search json)
    ]

pub api_auth_login-Answered :
    (state : AppState) (body : Bytes) → Answered (api_auth_login state body)
unfolding api_auth_login
api_auth_login-Answered state body = elim (Option-cases (json_get_string body (codes "username"))) [
  | inl e ↦ rw (e, api_auth_login) (search json)
  | inr (user, e) ↦ elim (Option-cases (json_get_string body (codes "password"))) [
    | inl k ↦ rw (e, k, api_auth_login) (search json)
    | inr (pass, k) ↦ rw (e, k, api_auth_login) (search (answered_either, json))
  ]
]

pub api_dbus_commands-Answered : Answered api_dbus_commands
unfolding api_dbus_commands
api_dbus_commands-Answered = search json

module _ {World : Type 0} (sys : System World) where
  pub api_at_send-Answered :
      (cfg : AppConfig) (body : Bytes) (w : World) → Answered (api_at_send sys cfg body w).0
  unfolding api_at_send command_text
  api_at_send-Answered cfg body w = elim (Option-cases (json_get_string body (codes "command"))) [
    | inl e ↦ rw (e, api_at_send) (search json)
    | inr (cmd, e) ↦ rw (e, api_at_send) (search json)
  ]

  pub api_at_history-Answered :
      (query : Bytes) (w : World) → Answered (api_at_history sys query w).0
  unfolding api_at_history
  api_at_history-Answered query w = search answered_list

  pub api_dbus_events-Answered :
      (query : Bytes) (w : World) → Answered (api_dbus_events sys query w).0
  unfolding api_dbus_events
  api_dbus_events-Answered query w = search answered_list

  pub api_at_capabilities-Answered :
      (cfg : AppConfig) (w : World) → Answered (api_at_capabilities sys cfg w).0
  unfolding api_at_capabilities
  api_at_capabilities-Answered cfg w = elim (Option-cases (profile_get_active_json sys cfg w).0) [
    | inl e ↦ rw (e, api_at_capabilities) (search json)
    | inr (text, e) ↦ rw (e, api_at_capabilities) (search json)
  ]

  pub api_at_test_capability-Answered :
      (cfg : AppConfig) (body : Bytes) (w : World)
      → Answered (api_at_test_capability sys cfg body w).0
  unfolding api_at_test_capability
  api_at_test_capability-Answered cfg body w =
      elim (Option-cases (json_get_string body (codes "capability"))) [
        | inl e ↦ rw (e, api_at_test_capability) (search json)
        | inr (name, e) ↦ rw (e, api_at_test_capability) (search (answered_if, json))
      ]

  pub api_dbus_test-Answered :
      (cfg : AppConfig) (body : Bytes) (w : World) → Answered (api_dbus_test sys cfg body w).0
  unfolding api_dbus_test command_text
  api_dbus_test-Answered cfg body w = search json

  pub api_modem_status-Answered :
      (cfg : AppConfig) (w : World) → Answered (api_modem_status sys cfg w).0
  unfolding api_modem_status
  api_modem_status-Answered cfg w = search json

  pub api_modem_radio-Answered :
      (cfg : AppConfig) (w : World) → Answered (api_modem_radio sys cfg w).0
  unfolding api_modem_radio
  api_modem_radio-Answered cfg w = search json

  pub api_modem_set_bool-Answered :
      (cfg : AppConfig) (body : Bytes) (is_power : Bool) (w : World)
      → Answered (api_modem_set_bool sys cfg body is_power w).0
  unfolding api_modem_set_bool set_bool_text
  api_modem_set_bool-Answered cfg body is_power w = search (answered_if, json)

  sms_list_via_at-Answered :
      (cfg : AppConfig) (query error : Bytes) (w : World)
      → Answered (sms_list_via_at sys cfg query error w).0
  unfolding sms_list_via_at
  sms_list_via_at-Answered cfg query error w = search json

  pub api_sms_list-Answered :
      (cfg : AppConfig) (query : Bytes) (w : World) → Answered (api_sms_list sys cfg query w).0
  unfolding api_sms_list
  api_sms_list-Answered cfg query w = search (answered_if, json)

  sms_read_via_at-Answered :
      (cfg : AppConfig) (index : ℤ) (error : Bytes) (w : World)
      → Answered (sms_read_via_at sys cfg index error w).0
  unfolding sms_read_via_at
  sms_read_via_at-Answered cfg index error w = search json

  pub api_sms_read-Answered :
      (cfg : AppConfig) (query : Bytes) (w : World) → Answered (api_sms_read sys cfg query w).0
  unfolding api_sms_read
  api_sms_read-Answered cfg query w = search (answered_if, json, ofono_read_text-Answered)

  sms_send_to-Answered :
      (cfg : AppConfig) (number text : Option Bytes) (w : World)
      → Answered (sms_send_to sys cfg number text w).0
  unfolding sms_send_to sms_sent_text
  sms_send_to-Answered cfg (some number) (some text) w = search (answered_if, json)
  sms_send_to-Answered cfg _ _ w = search json

  pub api_sms_send-Answered :
      (cfg : AppConfig) (body : Bytes) (w : World) → Answered (api_sms_send sys cfg body w).0
  unfolding api_sms_send
  api_sms_send-Answered cfg body w = sms_send_to-Answered cfg _ _ w

  pub api_sms_delete-Answered :
      (cfg : AppConfig) (body : Bytes) (w : World) → Answered (api_sms_delete sys cfg body w).0
  unfolding api_sms_delete sms_deleted_text
  api_sms_delete-Answered cfg body w = search (answered_if, json)

  pub api_sms_forward_test-Answered :
      (cfg : AppConfig) (body : Bytes) (w : World)
      → Answered (api_sms_forward_test sys cfg body w).0
  unfolding api_sms_forward_test forward_text
  api_sms_forward_test-Answered cfg body w = search json
