-- ===== src/Http/Written/Modem.antt =====
-- The handlers of src/http.c for the login, the modem, AT commands and messages answer with JSON.
use cellmgr.Base.{Bool, ◌++◌, Option, some, inl, inr, if◌then◌else◌, Bytes, codes, Option-cases}
use cellmgr.Base.Int.{ℤ, pos}
use cellmgr.Json.Lookup.{json_get_string}
use cellmgr.Command.Capture.{CommandResult}
use cellmgr.Config.Fields.{AppConfig}
use cellmgr.System.{System}
use cellmgr.Json.Escape.{escape_byte, escape_bytes, json_escape}
use cellmgr.Json.Grammar.{
  object, first_string, first_int, first_member, next_string, next_int, json_escape-Json,
}
use cellmgr.Http.State.{success, AppState, out_text}
use cellmgr.Http.Commands.{
  command_text, capability_text, api_at_send, api_at_test_capability, api_dbus_test,
}
use cellmgr.Http.Modem.{set_bool_text, api_auth_login, api_modem_set_bool, api_modem_status}
use cellmgr.Http.Sms.{
  sms_sent_text, sms_deleted_text, forward_text, sms_send_to, api_sms_send, api_sms_delete,
  api_sms_forward_test,
}
use cellmgr.Http.Written.{
  Written, success-Written, failure-Written, json_body-Written, command_answer-Written,
  choice-Written, either-Written,
}
use cellmgr.Http.Written.Texts.{streams-Members, modem_status_text-Json}

token_text-Written :
    (token : Bytes) → Written (success (codes "{\"token\":" ++ json_escape token ++ codes "}"))
unfolding json_escape escape_bytes escape_byte
token_text-Written token =
    success-Written _ (object _ (first_member (codes "token") _ (json_escape-Json token)))

pub api_auth_login-Written : (state : AppState) (body : Bytes) → Written (api_auth_login state body)
unfolding api_auth_login
api_auth_login-Written state body = elim (Option-cases (json_get_string body (codes "username"))) [
  | inl e ↦ rw (e, api_auth_login) (search failure-Written)
  | inr (user, e) ↦ elim (Option-cases (json_get_string body (codes "password"))) [
    | inl k ↦ rw (e, k, api_auth_login) (search failure-Written)
    | inr (pass, k) ↦
        rw (e, k, api_auth_login) (search (either-Written, token_text-Written, failure-Written))
  ]
]

pub command_text-Written :
    (key cmd : Bytes) (res : CommandResult) → Written (command_text key cmd res)
unfolding command_text
command_text-Written key cmd res = command_answer-Written res _ (
    object _
      (streams-Members _ res (next_int _ (codes "exit_code") res.exit_code (first_string key cmd))))

set_bool_text-Written :
    (key : Bytes) (value : Bool) (res : CommandResult) → Written (set_bool_text key value res)
unfolding set_bool_text
set_bool_text-Written key value res = command_answer-Written res _ (
    object _ (
      streams-Members _ res (
        next_int _ (codes "exit_code") res.exit_code
          (first_int key (if value then pos 1 else pos 0)))))

sms_sent_text-Written : (number : Bytes) (res : CommandResult) → Written (sms_sent_text number res)
unfolding sms_sent_text
sms_sent_text-Written number res = command_answer-Written res _ (
    object _ (
      streams-Members _ res
        (next_int _ (codes "exit_code") res.exit_code (first_string (codes "number") number))))

sms_deleted_text-Written : (index : ℤ) (res : CommandResult) → Written (sms_deleted_text index res)
unfolding sms_deleted_text
sms_deleted_text-Written index res = command_answer-Written res _ (
    object _ (
      next_string _ (codes "raw") (out_text res)
        (next_int _ (codes "exit_code") res.exit_code (first_int (codes "index") index))))

forward_text-Written : (sent : Bool) (log : Bytes) → Written (forward_text sent log)
unfolding forward_text
forward_text-Written sent log = json_body-Written sent _ (some log) (
    object _
      (next_string _ (codes "log") log (first_int (codes "sent") (if sent then pos 1 else pos 0))))

module _ {World : Type 0} (sys : System World) where
  pub api_at_send-Written :
      (cfg : AppConfig) (body : Bytes) (w : World) → Written (api_at_send sys cfg body w).0
  unfolding api_at_send
  api_at_send-Written cfg body w = elim (Option-cases (json_get_string body (codes "command"))) [
    | inl e ↦ rw (e, api_at_send) (search failure-Written)
    | inr (cmd, e) ↦ rw (e, api_at_send) (search command_text-Written)
  ]

  capability_text-Written :
      (cap field cmd : Bytes) (res : CommandResult)
      → Written (capability_text sys cap field cmd res)
  capability_text-Written cap field cmd res = command_answer-Written res _ (
      object _ (
        next_string _ (codes "raw") (out_text res) (
          next_int _ (codes "exit_code") res.exit_code (
            next_string _ (codes "command") cmd
              (next_string _ (codes "field") field (first_string (codes "capability") cap))))))

  pub api_at_test_capability-Written :
      (cfg : AppConfig) (body : Bytes) (w : World)
      → Written (api_at_test_capability sys cfg body w).0
  unfolding api_at_test_capability
  api_at_test_capability-Written cfg body w =
      elim (Option-cases (json_get_string body (codes "capability"))) [
        | inl e ↦ rw (e, api_at_test_capability) (search failure-Written)
        | inr (cap, e) ↦
            rw (e, api_at_test_capability)
              (search (choice-Written, failure-Written, capability_text-Written))
      ]

  pub api_dbus_test-Written :
      (cfg : AppConfig) (body : Bytes) (w : World) → Written (api_dbus_test sys cfg body w).0
  unfolding api_dbus_test
  api_dbus_test-Written cfg body w = search command_text-Written

  pub api_modem_status-Written :
      (cfg : AppConfig) (w : World) → Written (api_modem_status sys cfg w).0
  unfolding api_modem_status
  api_modem_status-Written cfg w = search (success-Written, modem_status_text-Json)

  pub api_modem_set_bool-Written :
      (cfg : AppConfig) (body : Bytes) (is_power : Bool) (w : World)
      → Written (api_modem_set_bool sys cfg body is_power w).0
  unfolding api_modem_set_bool
  api_modem_set_bool-Written cfg body is_power w =
      search (choice-Written, failure-Written, set_bool_text-Written)

  sms_send_to-Written :
      (cfg : AppConfig) (number text : Option Bytes) (w : World)
      → Written (sms_send_to sys cfg number text w).0
  unfolding sms_send_to
  sms_send_to-Written cfg (some number) (some text) w =
      search (choice-Written, failure-Written, sms_sent_text-Written)
  sms_send_to-Written cfg _ _ w = search failure-Written

  pub api_sms_send-Written :
      (cfg : AppConfig) (body : Bytes) (w : World) → Written (api_sms_send sys cfg body w).0
  unfolding api_sms_send
  api_sms_send-Written cfg body w = sms_send_to-Written cfg _ _ w

  pub api_sms_delete-Written :
      (cfg : AppConfig) (body : Bytes) (w : World) → Written (api_sms_delete sys cfg body w).0
  unfolding api_sms_delete
  api_sms_delete-Written cfg body w =
      search (choice-Written, failure-Written, sms_deleted_text-Written)

  pub api_sms_forward_test-Written :
      (cfg : AppConfig) (body : Bytes) (w : World) → Written (api_sms_forward_test sys cfg body w).0
  unfolding api_sms_forward_test
  api_sms_forward_test-Written cfg body w = search forward_text-Written
