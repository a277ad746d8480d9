-- ===== src/Http/Sms.antt =====
-- The handlers of src/http.c for messages. They are read by oFono first, and by AT commands when it
-- fails.
use cellmgr.Base.{
  Bool, true, false, not, ◌||◌, [], ◌++◌, Option, none, some, if◌then◌else◌, Bytes, codes, drop,
}
use cellmgr.Base.Int.{ℤ, pos, eqb_ℤ, leb_ℤ}
use cellmgr.Libc.Text.{is_nil, strstr, truncate}
use cellmgr.Libc.Number.{atoi, show_int}
use cellmgr.Json.Escape.{json_prop_string, json_prop_int}
use cellmgr.Json.Lookup.{json_get_string, json_get_int}
use cellmgr.Config.Fields.{AppConfig}
use cellmgr.Command.Call.{dbus_send_call}
use cellmgr.Command.Capture.{CommandResult}
use cellmgr.Ofono.Send.{ofono_send_sms}
use cellmgr.At.Send.{at_send}
use cellmgr.Parsers.Dispatch.{parse_at_response_json}
use cellmgr.Parsers.Messages.{parse_dbus_messages_json}
use cellmgr.System.{System, Prog}
use cellmgr.SmsForward.{sms_forward_send}
use cellmgr.Http.State.{
  or_text, response_json_body, success, failure, command_answer, out_text, streams, send_at,
}
use cellmgr.Http.Request.{before}
use cellmgr.Http.Template.{profile_cmd_or_default}
use cellmgr.Http.Modem.{confirmed}

-- `tmpl` with its first `{status}` replaced, in an array of 256 bytes.
unfoldable pub list_command : Bytes → Bytes → Bytes
unfolding strstr
list_command tmpl status = truncate 256 (elim (strstr tmpl (codes "{status}")) [
  | none ↦ tmpl
  | some mark ↦ before tmpl mark ++ status ++ drop 8 mark
])

unfoldable pub wanted_status : Bytes → Bytes
unfolding strstr
wanted_status query = elim (strstr query (codes "unread=1")) [
  | none ↦ codes "\"ALL\""
  | some p ↦ codes "\"REC UNREAD\""
]

-- The number behind `index=`, 0 when the query has none.
unfoldable pub query_index : Bytes → ℤ
unfolding strstr atoi
query_index query = elim (strstr query (codes "index=")) [ none ↦ pos 0 | some p ↦ atoi (drop 6 p) ]

-- The properties that an answer by AT commands begins with, and those that it ends with.
abbrev at_source : Bytes → Bytes
at_source ofono_error =
    codes "{"
    ++ json_prop_string (codes "source") (codes "at") false
    ++ json_prop_string (codes "preferred_source") (codes "ofono") true
    ++ json_prop_string (codes "ofono_error") ofono_error true

abbrev at_outcome : Bytes → CommandResult → Bytes → Bytes
at_outcome cmd res parsed =
    json_prop_string (codes "command") cmd true
    ++ json_prop_int (codes "exit_code") res.exit_code true
    ++ json_prop_string (codes "raw") (out_text res) true
    ++ codes ",\"parsed\":"
    ++ parsed
    ++ codes "}"

abbrev ofono_source : Bytes
ofono_source =
    codes "{"
    ++ json_prop_string (codes "source") (codes "ofono") false
    ++ json_prop_string (codes "fallback") (codes "at") true

abbrev ofono_failure : CommandResult → Bytes
ofono_failure res = truncate 512 (or_text res.err (codes "ofono MessageManager.GetMessages failed"))

-- The answer to a list that oFono gave.
unfoldable pub ofono_list_text : CommandResult → Bytes → Bytes
unfolding json_prop_string json_prop_int
ofono_list_text res parsed =
    ofono_source
    ++ json_prop_string (codes "command") (codes "org.ofono.MessageManager.GetMessages") true
    ++ json_prop_int (codes "exit_code") res.exit_code true
    ++ json_prop_string (codes "raw") (out_text res) true
    ++ codes ",\"parsed\":"
    ++ parsed
    ++ codes "}"

-- The answer to reading a message, with and without messages.
unfoldable pub ofono_read_text : ℤ → CommandResult → Bytes → Bytes
unfolding json_prop_string json_prop_int strstr response_json_body
ofono_read_text index res parsed = elim (strstr parsed (codes "\"items\":[]")) [
  | none ↦ command_answer res (
      ofono_source
      ++ json_prop_int (codes "index") index true
      ++ json_prop_string (codes "raw") (out_text res) true
      ++ json_prop_int (codes "exit_code") res.exit_code true
      ++ codes ",\"parsed\":"
      ++ parsed
      ++ codes "}")
  | some p ↦ success (
      ofono_source
      ++ json_prop_int (codes "index") index true
      ++ codes ",\"message\":null,\"parsed\":"
      ++ parsed
      ++ codes "}")
]

unfoldable pub sms_sent_text : Bytes → CommandResult → Bytes
unfolding json_prop_string json_prop_int response_json_body
sms_sent_text number res = command_answer res (
    codes "{"
    ++ json_prop_string (codes "number") number false
    ++ json_prop_int (codes "exit_code") res.exit_code true
    ++ streams res
    ++ codes "}")

unfoldable pub sms_deleted_text : ℤ → CommandResult → Bytes
unfolding json_prop_string json_prop_int response_json_body
sms_deleted_text index res = command_answer res (
    codes "{"
    ++ json_prop_int (codes "index") index false
    ++ json_prop_int (codes "exit_code") res.exit_code true
    ++ json_prop_string (codes "raw") (out_text res) true
    ++ codes "}")

unfoldable pub forward_text : Bool → Bytes → Bytes
unfolding json_prop_string json_prop_int response_json_body
forward_text sent log =
    response_json_body sent
      (codes "{"
        ++ json_prop_int (codes "sent") (if sent then pos 1 else pos 0) false
        ++ json_prop_string (codes "log") log true
        ++ codes "}")
      (some log)

module _ {World : Type 0} (sys : System World) where
  unfoldable pub sms_messages_via_ofono : AppConfig → Prog World (CommandResult × Bytes)
  unfolding dbus_send_call parse_dbus_messages_json
  sms_messages_via_ofono cfg w =
      let (res, w1) =
        dbus_send_call sys.run_capture cfg.ofono_destination cfg.ofono_modem_path
          (codes "org.ofono.MessageManager.GetMessages") [] cfg.at_timeout_ms w in
      ((res.1, parse_dbus_messages_json (out_text res.1)), w1)

  unfoldable pub sms_list_via_at : AppConfig → Bytes → Bytes → Prog World Bytes
  unfolding profile_cmd_or_default list_command wanted_status at_send parse_at_response_json
      json_prop_string json_prop_int response_json_body
  sms_list_via_at cfg query ofono_error w =
      let (tmpl, w1) =
        profile_cmd_or_default sys cfg (codes "sms.list") (codes "command_template")
          (codes "AT+CMGL={status}") w in
      let cmd = list_command tmpl (wanted_status query) in
      let (res, w2) = send_at sys cfg cmd true w1 in
      (
        command_answer res (
            at_source ofono_error
            ++ at_outcome cmd res (parse_at_response_json (some (codes "cmgl")) (out_text res))),
        w2,
      )

  unfoldable pub sms_read_via_at : AppConfig → ℤ → Bytes → Prog World Bytes
  unfolding show_int at_send parse_at_response_json json_prop_string json_prop_int
      response_json_body
  sms_read_via_at cfg index ofono_error w =
      let cmd = truncate 64 (codes "AT+CMGR=" ++ show_int index) in
      let (res, w1) = send_at sys cfg cmd true w in
      (
        command_answer res (
            at_source ofono_error
            ++ json_prop_int (codes "index") index true
            ++ at_outcome cmd res (parse_at_response_json (some (codes "cmgr")) (out_text res))),
        w1,
      )

  unfoldable pub api_sms_list : AppConfig → Bytes → Prog World Bytes
  unfolding sms_messages_via_ofono response_json_body ofono_list_text sms_list_via_at
  api_sms_list cfg query w =
      let ((res, parsed), w1) = sms_messages_via_ofono cfg w in
      if eqb_ℤ res.exit_code (pos 0)
      then (success (ofono_list_text res parsed), w1)
      else sms_list_via_at cfg query (ofono_failure res) w1

  unfoldable pub api_sms_read : AppConfig → Bytes → Prog World Bytes
  unfolding query_index response_json_body sms_messages_via_ofono sms_read_via_at ofono_read_text
  api_sms_read cfg query w =
      if leb_ℤ (query_index query) (pos 0)
      then (failure (codes "missing sms index"), w)
      else let ((res, parsed), w1) = sms_messages_via_ofono cfg w in
        if not (eqb_ℤ res.exit_code (pos 0))
        then sms_read_via_at cfg (query_index query) (ofono_failure res) w1
        else (ofono_read_text (query_index query) res parsed, w1)

  -- `number[0] == '\0'` is tested when neither is null.
  unfoldable pub sms_send_to : AppConfig → Option Bytes → Option Bytes → Prog World Bytes
  unfolding response_json_body sms_sent_text ofono_send_sms
  sms_send_to cfg (some number) (some text) w =
      if is_nil number
      then (failure (codes "number and text are required"), w)
      else let (res, w1) = ofono_send_sms sys.run_capture cfg number text w in
        (sms_sent_text number res.1, w1)
  sms_send_to cfg _ _ w = (failure (codes "number and text are required"), w)

  unfoldable pub api_sms_send : AppConfig → Bytes → Prog World Bytes
  unfolding json_get_string sms_send_to
  api_sms_send cfg body =
      sms_send_to cfg (json_get_string body (codes "number")) (json_get_string body (codes "text"))

  unfoldable pub api_sms_delete : AppConfig → Bytes → Prog World Bytes
  unfolding json_get_int confirmed response_json_body show_int at_send sms_deleted_text
  api_sms_delete cfg body w =
      let index = json_get_int body (codes "index") (pos 0) in
      if leb_ℤ index (pos 0) || not (confirmed body)
      then (failure (codes "index and confirm are required"), w)
      else let (res, w1) =
          send_at sys cfg (truncate 64 (codes "AT+CMGD=" ++ show_int index)) true w in
        (sms_deleted_text index res, w1)

  unfoldable pub api_sms_forward_test : AppConfig → Bytes → Prog World Bytes
  unfolding json_get_string sms_forward_send forward_text
  api_sms_forward_test cfg body w =
      let from = or_text (json_get_string body (codes "from")) (codes "cellmgr") in
      let text =
        or_text (json_get_string body (codes "text")) (codes "CellMgr SMS forwarding test") in
      let ((sent, log), w1) = sms_forward_send sys cfg from text w in (forward_text sent log, w1)
