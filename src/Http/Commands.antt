-- ===== src/Http/Commands.antt =====
-- The handlers of src/http.c for AT commands and D-Bus.
use cellmgr.Base.{true, false, not, [], ◌++◌, none, some, if◌then◌else◌, Bytes, codes, drop}
use cellmgr.Base.Int.{ℤ, pos, eqb_ℤ}
use cellmgr.Libc.Text.{is_nil, strstr}
use cellmgr.Libc.Number.{atoi}
use cellmgr.Json.Escape.{json_escape, json_prop_string, json_prop_int}
use cellmgr.Json.Lookup.{json_get_string}
use cellmgr.Config.Fields.{AppConfig}
use cellmgr.Command.Call.{dbus_send_call}
use cellmgr.Command.Capture.{CommandResult}
use cellmgr.At.Send.{at_send}
use cellmgr.System.{System, Prog}
use cellmgr.Db.Lists.{db_list_at_history_json, db_list_dbus_events_json}
use cellmgr.Profile.Import.{profile_get_active_json}
use cellmgr.Http.State.{
  or_text, response_json_body, success, failure, command_answer, out_text, list_answer, streams,
  send_at,
}
use cellmgr.Http.Template.{profile_cmd_or_default}

-- The limit of a list, `dflt` when the query names none.
abbrev limit_of : Bytes → ℤ → ℤ
limit_of query dflt = elim (strstr query (codes "limit=")) [
  | none ↦ dflt
  | some p ↦ atoi (drop 6 p)
]

abbrev pub dbus_commands_text : Bytes
dbus_commands_text =
    codes "{\"commands\":["
    ++ codes
        "{\"name\":\"manager_get_modems\",\"path\":\"/\",\"method\":\"org.ofono.Manager.GetModems\"},"
    ++ codes "{\"name\":\"modem_properties\",\"method\":\"org.ofono.Modem.GetProperties\"},"
    ++ codes
        "{\"name\":\"network_properties\",\"method\":\"org.ofono.NetworkRegistration.GetProperties\"},"
    ++ codes "{\"name\":\"sim_properties\",\"method\":\"org.ofono.SimManager.GetProperties\"},"
    ++ codes
        "{\"name\":\"set_online_false\",\"method\":\"org.ofono.Modem.SetProperty\",\"args\":[\"string:Online\",\"variant:boolean:false\"]},"
    ++ codes
        "{\"name\":\"send_at\",\"method\":\"org.ofono.Modem.SendAtcmd\",\"args\":[\"string:AT+CGSN\"]}"
    ++ codes
        "],\"monitors\":[\"sender='org.ofono'\",\"destination='org.ofono'\",\"interface='org.ofono.MessageManager'\"]}"

unfoldable pub api_dbus_commands : Bytes
unfolding response_json_body
api_dbus_commands = success dbus_commands_text

-- The answer of a command that is named under `key`.
unfoldable pub command_text : Bytes → Bytes → CommandResult → Bytes
unfolding json_prop_int json_prop_string response_json_body
command_text key cmd res = command_answer res (
    codes "{"
    ++ json_prop_string key cmd false
    ++ json_prop_int (codes "exit_code") res.exit_code true
    ++ streams res
    ++ codes "}")

module _ {World : Type 0} (sys : System World) where
  unfoldable pub api_at_send : AppConfig → Bytes → Prog World Bytes
  unfolding json_get_string response_json_body at_send command_text
  api_at_send cfg body w = elim (json_get_string body (codes "command")) [
    | none ↦ (failure (codes "missing command"), w)
    | some cmd ↦
        let (res, w1) = send_at sys cfg cmd (not (eqb_ℤ cfg.allow_dangerous_at (pos 0))) w in
        (command_text (codes "command") cmd res, w1)
  ]

  unfoldable pub api_at_history : Bytes → Prog World Bytes
  unfolding strstr atoi db_list_at_history_json response_json_body
  api_at_history query w =
      let (json, w1) = db_list_at_history_json sys (limit_of query (pos 30)) w in
      (list_answer json (codes "list at history failed"), w1)

  unfoldable pub api_at_capabilities : AppConfig → Prog World Bytes
  unfolding profile_get_active_json response_json_body json_escape
  api_at_capabilities cfg w =
      let (profile, w1) = profile_get_active_json sys cfg w in
      (
        elim profile [
          | none ↦ failure (codes "active profile not found")
          | some json ↦ success (
              codes "{\"profile_id\":"
              ++ json_escape cfg.active_profile
              ++ codes ",\"profile\":"
              ++ json
              ++ codes "}")
        ],
        w1,
      )

  abbrev pub capability_text : Bytes → Bytes → Bytes → CommandResult → Bytes
  capability_text cap field cmd res = command_answer res (
      codes "{"
      ++ json_prop_string (codes "capability") cap false
      ++ json_prop_string (codes "field") field true
      ++ json_prop_string (codes "command") cmd true
      ++ json_prop_int (codes "exit_code") res.exit_code true
      ++ json_prop_string (codes "raw") (out_text res) true
      ++ codes "}")

  unfoldable pub api_at_test_capability : AppConfig → Bytes → Prog World Bytes
  unfolding json_get_string response_json_body at_send profile_cmd_or_default json_prop_string
      json_prop_int
  api_at_test_capability cfg body w = elim (json_get_string body (codes "capability")) [
    | none ↦ (failure (codes "capability is required"), w)
    | some cap ↦
        let field = or_text (json_get_string body (codes "field")) (codes "read") in
        let (cmd, w1) = profile_cmd_or_default sys cfg cap field [] w in
        if is_nil cmd
        then (failure (codes "capability command not found"), w1)
        else let (res, w2) = send_at sys cfg cmd true w1 in (capability_text cap field cmd res, w2)
  ]

  unfoldable pub api_dbus_events : Bytes → Prog World Bytes
  unfolding strstr atoi db_list_dbus_events_json response_json_body
  api_dbus_events query w =
      let (json, w1) = db_list_dbus_events_json sys (limit_of query (pos 50)) w in
      (list_answer json (codes "list dbus events failed"), w1)

  unfoldable pub api_dbus_test : AppConfig → Bytes → Prog World Bytes
  unfolding json_get_string dbus_send_call command_text
  api_dbus_test cfg body w =
      let method =
        or_text (json_get_string body (codes "method")) (codes "org.ofono.Modem.GetProperties") in
      let (res, w1) =
        dbus_send_call sys.run_capture cfg.ofono_destination cfg.ofono_modem_path method []
          cfg.at_timeout_ms w in
      (command_text (codes "method") method res.1, w1)
