-- ===== src/Http/Modem.antt =====
-- The handlers of src/http.c for the login, the device and the modem.
use cellmgr.Base.{
  Bool, true, false, not, ◌&&◌, List, [], ◌∷◌, ◌++◌, none, some, if◌then◌else◌, Bytes, codes,
}
use cellmgr.Base.Int.{pos, eqb_ℤ}
use cellmgr.Libc.Text.{str_eq}
use cellmgr.Libc.Number.{show_int}
use cellmgr.Json.Escape.{json_escape, json_prop_string, json_prop_int}
use cellmgr.Json.Lookup.{json_get_string, json_get_int}
use cellmgr.Config.Fields.{AppConfig}
use cellmgr.Command.Capture.{CommandResult}
use cellmgr.Ofono.Send.{
  ofono_get_modem_properties, ofono_get_network_properties, ofono_get_sim_properties,
  ofono_set_powered, ofono_set_online,
}
use cellmgr.At.Send.{at_send}
use cellmgr.Parsers.Dbus.{parse_dbus_properties_json}
use cellmgr.Parsers.Dispatch.{parse_at_response_json}
use cellmgr.System.{System, Prog}
use cellmgr.Http.State.{
  AppState, Services, response_json_body, success, failure, command_answer, out_text, streams,
  send_at,
}
use cellmgr.Http.Template.{profile_cmd_or_default}

-- `json_get_int(body, "confirm", 0)` as a condition.
unfoldable pub confirmed : Bytes → Bool
unfolding json_get_int
confirmed body = not (eqb_ℤ (json_get_int body (codes "confirm") (pos 0)) (pos 0))

unfoldable pub api_auth_login : AppState → Bytes → Bytes
unfolding json_get_string str_eq response_json_body
api_auth_login state body =
    let user = json_get_string body (codes "username") in
    let pass = json_get_string body (codes "password") in
    elim user [
      | none ↦ failure (codes "invalid username or password")
      | some u ↦ elim pass [
        | none ↦ failure (codes "invalid username or password")
        | some p ↦
            if str_eq u state.cfg.auth_user && str_eq p state.cfg.auth_pass
            then success (codes "{\"token\":" ++ json_escape state.session_token ++ codes "}")
            else failure (codes "invalid username or password")
      ]
    ]

-- A key with an exit code, one with what was printed, and one with its properties.
abbrev pub property_group : Bytes → Bytes → Bytes → Bool → CommandResult → Bytes
property_group exit_key raw_key parsed_key comma res =
    json_prop_int exit_key res.exit_code comma
    ++ json_prop_string raw_key (out_text res) true
    ++ codes ","
    ++ json_escape parsed_key
    ++ codes ":"
    ++ parse_dbus_properties_json (out_text res)

unfoldable pub modem_status_text : CommandResult → CommandResult → CommandResult → Bytes
unfolding json_prop_int json_prop_string parse_dbus_properties_json json_escape
modem_status_text modem net sim =
    codes "{"
    ++ property_group (codes "modem_exit") (codes "modem_raw") (codes "modem_parsed") false modem
    ++ property_group (codes "network_exit") (codes "network_raw") (codes "network_parsed") true net
    ++ property_group (codes "sim_exit") (codes "sim_raw") (codes "sim_parsed") true sim
    ++ codes "}"

-- A capability that is read: its name, the capability, the field, the parser, the default command.
pub record RadioItem : Type 0 where
  pub name : Bytes
  pub capability : Bytes
  pub field : Bytes
  pub parser : Bytes
  pub fallback : Bytes

abbrev pub radio_items : List RadioItem
radio_items =
    record {
      name = codes "signal";
      capability = codes "signal.basic";
      field = codes "command";
      parser = codes "csq";
      fallback = codes "AT+CSQ";
    }
    ∷ record {
      name = codes "operator";
      capability = codes "operator.current";
      field = codes "read";
      parser = codes "cops";
      fallback = codes "AT+COPS?";
    }
    ∷ record {
      name = codes "eps_registration";
      capability = codes "registration.eps";
      field = codes "read";
      parser = codes "cereg";
      fallback = codes "AT+CEREG?";
    }
    ∷ record {
      name = codes "nr_registration";
      capability = codes "registration.nr";
      field = codes "read";
      parser = codes "c5greg";
      fallback = codes "AT+C5GREG?";
    }
    ∷ record {
      name = codes "qci";
      capability = codes "qos.qci";
      field = codes "read";
      parser = codes "cgeqos";
      fallback = codes "AT+CGEQOS?";
    }
    ∷ record {
      name = codes "cell_lock";
      capability = codes "network.cell_lock";
      field = codes "read";
      parser = codes "gtcelllock";
      fallback = codes "AT+GTCELLLOCK?";
    }
    ∷ []

-- The answer of a power or online request.
unfoldable pub set_bool_text : Bytes → Bool → CommandResult → Bytes
unfolding json_prop_int json_prop_string response_json_body
set_bool_text key value res = command_answer res (
    codes "{"
    ++ json_prop_int key (if value then pos 1 else pos 0) false
    ++ json_prop_int (codes "exit_code") res.exit_code true
    ++ streams res
    ++ codes "}")

module _ {World : Type 0} (sys : System World) where
  unfoldable pub api_device_status : Services World → AppState → Prog World Bytes
  unfolding response_json_body
  api_device_status services state w =
      let (json, w1) = services.sysinfo_json state.cfg.wan_iface w in (success json, w1)

  unfoldable pub api_overview : Services World → AppState → Prog World Bytes
  unfolding response_json_body json_escape
  api_overview services state w =
      let (device, w1) = services.sysinfo_json state.cfg.wan_iface w in
      (
        success (
            codes "{\"device\":"
            ++ device
            ++ codes ",\"profile\":"
            ++ json_escape state.cfg.active_profile
            ++ codes "}"),
        w1,
      )

  unfoldable pub api_modem_status : AppConfig → Prog World Bytes
  unfolding response_json_body modem_status_text ofono_get_modem_properties
      ofono_get_network_properties ofono_get_sim_properties
  api_modem_status cfg w =
      let (modem, w1) = ofono_get_modem_properties sys.run_capture cfg w in
      let (net, w2) = ofono_get_network_properties sys.run_capture cfg w1 in
      let (sim, w3) = ofono_get_sim_properties sys.run_capture cfg w2 in
      (success (modem_status_text modem.1 net.1 sim.1), w3)

  unfoldable pub append_at_cap_result : AppConfig → RadioItem → Bool → Prog World Bytes
  unfolding profile_cmd_or_default at_send parse_at_response_json json_escape show_int
  append_at_cap_result cfg reading comma w =
      let (cmd, w1) =
        profile_cmd_or_default sys cfg reading.capability reading.field reading.fallback w in
      let (res, w2) = send_at sys cfg cmd true w1 in
      (
        (if comma then codes "," else [])
            ++ json_escape reading.name
            ++ codes ":{\"command\":"
            ++ json_escape cmd
            ++ codes ",\"exit_code\":"
            ++ show_int res.exit_code
            ++ codes ",\"parsed\":"
            ++ parse_at_response_json (some reading.parser) (out_text res)
            ++ codes "}",
        w2,
      )

  -- All radio_items in order, a comma before each but the first.
  unfoldable pub radio_text : AppConfig → List RadioItem → Bool → Prog World Bytes
  unfolding append_at_cap_result
  radio_text cfg [] comma w = ([], w)
  radio_text cfg (reading ∷ rest) comma w =
      let (item, w1) = append_at_cap_result cfg reading comma w in
      let (items, w2) = radio_text cfg rest true w1 in (item ++ items, w2)

  unfoldable pub api_modem_radio : AppConfig → Prog World Bytes
  unfolding radio_text response_json_body
  api_modem_radio cfg w =
      let (items, w1) = radio_text cfg radio_items false w in
      (success (codes "{" ++ items ++ codes "}"), w1)

  -- `value ? 1 : 0` of a key whose default is 1.
  abbrev is_on : Bytes → Bytes → Bool
  is_on body key = not (eqb_ℤ (json_get_int body key (pos 1)) (pos 0))

  unfoldable pub api_modem_set_bool : AppConfig → Bytes → Bool → Prog World Bytes
  unfolding confirmed response_json_body set_bool_text ofono_set_powered ofono_set_online
      json_get_int
  api_modem_set_bool cfg body is_power w =
      if not (confirmed body)
      then (failure (codes "confirm is required"), w)
      else if is_power
      then (let (res, w1) =
            ofono_set_powered sys.run_capture cfg (is_on body (codes "powered")) w in
          (set_bool_text (codes "powered") (is_on body (codes "powered")) res.1, w1))
      else let (res, w1) = ofono_set_online sys.run_capture cfg (is_on body (codes "online")) w in
        (set_bool_text (codes "online") (is_on body (codes "online")) res.1, w1)
