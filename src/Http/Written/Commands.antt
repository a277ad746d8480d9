-- ===== src/Http/Written/Commands.antt =====
-- `api_dbus_commands` of src/http.c answers with JSON.
use cellmgr.Base.{false, true, ◌++◌, Bytes, codes}
use cellmgr.Json.Escape.{escape_byte, escape_bytes, json_escape, json_prop_string}
use cellmgr.Json.Grammar.{
  Json, Members, Elements, object, array, element, elements, first_string, first_member,
  next_string, next_member, json_escape-Json,
}
use cellmgr.Http.Commands.{api_dbus_commands, dbus_commands_text}
use cellmgr.Http.Written.{Written, success-Written}

method-Members :
    (name method : Bytes)
    → Members (
        codes "{"
        ++ json_prop_string (codes "name") name false
        ++ json_prop_string (codes "method") method true)
method-Members name method =
    next_string _ (codes "method") method (first_string (codes "name") name)

commands-Elements : Elements (
    codes
      "[{\"name\":\"manager_get_modems\",\"path\":\"/\",\"method\":\"org.ofono.Manager.GetModems\"},"
    ++ codes "{\"name\":\"modem_properties\",\"method\":\"org.ofono.Modem.GetProperties\"},"
    ++ codes
        "{\"name\":\"network_properties\",\"method\":\"org.ofono.NetworkRegistration.GetProperties\"},"
    ++ codes "{\"name\":\"sim_properties\",\"method\":\"org.ofono.SimManager.GetProperties\"},"
    ++ codes
        "{\"name\":\"set_online_false\",\"method\":\"org.ofono.Modem.SetProperty\",\"args\":[\"string:Online\",\"variant:boolean:false\"]},"
    ++ codes
        "{\"name\":\"send_at\",\"method\":\"org.ofono.Modem.SendAtcmd\",\"args\":[\"string:AT+CGSN\"]}")
unfolding json_prop_string json_escape escape_bytes escape_byte
commands-Elements =
    elements _ _
      (elements _ _
        (elements _ _
          (elements _ _
            (elements _ _
              (element _ (
                object _ (
                  next_string _ (codes "method") (codes "org.ofono.Manager.GetModems") (
                    next_string _ (codes "path") (codes "/")
                      (first_string (codes "name") (codes "manager_get_modems"))))))
              (object _ (
                method-Members (codes "modem_properties") (codes "org.ofono.Modem.GetProperties"))))
            (object _ (
              method-Members (codes "network_properties")
                (codes "org.ofono.NetworkRegistration.GetProperties"))))
          (object _
            (method-Members (codes "sim_properties") (codes "org.ofono.SimManager.GetProperties"))))
        (object _ (
          next_member _ (codes "args") _
            (method-Members (codes "set_online_false") (codes "org.ofono.Modem.SetProperty"))
            (array _ (
              elements _ _ (element _ (json_escape-Json (codes "string:Online")))
                (json_escape-Json (codes "variant:boolean:false")))))))
      (object _ (
        next_member _ (codes "args") _
          (method-Members (codes "send_at") (codes "org.ofono.Modem.SendAtcmd"))
          (array _ (element _ (json_escape-Json (codes "string:AT+CGSN"))))))

monitors-Elements : Elements (
    codes
      "[\"sender='org.ofono'\",\"destination='org.ofono'\",\"interface='org.ofono.MessageManager'\"")
unfolding json_escape escape_bytes escape_byte
monitors-Elements =
    elements _ _
      (elements _ _ (element _ (json_escape-Json (codes "sender='org.ofono'")))
        (json_escape-Json (codes "destination='org.ofono'")))
      (json_escape-Json (codes "interface='org.ofono.MessageManager'"))

dbus_commands_text-Json : Json dbus_commands_text
unfolding json_escape escape_bytes escape_byte
dbus_commands_text-Json = object _ (
    next_member _ (codes "monitors") _
      (first_member (codes "commands") _ (array _ commands-Elements)) (array _ monitors-Elements))

pub api_dbus_commands-Written : Written api_dbus_commands
unfolding api_dbus_commands
api_dbus_commands-Written = success-Written dbus_commands_text dbus_commands_text-Json
