-- ===== src/Http/Route.antt =====
-- The paths of `route_request` of src/http.c.
use cellmgr.Base.{List, [], ◌∷◌, Option, none, some, if◌then◌else◌, Bytes, codes}
use cellmgr.Libc.Text.{str_eq}

-- The paths that are compared, one constructor for each.
pub data Route : Type 0 where
  index_page : Route
  style_sheet : Route
  app_script : Route
  favicon : Route
  overview : Route
  auth_login : Route
  device_status : Route
  device_drop_caches : Route
  modem_status : Route
  modem_radio : Route
  modem_power : Route
  modem_online : Route
  at_send : Route
  at_history : Route
  sms_list : Route
  sms_read : Route
  sms_send : Route
  sms_delete : Route
  sms_forward_test : Route
  at_capabilities : Route
  at_test_capability : Route
  profiles_list : Route
  profiles_get : Route
  profiles_current : Route
  profiles_save : Route
  profiles_import : Route
  profiles_activate : Route
  profiles_delete : Route
  profiles_export : Route
  profiles_validate : Route
  system_settings : Route
  system_settings_save : Route
  system_password : Route
  system_reboot : Route
  system_scheduled_reboot : Route
  system_dbus_commands : Route
  system_dbus_events : Route
  system_dbus_test : Route
  network_bands : Route
  network_cells : Route
  network_lock_band : Route
  network_lock_cell : Route
  network_lock_frequency : Route
  network_unlock : Route

abbrev pub route_path : Route → Bytes
route_path index_page = codes "/"
route_path style_sheet = codes "/style.css"
route_path app_script = codes "/app.js"
route_path favicon = codes "/favicon.ico"
route_path overview = codes "/api/overview"
route_path auth_login = codes "/api/auth/login"
route_path device_status = codes "/api/device/status"
route_path device_drop_caches = codes "/api/device/drop-caches"
route_path modem_status = codes "/api/modem/status"
route_path modem_radio = codes "/api/modem/radio"
route_path modem_power = codes "/api/modem/power"
route_path modem_online = codes "/api/modem/online"
route_path at_send = codes "/api/at/send"
route_path at_history = codes "/api/at/history"
route_path sms_list = codes "/api/sms/list"
route_path sms_read = codes "/api/sms/read"
route_path sms_send = codes "/api/sms/send"
route_path sms_delete = codes "/api/sms/delete"
route_path sms_forward_test = codes "/api/sms/forward-test"
route_path at_capabilities = codes "/api/at/capabilities"
route_path at_test_capability = codes "/api/at/test-capability"
route_path profiles_list = codes "/api/profiles"
route_path profiles_get = codes "/api/profiles/get"
route_path profiles_current = codes "/api/profiles/current"
route_path profiles_save = codes "/api/profiles/save"
route_path profiles_import = codes "/api/profiles/import"
route_path profiles_activate = codes "/api/profiles/activate"
route_path profiles_delete = codes "/api/profiles/delete"
route_path profiles_export = codes "/api/profiles/export"
route_path profiles_validate = codes "/api/profiles/validate"
route_path system_settings = codes "/api/system/settings"
route_path system_settings_save = codes "/api/system/settings-save"
route_path system_password = codes "/api/system/password"
route_path system_reboot = codes "/api/system/reboot"
route_path system_scheduled_reboot = codes "/api/system/scheduled-reboot"
route_path system_dbus_commands = codes "/api/system/dbus/commands"
route_path system_dbus_events = codes "/api/system/dbus/events"
route_path system_dbus_test = codes "/api/system/dbus/test"
route_path network_bands = codes "/api/network/bands"
route_path network_cells = codes "/api/network/cells"
route_path network_lock_band = codes "/api/network/lock-band"
route_path network_lock_cell = codes "/api/network/lock-cell"
route_path network_lock_frequency = codes "/api/network/lock-frequency"
route_path network_unlock = codes "/api/network/unlock"

-- The comparisons in the order of the source.
abbrev pub all_routes : List Route
all_routes =
    index_page ∷ style_sheet ∷ app_script ∷ favicon ∷ overview ∷ auth_login ∷ device_status
    ∷ device_drop_caches ∷ modem_status ∷ modem_radio ∷ modem_power ∷ modem_online ∷ at_send
    ∷ at_history ∷ sms_list ∷ sms_read ∷ sms_send ∷ sms_delete ∷ sms_forward_test ∷ at_capabilities
    ∷ at_test_capability ∷ profiles_list ∷ profiles_get ∷ profiles_current ∷ profiles_save
    ∷ profiles_import ∷ profiles_activate ∷ profiles_delete ∷ profiles_export ∷ profiles_validate
    ∷ system_settings ∷ system_settings_save ∷ system_password ∷ system_reboot
    ∷ system_scheduled_reboot ∷ system_dbus_commands ∷ system_dbus_events ∷ system_dbus_test
    ∷ network_bands ∷ network_cells ∷ network_lock_band ∷ network_lock_cell ∷ network_lock_frequency
    ∷ network_unlock ∷ []

-- The first of `routes` whose path is `path`.
unfoldable pub find_route : List Route → Bytes → Option Route
unfolding str_eq
find_route [] path = none
find_route (route ∷ rest) path =
    if str_eq path (route_path route) then some route else find_route rest path
