-- ===== src/Http/Written/Routes.antt =====
-- The paths of `route_request` of src/http.c whose answers are JSON whatever a request holds and
-- whatever the modem, the programs and the database answer. The others pass on text as it came, from
-- the database, the bus or the kernel, or give the pages.
use cellmgr.Base.{true, false, Option, none, some, inl, inr, codes, subst, Bool-cases, Option-cases}
use cellmgr.System.{System}
use cellmgr.Json.Escape.{escape_byte, escape_bytes, json_escape}
use cellmgr.Json.Grammar.{object, truth, first_member}
use cellmgr.Http.State.{AppState, Services}
use cellmgr.Http.Request.{HttpRequest, request_authorized}
use cellmgr.Http.Route.{Route, all_routes, find_route}
use cellmgr.Http.Settings.{settings_from, api_system_password, api_system_settings_save}
use cellmgr.Http.Serve.{api_drop_caches, dispatch, route_request}
use cellmgr.Http.Written.{Written, failure-Written, json_body-Written}
use cellmgr.Http.Written.Commands.{api_dbus_commands-Written}
use cellmgr.Http.Written.Modem.{
  api_auth_login-Written, api_modem_status-Written, api_modem_set_bool-Written, api_at_send-Written,
  api_sms_send-Written, api_sms_delete-Written, api_sms_forward_test-Written,
  api_at_test_capability-Written, api_dbus_test-Written,
}
use cellmgr.Http.Written.Radio.{api_modem_radio-Written}
use cellmgr.Http.Written.Network.{
  api_network_cells-Written, api_network_lock_band-Written, api_network_lock_cell-Written,
  api_network_lock_frequency-Written, api_network_unlock-Written,
}
use cellmgr.Http.Written.Settings.{
  api_profiles_save-Written, api_profiles_activate-Written, api_profiles_delete-Written,
  api_profiles_validate-Written, api_settings-Written, save_account-Written,
  api_system_reboot-Written, api_system_scheduled_reboot-Written,
}

-- The paths whose handlers write every word of their answer.
pub data WritesJson : Route → Type 0 where
  auth_login : WritesJson Route.auth_login
  device_drop_caches : WritesJson Route.device_drop_caches
  modem_status : WritesJson Route.modem_status
  modem_radio : WritesJson Route.modem_radio
  modem_power : WritesJson Route.modem_power
  modem_online : WritesJson Route.modem_online
  at_send : WritesJson Route.at_send
  sms_send : WritesJson Route.sms_send
  sms_delete : WritesJson Route.sms_delete
  sms_forward_test : WritesJson Route.sms_forward_test
  at_test_capability : WritesJson Route.at_test_capability
  profiles_save : WritesJson Route.profiles_save
  profiles_import : WritesJson Route.profiles_import
  profiles_activate : WritesJson Route.profiles_activate
  profiles_delete : WritesJson Route.profiles_delete
  profiles_validate : WritesJson Route.profiles_validate
  system_settings : WritesJson Route.system_settings
  system_settings_save : WritesJson Route.system_settings_save
  system_password : WritesJson Route.system_password
  system_reboot : WritesJson Route.system_reboot
  system_scheduled_reboot : WritesJson Route.system_scheduled_reboot
  system_dbus_commands : WritesJson Route.system_dbus_commands
  system_dbus_test : WritesJson Route.system_dbus_test
  network_cells : WritesJson Route.network_cells
  network_lock_band : WritesJson Route.network_lock_band
  network_lock_cell : WritesJson Route.network_lock_cell
  network_lock_frequency : WritesJson Route.network_lock_frequency
  network_unlock : WritesJson Route.network_unlock

-- Such a path, or one that is not there.
abbrev pub IsWritten : Option Route → Type 0
IsWritten none = Unit
IsWritten (some route) = WritesJson route

module _ {World : Type 0} (sys : System World) (services : Services World) where
  api_drop_caches-Written : (w : World) → Written (api_drop_caches sys services w).0
  unfolding api_drop_caches json_escape escape_bytes escape_byte
  api_drop_caches-Written w =
      json_body-Written (services.sysinfo_drop_caches w).0 (codes "{\"dropped\":true}")
        (some (codes "drop caches failed"))
        (object _ (first_member (codes "dropped") (codes "true") truth))

  dispatch-Written :
      {route : Route}
      → WritesJson route
      → (state : AppState) (req : HttpRequest) (w : World)
      → Written (dispatch sys services route state req w).0.0
  unfolding dispatch api_system_settings_save api_system_password
  dispatch-Written auth_login state req w = api_auth_login-Written state req.body
  dispatch-Written device_drop_caches state req w = api_drop_caches-Written w
  dispatch-Written modem_status state req w = api_modem_status-Written sys state.cfg w
  dispatch-Written modem_radio state req w = api_modem_radio-Written sys state.cfg w
  dispatch-Written modem_power state req w =
      api_modem_set_bool-Written sys state.cfg req.body true w
  dispatch-Written modem_online state req w =
      api_modem_set_bool-Written sys state.cfg req.body false w
  dispatch-Written at_send state req w = api_at_send-Written sys state.cfg req.body w
  dispatch-Written sms_send state req w = api_sms_send-Written sys state.cfg req.body w
  dispatch-Written sms_delete state req w = api_sms_delete-Written sys state.cfg req.body w
  dispatch-Written sms_forward_test state req w =
      api_sms_forward_test-Written sys state.cfg req.body w
  dispatch-Written at_test_capability state req w =
      api_at_test_capability-Written sys state.cfg req.body w
  dispatch-Written profiles_save state req w = api_profiles_save-Written sys req.body w
  dispatch-Written profiles_import state req w = api_profiles_save-Written sys req.body w
  dispatch-Written profiles_activate state req w =
      api_profiles_activate-Written sys state req.body w
  dispatch-Written profiles_delete state req w =
      api_profiles_delete-Written sys state.cfg req.body w
  dispatch-Written profiles_validate state req w = api_profiles_validate-Written req.body
  dispatch-Written system_settings state req w = api_settings-Written state.cfg
  dispatch-Written system_settings_save state req w =
      api_settings-Written (settings_from req.body state.cfg)
  dispatch-Written system_password state req w = save_account-Written sys state _ _ w
  dispatch-Written system_reboot state req w = api_system_reboot-Written sys req.body w
  dispatch-Written system_scheduled_reboot state req w =
      api_system_scheduled_reboot-Written sys state req.body w
  dispatch-Written system_dbus_commands state req w = api_dbus_commands-Written
  dispatch-Written system_dbus_test state req w = api_dbus_test-Written sys state.cfg req.body w
  dispatch-Written network_cells state req w = api_network_cells-Written sys state.cfg w
  dispatch-Written network_lock_band state req w =
      api_network_lock_band-Written sys state.cfg req.body w
  dispatch-Written network_lock_cell state req w =
      api_network_lock_cell-Written sys state.cfg req.body w
  dispatch-Written network_lock_frequency state req w =
      api_network_lock_frequency-Written sys state.cfg req.body w
  dispatch-Written network_unlock state req w = api_network_unlock-Written sys state.cfg req.body w

  -- On a path whose handler writes its answer itself, and on one that is not there, the body of the
  -- answer is JSON, with the permission to use the server and without it, whatever the request holds and
  -- whatever the modem, the programs that are run and the database answer.
  pub route_request-Written :
      (state : AppState) (req : HttpRequest) (w : World)
      → IsWritten (find_route all_routes req.path)
      → Written (route_request sys services state req w).0.0
  unfolding route_request
  route_request-Written state req w h = elim (Bool-cases (request_authorized state req)) [
    | inr e ↦ rw e (search failure-Written)
    | inl e ↦ elim (Option-cases (find_route all_routes req.path)) [
      | inl missing ↦ rw (e, missing) (search failure-Written)
      | inr (route, found) ↦ rw (e, found) (dispatch-Written (subst IsWritten found h) state req w)
    ]
  ]
