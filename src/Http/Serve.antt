-- ===== src/Http/Serve.antt =====
-- `route_request` of src/http.c, and the loop of `http_serve` over the connections.
use cellmgr.Base.{ℕ, true, false, not, List, [], ◌∷◌, none, some, if◌then◌else◌, Bytes, codes, take}
use cellmgr.System.{System, Prog}
use cellmgr.Http.State.{AppState, Services, response_raw, response_json_body, failure}
use cellmgr.Http.Request.{HttpRequest, parse_request, request_authorized}
use cellmgr.Http.Route.{Route, all_routes, find_route}
use cellmgr.Http.Commands.{
  api_dbus_commands, api_at_send, api_at_history, api_at_capabilities, api_at_test_capability,
  api_dbus_events, api_dbus_test,
}
use cellmgr.Http.Modem.{
  api_auth_login, api_device_status, api_modem_radio, api_modem_set_bool, api_modem_status,
  api_overview,
}
use cellmgr.Http.Network.{
  api_network_bands, api_network_cells, api_network_lock_band, api_network_lock_cell,
  api_network_lock_frequency, api_network_unlock,
}
use cellmgr.Http.Profiles.{
  api_profiles_activate, api_profiles_current, api_profiles_delete, api_profiles_export,
  api_profiles_get, api_profiles_list, api_profiles_save, api_profiles_validate,
}
use cellmgr.Http.Settings.{
  api_settings, api_system_password, api_system_reboot, api_system_scheduled_reboot,
  api_system_settings_save,
}
use cellmgr.Http.Sms.{
  api_sms_delete, api_sms_forward_test, api_sms_list, api_sms_read, api_sms_send,
}

-- What becomes of the bytes that are written, since no call looks at what `dprintf` and `write` return:
-- all go out, or the first `n`; or SIGPIPE, which nothing ignores, ends the process behind the first
-- `n` because the client has gone.
pub data Delivery : Type 0 where
  whole : Delivery
  cut broken : ℕ → Delivery

-- A turn of the loop: `accept` fails, or a connection is read from and answered.
pub data Turn : Type 0 where
  not_accepted : Turn
  accepts : List ℕ → Delivery → Turn

module _ {World : Type 0} (sys : System World) (services : Services World) where
  -- An answer that leaves the state, after a piece of the program, at once, and without JSON.
  abbrev pub keep : AppState → Prog World Bytes → Prog World (Bytes × AppState)
  keep state prog w = let (bytes, w1) = prog w in ((bytes, state), w1)

  abbrev answer : AppState → Bytes → Prog World (Bytes × AppState)
  answer state bytes w = ((bytes, state), w)

  abbrev page : AppState → Bytes → Bytes → Prog World (Bytes × AppState)
  page state ctype body = answer state (response_raw 200 ctype body)

  unfoldable pub api_drop_caches : Prog World Bytes
  unfolding response_json_body
  api_drop_caches w =
      let (ok, w1) = services.sysinfo_drop_caches w in
      (response_json_body ok (codes "{\"dropped\":true}") (some (codes "drop caches failed")), w1)

  -- The branch of each path.
  unfoldable pub dispatch : Route → AppState → HttpRequest → Prog World (Bytes × AppState)
  unfolding response_raw api_drop_caches api_at_capabilities api_at_history api_at_send
      api_at_test_capability api_auth_login api_dbus_commands api_dbus_events api_dbus_test
      api_device_status api_modem_radio api_modem_set_bool api_modem_status api_network_bands
      api_network_cells api_network_lock_band api_network_lock_cell api_network_lock_frequency
      api_network_unlock api_overview api_profiles_activate api_profiles_current api_profiles_delete
      api_profiles_export api_profiles_get api_profiles_list api_profiles_save api_profiles_validate
      api_settings api_sms_delete api_sms_forward_test api_sms_list api_sms_read api_sms_send
      api_system_password api_system_reboot api_system_scheduled_reboot api_system_settings_save
  dispatch Route.index_page state req = page state (codes "text/html") services.web_index_html
  dispatch Route.style_sheet state req = page state (codes "text/css") services.web_style_css
  dispatch Route.app_script state req =
      page state (codes "application/javascript") services.web_app_js
  dispatch Route.favicon state req = page state (codes "image/x-icon") []
  dispatch Route.overview state req = keep state (api_overview sys services state)
  dispatch Route.auth_login state req = answer state (api_auth_login state req.body)
  dispatch Route.device_status state req = keep state (api_device_status sys services state)
  dispatch Route.device_drop_caches state req = keep state (api_drop_caches)
  dispatch Route.modem_status state req = keep state (api_modem_status sys state.cfg)
  dispatch Route.modem_radio state req = keep state (api_modem_radio sys state.cfg)
  dispatch Route.modem_power state req = keep state (api_modem_set_bool sys state.cfg req.body true)
  dispatch Route.modem_online state req =
      keep state (api_modem_set_bool sys state.cfg req.body false)
  dispatch Route.at_send state req = keep state (api_at_send sys state.cfg req.body)
  dispatch Route.at_history state req = keep state (api_at_history sys req.query)
  dispatch Route.sms_list state req = keep state (api_sms_list sys state.cfg req.query)
  dispatch Route.sms_read state req = keep state (api_sms_read sys state.cfg req.query)
  dispatch Route.sms_send state req = keep state (api_sms_send sys state.cfg req.body)
  dispatch Route.sms_delete state req = keep state (api_sms_delete sys state.cfg req.body)
  dispatch Route.sms_forward_test state req =
      keep state (api_sms_forward_test sys state.cfg req.body)
  dispatch Route.at_capabilities state req = keep state (api_at_capabilities sys state.cfg)
  dispatch Route.at_test_capability state req =
      keep state (api_at_test_capability sys state.cfg req.body)
  dispatch Route.profiles_list state req = keep state (api_profiles_list sys state.cfg)
  dispatch Route.profiles_get state req = keep state (api_profiles_get sys req.query)
  dispatch Route.profiles_current state req = keep state (api_profiles_current sys state.cfg)
  dispatch Route.profiles_save state req = keep state (api_profiles_save sys req.body)
  dispatch Route.profiles_import state req = keep state (api_profiles_save sys req.body)
  dispatch Route.profiles_activate state req = api_profiles_activate sys state req.body
  dispatch Route.profiles_delete state req = keep state (api_profiles_delete sys state.cfg req.body)
  dispatch Route.profiles_export state req = keep state (api_profiles_export sys state.cfg req.body)
  dispatch Route.profiles_validate state req = answer state (api_profiles_validate req.body)
  dispatch Route.system_settings state req = answer state (api_settings state.cfg)
  dispatch Route.system_settings_save state req = api_system_settings_save sys state req.body
  dispatch Route.system_password state req = api_system_password sys state req.body
  dispatch Route.system_reboot state req = keep state (api_system_reboot sys req.body)
  dispatch Route.system_scheduled_reboot state req = api_system_scheduled_reboot sys state req.body
  dispatch Route.system_dbus_commands state req = answer state api_dbus_commands
  dispatch Route.system_dbus_events state req = keep state (api_dbus_events sys req.query)
  dispatch Route.system_dbus_test state req = keep state (api_dbus_test sys state.cfg req.body)
  dispatch Route.network_bands state req = keep state (api_network_bands sys state.cfg req.query)
  dispatch Route.network_cells state req = keep state (api_network_cells sys state.cfg)
  dispatch Route.network_lock_band state req =
      keep state (api_network_lock_band sys state.cfg req.body)
  dispatch Route.network_lock_cell state req =
      keep state (api_network_lock_cell sys state.cfg req.body)
  dispatch Route.network_lock_frequency state req =
      keep state (api_network_lock_frequency sys state.cfg req.body)
  dispatch Route.network_unlock state req = keep state (api_network_unlock sys state.cfg req.body)

  unfoldable pub route_request : AppState → HttpRequest → Prog World (Bytes × AppState)
  unfolding request_authorized find_route dispatch response_json_body
  route_request state req =
      if not (request_authorized state req)
      then answer state (failure (codes "unauthorized"))
      else elim (find_route all_routes req.path) [
        | none ↦ answer state (failure (codes "not found"))
        | some route ↦ dispatch route state req
      ]

  -- What is done with one connection, of which `input` is read.
  unfoldable pub serve_connection : AppState → List ℕ → Prog World (Bytes × AppState)
  unfolding parse_request route_request response_raw
  serve_connection state input = elim (parse_request input) [
    | none ↦ answer state (response_raw 400 (codes "text/plain") (codes "bad request"))
    | some req ↦ route_request state req
  ]

  -- The loop, over its turns in order, and what goes out on the connections. A turn whose `read`, or
  -- whose handler, does not come back is not in the list: it is the last one, and nothing is behind it.
  unfoldable pub http_serve : List Turn → AppState → Prog World (List Bytes × AppState)
  unfolding serve_connection
  http_serve [] state w = (([], state), w)
  http_serve (not_accepted ∷ rest) state w = http_serve rest state w
  http_serve (accepts input delivery ∷ rest) state w =
      let ((bytes, state1), w1) = serve_connection state input w in
      let ((answers, state2), w2) = http_serve rest state1 w1 in
      elim delivery [
        | whole ↦ ((bytes ∷ answers, state2), w2)
        | cut n ↦ ((take n bytes ∷ answers, state2), w2)
        | broken n ↦ ((take n bytes ∷ [], state1), w1)
      ]
