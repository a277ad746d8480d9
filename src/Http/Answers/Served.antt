-- ===== src/Http/Answers/Served.antt =====
-- What comes back over the connections that `http_serve` of src/http.c accepts.
use cellmgr.Base.{Bytes, take, ℕ, true, false, List, [], ◌∷◌, inl, inr, Bool-cases, Option-cases}
use cellmgr.System.{System}
use cellmgr.Http.State.{AppState, Services}
use cellmgr.Http.Request.{HttpRequest, parse_request, request_authorized}
use cellmgr.Http.Route.{Route, all_routes, find_route}
use cellmgr.Http.Modem.{api_device_status, api_overview}
use cellmgr.Http.Settings.{settings_from, api_system_password, api_system_settings_save}
use cellmgr.Http.Serve.{
  Turn, not_accepted, accepts, whole, cut, broken, api_drop_caches, dispatch, route_request,
  serve_connection, http_serve,
}
use cellmgr.Http.Answers.Answered.{Answered, json, page, bad_request, html, css, script, icon}
use cellmgr.Http.Answers.Reading.{IsReadable, answered-IsReadable}
use cellmgr.Http.Answers.Handlers.{
  api_at_capabilities-Answered, api_at_history-Answered, api_at_send-Answered,
  api_at_test_capability-Answered, api_auth_login-Answered, api_dbus_commands-Answered,
  api_dbus_events-Answered, api_dbus_test-Answered, api_modem_radio-Answered,
  api_modem_set_bool-Answered, api_modem_status-Answered, api_sms_delete-Answered,
  api_sms_forward_test-Answered, api_sms_list-Answered, api_sms_read-Answered,
  api_sms_send-Answered,
}
use cellmgr.Http.Answers.Stored.{
  api_profiles_activate-Answered, api_profiles_current-Answered, api_profiles_delete-Answered,
  api_profiles_export-Answered, api_profiles_get-Answered, api_profiles_list-Answered,
  api_profiles_save-Answered, api_profiles_validate-Answered, api_settings-Answered,
  api_system_reboot-Answered, api_system_scheduled_reboot-Answered, save_account-Answered,
}
use cellmgr.Http.Answers.Network.{
  api_network_bands-Answered, api_network_cells-Answered, api_network_lock_band-Answered,
  api_network_lock_cell-Answered, api_network_lock_frequency-Answered, api_network_unlock-Answered,
}

-- What goes out in the turns of the loop, of answers that a client can read.
pub data Answers : List Turn → List Bytes → Type 0 where
  nothing : Answers [] []
  unaccepted :
      (rest : List Turn) (answers : List Bytes)
      → Answers rest answers
      → Answers (not_accepted ∷ rest) answers
  in_full :
      (input : List ℕ) (rest : List Turn) (answer : Bytes) (answers : List Bytes)
      → IsReadable answer
      → Answers rest answers
      → Answers (accepts input whole ∷ rest) (answer ∷ answers)
  in_part :
      (input : List ℕ) (n : ℕ) (rest : List Turn) (answer : Bytes) (answers : List Bytes)
      → IsReadable answer
      → Answers rest answers
      → Answers (accepts input (cut n) ∷ rest) (take n answer ∷ answers)
  at_last :
      (input : List ℕ) (n : ℕ) (rest : List Turn) (answer : Bytes)
      → IsReadable answer
      → Answers (accepts input (broken n) ∷ rest) (take n answer ∷ [])

module _ {World : Type 0} (sys : System World) (services : Services World) where
  api_drop_caches-Answered : (w : World) → Answered (api_drop_caches sys services w).0
  unfolding api_drop_caches
  api_drop_caches-Answered w = search json

  dispatch-Answered :
      (route : Route) (state : AppState) (req : HttpRequest) (w : World)
      → Answered (dispatch sys services route state req w).0.0
  unfolding dispatch api_overview api_device_status api_system_settings_save api_system_password
  dispatch-Answered Route.index_page state req w = page html services.web_index_html
  dispatch-Answered Route.style_sheet state req w = page css services.web_style_css
  dispatch-Answered Route.app_script state req w = page script services.web_app_js
  dispatch-Answered Route.favicon state req w = page icon []
  dispatch-Answered Route.overview state req w = search json
  dispatch-Answered Route.auth_login state req w = api_auth_login-Answered state req.body
  dispatch-Answered Route.device_status state req w = search json
  dispatch-Answered Route.device_drop_caches state req w = api_drop_caches-Answered w
  dispatch-Answered Route.modem_status state req w = api_modem_status-Answered sys state.cfg w
  dispatch-Answered Route.modem_radio state req w = api_modem_radio-Answered sys state.cfg w
  dispatch-Answered Route.modem_power state req w =
      api_modem_set_bool-Answered sys state.cfg req.body true w
  dispatch-Answered Route.modem_online state req w =
      api_modem_set_bool-Answered sys state.cfg req.body false w
  dispatch-Answered Route.at_send state req w = api_at_send-Answered sys state.cfg req.body w
  dispatch-Answered Route.at_history state req w = api_at_history-Answered sys req.query w
  dispatch-Answered Route.sms_list state req w = api_sms_list-Answered sys state.cfg req.query w
  dispatch-Answered Route.sms_read state req w = api_sms_read-Answered sys state.cfg req.query w
  dispatch-Answered Route.sms_send state req w = api_sms_send-Answered sys state.cfg req.body w
  dispatch-Answered Route.sms_delete state req w = api_sms_delete-Answered sys state.cfg req.body w
  dispatch-Answered Route.sms_forward_test state req w =
      api_sms_forward_test-Answered sys state.cfg req.body w
  dispatch-Answered Route.at_capabilities state req w = api_at_capabilities-Answered sys state.cfg w
  dispatch-Answered Route.at_test_capability state req w =
      api_at_test_capability-Answered sys state.cfg req.body w
  dispatch-Answered Route.profiles_list state req w = api_profiles_list-Answered sys state.cfg w
  dispatch-Answered Route.profiles_get state req w = api_profiles_get-Answered sys req.query w
  dispatch-Answered Route.profiles_current state req w =
      api_profiles_current-Answered sys state.cfg w
  dispatch-Answered Route.profiles_save state req w = api_profiles_save-Answered sys req.body w
  dispatch-Answered Route.profiles_import state req w = api_profiles_save-Answered sys req.body w
  dispatch-Answered Route.profiles_activate state req w =
      api_profiles_activate-Answered sys state req.body w
  dispatch-Answered Route.profiles_delete state req w =
      api_profiles_delete-Answered sys state.cfg req.body w
  dispatch-Answered Route.profiles_export state req w =
      api_profiles_export-Answered sys state.cfg req.body w
  dispatch-Answered Route.profiles_validate state req w = api_profiles_validate-Answered req.body
  dispatch-Answered Route.system_settings state req w = api_settings-Answered state.cfg
  dispatch-Answered Route.system_settings_save state req w =
      api_settings-Answered (settings_from req.body state.cfg)
  dispatch-Answered Route.system_password state req w = save_account-Answered sys state _ _ w
  dispatch-Answered Route.system_reboot state req w = api_system_reboot-Answered sys req.body w
  dispatch-Answered Route.system_scheduled_reboot state req w =
      api_system_scheduled_reboot-Answered sys state req.body w
  dispatch-Answered Route.system_dbus_commands state req w = api_dbus_commands-Answered
  dispatch-Answered Route.system_dbus_events state req w = api_dbus_events-Answered sys req.query w
  dispatch-Answered Route.system_dbus_test state req w =
      api_dbus_test-Answered sys state.cfg req.body w
  dispatch-Answered Route.network_bands state req w =
      api_network_bands-Answered sys state.cfg req.query w
  dispatch-Answered Route.network_cells state req w = api_network_cells-Answered sys state.cfg w
  dispatch-Answered Route.network_lock_band state req w =
      api_network_lock_band-Answered sys state.cfg req.body w
  dispatch-Answered Route.network_lock_cell state req w =
      api_network_lock_cell-Answered sys state.cfg req.body w
  dispatch-Answered Route.network_lock_frequency state req w =
      api_network_lock_frequency-Answered sys state.cfg req.body w
  dispatch-Answered Route.network_unlock state req w =
      api_network_unlock-Answered sys state.cfg req.body w

  route_request-Answered :
      (state : AppState) (req : HttpRequest) (w : World)
      → Answered (route_request sys services state req w).0.0
  unfolding route_request
  route_request-Answered state req w = elim (Bool-cases (request_authorized state req)) [
    | inr e ↦ rw e (search json)
    | inl e ↦ elim (Option-cases (find_route all_routes req.path)) [
      | inl missing ↦ rw (e, missing) (search json)
      | inr (route, found) ↦ rw (e, found) (dispatch-Answered route state req w)
    ]
  ]

  serve_connection-Answered :
      (state : AppState) (input : List ℕ) (w : World)
      → Answered (serve_connection sys services state input w).0.0
  unfolding serve_connection
  serve_connection-Answered state input w = elim (Option-cases (parse_request input)) [
    | inl e ↦ rw (e, serve_connection) bad_request
    | inr (req, e) ↦ rw (e, serve_connection) (route_request-Answered state req w)
  ]

  serve_connection-IsReadable :
      (state : AppState) (input : List ℕ) (w : World)
      → IsReadable (serve_connection sys services state input w).0.0
  serve_connection-IsReadable state input w =
      answered-IsReadable (serve_connection sys services state input w).0.0
        (serve_connection-Answered state input w)

  -- What goes out in every turn of the loop, whatever the connections send: the whole of an answer that a
  -- client can read, with a status and as many bytes of body as its head announces, or as many bytes of
  -- one as the write took; behind a connection that breaks there is nothing more.
  pub http_serve-Answers :
      (turns : List Turn) (state : AppState) (w : World)
      → Answers turns (http_serve sys services turns state w).0.0
  unfolding http_serve
  http_serve-Answers [] state w = nothing
  http_serve-Answers (not_accepted ∷ rest) state w =
      unaccepted rest _ (http_serve-Answers rest state w)
  http_serve-Answers (accepts input whole ∷ rest) state w =
      let ((bytes, state1), w1) = serve_connection sys services state input w in
      in_full input rest bytes _ (serve_connection-IsReadable state input w)
        (http_serve-Answers rest state1 w1)
  http_serve-Answers (accepts input (cut n) ∷ rest) state w =
      let ((bytes, state1), w1) = serve_connection sys services state input w in
      in_part input n rest bytes _ (serve_connection-IsReadable state input w)
        (http_serve-Answers rest state1 w1)
  http_serve-Answers (accepts input (broken n) ∷ rest) state w =
      at_last input n rest (serve_connection sys services state input w).0.0
        (serve_connection-IsReadable state input w)
