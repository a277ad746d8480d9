-- ===== src/Http/Closed.antt =====
-- What the assignments of src/http.c to `state->cfg` keep, every request keeps.
use cellmgr.Base.{
  ℕ, Bool, false, List, [], ◌∷◌, Option, some, inl, inr, ◌≡◌, Bytes, codes, Bool-cases,
  Option-cases,
}
use cellmgr.Base.Int.{ℤ, pos}
use cellmgr.Json.Lookup.{json_get_string, json_get_int}
use cellmgr.System.{System}
use cellmgr.Db.Tables.{db_profile_exists}
use cellmgr.Profile.Import.{given}
use cellmgr.Http.State.{AppState, Services}
use cellmgr.Http.Request.{HttpRequest, parse_request, request_authorized}
use cellmgr.Http.Route.{Route, all_routes, find_route}
use cellmgr.Http.Profiles.{activate, api_profiles_activate}
use cellmgr.Http.Settings.{
  settings_from, set_account, save_account, schedule, bad_time, api_system_password,
  api_system_scheduled_reboot, api_system_settings_save,
}
use cellmgr.Http.Serve.{
  Turn, not_accepted, accepts, whole, cut, broken, dispatch, route_request, serve_connection,
  http_serve,
}

-- The four places that assign.
pub record IsClosed (P : AppState → Type 0) : Type 0 where
  pub activated : (id : Bytes) (state : AppState) → P state → P (activate id state)
  pub account_set :
      (user pass : Bytes) (state : AppState) → P state → P (set_account user pass state)
  pub scheduled :
      (enabled : Bool) (hour minute : ℤ) (state : AppState)
      → bad_time hour minute ≡ false
      → P state
      → P (schedule enabled hour minute state)
  pub settings_saved :
      (body : Bytes) (state : AppState)
      → P state
      → P (record state { cfg = settings_from body state.cfg })

module _ {World : Type 0} (sys : System World) (services : Services World) (P : AppState → Type 0)
    (laws : IsClosed P) where
  activated-closed :
      (state : AppState) (body : Bytes) (w : World)
      → P state
      → P (api_profiles_activate sys state body w).0.1
  unfolding api_profiles_activate
  activated-closed state body w h =
      elim (Option-cases (given (json_get_string body (codes "id")))) [
        | inl e ↦ rw (e, api_profiles_activate) h
        | inr (id, e) ↦ elim (Bool-cases (db_profile_exists sys id w).0) [
          | inl found ↦ rw (e, api_profiles_activate, found) (laws.activated id state h)
          | inr missing ↦ rw (e, api_profiles_activate, missing) h
        ]
      ]

  rescheduled-closed :
      (state : AppState) (body : Bytes) (w : World)
      → P state
      → P (api_system_scheduled_reboot sys state body w).0.1
  unfolding api_system_scheduled_reboot
  rescheduled-closed state body w h =
      let hour = json_get_int body (codes "hour") (pos 3) in
      let minute = json_get_int body (codes "minute") (pos 30) in
      elim (Bool-cases (bad_time hour minute)) [
        | inl e ↦ rw e h
        | inr e ↦ rw e (laws.scheduled _ hour minute state e h)
      ]

  saved_account-closed :
      (state : AppState) (user pass : Option Bytes) (w : World)
      → P state
      → P (save_account sys state user pass w).0.1
  unfolding save_account
  saved_account-closed state (some user) (some pass) w h = laws.account_set user pass state h
  saved_account-closed state _ _ w h = h

  dispatch-closed :
      (route : Route) (state : AppState) (req : HttpRequest) (w : World)
      → P state
      → P (dispatch sys services route state req w).0.1
  unfolding dispatch api_system_settings_save api_system_password
  dispatch-closed Route.profiles_activate state req w h = activated-closed state req.body w h
  dispatch-closed Route.system_settings_save state req w h = laws.settings_saved req.body state h
  dispatch-closed Route.system_password state req w h = saved_account-closed state _ _ w h
  dispatch-closed Route.system_scheduled_reboot state req w h =
      rescheduled-closed state req.body w h
  dispatch-closed _ state req w h = h

  route_request-closed :
      (state : AppState) (req : HttpRequest) (w : World)
      → P state
      → P (route_request sys services state req w).0.1
  unfolding route_request
  route_request-closed state req w h = elim (Bool-cases (request_authorized state req)) [
    | inr e ↦ rw e h
    | inl e ↦ elim (Option-cases (find_route all_routes req.path)) [
      | inl missing ↦ rw (e, missing) h
      | inr (route, found) ↦ rw (e, found) (dispatch-closed route state req w h)
    ]
  ]

  pub serve_connection-closed :
      (state : AppState) (input : List ℕ) (w : World)
      → P state
      → P (serve_connection sys services state input w).0.1
  unfolding serve_connection
  serve_connection-closed state input w h = elim (Option-cases (parse_request input)) [
    | inl e ↦ rw (e, serve_connection) h
    | inr (req, e) ↦ rw (e, serve_connection) (route_request-closed state req w h)
  ]

  -- What the assignments keep holds behind any connections, if it held before them.
  pub http_serve-closed :
      (turns : List Turn) (state : AppState) (w : World)
      → P state
      → P (http_serve sys services turns state w).0.1
  unfolding http_serve
  http_serve-closed [] state w h = h
  http_serve-closed (not_accepted ∷ rest) state w h = http_serve-closed rest state w h
  http_serve-closed (accepts input whole ∷ rest) state w h =
      http_serve-closed rest _ _ (serve_connection-closed state input w h)
  http_serve-closed (accepts input (cut n) ∷ rest) state w h =
      http_serve-closed rest _ _ (serve_connection-closed state input w h)
  http_serve-closed (accepts input (broken n) ∷ rest) state w h =
      serve_connection-closed state input w h
