-- ===== src/Http/Confirm.antt =====
-- The operations of src/http.c that ask for `confirm`.
use cellmgr.Base.{
  Bool, true, false, ◌++◌, none, some, inl, inr, ◌≡◌, refl, sym, subst, arith, Bytes, codes,
  Bool-cases, Option-cases,
}
use cellmgr.Base.Int.{pos, leb_ℤ}
use cellmgr.Json.Lookup.{json_get_int}
use cellmgr.System.{System}
use cellmgr.Http.State.{AppState, Services}
use cellmgr.Http.Request.{HttpRequest, request_authorized}
use cellmgr.Http.Route.{Route, all_routes, find_route}
use cellmgr.Http.Modem.{confirmed, api_modem_set_bool}
use cellmgr.Http.Sms.{api_sms_delete}
use cellmgr.Http.Settings.{api_system_reboot}
use cellmgr.Http.Network.{
  api_network_lock_band, api_network_lock_cell, api_network_lock_frequency, api_network_unlock,
}
use cellmgr.Http.Serve.{dispatch, route_request}
use cellmgr.Http.Access.{left}

-- The routes whose handlers look for `confirm`.
unfoldable pub needs_confirm : Route → Bool
needs_confirm Route.modem_power = true
needs_confirm Route.modem_online = true
needs_confirm Route.sms_delete = true
needs_confirm Route.system_reboot = true
needs_confirm Route.network_lock_band = true
needs_confirm Route.network_lock_cell = true
needs_confirm Route.network_lock_frequency = true
needs_confirm Route.network_unlock = true
needs_confirm _ = false

-- Whether the path of a request leads to one of them.
abbrev pub asks_confirm : Bytes → Bool
asks_confirm path = elim (find_route all_routes path) [
  | none ↦ false
  | some route ↦ needs_confirm route
]

-- `atoi` of `true`
confirmed_true : (rest : Bytes) → confirmed (codes "{\"confirm\":true" ++ rest) ≡ false
unfolding confirmed
confirmed_true rest = refl

module _ {World : Type 0} (sys : System World) (services : Services World) where
  dispatch_unconfirmed :
      (route : Route) (state : AppState) (req : HttpRequest) (w : World)
      → needs_confirm route ≡ true
      → confirmed req.body ≡ false
      → left (dispatch sys services route state req w) ≡ (state, w)
  unfolding dispatch needs_confirm api_modem_set_bool api_sms_delete api_system_reboot
      api_network_lock_band api_network_lock_cell api_network_lock_frequency api_network_unlock
  dispatch_unconfirmed Route.modem_power state req w h e = rw e
  dispatch_unconfirmed Route.modem_online state req w h e = rw e
  dispatch_unconfirmed Route.sms_delete state req w h e =
      elim (Bool-cases (leb_ℤ (json_get_int req.body (codes "index") (pos 0)) (pos 0))) [
        | inl small ↦ rw small
        | inr large ↦ rw (large, e)
      ]
  dispatch_unconfirmed Route.system_reboot state req w h e = rw e
  dispatch_unconfirmed Route.network_lock_band state req w h e = rw e
  dispatch_unconfirmed Route.network_lock_cell state req w h e = rw e
  dispatch_unconfirmed Route.network_lock_frequency state req w h e = rw e
  dispatch_unconfirmed Route.network_unlock state req w h e = rw e
  dispatch_unconfirmed _ state req w h e = ground arith

  -- A request for power, online, deleting a message, reboot, locking or unlocking in whose body the
  -- number of `confirm` is 0 or missing runs no command, and leaves the state and the database as
  -- they are, whoever sends it.
  pub route_request-Unconfirmed :
      (state : AppState) (req : HttpRequest) (w : World)
      → asks_confirm req.path ≡ true
      → confirmed req.body ≡ false
      → left (route_request sys services state req w) ≡ (state, w)
  unfolding route_request find_route
  route_request-Unconfirmed state req w asks e = elim (Bool-cases (request_authorized state req)) [
    | inr refused ↦ rw refused
    | inl allowed ↦ elim (Option-cases (find_route all_routes req.path)) [
      | inl none_found ↦ rw (allowed, none_found)
      | inr (route, found) ↦
          let needs : needs_confirm route ≡ true = rw (found, asks_confirm) at asks in
          rw (allowed, found, dispatch_unconfirmed route state req w needs e)
    ]
  ]

  -- A body that begins with `"confirm":true`, as the web interface sends it, confirms nothing: the
  -- state, the database and the whole system are left as they are on each of those paths.
  pub route_request-TrueUnconfirmed :
      (state : AppState) (req : HttpRequest) (rest : Bytes) (w : World)
      → asks_confirm req.path ≡ true
      → req.body ≡ codes "{\"confirm\":true" ++ rest
      → left (route_request sys services state req w) ≡ (state, w)
  route_request-TrueUnconfirmed state req rest w asks body =
      route_request-Unconfirmed state req w asks
        (subst (λ b. confirmed b ≡ false) (sym body) (confirmed_true rest))
