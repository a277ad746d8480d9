-- ===== src/Http/Access.antt =====
-- What requests without the session token can do, by `request_authorized` and `route_request` of
-- src/http.c.
use cellmgr.Base.{
  ℕ, Bool, true, false, not, ◌&&◌, ◌||◌, List, [], ◌∷◌, Option, none, some, inl, inr, ◌≡◌, refl,
  sym, ap, subst, arith, Bytes, codes, Bool-cases, Option-cases,
}
use cellmgr.Base.Int.{pos, eqb_ℤ}
use cellmgr.Libc.Text.{str_eq, str_eq_iff, is_nil}
use cellmgr.System.{System}
use cellmgr.Http.State.{AppState, Services}
use cellmgr.Http.Request.{HttpRequest, parse_request, request_authorized, public_paths, is_one_of}
use cellmgr.Http.Route.{Route, all_routes, find_route}
use cellmgr.Http.Serve.{
  Turn, not_accepted, accepts, whole, cut, broken, dispatch, route_request, serve_connection,
  http_serve,
}

-- The routes of the paths that need no login.
abbrev is_public : Route → Bool
is_public Route.index_page = true
is_public Route.style_sheet = true
is_public Route.app_script = true
is_public Route.favicon = true
is_public Route.auth_login = true
is_public _ = false

abbrev finds_public : Option Route → Bool
finds_public none = true
finds_public (some route) = is_public route

find_public :
    (path : Bytes)
    → is_one_of public_paths path ≡ true
    → finds_public (find_route all_routes path) ≡ true
unfolding find_route
find_public path h = elim (Bool-cases (str_eq path (codes "/api/auth/login"))) [
  | inl e ↦
      let same : codes "/api/auth/login" ≡ path =
        sym ((str_eq_iff path (codes "/api/auth/login")).0 e) in
      subst (λ p. finds_public (find_route all_routes p) ≡ true) same refl
  | inr e ↦ ground arith
]

-- The state and the world that are left.
abbrev pub left : {World A : Type 0} → (A × AppState) × World → AppState × World
left ((answer, state), w) = (state, w)

-- A request without the session token.
abbrev lacks_token : Bytes → HttpRequest → Bool
lacks_token token req = is_nil req.session_token || not (str_eq req.session_token token)

-- A connection that brings no request, or one without the session token.
unfoldable pub lacks_session : Bytes → Option (List ℕ) → Bool
unfolding parse_request str_eq
lacks_session token none = true
lacks_session token (some input) = elim (parse_request input) [
  | none ↦ true
  | some req ↦ lacks_token token req
]

abbrev pub all_lack_session : Bytes → List Turn → Bool
all_lack_session token [] = true
all_lack_session token (not_accepted ∷ rest) = all_lack_session token rest
all_lack_session token (accepts input delivery ∷ rest) =
    lacks_session token (some input) && all_lack_session token rest

module _ {World : Type 0} (sys : System World) (services : Services World) where
  dispatch_public :
      (route : Route) (state : AppState) (req : HttpRequest) (w : World)
      → is_public route ≡ true
      → left (dispatch sys services route state req w) ≡ (state, w)
  unfolding dispatch
  dispatch_public Route.index_page state req w h = refl
  dispatch_public Route.style_sheet state req w h = refl
  dispatch_public Route.app_script state req w h = refl
  dispatch_public Route.favicon state req w h = refl
  dispatch_public Route.auth_login state req w h = refl
  dispatch_public _ state req w h = ground arith

  request_public :
      (state : AppState) (req : HttpRequest)
      → eqb_ℤ state.cfg.auth_enabled (pos 0) ≡ false
      → lacks_token state.session_token req ≡ true
      → request_authorized state req ≡ true
      → is_one_of public_paths req.path ≡ true
  unfolding request_authorized
  request_public state req enabled lacks allowed = ground arith

  route_request_public :
      (state : AppState) (req : HttpRequest) (w : World)
      → is_one_of public_paths req.path ≡ true
      → left (route_request sys services state req w) ≡ (state, w)
  unfolding route_request
  route_request_public state req w h = elim (Bool-cases (request_authorized state req)) [
    | inr e ↦ rw e
    | inl e ↦ elim (Option-cases (find_route all_routes req.path)) [
      | inl none_found ↦ rw (e, none_found)
      | inr (route, found) ↦
          let public : is_public route ≡ true = cc (find_public req.path h, found) in
          rw (e, found, dispatch_public route state req w public)
    ]
  ]

  route_request_outside :
      (state : AppState) (req : HttpRequest) (w : World)
      → eqb_ℤ state.cfg.auth_enabled (pos 0) ≡ false
      → lacks_token state.session_token req ≡ true
      → left (route_request sys services state req w) ≡ (state, w)
  unfolding route_request
  route_request_outside state req w enabled lacks =
      elim (Bool-cases (request_authorized state req)) [
        | inr e ↦ rw e
        | inl e ↦ route_request_public state req w (request_public state req enabled lacks e)
      ]

  pub serve_connection_outside :
      (state : AppState) (input : List ℕ) (w : World)
      → eqb_ℤ state.cfg.auth_enabled (pos 0) ≡ false
      → lacks_session state.session_token (some input) ≡ true
      → left (serve_connection sys services state input w) ≡ (state, w)
  unfolding serve_connection lacks_session
  serve_connection_outside state input w enabled lacks = elim (Option-cases (parse_request input)) [
    | inl e ↦ rw (e, serve_connection)
    | inr (req, e) ↦
        let req_lacks : lacks_token state.session_token req ≡ true =
          rw (e, lacks_session) at lacks in
        rw (e, serve_connection) (route_request_outside state req w enabled req_lacks)
  ]

  -- While a login is required, connections without the session token, however many and whatever
  -- they send, leave the state, the database and the whole system as they are.
  pub http_serve-Outside :
      (turns : List Turn) (state : AppState) (w : World)
      → eqb_ℤ state.cfg.auth_enabled (pos 0) ≡ false
      → all_lack_session state.session_token turns ≡ true
      → left (http_serve sys services turns state w) ≡ (state, w)
  unfolding http_serve
  http_serve-Outside [] state w enabled lacks = refl
  http_serve-Outside (not_accepted ∷ rest) state w enabled lacks =
      http_serve-Outside rest state w enabled (ground arith)
  http_serve-Outside (accepts input whole ∷ rest) state w enabled lacks =
      let first = serve_connection_outside state input w enabled (ground arith) in
      let others = http_serve-Outside rest state w enabled (ground arith) in
      rw (ap (λ p. p.0) first, ap (λ p. p.1) first) others
  http_serve-Outside (accepts input (cut n) ∷ rest) state w enabled lacks =
      let first = serve_connection_outside state input w enabled (ground arith) in
      let others = http_serve-Outside rest state w enabled (ground arith) in
      rw (ap (λ p. p.0) first, ap (λ p. p.1) first) others
  http_serve-Outside (accepts input (broken n) ∷ rest) state w enabled lacks =
      serve_connection_outside state input w enabled (ground arith)
