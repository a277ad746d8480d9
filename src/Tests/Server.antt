-- ===== src/Tests/Server.antt =====
-- Concrete runs of src/http.c, src/main.c, src/db.c and src/profile.c, over a database in memory.
use cellmgr.Base.{false, true, List, [], ◌∷◌, none, some, ◌≡◌, refl, arith, Bytes, codes}
use cellmgr.Base.Int.{pos}
use cellmgr.System.{System}
use cellmgr.Config.Fields.{config_defaults}
use cellmgr.Db.Lawful.{Tables}
use cellmgr.Db.Memory.{Memory, memory_system}
use cellmgr.Http.State.{AppState, Services}
use cellmgr.Http.Request.{HttpRequest, parse_request}
use cellmgr.Libc.Text.{isspace}
use cellmgr.Http.RoundTrip.{IsRequest, request_text, parse_request-request_text}
use cellmgr.Http.Access.{left, lacks_session, http_serve-Outside}
use cellmgr.Http.Confirm.{needs_confirm, route_request-Unconfirmed, route_request-TrueUnconfirmed}
use cellmgr.Http.Written.{Written}
use cellmgr.Http.Written.Routes.{WritesJson, route_request-Written}
use cellmgr.Http.Fits.{WellFormed, http_serve-WellFormed}
use cellmgr.Http.Route.{find_route}
use cellmgr.Http.Modem.{confirmed}
use cellmgr.Http.Settings.{bad_time}
use cellmgr.Http.Serve.{Turn, not_accepted, accepts, whole, cut, route_request, http_serve}
use cellmgr.Start.{start_config}
use cellmgr.Start.Fits.{start_config-Fits}
use cellmgr.Config.Fits.{Fits}
use cellmgr.Config.Load.{config_load}

abbrev sys : System Memory
sys = memory_system (codes "OK")

abbrev services : Services Memory
services = record {
  web_index_html = codes "<html>";
  web_style_css = [];
  web_app_js = [];
  sysinfo_json = λ iface w. (codes "{}", w);
  sysinfo_drop_caches = λ w. (true, w);
}

abbrev no_tables : Tables
no_tables = record {
  setting = λ key. none;
  profile = λ id. none;
  cached = λ id capability modem. none;
}

abbrev memory : Memory
memory = record { tables = no_tables; clock = pos 1000; ran = [] }

abbrev locked : AppState
locked = record {
  cfg = record config_defaults { auth_enabled = pos 1 };
  session_token = codes "170000000042";
}

abbrev outsiders : List Turn
outsiders =
    accepts (codes "GET / HTTP/1.1\r\nHost: a\r\n\r\n") whole
    ∷ not_accepted
    ∷ accepts
        (codes "POST /api/system/reboot HTTP/1.1\r\nX-Cellmgr-Session: 7\r\n\r\n{\"confirm\":1}")
        (cut 20)
    ∷ accepts (codes "nonsense") whole
    ∷ []

http_serve-Outside_example :
    left (http_serve sys services outsiders locked memory) ≡ (locked, memory)
unfolding lacks_session config_defaults
http_serve-Outside_example = http_serve-Outside sys services outsiders locked memory refl refl

abbrev reboot_with : Bytes → HttpRequest
reboot_with body = record {
  method = codes "POST";
  path = codes "/api/system/reboot";
  query = [];
  session_token = codes "170000000042";
  body = body;
}

abbrev radio_request : HttpRequest
radio_request = record {
  method = codes "GET";
  path = codes "/api/modem/radio";
  query = [];
  session_token = codes "170000000042";
  body = [];
}

route_request-Written_example : Written (route_request sys services locked radio_request memory).0.0
unfolding find_route
route_request-Written_example =
    route_request-Written sys services locked radio_request memory WritesJson.modem_radio

route_request-Unconfirmed_example :
    left (route_request sys services locked (reboot_with (codes "{\"confirm\":0}")) memory)
    ≡ (locked, memory)
unfolding confirmed find_route needs_confirm
route_request-Unconfirmed_example =
    route_request-Unconfirmed sys services locked (reboot_with (codes "{\"confirm\":0}")) memory
      refl refl

route_request-TrueUnconfirmed_example :
    left (route_request sys services locked (reboot_with (codes "{\"confirm\":true}")) memory)
    ≡ (locked, memory)
unfolding find_route needs_confirm
route_request-TrueUnconfirmed_example =
    route_request-TrueUnconfirmed sys services locked (reboot_with (codes "{\"confirm\":true}"))
      (codes "}") memory refl refl

-- A body that confirms makes both programs run.
confirmed_reboot :
    (route_request sys services locked (reboot_with (codes "{\"confirm\":1}")) memory).1.ran
    ≡ (codes "sync" ∷ []) ∷ (codes "reboot" ∷ []) ∷ []
unfolding route_request
confirmed_reboot = refl

locked-WellFormed : WellFormed locked
unfolding config_defaults bad_time
locked-WellFormed = record { fits = omega arith; in_day = omega arith }

http_serve-WellFormed_example : WellFormed (http_serve sys services outsiders locked memory).0.1
http_serve-WellFormed_example =
    http_serve-WellFormed sys services outsiders locked memory locked-WellFormed

abbrev new_settings : Bytes
new_settings = codes "{\"smtp_host\":\"mail.example\",\"smtp_port\":587,\"at_timeout_ms\":9000}"

reading-IsRequest :
    IsRequest
      (codes "GET")
      (codes "/api/sms/read")
      (codes "index=3")
      (codes "170000000042")
      (codes "{}")
unfolding isspace
reading-IsRequest = record {
  method_solid = ground arith;
  method_some = omega arith;
  method_short = omega arith;
  path_solid = ground arith;
  path_plain = ground arith;
  path_short = omega arith;
  query_solid = ground arith;
  query_short = omega arith;
  token_solid = ground arith;
  token_short = omega arith;
  body_text = ground arith;
  fits = omega arith;
}

parse_request-request_text_example :
    parse_request (
      request_text
        (codes "GET")
        (codes "/api/sms/read")
        (codes "index=3")
        (codes "170000000042")
        (codes "{}"))
    ≡ some (record {
      method = codes "GET";
      path = codes "/api/sms/read";
      query = codes "index=3";
      session_token = codes "170000000042";
      body = codes "{}";
    })
parse_request-request_text_example =
    parse_request-request_text (codes "GET") (codes "/api/sms/read") (codes "index=3")
      (codes "170000000042") (codes "{}") reading-IsRequest

start_config-Fits_example :
    Fits (start_config sys false (config_load (some (codes "smtp_host=a.example\n"))).1 memory).0
start_config-Fits_example =
    start_config-Fits sys false (some (codes "smtp_host=a.example\n")) memory
