-- ===== src/Http/State.antt =====
-- `app_state` of src/http.h, and the answers of src/http.c as the bytes that are written to the
-- connection.
use cellmgr.Base.{
  ℕ, Bool, true, false, [], ◌++◌, Option, none, some, ◌==◌, if◌then◌else◌, Bytes, codes, length,
}
use cellmgr.Base.Int.{ℤ, pos, eqb_ℤ}
use cellmgr.Libc.Number.{show_nat}
use cellmgr.Json.Escape.{json_escape, json_prop_string}
use cellmgr.Config.Fields.{AppConfig}
use cellmgr.Command.Capture.{CommandResult}
use cellmgr.At.Send.{at_send}
use cellmgr.System.{System, Prog}
use cellmgr.Db.Tables.{db_insert_at_history}

-- The database is in the world.
pub record AppState : Type 0 where
  pub cfg : AppConfig
  pub session_token : Bytes

-- What src/sysinfo.c and src/web_assets.c give to the handlers.
pub record Services (World : Type 0) : Type 0 where
  pub web_index_html : Bytes
  pub web_style_css : Bytes
  pub web_app_js : Bytes
  pub sysinfo_json : Bytes → Prog World Bytes
  pub sysinfo_drop_caches : Prog World Bool

unfoldable pub reason : ℕ → Bytes
reason status =
    if status == 200 then codes "OK" else if status == 404 then codes "Not Found" else codes "Error"

unfoldable pub response_head : ℕ → Bytes → ℕ → Bytes
unfolding reason show_nat
response_head status ctype len =
    codes "HTTP/1.1 "
    ++ show_nat status
    ++ codes " "
    ++ reason status
    ++ codes "\r\nContent-Type: "
    ++ ctype
    ++ codes "; charset=utf-8\r\nContent-Length: "
    ++ show_nat len
    ++ codes "\r\nConnection: close\r\nCache-Control: no-store\r\n\r\n"

unfoldable pub response_raw : ℕ → Bytes → Bytes → Bytes
unfolding response_head
response_raw status ctype body = response_head status ctype (length body) ++ body

abbrev pub or_text : Option Bytes → Bytes → Bytes
or_text none d = d
or_text (some s) d = s

-- The body of a JSON answer.
unfoldable pub envelope : Bool → Bytes → Option Bytes → Bytes
unfolding json_escape
envelope true json err = codes "{\"ok\":true,\"data\":" ++ json ++ codes ",\"error\":null}"
envelope false json err =
    codes "{\"ok\":false,\"data\":null,\"error\":"
    ++ json_escape (or_text err (codes "error"))
    ++ codes "}"

unfoldable pub response_json_body : Bool → Bytes → Option Bytes → Bytes
unfolding response_raw envelope
response_json_body ok json err =
    response_raw (if ok then 200 else 500) (codes "application/json") (envelope ok json err)

abbrev pub success : Bytes → Bytes
success json = response_json_body true json none

abbrev pub failure : Bytes → Bytes
failure message = response_json_body false [] (some message)

-- The answer with a text that may be missing.
abbrev pub list_answer : Option Bytes → Bytes → Bytes
list_answer none message = failure message
list_answer (some json) message = success json

-- `response_json_body(fd, res.exit_code == 0, b.data, res.err)`
abbrev pub command_answer : CommandResult → Bytes → Bytes
command_answer res json = response_json_body (eqb_ℤ res.exit_code (pos 0)) json res.err

abbrev pub out_text : CommandResult → Bytes
out_text res = or_text res.out []

-- The properties `stdout` and `stderr` of a result.
abbrev pub streams : CommandResult → Bytes
streams res =
    json_prop_string (codes "stdout") (out_text res) true
    ++ json_prop_string (codes "stderr") (or_text res.err []) true

module _ {World : Type 0} (sys : System World) where
  abbrev pub record_at : Bytes → Bytes → ℤ → World → World
  record_at command response exit_code w = (db_insert_at_history sys command response exit_code w).1

  -- `at_send(&state->db, &state->cfg, cmd, allow, &res)`, whose value is not looked at.
  abbrev pub send_at : AppConfig → Bytes → Bool → Prog World CommandResult
  send_at cfg cmd allow w =
      let (answer, w1) = at_send sys.run_capture record_at cfg cmd allow w in (answer.1, w1)
