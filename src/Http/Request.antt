-- ===== src/Http/Request.antt =====
-- `parse_request` and `request_authorized` of src/http.c.
use cellmgr.Base.{
  ℕ, ◌-◌, Bool, true, false, not, ◌&&◌, ◌||◌, List, [], ◌∷◌, ◌++◌, Option, none, some, ◌==◌,
  if◌then◌else◌, Bytes, codes, length, take, drop,
}
use cellmgr.Base.Int.{pos, eqb_ℤ}
use cellmgr.Libc.Text.{is_nil, str_eq, has_prefix, strstr, strchr, take_while, truncate}
use cellmgr.Libc.Token.{tokens}
use cellmgr.Libc.Scan.{Directive, text, sscanf}
use cellmgr.Common.Trim.{trim_in_place}
use cellmgr.Parsers.Quoted.{is_line_end}
use cellmgr.Http.State.{AppState}

pub record HttpRequest : Type 0 where
  pub method : Bytes
  pub path : Bytes
  pub query : Bytes
  pub session_token : Bytes
  pub body : Bytes

abbrev pub line_break : Bytes
line_break = 13 ∷ 10 ∷ []

-- The text up to `m`, a pointer into it.
abbrev pub before : Bytes → Bytes → Bytes
before s m = take (length s - length m) s

-- `%7s %511s`
abbrev pub request_line : List Directive
request_line = Directive.word 7 ∷ Directive.space ∷ Directive.word 511 ∷ []

-- The loop over the headers: the last one that names a session counts.
unfoldable pub session_of : Bytes → List Bytes → Bytes
unfolding has_prefix trim_in_place
session_of token [] = token
session_of token (line ∷ lines) =
    session_of
      (if has_prefix (codes "X-Cellmgr-Session:") line
        then trim_in_place (truncate 128 (drop 18 line))
        else token)
      lines

-- The path and the query of `url`.
unfoldable pub split_url : Bytes → Bytes × Bytes
unfolding strchr
split_url url = elim (strchr url b'?') [
  | none ↦ (truncate 256 url, [])
  | some q ↦ (truncate 256 (before url q), truncate 256 (drop 1 q))
]

-- The fields, from the first line, the headers and the body.
unfoldable pub request_fields : Bytes → Bytes → Bytes → Option HttpRequest
unfolding sscanf split_url session_of tokens
request_fields line headers body = elim (sscanf request_line line) [
  | text method ∷ text url ∷ [] ↦
      let (path, query) = split_url url in
      some (record {
        method = method;
        path = path;
        query = query;
        session_token = session_of [] (tokens is_line_end headers);
        body = body;
      })
  | _ ↦ none
]

-- The text of a request, cut at the empty line and at the end of the first line.
unfoldable pub parse_text : Bytes → Option HttpRequest
unfolding strstr request_fields
parse_text buf = elim (strstr buf (line_break ++ line_break)) [
  | none ↦ none
  | some header_end ↦
      let head = before buf header_end in
      elim (strstr head line_break) [
        | none ↦ none
        | some line_end ↦
            request_fields (before head line_end) (drop 2 line_end) (drop 4 header_end)
      ]
]

-- What `read` puts into the array; a NUL ends the text.
unfoldable pub buffered : List ℕ → Bytes
unfolding take_while
buffered input = take_while (λ c. not (c == 0)) (take 69_631 input)

-- `read` gives the bytes, none if it fails or the connection is closed.
unfoldable pub parse_request : List ℕ → Option HttpRequest
unfolding parse_text buffered
parse_request [] = none
parse_request (c ∷ input) = parse_text (buffered (c ∷ input))

-- The paths that need no login.
abbrev pub public_paths : List Bytes
public_paths =
    codes "/"
    ∷ codes "/style.css"
    ∷ codes "/app.js"
    ∷ codes "/favicon.ico"
    ∷ codes "/api/auth/login"
    ∷ []

abbrev pub is_one_of : List Bytes → Bytes → Bool
is_one_of [] s = false
is_one_of (t ∷ ts) s = str_eq s t || is_one_of ts s

unfoldable pub request_authorized : AppState → HttpRequest → Bool
unfolding str_eq
request_authorized state req =
    if eqb_ℤ state.cfg.auth_enabled (pos 0)
    then true
    else if is_one_of public_paths req.path
    then true
    else not (is_nil req.session_token) && str_eq req.session_token state.session_token
