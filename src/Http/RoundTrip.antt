-- ===== src/Http/RoundTrip.antt =====
-- Requests that `parse_request` of src/http.c reads back.
use cellmgr.Base.{
  ℕ, suc, ◌+◌, ◌<◌, ◌≤◌, Bool, true, false, not, ◌||◌, List, [], ◌∷◌, ◌++◌, some, ◌≡◌, refl, ap,
  ◌∙◌, arith, ◌==◌, Bytes, codes, length, length-append, take-le, All, All-append, All-map, get_or,
}
use cellmgr.Libc.Text.{isspace, has_prefix, strchr, skip_while}
use cellmgr.Libc.Token.{tokens}
use cellmgr.Libc.Scan.{Directive, space, word, sscanf, sscanf_word, text}
use cellmgr.Libc.Search.{strchr-append, tokens-one}
use cellmgr.Common.Trim.{is_blank, trim_end, trim_in_place, trim_in_place-kept}
use cellmgr.Parsers.Quoted.{is_line_end}
use cellmgr.Http.Request.{
  request_line, session_of, split_url, request_fields, parse_request, parse_text, buffered,
}
use cellmgr.Http.Framing.{before-append, NoReturn, framed, NonZero, buffered_lem, parse_framed}

abbrev session_key : Bytes
session_key = codes "-Cellmgr-Session: "

abbrev first_line : Bytes → Bytes → Bytes → Bytes
first_line method path query = method ++ b' ' ∷ ((path ++ b'?' ∷ query) ++ codes " HTTP/1.1")

-- A request with a session, as a client writes it: the first line, one header line and the body.
abbrev pub request_text : Bytes → Bytes → Bytes → Bytes → Bytes → Bytes
request_text method path query token body =
    framed (first_line method path query) (session_key ++ token) body b'X'

-- A byte that ends neither a word nor the text.
abbrev pub is_solid : ℕ → Bool
is_solid c = not (isspace c || c == 0)

abbrev pub Solid : Bytes → Type 0
Solid = All (λ c. is_solid c ≡ true)

url_split :
    (path query : Bytes)
    → All (λ c. (c == b'?') ≡ false) path
    → length path < 256
    → length query < 256
    → split_url (path ++ b'?' ∷ query) ≡ (path, query)
unfolding split_url
url_split path query h k l =
    let found : strchr (path ++ b'?' ∷ query) b'?' ≡ some (b'?' ∷ query) =
      unfold strchr in strchr-append b'?' path (b'?' ∷ query) h in
    rw (
      found,
      split_url,
      before-append path (b'?' ∷ query),
      take-le 255 path (omega arith),
      take-le 255 query (omega arith),
    )

no_space : (s : Bytes) → Solid s → All (λ c. isspace c ≡ false) s
no_space = All-map (λ c. is_solid c ≡ true) (λ c. isspace c ≡ false) (λ c h. ground arith)

skip_solid :
    (a s : Bytes)
    → All (λ c. isspace c ≡ false) a
    → 0 < length a
    → skip_while isspace (a ++ s) ≡ a ++ s
skip_solid [] s h k = absurd (omega arith)
skip_solid (x ∷ a) s h k = unfold skip_while in (rw (h.0))

skip_one : (s : Bytes) → skip_while isspace (b' ' ∷ s) ≡ skip_while isspace s
skip_one s = unfold skip_while isspace in refl

sscanf_space :
    (ds : List Directive) (s : Bytes) → sscanf (space ∷ ds) s ≡ sscanf ds (skip_while isspace s)
sscanf_space ds s = unfold sscanf in refl

line_read :
    (method url : Bytes)
    → Solid method
    → 0 < length method
    → length method ≤ 7
    → Solid url
    → 0 < length url
    → length url ≤ 511
    → sscanf request_line (method ++ b' ' ∷ (url ++ codes " HTTP/1.1"))
      ≡ text method ∷ text url ∷ []
line_read method url h k l h' k' l' =
    let is_space : isspace b' ' ≡ true = unfold isspace in refl in
    let tail = codes "HTTP/1.1" in
    sscanf_word 7 (space ∷ word 511 ∷ []) method b' ' (url ++ b' ' ∷ tail) (no_space method h) k l
      is_space
    ∙ ap (λ items. text method ∷ items)
        (sscanf_space (word 511 ∷ []) (b' ' ∷ (url ++ b' ' ∷ tail))
          ∙ (rw
              (
                skip_one (url ++ b' ' ∷ tail),
                skip_solid url (b' ' ∷ tail) (no_space url h') k',
                sscanf_word 511 [] url b' ' tail (no_space url h') k' l' is_space,
              )
              (ap (λ items. text url ∷ items) (unfold sscanf in refl))))

not_blank : (c : ℕ) → is_solid c ≡ true → is_blank c ≡ false
unfolding isspace is_blank
not_blank c h = ground arith

not_line_end : (c : ℕ) → is_solid c ≡ true → is_line_end c ≡ false
unfolding isspace
not_line_end c h = ground arith

last-Solid : (c : ℕ) (s : Bytes) → Solid (c ∷ s) → is_solid (get_or (c ∷ s) (length s) 0) ≡ true
last-Solid c [] h = h.0
last-Solid c (d ∷ s) h = last-Solid d s h.1

trim_in_place-Solid : (s : Bytes) → Solid s → trim_in_place (b' ' ∷ s) ≡ s
trim_in_place-Solid [] h = unfold trim_in_place skip_while is_blank trim_end in refl
trim_in_place-Solid (c ∷ s) h =
    let blank : trim_in_place (b' ' ∷ c ∷ s) ≡ trim_in_place (c ∷ s) =
      unfold trim_in_place skip_while is_blank in refl in
    blank ∙ trim_in_place-kept (c ∷ s) (not_blank c h.0) (not_blank _ (last-Solid c s h))

-- The only header line gives the session.
session_read :
    (token : Bytes)
    → Solid token
    → length token ≤ 126
    → session_of [] (tokens is_line_end (b'X' ∷ (session_key ++ token))) ≡ token
session_read token h k =
    let one = tokens-one is_line_end b'X' (session_key ++ token) refl (
      All-append (λ c. is_line_end c ≡ false) session_key token (ground arith)
        (All-map (λ c. is_solid c ≡ true) (λ c. is_line_end c ≡ false) not_line_end token h)) in
    rw one
      (unfold session_of has_prefix in (rw (take-le 126 token k) (trim_in_place-Solid token h)))

Solid-NonZero : (s : Bytes) → Solid s → NonZero s
Solid-NonZero = All-map (λ c. is_solid c ≡ true) (λ c. not (c == 0) ≡ true) (λ c h. ground arith)

Solid-NoReturn : (s : Bytes) → Solid s → NoReturn s
Solid-NoReturn = All-map (λ c. is_solid c ≡ true) (λ c. (13 == c) ≡ false) no_return
  where
    no_return : (c : ℕ) → is_solid c ≡ true → (13 == c) ≡ false
    no_return c h = unfold isspace in ground arith

Solid-append : (path query : Bytes) → Solid path → Solid query → Solid (path ++ b'?' ∷ query)
Solid-append path query h k =
    let mark : is_solid b'?' ≡ true = unfold isspace in refl in
    All-append (λ c. is_solid c ≡ true) path (b'?' ∷ query) h (mark, k)

-- A property of every byte of the first line, and of the whole request.
module _ (P : ℕ → Type 0) where
  first_line-All :
      (method path query : Bytes)
      → All P method
      → P b' '
      → All P (path ++ b'?' ∷ query)
      → All P (codes " HTTP/1.1")
      → All P (first_line method path query)
  first_line-All method path query h k h' t =
      All-append P method _ h (k, All-append P (path ++ b'?' ∷ query) (codes " HTTP/1.1") h' t)

  framed-All :
      (line header body : Bytes) (t : ℕ)
      → All P line
      → P 13
      → P 10
      → P t
      → All P header
      → All P body
      → All P (framed line header body t)
  framed-All line header body t h r n k h' b =
      All-append P line _ h (r, (n, (k, All-append P header _ h' (r, (n, (r, (n, b)))))))

request_fields_lem :
    (line headers body method url path query token : Bytes)
    → sscanf request_line line ≡ text method ∷ text url ∷ []
    → split_url url ≡ (path, query)
    → session_of [] (tokens is_line_end headers) ≡ token
    → request_fields line headers body
      ≡ some (record {
        method = method;
        path = path;
        query = query;
        session_token = token;
        body = body;
      })
unfolding request_fields
request_fields_lem line headers body method url path query token e e' e'' =
    rw (e, request_fields, e', e'')

-- What a client may put into a request: words that are not too long, no `?` in the path, no NUL.
pub record IsRequest (method path query token body : Bytes) : Type 0 where
  pub method_solid : Solid method
  pub method_some : 0 < length method
  pub method_short : length method ≤ 7
  pub path_solid : Solid path
  pub path_plain : All (λ c. (c == b'?') ≡ false) path
  pub path_short : length path < 256
  pub query_solid : Solid query
  pub query_short : length query < 256
  pub token_solid : Solid token
  pub token_short : length token ≤ 126
  pub body_text : NonZero body
  pub fits : length (request_text method path query token body) ≤ 69_631

-- `parse_request` reads the method, the path, the query, the session and the body of such a request
-- back exactly, when one `read` gives all of it.
pub parse_request-request_text :
    (method path query token body : Bytes)
    → IsRequest method path query token body
    → parse_request (request_text method path query token body)
      ≡ some (record {
        method = method;
        path = path;
        query = query;
        session_token = token;
        body = body;
      })
unfolding parse_request
parse_request-request_text [] path query token body h = absurd (omega (arith, h.method_some))
parse_request-request_text (m ∷ method) path query token body h =
    let url = path ++ b'?' ∷ query in
    let line = first_line (m ∷ method) path query in
    let header = session_key ++ token in
    let whole = request_text (m ∷ method) path query token body in
    let url_solid = Solid-append path query h.path_solid h.query_solid in
    let line_ok : NoReturn line =
      first_line-All (λ c. (13 == c) ≡ false) (m ∷ method) path query
        (Solid-NoReturn (m ∷ method) h.method_solid) refl (Solid-NoReturn url url_solid)
        (ground arith) in
    let header_ok : NoReturn (b'X' ∷ header) = (
      refl,
      All-append (λ c. (13 == c) ≡ false) session_key token (ground arith)
          (Solid-NoReturn token h.token_solid),
    ) in
    let text_ok : NonZero whole =
      framed-All (λ c. not (c == 0) ≡ true) line header body b'X'
        (first_line-All (λ c. not (c == 0) ≡ true) (m ∷ method) path query
          (Solid-NonZero (m ∷ method) h.method_solid) refl (Solid-NonZero url url_solid)
          (ground arith))
        refl refl refl
        (All-append (λ c. not (c == 0) ≡ true) session_key token (ground arith)
          (Solid-NonZero token h.token_solid))
        h.body_text in
    let read : buffered whole ≡ whole = buffered_lem whole text_ok h.fits in
    let url_length : length url ≡ length path + suc (length query) =
      length-append path (b'?' ∷ query) in
    let line_is =
      line_read (m ∷ method) url h.method_solid h.method_some h.method_short url_solid (omega arith)
        (omega (arith, h.path_short, h.query_short)) in
    let fields =
      request_fields_lem line (b'X' ∷ header) body (m ∷ method) url path query token line_is
        (url_split path query h.path_plain h.path_short h.query_short)
        (session_read token h.token_solid h.token_short) in
    ap parse_text read ∙ (parse_framed line header body b'X' line_ok header_ok ∙ fields)
