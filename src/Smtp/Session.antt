-- ===== src/Smtp/Session.antt =====
-- `smtp_read_line`, `smtp_writef` and `smtp_send_plain` of src/smtp.c. The server is the bytes that it
-- sends until it closes the connection; `connected` is whether `connect_tcp` got one. The
-- code does not look at what `write` returns and SIGPIPE is not ignored, so a write behind the moment at
-- which the server has gone ends the whole process. The model is of the runs in which the server takes
-- every line, also when it has no more to send; of any other run, it holds up to the line that fails.
use cellmgr.Base.{
  Bool, true, false, not, ◌||◌, List, [], ◌∷◌, ◌++◌, Option, none, some, ◌==◌, if◌then◌else◌, Bytes,
  codes,
}
use cellmgr.Base.Int.{ℤ, pos, leb_ℤ, ltb_ℤ}
use cellmgr.Libc.Scan.{int, sscanf, int_at}
use cellmgr.Libc.Text.{truncate}
use cellmgr.Smtp.Base64.{base64_encode}

pub record SmtpConfig : Type 0 where
  pub host : Bytes
  pub port : ℤ
  pub user : Bytes
  pub pass : Bytes
  pub from : Bytes
  pub to : Bytes

-- What the server has still to send, the lines handed to `write`, and the log.
pub record Conn : Type 0 where
  pub input : Bytes
  pub sent : List Bytes
  pub log : Bytes

-- Up to a newline, or to the end of the connection.
unfoldable pub read_until_newline : Bytes → Bytes × Bytes
read_until_newline [] = ([], [])
read_until_newline (c ∷ s) =
    let (line, rest) = read_until_newline s in if c == 10 then (c ∷ [], s) else (c ∷ line, rest)

unfoldable pub reply_code : Bytes → ℤ
unfolding sscanf
reply_code line = int_at (sscanf (int ∷ []) line) 0 (pos 0)

-- `char line[512]`
unfoldable pub smtp_read_line : Conn → ℤ × Conn
unfolding read_until_newline reply_code
smtp_read_line c =
    let (read, rest) = read_until_newline c.input in
    let line = truncate 512 read in
    (reply_code line, record c { input = rest; log = c.log ++ line })

-- `char line[2048]`, and a `write` that comes back: behind one that does not, there is no process.
unfoldable pub smtp_writef : Bytes → Conn → Conn
smtp_writef text c =
    let line = truncate 2048 text in
    record c { sent = c.sent ++ line ∷ []; log = c.log ++ (codes "C: " ++ line) }

-- A line and the reply to it.
unfoldable pub exchange : Bytes → Conn → ℤ × Conn
unfolding smtp_read_line smtp_writef
exchange text c = smtp_read_line (smtp_writef text c)

abbrev pub crlf : Bytes
crlf = 13 ∷ 10 ∷ []

unfoldable pub is_refusal : ℤ → Bool
is_refusal code = leb_ℤ (pos 400) code

unfoldable pub is_accepted : ℤ → Bool
is_accepted code = not (ltb_ℤ code (pos 200) || leb_ℤ (pos 400) code)

abbrev pub mail_from : SmtpConfig → Bytes
mail_from cfg = codes "MAIL FROM:<" ++ (cfg.from ++ b'>' ∷ crlf)

abbrev pub rcpt_to : SmtpConfig → Bytes
rcpt_to cfg = codes "RCPT TO:<" ++ (cfg.to ++ b'>' ∷ crlf)

abbrev pub or_default : Option Bytes → Bytes → Bytes
or_default none d = d
or_default (some s) d = s

abbrev pub message_head : SmtpConfig → Option Bytes → Bytes
message_head cfg subject =
    codes "From: <"
    ++ (cfg.from
        ++ (codes ">\r\nTo: <"
            ++ (cfg.to
                ++ (codes ">\r\nSubject: "
                    ++ (or_default subject (codes "CellMgr SMS")
                        ++ codes "\r\nContent-Type: text/plain; charset=utf-8\r\n\r\n")))))

-- The text behind `DATA`, with the line that ends it.
abbrev pub message_text : SmtpConfig → Option Bytes → Option Bytes → Bytes
message_text cfg subject body =
    message_head cfg subject ++ (or_default body [] ++ codes "\r\n.\r\n")

-- The flag is whether 0 is returned; `fail` keeps the connection as it is.
unfoldable pub deliver : SmtpConfig → Option Bytes → Option Bytes → Conn → Bool × Conn
deliver cfg subject body c =
    let (code1, c1) = exchange (mail_from cfg) c in
    let (code2, c2) = exchange (rcpt_to cfg) c1 in
    let (code3, c3) = exchange (codes "DATA\r\n") c2 in
    let (code4, c4) = exchange (message_text cfg subject body) c3 in
    let (code5, c5) = exchange (codes "QUIT\r\n") c4 in
    if is_refusal code1
    then (false, c1)
    else if is_refusal code2
    then (false, c2)
    else if is_refusal code3
    then (false, c3)
    else if is_refusal code4
    then (false, c4)
    else (true, c5)

-- `if (cfg->user[0])`
unfoldable pub authenticate : SmtpConfig → Bytes → Conn → Bool × Conn
authenticate cfg [] c = (true, c)
authenticate cfg (u ∷ ser) c =
    let (code1, c1) = exchange (codes "AUTH LOGIN\r\n") c in
    let (code2, c2) = exchange (base64_encode (u ∷ ser) ++ crlf) c1 in
    let (code3, c3) = exchange (base64_encode cfg.pass ++ crlf) c2 in (is_accepted code3, c3)

abbrev pub opened : Bytes → Conn
opened input = record { input = input; sent = []; log = [] }

unfoldable pub smtp_send_plain :
    SmtpConfig → Option Bytes → Option Bytes → Bool → Bytes → Bool × Conn
smtp_send_plain cfg subject body false input =
    (false, record { input = []; sent = []; log = codes "connect failed\n" })
smtp_send_plain cfg subject body true input =
    let (code, c) = smtp_read_line (opened input) in
    let (code1, c1) = exchange (codes "EHLO cellmgr\r\n") c in
    let (logged_in, c2) = authenticate cfg cfg.user c1 in
    if not (is_accepted code)
    then (false, c)
    else if not logged_in
    then (false, c2)
    else deliver cfg subject body c2
