-- ===== src/Smtp/Limits.antt =====
-- Messages that are long, in `smtp_send_plain` of src/smtp.c.
use cellmgr.Base.{
  ◌+◌, ◌≤◌, [], ◌∷◌, ◌++◌, Option, some, ◌≡◌, sym, ap, ◌∙◌, arith, Bytes, codes, length,
  length-append, append_assoc, take, take-append_le,
}
use cellmgr.Libc.Text.{truncate}
use cellmgr.Smtp.Session.{SmtpConfig, Conn, smtp_writef, message_head, message_text}

smtp_writef_cut :
    (a b : Bytes) (c : Conn) → truncate 2048 a ≡ truncate 2048 b → smtp_writef a c ≡ smtp_writef b c
unfolding smtp_writef
smtp_writef_cut a b c h =
    ap
      (λ (line : Bytes). record c {
        sent = c.sent ++ line ∷ [];
        log = c.log ++ (codes "C: " ++ line);
      })
      h

text_cut :
    (head body end : Bytes)
    → 2047 ≤ length head + length body
    → truncate 2048 (head ++ (body ++ end)) ≡ truncate 2048 (head ++ body)
text_cut head body end h =
    ap (take 2047) (sym (append_assoc head body end))
    ∙ take-append_le 2047 (head ++ body) end (omega (arith, length-append head body))

-- Where the head and the body have 2047 bytes or more, the message is written without the line that
-- ends it, and cut off there.
pub smtp_writef-message_text :
    (cfg : SmtpConfig) (subject : Option Bytes) (body : Bytes) (c : Conn)
    → 2047 ≤ length (message_head cfg subject) + length body
    → smtp_writef (message_text cfg subject (some body)) c
      ≡ smtp_writef (message_head cfg subject ++ body) c
smtp_writef-message_text cfg subject body c h =
    smtp_writef_cut (message_text cfg subject (some body)) (message_head cfg subject ++ body) c
      (text_cut (message_head cfg subject) body (codes "\r\n.\r\n") h)
