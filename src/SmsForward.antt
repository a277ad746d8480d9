-- ===== src/SmsForward.antt =====
-- src/sms_forward.c: a text message goes to a webhook, by `curl`, or by mail.
use cellmgr.Base.{
  Bool, true, false, ◌&&◌, ◌||◌, List, [], ◌∷◌, ◌++◌, none, some, if◌then◌else◌, Bytes, codes,
}
use cellmgr.Base.Int.{ℤ, pos, eqb_ℤ, ltb_ℤ}
use cellmgr.Libc.Text.{is_nil, str_eq, truncate}
use cellmgr.Json.Escape.{json_escape}
use cellmgr.Config.Fields.{AppConfig}
use cellmgr.Smtp.Session.{SmtpConfig, or_default, smtp_send_plain}
use cellmgr.System.{System, Prog}

unfoldable pub webhook_payload : Bytes → Bytes → Bytes
unfolding json_escape
webhook_payload from text =
    codes "{\"from\":" ++ json_escape from ++ codes ",\"text\":" ++ json_escape text ++ codes "}"

abbrev webhook_argv : AppConfig → Bytes → List Bytes
webhook_argv cfg payload =
    codes "curl"
    ∷ codes "-sS"
    ∷ codes "-X"
    ∷ codes "POST"
    ∷ codes "-H"
    ∷ codes "Content-Type: application/json"
    ∷ codes "--data-binary"
    ∷ payload
    ∷ cfg.sms_webhook_url
    ∷ []

unfoldable pub forward_smtp : AppConfig → SmtpConfig
forward_smtp cfg = record {
  host = truncate 128 cfg.smtp_host;
  port = cfg.smtp_port;
  user = truncate 128 cfg.smtp_user;
  pass = truncate 128 cfg.smtp_pass;
  from = truncate 128 cfg.smtp_from;
  to = truncate 128 cfg.smtp_to;
}

-- `cfg->port > 0 ? cfg->port : 25`
abbrev mail_port : SmtpConfig → ℤ
mail_port smtp = if ltb_ℤ (pos 0) smtp.port then smtp.port else pos 25

abbrev mail_body : Bytes → Bytes → Bytes
mail_body from text = codes "From: " ++ from ++ codes "\n\n" ++ text

module _ {World : Type 0} (sys : System World) where
  -- Whether 0 is returned, and the log.
  unfoldable pub webhook_send : AppConfig → Bytes → Bytes → Prog World (Bool × Bytes)
  unfolding webhook_payload
  webhook_send cfg from text w =
      let ((ok, res), w1) =
        sys.run_capture (webhook_argv cfg (webhook_payload from text)) (pos 10000) 8192 w in
      let log : Bytes =
        codes "stdout:\n"
        ++ or_default res.out []
        ++ codes "\nstderr:\n"
        ++ or_default res.err [] in
      ((eqb_ℤ ok (pos 0) && eqb_ℤ res.exit_code (pos 0), log), w1)

  -- `smtp_send_plain` with its connection.
  unfoldable pub mail_send : SmtpConfig → Bytes → Bytes → Prog World (Bool × Bytes)
  unfolding smtp_send_plain
  mail_send smtp subject body w =
      let (server, w1) = sys.connect_tcp smtp.host (mail_port smtp) w in
      elim server [
        | none ↦
            let (ok, conn) = smtp_send_plain smtp (some subject) (some body) false [] in
            ((ok, conn.log), w1)
        | some input ↦
            let (ok, conn) = smtp_send_plain smtp (some subject) (some body) true input in
            ((ok, conn.log), sys.close conn.sent w1)
      ]

  unfoldable pub sms_forward_send : AppConfig → Bytes → Bytes → Prog World (Bool × Bytes)
  unfolding str_eq webhook_send forward_smtp mail_send
  sms_forward_send cfg from text w =
      let smtp : SmtpConfig = forward_smtp cfg in
      if eqb_ℤ cfg.sms_forward_enabled (pos 0)
      then ((false, codes "sms forwarding disabled"), w)
      else if str_eq cfg.sms_forward_mode (codes "webhook")
      then (if is_nil cfg.sms_webhook_url
          then ((false, codes "sms_webhook_url is empty"), w)
          else webhook_send cfg from text w)
      else if is_nil smtp.host || is_nil smtp.from || is_nil smtp.to
      then ((false, codes "smtp_host/from/to are required"), w)
      else mail_send smtp (codes "CellMgr SMS Forward") (mail_body from text) w
