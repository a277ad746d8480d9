-- ===== src/Smtp/Dialogue.antt =====
-- The dialogue of `smtp_send_plain` in src/smtp.c as a script: the lines to write, with what is asked
-- of the reply to each.
use cellmgr.Base.{
  Bool, true, false, not, List, [], ◌∷◌, ◌++◌, Option, ◌≡◌, refl, sym, ap, ◌∙◌, ◌⊎◌, inl, inr, none,
  some, arith, ◌&&◌, if◌then◌else◌, Bool-cases, Bytes, codes, append_assoc, append-nil,
}
use cellmgr.Base.Int.{ℤ, pos, leb_ℤ}
use cellmgr.Libc.Text.{truncate}
use cellmgr.Smtp.Base64.{base64_encode}
use cellmgr.Smtp.Session.{
  SmtpConfig, Conn, smtp_read_line, exchange, is_refusal, is_accepted, deliver, authenticate,
  opened, smtp_send_plain,
}

-- What is asked of a reply: nothing, a code of at most 399, or one from 200 to 399.
pub data Demand : Type 0 where
  anything no_refusal acceptance : Demand

unfoldable pub meets : Demand → ℤ → Bool
meets anything code = true
meets no_refusal code = leb_ℤ code (pos 399)
meets acceptance code = leb_ℤ (pos 200) code && leb_ℤ code (pos 399)

meets-anything : (code : ℤ) → meets anything code ≡ true
meets-anything code = unfold meets in refl

meets-no_refusal : (code : ℤ) → meets no_refusal code ≡ not (is_refusal code)
unfolding meets is_refusal
meets-no_refusal code = ground arith

meets-acceptance : (code : ℤ) → meets acceptance code ≡ is_accepted code
unfolding meets is_accepted
meets-acceptance code = ground arith

-- Each line is written when the replies before it met their demands.
unfoldable pub run_script : List (Bytes × Demand) → Conn → Bool × Conn
run_script [] c = (true, c)
run_script ((text, demand) ∷ script) c =
    let (code, c') = exchange text c in
    let rest = run_script script c' in if meets demand code then rest else (false, c')

abbrev pub login_script : SmtpConfig → Bytes → List (Bytes × Demand)
login_script cfg [] = []
login_script cfg (u ∷ ser) =
    (codes "AUTH LOGIN\r\n", anything)
    ∷ (base64_encode (u ∷ ser) ++ codes "\r\n", anything)
    ∷ (base64_encode cfg.pass ++ codes "\r\n", acceptance)
    ∷ []

-- A text that may be missing.
abbrev text_of : Bytes → Option Bytes → Bytes
text_of fallback none = fallback
text_of fallback (some s) = s

-- A message with its head, and the line of one dot that ends it.
abbrev mail_text : Bytes → Bytes → Bytes → Bytes → Bytes
mail_text from to subject body =
    codes "From: <"
    ++ (from
        ++ (codes ">\r\nTo: <"
            ++ (to
                ++ (codes ">\r\nSubject: "
                    ++ (subject ++ codes "\r\nContent-Type: text/plain; charset=utf-8\r\n\r\n")))))
    ++ (body ++ codes "\r\n.\r\n")

abbrev pub delivery_script : SmtpConfig → Option Bytes → Option Bytes → List (Bytes × Demand)
delivery_script cfg subject body =
    (codes "MAIL FROM:<" ++ (cfg.from ++ codes ">\r\n"), no_refusal)
    ∷ (codes "RCPT TO:<" ++ (cfg.to ++ codes ">\r\n"), no_refusal)
    ∷ (codes "DATA\r\n", no_refusal)
    ∷ (
      mail_text cfg.from cfg.to (text_of (codes "CellMgr SMS") subject) (text_of [] body),
      no_refusal,
    )
    ∷ (codes "QUIT\r\n", anything)
    ∷ []

abbrev pub script : SmtpConfig → Option Bytes → Option Bytes → List (Bytes × Demand)
script cfg subject body =
    (codes "EHLO cellmgr\r\n", anything)
    ∷ (login_script cfg cfg.user ++ delivery_script cfg subject body)

if_not {ℓ} : {A : Type ℓ} (b : Bool) (x y : A) → (if not b then x else y) ≡ (if b then y else x)
if_not true x y = refl
if_not false x y = refl

ruleset reply_rules = (meets-anything, meets-no_refusal, if_not)

deliver-run_script :
    (cfg : SmtpConfig) (subject body : Option Bytes) (c : Conn)
    → deliver cfg subject body c ≡ run_script (delivery_script cfg subject body) c
unfolding deliver run_script
deliver-run_script cfg none none c = simp reply_rules
deliver-run_script cfg none (some body) c = simp reply_rules
deliver-run_script cfg (some subject) none c = simp reply_rules
deliver-run_script cfg (some subject) (some body) c = simp reply_rules

run_script-append :
    (s t : List (Bytes × Demand)) (c : Conn)
    → run_script (s ++ t) c
      ≡ (if (run_script s c).0 then run_script t (run_script s c).1 else run_script s c)
unfolding run_script
run_script-append [] t c = refl
run_script-append ((text, demand) ∷ s) t c = elim (Bool-cases (meets demand (exchange text c).0)) [
  | inl e ↦ rw e (run_script-append s t (exchange text c).1)
  | inr e ↦ rw e
]

as_if : (b : Bool) (c : Conn) → ◌≡◌ {A = Bool × Conn} (b, c) (if b then (true, c) else (false, c))
as_if true c = refl
as_if false c = refl

authenticate-run_script :
    (cfg : SmtpConfig) (user : Bytes) (c : Conn)
    → authenticate cfg user c ≡ run_script (login_script cfg user) c
unfolding authenticate run_script
authenticate-run_script cfg [] c = refl
authenticate-run_script cfg (u ∷ ser) c =
    rw (meets-anything, meets-anything, meets-acceptance) (as_if _ _)

failed_as_is : (r x : Bool × Conn) → (if r.0 then x else (false, r.1)) ≡ (if r.0 then x else r)
failed_as_is (true, c) x = refl
failed_as_is (false, c) x = refl

run_script_first :
    (text : Bytes) (s : List (Bytes × Demand)) (c : Conn)
    → run_script ((text, anything) ∷ s) c ≡ run_script s (exchange text c).1
run_script_first text s c = unfold run_script in (rw meets-anything refl)

pub smtp_send_plain-run_script :
    (cfg : SmtpConfig) (subject body : Option Bytes) (input : Bytes)
    → smtp_send_plain cfg subject body true input ≡ (
        if meets acceptance (smtp_read_line (opened input)).0
        then run_script (script cfg subject body) (smtp_read_line (opened input)).1
        else (false, (smtp_read_line (opened input)).1))
unfolding smtp_send_plain
smtp_send_plain-run_script cfg subject body input =
    rw (if_not, if_not)
      (rw (
        authenticate-run_script cfg cfg.user,
        deliver-run_script,
        run_script_first,
        meets-acceptance,
        run_script-append (login_script cfg cfg.user),
        failed_as_is,
      ))

-- The lines as they are written, each cut to its array.
abbrev pub lines : List (Bytes × Demand) → List Bytes
lines [] = []
lines ((text, demand) ∷ s) = truncate 2048 text ∷ lines s

-- How far a script went: the lines written, and whether they are all of them.
pub record Progress (s : List (Bytes × Demand)) (c : Conn) (r : Bool × Conn) : Type 0 where
  pub written : List Bytes
  pub unwritten : List Bytes
  pub splits : lines s ≡ written ++ unwritten
  pub sent_is : r.1.sent ≡ c.sent ++ written
  pub success : r.0 ≡ true → unwritten ≡ []

sent-exchange :
    (text : Bytes) (c : Conn) → (exchange text c).1.sent ≡ c.sent ++ truncate 2048 text ∷ []
sent-exchange text c = unfold exchange in refl

Progress-next :
    (text : Bytes) (demand : Demand) (s : List (Bytes × Demand)) (c : Conn) (r : Bool × Conn)
    → Progress s (exchange text c).1 r
    → Progress ((text, demand) ∷ s) c r
Progress-next text demand s c r p = record {
  written = truncate 2048 text ∷ p.written;
  unwritten = p.unwritten;
  splits = ap (◌∷◌ (truncate 2048 text)) p.splits;
  sent_is =
      p.sent_is
      ∙ ap (λ l. l ++ p.written) (sent-exchange text c)
      ∙ append_assoc c.sent (truncate 2048 text ∷ []) p.written;
  success = p.success;
}

Progress-stopped :
    (text : Bytes) (demand : Demand) (s : List (Bytes × Demand)) (c : Conn)
    → Progress ((text, demand) ∷ s) c (false, (exchange text c).1)
Progress-stopped text demand s c = record {
  written = truncate 2048 text ∷ [];
  unwritten = lines s;
  splits = refl;
  sent_is = sent-exchange text c;
  success = λ e. cc;
}

run_script-Progress : (s : List (Bytes × Demand)) (c : Conn) → Progress s c (run_script s c)
unfolding run_script
run_script-Progress [] c = record {
  written = [];
  unwritten = [];
  splits = refl;
  sent_is = sym (append-nil c.sent);
  success = λ _. refl;
}
run_script-Progress ((text, demand) ∷ s) c = elim (Bool-cases (meets demand (exchange text c).0)) [
  | inl e ↦ rw e (Progress-next text demand s c _ (run_script-Progress s (exchange text c).1))
  | inr e ↦ rw e (Progress-stopped text demand s c)
]

sent-greeting : (input : Bytes) → (smtp_read_line (opened input)).1.sent ≡ []
sent-greeting input = unfold smtp_read_line in refl

-- What `smtp_send_plain` has written when it returns: lines of the script from the first one on, none
-- left out, and all of them unless it returns -1.
pub smtp_send_plain_sent :
    (cfg : SmtpConfig) (subject body : Option Bytes) (input : Bytes)
    → (unwritten : List Bytes) × (lines (script cfg subject body)
        ≡ (smtp_send_plain cfg subject body true input).1.sent ++ unwritten)
      × ((unwritten ≡ []) ⊎ ((smtp_send_plain cfg subject body true input).0 ≡ false))
smtp_send_plain_sent cfg subject body input =
    elim (Bool-cases (meets acceptance (smtp_read_line (opened input)).0)) [
      | inl e ↦
          rw (smtp_send_plain-run_script cfg subject body input, e)
            (p.unwritten, p.splits ∙ ap (λ l. l ++ p.unwritten) (sym written_is), done)
      | inr e ↦
          rw (smtp_send_plain-run_script cfg subject body input, e)
            (
              lines (script cfg subject body),
              ap (λ l. l ++ lines (script cfg subject body)) (sym (sent-greeting input)),
              inr refl,
            )
    ]
  where
    p :
        Progress
          (script cfg subject body)
          (smtp_read_line (opened input)).1
          (run_script (script cfg subject body) (smtp_read_line (opened input)).1)
    p = run_script-Progress (script cfg subject body) (smtp_read_line (opened input)).1

    written_is :
        (run_script (script cfg subject body) (smtp_read_line (opened input)).1).1.sent ≡ p.written
    written_is = p.sent_is ∙ ap (λ l. l ++ p.written) (sent-greeting input)

    done :
        (p.unwritten ≡ [])
        ⊎ ((run_script (script cfg subject body) (smtp_read_line (opened input)).1).0 ≡ false)
    done =
        elim (Bool-cases
          (run_script (script cfg subject body) (smtp_read_line (opened input)).1).0) [
            | inl e ↦ inl (p.success e)
            | inr e ↦ inr e
          ]
