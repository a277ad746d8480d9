-- ===== src/Tests/Service.antt =====
-- Concrete runs of src/config.c, src/dbus_cmd.c, src/smtp.c and src/scheduler.c.
use cellmgr.Base.{
  none, ℕ, zero, suc, true, false, List, [], ◌∷◌, ◌++◌, Option, some, ◌≡◌, ◌⊎◌, refl, inl, inr,
  arith, Bytes, codes,
}
use cellmgr.Base.Int.{ℤ, pos}
use cellmgr.Config.Fields.{config_defaults}
use cellmgr.Config.Load.{config_load}
use cellmgr.Config.Fits.{Fits, InRange, config_load-Fits}
use cellmgr.Command.Capture.{CommandResult, idle, eof, bytes, Round, exited, run_capture}
use cellmgr.Command.Bounds.{Ran, run_capture_returns}
use cellmgr.Smtp.Base64.{base64_encode}
use cellmgr.Smtp.Decode.{decode, decode-base64_encode}
use cellmgr.Smtp.Session.{SmtpConfig, smtp_send_plain}
use cellmgr.Smtp.Dialogue.{script, lines, smtp_send_plain_sent}
use cellmgr.Scheduler.{Tick, no_day, scheduler_main}
use cellmgr.Command.Call.{Runner}
use cellmgr.Scheduler.Days.{Days, IsLog, NoRepeat, programs_of, reboot_days, scheduler_main-Days}

abbrev file : Bytes
file = codes "# settings\nlisten_port = 99999\nauth_user=root\nat_timeout_ms = 0\n"

config_load-Fits_example : Fits (config_load (some file)).1 × InRange (config_load (some file)).1
config_load-Fits_example = config_load-Fits (some file)

abbrev slow_rounds : List Round
slow_rounds =
    record { out_read = bytes (codes "abc"); err_read = idle; elapsed = 0 }
    ∷ record { out_read = bytes (codes "def"); err_read = eof; elapsed = 4 }
    ∷ []

run_capture_returns_example :
    (code : ℤ) × (res : CommandResult) × (run_capture (pos 3000) 4 true slow_rounds (exited 7)
      ≡ some (code, res))
    × Ran (pos 3000) 4 slow_rounds (exited 7) code res
run_capture_returns_example =
    run_capture_returns (pos 3000) 4 slow_rounds (exited 7) (inr (inl (omega arith)))

decode-base64_encode_example : decode (base64_encode (codes "admin")) ≡ some (codes "admin")
decode-base64_encode_example = decode-base64_encode (codes "admin") (omega arith)

abbrev mail : SmtpConfig
mail = record {
  host = codes "mail";
  port = pos 25;
  user = [];
  pass = [];
  from = codes "a@b";
  to = codes "c@d";
}

abbrev subject : Option Bytes
subject = some (codes "SMS")

abbrev body : Option Bytes
body = some (codes "hello")

-- A server that accepts, and refuses the second address.
abbrev replies : Bytes
replies = codes "220 ready\r\n250 ok\r\n250 ok\r\n550 no\r\n"

smtp_send_plain_sent_example :
    (unwritten : List Bytes) × (lines (script mail subject body)
      ≡ (smtp_send_plain mail subject body true replies).1.sent ++ unwritten)
    × ((unwritten ≡ []) ⊎ ((smtp_send_plain mail subject body true replies).0 ≡ false))
smtp_send_plain_sent_example = smtp_send_plain_sent mail subject body replies

-- `n` letters.
abbrev letters : ℕ → Bytes
letters zero = []
letters (suc n) = b'x' ∷ letters n

abbrev tick : ℤ → ℤ → Tick
tick hour day = record {
  cfg = record config_defaults { scheduled_reboot_enabled = pos 1 };
  tm_hour = hour;
  tm_min = pos 30;
  tm_yday = day;
}

abbrev ticks : List Tick
ticks =
    tick (pos 3) (pos 9) ∷ tick (pos 3) (pos 9) ∷ tick (pos 4) (pos 9) ∷ tick (pos 3) (pos 10) ∷ []

two_reboots : reboot_days no_day ticks ≡ pos 9 ∷ pos 10 ∷ []
unfolding reboot_days config_defaults
two_reboots = refl

-- The world is the programs that were run.
abbrev recording : Runner (List (List Bytes))
recording argv timeout_ms limit ran =
    ((pos 0, record { out = none; err = none; exit_code = pos 0 }), ran ++ argv ∷ [])

recording-IsLog : IsLog recording (λ ran. ran)
recording-IsLog argv timeout_ms limit ran = refl

scheduler_main-Days_example :
    (days : List ℤ) × Days no_day ticks days
    × NoRepeat no_day days
    × ((scheduler_main recording no_day ticks []).1 ≡ [] ++ programs_of days)
scheduler_main-Days_example =
    scheduler_main-Days recording (λ ran. ran) recording-IsLog no_day ticks []
