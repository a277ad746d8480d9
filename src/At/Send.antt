-- ===== src/At/Send.antt =====
-- `at_send` of src/at.c. The history table is behind a parameter.
use cellmgr.Base.{Bool, not, ◌&&◌, none, some, [], if◌then◌else◌, Bytes, codes}
use cellmgr.Base.Int.{ℤ, pos, negsuc}
use cellmgr.At.Filter.{at_is_safe_command}
use cellmgr.Command.Call.{Runner}
use cellmgr.Command.Capture.{CommandResult}
use cellmgr.Config.Fields.{AppConfig}
use cellmgr.Ofono.Send.{ofono_send_at}

abbrev pub blocked : CommandResult
blocked = record {
  out = some [];
  err = some (codes "dangerous or invalid AT command blocked");
  exit_code = pos 403;
}

-- `run_capture`, and `db_insert_at_history` with the command, the response and the exit code.
module _ {World : Type 0} (run_capture : Runner World)
    (insert_at_history : Bytes → Bytes → ℤ → World → World) where
  abbrev record_history : Bytes → CommandResult → World → World
  record_history command res w = elim res.out [
    | none ↦ w
    | some response ↦ insert_at_history command response res.exit_code w
  ]

  unfoldable pub at_send : AppConfig → Bytes → Bool → World → (ℤ × CommandResult) × World
  unfolding at_is_safe_command
  at_send cfg command allow_dangerous w =
      if not allow_dangerous && not (at_is_safe_command command)
      then ((negsuc 0, blocked), w)
      else let (answer, w') = ofono_send_at run_capture cfg command w in
        (answer, record_history command answer.1 w')
