-- ===== src/Command/Call.antt =====
-- `dbus_send_call` of src/dbus_cmd.c.
use cellmgr.Base.{ℕ, List, ◌∷◌, ◌++◌, Bytes, codes}
use cellmgr.Base.Int.{ℤ}
use cellmgr.Command.Capture.{CommandResult}
use cellmgr.Libc.Text.{truncate}

-- `run_capture` with the rest of the system as a state: arguments, timeout and limit, and what comes
-- back; the number is what the call returns.
abbrev pub Runner : Type 0 → Type 0
Runner World = List Bytes → ℤ → ℕ → World → (ℤ × CommandResult) × World

abbrev pub max_at_response : ℕ
max_at_response = 8192

unfoldable pub dbus_send_argv : Bytes → Bytes → Bytes → List Bytes → List Bytes
dbus_send_argv destination path interface_method args =
    codes "dbus-send"
    ∷ codes "--system"
    ∷ codes "--print-reply"
    ∷ truncate 256 (codes "--dest=" ++ destination)
    ∷ path
    ∷ interface_method
    ∷ args

module _ {World : Type 0} (run_capture : Runner World) where
  unfoldable pub dbus_send_call :
      Bytes → Bytes → Bytes → List Bytes → ℤ → World → (ℤ × CommandResult) × World
  unfolding dbus_send_argv
  dbus_send_call destination path interface_method args timeout_ms =
      run_capture (dbus_send_argv destination path interface_method args) timeout_ms max_at_response
