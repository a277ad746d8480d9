-- ===== src/Ofono/Send.antt =====
-- The calls of src/ofono.c, each one call of `dbus_send_call`. A string that is not NULL is given.
use cellmgr.Base.{
  ℕ, ◌-◌, Bool, ◌&&◌, ◌||◌, List, [], ◌∷◌, ◌++◌, ◌==◌, leb, ltb, if◌then◌else◌, Bytes, codes,
  length, get_or,
}
use cellmgr.Base.Int.{ℤ}
use cellmgr.Command.Call.{Runner, dbus_send_call}
use cellmgr.Command.Capture.{CommandResult}
use cellmgr.Config.Fields.{AppConfig}
use cellmgr.Libc.Text.{truncate}

-- The byte before the last `k` bytes.
abbrev from_end : Bytes → ℕ → ℕ
from_end s k = get_or s (length s - k) 0

-- `has_terminator`: a line end, or a backslash with `r` or `n` as two characters.
unfoldable pub has_terminator : Bytes → Bool
has_terminator cmd =
    (ltb 0 (length cmd) && (from_end cmd 1 == 13 || from_end cmd 1 == 10))
    || (leb 2 (length cmd)
        && from_end cmd 2 == b'\\'
        && (from_end cmd 1 == b'r' || from_end cmd 1 == b'n'))

-- `at_arg`, an array of 1024 bytes.
unfoldable pub at_argument : Bytes → Bytes
unfolding has_terminator
at_argument cmd =
    truncate 1024
      (if has_terminator cmd then codes "string:" ++ cmd else codes "string:" ++ (cmd ++ 13 ∷ []))

module _ {World : Type 0} (run_capture : Runner World) where
  abbrev pub call : AppConfig → Bytes → List Bytes → World → (ℤ × CommandResult) × World
  call cfg method args =
      dbus_send_call run_capture cfg.ofono_destination cfg.ofono_modem_path method args
        cfg.at_timeout_ms

  unfoldable pub ofono_get_modem_properties : AppConfig → World → (ℤ × CommandResult) × World
  ofono_get_modem_properties cfg = call cfg (codes "org.ofono.Modem.GetProperties") []

  unfoldable pub ofono_get_network_properties : AppConfig → World → (ℤ × CommandResult) × World
  ofono_get_network_properties cfg =
      call cfg (codes "org.ofono.NetworkRegistration.GetProperties") []

  unfoldable pub ofono_get_sim_properties : AppConfig → World → (ℤ × CommandResult) × World
  ofono_get_sim_properties cfg = call cfg (codes "org.ofono.SimManager.GetProperties") []

  unfoldable pub ofono_get_modems : AppConfig → World → (ℤ × CommandResult) × World
  ofono_get_modems cfg =
      dbus_send_call run_capture cfg.ofono_destination (codes "/")
        (codes "org.ofono.Manager.GetModems") [] cfg.at_timeout_ms

  abbrev boolean_argument : Bool → Bytes
  boolean_argument b = if b then codes "variant:boolean:true" else codes "variant:boolean:false"

  unfoldable pub ofono_set_powered : AppConfig → Bool → World → (ℤ × CommandResult) × World
  ofono_set_powered cfg powered =
      call cfg (codes "org.ofono.Modem.SetProperty")
        (codes "string:Powered" ∷ boolean_argument powered ∷ [])

  unfoldable pub ofono_set_online : AppConfig → Bool → World → (ℤ × CommandResult) × World
  ofono_set_online cfg online =
      call cfg (codes "org.ofono.Modem.SetProperty")
        (codes "string:Online" ∷ boolean_argument online ∷ [])

  unfoldable pub ofono_send_at : AppConfig → Bytes → World → (ℤ × CommandResult) × World
  unfolding at_argument
  ofono_send_at cfg command =
      call cfg (codes "org.ofono.Modem.SendAtcmd") (at_argument command ∷ [])

  unfoldable pub ofono_send_sms : AppConfig → Bytes → Bytes → World → (ℤ × CommandResult) × World
  ofono_send_sms cfg number text =
      call cfg (codes "org.ofono.MessageManager.SendMessage")
        (truncate 256 (codes "string:" ++ number) ∷ truncate 2048 (codes "string:" ++ text) ∷ [])
