-- ===== src/DbusMonitor.antt =====
-- `monitor_main` of src/dbus_monitor.c: what `dbus-monitor` prints goes into the table of events.
use cellmgr.Base.{List, [], ◌∷◌, if◌then◌else◌, Bytes, codes}
use cellmgr.Libc.Text.{is_nil}
use cellmgr.Libc.Lines.{fgets_lines}
use cellmgr.Common.Trim.{trim_in_place}
use cellmgr.System.{System}
use cellmgr.Db.Tables.{db_insert_dbus_event}

-- A round of the endless loop: no pipe, no child or no stream, or all that the child prints.
pub data Attempt : Type 0 where
  no_pipe no_child no_stream : Attempt
  printed : Bytes → Attempt

module _ {World : Type 0} (sys : System World) where
  unfoldable pub note_line : Bytes → World → World
  unfolding trim_in_place db_insert_dbus_event
  note_line line w =
      let trimmed = trim_in_place line in
      if is_nil trimmed then w else (db_insert_dbus_event sys (codes "org.ofono") trimmed w).1

  unfoldable pub note_lines : List Bytes → World → World
  unfolding note_line
  note_lines [] w = w
  note_lines (line ∷ lines) w = note_lines lines (note_line line w)

  unfoldable pub attempt : Attempt → World → World
  unfolding note_lines fgets_lines
  attempt (printed output) w = note_lines (fgets_lines 1023 1023 [] output) w
  attempt _ w = w

  unfoldable pub monitor_main : List Attempt → World → World
  unfolding attempt
  monitor_main [] w = w
  monitor_main (a ∷ rest) w = monitor_main rest (attempt a w)
