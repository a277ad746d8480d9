-- ===== src/Daemon.antt =====
-- The threads of the daemon over the state that they share: `scheduler_main` of src/scheduler.c,
-- `monitor_main` of src/dbus_monitor.c and the loop of `http_serve` of src/http.c, as src/main.c starts
-- them; what holds in any order of their steps (Traces), the programs that the scheduler runs (Reboots),
-- and from the start on (Boot, Outcomes). The threads take no lock; a step is a whole request, a whole turn or a whole line, so what two
-- of them do to the same field at once is not looked at.
pub mod Traces
pub mod Reboots
pub mod Boot
pub mod Outcomes
use cellmgr.Base.{ℕ, List, [], ◌∷◌, if◌then◌else◌, Bytes}
use cellmgr.Base.Int.{ℤ}
use cellmgr.System.{System}
use cellmgr.Scheduler.{Tick, scheduler_turn, do_reboot, no_day}
use cellmgr.DbusMonitor.{note_line}
use cellmgr.Http.State.{AppState, Services}
use cellmgr.Http.Serve.{serve_connection}

-- `app_state`, the local `last_yday` of the scheduler, and the world.
pub record Daemon (World : Type 0) : Type 0 where
  pub state : AppState
  pub last_yday : ℤ
  pub world : World

-- A connection with what it sends, a turn of the scheduler at an hour, a minute and a day of the year,
-- a line of the monitor, and what happens outside of the daemon.
pub data Event (World : Type 0) : Type 0 where
  connection : List ℕ → Event World
  turn : ℤ → ℤ → ℤ → Event World
  printed : Bytes → Event World
  elapses : (World → World) → Event World

-- A turn reads the configuration that is shared.
abbrev pub tick_of : AppState → ℤ → ℤ → ℤ → Tick
tick_of state hour minute yday = record {
  cfg = state.cfg;
  tm_hour = hour;
  tm_min = minute;
  tm_yday = yday;
}

module _ {World : Type 0} (sys : System World) (services : Services World) where
  unfoldable pub step : Event World → Daemon World → Daemon World
  unfolding serve_connection scheduler_turn do_reboot note_line
  step (connection input) d =
      let ((answer, state1), w1) = serve_connection sys services d.state input d.world in
      record d { state = state1; world = w1 }
  step (turn hour minute yday) d =
      let (day, fires) = scheduler_turn d.last_yday (tick_of d.state hour minute yday) in
      record d {
        last_yday = day;
        world = if fires then do_reboot sys.run_capture d.world else d.world;
      }
  step (printed line) d = record d { world = note_line sys line d.world }
  step (elapses change) d = record d { world = change d.world }

  -- What any events at all can lead to.
  pub data Reach (d0 : Daemon World) : Daemon World → Type 0 where
    here : Reach d0 d0
    later : (e : Event World) {d : Daemon World} → Reach d0 d → Reach d0 (step e d)

  unfoldable pub run : List (Event World) → Daemon World → Daemon World
  unfolding step
  run [] d = d
  run (e ∷ events) d = run events (step e d)

-- The daemon as its threads start.
abbrev pub started : {World : Type 0} → AppState → World → Daemon World
started state w = record { state = state; last_yday = no_day; world = w }
