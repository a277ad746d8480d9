-- ===== src/Tests/Threads.antt =====
-- Concrete runs of the threads and of `main`.
use cellmgr.Base.{true, false, List, [], ◌∷◌, none, some, ◌≡◌, refl, codes, All, map}
use cellmgr.Base.Int.{ℤ, pos}
use cellmgr.Config.Fields.{config_defaults}
use cellmgr.Db.Lawful.{Tables}
use cellmgr.Db.Memory.{Memory, memory_system}
use cellmgr.System.{System}
use cellmgr.Scheduler.{no_day}
use cellmgr.Scheduler.Days.{NoRepeat, IsLog}
use cellmgr.Http.State.{AppState, Services}
use cellmgr.Http.Access.{lacks_session}
use cellmgr.Http.Serve.{Turn, not_accepted, accepts, whole, cut, broken, http_serve}
use cellmgr.Http.Answers.Served.{Answers, http_serve-Answers}
use cellmgr.Start.Main.{Platform, boot}
use cellmgr.Daemon.{
  Daemon, Event, connection, turn, printed, elapses, here, later, step, run, started,
}
use cellmgr.Daemon.Traces.{day_of, IsConfigured}
use cellmgr.Daemon.Reboots.{Made, run-NoRepeat, run-IsConfigured}
use cellmgr.Daemon.Boot.{Sound, boot-Reach}
use cellmgr.Daemon.Outcomes.{Outcomes}

abbrev sys : System Memory
sys = memory_system (codes "OK")

abbrev services : Services Memory
services = record {
  web_index_html = codes "<html>";
  web_style_css = [];
  web_app_js = [];
  sysinfo_json = λ iface w. (codes "{}", w);
  sysinfo_drop_caches = λ w. (true, w);
}

abbrev no_tables : Tables
no_tables = record {
  setting = λ key. none;
  profile = λ id. none;
  cached = λ id capability modem. none;
}

abbrev memory : Memory
memory = record { tables = no_tables; clock = pos 1000; ran = [] }

abbrev turns : List Turn
turns =
    accepts (codes "GET / HTTP/1.1\r\n\r\n") whole
    ∷ not_accepted
    ∷ accepts (codes "nonsense") (cut 12)
    ∷ accepts (codes "POST /api/system/reboot HTTP/1.1\r\n\r\n{\"confirm\":1}") (broken 0)
    ∷ accepts (codes "GET / HTTP/1.1\r\n\r\n") whole
    ∷ []

-- Reboots at half past three.
abbrev locked : AppState
locked = record {
  cfg = record config_defaults {
    auth_enabled = pos 1;
    scheduled_reboot_enabled = pos 1;
    scheduled_reboot_hour = pos 3;
    scheduled_reboot_minute = pos 30;
  };
  session_token = codes "170000000042";
}

http_serve-Answers_example : Answers turns (http_serve sys services turns locked memory).0.0
http_serve-Answers_example = http_serve-Answers sys services turns locked memory

abbrev running : Daemon Memory
running = started locked memory

abbrev events : List (Event Memory)
events =
    turn (pos 3) (pos 29) (pos 100)
    ∷ turn (pos 3) (pos 30) (pos 100)
    ∷ connection
        (codes "POST /api/system/scheduled-reboot HTTP/1.1\r\n\r\n{\"enabled\":1,\"hour\":4}")
    ∷ turn (pos 3) (pos 30) (pos 100)
    ∷ printed (codes "signal sender=org.ofono\n")
    ∷ elapses (λ m. record m { clock = pos 90_000 })
    ∷ turn (pos 3) (pos 30) (pos 101)
    ∷ []

sys-IsLog : IsLog sys.run_capture (λ m. m.ran)
sys-IsLog argv timeout_ms max_output m = refl

run-NoRepeat_example :
    (times : List (ℤ × ℤ × ℤ)) × Made sys services (λ m. m.ran) sys-IsLog events running times
    × NoRepeat no_day (map (day_of sys services) times)
run-NoRepeat_example = run-NoRepeat sys services (λ m. m.ran) sys-IsLog events running

run-IsConfigured_example :
    ((run sys services events running).state ≡ locked)
    × ((times : List (ℤ × ℤ × ℤ)) × Made sys services (λ m. m.ran) sys-IsLog events running times
        × All (IsConfigured sys services locked.cfg) times)
unfolding lacks_session config_defaults
run-IsConfigured_example =
    run-IsConfigured sys services (λ m. m.ran) sys-IsLog events running refl refl

-- Every call succeeds, and the first file holds a port.
abbrev platform : Platform Memory
platform = record {
  sys = sys;
  opening = record {
    mkdir = λ path m. m;
    sqlite3_open = λ path m. (true, m);
    sqlite3_busy_timeout = λ time m. m;
    sqlite3_exec = λ text m. (true, m);
    sqlite3_close = λ m. m;
  };
  listening = record {
    socket = λ m. (pos 5, m);
    reuse_address = λ srv m. m;
    inet_pton = λ host. none;
    bind = λ srv address port m. (true, m);
    listen = λ srv backlog m. (true, m);
    close = λ srv m. m;
  };
  open_file = λ path m. some (codes "listen_port=8080\n");
  is_readable = λ path m. false;
  getpid = λ m. pos 42;
}

abbrev booted : AppState
booted = elim (boot platform [] memory).0 [ none ↦ locked | some state ↦ state ]

abbrev booted_world : Memory
booted_world = (boot platform [] memory).1

boot_starts : boot platform [] memory ≡ (some booted, booted_world)
unfolding boot
boot_starts = refl

boot-Reach_example :
    Sound platform [] memory
      (step sys services
        (connection (codes "GET / HTTP/1.1\r\n\r\n"))
        (step sys services (turn (pos 3) (pos 30) (pos 100)) (started booted booted_world))).state
boot-Reach_example = boot-Reach platform services [] memory booted_world booted _ boot_starts (
    later (connection (codes "GET / HTTP/1.1\r\n\r\n"))
      (later (turn (pos 3) (pos 30) (pos 100)) here))
