-- ===== src/Start/Main.antt =====
-- `main` of src/main.c: the configuration, the database, the start and the server.
use cellmgr.Base.{ℕ, Bool, not, ◌&&◌, List, ◌++◌, Option, none, some, if◌then◌else◌, Bytes, codes}
use cellmgr.Base.Int.{ℤ}
use cellmgr.Libc.Text.{str_eq, truncate}
use cellmgr.Libc.Number.{show_int}
use cellmgr.Config.Fields.{AppConfig}
use cellmgr.Config.Load.{config_load}
use cellmgr.System.{System, Prog}
use cellmgr.Db.Open.{Opening, db_open, db_init_schema, db_close}
use cellmgr.Http.State.{AppState, Services}
use cellmgr.Http.Listen.{Listening, open_listener}
use cellmgr.Http.Serve.{Turn, http_serve}
use cellmgr.Start.{arg_value, start_config}

-- `CELLMGR_DEFAULT_CONFIG`
abbrev default_config : Bytes
default_config = codes "./config/cellmgrd.conf"

-- What the rest of the system does for `main`: `open_file` is what the stream of `fopen` gives, and
-- `is_readable` is `access`.
pub record Platform (World : Type 0) : Type 0 where
  pub sys : System World
  pub opening : Opening World
  pub listening : Listening World
  pub open_file : Bytes → World → Option Bytes
  pub is_readable : Bytes → World → Bool
  pub getpid : World → ℤ

-- The exit code of the process, or the answers and the state of a server that goes on.
pub data Outcome : Type 0 where
  exited : ℕ → Outcome
  serving : List Bytes → AppState → Outcome

abbrev or_default_config : Option Bytes → Bytes
or_default_config none = default_config
or_default_config (some path) = path

module _ {World : Type 0} (platform : Platform World) where
  abbrev pub config_path : List Bytes → Bytes
  config_path args = or_default_config (arg_value args (codes "-c"))

  -- The test in front of the second `config_load`.
  unfoldable pub falls_back : List Bytes → World → Bool
  unfolding arg_value config_load str_eq
  falls_back args w =
      not (config_load (platform.open_file (config_path args) w)).0
      && str_eq (config_path args) default_config
      && platform.is_readable (codes "./cellmgrd.conf") w

  -- `state.cfg` in front of `config_dump`.
  unfoldable pub find_config : List Bytes → World → AppConfig
  unfolding arg_value config_load falls_back
  find_config args w =
      if falls_back args w
      then (config_load (platform.open_file (codes "./cellmgrd.conf") w)).1
      else (config_load (platform.open_file (config_path args) w)).1

  unfoldable pub draw_token : World → Bytes
  unfolding show_int
  draw_token w = truncate 64 (show_int (platform.sys.now_unix w) ++ show_int (platform.getpid w))

  -- The state that the threads start with, none if 1 is returned.
  unfoldable pub boot : List Bytes → Prog World (Option AppState)
  unfolding find_config draw_token db_open db_init_schema db_close start_config
  boot args w =
      let cfg = find_config args w in
      let (opened, w1) = db_open platform.opening cfg.db_path w in
      if not opened
      then (none, w1)
      else (let (ready, w2) = db_init_schema platform.opening w1 in
          if not ready
          then (none, db_close platform.opening w2)
          else (let (cfg1, w3) =
                start_config platform.sys (platform.is_readable (codes "./fm650.json") w2) cfg w2 in
              (some (record { cfg = cfg1; session_token = draw_token w }), w3)))

  -- The turns are those of the loop of `http_serve`.
  unfoldable pub main : Services World → List Bytes → List Turn → Prog World Outcome
  unfolding boot open_listener http_serve db_close
  main services args turns w =
      let (booted, w1) = boot args w in
      elim booted [
        | none ↦ (Outcome.exited 1, w1)
        | some state ↦
            let (srv, w2) = open_listener platform.listening state.cfg w1 in
            elim srv [
              | none ↦ (Outcome.exited 1, db_close platform.opening w2)
              | some fd ↦
                  let ((answers, left), w3) = http_serve platform.sys services turns state w2 in
                  (Outcome.serving answers left, w3)
            ]
      ]
