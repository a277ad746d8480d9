-- ===== src/Daemon/Outcomes.antt =====
-- What `main` of src/main.c comes to: it returns 1, or it serves.
use cellmgr.Base.{true, List, Option, none, some, ◌≡◌, Bytes, codes}
use cellmgr.Base.Int.{ℤ, pos, ◌≤ℤ◌}
use cellmgr.Config.Fields.{AppConfig}
use cellmgr.Start.{start_config}
use cellmgr.Start.Main.{Platform, Outcome, exited, serving, find_config}
use cellmgr.Http.Listen.{port_of, address_of}
use cellmgr.Http.Serve.{Turn}
use cellmgr.Http.Answers.Served.{Answers}
use cellmgr.Db.Open.{db_open, db_init_schema}
use cellmgr.Daemon.Boot.{Sound}

module _ {World : Type 0} (platform : Platform World) where
  -- A socket is given, bound to the address and the port of the configuration, and listened on.
  abbrev Listens : AppConfig → World → Type 0
  Listens cfg w =
      let net = platform.listening in
      let (srv, w1) = net.socket w in
      let w2 = net.reuse_address srv w1 in
      let (bound, w3) =
        net.bind srv (address_of (net.inet_pton cfg.listen_host)) (port_of cfg.listen_port) w2 in
      (pos 0 ≤ℤ srv) × (bound ≡ true) × ((net.listen srv 16 w3).0 ≡ true)

  -- The database opens and takes its tables, and behind the start of the configuration the server can
  -- listen.
  abbrev pub IsReady : List Bytes → World → Type 0
  IsReady args w =
      let cfg = find_config platform args w in
      let (opened, w1) = db_open platform.opening cfg.db_path w in
      let (ready, w2) = db_init_schema platform.opening w1 in
      let (cfg1, w3) =
        start_config platform.sys (platform.is_readable (codes "./fm650.json") w2) cfg w2 in
      (opened ≡ true) × (ready ≡ true) × Listens cfg1 w3

  Heard : Option ℤ → AppConfig → World → Type 0
  Heard none cfg w = ¬ Listens cfg w
  Heard (some fd) cfg w = Listens cfg w

  abbrev pub Outcomes : List Bytes → List Turn → World → Outcome → Type 0
  Outcomes args turns w (exited code) = (code ≡ 1) × (¬ IsReady args w)
  Outcomes args turns w (serving answers left) =
      IsReady args w × Answers turns answers × Sound platform args w left
