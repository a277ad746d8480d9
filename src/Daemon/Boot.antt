-- ===== src/Daemon/Boot.antt =====
-- From `main` of src/main.c to every state that the threads can reach.
use cellmgr.Base.{
  ◌≤◌, Bool, true, false, List, Option, none, some, inl, inr, ◌≡◌, refl, ◌∙◌, subst, if◌then◌else◌,
  Bytes, codes, Bool-cases, Option-cases,
}
use cellmgr.Base.Int.{ℤ, pos_part}
use cellmgr.Config.Fields.{AppConfig}
use cellmgr.Config.Fits.{Fits, config_load-Fits}
use cellmgr.Config.Load.{config_load}
use cellmgr.System.{System}
use cellmgr.Http.State.{AppState, Services}
use cellmgr.Http.Fits.{Fits-IsClosed}
use cellmgr.Http.Closed.{IsClosed}
use cellmgr.Start.{
  start_config, restored, restore_active, restore_settings, discover_modem, import_profile,
  new_path,
}
use cellmgr.Ofono.Resolve.{ofono_resolve_modem_path}
use cellmgr.Db.Tables.{db_get_setting}
use cellmgr.Profile.Import.{given}
use cellmgr.Http.Settings.{schedule, settings_from}
use cellmgr.Start.Fits.{start_config-Fits}
use cellmgr.Start.Main.{Platform, config_path, falls_back, find_config, draw_token, boot}
use cellmgr.Db.Open.{db_open, db_init_schema}
use cellmgr.Daemon.{Daemon, Reach, started}
use cellmgr.Daemon.Traces.{Reach-closed}

if_loaded :
    (b : Bool) (f g : Option Bytes)
    → (file : Option Bytes) × ((if b then (config_load f).1 else (config_load g).1)
        ≡ (config_load file).1)
if_loaded true f g = (f, refl)
if_loaded false f g = (g, refl)

module _ {World : Type 0} (sys : System World) where
  restore_active-port :
      (cfg : AppConfig) (w : World) → (restore_active sys cfg w).0.listen_port ≡ cfg.listen_port
  unfolding restore_active
  restore_active-port cfg w =
      elim (Option-cases (given (db_get_setting sys (codes "active_profile") w).0)) [
        | inl e ↦ rw (e, restore_active)
        | inr (id, e) ↦ rw (e, restore_active)
      ]

  restore_settings-port :
      (cfg : AppConfig) (w : World) → (restore_settings sys cfg w).0.listen_port ≡ cfg.listen_port
  unfolding restore_settings restored
  restore_settings-port cfg w = refl

  discover_modem-port :
      (cfg : AppConfig) (w : World) → (discover_modem sys cfg w).0.listen_port ≡ cfg.listen_port
  unfolding discover_modem
  discover_modem-port cfg w =
      elim (Option-cases
        (new_path sys cfg (ofono_resolve_modem_path sys.run_capture cfg 128 w).0.0)) [
          | inl e ↦ rw (e, discover_modem)
          | inr (path, e) ↦ rw (e, discover_modem)
        ]

  start_config-port :
      (is_file : Bool) (cfg : AppConfig) (w : World)
      → (start_config sys is_file cfg w).0.listen_port ≡ cfg.listen_port
  unfolding start_config
  start_config-port is_file cfg w =
      let w1 = import_profile sys is_file cfg w in
      let (cfg2, w2) = restore_active sys cfg w1 in
      let (cfg3, w3) = restore_settings sys cfg2 w2 in
      discover_modem-port cfg3 w3 ∙ (restore_settings-port cfg2 w2 ∙ restore_active-port cfg w1)

module _ {World : Type 0} (platform : Platform World) where
  -- The configuration is that of some file, or of none.
  find_config-loaded :
      (args : List Bytes) (w : World)
      → (file : Option Bytes) × (find_config platform args w ≡ (config_load file).1)
  unfolding find_config
  find_config-loaded args w =
      if_loaded (falls_back platform args w) (platform.open_file (codes "./cellmgrd.conf") w)
        (platform.open_file (config_path platform args) w)

  -- The server's port is that of the file, from 1 to 65535, and the session token is the one that was
  -- drawn.
  pub record Kept (args : List Bytes) (w : World) (port : ℤ) (token : Bytes) : Type 0 where
    pub same_port : port ≡ (find_config platform args w).listen_port
    pub port_pos : 1 ≤ pos_part port
    pub port_max : pos_part port ≤ 65_535
    pub same_token : token ≡ draw_token platform w

  -- The strings fit their arrays as well.
  pub record Sound (args : List Bytes) (w : World) (state : AppState) : Type 0 where
    pub fits : Fits state.cfg
    pub kept : Kept args w state.cfg.listen_port state.session_token

  abbrev pub SoundIfSome : List Bytes → World → Option AppState → Type 0
  SoundIfSome args w none = Unit
  SoundIfSome args w (some state) = Sound args w state

  pub started-Sound :
      (args : List Bytes) (w w2 : World) (is_file : Bool)
      → Sound args w (record {
        cfg = (start_config platform.sys is_file (find_config platform args w) w2).0;
        session_token = draw_token platform w;
      })
  started-Sound args w w2 is_file =
      let (file, e) = find_config-loaded args w in
      let cfg = find_config platform args w in
      let port = start_config-port platform.sys is_file cfg w2 in
      let range = (config_load-Fits file).1 in
      let low : 1 ≤ pos_part cfg.listen_port = rw e (range.port_pos) in
      let high : pos_part cfg.listen_port ≤ 65_535 = rw e (range.port_max) in
      record {
        fits = rw e (start_config-Fits platform.sys is_file file w2);
        kept = record {
          same_port = port;
          port_pos = rw port low;
          port_max = rw port high;
          same_token = refl;
        };
      }

  boot-SoundIfSome : (args : List Bytes) (w : World) → SoundIfSome args w (boot platform args w).0
  boot-SoundIfSome args w =
      let (opened, w1) = db_open platform.opening (find_config platform args w).db_path w in
      elim (Bool-cases opened) [
        | inr e ↦ unfold boot in (rw e tt)
        | inl e ↦ elim (Bool-cases (db_init_schema platform.opening w1).0) [
          | inr k ↦ unfold boot in (rw (e, k) tt)
          | inl k ↦ unfold boot in (rw (e, k) (started-Sound args w _ _))
        ]
      ]

  pub Sound-IsClosed : (args : List Bytes) (w : World) → IsClosed (Sound args w)
  unfolding schedule settings_from
  Sound-IsClosed args w = record {
    activated =
        λ id state h. record { fits = Fits-IsClosed.activated id state h.fits; kept = h.kept };
    account_set = λ user pass state h. record {
      fits = Fits-IsClosed.account_set user pass state h.fits;
      kept = h.kept;
    };
    scheduled = λ enabled hour minute state good h. record {
      fits = Fits-IsClosed.scheduled enabled hour minute state good h.fits;
      kept = h.kept;
    };
    settings_saved = λ body state h. record {
      fits = Fits-IsClosed.settings_saved body state h.fits;
      kept = h.kept;
    };
  }

  -- In every state that the threads can reach behind a start, in any order of their steps and whatever
  -- happens outside, the strings of the configuration fit their arrays, the port is that of the
  -- configuration file, from 1 to 65535, and the session token is the one that was drawn.
  pub boot-Reach :
      (services : Services World) (args : List Bytes) (w w1 : World) (state : AppState)
      (d : Daemon World)
      → boot platform args w ≡ (some state, w1)
      → Reach platform.sys services (started state w1) d
      → Sound args w d.state
  boot-Reach services args w w1 state d e r =
      Reach-closed platform.sys services (Sound args w) (Sound-IsClosed args w)
        (subst (λ b. SoundIfSome args w b.0) e (boot-SoundIfSome args w)) r
