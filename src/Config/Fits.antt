-- ===== src/Config/Fits.antt =====
-- The strings of the configuration of src/config.c and the arrays of src/config.h that hold them.
use cellmgr.Base.{
  ℕ, ◌<◌, ◌≤◌, take, inl, inr, Bool-cases, arith, Bytes, length, length-take, List, [], ◌∷◌, Option,
  none, some,
}
use cellmgr.Base.Int.{pos_part}
use cellmgr.Common.Trim.{trim_in_place}
use cellmgr.Libc.Lines.{fgets_lines}
use cellmgr.Config.Fields.{AppConfig, config_defaults, Key, set_field}
use cellmgr.Config.Load.{
  set_key, starts_comment, set_pair, load_line, load_line_lem, load_lines, check_ranges,
  config_load,
}

-- The NUL has room too.
pub record Fits (cfg : AppConfig) : Type 0 where
  pub listen_host_fits : length cfg.listen_host < 64
  pub db_path_fits : length cfg.db_path < 256
  pub profile_path_fits : length cfg.profile_path < 256
  pub active_profile_fits : length cfg.active_profile < 128
  pub ofono_backend_fits : length cfg.ofono_backend < 64
  pub ofono_destination_fits : length cfg.ofono_destination < 128
  pub ofono_modem_path_fits : length cfg.ofono_modem_path < 128
  pub at_backend_fits : length cfg.at_backend < 64
  pub auth_user_fits : length cfg.auth_user < 64
  pub auth_pass_fits : length cfg.auth_pass < 128
  pub wan_iface_fits : length cfg.wan_iface < 64
  pub sms_forward_mode_fits : length cfg.sms_forward_mode < 32
  pub smtp_host_fits : length cfg.smtp_host < 128
  pub smtp_user_fits : length cfg.smtp_user < 128
  pub smtp_pass_fits : length cfg.smtp_pass < 128
  pub smtp_from_fits : length cfg.smtp_from < 128
  pub smtp_to_fits : length cfg.smtp_to < 128
  pub sms_webhook_url_fits : length cfg.sms_webhook_url < 256

length-kept : (n : ℕ) (s : Bytes) → length (take n s) ≤ n
length-kept n s = omega (arith, length-take {0} n s)

pub config_defaults-Fits : Fits config_defaults
unfolding config_defaults
config_defaults-Fits = omega arith

-- Whatever value comes with a key, and whatever its length, no array overflows.
pub set_field-Fits :
    (k : Key) (value : Bytes) (cfg : AppConfig) → Fits cfg → Fits (set_field k value cfg)
unfolding set_field
set_field-Fits Key.listen_host value cfg h = omega (arith, length-kept)
set_field-Fits _ value cfg h = omega (arith, length-kept)

chosen-Fits :
    (k : Option Key) (value : Bytes) (cfg : AppConfig)
    → Fits cfg
    → Fits (elim k [ none ↦ cfg | some k ↦ set_field k value cfg ])
chosen-Fits none value cfg h = h
chosen-Fits (some k) value cfg h = set_field-Fits k value cfg h

set_key-Fits : (cfg : AppConfig) (key value : Bytes) → Fits cfg → Fits (set_key cfg key value)
set_key-Fits cfg key value h = unfold set_key in chosen-Fits _ value cfg h

set_pair-Fits :
    (cfg : AppConfig) (line : Bytes) (eq : Option Bytes) → Fits cfg → Fits (set_pair cfg line eq)
set_pair-Fits cfg line none h = h
set_pair-Fits cfg line (some eq) h = set_key-Fits cfg _ _ h

load_line-Fits : (cfg : AppConfig) (raw : Bytes) → Fits cfg → Fits (load_line cfg raw)
load_line-Fits cfg raw h = elim (Bool-cases (starts_comment (trim_in_place raw))) [
  | inl e ↦ rw (load_line_lem, e) h
  | inr e ↦ rw (load_line_lem, e) (set_pair-Fits cfg _ _ h)
]

load_lines-Fits : (cfg : AppConfig) (lines : List Bytes) → Fits cfg → Fits (load_lines cfg lines)
unfolding load_lines
load_lines-Fits cfg [] h = h
load_lines-Fits cfg (l ∷ ls) h = load_lines-Fits (load_line cfg l) ls (load_line-Fits cfg l h)

-- What the checks at the end of `config_load` are for.
pub record InRange (cfg : AppConfig) : Type 0 where
  pub port_pos : 1 ≤ pos_part cfg.listen_port
  pub port_max : pos_part cfg.listen_port ≤ 65_535
  pub timeout_pos : 1 ≤ pos_part cfg.at_timeout_ms

check_ranges-InRange : (cfg : AppConfig) → InRange (check_ranges cfg)
unfolding check_ranges
check_ranges-InRange cfg = record {
  port_pos = ground arith;
  port_max = ground arith;
  timeout_pos = ground arith;
}

check_ranges-Fits : (cfg : AppConfig) → Fits cfg → Fits (check_ranges cfg)
unfolding check_ranges
check_ranges-Fits cfg h = omega arith

-- Whatever is in the file, or if there is none, the configuration that `config_load` leaves fits its
-- arrays, listens on a port from 1 to 65535 and has a positive timeout.
pub config_load-Fits :
    (file : Option Bytes) → Fits (config_load file).1 × InRange (config_load file).1
unfolding config_load
config_load-Fits none = (config_defaults-Fits, omega arith)
config_load-Fits (some file) =
    let read = load_lines config_defaults (fgets_lines 511 511 [] file) in
    (
      check_ranges-Fits read (load_lines-Fits _ (fgets_lines 511 511 [] file) config_defaults-Fits),
      check_ranges-InRange read,
    )
