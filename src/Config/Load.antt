-- ===== src/Config/Load.antt =====
-- `set_key` and `config_load` of src/config.c. The file is its bytes, which hold no NUL, or `none`
-- if it cannot be opened.
use cellmgr.Base.{
  ◌≡◌, refl, Bool, true, false, not, ◌||◌, List, [], ◌∷◌, Option, none, some, ◌==◌, if◌then◌else◌,
  Bytes, drop,
}
use cellmgr.Base.Int.{pos, leb_ℤ, ltb_ℤ}
use cellmgr.Common.Trim.{trim_in_place}
use cellmgr.Config.Fields.{AppConfig, Key, key_name, all_keys, set_field, config_defaults}
use cellmgr.Libc.Lines.{fgets_lines}
use cellmgr.Libc.Text.{str_eq, strchr, take_while}

-- The first comparison that succeeds.
unfoldable pub find_key : List Key → Bytes → Option Key
unfolding str_eq
find_key [] key = none
find_key (k ∷ ks) key = if str_eq key (key_name k) then some k else find_key ks key

unfoldable pub set_key : AppConfig → Bytes → Bytes → AppConfig
unfolding find_key set_field
set_key cfg key value = elim (find_key all_keys key) [ none ↦ cfg | some k ↦ set_field k value cfg ]

abbrev pub starts_comment : Bytes → Bool
starts_comment [] = true
starts_comment (c ∷ s) = c == b'#'

-- The value behind the `=`.
abbrev pub set_pair : AppConfig → Bytes → Option Bytes → AppConfig
set_pair cfg line none = cfg
set_pair cfg line (some eq) =
    set_key cfg (trim_in_place (take_while (λ c. not (c == b'=')) line)) (trim_in_place (drop 1 eq))

-- The body of the loop.
unfoldable pub load_line : AppConfig → Bytes → AppConfig
unfolding set_key trim_in_place strchr take_while
load_line cfg raw =
    let line = trim_in_place raw in
    if starts_comment line then cfg else set_pair cfg line (strchr line b'=')

pub load_line_lem :
    (cfg : AppConfig) (raw : Bytes)
    → load_line cfg raw ≡ (
        if starts_comment (trim_in_place raw)
        then cfg
        else set_pair cfg (trim_in_place raw) (strchr (trim_in_place raw) b'='))
load_line_lem cfg raw = unfold load_line in refl

unfoldable pub load_lines : AppConfig → List Bytes → AppConfig
unfolding load_line
load_lines cfg [] = cfg
load_lines cfg (l ∷ ls) = load_lines (load_line cfg l) ls

-- The checks behind the loop.
unfoldable pub check_ranges : AppConfig → AppConfig
check_ranges cfg = record cfg {
  listen_port =
      if leb_ℤ cfg.listen_port (pos 0) || ltb_ℤ (pos 65_535) cfg.listen_port
      then pos 4242
      else cfg.listen_port;
  at_timeout_ms = if leb_ℤ cfg.at_timeout_ms (pos 0) then pos 3000 else cfg.at_timeout_ms;
}

-- The flag is whether 0 is returned.
unfoldable pub config_load : Option Bytes → Bool × AppConfig
unfolding load_lines fgets_lines check_ranges config_defaults
config_load none = (false, config_defaults)
config_load (some file) =
    (true, check_ranges (load_lines config_defaults (fgets_lines 511 511 [] file)))
