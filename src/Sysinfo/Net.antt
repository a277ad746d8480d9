-- ===== src/Sysinfo/Net.antt =====
-- `net_bytes` of src/sysinfo.c.
pub mod Table
use cellmgr.Base.{
  ℕ, zero, suc, ◌+◌, ◌-◌, ◌≤◌, ◌<◌, List, [], ◌∷◌, ◌++◌, Option, none, some, ◌≡◌, refl, ap, ◌∙◌,
  arith, not, if◌then◌else◌, ◌==◌, Bytes, codes, length, get_or, drop,
}
use cellmgr.Libc.Text.{str_eq, strchr, take_while, is_nil}
use cellmgr.Libc.Lines.{fgets_lines}
use cellmgr.Libc.Fscan.{scan_ulls}
use cellmgr.Common.Trim.{trim_in_place}

-- `vals[0]` and `vals[8]` of a line of `iface`, none for another line.
unfoldable pub net_line : Bytes → Bytes → Option (ℕ × ℕ)
unfolding strchr take_while trim_in_place str_eq scan_ulls
net_line iface line = elim (strchr line b':') [
  | none ↦ none
  | some colon ↦
      let vals = scan_ulls 9 (drop 1 colon) in
      if str_eq (trim_in_place (take_while (λ c. not (c == b':')) line)) iface
      then some (get_or vals 0 0, get_or vals 8 0)
      else none
]

-- `*rx` and `*tx` behind the loop, which a line of `iface` ends.
unfoldable pub net_lines : Bytes → List Bytes → ℕ × ℕ
unfolding net_line
net_lines iface [] = (0, 0)
net_lines iface (line ∷ lines) = elim (net_line iface line) [
  | none ↦ net_lines iface lines
  | some counts ↦ counts
]

unfoldable pub net_bytes : Bytes → Option Bytes → ℕ × ℕ
unfolding net_lines fgets_lines
net_bytes iface none = (0, 0)
net_bytes iface (some s) =
    if is_nil iface then (0, 0) else net_lines iface (fgets_lines 511 511 [] s)
