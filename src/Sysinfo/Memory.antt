-- ===== src/Sysinfo/Memory.antt =====
-- `meminfo` of src/sysinfo.c.
pub mod Table
use cellmgr.Base.{
  ℕ, zero, suc, ◌+◌, ◌-◌, ◌≤◌, ◌<◌, List, [], ◌∷◌, ◌++◌, Option, none, some, ◌≡◌, refl, ap, ◌∙◌,
  arith, if◌then◌else◌, Bytes, codes, length,
}
use cellmgr.Base.Int.{ℤ, pos}
use cellmgr.Libc.Text.{str_eq}
use cellmgr.Libc.Fscan.{scan_word, scan_long}

-- `fscanf(fp, "%63s %ld %31s", …) == 3`: the key, the value, and what is unread.
unfoldable pub scan_entry : Bytes → Option (Bytes × ℤ × Bytes)
unfolding scan_word scan_long
scan_entry s = elim (scan_word 63 s) [
  | none ↦ none
  | some (key, s1) ↦ elim (scan_long s1) [
    | none ↦ none
    | some (v, s2) ↦ elim (scan_word 31 s2) [ none ↦ none | some (unit, s3) ↦ some (key, v, s3) ]
  ]
]

-- `*total_kb` and `*avail_kb` behind an entry.
unfoldable pub note_entry : Bytes → ℤ → ℤ × ℤ → ℤ × ℤ
unfolding str_eq
note_entry key v (total_kb, avail_kb) =
    if str_eq key (codes "MemTotal:")
    then (v, avail_kb)
    else if str_eq key (codes "MemAvailable:")
    then (total_kb, v)
    else (total_kb, avail_kb)

unfoldable pub entries_from : ℕ → Bytes → ℤ × ℤ → ℤ × ℤ
unfolding scan_entry note_entry
entries_from zero s kb = kb
entries_from (suc fuel) s kb = elim (scan_entry s) [
  | none ↦ kb
  | some (key, v, rest) ↦ entries_from fuel rest (note_entry key v kb)
]

-- A round reads at least one byte.
unfoldable pub meminfo : Option Bytes → ℤ × ℤ
unfolding entries_from
meminfo none = (pos 0, pos 0)
meminfo (some s) = entries_from (suc (length s)) s (pos 0, pos 0)
