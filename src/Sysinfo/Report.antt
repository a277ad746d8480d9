-- ===== src/Sysinfo/Report.antt =====
-- `read_first_temp_millic`, `sysinfo_json` and `sysinfo_drop_caches` of src/sysinfo.c.
use cellmgr.Base.{
  ℕ, zero, suc, ◌*◌, ◌%◌, Bool, true, false, ◌++◌, Option, none, some, if◌then◌else◌, Bytes, codes,
}
use cellmgr.Base.Int.{ℤ, pos, negsuc, leb_ℤ}
use cellmgr.Libc.Number.{show_nat, show_int}
use cellmgr.Libc.Fscan.{scan_long, word64}
use cellmgr.Json.Escape.{json_prop_string}
use cellmgr.System.{Prog}
use cellmgr.Sysinfo.Kernel.{Statvfs, Kernel, Doubles}
use cellmgr.Sysinfo.Cpu.{CpuSample, cpu_usage_percent}
use cellmgr.Sysinfo.Memory.{meminfo}
use cellmgr.Sysinfo.Net.{net_bytes}

unfoldable pub zone_path : ℕ → Bytes
unfolding show_nat
zone_path i = codes "/sys/class/thermal/thermal_zone" ++ (show_nat i ++ codes "/temp")

-- `fopen` and `fscanf` of one zone.
unfoldable pub zone_temp : Option Bytes → Option ℤ
unfolding scan_long
zone_temp none = none
zone_temp (some s) = elim (scan_long s) [ none ↦ none | some (t, rest) ↦ some t ]

-- The loop from zone `i` on, for `rounds` zones.
unfoldable pub first_temp : ℕ → ℕ → (ℕ → Option Bytes) → ℤ
unfolding zone_temp
first_temp zero i zone = negsuc 0
first_temp (suc rounds) i zone = elim (zone_temp (zone i)) [
  | none ↦ first_temp rounds (suc i) zone
  | some t ↦ t
]

unfoldable pub disk_bytes : Option Statvfs → ℕ × ℕ
disk_bytes none = (0, 0)
disk_bytes (some vfs) =
    ((vfs.f_blocks * vfs.f_frsize) % word64, (vfs.f_bavail * vfs.f_frsize) % word64)

module _ {World F : Type 0} (kernel : Kernel World) (doubles : Doubles F) where
  unfoldable pub read_first_temp_millic : World → ℤ
  unfolding first_temp zone_path
  read_first_temp_millic w = first_temp 16 0 (λ i. kernel.read_file (zone_path i) w)

  -- `fscanf` of one double into `d`, and what is unread if it converts.
  abbrev scan_double : F → Bytes → F × Option Bytes
  scan_double d s = elim (doubles.scan s) [ none ↦ (d, none) | some (v, rest) ↦ (v, some rest) ]

  -- The same where an earlier directive may have failed.
  abbrev scan_next : F → Option Bytes → F × Option Bytes
  scan_next d none = (d, none)
  scan_next d (some s) = scan_double d s

  unfoldable pub uptime_sec : Option Bytes → F
  uptime_sec s = (scan_next (doubles.of_int (pos 0)) s).0

  unfoldable pub loadavg : Option Bytes → F × F × F
  loadavg s =
      let zero_load = doubles.of_int (pos 0) in
      let (l1, s1) = scan_next zero_load s in
      let (l5, s2) = scan_next zero_load s1 in
      let (l15, s3) = scan_next zero_load s2 in (l1, l5, l15)

  unfoldable pub temperature_prop : ℤ → Bytes
  temperature_prop temp_millic =
      if leb_ℤ (pos 0) temp_millic
      then codes ",\"temperature_c\":"
        ++ doubles.fixed 1
            (doubles.quotient (doubles.of_int temp_millic) (doubles.of_int (pos 1000)))
      else codes ",\"temperature_c\":null"

  -- The text that is appended, from the readings in their order.
  unfoldable pub sysinfo_text : F → ℤ × ℤ → ℕ × ℕ → F × F × F → ℤ → ℕ × ℕ → F → Bytes → Bytes
  unfolding show_int show_nat temperature_prop json_prop_string
  sysinfo_text cpu (mem_total, mem_avail) (disk_total, disk_free) (l1, l5, l15) temp (rx, tx) up
        wan_iface =
      codes "{\"cpu_percent\":"
      ++ doubles.fixed 2 cpu
      ++ codes ",\"mem_total_kb\":"
      ++ show_int mem_total
      ++ codes ",\"mem_available_kb\":"
      ++ show_int mem_avail
      ++ codes ",\"disk_total_bytes\":"
      ++ show_nat disk_total
      ++ codes ",\"disk_free_bytes\":"
      ++ show_nat disk_free
      ++ codes ",\"loadavg\":["
      ++ doubles.fixed 2 l1
      ++ codes ","
      ++ doubles.fixed 2 l5
      ++ codes ","
      ++ doubles.fixed 2 l15
      ++ codes "],\"uptime_sec\":"
      ++ doubles.fixed 0 up
      ++ temperature_prop temp
      ++ json_prop_string (codes "wan_iface") wan_iface true
      ++ codes ",\"rx_bytes\":"
      ++ show_nat rx
      ++ codes ",\"tx_bytes\":"
      ++ show_nat tx
      ++ codes "}"

  -- The static variables of `cpu_usage_percent` go in and out.
  unfoldable pub sysinfo_json : ℕ → Bytes → Option CpuSample → World → Bytes × Option CpuSample
  unfolding sysinfo_text cpu_usage_percent meminfo disk_bytes loadavg read_first_temp_millic
      net_bytes uptime_sec
  sysinfo_json unset wan_iface prev w =
      let (cpu, prev1) =
        cpu_usage_percent doubles unset (kernel.read_file (codes "/proc/stat") w) prev in
      (
        sysinfo_text cpu (meminfo (kernel.read_file (codes "/proc/meminfo") w))
            (disk_bytes (kernel.statvfs (codes "/") w))
            (loadavg (kernel.read_file (codes "/proc/loadavg") w)) (read_first_temp_millic w)
            (net_bytes wan_iface (kernel.read_file (codes "/proc/net/dev") w))
            (uptime_sec (kernel.read_file (codes "/proc/uptime") w)) wan_iface,
        prev1,
      )

module _ {World : Type 0} (kernel : Kernel World) where
  unfoldable pub sysinfo_drop_caches : Prog World Bool
  sysinfo_drop_caches w =
      let (done, w1) =
        kernel.write_file (codes "/proc/sys/vm/drop_caches") (codes "3\n") (kernel.sync w) in
      elim done [ none ↦ (false, w1) | some ok ↦ (ok, w1) ]
