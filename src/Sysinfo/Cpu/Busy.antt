-- ===== src/Sysinfo/Cpu/Busy.antt =====
-- The share of the time that the processors were busy between two readings of src/sysinfo.c, from
-- counters that wrap around.
use cellmgr.Base.{
  ℕ, ◌+◌, ◌-◌, ◌%◌, ◌≤◌, ◌<◌, List, [], ◌∷◌, ◌++◌, Option, some, ◌≡◌, refl, ap, ◌∙◌, arith, false,
  ◌==◌, Bytes, codes,
}
use cellmgr.Base.Int.{pos}
use cellmgr.Libc.Text.{skip_while, take_while, isspace}
use cellmgr.Libc.Number.{StopsNumber}
use cellmgr.Libc.Scan.{read_run}
use cellmgr.Libc.Fscan.{scan_word, scan_ulls, word64, spaced, AreWords, scan_ulls-spaced}
use cellmgr.Sysinfo.Kernel.{Doubles}
use cellmgr.Sysinfo.Cpu.{
  CpuSample, sample_of, read_cpu, minus64, idle_of, total_of, busy_and_total, percent,
  cpu_usage_percent,
}

-- The first line of /proc/stat, as the kernel prints it.
abbrev columns : CpuSample → List (ℕ × ℕ)
columns s =
    (1, s.user)
    ∷ (0, s.nice)
    ∷ (0, s.system)
    ∷ (0, s.idle)
    ∷ (0, s.iowait)
    ∷ (0, s.irq)
    ∷ (0, s.softirq)
    ∷ (0, s.steal)
    ∷ []

abbrev pub stat_text : CpuSample → Bytes → Bytes
stat_text s rest = codes "cpu" ++ (spaced (columns s) ++ rest)

-- The counters of the kernel show numbers of ticks in 64 bits.
abbrev pub shown : CpuSample → CpuSample
shown s = record {
  user = s.user % word64;
  nice = s.nice % word64;
  system = s.system % word64;
  idle = s.idle % word64;
  iowait = s.iowait % word64;
  irq = s.irq % word64;
  softirq = s.softirq % word64;
  steal = s.steal % word64;
}

abbrev pub busy_ticks : CpuSample → ℕ
busy_ticks s = s.user + s.nice + s.system + s.irq + s.softirq + s.steal

abbrev pub idle_ticks : CpuSample → ℕ
idle_ticks s = s.idle + s.iowait

-- What passed from `old` to `new`: fewer than 2^64 ticks in all.
pub record Passed (old new : CpuSample) (busy total : ℕ) : Type 0 where
  pub busy_more : busy_ticks new ≡ busy_ticks old + busy
  pub total_more : busy_ticks new + idle_ticks new ≡ busy_ticks old + idle_ticks old + total
  pub not_back : busy ≤ total
  pub not_round : total < word64

tag_read : (t : Bytes) → scan_word 7 (codes "cpu" ++ b' ' ∷ t) ≡ some (codes "cpu", b' ' ∷ t)
unfolding scan_word read_run take_while skip_while isspace
tag_read t = refl

read_cpu_lem :
    (unset : ℕ) (stat tag rest : Bytes)
    → scan_word 7 stat ≡ some (tag, rest)
    → read_cpu unset (some stat) ≡ sample_of unset (scan_ulls 8 rest)
unfolding read_cpu
read_cpu_lem unset stat tag rest e = rw (read_cpu, e)

-- A line whose numbers have 64 bits is read exactly.
read_cpu-stat_text :
    (unset : ℕ) (s : CpuSample) (rest : Bytes)
    → AreWords (columns s)
    → StopsNumber rest
    → read_cpu unset (some (stat_text s rest)) ≡ some s
unfolding sample_of
read_cpu-stat_text unset s rest h k =
    read_cpu_lem unset (stat_text s rest) (codes "cpu") (spaced (columns s) ++ rest) (tag_read _)
    ∙ ap (sample_of unset) (scan_ulls-spaced (columns s) rest h k)

total_shown : (s : CpuSample) → total_of (shown s) ≡ (busy_ticks s + idle_ticks s) % word64
total_shown s = omega arith

idle_shown : (s : CpuSample) → idle_of (shown s) ≡ idle_ticks s % word64
idle_shown s = omega arith

-- A difference of counters is what was counted in between, if that has 64 bits.
minus64_counts : (a b n : ℕ) → a ≡ b + n → n < word64 → minus64 (a % word64) (b % word64) ≡ n
minus64_counts a b n e h = omega arith

minus64_back : (a b n m : ℕ) → a ≡ b + m → m ≤ n → n < word64 → minus64 n m ≡ n - m
minus64_back a b n m e h k = omega arith

busy_and_total-Passed :
    (old new : CpuSample) (busy total : ℕ)
    → Passed old new busy total
    → busy_and_total (shown old) (shown new) ≡ (busy, total)
busy_and_total-Passed old new busy total p =
    let totald : minus64 (total_of (shown new)) (total_of (shown old)) ≡ total =
      rw (total_shown new, total_shown old)
        (minus64_counts (busy_ticks new + idle_ticks new) (busy_ticks old + idle_ticks old) total
          p.total_more p.not_round) in
    let idled : minus64 (idle_of (shown new)) (idle_of (shown old)) ≡ total - busy =
      rw (idle_shown new, idle_shown old)
        (minus64_counts (idle_ticks new) (idle_ticks old) (total - busy) (omega (arith, p))
          (omega (arith, p))) in
    let left : minus64 total (total - busy) ≡ busy = omega (arith, p) in rw (totald, idled, left)

module _ {F : Type 0} (doubles : Doubles F) where
  cpu_usage_percent_lem :
      (unset : ℕ) (stat : Option Bytes) (old cur : CpuSample)
      → read_cpu unset stat ≡ some cur
      → cpu_usage_percent doubles unset stat (some old)
        ≡ (percent doubles (busy_and_total old cur), some cur)
  unfolding cpu_usage_percent
  cpu_usage_percent_lem unset stat old cur e = rw (cpu_usage_percent, e)

  percent_lem :
      (busy total : ℕ)
      → 0 < total
      → percent doubles (busy, total)
        ≡ doubles.quotient
            (doubles.product (doubles.of_int (pos busy)) (doubles.of_int (pos 100)))
            (doubles.of_int (pos total))
  unfolding percent
  percent_lem busy total h = let moved : (total == 0) ≡ false = ground arith in rw moved

  -- Behind a reading of `old`, a reading of `new` gives the busy ticks in a hundred of those that
  -- passed, exactly, even if counters wrapped around in between, when at least one and fewer than 2^64
  -- ticks passed; and it is what the next one is compared with.
  pub cpu_usage_percent-Passed :
      (unset : ℕ) (old new : CpuSample) (busy total : ℕ) (rest : Bytes)
      → Passed old new busy total
      → 0 < total
      → StopsNumber rest
      → cpu_usage_percent doubles unset (some (stat_text (shown new) rest)) (some (shown old)) ≡ (
        doubles.quotient
            (doubles.product (doubles.of_int (pos busy)) (doubles.of_int (pos 100)))
            (doubles.of_int (pos total)),
        some (shown new),
      )
  cpu_usage_percent-Passed unset old new busy total rest p h k =
      let words : AreWords (columns (shown new)) = omega arith in
      let next : Option CpuSample = some (shown new) in
      cpu_usage_percent_lem unset (some (stat_text (shown new) rest)) (shown old) (shown new)
        (read_cpu-stat_text unset (shown new) rest words k)
      ∙ (ap (λ q. (percent doubles q, next)) (busy_and_total-Passed old new busy total p)
          ∙ ap (λ x. (x, next)) (percent_lem busy total h))
