-- ===== src/Sysinfo/Cpu.antt =====
-- `read_cpu` and `cpu_usage_percent` of src/sysinfo.c. `unsigned long long` wraps around at 2^64.
pub mod Busy
use cellmgr.Base.{
  ℕ, ◌+◌, ◌-◌, ◌%◌, ◌≤◌, ◌<◌, List, [], ◌∷◌, ◌++◌, Option, none, some, ◌≡◌, refl, ap, ◌∙◌, arith,
  ◌==◌, if◌then◌else◌, Bytes, codes, length,
}
use cellmgr.Base.Int.{ℤ, pos, negsuc}
use cellmgr.Libc.Number.{StopsNumber}
use cellmgr.Libc.Fscan.{scan_word, scan_ulls, word64, spaced, counts_of, AreWords, scan_ulls-spaced}
use cellmgr.Sysinfo.Kernel.{Doubles}

pub record CpuSample : Type 0 where
  pub user : ℕ
  pub nice : ℕ
  pub system : ℕ
  pub idle : ℕ
  pub iowait : ℕ
  pub irq : ℕ
  pub softirq : ℕ
  pub steal : ℕ

-- Seven converted numbers are enough: the eighth then keeps what the variable held.
unfoldable pub sample_of : ℕ → List ℕ → Option CpuSample
sample_of unset (a ∷ b ∷ c ∷ d ∷ e ∷ f ∷ g ∷ []) = some (record {
  user = a;
  nice = b;
  system = c;
  idle = d;
  iowait = e;
  irq = f;
  softirq = g;
  steal = unset;
})
sample_of unset (a ∷ b ∷ c ∷ d ∷ e ∷ f ∷ g ∷ h ∷ rest) = some (record {
  user = a;
  nice = b;
  system = c;
  idle = d;
  iowait = e;
  irq = f;
  softirq = g;
  steal = h;
})
sample_of unset _ = none

-- `read_cpu` on what the stream gives, with what `steal` of the variable holds before.
unfoldable pub read_cpu : ℕ → Option Bytes → Option CpuSample
unfolding scan_word scan_ulls sample_of
read_cpu unset none = none
read_cpu unset (some stat) = elim (scan_word 7 stat) [
  | none ↦ none
  | some (tag, rest) ↦ sample_of unset (scan_ulls 8 rest)
]

-- A difference of 64-bit unsigned numbers.
abbrev pub minus64 : ℕ → ℕ → ℕ
minus64 a b = (a + word64 - b) % word64

abbrev pub idle_of : CpuSample → ℕ
idle_of s = (s.idle + s.iowait) % word64

abbrev pub total_of : CpuSample → ℕ
total_of s = (s.user + s.nice + s.system + s.idle + s.iowait + s.irq + s.softirq + s.steal) % word64

-- `totald - idled` and `totald`.
abbrev pub busy_and_total : CpuSample → CpuSample → ℕ × ℕ
busy_and_total prev cur =
    let totald = minus64 (total_of cur) (total_of prev) in
    let idled = minus64 (idle_of cur) (idle_of prev) in (minus64 totald idled, totald)

module _ {F : Type 0} (doubles : Doubles F) where
  unfoldable pub percent : ℕ × ℕ → F
  percent (busy, totald) =
      if totald == 0
      then doubles.of_int (pos 0)
      else doubles.quotient (doubles.product (doubles.of_int (pos busy)) (doubles.of_int (pos 100)))
          (doubles.of_int (pos totald))

  -- The static variables `prev` and `has_prev` as an option, passed on.
  unfoldable pub cpu_usage_percent : ℕ → Option Bytes → Option CpuSample → F × Option CpuSample
  unfolding read_cpu percent
  cpu_usage_percent unset stat prev = elim (read_cpu unset stat) [
    | none ↦ (doubles.of_int (negsuc 0), prev)
    | some cur ↦ elim prev [
      | none ↦ (doubles.of_int (pos 0), some cur)
      | some old ↦ (percent (busy_and_total old cur), some cur)
    ]
  ]
