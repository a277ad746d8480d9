-- ===== src/Sysinfo/Kernel.antt =====
-- What src/sysinfo.c takes from the operating system and the C library.
use cellmgr.Base.{ℕ, Bool, Option, Bytes}
use cellmgr.Base.Int.{ℤ}
use cellmgr.System.{Prog}

-- `struct statvfs`, as far as it is read.
pub record Statvfs : Type 0 where
  pub f_blocks : ℕ
  pub f_frsize : ℕ
  pub f_bavail : ℕ

-- `read_file` is what a stream that `fopen` opens will give, none if it opens none. `write_file` is
-- none if `fopen` opens none, and otherwise whether `fputs` succeeds.
pub record Kernel (World : Type 0) : Type 0 where
  pub read_file : Bytes → World → Option Bytes
  pub write_file : Bytes → Bytes → Prog World (Option Bool)
  pub statvfs : Bytes → World → Option Statvfs
  pub sync : World → World

-- A double: the conversion of an integer, the product and the quotient, `%lf` of `fscanf`, and `%.nf`
-- of `printf`.
pub record Doubles (F : Type 0) : Type 0 where
  pub of_int : ℤ → F
  pub product : F → F → F
  pub quotient : F → F → F
  pub scan : Bytes → Option (F × Bytes)
  pub fixed : ℕ → F → Bytes
