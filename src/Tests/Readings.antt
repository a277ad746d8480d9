-- ===== src/Tests/Readings.antt =====
-- Concrete runs of src/sysinfo.c, and of the opening of the database and of connections.
use cellmgr.Base.{
  if◌then◌else◌, ℕ, ◌*◌, ◌/◌, true, List, [], ◌∷◌, none, some, ◌≡◌, ◌==◌, refl, arith, codes, All,
}
use cellmgr.Base.Int.{ℤ, pos, negsuc, eqb_ℤ, pos_part}
use cellmgr.Libc.Text.{isspace, isdigit, skip_while, take_while, str_eq}
use cellmgr.Libc.Number.{show_nat, digits}
use cellmgr.Libc.Scan.{read_run}
use cellmgr.Libc.Fscan.{scan_word}
use cellmgr.Common.Trim.{is_blank}
use cellmgr.Sysinfo.Kernel.{Doubles}
use cellmgr.Sysinfo.Cpu.{CpuSample, cpu_usage_percent}
use cellmgr.Sysinfo.Cpu.Busy.{Passed, shown, stat_text, cpu_usage_percent-Passed}
use cellmgr.Sysinfo.Memory.{scan_entry, meminfo}
use cellmgr.Sysinfo.Memory.Table.{Entry, IsRow, table, meminfo-table}
use cellmgr.Sysinfo.Net.{net_bytes}
use cellmgr.Sysinfo.Net.Table.{Line, header, row, IsLine, file_text, net_bytes-file_text}
use cellmgr.Db.Open.{ensure_parent_dir}
use cellmgr.Db.Open.Parents.{ensure_parent_dir-ways}
use cellmgr.Smtp.Connect.{Sockets, TracksOpen, connect_tcp, connect_tcp-Leaves}

-- Percentages rounded down, in place of doubles.
abbrev whole : Doubles ℕ
whole = record {
  of_int = λ z. pos_part z;
  product = λ a b. a * b;
  quotient = λ a b. a / b;
  scan = λ s. none;
  fixed = λ n a. [];
}

abbrev sample : ℕ → ℕ → CpuSample
sample busy idle = record {
  user = busy;
  nice = 1;
  system = 2;
  idle = idle;
  iowait = 3;
  irq = 4;
  softirq = 5;
  steal = 6;
}

-- The counter of the user's time wraps around between the readings.
abbrev earlier : CpuSample
earlier = sample 18_446_744_073_709_551_600 1000

abbrev later_one : CpuSample
later_one = sample 18_446_744_073_709_551_630 1070

hundred-Passed : Passed earlier later_one 30 100
hundred-Passed = omega arith

cpu_usage_percent-Passed_example :
    cpu_usage_percent whole 0
      (some (stat_text (shown later_one) (codes "\n")))
      (some (shown earlier))
    ≡ (30, some (shown later_one))
unfolding isdigit
cpu_usage_percent-Passed_example =
    cpu_usage_percent-Passed whole 0 earlier later_one 30 100 (codes "\n") hundred-Passed
      (omega arith) refl

abbrev memory_rows : List Entry
memory_rows =
    record { key = codes "MemTotal:"; gap = 5; kb = 512_000 }
    ∷ record { key = codes "MemFree:"; gap = 6; kb = 1024 }
    ∷ record { key = codes "MemAvailable:"; gap = 1; kb = 300_000 }
    ∷ []

memory_rows-IsRow : All IsRow memory_rows
unfolding isspace
memory_rows-IsRow = ground arith

meminfo-table_example : meminfo (some (table memory_rows [])) ≡ (pos 512_000, pos 300_000)
unfolding scan_entry scan_word read_run skip_while take_while isspace str_eq
meminfo-table_example = meminfo-table memory_rows [] memory_rows-IsRow refl

abbrev nine : ℕ → ℕ → List (ℕ × ℕ)
nine rx tx = (0, rx) ∷ (4, 12) ∷ (0, 0) ∷ (0, 0) ∷ (0, 0) ∷ (0, 0) ∷ (0, 0) ∷ (0, 0) ∷ (2, tx) ∷ []

abbrev interfaces : List Line
interfaces =
    header (codes "face |bytes packets")
    ∷ row 4 (codes "lo") (nine 77 77) (codes " 1 0")
    ∷ row 1 (codes "wwan0") (nine 123 456) (codes " 9 0 0 0 0 0 0")
    ∷ []

interfaces-IsLine : All IsLine interfaces
unfolding is_blank show_nat digits isdigit
interfaces-IsLine = ground arith

net_bytes-file_text_example : net_bytes (codes "wwan0") (some (file_text interfaces)) ≡ (123, 456)
unfolding str_eq
net_bytes-file_text_example = net_bytes-file_text (codes "wwan0") interfaces interfaces-IsLine refl

ensure_parent_dir-ways_example :
    ensure_parent_dir (codes "/var/lib/cellmgr/cellmgr.db")
    ≡ codes "/var" ∷ codes "/var/lib" ∷ codes "/var/lib/cellmgr" ∷ []
ensure_parent_dir-ways_example =
    ensure_parent_dir-ways true (codes "var") (codes "lib" ∷ codes "cellmgr" ∷ [])
      (codes "cellmgr.db") (ground arith) (ground arith) (omega arith)

-- The descriptor `fd` is not open any more, if it was the last one opened.
abbrev without : ℤ → List ℤ → List ℤ
without fd [] = []
without fd (last ∷ others) = if eqb_ℤ last fd then others else last ∷ others

-- The world is the open descriptors; only the second address answers.
abbrev two_addresses : Sockets (List ℤ) ℕ
two_addresses = record {
  getaddrinfo = λ host port fds. (some (1 ∷ 2 ∷ []), fds);
  socket = λ p fds. (pos 7, pos 7 ∷ fds);
  connect = λ fd p fds. (p == 2, fds);
  close = without;
}

eqb_ℤ_refl : (fd : ℤ) → eqb_ℤ fd fd ≡ true
eqb_ℤ_refl (pos n) = ground arith
eqb_ℤ_refl (negsuc n) = ground arith

two_addresses-TracksOpen : TracksOpen two_addresses (λ fds. fds)
two_addresses-TracksOpen = record {
  found_same = λ host port fds. refl;
  socket_more = λ p fds. refl;
  connect_same = λ fd p fds. refl;
  close_last = λ fd others fds e. rw (e, eqb_ℤ_refl fd);
}

connect_tcp-Leaves_example :
    (connect_tcp two_addresses (codes "mail.example") (pos 25) (pos 3 ∷ [])).1 ≡ pos 7 ∷ pos 3 ∷ []
unfolding connect_tcp
connect_tcp-Leaves_example =
    connect_tcp-Leaves two_addresses (λ fds. fds) two_addresses-TracksOpen (codes "mail.example")
      (pos 25) (pos 3 ∷ [])
