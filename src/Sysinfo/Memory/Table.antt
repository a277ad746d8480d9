-- ===== src/Sysinfo/Memory/Table.antt =====
-- What `meminfo` of src/sysinfo.c makes of a table of the kernel.
use cellmgr.Base.{
  sym, drop, length-drop, Bool-cases, inl, inr, ℕ, zero, suc, ◌≤◌, ◌<◌, false, List, [], ◌∷◌, ◌++◌,
  none, some, ◌≡◌, refl, ◌∙◌, arith, if◌then◌else◌, Bytes, codes, length, length-append, All,
}
use cellmgr.Base.Int.{ℤ, pos}
use cellmgr.Libc.Text.{isspace, isdigit, skip_while, str_eq, str_eq_iff}
use cellmgr.Libc.Number.{show_nat}
use cellmgr.Libc.Fscan.{scan_word, scan_long, blanks, scan_word-word, scan_long-show_nat}
use cellmgr.Sysinfo.Memory.{scan_entry, note_entry, entries_from, meminfo}

-- A row: the key with its colon, the blanks but one behind it, and the number of kB.
pub record Entry : Type 0 where
  pub key : Bytes
  pub gap : ℕ
  pub kb : ℕ

-- The rows with a line end in front of each, and what follows them.
abbrev lines : List Entry → Bytes → Bytes
lines [] tail = tail
lines (e ∷ es) tail =
    b'\n'
    ∷ (e.key ++ b' ' ∷ (blanks e.gap ++ (show_nat e.kb ++ b' ' ∷ b'k' ∷ b'B' ∷ lines es tail)))

-- The value of the last row with a key.
abbrev pub last_value : Bytes → List Entry → ℤ → ℤ
last_value k [] d = d
last_value k (e ∷ es) d = last_value k es (if str_eq e.key k then pos e.kb else d)

pub record IsRow (e : Entry) : Type 0 where
  pub solid : All (λ b. isspace b ≡ false) e.key
  pub some_key : 0 < length e.key
  pub fits : length e.key ≤ 63
  pub is_long : e.kb < 9_223_372_036_854_775_808

word-skip :
    (a s : Bytes)
    → All (λ b. isspace b ≡ false) a
    → 0 < length a
    → skip_while isspace (b'\n' ∷ (a ++ s)) ≡ a ++ s
unfolding skip_while isspace
word-skip [] s h k = absurd (omega arith)
word-skip (x ∷ a) s h k = rw (h.0)

unit_read :
    (s : Bytes) → scan_word 31 (b' ' ∷ b'k' ∷ b'B' ∷ b'\n' ∷ s) ≡ some (codes "kB", b'\n' ∷ s)
unfolding isspace skip_while
unit_read s =
    scan_word-word 31 _ (codes "kB") b'\n' s refl (refl, (refl, tt)) (omega arith) (omega arith)
      refl

scan_entry_lem :
    (s key s1 s2 unit s3 : Bytes) (v : ℤ)
    → scan_word 63 s ≡ some (key, s1)
    → scan_long s1 ≡ some (v, s2)
    → scan_word 31 s2 ≡ some (unit, s3)
    → scan_entry s ≡ some (key, v, s3)
unfolding scan_entry
scan_entry_lem s key s1 s2 unit s3 v e1 e2 e3 = rw (scan_entry, e1, e2, e3)

-- A row in front of a line end is read whole.
row_read :
    (e : Entry) (s : Bytes)
    → IsRow e
    → scan_entry (
        b'\n'
        ∷ (e.key ++ b' ' ∷ (blanks e.gap ++ (show_nat e.kb ++ b' ' ∷ b'k' ∷ b'B' ∷ b'\n' ∷ s))))
      ≡ some (e.key, pos e.kb, b'\n' ∷ s)
unfolding isspace isdigit
row_read e s h =
    scan_entry_lem _ e.key _ (b' ' ∷ b'k' ∷ b'B' ∷ b'\n' ∷ s) (codes "kB") (b'\n' ∷ s) (pos e.kb)
      (scan_word-word 63 _ e.key b' ' _ (word-skip e.key _ h.solid h.some_key) h.solid h.some_key
        h.fits refl)
      (scan_long-show_nat (suc e.gap) e.kb _ h.is_long refl) (unit_read s)

entries_from_lem :
    (fuel : ℕ) (s key rest : Bytes) (v : ℤ) (kb : ℤ × ℤ)
    → scan_entry s ≡ some (key, v, rest)
    → entries_from (suc fuel) s kb ≡ entries_from fuel rest (note_entry key v kb)
unfolding entries_from
entries_from_lem fuel s key rest v kb e = rw (entries_from, e)

entries_from_ends :
    (fuel : ℕ) (s : Bytes) (kb : ℤ × ℤ) → scan_entry s ≡ none → entries_from fuel s kb ≡ kb
unfolding entries_from
entries_from_ends zero s kb e = refl
entries_from_ends (suc fuel) s kb e = rw (entries_from, e)

note_entry_lem :
    (key : Bytes) (v a b : ℤ)
    → note_entry key v (a, b) ≡ (
      if str_eq key (codes "MemTotal:") then v else a,
      if str_eq key (codes "MemAvailable:") then v else b,
    )
unfolding note_entry
note_entry_lem key v a b = elim (Bool-cases (str_eq key (codes "MemTotal:"))) [
  | inr e ↦ rw e (ground arith)
  | inl e ↦
      let same = (str_eq_iff key (codes "MemTotal:")).0 e in
      let other : str_eq key (codes "MemAvailable:") ≡ false = rw same refl in rw (e, other)
]

-- As many rounds as rows are enough.
entries_from-lines :
    (es : List Entry) (tail : Bytes) (fuel : ℕ) (a b : ℤ)
    → All IsRow es
    → scan_entry (b'\n' ∷ tail) ≡ none
    → length es ≤ fuel
    → entries_from fuel (lines es (b'\n' ∷ tail)) (a, b)
      ≡ (last_value (codes "MemTotal:") es a, last_value (codes "MemAvailable:") es b)
entries_from-lines [] tail fuel a b h e k = entries_from_ends fuel (b'\n' ∷ tail) (a, b) e
entries_from-lines (x ∷ es) tail zero a b h e k = absurd (omega arith)
entries_from-lines (x ∷ []) tail (suc fuel) a b h e k =
    entries_from_lem fuel _ x.key (b'\n' ∷ tail) (pos x.kb) (a, b) (row_read x tail h.0)
    ∙ rw (note_entry_lem x.key (pos x.kb) a b)
        (entries_from-lines [] tail fuel _ _ tt e (omega arith))
entries_from-lines (x ∷ y ∷ es) tail (suc fuel) a b h e k =
    entries_from_lem fuel _ x.key (lines (y ∷ es) (b'\n' ∷ tail)) (pos x.kb) (a, b)
      (row_read x _ h.0)
    ∙ rw (note_entry_lem x.key (pos x.kb) a b)
        (entries_from-lines (y ∷ es) tail fuel _ _ h.1 e (omega arith))

-- The file: the rows one below the other.
abbrev pub table : List Entry → Bytes → Bytes
table es tail = drop 1 (lines es (b'\n' ∷ tail))

scan_entry-newline : (s : Bytes) → scan_entry (b'\n' ∷ s) ≡ scan_entry s
unfolding scan_entry scan_word skip_while isspace
scan_entry-newline s = refl

entries_from-newline :
    (fuel : ℕ) (s : Bytes) (kb : ℤ × ℤ)
    → entries_from (suc fuel) (b'\n' ∷ s) kb ≡ entries_from (suc fuel) s kb
unfolding entries_from
entries_from-newline fuel s kb = rw (entries_from, scan_entry-newline s)

entries_from-table :
    (fuel : ℕ) (es : List Entry) (tail : Bytes) (kb : ℤ × ℤ)
    → entries_from (suc fuel) (lines es (b'\n' ∷ tail)) kb
      ≡ entries_from (suc fuel) (table es tail) kb
entries_from-table fuel [] tail kb = entries_from-newline fuel tail kb
entries_from-table fuel (e ∷ es) tail kb = entries_from-newline fuel _ kb

length-lines : (es : List Entry) (tail : Bytes) → length es ≤ length (lines es tail)
length-lines [] tail = omega arith
length-lines (e ∷ es) tail =
    let below = lines es tail in
    let row = show_nat e.kb ++ b' ' ∷ b'k' ∷ b'B' ∷ below in
    omega (
      arith,
      length-lines es tail,
      length-append {0} e.key (b' ' ∷ (blanks e.gap ++ row)),
      length-append {0} (blanks e.gap) row,
      length-append {0} (show_nat e.kb) (b' ' ∷ b'k' ∷ b'B' ∷ below),
    )

-- Of a table with a number of kB in every row, meminfo gives the last values of MemTotal and
-- MemAvailable, 0 for one that is missing, when no further row can be read behind the table.
pub meminfo-table :
    (es : List Entry) (tail : Bytes)
    → All IsRow es
    → scan_entry (b'\n' ∷ tail) ≡ none
    → meminfo (some (table es tail))
      ≡ (last_value (codes "MemTotal:") es (pos 0), last_value (codes "MemAvailable:") es (pos 0))
unfolding meminfo
meminfo-table es tail h e =
    sym (entries_from-table (length (table es tail)) es tail (pos 0, pos 0))
    ∙ (entries_from-lines es tail (suc (length (table es tail))) (pos 0) (pos 0) h e (
        omega (arith, length-lines es (b'\n' ∷ tail), length-drop {0} 1 (lines es (b'\n' ∷ tail)))))
