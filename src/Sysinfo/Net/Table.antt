-- ===== src/Sysinfo/Net/Table.antt =====
-- What `net_bytes` of src/sysinfo.c makes of the kernel's table of interfaces.
use cellmgr.Base.{
  subst, Bool-cases, inl, inr, ℕ, zero, suc, ◌-◌, ◌<◌, true, false, not, ◌||◌, List, [], ◌∷◌, ◌++◌,
  none, some, ◌≡◌, refl, sym, ap, ◌∙◌, arith, leb, ◌==◌, if◌then◌else◌, Bytes, length, get_or, drop,
  All, append_assoc,
}
use cellmgr.Libc.Text.{str_eq, strchr, skip_while, take_while, is_nil, isdigit}
use cellmgr.Libc.Lines.{fgets_lines}
use cellmgr.Libc.Number.{StopsNumber}
use cellmgr.Libc.Search.{strchr-append}
use cellmgr.Libc.Fscan.{blanks, spaced, counts_of, AreWords, scan_ulls, scan_ulls-spaced}
use cellmgr.Common.Trim.{
  is_blank, first_is_blank, last_is_blank, trim_in_place, trim_in_place_lem, trim_in_place-kept,
}
use cellmgr.Sysinfo.Net.{net_line, net_lines, net_bytes}

-- A line of the head, or the row of an interface: the blanks in front of its name, the name, its
-- counters, and what follows the ninth.
pub data Line : Type 0 where
  header : Bytes → Line
  row : ℕ → Bytes → List (ℕ × ℕ) → Bytes → Line

abbrev pub line_text : Line → Bytes
line_text (header t) = t
line_text (row gap name counts more) = blanks gap ++ (name ++ b':' ∷ (spaced counts ++ more))

abbrev pub IsWithout : ℕ → Bytes → Type 0
IsWithout b = All (λ c. (c == b) ≡ false)

abbrev pub IsColumns : Line → Type 0
IsColumns (header t) = IsWithout b':' t
IsColumns (row gap name counts more) =
    IsWithout b':' name
    × (first_is_blank name ≡ false)
    × (last_is_blank name ≡ false)
    × AreWords counts
    × (length counts ≡ 9)
    × StopsNumber more

-- A line that the array of 512 bytes takes with its end.
abbrev pub IsLine : Line → Type 0
IsLine l = (length (line_text l) < 511) × IsWithout b'\n' (line_text l) × IsColumns l

abbrev pub file_text : List Line → Bytes
file_text [] = []
file_text (l ∷ ls) = line_text l ++ b'\n' ∷ file_text ls

-- What the row of `iface` counts, of the first one.
abbrev pub counted : Bytes → List Line → ℕ × ℕ
counted iface [] = (0, 0)
counted iface (header t ∷ ls) = counted iface ls
counted iface (row gap name counts more ∷ ls) =
    let here : ℕ × ℕ = (get_or (counts_of counts) 0 0, get_or (counts_of counts) 8 0) in
    let later = counted iface ls in if str_eq name iface then here else later

fgets_lines_full :
    (width room c : ℕ) (cur s : Bytes)
    → (c == 10 || leb room 1) ≡ true
    → fgets_lines width room cur (c ∷ s) ≡ (cur ++ c ∷ []) ∷ fgets_lines width width [] s
unfolding fgets_lines
fgets_lines_full width room c [] s e = rw e
fgets_lines_full width room c (x ∷ cur) s e = rw e

fgets_lines_more :
    (width room c : ℕ) (cur s : Bytes)
    → (c == 10 || leb room 1) ≡ false
    → fgets_lines width room cur (c ∷ s) ≡ fgets_lines width (room - 1) (cur ++ c ∷ []) s
unfolding fgets_lines
fgets_lines_more width room c [] s e = rw e
fgets_lines_more width room c (x ∷ cur) s e = rw e

-- A line that fits is read whole.
fgets_lines-line :
    (width room : ℕ) (cur l s : Bytes)
    → length l < room
    → IsWithout b'\n' l
    → fgets_lines width room cur (l ++ b'\n' ∷ s)
      ≡ (cur ++ (l ++ b'\n' ∷ [])) ∷ fgets_lines width width [] s
fgets_lines-line width room cur [] s h k = fgets_lines_full width room b'\n' cur s refl
fgets_lines-line width room cur (c ∷ l) s h k =
    fgets_lines_more width room c cur (l ++ b'\n' ∷ s) (ground arith)
    ∙ (fgets_lines-line width (room - 1) (cur ++ c ∷ []) l s (omega arith) k.1
        ∙ ap (λ t. t ∷ fgets_lines width width [] s) (append_assoc cur (c ∷ []) (l ++ b'\n' ∷ [])))

strchr-none : (b : ℕ) (s : Bytes) → IsWithout b s → strchr s b ≡ none
unfolding strchr
strchr-none b [] h = refl
strchr-none b (c ∷ s) h = rw (h.0) (strchr-none b s h.1)

strchr_here : (b : ℕ) (s : Bytes) → strchr (b ∷ s) b ≡ some (b ∷ s)
unfolding strchr
strchr_here b s = ground arith

before_here :
    (a s : Bytes) → IsWithout b':' a → take_while (λ c. not (c == b':')) (a ++ b':' ∷ s) ≡ a
unfolding take_while
before_here [] s h = refl
before_here (c ∷ a) s h = rw (h.0) (ap (◌∷◌ c) (before_here a s h.1))

IsWithout-append : (b : ℕ) (s t : Bytes) → IsWithout b s → IsWithout b t → IsWithout b (s ++ t)
IsWithout-append b [] t h k = k
IsWithout-append b (c ∷ s) t h k = (h.0, IsWithout-append b s t h.1 k)

blanks-IsWithout : (gap : ℕ) → IsWithout b':' (blanks gap)
blanks-IsWithout zero = tt
blanks-IsWithout (suc gap) = (refl, blanks-IsWithout gap)

skip_while-blanks :
    (gap : ℕ) (s : Bytes) → skip_while is_blank (blanks gap ++ s) ≡ skip_while is_blank s
unfolding skip_while is_blank
skip_while-blanks zero s = refl
skip_while-blanks (suc gap) s = skip_while-blanks gap s

trim_in_place-blanks : (gap : ℕ) (s : Bytes) → trim_in_place (blanks gap ++ s) ≡ trim_in_place s
trim_in_place-blanks gap s =
    rw (trim_in_place_lem (blanks gap ++ s), trim_in_place_lem s, skip_while-blanks gap s)

net_line_lem :
    (iface line colon name : Bytes) (vals : List ℕ)
    → strchr line b':' ≡ some colon
    → trim_in_place (take_while (λ c. not (c == b':')) line) ≡ name
    → scan_ulls 9 (drop 1 colon) ≡ vals
    → net_line iface line
      ≡ (if str_eq name iface then some (get_or vals 0 0, get_or vals 8 0) else none)
unfolding net_line
net_line_lem iface line colon name vals e1 e2 e3 = rw (net_line, e1, e2, e3)

net_line-none : (iface line : Bytes) → strchr line b':' ≡ none → net_line iface line ≡ none
unfolding net_line
net_line-none iface line e = rw (net_line, e)

StopsNumber-newline : (s : Bytes) → StopsNumber s → StopsNumber (s ++ b'\n' ∷ [])
unfolding isdigit
StopsNumber-newline [] h = refl
StopsNumber-newline (c ∷ s) h = h

row_shape :
    (gap : ℕ) (name rest more : Bytes)
    → (blanks gap ++ (name ++ b':' ∷ (rest ++ more))) ++ b'\n' ∷ []
      ≡ (blanks gap ++ name) ++ b':' ∷ (rest ++ (more ++ b'\n' ∷ []))
row_shape gap name rest more = simp append_assoc

row_line :
    (iface : Bytes) (gap : ℕ) (name : Bytes) (counts : List (ℕ × ℕ)) (more : Bytes)
    → IsColumns (row gap name counts more)
    → net_line iface (line_text (row gap name counts more) ++ b'\n' ∷ []) ≡ (
        if str_eq name iface
        then some (get_or (counts_of counts) 0 0, get_or (counts_of counts) 8 0)
        else none)
row_line iface gap name counts more (h, first, last, words, nine, stops) =
    let front = blanks gap ++ name in
    let rest = spaced counts ++ (more ++ b'\n' ∷ []) in
    let front_plain : IsWithout b':' front =
      IsWithout-append b':' (blanks gap) name (blanks-IsWithout gap) h in
    let colon : strchr (front ++ b':' ∷ rest) b':' ≡ some (b':' ∷ rest) =
      strchr-append b':' front (b':' ∷ rest) front_plain ∙ strchr_here b':' rest in
    let trimmed : trim_in_place (take_while (λ c. not (c == b':')) (front ++ b':' ∷ rest)) ≡ name =
      rw (before_here front rest front_plain, trim_in_place-blanks gap name)
        (trim_in_place-kept name first last) in
    let vals : scan_ulls 9 rest ≡ counts_of counts =
      subst (λ n. scan_ulls n rest ≡ counts_of counts) nine
        (scan_ulls-spaced counts (more ++ b'\n' ∷ []) words (StopsNumber-newline more stops)) in
    subst
      (λ line. net_line iface line ≡ (
        if str_eq name iface
        then some (get_or (counts_of counts) 0 0, get_or (counts_of counts) 8 0)
        else none))
      (sym (row_shape gap name (spaced counts) more))
      (net_line_lem iface (front ++ b':' ∷ rest) (b':' ∷ rest) name (counts_of counts) colon trimmed
        vals)

header_line : (iface t : Bytes) → IsWithout b':' t → net_line iface (t ++ b'\n' ∷ []) ≡ none
header_line iface t h =
    net_line-none iface (t ++ b'\n' ∷ [])
      (strchr-none b':' (t ++ b'\n' ∷ []) (IsWithout-append b':' t (b'\n' ∷ []) h (refl, tt)))

net_lines_found :
    (iface line : Bytes) (lines : List Bytes) (counts : ℕ × ℕ)
    → net_line iface line ≡ some counts
    → net_lines iface (line ∷ lines) ≡ counts
unfolding net_lines
net_lines_found iface line lines counts e = rw (net_lines, e)

net_lines_other :
    (iface line : Bytes) (lines : List Bytes)
    → net_line iface line ≡ none
    → net_lines iface (line ∷ lines) ≡ net_lines iface lines
unfolding net_lines
net_lines_other iface line lines e = rw (net_lines, e)

net_lines-file_text :
    (iface : Bytes) (ls : List Line)
    → All IsLine ls
    → net_lines iface (fgets_lines 511 511 [] (file_text ls)) ≡ counted iface ls
net_lines-file_text iface [] h = unfold net_lines fgets_lines in refl
net_lines-file_text iface (header t ∷ ls) ((short, one, plain), hs) =
    rw (fgets_lines-line 511 511 [] t (file_text ls) short one) (
      net_lines_other iface (t ++ b'\n' ∷ []) _ (header_line iface t plain)
      ∙ net_lines-file_text iface ls hs)
net_lines-file_text iface (row gap name counts more ∷ ls) ((short, one, columns), hs) =
    let line = line_text (row gap name counts more) in
    let read = row_line iface gap name counts more columns in
    rw (fgets_lines-line 511 511 [] line (file_text ls) short one)
      (elim (Bool-cases (str_eq name iface)) [
        | inl e ↦ net_lines_found iface (line ++ b'\n' ∷ []) _ _ (rw e at read) ∙ rw e
        | inr e ↦
            net_lines_other iface (line ++ b'\n' ∷ []) _ (rw e at read)
            ∙ (net_lines-file_text iface ls hs ∙ rw e)
      ])

-- Of a table of lines that fit the array, net_bytes gives the first and the ninth counter of the
-- first row with the name of the interface, and 0 for both where there is none.
pub net_bytes-file_text :
    (iface : Bytes) (ls : List Line)
    → All IsLine ls
    → is_nil iface ≡ false
    → net_bytes iface (some (file_text ls)) ≡ counted iface ls
net_bytes-file_text iface ls h e = unfold net_bytes in (rw e (net_lines-file_text iface ls h))
