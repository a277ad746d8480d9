-- ===== src/Common/Files.antt =====
-- `read_text_file`, `write_text_file` and `xstrdup` of src/common.c. What the streams do, and what
-- `malloc` grants by the size asked for, are parameters.
use cellmgr.Base.{
  ℕ, ◌+◌, ◌≤◌, ◌<◌, Bool, false, not, ◌&&◌, ◌||◌, Option, none, some, ◌≡◌, arith, ltb, ◌==◌,
  if◌then◌else◌, Bytes, length, take, length-take,
}
use cellmgr.Base.Int.{ℤ, pos, pos_part, ltb_ℤ}
use cellmgr.System.{Prog}

-- A stream that is open for reading: whether `fseek` to its end succeeds, what `ftell` gives there,
-- and what `fread` can get from its start.
pub record FileStream : Type 0 where
  pub seeks : Bool
  pub size : ℤ
  pub contents : Bytes

-- `sz < 0 || (max_bytes > 0 && (size_t)sz > max_bytes)`
abbrev pub too_big : ℕ → ℤ → Bool
too_big max_bytes sz = ltb_ℤ sz (pos 0) || (ltb 0 max_bytes && ltb max_bytes (pos_part sz))

-- The bytes in front of the NUL that is put behind them: `*out_len` of them.
unfoldable pub read_text_file : (ℕ → Bool) → Option FileStream → ℕ → Option Bytes
read_text_file malloc none max_bytes = none
read_text_file malloc (some fp) max_bytes =
    if not fp.seeks
    then none
    else if too_big max_bytes fp.size
    then none
    else if malloc (pos_part fp.size + 1)
    then some (take (pos_part fp.size) fp.contents)
    else none

-- `fopen` for writing, and how many bytes `fwrite` has written.
pub record Writing (World : Type 0) : Type 0 where
  pub fopen : Bytes → Prog World Bool
  pub fwrite : Bytes → Bytes → Prog World ℕ

module _ {World : Type 0} (files : Writing World) where
  -- Whether 0 is returned.
  unfoldable pub write_text_file : Bytes → Bytes → Prog World Bool
  write_text_file path contents w =
      let (opened, w1) = files.fopen path w in
      let (written, w2) = files.fwrite path contents w1 in
      if opened then (written == length contents, w2) else (false, w1)

unfoldable pub xstrdup : (ℕ → Bool) → Option Bytes → Option Bytes
xstrdup malloc none = none
xstrdup malloc (some s) = if malloc (length s + 1) then some s else none

-- A file longer than a limit is refused, and no more than the limit is ever given.
pub read_text_file-within :
    (malloc : ℕ → Bool) (fp : Option FileStream) (max_bytes : ℕ) (s : Bytes)
    → 0 < max_bytes
    → read_text_file malloc fp max_bytes ≡ some s
    → length s ≤ max_bytes
unfolding read_text_file
read_text_file-within malloc none max_bytes s h e = cc
read_text_file-within malloc (some fp) max_bytes s h e =
    ground (arith, length-take {0} (pos_part fp.size) fp.contents)
