-- ===== src/Common/Buf.antt =====
-- `cellmgr_buf` of src/common.c on its memory: the cells that were allocated, the length of the text
-- and the capacity. What `realloc` grants, by the size asked for, and what fresh memory holds are
-- parameters.
pub mod Cells
pub mod Grow
pub mod Append
use cellmgr.Base.{
  ℕ, zero, suc, ◌+◌, ◌-◌, ◌*◌, ◌%◌, ◌^◌, ◌<◌, ◌≡◌, Bool, true, false, Option, none, some, [], ◌∷◌,
  ◌++◌, ltb, leb, ◌==◌, if◌then◌else◌, Bytes, length, get_elem?, take,
}
use cellmgr.Common.Buf.Cells.{put, fresh}

-- `data` holds every allocated cell.
pub record Buf : Type 0 where
  pub cells : Bytes
  pub len : ℕ
  pub cap : ℕ

-- The text in the buffer.
abbrev pub view : Buf → Bytes
view b = take b.len b.cells

-- The cells are those that were allocated, and the text ends with a NUL inside them.
pub record IsValid (b : Buf) : Type 0 where
  pub sized : length b.cells ≡ b.cap
  pub below : b.len < b.cap
  pub ends : get_elem? b.cells b.len ≡ some 0

-- A call returns 0, returns -1, or is still in its loop.
pub data Status : Type 0 where
  ok failed hangs : Status

abbrev pub size_max : ℕ
size_max = 2 ^ 64

-- `while (next < need) next *= 2;` in `size_t`; `none` if the rounds do not suffice.
unfoldable pub grow : ℕ → ℕ → ℕ → Option ℕ
grow zero next need = none
grow (suc fuel) next need =
    let more = grow fuel ((next * 2) % size_max) need in if ltb next need then more else some next

abbrev pub clear : Buf
clear = record { cells = []; len = 0; cap = 0 }

-- `memcpy` behind the text, and the NUL.
abbrev pub store_text : Bytes → Buf → Buf
store_text s b = record b {
  cells = put (b.len + length s) (0 ∷ []) (put b.len s b.cells);
  len = b.len + length s;
}

-- `vsnprintf` into what is left of the buffer.
abbrev pub store_formatted : Bytes → Buf → Buf
store_formatted s b = record b {
  cells = put b.len (take (b.cap - b.len - 1) s ++ 0 ∷ []) b.cells;
  len = b.len + length s;
}

-- What follows a successful reservation.
abbrev pub when_ok : (Buf → Buf) → Status × Buf → Status × Buf
when_ok f (ok, b) = (ok, f b)
when_ok f (failed, b) = (failed, b)
when_ok f (hangs, b) = (hangs, b)

module _ (grants : ℕ → Bool) (junk : ℕ → ℕ) where
  -- After 64 doublings `next` has passed every 64-bit size, or has become 0.
  unfoldable pub buf_reserve : Buf → ℕ → Status × Buf
  buf_reserve b need =
      if leb need b.cap then (ok, b) else elim (grow 65 (if b.cap == 0 then 256 else b.cap) need) [
        | none ↦ (hangs, b)
        | some next ↦
            if grants next
            then (ok, record b { cells = b.cells ++ fresh junk (next - b.cap) b.cap; cap = next })
            else (failed, b)
      ]

  unfoldable pub buf_init : ℕ → Status × Buf
  buf_init initial_cap =
      let size = if initial_cap == 0 then 256 else initial_cap in
      if grants size
      then (ok, record { cells = put 0 (0 ∷ []) (fresh junk size 0); len = 0; cap = size })
      else (failed, clear)

  -- `buf_free` of any buffer.
  unfoldable pub buf_free : Buf → Buf
  buf_free b = clear

  unfoldable pub buf_append_n : Buf → Bytes → Status × Buf
  unfolding buf_reserve
  buf_append_n b s = when_ok (store_text s) (buf_reserve b ((b.len + length s + 1) % size_max))

  -- `buf_append`: `strlen` counts the bytes of a string.
  unfoldable pub buf_append : Buf → Bytes → Status × Buf
  unfolding buf_append_n
  buf_append b s = buf_append_n b s

  -- `buf_appendf`, where `s` is the formatted text: `vsnprintf` stops at the end of the buffer.
  unfoldable pub buf_appendf : Buf → Bytes → Status × Buf
  unfolding buf_reserve
  buf_appendf b s = when_ok (store_formatted s) (buf_reserve b ((b.len + length s + 1) % size_max))
