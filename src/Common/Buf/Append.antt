-- ===== src/Common/Buf/Append.antt =====
-- What the appends of src/common.c do to a valid buffer.
use cellmgr.Base.{
  ℕ, zero, suc, ◌+◌, ◌-◌, ◌%◌, ◌^◌, ◌≤◌, ◌<◌, Bool, false, Option, none, some, [], ◌∷◌, ◌++◌, ◌≡◌,
  refl, ap, ◌∙◌, inl, inr, arith, leb, ◌==◌, if◌then◌else◌, Bool-cases, Bytes, length, get_elem?,
  length-append, take-append_le, take-le,
}
use cellmgr.Common.Buf.Cells.{
  put, fresh, length-fresh, length-put, take-put_end, take-put_before, get_elem?-put, put-append,
}
use cellmgr.Common.Buf.Grow.{Grown, grow_ends}
use cellmgr.Common.Buf.{
  Buf, view, IsValid, Status, ok, failed, hangs, size_max, grow, buf_reserve, buf_init,
  buf_append_n, buf_append, buf_appendf, clear, store_text, store_formatted, when_ok,
}

-- The outcome of a reservation of `need` cells.
abbrev Reserved : Buf → ℕ → Status × Buf → Type 0
Reserved b need (ok, r) = IsValid r × (need ≤ r.cap) × (view r ≡ view b) × (r.len ≡ b.len)
Reserved b need (failed, r) = r ≡ b
Reserved b need (hangs, r) = ⊥

-- The outcome of appending `s` to `b`.
abbrev pub Appended : Buf → Bytes → Status × Buf → Type 0
Appended b s (ok, r) = IsValid r × (view r ≡ view b ++ s)
Appended b s (failed, r) = r ≡ b
Appended b s (hangs, r) = ⊥

get_elem?-append :
    (xs ys : Bytes) (i v : ℕ) → get_elem? xs i ≡ some v → get_elem? (xs ++ ys) i ≡ some v
get_elem?-append [] ys i v h = cc
get_elem?-append (x ∷ xs) ys zero v h = h
get_elem?-append (x ∷ xs) ys (suc i) v h = get_elem?-append xs ys i v h

module _ (grants : ℕ → Bool) (junk : ℕ → ℕ) where
  grown-IsValid :
      (b : Buf) (next : ℕ)
      → IsValid b
      → b.cap ≤ next
      → IsValid (record b { cells = b.cells ++ fresh junk (next - b.cap) b.cap; cap = next })
  grown-IsValid b next v le = record {
    sized = omega (
      arith,
      v.sized,
      length-append b.cells (fresh junk (next - b.cap) b.cap),
      length-fresh junk (next - b.cap) b.cap,
    );
    below = omega (arith, v.below);
    ends = get_elem?-append b.cells _ b.len 0 v.ends;
  }

  -- What follows the doubling loop.
  Grown-Reserved :
      (b : Buf) (need : ℕ) (r : Option ℕ)
      → IsValid b
      → Grown b.cap need r
      → Reserved b need (elim r [
        | none ↦ (hangs, b)
        | some next ↦
            if grants next
            then (ok, record b { cells = b.cells ++ fresh junk (next - b.cap) b.cap; cap = next })
            else (failed, b)
      ])
  Grown-Reserved b need none v g = g
  Grown-Reserved b need (some next) v g = elim (Bool-cases (grants next)) [
    | inl e ↦ rw e (
      grown-IsValid b next v g.2,
      g.0,
      take-append_le b.len b.cells _ (omega (arith, v.sized, v.below)),
      refl,
    )
    | inr e ↦ rw e refl
  ]

  reserve-Reserved :
      (b : Buf) (need : ℕ)
      → IsValid b
      → need ≤ 2 ^ 63
      → Reserved b need (buf_reserve grants junk b need)
  unfolding buf_reserve
  reserve-Reserved b need v small = elim (Bool-cases (leb need b.cap)) [
    | inl fits ↦ rw fits (v, ground arith, refl, refl)
    | inr short ↦
        rw (short, nonzero)
          (Grown-Reserved b need (grow 65 b.cap need) v
            (grow_ends 64 b.cap need small (omega (arith, v.below))))
  ]
    where
      nonzero : (b.cap == 0) ≡ false
      nonzero = ground (arith, v.below)

  -- Writing the bytes and the NUL into reserved room.
  stored-Appended :
      (b r : Buf) (s : Bytes)
      → IsValid r
      → r.len + length s + 1 ≤ r.cap
      → view r ≡ view b
      → Appended b s (
        ok,
        record r {
          cells = put (r.len + length s) (0 ∷ []) (put r.len s r.cells);
          len = r.len + length s;
        },
      )
  stored-Appended b r s v room same = (
    record {
      sized = length-put _ (0 ∷ []) _ (omega (arith, inner, v.sized)) ∙ inner ∙ v.sized;
      below = omega arith;
      ends = get_elem?-put (r.len + length s) 0 (put r.len s r.cells);
    },
    take-put_before _ _ (0 ∷ []) _ (omega arith) (omega (arith, inner, v.sized))
        ∙ take-put_end r.len _ s r.cells refl (omega (arith, v.sized))
        ∙ ap (λ t. t ++ s) same,
  )
    where
      inner : length (put r.len s r.cells) ≡ length r.cells
      inner = length-put r.len s r.cells (omega (arith, v.sized))

  when_ok-Appended :
      (b : Buf) (s : Bytes) (need : ℕ) (r : Status × Buf)
      → need ≡ b.len + length s + 1
      → Reserved b need r
      → Appended b s (when_ok (store_text s) r)
  when_ok-Appended b s need (ok, r) e h = stored-Appended b r s h.0 (omega (arith, h.1, h.3)) h.2
  when_ok-Appended b s need (failed, r) e h = h
  when_ok-Appended b s need (hangs, r) e h = h

  -- From a valid buffer, with less than 2^63 bytes in all: `buf_append_n` returns; with 0 the
  -- buffer is valid and its text is the old one followed by `s`, otherwise nothing has changed.
  pub buf_append_n-Appended :
      (b : Buf) (s : Bytes)
      → IsValid b
      → b.len + length s < 2 ^ 63
      → Appended b s (buf_append_n grants junk b s)
  unfolding buf_append_n
  buf_append_n-Appended b s v small =
      when_ok-Appended b s _ _ (omega arith)
        (reserve-Reserved b ((b.len + length s + 1) % size_max) v (omega arith))

  formatted-eq :
      (b : Buf) (s : Bytes) (need : ℕ) (r : Status × Buf)
      → need ≡ b.len + length s + 1
      → Reserved b need r
      → when_ok (store_formatted s) r ≡ when_ok (store_text s) r
  formatted-eq b s need (ok, r) e h =
      let fits : length s ≤ r.cap - r.len - 1 = omega (arith, h.1, h.3) in
      rw (take-le _ s fits, put-append r.len (r.len + length s) s 0 r.cells refl)
  formatted-eq b s need (failed, r) e h = refl
  formatted-eq b s need (hangs, r) e h = refl

  -- `buf_appendf` measures the text first, so `vsnprintf` cuts nothing off: on a valid buffer it
  -- does what `buf_append` does with the formatted text.
  pub buf_appendf-buf_append :
      (b : Buf) (s : Bytes)
      → IsValid b
      → b.len + length s < 2 ^ 63
      → buf_appendf grants junk b s ≡ buf_append grants junk b s
  unfolding buf_appendf buf_append
  buf_appendf-buf_append b s v small =
      formatted-eq b s _ _ (omega arith)
        (reserve-Reserved b ((b.len + length s + 1) % size_max) v (omega arith))

  initial-Appended :
      (size : ℕ)
      → 0 < size
      → Appended clear []
          (ok, record { cells = put 0 (0 ∷ []) (fresh junk size 0); len = 0; cap = size })
  initial-Appended size h = (
    record {
      sized =
          length-put 0 (0 ∷ []) _ (omega (arith, length-fresh junk size 0))
          ∙ length-fresh junk size 0;
      below = h;
      ends = get_elem?-put 0 0 (fresh junk size 0);
    },
    refl,
  )

  -- A new buffer is valid and empty, or is all zero if the memory was refused.
  pub buf_init-Appended : (n : ℕ) → Appended clear [] (buf_init grants junk n)
  unfolding buf_init
  buf_init-Appended n = elim (Bool-cases (grants (if n == 0 then 256 else n))) [
    | inl e ↦ rw e (initial-Appended _ (ground arith))
    | inr e ↦ rw e refl
  ]
