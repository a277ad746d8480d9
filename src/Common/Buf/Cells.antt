-- ===== src/Common/Buf/Cells.antt =====
-- Memory as a list of cells: writing into it, and fresh cells.
use cellmgr.Base.{
  ℕ, zero, suc, ◌+◌, ◌≤◌, ◌≡◌, refl, ap, arith, some, [], ◌∷◌, ◌++◌, Bytes, length, get_elem?, take,
}

-- The bytes of `s` are written from cell `i` on. A write past the end lengthens the list, so that
-- an overflow shows.
unfoldable pub put : ℕ → Bytes → Bytes → Bytes
put zero [] cells = cells
put zero (x ∷ s) [] = x ∷ put zero s []
put zero (x ∷ s) (c ∷ cells) = x ∷ put zero s cells
put (suc i) s [] = 0 ∷ put i s []
put (suc i) s (c ∷ cells) = c ∷ put i s cells

-- `n` cells from position `i` on, as the allocator left them.
unfoldable pub fresh : (ℕ → ℕ) → ℕ → ℕ → Bytes
fresh junk zero i = []
fresh junk (suc n) i = junk i ∷ fresh junk n (i + 1)

pub length-fresh : (junk : ℕ → ℕ) (n i : ℕ) → length (fresh junk n i) ≡ n
unfolding fresh
length-fresh junk zero i = refl
length-fresh junk (suc n) i = ap suc (length-fresh junk n (i + 1))

pub length-put :
    (i : ℕ) (s cells : Bytes) → i + length s ≤ length cells → length (put i s cells) ≡ length cells
unfolding put
length-put zero [] cells h = refl
length-put zero (x ∷ s) [] h = absurd (omega arith)
length-put zero (x ∷ s) (c ∷ cells) h = ap suc (length-put zero s cells (omega arith))
length-put (suc i) s [] h = absurd (omega arith)
length-put (suc i) s (c ∷ cells) h = ap suc (length-put i s cells (omega arith))

pub take-put_end :
    (i n : ℕ) (s cells : Bytes)
    → n ≡ i + length s
    → n ≤ length cells
    → take n (put i s cells) ≡ take i cells ++ s
unfolding put
take-put_end zero zero [] cells e h = refl
take-put_end zero (suc n) [] cells e h = absurd (omega arith)
take-put_end zero zero (x ∷ s) cells e h = absurd (omega arith)
take-put_end zero (suc n) (x ∷ s) [] e h = absurd (omega arith)
take-put_end zero (suc n) (x ∷ s) (c ∷ cells) e h =
    ap (◌∷◌ x) (take-put_end zero n s cells (omega arith) (omega arith))
take-put_end (suc i) zero s cells e h = absurd (omega arith)
take-put_end (suc i) (suc n) s [] e h = absurd (omega arith)
take-put_end (suc i) (suc n) s (c ∷ cells) e h =
    ap (◌∷◌ c) (take-put_end i n s cells (omega arith) (omega arith))

pub take-put_before :
    (j i : ℕ) (s cells : Bytes) → j ≤ i → i ≤ length cells → take j (put i s cells) ≡ take j cells
unfolding put
take-put_before zero i s cells h k = refl
take-put_before (suc j) zero s cells h k = absurd (omega arith)
take-put_before (suc j) (suc i) s [] h k = absurd (omega arith)
take-put_before (suc j) (suc i) s (c ∷ cells) h k =
    ap (◌∷◌ c) (take-put_before j i s cells (omega arith) (omega arith))

pub get_elem?-put : (i v : ℕ) (cells : Bytes) → get_elem? (put i (v ∷ []) cells) i ≡ some v
unfolding put
get_elem?-put zero v [] = refl
get_elem?-put zero v (c ∷ cells) = refl
get_elem?-put (suc i) v [] = get_elem?-put i v []
get_elem?-put (suc i) v (c ∷ cells) = get_elem?-put i v cells

pub put-append :
    (i n : ℕ) (s : Bytes) (v : ℕ) (cells : Bytes)
    → n ≡ i + length s
    → put n (v ∷ []) (put i s cells) ≡ put i (s ++ v ∷ []) cells
unfolding put
put-append zero zero [] v cells e = refl
put-append zero (suc n) [] v cells e = absurd (omega arith)
put-append zero zero (x ∷ s) v cells e = absurd (omega arith)
put-append zero (suc n) (x ∷ s) v [] e = ap (◌∷◌ x) (put-append zero n s v [] (omega arith))
put-append zero (suc n) (x ∷ s) v (c ∷ cells) e =
    ap (◌∷◌ x) (put-append zero n s v cells (omega arith))
put-append (suc i) zero s v cells e = absurd (omega arith)
put-append (suc i) (suc n) s v [] e = ap (◌∷◌ 0) (put-append i n s v [] (omega arith))
put-append (suc i) (suc n) s v (c ∷ cells) e = ap (◌∷◌ c) (put-append i n s v cells (omega arith))
