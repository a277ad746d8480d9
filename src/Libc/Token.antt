-- ===== src/Libc/Token.antt =====
-- `strtok_r` called again and again with one set of delimiters: the maximal runs of other bytes.
use cellmgr.Base.{ℕ, Bool, false, List, [], ◌∷◌, ◌++◌, ◌≡◌, ◌≢◌, arith, if◌then◌else◌, Bytes, All}

-- The run that is being read, in `cur`, and the unread bytes.
unfoldable pub tokens_from : (ℕ → Bool) → Bytes → Bytes → List Bytes
tokens_from delim [] [] = []
tokens_from delim (x ∷ cur) [] = (x ∷ cur) ∷ []
tokens_from delim [] (c ∷ s) = tokens_from delim (if delim c then [] else c ∷ []) s
tokens_from delim (x ∷ cur) (c ∷ s) =
    let next = tokens_from delim [] s in
    let same = tokens_from delim (x ∷ cur ++ c ∷ []) s in if delim c then (x ∷ cur) ∷ next else same

unfoldable pub tokens : (ℕ → Bool) → Bytes → List Bytes
unfolding tokens_from
tokens delim s = tokens_from delim [] s

-- A token of `delim`: not empty, with no delimiter.
abbrev pub IsToken : (ℕ → Bool) → Bytes → Type 0
IsToken delim t = (t ≢ []) × All (λ c. delim c ≡ false) t

All-concat :
    (delim : ℕ → Bool) (s : Bytes) (c : ℕ)
    → All (λ b. delim b ≡ false) s
    → delim c ≡ false
    → All (λ b. delim b ≡ false) (s ++ c ∷ [])
All-concat delim [] c h k = (k, tt)
All-concat delim (x ∷ s) c h k = (h.0, All-concat delim s c h.1 k)

tokens_from-IsToken :
    (delim : ℕ → Bool) (cur s : Bytes)
    → All (λ c. delim c ≡ false) cur
    → All (IsToken delim) (tokens_from delim cur s)
unfolding tokens_from
tokens_from-IsToken delim [] [] h = tt
tokens_from-IsToken delim (x ∷ cur) [] h = ((cc, h), tt)
tokens_from-IsToken delim [] (c ∷ s) h =
    ground (arith, tokens_from-IsToken delim [] s tt, tokens_from-IsToken delim (c ∷ []) s)
tokens_from-IsToken delim (x ∷ cur) (c ∷ s) h = ground (
  arith,
  tokens_from-IsToken delim [] s tt,
  All-concat delim cur c h.1,
  tokens_from-IsToken delim (x ∷ cur ++ c ∷ []) s,
)

-- No token is empty, and none holds a delimiter.
pub tokens-IsToken : (delim : ℕ → Bool) (s : Bytes) → All (IsToken delim) (tokens delim s)
unfolding tokens
tokens-IsToken delim s = tokens_from-IsToken delim [] s tt
