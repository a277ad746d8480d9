-- ===== src/Libc/Search.antt =====
-- Searches in texts whose first bytes are known.
use cellmgr.Base.{
  ℕ, Bool, true, false, [], ◌∷◌, ◌++◌, ◌≡◌, refl, sym, ap, ◌∙◌, arith, ◌==◌, Bytes, append-nil,
  append_assoc, All,
}
use cellmgr.Libc.Text.{has_prefix, strstr, strstr_skip, strchr, take_while}
use cellmgr.Libc.Token.{tokens_from, tokens}

-- Bytes that are not the first one of what is looked for are stepped over.
pub strstr-append :
    (x : ℕ) (needle a s : Bytes)
    → All (λ c. (x == c) ≡ false) a
    → strstr (a ++ s) (x ∷ needle) ≡ strstr s (x ∷ needle)
unfolding has_prefix
strstr-append x needle [] s h = refl
strstr-append x needle (c ∷ a) s h =
    strstr_skip c (a ++ s) (x ∷ needle) (ground arith) ∙ strstr-append x needle a s h.1

pub strchr-append :
    (x : ℕ) (a s : Bytes) → All (λ c. (c == x) ≡ false) a → strchr (a ++ s) x ≡ strchr s x
unfolding strchr
strchr-append x [] s h = refl
strchr-append x (c ∷ a) s h = ground (arith, strchr-append x a s h.1)

pub take_while-append :
    (test : ℕ → Bool) (a s : Bytes)
    → All (λ c. test c ≡ true) a
    → take_while test (a ++ s) ≡ a ++ take_while test s
unfolding take_while
take_while-append test [] s h = refl
take_while-append test (c ∷ a) s h = ground (arith, take_while-append test a s h.1)

tokens_from-one :
    (delim : ℕ → Bool) (x : ℕ) (cur s : Bytes)
    → All (λ c. delim c ≡ false) s
    → tokens_from delim (x ∷ cur) s ≡ (x ∷ (cur ++ s)) ∷ []
unfolding tokens_from
tokens_from-one delim x cur [] h = ap (λ t. (x ∷ t) ∷ []) (sym (append-nil cur))
tokens_from-one delim x cur (c ∷ s) h =
    rw (h.0, tokens_from-one delim x (cur ++ c ∷ []) s h.1, append_assoc cur (c ∷ []) s)

-- A text with no delimiter is one token.
pub tokens-one :
    (delim : ℕ → Bool) (x : ℕ) (s : Bytes)
    → delim x ≡ false
    → All (λ c. delim c ≡ false) s
    → tokens delim (x ∷ s) ≡ (x ∷ s) ∷ []
unfolding tokens tokens_from
tokens-one delim x s e h = rw (tokens, tokens_from, e) (tokens_from-one delim x [] s h)
