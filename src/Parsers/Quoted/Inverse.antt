-- ===== src/Parsers/Quoted/Inverse.antt =====
-- Quoted text through `extract_quoted_after` and `normalized_at_payload` of src/parsers.c.
use cellmgr.Base.{
  ℕ, false, [], ◌∷◌, ◌++◌, some, ◌≡◌, ◌≢◌, refl, ap, ◌∙◌, arith, Bytes, codes, drop, All,
  append_assoc,
}
use cellmgr.Libc.Text.{strstr, strchr, strstr-prefix, has_prefix-append}
use cellmgr.Json.Escape.{quote, backslash, escape_byte, escape_bytes, json_escape}
use cellmgr.Json.RoundTrip.{Readable}
use cellmgr.Parsers.Quoted.{unescaped, quoted_text, extract_quoted_after, normalized_at_payload}

strchr_skip :
    (before s : Bytes) (b : ℕ) → All (λ c. c ≢ b) before → strchr (before ++ b ∷ s) b ≡ some (b ∷ s)
unfolding strchr
strchr_skip [] s b h = ground arith
strchr_skip (c ∷ before) s b h = ground (arith, h.0, strchr_skip before s b h.1)

quoted_text_escaped :
    (e : ℕ) (p : Bytes) → quoted_text false (backslash ∷ e ∷ p) ≡ unescaped e ∷ quoted_text false p
unfolding quoted_text
quoted_text_escaped e p = refl

quoted_text_plain :
    (c : ℕ) (p : Bytes)
    → c ≢ quote
    → c ≢ backslash
    → quoted_text false (c ∷ p) ≡ c ∷ quoted_text false p
unfolding quoted_text
quoted_text_plain c p h k = ground arith

quoted_text-escape_byte :
    (c : ℕ) (p : Bytes)
    → Readable c
    → quoted_text false (escape_byte c ++ p) ≡ c ∷ quoted_text false p
unfolding escape_byte unescaped
quoted_text-escape_byte c p h = ground (
  arith,
  h,
  quoted_text_plain c p,
  quoted_text_escaped quote p,
  quoted_text_escaped backslash p,
  quoted_text_escaped b'n' p,
  quoted_text_escaped b'r' p,
  quoted_text_escaped b't' p,
)

quoted_text-escape_bytes :
    (s rest : Bytes) → All Readable s → quoted_text false (escape_bytes s ++ quote ∷ rest) ≡ s
unfolding escape_bytes
quoted_text-escape_bytes [] rest h = unfold quoted_text in refl
quoted_text-escape_bytes (c ∷ s) rest h =
    ap (quoted_text false) (append_assoc (escape_byte c) (escape_bytes s) (quote ∷ rest))
    ∙ quoted_text-escape_byte c (escape_bytes s ++ quote ∷ rest) h.0
    ∙ ap (◌∷◌ c) (quoted_text-escape_bytes s rest h.1)

extract_quoted_after_found :
    (p q : Bytes)
    → strchr p quote ≡ some q
    → extract_quoted_after p ≡ some (quoted_text false (drop 1 q))
unfolding extract_quoted_after quoted_text
extract_quoted_after_found p q h = rw (h, extract_quoted_after) refl

extract_quoted_after_behind :
    (before t : Bytes)
    → All (λ c. c ≢ quote) before
    → extract_quoted_after (before ++ quote ∷ t) ≡ some (quoted_text false t)
extract_quoted_after_behind before t h =
    extract_quoted_after_found (before ++ quote ∷ t) (quote ∷ t) (strchr_skip before t quote h)

normalized_found :
    (raw p s : Bytes)
    → strstr raw (codes "string ") ≡ some p
    → extract_quoted_after p ≡ some s
    → normalized_at_payload raw ≡ s
unfolding normalized_at_payload
normalized_found raw p s h k = rw (h, k, normalized_at_payload) refl

-- Behind any text without a quotation mark, the literal that `json_escape` writes for a text is read
-- back as that text, if it holds no control character but tab and line ends; what follows the
-- literal is not read.
pub extract_quoted_after-json_escape :
    (before s rest : Bytes)
    → All (λ c. c ≢ quote) before
    → All Readable s
    → extract_quoted_after (before ++ (json_escape s ++ rest)) ≡ some s
unfolding json_escape
extract_quoted_after-json_escape before s rest h k =
    extract_quoted_after_behind before (escape_bytes s ++ quote ∷ [] ++ rest) h
    ∙ ap (λ p. some (quoted_text false p)) (append_assoc (escape_bytes s) (quote ∷ []) rest)
    ∙ ap some (quoted_text-escape_bytes s rest k)

-- The answer that D-Bus prints as `string "…"` stands for the text between the marks.
pub normalized_at_payload-json_escape :
    (s rest : Bytes)
    → All Readable s
    → normalized_at_payload (codes "string " ++ (json_escape s ++ rest)) ≡ s
normalized_at_payload-json_escape s rest k =
    normalized_found (codes "string " ++ (json_escape s ++ rest))
      (codes "string " ++ (json_escape s ++ rest)) s
      (strstr-prefix (codes "string " ++ (json_escape s ++ rest)) (codes "string ")
        (has_prefix-append (codes "string ") (json_escape s ++ rest)))
      (extract_quoted_after-json_escape (codes "string ") s rest (ground arith) k)
