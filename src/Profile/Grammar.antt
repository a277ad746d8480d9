-- ===== src/Profile/Grammar.antt =====
-- Well-formed blocks in braces, and what `find_capability_block` of src/profile.c makes of them.
use cellmgr.Base.{
  ℕ, suc, ◌-◌, false, ◌||◌, [], ◌∷◌, ◌++◌, Option, none, some, ◌≡◌, refl, sym, ap, ◌∙◌, arith, ◌==◌,
  Bytes, append_assoc, Option-cases, inl, inr,
}
use cellmgr.Libc.Text.{strstr, strchr, truncate}
use cellmgr.Profile.Block.{
  Place, outside, inside, escaped, next_place, next_depth, closes, block_text,
  find_capability_block,
}

-- What follows the quotation mark that opens a string, up to the one that closes it.
pub data Literal : Bytes → Type 0 where
  close : Literal (b'"' ∷ [])
  plain : (c : ℕ) (s : Bytes) → (c == b'"' || c == b'\\') ≡ false → Literal s → Literal (c ∷ s)
  escape : (c : ℕ) (s : Bytes) → Literal s → Literal (b'\\' ∷ c ∷ s)

-- What stands between two braces: bytes, strings, in which braces count for nothing, and blocks.
pub data Inner : Bytes → Type 0 where
  nothing : Inner []
  byte :
      (c : ℕ) (s : Bytes)
      → (c == b'"' || (c == b'{' || c == b'}')) ≡ false
      → Inner s
      → Inner (c ∷ s)
  string : (l s : Bytes) → Literal l → Inner s → Inner (b'"' ∷ (l ++ s))
  block : (a s : Bytes) → Inner a → Inner s → Inner (b'{' ∷ (a ++ b'}' ∷ s))

extend : Bytes → Option Bytes → Option Bytes
extend s none = none
extend s (some t) = some (s ++ t)

extend-extend : (a b : Bytes) (o : Option Bytes) → extend a (extend b o) ≡ extend (a ++ b) o
unfolding extend
extend-extend a b none = refl
extend-extend a b (some t) = ap some (sym (append_assoc a b t))

extend_nil : (o : Option Bytes) → o ≡ extend [] o
unfolding extend
extend_nil none = refl
extend_nil (some t) = refl

block_text_step :
    (place : Place) (depth c : ℕ) (s : Bytes)
    → closes place c depth ≡ false
    → block_text place depth (c ∷ s)
      ≡ extend (c ∷ []) (block_text (next_place place c) (next_depth place c depth) s)
unfolding block_text extend
block_text_step place depth c s e =
    elim (Option-cases (block_text (next_place place c) (next_depth place c depth) s)) [
      | inl missing ↦ rw (e, block_text, missing)
      | inr (t, found) ↦ rw (e, block_text, found)
    ]

block_text-Literal :
    (depth : ℕ) (l rest : Bytes)
    → Literal l
    → block_text inside depth (l ++ rest) ≡ extend l (block_text outside depth rest)
unfolding next_place next_depth closes
block_text-Literal depth _ rest close = block_text_step inside depth b'"' rest refl
block_text-Literal depth _ rest (plain c s h l) =
    let stays : next_place inside c ≡ inside = ground arith in
    block_text_step inside depth c (s ++ rest) refl
    ∙ (rw (stays, block_text-Literal depth s rest l)
        (extend-extend (c ∷ []) s (block_text outside depth rest)))
block_text-Literal depth _ rest (escape c s l) =
    block_text_step inside depth b'\\' (c ∷ (s ++ rest)) refl
    ∙ (rw
        (
          block_text_step escaped depth c (s ++ rest) refl,
          block_text-Literal depth s rest l,
          extend-extend (c ∷ []) s (block_text outside depth rest),
        )
        (extend-extend (b'\\' ∷ []) (c ∷ s) (block_text outside depth rest)))

block_text-Inner :
    (depth : ℕ) (a rest : Bytes)
    → Inner a
    → block_text outside (suc depth) (a ++ rest) ≡ extend a (block_text outside (suc depth) rest)
unfolding next_place next_depth closes
block_text-Inner depth _ rest nothing = extend_nil (block_text outside (suc depth) rest)
block_text-Inner depth _ rest (byte c s h i) =
    let inner : closes outside c (suc depth) ≡ false = ground arith in
    let stays : next_place outside c ≡ outside = ground arith in
    let same : next_depth outside c (suc depth) ≡ suc depth = ground arith in
    block_text_step outside (suc depth) c (s ++ rest) inner
    ∙ (rw (stays, same, block_text-Inner depth s rest i)
        (extend-extend (c ∷ []) s (block_text outside (suc depth) rest)))
block_text-Inner depth _ rest (string l s q i) =
    let behind = block_text outside (suc depth) rest in
    block_text_step outside (suc depth) b'"' (l ++ s ++ rest) refl
    ∙ (rw
        (
          append_assoc l s rest,
          block_text-Literal (suc depth) l (s ++ rest) q,
          block_text-Inner depth s rest i,
          extend-extend l s behind,
        )
        (extend-extend (b'"' ∷ []) (l ++ s) behind))
block_text-Inner depth _ rest (block a s i j) =
    let behind = block_text outside (suc depth) rest in
    let deep : closes outside b'}' (suc (suc depth)) ≡ false = ground arith in
    let lower : suc (suc depth) - 1 ≡ suc depth = omega arith in
    block_text_step outside (suc depth) b'{' (a ++ b'}' ∷ s ++ rest) refl
    ∙ (rw
        (
          append_assoc a (b'}' ∷ s) rest,
          block_text-Inner (suc depth) a (b'}' ∷ (s ++ rest)) i,
          block_text_step outside (suc (suc depth)) b'}' (s ++ rest) deep,
          lower,
          block_text-Inner depth s rest j,
          extend-extend (b'}' ∷ []) s behind,
          extend-extend a (b'}' ∷ s) behind,
        )
        (extend-extend (b'{' ∷ []) (a ++ b'}' ∷ s) behind))

-- Of a text whose first opening brace behind the quoted name begins a well-formed block, the scanner
-- returns exactly this block, with its braces, whatever follows it.
pub find_capability_block-block :
    (json capability p a post : Bytes)
    → strstr json (truncate 192 (b'"' ∷ (capability ++ b'"' ∷ []))) ≡ some p
    → strchr p b'{' ≡ some (b'{' ∷ (a ++ (b'}' ∷ post)))
    → Inner a
    → find_capability_block json capability ≡ some (b'{' ∷ (a ++ b'}' ∷ []))
unfolding find_capability_block next_place next_depth closes
find_capability_block-block json capability p a post named opened i =
    rw
      (
        named,
        find_capability_block,
        opened,
        block_text_step outside 0 b'{' (a ++ (b'}' ∷ post)) refl,
        block_text-Inner 0 a (b'}' ∷ post) i,
      )
      (unfold extend in refl)
