-- ===== src/Json/Grammar.antt =====
-- The grammar of JSON after RFC 8259, without blanks, and what src/json_util.c writes in it.
use cellmgr.Base.{
  ==_iff, ℕ, zero, suc, ◌+◌, ◌/◌, ◌%◌, ◌≤◌, ◌<◌, Bool, true, false, [], ◌∷◌, ◌++◌, ◌≡◌, ◌≢◌, ◌⊎◌,
  refl, arith, inl, inr, Bool-cases, ltb, ◌==◌, if◌then◌else◌, Bytes, codes, All,
}
use cellmgr.Base.Int.{ℤ, pos, negsuc}
use cellmgr.Libc.Text.{isdigit}
use cellmgr.Libc.Number.{digits, show_nat, show_int, show_nat-All}
use cellmgr.Json.Escape.{
  hex_digit, escape_byte, escape_bytes, json_escape, json_prop_string, json_prop_int,
}

abbrev IsHex : ℕ → Type 0
IsHex c = ((b'0' ≤ c) × (c ≤ b'9')) ⊎ ((b'a' ≤ c) × (c ≤ b'f'))

-- The bytes of one character in a string; of UTF-8, each byte from 128 on is taken as it is.
pub data Character : Bytes → Type 0 where
  plain : (c : ℕ) → 32 ≤ c → c ≢ b'"' → c ≢ b'\\' → Character (c ∷ [])
  quote_mark : Character (codes "\\\"")
  backslash_mark : Character (codes "\\\\")
  slash : Character (codes "\\/")
  backspace : Character (codes "\\b")
  form_feed : Character (codes "\\f")
  line_feed : Character (codes "\\n")
  carriage_return : Character (codes "\\r")
  tab : Character (codes "\\t")
  hex :
      (a b c d : ℕ)
      → IsHex a
      → IsHex b
      → IsHex c
      → IsHex d
      → Character (b'\\' ∷ b'u' ∷ a ∷ b ∷ c ∷ d ∷ [])

pub data Characters : Bytes → Type 0 where
  none_left : Characters []
  and_more : (c s : Bytes) → Character c → Characters s → Characters (c ++ s)

-- A literal with its quotation marks.
pub data StringLiteral : Bytes → Type 0 where
  quoted : (s : Bytes) → Characters s → StringLiteral (b'"' ∷ (s ++ b'"' ∷ []))

-- An integer, with no zero in front of other digits.
pub data Integer : Bytes → Type 0 where
  nought : Integer (codes "0")
  positive :
      (d : ℕ) (s : Bytes) → b'1' ≤ d → d ≤ b'9' → All (λ c. isdigit c ≡ true) s → Integer (d ∷ s)
  negative : (s : Bytes) → Integer s → Integer (b'-' ∷ s)

mutual
  pub data Json : Bytes → Type 0 where
    null : Json (codes "null")
    truth : Json (codes "true")
    falsehood : Json (codes "false")
    number : (s : Bytes) → Integer s → Json s
    literal : (s : Bytes) → StringLiteral s → Json s
    no_members : Json (codes "{}")
    object : (s : Bytes) → Members s → Json (s ++ codes "}")
    no_elements : Json (codes "[]")
    array : (s : Bytes) → Elements s → Json (s ++ codes "]")

  -- An object whose brace is still open.
  pub data Members : Bytes → Type 0 where
    member : (k v : Bytes) → StringLiteral k → Json v → Members (b'{' ∷ (k ++ b':' ∷ v))
    members :
        (s k v : Bytes)
        → Members s
        → StringLiteral k
        → Json v
        → Members (s ++ b',' ∷ (k ++ b':' ∷ v))

  -- An array whose bracket is still open.
  pub data Elements : Bytes → Type 0 where
    element : (v : Bytes) → Json v → Elements (b'[' ∷ v)
    elements : (s v : Bytes) → Elements s → Json v → Elements (s ++ b',' ∷ v)

digit-Integer :
    (n : ℕ) (out : Bytes)
    → 0 < n
    → n < 10
    → All (λ c. isdigit c ≡ true) out
    → Integer ((b'0' + n % 10) ∷ out)
digit-Integer n out h k a = positive (b'0' + n % 10) out (omega arith) (omega arith) a

digits-Integer :
    (fuel n : ℕ) (out : Bytes)
    → n < fuel
    → 0 < n
    → All (λ c. isdigit c ≡ true) out
    → Integer (digits fuel n out)
unfolding digits
digits-Integer zero n out h k a = absurd (omega arith)
digits-Integer (suc fuel) n out h k a = elim (Bool-cases (n / 10 == 0)) [
  | inl e ↦
      let small : n / 10 ≡ 0 = (==_iff (n / 10) 0).0 e in
      rw (e, digits) (digit-Integer n out k (omega arith) a)
  | inr e ↦
      let more : 0 < n / 10 = ground arith in
      rw (e, digits)
        (digits-Integer fuel (n / 10) ((b'0' + n % 10) ∷ out) (omega arith) more
          (unfold isdigit in (ground arith), a))
]

show_nat-Integer : (n : ℕ) → Integer (show_nat n)
unfolding show_nat digits
show_nat-Integer zero = nought
show_nat-Integer (suc n) = digits-Integer (suc (suc n)) (suc n) [] (omega arith) (omega arith) tt

pub show_int-Json : (z : ℤ) → Json (show_int z)
unfolding show_int
show_int-Json (pos n) = number (show_nat n) (show_nat-Integer n)
show_int-Json (negsuc n) = number _ (negative (show_nat (suc n)) (show_nat-Integer (suc n)))

pub on_if :
    {A : Type 0} (P : A → Type 0) (b : Bool) (x y : A)
    → (b ≡ true → P x)
    → (b ≡ false → P y)
    → P (if b then x else y)
on_if P true x y p q = p refl
on_if P false x y p q = q refl

hex_digit-IsHex : (n : ℕ) → n < 16 → IsHex (hex_digit n)
hex_digit-IsHex n h = ground arith

escape_byte-Character : (c : ℕ) → Character (escape_byte c)
unfolding escape_byte
escape_byte-Character c =
    on_if Character (c == b'"') _ _ (λ e. quote_mark)
      (λ q.
        on_if Character (c == b'\\') _ _ (λ e. backslash_mark)
          (λ b.
            on_if Character (c == 8) _ _ (λ e. backspace)
              (λ k.
                on_if Character (c == 12) _ _ (λ e. form_feed)
                  (λ f.
                    on_if Character (c == 10) _ _ (λ e. line_feed)
                      (λ l.
                        on_if Character (c == 13) _ _ (λ e. carriage_return)
                          (λ r.
                            on_if Character (c == 9) _ _ (λ e. tab)
                              (λ t.
                                on_if Character (ltb c 32) _ _
                                  (λ e.
                                    hex b'0' b'0' _ _ (omega arith) (omega arith)
                                      (hex_digit-IsHex (c / 16) (ground arith))
                                      (hex_digit-IsHex (c % 16) (omega arith)))
                                  (λ e. plain c (ground arith) (ground arith) (ground arith)))))))))

escape_bytes-Characters : (s : Bytes) → Characters (escape_bytes s)
unfolding escape_bytes
escape_bytes-Characters [] = none_left
escape_bytes-Characters (c ∷ s) =
    and_more (escape_byte c) (escape_bytes s) (escape_byte-Character c) (escape_bytes-Characters s)

pub json_escape-StringLiteral : (s : Bytes) → StringLiteral (json_escape s)
unfolding json_escape
json_escape-StringLiteral s = quoted (escape_bytes s) (escape_bytes-Characters s)

pub json_escape-Json : (s : Bytes) → Json (json_escape s)
json_escape-Json s = literal (json_escape s) (json_escape-StringLiteral s)

-- The first property of an object, and a further one.
pub first_string : (k v : Bytes) → Members (codes "{" ++ json_prop_string k v false)
unfolding json_prop_string
first_string k v =
    member (json_escape k) (json_escape v) (json_escape-StringLiteral k) (json_escape-Json v)

pub first_int : (k : Bytes) (v : ℤ) → Members (codes "{" ++ json_prop_int k v false)
unfolding json_prop_int
first_int k v = member (json_escape k) (show_int v) (json_escape-StringLiteral k) (show_int-Json v)

pub next_string : (s k v : Bytes) → Members s → Members (s ++ json_prop_string k v true)
unfolding json_prop_string
next_string s k v m =
    members s (json_escape k) (json_escape v) m (json_escape-StringLiteral k) (json_escape-Json v)

pub next_int : (s k : Bytes) (v : ℤ) → Members s → Members (s ++ json_prop_int k v true)
unfolding json_prop_int
next_int s k v m =
    members s (json_escape k) (show_int v) m (json_escape-StringLiteral k) (show_int-Json v)

pub first_member : (k v : Bytes) → Json v → Members (b'{' ∷ (json_escape k ++ b':' ∷ v))
first_member k v h = member (json_escape k) v (json_escape-StringLiteral k) h

pub next_member :
    (s k v : Bytes) → Members s → Json v → Members (s ++ b',' ∷ (json_escape k ++ b':' ∷ v))
next_member s k v m h = members s (json_escape k) v m (json_escape-StringLiteral k) h

digits-Characters : (s : Bytes) → All (λ c. isdigit c ≡ true) s → Characters s
unfolding isdigit
digits-Characters [] h = none_left
digits-Characters (c ∷ s) h =
    and_more (c ∷ []) s (plain c (ground arith) (ground arith) (ground arith))
      (digits-Characters s h.1)

show_int-Characters : (z : ℤ) → Characters (show_int z)
unfolding show_int
show_int-Characters (pos n) = digits-Characters (show_nat n) (show_nat-All n)
show_int-Characters (negsuc n) =
    and_more (codes "-") (show_nat (suc n)) (plain b'-' (omega arith) (omega arith) (omega arith))
      (digits-Characters (show_nat (suc n)) (show_nat-All (suc n)))

-- A letter and a number between quotation marks.
pub lettered-Json :
    (c : ℕ) (z : ℤ) → b'A' ≤ c → c ≢ b'\\' → Json (b'"' ∷ ((c ∷ show_int z) ++ b'"' ∷ []))
lettered-Json c z h k = literal _ (
    quoted (c ∷ show_int z) (
      and_more (c ∷ []) (show_int z) (plain c (omega arith) (omega arith) k)
        (show_int-Characters z)))
