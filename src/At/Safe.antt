-- ===== src/At/Safe.antt =====
-- What the filter of src/at.c refuses, and what it lets pass.
use mathlib.Core.List.{map-append}
use cellmgr.Base.{
  ℕ, Bool, true, false, not, List, [], ◌∷◌, ◌++◌, map, ◌≡◌, ◌⊎◌, refl, ap, ◌∙◌, inl, inr, arith,
  ◌==◌, if◌then◌else◌, Bool-cases, Bytes, codes, All,
}
use cellmgr.Base.Int.{ℤ, negsuc}
use cellmgr.At.Filter.{starts_with_ci, danger, is_none_of, is_indent, at_is_safe_command}
use cellmgr.At.Send.{blocked, at_send}
use cellmgr.Command.Call.{Runner}
use cellmgr.Config.Fields.{AppConfig}
use cellmgr.Libc.Text.{toupper, skip_while, has_prefix, has_prefix-append}

-- The comparison ignores the case of letters and nothing else.
pub starts_with_ci-has_prefix :
    (s p : Bytes) → starts_with_ci s p ≡ has_prefix (map toupper p) (map toupper s)
unfolding starts_with_ci has_prefix
starts_with_ci-has_prefix s [] = refl
starts_with_ci-has_prefix [] (p ∷ ps) = refl
starts_with_ci-has_prefix (c ∷ s) (p ∷ ps) = ground (arith, starts_with_ci-has_prefix s ps)

-- The command in capitals, with no indentation.
abbrev pub capitals : Bytes → Bytes
capitals raw = map toupper (skip_while is_indent raw)

-- The text begins with none of the dangerous prefixes.
abbrev pub AvoidsAll : List Bytes → Bytes → Type 0
AvoidsAll ds text = All (λ d. has_prefix (map toupper d) text ≡ false) ds

safe_lem :
    (raw : Bytes)
    → at_is_safe_command raw ≡ (
        if not (starts_with_ci (skip_while is_indent raw) (codes "AT"))
        then false
        else is_none_of danger (skip_while is_indent raw))
safe_lem raw = unfold at_is_safe_command in refl

-- `x` is one of the list.
abbrev pub Elem : Bytes → List Bytes → Type 0
Elem x [] = ⊥
Elem x (y ∷ ys) = (x ≡ y) ⊎ Elem x ys

skip_indent :
    (indent s : Bytes)
    → All (λ c. is_indent c ≡ true) indent
    → skip_while is_indent (indent ++ s) ≡ skip_while is_indent s
unfolding skip_while
skip_indent [] s h = refl
skip_indent (c ∷ indent) s h = rw h.0 (skip_indent indent s h.1)

starts_with_ci-append :
    (x y tail : Bytes) → map toupper x ≡ map toupper y → starts_with_ci (x ++ tail) y ≡ true
starts_with_ci-append x y tail e =
    starts_with_ci-has_prefix (x ++ tail) y
    ∙ ap (has_prefix (map toupper y))
        (map-append toupper x tail ∙ ap (λ t. t ++ map toupper tail) e)
    ∙ has_prefix-append (map toupper y) (map toupper tail)

is_none_of_step :
    (y : Bytes) (ys : List Bytes) (s : Bytes)
    → is_none_of (y ∷ ys) s ≡ (if starts_with_ci s y then false else is_none_of ys s)
is_none_of_step y ys s = unfold is_none_of in refl

-- A member of the list is found.
is_none_of-Elem :
    (ds : List Bytes) (d x tail : Bytes)
    → Elem d ds
    → map toupper x ≡ map toupper d
    → is_none_of ds (x ++ tail) ≡ false
is_none_of-Elem [] d x tail h e = absurd h
is_none_of-Elem (y ∷ ys) d x tail (inl same) e =
    rw (is_none_of_step y ys _, starts_with_ci-append x y tail (e ∙ ap (map toupper) same))
is_none_of-Elem (y ∷ ys) d x tail (inr later) e = elim (Bool-cases (starts_with_ci (x ++ tail) y)) [
  | inl found ↦ rw (is_none_of_step y ys _, found)
  | inr other ↦ rw (is_none_of_step y ys _, other) (is_none_of-Elem ys d x tail later e)
]

begins : ℕ → Bytes → Bool
begins a [] = false
begins a (c ∷ s) = toupper c == a

danger-begins : (d : Bytes) → Elem d danger → begins b'A' (map toupper d) ≡ true
unfolding begins toupper
danger-begins d h = ground arith

not_indented :
    (x tail : Bytes)
    → begins b'A' (map toupper x) ≡ true
    → skip_while is_indent (x ++ tail) ≡ x ++ tail
unfolding begins toupper skip_while
not_indented [] tail h = cc
not_indented (c ∷ x) tail h = ground arith

-- A dangerous command, in whatever case and with whatever behind it, indented or not.
refused :
    (indent d x tail : Bytes)
    → All (λ c. is_indent c ≡ true) indent
    → Elem d danger
    → map toupper x ≡ map toupper d
    → at_is_safe_command (indent ++ (x ++ tail)) ≡ false
refused indent d x tail blank h e =
    rw
      (
        safe_lem (indent ++ (x ++ tail)),
        skip_indent indent (x ++ tail) blank,
        not_indented x tail (rw e (danger-begins d h)),
      )
      (rw (is_none_of-Elem danger d x tail h e) (both _))
  where
    both : (b : Bool) → (if not b then false else false) ≡ false
    both true = refl
    both false = refl

module _ {World : Type 0} (run_capture : Runner World)
    (insert_at_history : Bytes → Bytes → ℤ → World → World) where
  -- Without permission a dangerous command, in whatever case and with whatever behind it, indented or
  -- not, reaches neither the modem nor the history: `at_send` returns -1 with exit code 403.
  pub at_send-blocked :
      (cfg : AppConfig) (indent d x tail : Bytes) (w : World)
      → All (λ c. is_indent c ≡ true) indent
      → Elem d danger
      → map toupper x ≡ map toupper d
      → at_send run_capture insert_at_history cfg (indent ++ (x ++ tail)) false w
        ≡ ((negsuc 0, blocked), w)
  unfolding at_send
  at_send-blocked cfg indent d x tail w blank h e =
      let no : at_is_safe_command (indent ++ (x ++ tail)) ≡ false =
        refused indent d x tail blank h e in
      rw (at_send, no)

  -- The filter reads the first command of a line only: behind `AT+CSQ;` any text passes, dangerous
  -- commands too, and is sent as if dangerous commands were allowed.
  pub at_send_compound :
      (cfg : AppConfig) (tail : Bytes) (w : World)
      → at_send run_capture insert_at_history cfg (codes "AT+CSQ;" ++ tail) false w
        ≡ at_send run_capture insert_at_history cfg (codes "AT+CSQ;" ++ tail) true w
  unfolding at_send
  at_send_compound cfg tail w = refl
