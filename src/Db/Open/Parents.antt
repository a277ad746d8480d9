-- ===== src/Db/Open/Parents.antt =====
-- The directories that `ensure_parent_dir` of src/db.c makes.
use cellmgr.Base.{
  subst, ℕ, zero, suc, ◌+◌, ◌-◌, ◌≤◌, ◌<◌, Bool, true, false, not, List, [], ◌∷◌, ◌++◌, none, some,
  ◌≡◌, refl, ap, ◌∙◌, arith, ◌==◌, Bytes, codes, length, take-le, length-append, All, append_assoc,
}
use cellmgr.Libc.Text.{str_eq, strchr, take_while, is_nil}
use cellmgr.Db.Open.{before_last, concat, with_slash, parents_from, parents_of, ensure_parent_dir}

abbrev IsPlain : Bytes → Type 0
IsPlain = All (λ c. (c == b'/') ≡ false)

-- A name in a path: not empty, and with no slash.
abbrev pub IsName : Bytes → Type 0
IsName [] = ⊥
IsName (c ∷ s) = IsPlain (c ∷ s)

-- Names with a slash between two of them.
abbrev pub joined : List Bytes → Bytes
joined [] = []
joined (a ∷ []) = a
joined (a ∷ b ∷ rest) = a ++ b'/' ∷ joined (b ∷ rest)

-- The path of each directory on the way down from `base`.
abbrev pub ways : Bytes → List Bytes → List Bytes
ways base [] = []
ways base (a ∷ rest) = (base ++ a) ∷ ways ((base ++ a) ++ codes "/") rest

before_last-none : (s : Bytes) → IsPlain s → before_last b'/' s ≡ none
unfolding before_last
before_last-none [] h = refl
before_last-none (c ∷ s) h = rw (before_last-none s h.1, h.0)

-- The last slash is the one in front of a plain name.
before_last-append : (a file : Bytes) → IsPlain file → before_last b'/' (a ++ b'/' ∷ file) ≡ some a
unfolding before_last
before_last-append [] file h = rw (before_last-none file h)
before_last-append (c ∷ a) file h = rw (before_last-append a file h)

strchr-none : (s : Bytes) → IsPlain s → strchr s b'/' ≡ none
unfolding strchr
strchr-none [] h = refl
strchr-none (c ∷ s) h = rw (h.0) (strchr-none s h.1)

strchr_slash : (a s : Bytes) → IsPlain a → strchr (a ++ b'/' ∷ s) b'/' ≡ some (b'/' ∷ s)
unfolding strchr
strchr_slash [] s h = refl
strchr_slash (c ∷ a) s h = rw (h.0) (strchr_slash a s h.1)

name_alone : (a : Bytes) → IsPlain a → take_while (λ b. not (b == b'/')) a ≡ a
unfolding take_while
name_alone [] h = refl
name_alone (c ∷ a) h = rw (h.0) (ap (◌∷◌ c) (name_alone a h.1))

name_first : (a s : Bytes) → IsPlain a → take_while (λ b. not (b == b'/')) (a ++ b'/' ∷ s) ≡ a
unfolding take_while
name_first [] s h = refl
name_first (c ∷ a) s h = rw (h.0) (ap (◌∷◌ c) (name_first a s h.1))

concat-fits : (cur s : Bytes) → length cur + length s ≤ 511 → concat cur s ≡ cur ++ s
concat-fits cur s h = ap (λ t. cur ++ t) (take-le (511 - length cur) s (omega arith))

parents_from-last :
    (fuel : ℕ) (cur : Bytes) (c : ℕ) (p : Bytes)
    → IsPlain (c ∷ p)
    → parents_from (suc fuel) cur (c ∷ p) ≡ concat (with_slash cur) (c ∷ p) ∷ []
unfolding parents_from
parents_from-last fuel cur c p h = rw (parents_from, strchr-none (c ∷ p) h, name_alone (c ∷ p) h)

parents_from-next :
    (fuel : ℕ) (cur : Bytes) (c : ℕ) (p rest : Bytes)
    → IsPlain (c ∷ p)
    → parents_from (suc fuel) cur ((c ∷ p) ++ b'/' ∷ rest)
      ≡ concat (with_slash cur) (c ∷ p) ∷ parents_from fuel (concat (with_slash cur) (c ∷ p)) rest
unfolding parents_from
parents_from-next fuel cur c p rest h =
    rw (parents_from, strchr_slash (c ∷ p) rest h, name_first (c ∷ p) rest h)

-- A path that ends with a name is not empty and not the root.
not_root : (base a : Bytes) → IsName a → str_eq (base ++ a) (codes "/") ≡ false
unfolding str_eq
not_root base [] h = absurd h
not_root [] (c ∷ a) h = rw (h.0)
not_root (x ∷ []) (c ∷ a) h = ground arith
not_root (x ∷ y ∷ base) (c ∷ a) h = ground arith

not_empty : (base a : Bytes) → IsName a → is_nil (base ++ a) ≡ false
not_empty base [] h = absurd h
not_empty [] (c ∷ a) h = refl
not_empty (x ∷ base) (c ∷ a) h = refl

with_slash-name :
    (base a : Bytes)
    → IsName a
    → length (base ++ a) < 511
    → with_slash (base ++ a) ≡ (base ++ a) ++ codes "/"
unfolding with_slash
with_slash-name base a h k =
    rw (not_empty base a h, not_root base a h) (concat-fits (base ++ a) (codes "/") (omega arith))

name_is : (a : Bytes) → IsName a → (c : ℕ) × (p : Bytes) × (a ≡ c ∷ p) × IsPlain (c ∷ p)
name_is [] h = absurd h
name_is (c ∷ p) h = (c, p, refl, h)

-- The loop makes the way down, where all of it fits the array.
parents_from-joined :
    (names : List Bytes) (fuel : ℕ) (cur base : Bytes)
    → All IsName names
    → with_slash cur ≡ base
    → length base + length (joined names) ≤ 511
    → length names ≤ fuel
    → parents_from fuel cur (joined names) ≡ ways base names
parents_from-joined [] zero cur base h e k l = unfold parents_from in refl
parents_from-joined [] (suc fuel) cur base h e k l = unfold parents_from in refl
parents_from-joined (a ∷ rest) zero cur base h e k l = absurd (omega arith)
parents_from-joined ([] ∷ rest) (suc fuel) cur base h e k l = absurd (h.0)
parents_from-joined ((c ∷ p) ∷ []) (suc fuel) cur base h e k l =
    parents_from-last fuel cur c p h.0
    ∙ ap (λ t. t ∷ []) (ap (λ t. concat t (c ∷ p)) e ∙ concat-fits base (c ∷ p) (omega arith))
parents_from-joined ((c ∷ p) ∷ b ∷ rest) (suc fuel) cur base h e k l =
    let sizes = length-append {0} (c ∷ p) (b'/' ∷ joined (b ∷ rest)) in
    let here : concat (with_slash cur) (c ∷ p) ≡ base ++ c ∷ p =
      ap (λ t. concat t (c ∷ p)) e ∙ concat-fits base (c ∷ p) (omega (arith, sizes)) in
    let down = length-append {0} base (c ∷ p) in
    let below = length-append {0} (base ++ c ∷ p) (codes "/") in
    parents_from-next fuel cur c p (joined (b ∷ rest)) h.0
    ∙ (ap (λ t. t ∷ parents_from fuel t (joined (b ∷ rest))) here
        ∙ ap (λ t. (base ++ c ∷ p) ∷ t)
            (parents_from-joined (b ∷ rest) fuel (base ++ c ∷ p) ((base ++ c ∷ p) ++ codes "/") h.1
              (with_slash-name base (c ∷ p) h.0 (omega (arith, sizes, down)))
              (omega (arith, sizes, down, below)) (omega arith)))

length-joined : (names : List Bytes) → All IsName names → length names ≤ length (joined names)
length-joined [] h = omega arith
length-joined ([] ∷ rest) h = absurd (h.0)
length-joined ((c ∷ a) ∷ []) h = omega arith
length-joined ((c ∷ a) ∷ b ∷ rest) h =
    omega
      (arith, length-append {0} (c ∷ a) (b'/' ∷ joined (b ∷ rest)), length-joined (b ∷ rest) h.1)

joined_first :
    (a : Bytes) (names : List Bytes)
    → All IsName (a ∷ names)
    → (c : ℕ) × (p : Bytes) × (joined (a ∷ names) ≡ c ∷ p) × ((c == b'/') ≡ false)
joined_first [] names h = absurd (h.0)
joined_first (c ∷ a) [] h = (c, a, refl, h.0.0)
joined_first (c ∷ a) (b ∷ rest) h = (c, a ++ b'/' ∷ joined (b ∷ rest), refl, h.0.0)

-- `/` for an absolute path.
abbrev pub root : Bool → Bytes
root true = codes "/"
root false = []

ensure_parent_dir_lem :
    (path front : Bytes)
    → length path ≤ 511
    → before_last b'/' path ≡ some front
    → ensure_parent_dir path ≡ parents_of (some front)
unfolding ensure_parent_dir
ensure_parent_dir_lem path front h e = rw (take-le 511 path h, e)

parents_of-joined :
    (absolute : Bool) (a : Bytes) (names : List Bytes)
    → All IsName (a ∷ names)
    → length (root absolute) + length (joined (a ∷ names)) ≤ 511
    → parents_of (some (root absolute ++ joined (a ∷ names))) ≡ ways (root absolute) (a ∷ names)
unfolding with_slash str_eq
parents_of-joined true a names h k =
    parents_from-joined (a ∷ names) (suc (length (joined (a ∷ names)))) (codes "/") (codes "/") h
      refl k (omega (arith, length-joined (a ∷ names) h))
parents_of-joined false a names h k =
    let (c, p, e, plain) = joined_first a names h in
    let opens : parents_of (some (joined (a ∷ names)))
        ≡ parents_from (suc (length (joined (a ∷ names)))) [] (joined (a ∷ names)) =
      rw (e, plain) in
    opens
    ∙ parents_from-joined (a ∷ names) (suc (length (joined (a ∷ names)))) [] [] h refl k
        (omega (arith, length-joined (a ∷ names) h))

-- For a path of at most 511 bytes, of names with one slash between two of them, ensure_parent_dir
-- makes every directory on the way down to the file, each behind the one that holds it, and nothing
-- else.
pub ensure_parent_dir-ways :
    (absolute : Bool) (a : Bytes) (names : List Bytes) (file : Bytes)
    → All IsName (a ∷ names)
    → IsPlain file
    → length (root absolute ++ (joined (a ∷ names) ++ b'/' ∷ file)) ≤ 511
    → ensure_parent_dir (root absolute ++ (joined (a ∷ names) ++ b'/' ∷ file))
      ≡ ways (root absolute) (a ∷ names)
ensure_parent_dir-ways absolute a names file h plain k =
    let front = root absolute ++ joined (a ∷ names) in
    let shape = append_assoc (root absolute) (joined (a ∷ names)) (b'/' ∷ file) in
    let split : before_last b'/' (root absolute ++ (joined (a ∷ names) ++ b'/' ∷ file))
        ≡ some front =
      subst (λ s. before_last b'/' s ≡ some front) shape (before_last-append front file plain) in
    ensure_parent_dir_lem _ front k split
    ∙ parents_of-joined absolute a names h (
        omega (
          arith,
          length-append {0} (root absolute) (joined (a ∷ names) ++ b'/' ∷ file),
          length-append {0} (joined (a ∷ names)) (b'/' ∷ file),
        ))
