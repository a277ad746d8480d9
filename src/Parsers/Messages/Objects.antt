-- ===== src/Parsers/Messages/Objects.antt =====
-- What `parse_dbus_messages_json` of src/parsers.c writes: the objects that the lines name, in order,
-- each with its properties.
use cellmgr.Base.{
  ℕ, suc, ◌+◌, Bool, true, false, ◌||◌, List, [], ◌∷◌, ◌++◌, Option, none, some, ◌≡◌, refl, sym, ap,
  ◌∙◌, arith, if◌then◌else◌, Bytes, codes, length, append_assoc, append-nil,
}
use cellmgr.Libc.Text.{has_prefix, str_eq}
use cellmgr.Libc.Number.{show_nat}
use cellmgr.Libc.Token.{tokens}
use cellmgr.Common.Trim.{trim_in_place}
use cellmgr.Json.Escape.{json_escape}
use cellmgr.Parsers.Quoted.{is_line_end, extract_quoted_after, with_commas, comma_separated}
use cellmgr.Parsers.Dbus.{append_dbus_variant_json}

-- An object: its path, and its properties as the texts `"key":value`.
pub record Object : Type 0 where
  pub path : Bytes
  pub props : List Bytes

-- The objects that are finished, the open one, and the key that waits for its value.
pub record Reading : Type 0 where
  pub done : List Object
  pub current : Option Object
  pub key : Option Bytes

abbrev pub finish : List Object → Option Object → List Object
finish done none = done
finish done (some o) = done ++ o ∷ []

abbrev pub prop_text : Bytes → Bytes → Bytes
prop_text key line = json_escape key ++ (codes ":" ++ append_dbus_variant_json line)

abbrev pub with_prop : Object → Bytes → Object
with_prop o prop = record { path = o.path; props = o.props ++ prop ∷ [] }

abbrev pub reading : List Object → Option Object → Option Bytes → Reading
reading done current key = record { done = done; current = current; key = key }

-- A line of the properties of `o`.
abbrev pub read_property : List Object → Object → Option Bytes → Bytes → Reading
read_property done o none line =
    if has_prefix (codes "string ") line
    then reading done (some o) (extract_quoted_after line)
    else reading done (some o) none
read_property done o (some key) line =
    if has_prefix (codes "variant") line
    then reading done (some (with_prop o (prop_text key line))) none
    else if str_eq line (codes ")") || str_eq line (codes "]")
    then reading done (some o) none
    else reading done (some o) (some key)

abbrev pub new_object : Bytes → Object
new_object path = record { path = path; props = [] }

abbrev pub opened : Option Bytes → Option Object
opened none = none
opened (some path) = some (new_object path)

-- A line that names no object.
abbrev pub read_other : Reading → Option Object → Bytes → Reading
read_other r none line = r
read_other r (some o) line = read_property r.done o r.key line

-- A line with a path opens an object, and closes the open one even if the path is missing; a line of
-- properties belongs to the open object.
abbrev pub read_line : Reading → Bytes → Reading
read_line r line =
    if has_prefix (codes "object path ") line
    then reading (finish r.done r.current) (opened (extract_quoted_after line)) none
    else read_other r r.current line

unfoldable pub read_lines : Reading → List Bytes → Reading
read_lines r [] = r
read_lines r (line ∷ lines) = read_lines (read_line r (trim_in_place line)) lines

-- The objects of an answer.
abbrev pub objects : Bytes → List Object
objects raw =
    let r = read_lines (reading [] none none) (tokens is_line_end raw) in finish r.done r.current

abbrev pub object_head : ℕ → Bytes → Bytes
object_head n path =
    codes "{\"index\":"
    ++ show_nat n
    ++ codes ",\"path\":"
    ++ json_escape path
    ++ codes ",\"properties\":{"

-- The item of an object with its number.
abbrev pub object_text : ℕ → Object → Bytes
object_text n o = object_head n o.path ++ (comma_separated o.props ++ codes "}}")

-- The items, numbered from `suc i`.
abbrev pub numbered : ℕ → List Object → List Bytes
numbered i [] = []
numbered i (o ∷ os) = object_text (suc i) o ∷ numbered (suc i) os

abbrev pub is_empty {ℓ} : {A : Type ℓ} → List A → Bool
is_empty [] = true
is_empty (x ∷ xs) = false

abbrev pub comma_unless : Bool → Bytes
comma_unless first = if first then [] else codes ","

with_commas-concat :
    (ps : List Bytes) (x : Bytes) → with_commas (ps ++ x ∷ []) ≡ with_commas ps ++ (codes "," ++ x)
unfolding with_commas
with_commas-concat [] x = ap (◌∷◌ b',') (append-nil x)
with_commas-concat (p ∷ ps) x =
    ap (λ t. b',' ∷ (p ++ t)) (with_commas-concat ps x)
    ∙ ap (◌∷◌ b',') (sym (append_assoc p (with_commas ps) (codes "," ++ x)))

pub comma_separated-concat :
    (ps : List Bytes) (x : Bytes)
    → comma_separated (ps ++ x ∷ []) ≡ comma_separated ps ++ (comma_unless (is_empty ps) ++ x)
unfolding comma_separated with_commas
comma_separated-concat [] x = append-nil x
comma_separated-concat (p ∷ ps) x =
    ap (λ t. p ++ t) (with_commas-concat ps x)
    ∙ sym (append_assoc p (with_commas ps) (codes "," ++ x))

pub numbered-concat :
    (i : ℕ) (os : List Object) (o : Object)
    → numbered i (os ++ o ∷ []) ≡ numbered i os ++ object_text (suc (i + length os)) o ∷ []
numbered-concat i [] o = let e : i + 0 ≡ i = omega arith in rw e
numbered-concat i (p ∷ os) o =
    let e : i + suc (length os) ≡ suc i + length os = omega arith in
    rw e (ap (◌∷◌ (object_text (suc i) p)) (numbered-concat (suc i) os o))

pub is_empty-numbered : (i : ℕ) (os : List Object) → is_empty (numbered i os) ≡ is_empty os
is_empty-numbered i [] = refl
is_empty-numbered i (o ∷ os) = refl
