-- ===== src/Parsers/Syntax.antt =====
-- The lists that the parsers of src/parsers.c write, in the grammar of JSON.
use cellmgr.Base.{List, [], ◌∷◌, ◌++◌, sym, subst, Bytes, codes, All, map, append_assoc, append-nil}
use cellmgr.Json.Escape.{escape_byte, escape_bytes, json_escape}
use cellmgr.Json.Grammar.{
  Json, Elements, object, array, element, elements, no_elements, first_member, next_member,
  json_escape-Json,
}
use cellmgr.Parsers.Quoted.{with_commas, comma_separated}

with_commas-Elements :
    (s : Bytes) (items : List Bytes)
    → Elements s
    → All Json items
    → Elements (s ++ with_commas items)
unfolding with_commas
with_commas-Elements s [] h k = subst Elements (sym (append-nil s)) h
with_commas-Elements s (item ∷ items) h k =
    subst Elements (append_assoc s (b',' ∷ item) (with_commas items))
      (with_commas-Elements (s ++ b',' ∷ item) items (elements s item h k.0) k.1)

-- Items with commas between them are an array.
pub comma_separated-Json :
    (items : List Bytes) → All Json items → Json (codes "[" ++ comma_separated items ++ codes "]")
unfolding comma_separated
comma_separated-Json [] h = no_elements
comma_separated-Json (item ∷ items) h =
    array _ (with_commas-Elements (b'[' ∷ item) items (element item h.0) h.1)

-- An object of a list and the raw answer.
pub listed_raw-Json :
    (key list raw : Bytes)
    → Json list
    → Json (
        (b'{' ∷ (json_escape key ++ b':' ∷ list))
        ++ codes ",\"raw\":"
        ++ json_escape raw
        ++ codes "}")
unfolding json_escape escape_bytes escape_byte
listed_raw-Json key list raw h = subst Json (simp append_assoc) (
    object _ (
      next_member _ (codes "raw") (json_escape raw) (first_member key list h)
        (json_escape-Json raw)))

-- Items that are made one by one.
pub All-items :
    {A : Type 0} (f : A → Bytes) → ((a : A) → Json (f a)) → (xs : List A) → All Json (map f xs)
All-items f h [] = tt
All-items f h (x ∷ xs) = (h x, All-items f h xs)
