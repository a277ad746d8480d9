-- ===== src/Http/Framing.antt =====
-- The parts that `parse_request` of src/http.c cuts a request into.
use cellmgr.Base.{
  ℕ, ◌-◌, ◌≤◌, Bool, true, false, not, [], ◌∷◌, ◌++◌, some, ◌≡◌, refl, sym, subst, ap, ◌∙◌, arith,
  ◌==◌, Bytes, length, drop, length-append, take-le, take-length-append, All, append_assoc,
}
use cellmgr.Libc.Text.{has_prefix, strstr, strstr-prefix, strstr_skip, take_while}
use cellmgr.Libc.Search.{strstr-append}
use cellmgr.Http.Request.{line_break, before, request_fields, parse_text, buffered}

pub before-append : (a s : Bytes) → before (a ++ s) s ≡ a
before-append a s =
    let size : length (a ++ s) - length s ≡ length a = omega (arith, length-append {0} a s) in
    rw size (take-length-append (length a) a s refl)

abbrev pub NoReturn : Bytes → Type 0
NoReturn = All (λ c. (13 == c) ≡ false)

-- A first line, one header line that begins with `t`, and the body.
module _ (line header body : Bytes) (t : ℕ) where
  abbrev pub framed : Bytes
  framed = line ++ (line_break ++ (t ∷ (header ++ (line_break ++ (line_break ++ body)))))

  header_end :
      NoReturn line
      → NoReturn (t ∷ header)
      → strstr framed (line_break ++ line_break) ≡ some (line_break ++ (line_break ++ body))
  unfolding has_prefix
  header_end h k =
      let rest = header ++ (line_break ++ (line_break ++ body)) in
      strstr-append 13 (10 ∷ 13 ∷ 10 ∷ []) line (line_break ++ (t ∷ rest)) h
      ∙ (strstr_skip 13 (10 ∷ t ∷ rest) (line_break ++ line_break) (ground arith)
          ∙ (strstr_skip 10 (t ∷ rest) (line_break ++ line_break) refl
              ∙ (strstr-append 13 (10 ∷ 13 ∷ 10 ∷ []) (t ∷ header)
                    (line_break ++ (line_break ++ body)) k
                  ∙ strstr-prefix (line_break ++ (line_break ++ body)) (line_break ++ line_break)
                      refl)))

  line_end :
      NoReturn line
      → strstr (line ++ (line_break ++ (t ∷ header))) line_break ≡ some (line_break ++ (t ∷ header))
  unfolding has_prefix
  line_end h =
      strstr-append 13 (10 ∷ []) line (line_break ++ (t ∷ header)) h
      ∙ strstr-prefix (line_break ++ (t ∷ header)) line_break refl

  head_text :
      before framed (line_break ++ (line_break ++ body)) ≡ line ++ (line_break ++ (t ∷ header))
  head_text =
      let ends = line_break ++ (line_break ++ body) in
      let starts = line_break ++ (t ∷ header) in
      ap (λ s. before s ends) (sym (append_assoc line starts ends))
      ∙ before-append (line ++ starts) ends

take_while-All : (test : ℕ → Bool) (s : Bytes) → All (λ c. test c ≡ true) s → take_while test s ≡ s
unfolding take_while
take_while-All test [] h = refl
take_while-All test (c ∷ s) h = rw (h.0) (ap (◌∷◌ c) (take_while-All test s h.1))

abbrev pub NonZero : Bytes → Type 0
NonZero = All (λ c. not (c == 0) ≡ true)

parse_text_lem :
    (buf ends rest : Bytes)
    → strstr buf (line_break ++ line_break) ≡ some ends
    → strstr (before buf ends) line_break ≡ some rest
    → parse_text buf ≡ request_fields (before (before buf ends) rest) (drop 2 rest) (drop 4 ends)
unfolding parse_text
parse_text_lem buf ends rest e e' = rw (e, parse_text, e')

pub buffered_lem : (s : Bytes) → NonZero s → length s ≤ 69_631 → buffered s ≡ s
buffered_lem s n k =
    unfold buffered in (rw (take-le 69_631 s k) (take_while-All (λ c. not (c == 0)) s n))

pub parse_framed :
    (line header body : Bytes) (t : ℕ)
    → NoReturn line
    → NoReturn (t ∷ header)
    → parse_text (framed line header body t) ≡ request_fields line (t ∷ header) body
parse_framed line header body t h h' =
    let head = head_text line header body t in
    let ends =
      subst (λ s. strstr s line_break ≡ some (line_break ++ (t ∷ header))) (sym head)
        (line_end line header body t h) in
    parse_text_lem (framed line header body t) (line_break ++ (line_break ++ body))
      (line_break ++ (t ∷ header)) (header_end line header body t h h') ends
    ∙ (rw (head, before-append line (line_break ++ (t ∷ header))))
