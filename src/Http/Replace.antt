-- ===== src/Http/Replace.antt =====
-- What `replace_token` of src/http.c makes of a template.
use cellmgr.Base.{
  ℕ, zero, suc, ◌+◌, ◌-◌, ◌<◌, ◌≤◌, true, false, [], ◌∷◌, ◌++◌, none, some, inl, inr, ◌≡◌, refl,
  sym, ap, ◌∙◌, subst, arith, ltb, Bytes, length, take, drop, length-take, length-drop, take-le,
  take-length-append, append_assoc, append-nil, Bool-cases, Option-cases,
}
use cellmgr.Libc.Text.{has_prefix, strstr, strstr-prefix, strstr_skip}
use cellmgr.Http.Template.{append_room, replace_from, replace_token}

-- Every occurrence of `token` from the left replaced by `value`, behind `skip` bytes that are left out.
unfoldable pub substitute : Bytes → Bytes → ℕ → Bytes → Bytes
substitute token value skip [] = []
substitute token value (suc skip) (c ∷ s) = substitute token value skip s
substitute token value zero (c ∷ s) = elim (has_prefix token (c ∷ s)) [
  | true ↦ value ++ substitute token value (length token - 1) s
  | false ↦ c ∷ substitute token value zero s
]

module _ (token value : Bytes) where
  substitute_skip :
      (k : ℕ) (s : Bytes) → substitute token value k s ≡ substitute token value zero (drop k s)
  unfolding substitute
  substitute_skip zero s = refl
  substitute_skip (suc k) [] = refl
  substitute_skip (suc k) (c ∷ s) = substitute_skip k s

module _ (t : ℕ) (ts value : Bytes) where
  substitute-none : (s : Bytes) → strstr s (t ∷ ts) ≡ none → substitute (t ∷ ts) value zero s ≡ s
  unfolding substitute
  substitute-none [] h = refl
  substitute-none (c ∷ s) h = elim (Bool-cases (has_prefix (t ∷ ts) (c ∷ s))) [
    | inl e ↦ cc (h, strstr-prefix (c ∷ s) (t ∷ ts) e)
    | inr e ↦
        rw (e, substitute) (ap (◌∷◌ c) (substitute-none s (cc (h, strstr_skip c s (t ∷ ts) e))))
  ]

  no_match : (m : Bytes) → strstr [] (t ∷ ts) ≡ some m → ⊥
  unfolding strstr has_prefix
  no_match m h = cc

  substitute_here :
      (c : ℕ) (s : Bytes)
      → has_prefix (t ∷ ts) (c ∷ s) ≡ true
      → substitute (t ∷ ts) value zero (c ∷ s)
        ≡ value ++ substitute (t ∷ ts) value zero (drop (length ts) s)
  unfolding substitute
  substitute_here c s e =
      let less : suc (length ts) - 1 ≡ length ts = omega arith in
      rw (e, substitute, less, substitute_skip (t ∷ ts) value (length ts) s)

  substitute_there :
      (c : ℕ) (s : Bytes)
      → has_prefix (t ∷ ts) (c ∷ s) ≡ false
      → substitute (t ∷ ts) value zero (c ∷ s) ≡ c ∷ substitute (t ∷ ts) value zero s
  unfolding substitute
  substitute_there c s e = rw (e, substitute)

  abbrev Found : Bytes → Bytes → Type 0
  Found s m =
      (length m ≤ length s)
      × (substitute (t ∷ ts) value zero s
          ≡ take (length s - length m) s
            ++ (value ++ substitute (t ∷ ts) value zero (drop (suc (length ts)) m)))

  substitute-some : (s m : Bytes) → strstr s (t ∷ ts) ≡ some m → Found s m
  substitute-some [] m h = absurd (no_match m h)
  substitute-some (c ∷ s) m h = elim (Bool-cases (has_prefix (t ∷ ts) (c ∷ s))) [
    | inl e ↦
        let same : c ∷ s ≡ m = cc (h, strstr-prefix (c ∷ s) (t ∷ ts) e) in
        subst (Found (c ∷ s)) same (here c s e)
    | inr e ↦
        let (short, eq) = substitute-some s m (cc (h, strstr_skip c s (t ∷ ts) e)) in
        let later : suc (length s) - length m ≡ suc (length s - length m) = omega arith in
        (omega arith, rw (later, substitute_there c s e, eq))
  ]
    where
      here : (c : ℕ) (s : Bytes) → has_prefix (t ∷ ts) (c ∷ s) ≡ true → Found (c ∷ s) (c ∷ s)
      here c s e =
          let none_before : length (c ∷ s) - length (c ∷ s) ≡ 0 = omega arith in
          (omega arith, rw none_before (substitute_here c s e))

take-cut : (n : ℕ) (xs ys : Bytes) → take n (take n xs ++ ys) ≡ take n (xs ++ ys)
take-cut zero xs ys = refl
take-cut (suc n) [] ys = refl
take-cut (suc n) (x ∷ xs) ys = ap (◌∷◌ x) (take-cut n xs ys)

append_room_lem :
    (n : ℕ) (dst s : Bytes) → length dst ≤ n → append_room (suc n) dst s ≡ take n (dst ++ s)
append_room_lem n [] s h = let all : suc n - 0 - 1 ≡ n = omega arith in ap (λ k. take k s) all
append_room_lem zero (x ∷ dst) s h = absurd (omega arith)
append_room_lem (suc n) (x ∷ dst) s h =
    let less : suc (suc n) - suc (length dst) - 1 ≡ suc n - length dst - 1 = omega arith in
    ap (◌∷◌ x) (rw less (append_room_lem n dst s (omega arith)))

-- Two appends into the array, as one cut of the whole.
appended_twice :
    (n : ℕ) (dst before value rest : Bytes)
    → length dst ≤ n
    → (length (append_room (suc n) (append_room (suc n) dst before) value) ≤ n)
      × (take n (append_room (suc n) (append_room (suc n) dst before) value ++ rest)
          ≡ take n (dst ++ (before ++ (value ++ rest))))
appended_twice n dst before value rest h =
    let first = append_room_lem n dst before h in
    let short : length (append_room (suc n) dst before) ≤ n =
      rw first (omega (arith, length-take {0} n (dst ++ before))) in
    let second = append_room_lem n (append_room (suc n) dst before) value short in
    (
      rw second (omega (arith, length-take {0} n (append_room (suc n) dst before ++ value))),
      rw (
        second,
        take-cut n (append_room (suc n) dst before ++ value) rest,
        first,
        append_assoc (take n (dst ++ before)) value rest,
        take-cut n (dst ++ before) (value ++ rest),
        append_assoc dst before (value ++ rest),
      ),
    )

module _ (t : ℕ) (ts value : Bytes) where
  replace_from-substitute :
      (fuel n : ℕ) (dst p : Bytes)
      → length dst ≤ n
      → length p < fuel
      → replace_from fuel (suc n) (t ∷ ts) value dst p
        ≡ take n (dst ++ substitute (t ∷ ts) value zero p)
  unfolding replace_from
  replace_from-substitute zero n dst p h k = absurd (omega arith)
  replace_from-substitute (suc fuel) n dst [] h k =
      unfold substitute in (rw (append-nil dst) (sym (take-le n dst h)))
  replace_from-substitute (suc fuel) n dst (c ∷ p) h k =
      elim (Bool-cases (ltb (length dst + 1) (suc n))) [
        | inr full ↦
            let size : length dst ≡ n = ground arith in
            rw (
              full,
              replace_from,
              take-length-append n dst (substitute (t ∷ ts) value zero (c ∷ p)) size,
            )
        | inl room ↦ elim (Option-cases (strstr (c ∷ p) (t ∷ ts))) [
          | inl e ↦
              rw (room, replace_from, e, substitute-none t ts value (c ∷ p) e)
                (append_room_lem n dst (c ∷ p) h)
          | inr (m, e) ↦
              let (short, eq) = substitute-some t ts value (c ∷ p) m e in
              let taken = take (length (c ∷ p) - length m) (c ∷ p) in
              let behind = substitute (t ∷ ts) value zero (drop (suc (length ts)) m) in
              let (fits, joined) = appended_twice n dst taken value behind h in
              rw (room, replace_from, e, eq)
                (replace_from-substitute fuel n _ (drop (suc (length ts)) m) fits
                    (omega (arith, length-drop {0} (suc (length ts)) m))
                  ∙ joined)
        ]
      ]

  -- In an array of `n + 1` bytes, `replace_token` leaves the first `n` bytes of the template with
  -- every occurrence of a token that is not empty, from the left, replaced by the value, and its
  -- rounds are enough.
  pub replace_token-substitute :
      (n : ℕ) (src : Bytes)
      → replace_token (suc n) src (t ∷ ts) value ≡ take n (substitute (t ∷ ts) value zero src)
  unfolding replace_token
  replace_token-substitute n src =
      replace_from-substitute (suc (length src)) n [] src (omega arith) (omega arith)
