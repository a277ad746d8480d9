-- ===== src/Ofono/Resolve/Best.antt =====
-- Which path the loop of `ofono_resolve_modem_path` in src/ofono.c chooses.
use cellmgr.Base.{
  ℕ, ◌≤◌, ◌<◌, List, [], ◌∷◌, ◌++◌, Option, none, some, ◌≡◌, refl, sym, ap, ◌∙◌, inl, inr, arith,
  ltb, ltb→lt, if◌then◌else◌, Bool-cases, Bytes, All, All-append, append_assoc, append-nil, subst,
}
use cellmgr.Libc.Occurrences.{occurrences}
use cellmgr.Libc.Text.{truncate}
use cellmgr.Ofono.Resolve.{object_path, candidate, is_better, take_candidate, pick, choose_path}

-- The paths that the loop considers, with their scores.
abbrev pub listed_of : Option (Bytes × ℕ) → List (Bytes × ℕ)
listed_of none = []
listed_of (some (path, score)) = (truncate 128 path, score) ∷ []

abbrev pub found : List Bytes → List (Bytes × ℕ)
found [] = []
found (p ∷ ps) = listed_of (candidate p) ++ found ps

-- The first of the greatest scores, with what stands before and behind it.
pub record IsFirstBest (b : Bytes × ℕ) (listed : List (Bytes × ℕ)) : Type 0 where
  pub before : List (Bytes × ℕ)
  pub after : List (Bytes × ℕ)
  pub splits : listed ≡ before ++ b ∷ after
  pub less : All (λ c. c.1 < b.1) before
  pub no_greater : All (λ c. c.1 ≤ b.1) after

-- The choice among the paths listed: none only if there is none.
abbrev pub Best : Option (Bytes × ℕ) → List (Bytes × ℕ) → Type 0
Best none listed = listed ≡ []
Best (some b) listed = IsFirstBest b listed

All-less :
    (n m : ℕ) (listed : List (Bytes × ℕ))
    → n < m
    → All (λ c. c.1 ≤ n) listed
    → All (λ c. c.1 < m) listed
All-less n m [] h a = tt
All-less n m (c ∷ listed) h a = (omega arith, All-less n m listed h a.1)

weaken :
    (n m : ℕ) (listed : List (Bytes × ℕ))
    → n < m
    → All (λ c. c.1 < n) listed
    → All (λ c. c.1 < m) listed
weaken n m [] h a = tt
weaken n m (c ∷ listed) h a = (omega arith, weaken n m listed h a.1)

Best-next :
    (best : Option (Bytes × ℕ)) (listed : List (Bytes × ℕ)) (c : Bytes × ℕ)
    → Best best listed
    → Best (if is_better c.1 best then some c else best) (listed ++ c ∷ [])
Best-next none listed c h = record {
  before = [];
  after = [];
  splits = ap (λ l. l ++ c ∷ []) h;
  less = tt;
  no_greater = tt;
}
Best-next (some b) listed c h = elim (Bool-cases (ltb b.1 c.1)) [
  | inl e ↦
      let lt : b.1 < c.1 = ltb→lt b.1 c.1 e in
      rw e (record {
        before = listed;
        after = [];
        splits = refl;
        less = rw h.splits (
            All-append _ h.before (b ∷ h.after) (weaken b.1 c.1 h.before lt h.less)
              (lt, All-less b.1 c.1 h.after lt h.no_greater));
        no_greater = tt;
      })
  | inr e ↦ rw e (record {
    before = h.before;
    after = h.after ++ c ∷ [];
    splits = ap (λ l. l ++ c ∷ []) h.splits ∙ append_assoc h.before (b ∷ h.after) (c ∷ []);
    less = h.less;
    no_greater = All-append _ h.after (c ∷ []) h.no_greater (ground arith, tt);
  })
]

Best-candidate :
    (best c : Option (Bytes × ℕ)) (listed : List (Bytes × ℕ))
    → Best best listed
    → Best (take_candidate best c) (listed ++ listed_of c)
Best-candidate best none listed h = subst (Best best) (sym (append-nil listed)) h
Best-candidate best (some (path, score)) listed h =
    Best-next best listed (truncate 128 path, score) h

pick-Best :
    (best : Option (Bytes × ℕ)) (ps : List Bytes) (listed : List (Bytes × ℕ))
    → Best best listed
    → Best (pick best ps) (listed ++ found ps)
unfolding pick
pick-Best best [] listed h = subst (Best best) (sym (append-nil listed)) h
pick-Best best (p ∷ ps) listed h =
    subst (Best (pick best (p ∷ ps))) (append_assoc listed (listed_of (candidate p)) (found ps)) (
      pick-Best (take_candidate best (candidate p)) ps (listed ++ listed_of (candidate p))
        (Best-candidate best (candidate p) listed h))

-- `choose_path` takes the first path of the greatest score among those listed, and finds none only
-- if none is listed.
pub choose_path-Best :
    (out : Bytes) → Best (choose_path out) (found (occurrences 11 object_path out))
choose_path-Best out = unfold choose_path in pick-Best none (occurrences 11 object_path out) [] refl
