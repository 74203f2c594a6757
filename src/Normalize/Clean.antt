-- ===== src/Normalize/Clean.antt =====
-- Paths that `n_pcount` (normalize.c) leaves as they are, and their components.
use ashttpd.Prelude.{
  ℕ, ◌≡◌, ◌≢◌, refl, ap, List, [], ◌∷◌, Bool, true, false, ◌&&◌, arith, ◌==◌, Bool-cases, inl, inr,
  All,
}
use ashttpd.Normalize.{to_slash, n_pcount, split_path}

-- No backslash, and no slash behind a slash; `prev` says that one stands before the string.
abbrev pub IsClean : Bool → List ℕ → Type 0
IsClean prev [] = Unit
IsClean prev (c ∷ cs) = (c ≢ 92) × (((c == 47) && prev) ≡ false) × IsClean (c == 47) cs

to_slash-ne : (b : ℕ) → to_slash b ≢ 92
unfolding to_slash
to_slash-ne b h = ground arith

to_slash-same : (b : ℕ) → b ≢ 92 → to_slash b ≡ b
unfolding to_slash
to_slash-same b h = ground arith

pub n_pcount-IsClean : (prev : Bool) (s : List ℕ) → IsClean prev (n_pcount prev s)
unfolding n_pcount
n_pcount-IsClean prev [] = tt
n_pcount-IsClean prev (b ∷ bs) = elim (Bool-cases ((to_slash b == 47) && prev)) [
  | inl skip ↦
      let again : prev ≡ (to_slash b == 47) = ground arith in
      rw skip (rw again (n_pcount-IsClean (to_slash b == 47) bs))
  | inr copy ↦ rw copy (to_slash-ne b, copy, n_pcount-IsClean (to_slash b == 47) bs)
]

-- A clean string is left as it is.
pub n_pcount-clean : (prev : Bool) (s : List ℕ) → IsClean prev s → n_pcount prev s ≡ s
unfolding n_pcount
n_pcount-clean prev [] h = refl
n_pcount-clean prev (c ∷ cs) h =
    rw (to_slash-same c h.0, h.1) (ap (λ t. c ∷ t) (n_pcount-clean (c == 47) cs h.2))

-- Every component but the last is not empty.
abbrev pub InitFull : List (List ℕ) → Type 0
InitFull [] = Unit
InitFull (c ∷ []) = Unit
InitFull (c ∷ d ∷ cs) = (c ≢ []) × InitFull (d ∷ cs)

abbrev pub NoBackslash : List ℕ → Type 0
NoBackslash c = All (λ x. x ≢ 92) c

-- The parts of a clean string. `prev` again says that a slash stands before it.
pub record CleanParts (prev : Bool) (parts : List ℕ × List (List ℕ)) : Type 0 where
  pub front : NoBackslash parts.0
  pub rest : All NoBackslash parts.1
  pub full : InitFull parts.1
  behind : prev ≡ true → parts.1 ≢ [] → parts.0 ≢ []

pub InitFull-cons :
    (f : List ℕ) (cs : List (List ℕ)) → (cs ≢ [] → f ≢ []) → InitFull cs → InitFull (f ∷ cs)
InitFull-cons f [] h g = tt
InitFull-cons f (c ∷ cs) h g = (h (λ e. cc), g)

pub split_path-clean : (prev : Bool) (s : List ℕ) → IsClean prev s → CleanParts prev (split_path s)
unfolding split_path
split_path-clean prev [] h = record {
  front = tt;
  rest = tt;
  full = tt;
  behind = λ p ne. absurd (ne refl);
}
split_path-clean prev (c ∷ cs) h =
    let ih = split_path-clean (c == 47) cs h.2 in
    elim (Bool-cases (c == 47)) [
      | inl slash ↦ rw slash (record {
        front = tt;
        rest = (ih.front, ih.rest);
        full = InitFull-cons (split_path cs).0 (split_path cs).1 (ih.behind slash) ih.full;
        behind = λ p ne. absurd (ground arith);
      })
      | inr other ↦ rw other (record {
        front = (h.0, ih.front);
        rest = ih.rest;
        full = ih.full;
        behind = λ p ne e. cc;
      })
    ]
