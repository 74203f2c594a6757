-- ===== src/Normalize/Path.antt =====
-- What `n_path` (normalize.c) lets through: an absolute path without "." and "..".
use mathlib.Core.List.{reverse_aux}
use mathlib.Core.Path.{subst}
use ashttpd.Prelude.{
  ℕ, ◌≡◌, ◌≢◌, refl, sym, ap, ◌∙◌, List, [], ◌∷◌, ◌++◌, reverse, some, false, arith, ◌==◌,
  Bool-cases, inl, inr, All,
}
use ashttpd.Normalize.{ok, n_pcount, split_path, is_dot, is_dotdot, strip, join, n_path}

-- The components of a path: the text behind each slash.
abbrev pub components : List ℕ → List (List ℕ)
components s = (split_path s).1

abbrev pub IsPlain : List ℕ → Type 0
IsPlain c = (is_dot c ≡ false) × (is_dotdot c ≡ false)

abbrev pub NoSlash : List ℕ → Type 0
NoSlash c = All (λ x. x ≢ 47) c

module _ (P : List ℕ → Type 0) where
  -- What a component that is kept satisfies.
  abbrev Kept : List ℕ → Type 0
  Kept c = P c × IsPlain c

  All-reverse_aux :
      (xs ys : List (List ℕ)) → All Kept xs → All Kept ys → All Kept (reverse_aux xs ys)
  All-reverse_aux [] ys h g = g
  All-reverse_aux (x ∷ xs) ys h g = All-reverse_aux xs (x ∷ ys) h.1 (h.0, g)

  -- What holds of every component read holds of every component kept, and none of those is "." or
  -- "..".
  pub strip-All :
      (kept cs r : List (List ℕ)) → All Kept kept → All P cs → strip kept cs ≡ some r → All Kept r
  unfolding strip
  strip-All kept [] r h g e =
      let last : reverse kept ≡ r = cc in subst (All Kept) last (All-reverse_aux kept [] h tt)
  strip-All [] (c ∷ cs) r h g e = elim (Bool-cases (is_dot c)) [
    | inl dot ↦ strip-All [] cs r h g.1 (ground arith)
    | inr word ↦ elim (Bool-cases (is_dotdot c)) [
      | inl up ↦ absurd (ground arith)
      | inr name ↦ strip-All (c ∷ []) cs r ((g.0, (word, name)), tt) g.1 (ground arith)
    ]
  ]
  strip-All (k ∷ kept) (c ∷ cs) r h g e = elim (Bool-cases (is_dot c)) [
    | inl dot ↦ strip-All (k ∷ kept) cs r h g.1 (ground arith)
    | inr word ↦ elim (Bool-cases (is_dotdot c)) [
      | inl up ↦ strip-All kept cs r h.1 g.1 (ground arith)
      | inr name ↦ strip-All (c ∷ k ∷ kept) cs r ((g.0, (word, name)), h) g.1 (ground arith)
    ]
  ]

pub split_path-NoSlash : (s : List ℕ) → NoSlash (split_path s).0 × All NoSlash (split_path s).1
unfolding split_path
split_path-NoSlash [] = (tt, tt)
split_path-NoSlash (c ∷ cs) =
    let (front, rest) = split_path-NoSlash cs in
    elim (Bool-cases (c == 47)) [
      | inl slash ↦ rw (slash) (tt, (front, rest))
      | inr other ↦ rw (other) ((ground arith, front), rest)
    ]

split_path-append :
    (c rest : List ℕ)
    → NoSlash c
    → split_path (c ++ 47 ∷ rest) ≡ (c, (split_path rest).0 ∷ (split_path rest).1)
unfolding split_path
split_path-append [] rest h = refl
split_path-append (x ∷ c) rest h = ground (arith, split_path-append c rest h.1)

split_path-whole : (c : List ℕ) → NoSlash c → split_path c ≡ (c, [])
unfolding split_path
split_path-whole [] h = refl
split_path-whole (x ∷ c) h = ground (arith, split_path-whole c h.1)

pub split_path-join :
    (c : List ℕ) (cs : List (List ℕ)) → All NoSlash (c ∷ cs) → split_path (join (c ∷ cs)) ≡ (c, cs)
unfolding join
split_path-join c [] h = split_path-whole c h.0
split_path-join c (d ∷ cs) h =
    split_path-append c (join (d ∷ cs)) h.0 ∙ rw (split_path-join d cs h.1)

-- The path of no components reads as the one of a single empty component.
abbrev pub at_least_root : List (List ℕ) → List (List ℕ)
at_least_root [] = [] ∷ []
at_least_root (c ∷ cs) = c ∷ cs

pub split_path-rebuilt :
    (cs : List (List ℕ)) → All NoSlash cs → split_path (47 ∷ join cs) ≡ ([], at_least_root cs)
unfolding split_path join
split_path-rebuilt [] h = refl
split_path-rebuilt (c ∷ cs) h = rw (split_path-join c cs h)

root-IsPlain : (cs : List (List ℕ)) → All IsPlain cs → All IsPlain (at_least_root cs)
unfolding is_dot is_dotdot
root-IsPlain [] h = ((refl, refl), tt)
root-IsPlain (c ∷ cs) h = h

pub All-snd :
    (P Q : List ℕ → Type 0) (cs : List (List ℕ)) → All (λ c. P c × Q c) cs → All P cs × All Q cs
All-snd P Q [] h = (tt, tt)
All-snd P Q (c ∷ cs) h = let (p, q) = All-snd P Q cs h.1 in ((h.0.0, p), (h.0.1, q))

pub n_path-of :
    (buf : List ℕ) (kept : List (List ℕ))
    → strip [] (components (n_pcount false buf)) ≡ some kept
    → n_path buf ≡ ok (47 ∷ join kept)
unfolding n_path
n_path-of buf kept h = ground arith

-- How a success of `n_path` came about.
pub n_path-inv :
    (buf r : List ℕ)
    → n_path buf ≡ ok r
    → (kept : List (List ℕ)) × (strip [] (components (n_pcount false buf)) ≡ some kept)
      × (r ≡ 47 ∷ join kept)
unfolding n_path
n_path-inv buf r h = ground arith

-- An absolute path without "." and "..", taken apart.
abbrev pub IsSafe : List ℕ × List (List ℕ) → Type 0
IsSafe (front, cs) = (front ≡ []) × All IsPlain cs

-- A path that `n_path` accepts begins with a slash, and none of its components is "." or "..".
pub n_path-safe :
    (buf r : List ℕ) → n_path buf ≡ ok r → ((split_path r).0 ≡ []) × All IsPlain (components r)
n_path-safe buf r h =
    let (kept, e, shape) = n_path-inv buf r h in
    let all =
      strip-All NoSlash [] (components (n_pcount false buf)) kept tt
        (split_path-NoSlash (n_pcount false buf)).1 e in
    let (no_slash, plain) = All-snd NoSlash IsPlain kept all in
    let parts : split_path r ≡ ([], at_least_root kept) =
      ap split_path shape ∙ split_path-rebuilt kept no_slash in
    subst IsSafe (sym parts) (refl, root-IsPlain kept plain)
