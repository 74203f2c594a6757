-- ===== src/Normalize/Idempotent.antt =====
-- Normalising a path that `n_path` (normalize.c) has normalised changes nothing.
use mathlib.Core.List.{reverse_aux}
use mathlib.Core.Path.{subst}
use ashttpd.Prelude.{
  ℕ, ◌≡◌, ◌≢◌, refl, sym, ap, ◌∙◌, ◌⊎◌, List, [], ◌∷◌, ◌++◌, reverse, some, Bool, true, false,
  arith, ◌==◌, Bool-cases, inl, inr, All,
}
use ashttpd.Normalize.{ok, n_pcount, is_dot, is_dotdot, strip, join, n_path}
use ashttpd.Normalize.Path.{
  components, IsPlain, NoSlash, strip-All, split_path-NoSlash, split_path-rebuilt, All-snd,
  at_least_root, n_path-inv, n_path-of,
}
use ashttpd.Normalize.Clean.{
  IsClean, n_pcount-IsClean, n_pcount-clean, InitFull, NoBackslash, InitFull-cons, split_path-clean,
}

abbrev Full : List ℕ → Type 0
Full c = c ≢ []

InitFull-reverse_aux :
    (xs ys : List (List ℕ)) → All Full xs → InitFull ys → InitFull (reverse_aux xs ys)
InitFull-reverse_aux [] ys h g = g
InitFull-reverse_aux (x ∷ xs) ys h g =
    InitFull-reverse_aux xs (x ∷ ys) h.1 (InitFull-cons x ys (λ _. h.0) g)

-- One round of the stripping loop: the component is skipped, takes one away, or is kept.
strip-cases :
    (kept : List (List ℕ)) (c : List ℕ) (cs r : List (List ℕ))
    → strip kept (c ∷ cs) ≡ some r
    → (strip kept cs ≡ some r)
      ⊎ ((k : List ℕ) × (ks : List (List ℕ)) × (kept ≡ k ∷ ks) × (strip ks cs ≡ some r))
      ⊎ (strip (c ∷ kept) cs ≡ some r)
unfolding strip
strip-cases [] c cs r e = elim (Bool-cases (is_dot c)) [
  | inl dot ↦ inl (ground arith)
  | inr word ↦ elim (Bool-cases (is_dotdot c)) [
    | inl up ↦ absurd (ground arith)
    | inr name ↦ inr (inr (ground arith))
  ]
]
strip-cases (k ∷ ks) c cs r e = elim (Bool-cases (is_dot c)) [
  | inl dot ↦ inl (ground arith)
  | inr word ↦ elim (Bool-cases (is_dotdot c)) [
    | inl up ↦ inr (inl (k, ks, refl, ground arith))
    | inr name ↦ inr (inr (ground arith))
  ]
]

-- The last component read may be empty, and is then the last one kept.
strip-last :
    (kept : List (List ℕ)) (r : List (List ℕ)) → All Full kept → strip kept [] ≡ some r → InitFull r
unfolding strip
strip-last kept r h e =
    let last : reverse kept ≡ r = cc in subst InitFull last (InitFull-reverse_aux kept [] h tt)

strip-last_kept :
    (kept : List (List ℕ)) (c : List ℕ) (r : List (List ℕ))
    → All Full kept
    → strip (c ∷ kept) [] ≡ some r
    → InitFull r
unfolding strip
strip-last_kept kept c r h e =
    let last : reverse (c ∷ kept) ≡ r = cc in
    subst InitFull last (InitFull-reverse_aux kept (c ∷ []) h tt)

strip-InitFull :
    (kept cs r : List (List ℕ)) → All Full kept → InitFull cs → strip kept cs ≡ some r → InitFull r
strip-InitFull kept [] r h g e = strip-last kept r h e
strip-InitFull kept (c ∷ []) r h g e = elim (strip-cases kept c [] r e) [
  | inl skip ↦ strip-last kept r h skip
  | inr (inl (k, ks, shape, up)) ↦ strip-last ks r (subst (All Full) shape h).1 up
  | inr (inr keep) ↦ strip-last_kept kept c r h keep
]
strip-InitFull kept (c ∷ d ∷ cs) r h g e = elim (strip-cases kept c (d ∷ cs) r e) [
  | inl skip ↦ strip-InitFull kept (d ∷ cs) r h g.1 skip
  | inr (inl (k, ks, shape, up)) ↦ strip-InitFull ks (d ∷ cs) r (subst (All Full) shape h).1 g.1 up
  | inr (inr keep) ↦ strip-InitFull (c ∷ kept) (d ∷ cs) r (g.0, h) g.1 keep
]

-- Plain components are all kept.
strip-plain :
    (kept cs : List (List ℕ)) → All IsPlain cs → strip kept cs ≡ some (reverse_aux kept cs)
unfolding strip
strip-plain kept [] h = refl
strip-plain [] (c ∷ cs) h = rw (h.0.0, h.0.1) (strip-plain (c ∷ []) cs h.1)
strip-plain (k ∷ kept) (c ∷ cs) h = rw (h.0.0, h.0.1) (strip-plain (c ∷ k ∷ kept) cs h.1)

word-IsClean : (prev : Bool) (c : List ℕ) → NoSlash c → NoBackslash c → IsClean prev c
word-IsClean prev [] h g = tt
word-IsClean prev (x ∷ c) h g = (g.0, ground arith, word-IsClean (x == 47) c h.1 g.1)

word-slash-IsClean :
    (c rest : List ℕ)
    → NoSlash c
    → NoBackslash c
    → IsClean true rest
    → IsClean false (c ++ 47 ∷ rest)
word-slash-IsClean [] rest h g k = (omega arith, refl, k)
word-slash-IsClean (x ∷ c) rest h g k =
    let low : (x == 47) ≡ false = ground arith in
    (g.0, ground arith, rw low (word-slash-IsClean c rest h.1 g.1 k))

join-IsClean :
    (cs : List (List ℕ))
    → All NoSlash cs
    → All NoBackslash cs
    → InitFull cs
    → IsClean true (join cs)
unfolding join
join-IsClean [] h g k = tt
join-IsClean (c ∷ []) h g k = word-IsClean true c h.0 g.0
join-IsClean ([] ∷ d ∷ cs) h g k = absurd (k.0 refl)
join-IsClean ((x ∷ c) ∷ d ∷ cs) h g k =
    let low : (x == 47) ≡ false = ground arith in
    (
      g.0.0,
      ground arith,
      rw low (word-slash-IsClean c (join (d ∷ cs)) h.0.1 g.0.1 (join-IsClean (d ∷ cs) h.1 g.1 k.1)),
    )

-- What `n_path` rebuilds is clean.
kept_parts :
    (buf : List ℕ) (kept : List (List ℕ))
    → strip [] (components (n_pcount false buf)) ≡ some kept
    → All NoSlash kept × All NoBackslash kept × All IsPlain kept × InitFull kept
kept_parts buf kept e =
    let s = n_pcount false buf in
    let parts = split_path-clean false s (n_pcount-IsClean false buf) in
    let (slash, plain) =
      All-snd NoSlash IsPlain kept
        (strip-All NoSlash [] (components s) kept tt (split_path-NoSlash s).1 e) in
    let (back, _) =
      All-snd NoBackslash IsPlain kept
        (strip-All NoBackslash [] (components s) kept tt parts.rest e) in
    (slash, back, plain, strip-InitFull [] (components s) kept tt parts.full e)

root-strip :
    (cs : List (List ℕ)) → All IsPlain cs → strip [] (at_least_root cs) ≡ some (at_least_root cs)
unfolding is_dot is_dotdot
root-strip [] h = strip-plain [] ([] ∷ []) ((refl, refl), tt)
root-strip (c ∷ cs) h = strip-plain [] (c ∷ cs) h

root-join : (cs : List (List ℕ)) → join (at_least_root cs) ≡ join cs
unfolding join
root-join [] = refl
root-join (c ∷ cs) = refl

n_path-rebuilt :
    (kept : List (List ℕ))
    → All NoSlash kept × All NoBackslash kept × All IsPlain kept × InitFull kept
    → n_path (47 ∷ join kept) ≡ ok (47 ∷ join kept)
n_path-rebuilt kept (slash, back, plain, full) =
    let clean : IsClean false (47 ∷ join kept) =
      (omega arith, refl, join-IsClean kept slash back full) in
    let same = n_pcount-clean false (47 ∷ join kept) clean in
    let parts = split_path-rebuilt kept slash in
    n_path-of (47 ∷ join kept) (at_least_root kept) (
      ap (λ s. strip [] (components s)) same
      ∙ ap (λ (p : List ℕ × List (List ℕ)). strip [] p.1) parts
      ∙ root-strip kept plain)
    ∙ ap (λ t. ok (47 ∷ t)) (root-join kept)

-- A path that `n_path` has normalised is normalised to itself.
pub n_path_idem : (buf r : List ℕ) → n_path buf ≡ ok r → n_path r ≡ ok r
n_path_idem buf r h =
    let (kept, e, shape) = n_path-inv buf r h in
    subst (λ t. n_path t ≡ ok t) (sym shape) (n_path-rebuilt kept (kept_parts buf kept e))
