-- ===== src/Trie/Sound.antt =====
-- The trie that trie.c builds spells nothing but the strings that it is built of.
use mathlib.Core.Path.{ap₂, subst}
use mathlib.Core.Option.{some_inj}
use ashttpd.Prelude.{
  All-zip, All-always, All-split, ℕ, zero, suc, ◌+◌, ◌≤◌, ◌≡◌, refl, sym, ◌∙◌, ◌⊎◌, inl, inr, List,
  [], ◌∷◌, ◌++◌, Option, none, some, ◌==◌, length, take, drop, All, Bool-cases, ==→eq, length-drop,
  drop-drop, take-append-drop, arith,
}
use ashttpd.Trie.{
  TrieEntry, TrieEdges, no_edges, edge, Group, first_group, do_radix, radix_fuel, construct_radix,
}
use ashttpd.Trie.Groups.{Shares, IsFirst, first_group-IsFirst}
use ashttpd.Trie.Spells.{Spelled, ends, goes, skips, Reaches, take_all}

-- One of the entries has this string from the offset on, and this object.
abbrev pub Listed : List TrieEntry → (ofs : ℕ) → (str : List ℕ) → (o : ℕ) → Type 0
Listed [] ofs str o = ⊥
Listed (t ∷ ts) ofs str o = ((drop ofs t.t_str ≡ str) × (t.t_oid ≡ o)) ⊎ Listed ts ofs str o

Listed-left :
    (xs ys : List TrieEntry) (ofs : ℕ) (str : List ℕ) (o : ℕ)
    → Listed xs ofs str o
    → Listed (xs ++ ys) ofs str o
Listed-left [] ys ofs str o h = elim h [ ]
Listed-left (x ∷ xs) ys ofs str o (inl h) = inl h
Listed-left (x ∷ xs) ys ofs str o (inr h) = inr (Listed-left xs ys ofs str o h)

Listed-right :
    (xs ys : List TrieEntry) (ofs : ℕ) (str : List ℕ) (o : ℕ)
    → Listed ys ofs str o
    → Listed (xs ++ ys) ofs str o
Listed-right [] ys ofs str o h = h
Listed-right (x ∷ xs) ys ofs str o h = inr (Listed-right xs ys ofs str o h)

-- The strings that share a text, from before the text on.
Listed-Shares :
    (v : List ℕ) (ofs len : ℕ) (ts : List TrieEntry) (str : List ℕ) (o : ℕ)
    → All (Shares v ofs len) ts
    → Listed ts (ofs + len) str o
    → Listed ts ofs (take len (drop ofs v) ++ str) o
Listed-Shares v ofs len [] str o _ h = elim h [ ]
Listed-Shares v ofs len (t ∷ ts) str o (s, ss) (inl (e, same)) = inl (
  sym (take-append-drop len (drop ofs t.t_str))
      ∙ ap₂ (λ a b. a ++ b) (sym s.0) (sym (drop-drop ofs len t.t_str) ∙ e),
  same,
)
Listed-Shares v ofs len (t ∷ ts) str o (s, ss) (inr h) = inr (Listed-Shares v ofs len ts str o ss h)

no_edges-spells : (str : List ℕ) (o : ℕ) → Spelled no_edges str o → ⊥
no_edges-spells str o s = elim s [ ]

-- How a string is spelled from an edge on.
edge-spells :
    (cmp : List ℕ) (t : Option ℕ) (under siblings : TrieEdges) (str : List ℕ) (o : ℕ)
    (P : List ℕ → ℕ → Type 0)
    → ((x : ℕ) → t ≡ some x → P cmp x)
    → ((rest : List ℕ) (x : ℕ) → Spelled under rest x → P (cmp ++ rest) x)
    → ((rest : List ℕ) (x : ℕ) → Spelled siblings rest x → P rest x)
    → Spelled (edge cmp t under siblings) str o
    → P str o
edge-spells cmp t under siblings str o P f g h ends = f _ refl
edge-spells cmp t under siblings str o P f g h (goes s) = g _ o s
edge-spells cmp t under siblings str o P f g h (skips s) = h str o s

-- The first string and those of its group are among all.
group-Listed :
    (w : List ℕ) (ofs : ℕ) (vs : List TrieEntry) (g : Group)
    → IsFirst w ofs vs g
    → (v : TrieEntry) (str : List ℕ) (o : ℕ) → Listed (v ∷ g.others) ofs str o
    → Listed (v ∷ vs) ofs str o
group-Listed w ofs vs g first v str o (inl h) = inl h
group-Listed w ofs vs g first v str o (inr h) =
    inr (
      subst (λ ts. Listed ts ofs str o) (sym first.parts) (Listed-left g.others g.left ofs str o h))

do_radix-Listed :
    (f : ℕ) (vs : List TrieEntry) (ofs : ℕ) (str : List ℕ) (o : ℕ)
    → Reaches ofs vs
    → Spelled (do_radix f vs ofs) str o
    → Listed vs ofs str o
unfolding do_radix
do_radix-Listed zero vs ofs str o r s = absurd (no_edges-spells str o s)
do_radix-Listed (suc f) [] ofs str o r s = no_edges-spells str o s
do_radix-Listed (suc f) (v ∷ vs) ofs str o (r_v, r) s =
    let text = v.t_str in
    let g = first_group text ofs vs in
    let first = first_group-IsFirst text ofs vs r_v in
    let cmp = take g.len (drop ofs text) in
    let siblings = do_radix f g.left ofs in
    let behind = do_radix f g.others (ofs + g.len) in
    let all = do_radix f (v ∷ g.others) (ofs + g.len) in
    let (r_others, r_left) =
      All-split (λ t. ofs ≤ length t.t_str) g.others g.left (subst (Reaches ofs) first.parts r) in
    let reach : Reaches (ofs + g.len) g.others =
      All-zip (Shares text ofs g.len) (λ t. ofs ≤ length t.t_str)
        (λ t. ofs + g.len ≤ length t.t_str) g.others (λ x s _. s.1) first.shared r_others in
    let P : List ℕ → ℕ → Type 0 = Listed (v ∷ vs) ofs in
    let join : (k : List ℕ) (x : ℕ) → Listed (g.others ++ g.left) ofs k x → Listed vs ofs k x =
      λ k x. subst (λ ts. Listed ts ofs k x) (sym first.parts) in
    let skipped : (rest : List ℕ) (x : ℕ) → Spelled siblings rest x → P rest x = λ rest x s. inr (
      join rest x
        (Listed-right g.others g.left ofs rest x (do_radix-Listed f g.left ofs rest x r_left s))) in
    elim (Bool-cases (ofs + g.len == length text)) [
      | inl whole ↦
          let e : do_radix (suc f) (v ∷ vs) ofs ≡ edge cmp (some v.t_oid) behind siblings =
            rw (do_radix, whole) refl in
          let here : drop ofs text ≡ cmp = sym (
            take_all g.len (drop ofs text)
              (omega (arith, length-drop ofs text, ==→eq (ofs + g.len) (length text) whole))) in
          edge-spells cmp (some v.t_oid) behind siblings str o P
            (λ x same. inl (here, some_inj.0 same))
            (λ rest x s. inr (
              join (cmp ++ rest) x (
                Listed-left g.others g.left ofs (cmp ++ rest) x (
                  Listed-Shares text ofs g.len g.others rest x first.shared
                    (do_radix-Listed f g.others (ofs + g.len) rest x reach s)))))
            skipped (subst (λ E. Spelled E str o) e s)
      | inr part ↦
          let e : do_radix (suc f) (v ∷ vs) ofs ≡ edge cmp none all siblings =
            rw (do_radix, part) refl in
          edge-spells cmp none all siblings str o P (λ x same. absurd (cc same))
            (λ rest x s. group-Listed text ofs vs g first v (cmp ++ rest) x (
              Listed-Shares text ofs g.len (v ∷ g.others) rest x
                ((refl, first.inside), first.shared)
                (do_radix-Listed f (v ∷ g.others) (ofs + g.len) rest x (first.inside, reach) s)))
            skipped (subst (λ E. Spelled E str o) e s)
    ]

-- Whatever the trie that `construct_radix` makes spells is one of the strings that it is given, with the
-- string's object.
pub construct_radix-Listed :
    (ent : List TrieEntry) (str : List ℕ) (o : ℕ)
    → Spelled (construct_radix ent) str o
    → Listed ent 0 str o
unfolding construct_radix
construct_radix-Listed ent str o s =
    edge-spells [] none (do_radix (suc (radix_fuel ent 0)) ent 0) no_edges str o (Listed ent 0)
      (λ x same. absurd (cc same))
      (λ rest x under.
        do_radix-Listed (suc (radix_fuel ent 0)) ent 0 rest x
          (All-always (λ t. 0 ≤ length t.t_str) ent (λ t. omega arith)) under)
      (λ rest x none_there. absurd (no_edges-spells rest x none_there)) s
