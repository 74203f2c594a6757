-- ===== src/Webroot/Edges.antt =====
-- The edges of a web root's index: what an index promises, what a path of edges spells, and the rounds of
-- the loop of `trie_query` in webroot.c.
use mathlib.Core.Path.{subst, ap₂}
use mathlib.Core.Option.{some_inj}
use ashttpd.Prelude.{
  leb, length-append, ℕ, zero, suc, ◌+◌, ◌-◌, ◌*◌, ◌/◌, ◌%◌, ◌^◌, ◌≤◌, ◌<◌, ◌≡◌, ◌≢◌, ◌⊎◌, inl, inr,
  refl, sym, ap, ◌∙◌, List, [], ◌∷◌, ◌++◌, some, true, false, arith, ltb, ◌==◌, Bool-cases, ==→eq,
  length, drop, get_elem?, All, ℤ, pos, sub_ℕ, is_zero, is_neg,
}
use ashttpd.Webroot.{TrieDedge, oid, gidx_invalid_oid, byte_diff, memcmp, trie_query}

-- The text of an edge has no NUL and no more than eight bytes, its number stands for an object or for none, and its children are
-- none, or stand behind it in the array.
pub record IsEdge (num_oid size at : ℕ) (e : TrieDedge) : Type 0 where
  pub no_nul : All (λ c. c ≢ 0) e.re_str
  pub short : length e.re_str ≤ 8
  pub known : (e.re_oid ≡ gidx_invalid_oid) ⊎ (e.re_oid < num_oid)
  pub few : e.re_num_edges < 256
  pub inside : e.re_edges_idx < size
  pub forward :
      (e.re_num_edges ≡ 0) ⊎ ((at < e.re_edges_idx) × (e.re_edges_idx + e.re_num_edges ≤ size))

-- All edges of an array that stands at `at` in an index of `size` edges.
abbrev pub AllEdges : (num_oid size at : ℕ) → List TrieDedge → Type 0
AllEdges num_oid size at [] = Unit
AllEdges num_oid size at (e ∷ es) = IsEdge num_oid size at e × AllEdges num_oid size (suc at) es

abbrev pub IsIndex : (num_oid : ℕ) → List TrieDedge → Type 0
IsIndex num_oid trie = AllEdges num_oid (length trie) 0 trie

-- The `n` edges from `p` on, and their children, spell the string for the object.
pub data Spells (trie : List TrieDedge) : (p n : ℕ) → List ℕ → ℕ → Type 0 where
  ends :
      {p n o : ℕ} {str : List ℕ} (i : ℕ) (e : TrieDedge)
      → i < n
      → get_elem? trie (p + i) ≡ some e
      → str ≡ e.re_str
      → o ≡ e.re_oid
      → Spells trie p n str o
  goes :
      {p n o : ℕ} {str : List ℕ} (i : ℕ) (e : TrieDedge) (rest : List ℕ)
      → i < n
      → get_elem? trie (p + i) ≡ some e
      → str ≡ e.re_str ++ rest
      → Spells trie e.re_edges_idx e.re_num_edges rest o
      → Spells trie p n str o

AllEdges-at :
    (m size at : ℕ) (es : List TrieDedge) (i : ℕ) (e : TrieDedge)
    → AllEdges m size at es
    → get_elem? es i ≡ some e
    → IsEdge m size (at + i) e
AllEdges-at m size at [] i e h g = ground arith
AllEdges-at m size at (x ∷ es) zero e h g =
    let z : at + 0 ≡ at = omega arith in rw z (subst (IsEdge m size at) (some_inj.0 g) h.0)
AllEdges-at m size at (x ∷ es) (suc i) e h g =
    let z : suc at + i ≡ at + suc i = omega arith in
    subst (λ t. IsEdge m size t e) z (AllEdges-at m size (suc at) es i e h.1 g)

pub IsIndex-at :
    (m : ℕ) (trie : List TrieDedge) (i : ℕ) (e : TrieDedge)
    → IsIndex m trie
    → get_elem? trie i ≡ some e
    → IsEdge m (length trie) i e
IsIndex-at m trie i e h g =
    let z : 0 + i ≡ i = omega arith in
    subst (λ t. IsEdge m (length trie) t e) z (AllEdges-at m (length trie) 0 trie i e h g)

-- A string with a NUL behind it, compared with a text that has none: the string begins with the text,
-- or they differ.
byte_diff-cases :
    (str after text : List ℕ)
    → All (λ c. c ≢ 0) text
    → (c : ℤ) × (byte_diff (str ++ 0 ∷ after) text ≡ c)
      × ((is_zero c ≡ false)
          ⊎ ((is_zero c ≡ true)
              × (is_neg c ≡ false)
              × (length text ≤ length str)
              × (str ≡ text ++ drop (length text) str)))
unfolding byte_diff
byte_diff-cases str after [] h = (pos 0, refl, inr (refl, refl, omega arith, refl))
byte_diff-cases [] after (t ∷ text) h =
    let differ : (0 == t) ≡ false = ground (arith, h.0) in
    (sub_ℕ 0 t, rw differ refl, inl (ground (arith, h.0)))
byte_diff-cases (s ∷ str) after (t ∷ text) h = elim (Bool-cases (s == t)) [
  | inl same ↦
      let (c, e, r) = byte_diff-cases str after text h.1 in
      (
        c,
        rw same e,
        elim r [
          | inl differ ↦ inl differ
          | inr (z, n, le, split) ↦ inr (z, n, omega arith, ap₂ ◌∷◌ (==→eq s t same) split)
        ],
      )
  | inr differ ↦ (sub_ℕ s t, rw differ refl, inl (ground (arith, differ)))
]

-- With seven bytes behind the NUL, a text of eight can be compared.
pub memcmp-readable :
    (str after text : List ℕ)
    → 7 ≤ length after
    → length text ≤ 8
    → memcmp (str ++ 0 ∷ after) text ≡ some (byte_diff (str ++ 0 ∷ after) text)
unfolding memcmp
memcmp-readable str after text room short =
    let fits : leb (length text) (length (str ++ 0 ∷ after)) ≡ true =
      ground (arith, room, short, length-append str (0 ∷ after)) in
    rw fits refl

pub memcmp-cases :
    (str after text : List ℕ)
    → All (λ c. c ≢ 0) text
    → 7 ≤ length after
    → length text ≤ 8
    → (c : ℤ) × (memcmp (str ++ 0 ∷ after) text ≡ some c)
      × ((is_zero c ≡ false)
          ⊎ ((is_zero c ≡ true)
              × (is_neg c ≡ false)
              × (length text ≤ length str)
              × (str ≡ text ++ drop (length text) str)))
memcmp-cases str after text h room short =
    let (c, e, cases) = byte_diff-cases str after text h in
    (c, memcmp-readable str after text room short ∙ ap some e, cases)

pub Spells-widen :
    {trie : List TrieDedge} {p n o : ℕ} {str : List ℕ} (m : ℕ)
    → n ≤ m
    → Spells trie p n str o
    → Spells trie p m str o
Spells-widen m le (ends i e lt g s o) = ends i e (omega arith) g s o
Spells-widen m le (goes i e rest lt g s d) = goes i e rest (omega arith) g s d

pub Spells-shift :
    {trie : List TrieDedge} {n o : ℕ} {str : List ℕ} (p k m : ℕ)
    → k + n ≤ m
    → Spells trie (p + k) n str o
    → Spells trie p m str o
Spells-shift {trie} p k m le (ends i e lt g s o) =
    let z : p + k + i ≡ p + (k + i) = omega arith in
    ends (k + i) e (omega arith) (sym (ap (get_elem? trie) z) ∙ g) s o
Spells-shift {trie} p k m le (goes i e rest lt g s d) =
    let z : p + k + i ≡ p + (k + i) = omega arith in
    goes (k + i) e rest (omega arith) (sym (ap (get_elem? trie) z) ∙ g) s d

abbrev pub Enough : (size p n fuel : ℕ) → Type 0
Enough size p n fuel =
    ((n ≡ 0) × (0 < fuel)) ⊎ ((p + n ≤ size) × (n < 256) × ((size - p) * 257 + n < fuel))

-- The children of an edge, with the fuel that is left.
pub IsEdge-Enough :
    (m size at p n f : ℕ) (e : TrieDedge)
    → IsEdge m size at e
    → p ≤ at
    → (size - p) * 257 + n < suc f
    → at < size
    → Enough size e.re_edges_idx e.re_num_edges f
IsEdge-Enough m size at p n f e edge le fuel lt = elim edge.forward [
  | inl leaf ↦ inl (leaf, omega arith)
  | inr (ahead, fits) ↦ inr (fits, edge.few, omega (arith, edge.inside))
]

-- A round of the loop, by the outcome of its comparison.
pub trie_query-left :
    (f n len : ℕ) (trie re : List TrieDedge) (mem : List ℕ) (e : TrieDedge) (c : ℤ)
    → get_elem? re (suc n / 2) ≡ some e
    → memcmp mem e.re_str ≡ some c
    → is_neg c ≡ true
    → trie_query (suc f) trie re (suc n) mem len ≡ trie_query f trie re (suc n / 2) mem len
unfolding trie_query
trie_query-left f n len trie re mem e c here found less = rw (trie_query, here, found, less) refl

pub trie_query-right :
    (f n len : ℕ) (trie re : List TrieDedge) (mem : List ℕ) (e : TrieDedge) (c : ℤ)
    → get_elem? re (suc n / 2) ≡ some e
    → memcmp mem e.re_str ≡ some c
    → is_neg c ≡ false
    → is_zero c ≡ false
    → trie_query (suc f) trie re (suc n) mem len
      ≡ trie_query f trie (drop (suc n / 2 + 1) re) (suc n - (suc n / 2 + 1)) mem len
unfolding trie_query
trie_query-right f n len trie re mem e c here found more differ =
    rw (trie_query, here, found, more, differ) refl

module _ (f n len : ℕ) (trie re : List TrieDedge) (mem : List ℕ) (e : TrieDedge) (c : ℤ)
    (here : get_elem? re (suc n / 2) ≡ some e) (found : memcmp mem e.re_str ≡ some c)
    (more : is_neg c ≡ false) (same : is_zero c ≡ true) (suff : ℕ)
    (cut : (len + 2 ^ 64 - length e.re_str) % 2 ^ 64 ≡ suff) where
  pub trie_query-whole :
      (suff == 0) ≡ true → trie_query (suc f) trie re (suc n) mem len ≡ oid e.re_oid
  unfolding trie_query
  trie_query-whole all = rw (trie_query, here, found, more, same, cut, all) refl

  pub trie_query-down :
      (suff == 0) ≡ false
      → ltb e.re_edges_idx (length trie) ≡ true
      → trie_query (suc f) trie re (suc n) mem len
        ≡ trie_query f trie
            (drop e.re_edges_idx trie)
            e.re_num_edges
            (drop (length e.re_str) mem)
            suff
  unfolding trie_query
  trie_query-down part inside = rw (trie_query, here, found, more, same, cut, part, inside) refl
