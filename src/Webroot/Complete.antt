-- ===== src/Webroot/Complete.antt =====
-- `trie_query` of webroot.c finds every string that a path of edges spells, if siblings are in the order
-- of their first bytes and only the root may have an empty text.
use ashttpd.Prelude.{
  ℕ, zero, suc, ◌+◌, ◌-◌, ◌/◌, ◌%◌, ◌^◌, ◌≤◌, ◌<◌, ◌≡◌, ◌⊎◌, inl, inr, refl, sym, ap, ◌∙◌, List, [],
  ◌∷◌, ◌++◌, some, true, false, arith, ltb, ◌==◌, Bool-cases, length, drop, get_elem?,
  get_elem?-drop, get_elem?-some, drop-append_left, drop-drop, append-nil, ℤ, pos, sub_ℕ, is_zero,
  is_neg, length-append, append_assoc,
}
use ashttpd.Webroot.{TrieDedge, oid, byte_diff, memcmp, trie_query}
use ashttpd.Webroot.Edges.{
  IsEdge, IsIndex, Spells, ends, goes, Enough, IsIndex-at, memcmp-readable, IsEdge-Enough,
  trie_query-left, trie_query-right, trie_query-whole, trie_query-down,
}

-- The texts of two siblings, in their order.
abbrev pub Before : (xs ys : List ℕ) → Type 0
Before [] ys = Path ℕ 0 1
Before (x ∷ xs) [] = Path ℕ 0 1
Before (x ∷ xs) (y ∷ ys) = x < y

-- The `n` edges from `p` on are in the order of their first bytes.
abbrev pub IsOrdered : List TrieDedge → (p n : ℕ) → Type 0
IsOrdered trie p n =
    (i j : ℕ) (a b : TrieDedge)
    → i < j
    → j < n
    → get_elem? trie (p + i) ≡ some a
    → get_elem? trie (p + j) ≡ some b
    → Before a.re_str b.re_str

abbrev pub IsTrie : List TrieDedge → Type 0
IsTrie trie =
    ((i : ℕ) (e : TrieDedge)
      → get_elem? trie i ≡ some e
      → IsOrdered trie e.re_edges_idx e.re_num_edges)
    × ((i : ℕ) (e : TrieDedge) → get_elem? trie (suc i) ≡ some e → 0 < length e.re_str)

-- A text that was read is compared with a sibling's.
byte_diff-less :
    (xs ys rest : List ℕ)
    → Before xs ys
    → (c : ℤ) × (byte_diff (xs ++ rest) ys ≡ c) × (is_neg c ≡ true)
unfolding byte_diff
byte_diff-less [] ys rest h = ground (arith, h)
byte_diff-less (x ∷ xs) [] rest h = ground (arith, h)
byte_diff-less (x ∷ xs) (y ∷ ys) rest h =
    let differ : (x == y) ≡ false = ground (arith, h) in
    (sub_ℕ x y, rw differ refl, ground (arith, h))

byte_diff-more :
    (xs ys rest : List ℕ)
    → Before ys xs
    → (c : ℤ) × (byte_diff (xs ++ rest) ys ≡ c) × (is_neg c ≡ false) × (is_zero c ≡ false)
unfolding byte_diff
byte_diff-more [] [] rest h = ground (arith, h)
byte_diff-more [] (y ∷ ys) rest h = ground (arith, h)
byte_diff-more (x ∷ xs) [] rest h = ground (arith, h)
byte_diff-more (x ∷ xs) (y ∷ ys) rest h =
    let differ : (x == y) ≡ false = ground (arith, h) in
    (sub_ℕ x y, rw differ refl, ground (arith, h), ground (arith, h))

byte_diff-same : (xs rest : List ℕ) → byte_diff (xs ++ rest) xs ≡ pos 0
unfolding byte_diff
byte_diff-same [] rest = refl
byte_diff-same (x ∷ xs) rest =
    let e : (x == x) ≡ true = ground arith in rw e (byte_diff-same xs rest)

order : (i j : ℕ) → (i < j) ⊎ ((i ≡ j) ⊎ (j < i))
order i j = elim (Bool-cases (ltb i j)) [
  | inl y ↦ inl (ground (arith, y))
  | inr n ↦ elim (Bool-cases (ltb j i)) [
    | inl y ↦ inr (inr (ground (arith, y)))
    | inr n' ↦ inr (inl (ground (arith, n, n')))
  ]
]

-- How a spelling begins: an edge, and what stands behind its text.
abbrev pub Tail : List TrieDedge → TrieDedge → (rest : List ℕ) (o : ℕ) → Type 0
Tail trie a rest o =
    ((rest ≡ []) × (o ≡ a.re_oid)) ⊎ Spells trie a.re_edges_idx a.re_num_edges rest o

pub Spells-Tail :
    {trie : List TrieDedge} {p n o : ℕ} {str : List ℕ}
    → Spells trie p n str o
    → (j : ℕ) × (a : TrieDedge) × (rest : List ℕ) × (j < n)
      × (get_elem? trie (p + j) ≡ some a)
      × (str ≡ a.re_str ++ rest)
      × Tail trie a rest o
Spells-Tail (ends i e lt g s o) = (i, e, [], lt, g, s ∙ sym (append-nil e.re_str), inl (refl, o))
Spells-Tail (goes i e rest lt g s d) = (i, e, rest, lt, g, s, inr d)

-- Only the root may have an empty text.
Spells-some :
    {trie : List TrieDedge} (p n o : ℕ) (str : List ℕ)
    → IsTrie trie
    → 0 < p
    → Spells trie p n str o
    → 0 < length str
Spells-some {trie} p n o str t pos_p s =
    let (j, a, rest, lt, g, split, tail) = Spells-Tail s in
    let z : p + j ≡ suc (p + j - 1) = omega arith in
    let text = t.1 (p + j - 1) a (sym (ap (get_elem? trie) z) ∙ g) in
    omega (arith, text, ap length split, length-append a.re_str rest)

-- Nothing is left of the string behind the edge's text, or it is spelled by the edge's children.
Tail-cases :
    {trie : List TrieDedge} (m at o : ℕ) (a : TrieDedge) (rest : List ℕ)
    → IsTrie trie
    → IsEdge m (length trie) at a
    → Tail trie a rest o
    → (((length rest == 0) ≡ true) × (o ≡ a.re_oid))
      ⊎ (((length rest == 0) ≡ false) × Spells trie a.re_edges_idx a.re_num_edges rest o)
Tail-cases m at o a rest t edge (inl (nil, num)) = inl (rw nil refl, num)
Tail-cases m at o a rest t edge (inr s) =
    let (j, _, _, lt, _, _, _) = Spells-Tail s in
    elim edge.forward [
      | inl leaf ↦ absurd (omega arith)
      | inr (ahead, fits) ↦
          let text = Spells-some a.re_edges_idx a.re_num_edges o rest t (omega arith) s in
          inr (ground (arith, text), s)
    ]

IsOrdered-left :
    (trie : List TrieDedge) (p n m : ℕ) → m ≤ n → IsOrdered trie p n → IsOrdered trie p m
IsOrdered-left trie p n m le ord i j a b lt in_m = ord i j a b lt (omega arith)

IsOrdered-right :
    (trie : List TrieDedge) (p n k : ℕ)
    → k ≤ n
    → IsOrdered trie p n
    → IsOrdered trie (p + k) (n - k)
IsOrdered-right trie p n k le ord i j a b lt in_n at_a at_b =
    let x : p + k + i ≡ p + (k + i) = omega arith in
    let y : p + k + j ≡ p + (k + j) = omega arith in
    ord (k + i) (k + j) a b (omega arith) (omega arith) (sym (ap (get_elem? trie) x) ∙ at_a)
      (sym (ap (get_elem? trie) y) ∙ at_b)

module _ (m : ℕ) (trie : List TrieDedge) (index : IsIndex m trie) (t : IsTrie trie) where
  pub trie_query-Tail :
      (f p n j o : ℕ) (a : TrieDedge) (str rest after : List ℕ)
      → IsOrdered trie p n
      → Enough (length trie) p n f
      → length str < 2 ^ 64
      → 7 ≤ length after
      → j < n
      → get_elem? trie (p + j) ≡ some a
      → str ≡ a.re_str ++ rest
      → Tail trie a rest o
      → trie_query f trie (drop p trie) n (str ++ 0 ∷ after) (length str) ≡ oid o
  trie_query-Tail zero p n j o a str rest after ord en len room lt at split tail =
      absurd (ground arith)
  trie_query-Tail (suc f) p zero j o a str rest after ord en len room lt at split tail =
      absurd (omega arith)
  trie_query-Tail (suc f) p (suc n) j o a str rest after ord (inl (z, _)) len room lt at split
        tail =
      absurd (omega arith)
  trie_query-Tail (suc f) p (suc n) j o a str rest after ord (inr (fit, few, fuel)) len room lt at
        split tail =
      let i = suc n / 2 in
      let mem = str ++ 0 ∷ after in
      let v_len = length str in
      let re = drop p trie in
      let i_lt : i < suc n = omega arith in
      let (e, at_e) = get_elem?-some (p + i) trie (omega arith) in
      let here : get_elem? re i ≡ some e = get_elem?-drop p i trie ∙ at_e in
      let whole : mem ≡ a.re_str ++ (rest ++ 0 ∷ after) =
        ap (λ s. s ++ 0 ∷ after) split ∙ append_assoc a.re_str rest (0 ∷ after) in
      let compared : (b : TrieDedge) (c : ℤ)
          → length b.re_str ≤ 8
          → byte_diff (a.re_str ++ (rest ++ 0 ∷ after)) b.re_str ≡ c
          → memcmp mem b.re_str ≡ some c =
        λ b c few found.
          memcmp-readable str after b.re_str room few
          ∙ ap some (ap (λ s. byte_diff s b.re_str) whole ∙ found) in
      let e_short = (IsIndex-at m trie (p + i) e index at_e).short in
      elim (order j i) [
        | inl less ↦
            let (c, found, neg) =
              byte_diff-less a.re_str e.re_str (rest ++ 0 ∷ after)
                (ord j i a e less i_lt at at_e) in
            let path =
              trie_query-left f n v_len trie re mem e c here (compared e c e_short found) neg in
            path
            ∙ trie_query-Tail f p i j o a str rest after
                (IsOrdered-left trie p (suc n) i (omega arith) ord)
                (inr (omega arith, omega arith, omega arith)) len room less at split tail
        | inr (inl same) ↦
            let k = length a.re_str in
            let here_a : get_elem? re i ≡ some a =
              get_elem?-drop p i trie ∙ ap (λ i. get_elem? trie (p + i)) (sym same) ∙ at in
            let edge = IsIndex-at m trie (p + j) a index at in
            let found : memcmp mem a.re_str ≡ some (pos 0) =
              compared a (pos 0) edge.short (byte_diff-same a.re_str (rest ++ 0 ∷ after)) in
            let total = ap length split ∙ length-append a.re_str rest in
            let cut : (v_len + 2 ^ 64 - k) % 2 ^ 64 ≡ length rest = omega (arith, total) in
            elim (Tail-cases m (p + j) o a rest t edge tail) [
              | inl (empty, num) ↦
                  trie_query-whole f n v_len trie re mem a (pos 0) here_a found refl refl
                    (length rest) cut empty
                  ∙ ap oid (sym num)
              | inr (more, s) ↦
                  let inside : ltb a.re_edges_idx (length trie) ≡ true =
                    ground (arith, edge.inside) in
                  let (j', a', rest', lt', at', split', tail') = Spells-Tail s in
                  let q = a.re_edges_idx in
                  let enough =
                    IsEdge-Enough m (length trie) (p + j) p (suc n) f a edge (omega arith) fuel
                      (omega arith) in
                  trie_query-down f n v_len trie re mem a (pos 0) here_a found refl refl
                    (length rest) cut more inside
                  ∙ ap (λ s. trie_query f trie (drop q trie) a.re_num_edges s (length rest))
                      (ap (drop k) whole ∙ drop-append_left a.re_str (rest ++ 0 ∷ after))
                  ∙ trie_query-Tail f q a.re_num_edges j' o a' rest rest' after (t.0 (p + j) a at)
                      enough (omega (arith, total)) room lt' at' split' tail'
            ]
        | inr (inr greater) ↦
            let (c, found, neg, nonzero) =
              byte_diff-more a.re_str e.re_str (rest ++ 0 ∷ after)
                (ord i j e a greater lt at_e at) in
            let q = p + (i + 1) in
            let k = suc n - (i + 1) in
            let z : q + (j - (i + 1)) ≡ p + j = omega arith in
            trie_query-right f n v_len trie re mem e c here (compared e c e_short found) neg nonzero
            ∙ ap (λ s. trie_query f trie s k mem v_len) (sym (drop-drop p (i + 1) trie))
            ∙ trie_query-Tail f q k (j - (i + 1)) o a str rest after
                (IsOrdered-right trie p (suc n) (i + 1) (omega arith) ord)
                (inr (omega arith, omega arith, omega arith)) len room (omega arith)
                (ap (get_elem? trie) z ∙ at) split tail
      ]
