-- ===== src/Webroot/Search.antt =====
-- `trie_query` of webroot.c ends, without a fault, on every index whose edges point forward, and what
-- it finds is spelled by a path of edges.
use ashttpd.Prelude.{
  ◌≤◌, ℕ, zero, suc, ◌+◌, ◌-◌, ◌/◌, ◌%◌, ◌^◌, ◌<◌, ◌≡◌, ◌⊎◌, inl, inr, refl, sym, ap, ◌∙◌, List,
  ◌∷◌, ◌++◌, some, true, arith, ltb, ◌==◌, Bool-cases, ==→eq, length, drop, get_elem?,
  get_elem?-drop, get_elem?-some, length-drop, drop-drop, drop-append, append-nil, is_neg,
}
use ashttpd.HttpBuf.Queue.{length-zero}
use ashttpd.Webroot.{TrieDedge, Query, oid, gidx_invalid_oid, trie_query}
use ashttpd.Webroot.Edges.{
  IsIndex, Spells, ends, goes, Enough, IsIndex-at, IsEdge-Enough, memcmp-cases, Spells-widen,
  Spells-shift, trie_query-left, trie_query-right, trie_query-whole, trie_query-down,
}

-- What a search of the `n` edges from `p` on comes to: no object, or one that the edges spell.
abbrev pub Finds : (num_oid : ℕ) (trie : List TrieDedge) (p n : ℕ) (str : List ℕ) → Query → Type 0
Finds num_oid trie p n str q =
    (o : ℕ) × (q ≡ oid o) × ((o ≡ gidx_invalid_oid) ⊎ (Spells trie p n str o × (o < num_oid)))

-- A search that comes to another one, whose findings are findings of its own.
Finds-step :
    {m : ℕ} {trie : List TrieDedge} {p n : ℕ} {str : List ℕ} {q : Query} (p' n' : ℕ) (str' : List ℕ)
    (q' : Query)
    → q ≡ q'
    → ((o : ℕ) → Spells trie p' n' str' o → Spells trie p n str o)
    → Finds m trie p' n' str' q'
    → Finds m trie p n str q
Finds-step p' n' str' q' path f (o, e, inl none_found) = (o, path ∙ e, inl none_found)
Finds-step p' n' str' q' path f (o, e, inr (s, lt)) = (o, path ∙ e, inr (f o s, lt))

module _ (m : ℕ) (trie : List TrieDedge) (index : IsIndex m trie) where
  pub trie_query-Finds :
      (f p n : ℕ) (str after : List ℕ)
      → Enough (length trie) p n f
      → length str < 2 ^ 64
      → 7 ≤ length after
      → Finds m trie p n str (trie_query f trie (drop p trie) n (str ++ 0 ∷ after) (length str))
  unfolding trie_query
  trie_query-Finds zero p n str after en len room = absurd (ground arith)
  trie_query-Finds (suc f) p zero str after en len room = (gidx_invalid_oid, refl, inl refl)
  trie_query-Finds (suc f) p (suc n) str after (inl (z, lt)) len room = absurd (omega arith)
  trie_query-Finds (suc f) p (suc n) str after (inr (fit, few, fuel)) len room =
      let i = suc n / 2 in
      let mem = str ++ 0 ∷ after in
      let v_len = length str in
      let re = drop p trie in
      let i_lt : i < suc n = omega arith in
      let (e, at) = get_elem?-some (p + i) trie (omega arith) in
      let edge = IsIndex-at m trie (p + i) e index at in
      let here : get_elem? re i ≡ some e = get_elem?-drop p i trie ∙ at in
      let (c, found, cases) = memcmp-cases str after e.re_str edge.no_nul room edge.short in
      elim cases [
        | inl differ ↦ elim (Bool-cases (is_neg c)) [
          | inl less ↦
              let en : Enough (length trie) p i f = inr (omega arith, omega arith, omega arith) in
              Finds-step p i str (trie_query f trie re i mem v_len)
                (trie_query-left f n v_len trie re mem e c here found less)
                (λ o. Spells-widen (suc n) (omega arith))
                (trie_query-Finds f p i str after en len room)
          | inr more ↦
              let q = p + (i + 1) in
              let k = suc n - (i + 1) in
              let en : Enough (length trie) q k f = inr (omega arith, omega arith, omega arith) in
              Finds-step q k str (trie_query f trie (drop q trie) k mem v_len)
                (trie_query-right f n v_len trie re mem e c here found more differ
                  ∙ ap (λ t. trie_query f trie t k mem v_len) (sym (drop-drop p (i + 1) trie)))
                (λ o. Spells-shift p (i + 1) (suc n) (omega arith))
                (trie_query-Finds f q k str after en len room)
        ]
        | inr (same, more, le, split) ↦
            let k = length e.re_str in
            let suff = drop k str in
            let cut : (v_len + 2 ^ 64 - k) % 2 ^ 64 ≡ length suff =
              omega (arith, length-drop k str) in
            let inside : ltb e.re_edges_idx (length trie) ≡ true = ground (arith, edge.inside) in
            elim (Bool-cases (length suff == 0)) [
              | inl whole ↦
                  let path =
                    trie_query-whole f n v_len trie re mem e c here found more same (length suff)
                      cut whole in
                  let nil =
                    ap (λ t. e.re_str ++ t) (length-zero suff (==→eq _ _ whole))
                    ∙ append-nil e.re_str in
                  let spelled : Spells trie p (suc n) str e.re_oid =
                    ends i e i_lt at (split ∙ nil) refl in
                  elim edge.known [
                    | inl none_here ↦ (e.re_oid, path, inl none_here)
                    | inr lt ↦ (e.re_oid, path, inr (spelled, lt))
                  ]
              | inr part ↦
                  let en =
                    IsEdge-Enough m (length trie) (p + i) p (suc n) f e edge (omega arith)
                      (omega arith) (omega arith) in
                  let path =
                    trie_query-down f n v_len trie re mem e c here found more same (length suff) cut
                      part inside in
                  Finds-step e.re_edges_idx e.re_num_edges suff
                    (trie_query f trie (drop e.re_edges_idx trie) e.re_num_edges (suff ++ 0 ∷ after)
                      (length suff))
                    (path
                      ∙ ap
                          (λ t.
                            trie_query f trie (drop e.re_edges_idx trie) e.re_num_edges t
                              (length suff))
                          (drop-append k str (0 ∷ after) le))
                    (λ o. goes i e suff i_lt at split)
                    (trie_query-Finds f e.re_edges_idx e.re_num_edges suff after en
                      (omega (arith, length-drop k str)) room)
            ]
      ]
