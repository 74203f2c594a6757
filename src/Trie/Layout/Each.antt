-- ===== src/Trie/Layout/Each.antt =====
-- Properties of all edges that trie.c lays out.
use mathlib.Core.Path.{subst}
use ashttpd.Prelude.{
  ℕ, zero, suc, ◌+◌, ◌≡◌, refl, sym, ap, ◌∙◌, inl, inr, List, [], ◌∷◌, ◌++◌, Option, some, length,
  get_elem?, Bool-cases, All, arith,
}
use mathlib.Core.Option.{some_inj}
use ashttpd.Trie.{TrieEdges, no_edges, edge}
use ashttpd.Trie.Layout.{
  Node, siblings, e_num_edges, Placed, place, next_level, list_empty, do_layout_bfs, num_edges,
  layout_radix,
}

-- A property of each edge of a tree.
abbrev pub Each : (P : Node → Type 0) → TrieEdges → Type 0
Each P no_edges = Unit
Each P (edge cmp t under rest) =
    P (record { e_cmp = cmp; e_terminal = t; e_edges = under }) × Each P under × Each P rest

-- A property of an edge and of all under it.
abbrev pub Deep : (P : Node → Type 0) → Node → Type 0
Deep P e = P e × Each P e.e_edges

-- A property of all edges that are laid out.
module _ (P : Node → Type 0) where
  abbrev pub AllNodes : List Node → Type 0
  AllNodes [] = Unit {0}
  AllNodes (e ∷ es) = Deep P e × AllNodes es

  abbrev pub AllOrder : List Placed → Type 0
  AllOrder [] = Unit {0}
  AllOrder (p ∷ ps) = P p.node × AllOrder ps

  AllNodes-append : (xs ys : List Node) → AllNodes xs → AllNodes ys → AllNodes (xs ++ ys)
  AllNodes-append [] ys h k = k
  AllNodes-append (x ∷ xs) ys h k = (h.0, AllNodes-append xs ys h.1 k)

  AllOrder-append : (xs ys : List Placed) → AllOrder xs → AllOrder ys → AllOrder (xs ++ ys)
  AllOrder-append [] ys h k = k
  AllOrder-append (x ∷ xs) ys h k = (h.0, AllOrder-append xs ys h.1 k)

  siblings-AllNodes : (e : TrieEdges) → Each P e → AllNodes (siblings e)
  siblings-AllNodes no_edges h = tt
  siblings-AllNodes (edge cmp t under rest) (here, h_under, h_rest) =
      ((here, h_under), siblings-AllNodes rest h_rest)

  next_level-AllNodes : (cur : List Node) → AllNodes cur → AllNodes (next_level cur)
  next_level-AllNodes [] h = tt
  next_level-AllNodes (e ∷ es) h =
      AllNodes-append (siblings e.e_edges) (next_level es) (siblings-AllNodes e.e_edges h.0.1)
        (next_level-AllNodes es h.1)

  place-AllOrder : (at : ℕ) (cur : List Node) → AllNodes cur → AllOrder (place at cur)
  place-AllOrder at [] h = tt
  place-AllOrder at (e ∷ es) h = (h.0.0, place-AllOrder (at + e_num_edges e) es h.1)

  do_layout_bfs-AllOrder :
      (f i : ℕ) (cur : List Node) → AllNodes cur → AllOrder (do_layout_bfs f i cur)
  unfolding do_layout_bfs
  do_layout_bfs-AllOrder zero i cur h = tt
  do_layout_bfs-AllOrder (suc f) i cur h =
      let next = next_level cur in
      let rest = do_layout_bfs f (i + length cur) next in
      let order = place (i + length cur) cur in
      let here = place-AllOrder (i + length cur) cur h in
      elim (Bool-cases (list_empty next)) [
        | inl none_left ↦ rw (do_layout_bfs, none_left) here
        | inr more ↦
            let behind =
              do_layout_bfs-AllOrder f (i + length cur) next (next_level-AllNodes cur h) in
            rw (do_layout_bfs, more) (AllOrder-append order rest here behind)
      ]

  pub layout_radix-AllOrder : (root : TrieEdges) → Each P root → AllOrder (layout_radix root)
  unfolding layout_radix
  layout_radix-AllOrder root h =
      do_layout_bfs-AllOrder (num_edges root) 0 (siblings root) (siblings-AllNodes root h)

  pub AllOrder-at :
      (order : List Placed) (i : ℕ) (p : Placed)
      → AllOrder order
      → get_elem? order i ≡ some p
      → P p.node
  AllOrder-at [] i p h at = absurd (ground (arith, at))
  AllOrder-at (q ∷ qs) zero p h at = subst (λ r. P r.node) (some_inj.0 at) h.0
  AllOrder-at (q ∷ qs) (suc i) p h at = AllOrder-at qs i p h.1 at

  -- All but the root, which has no siblings.
  pub behind-AllOrder :
      (cmp : List ℕ) (t : Option ℕ) (under : TrieEdges) (i : ℕ) (p : Placed)
      → Each P under
      → get_elem? (layout_radix (edge cmp t under no_edges)) (suc i) ≡ some p
      → P p.node
  unfolding layout_radix do_layout_bfs
  behind-AllOrder cmp t under i p h at =
      let root : Node = record { e_cmp = cmp; e_terminal = t; e_edges = under } in
      let next = next_level (root ∷ []) in
      let n = num_edges under + 0 in
      let rest = do_layout_bfs n (0 + 1) next in
      let good : AllNodes next =
        AllNodes-append (siblings under) [] (siblings-AllNodes under h) tt in
      elim (Bool-cases (list_empty next)) [
        | inl none_left ↦
            let e : do_layout_bfs (suc n) 0 (root ∷ []) ≡ place (0 + 1) (root ∷ []) =
              rw (do_layout_bfs, none_left) refl in
            absurd (ground (arith, ap (λ o. get_elem? o (suc i)) (sym e) ∙ at))
        | inr more ↦
            let e : do_layout_bfs (suc n) 0 (root ∷ []) ≡ place (0 + 1) (root ∷ []) ++ rest =
              rw (do_layout_bfs, more) refl in
            AllOrder-at rest i p (do_layout_bfs-AllOrder n (0 + 1) next good)
              (ap (λ o. get_elem? o (suc i)) (sym e) ∙ at)
      ]

pub Each-siblings : (P : Node → Type 0) (e : TrieEdges) → Each P e → All P (siblings e)
Each-siblings P no_edges h = tt
Each-siblings P (edge cmp t under rest) h = (h.0, Each-siblings P rest h.2)
