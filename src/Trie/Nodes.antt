-- ===== src/Trie/Nodes.antt =====
-- The edges of the trie that trie.c builds of sorted strings.
use mathlib.Core.Path.{subst}
use ashttpd.Prelude.{
  All-zip, All-map, All-split, All-take, All-drop, ℕ, zero, suc, ◌+◌, ◌<◌, ◌≡◌, refl, sym, ◌⊎◌, inl,
  inr, List, [], ◌∷◌, Option, none, some, false, ◌==◌, length, take, drop, All, Bool-cases,
  length-drop, length-take, arith,
}
use ashttpd.Webroot.Complete.{Before}
use ashttpd.Trie.{TrieEntry, TrieEdges, edge, first_group, do_radix}
use ashttpd.Trie.Groups.{Shares, IsFirst, first_group-IsFirst}
use ashttpd.Trie.Layout.{siblings}
use ashttpd.Trie.Layout.Each.{Each}
use ashttpd.Trie.Sorted.{Less, IsSorted, IsEntry, InOrder, Terminal, IsNode, Less-some, Before-take}
use ashttpd.Trie.Cut.{
  IsCut, first_group-IsCut, IsSorted-append, Shares-Less, Shares-IsSorted, left-Before,
}

-- The strings of a call of `do_radix`.
record IsReady (m ofs : ℕ) (vs : List TrieEntry) : Type 0 where
  sorted : IsSorted ofs vs
  inside : All (λ t. ofs < length t.t_str) vs
  entries : All (IsEntry m) vs

-- The first edge that a call makes: the text ends the string, or more of it is under the edge.
record IsEdge (f : ℕ) (v : TrieEntry) (vs : List TrieEntry) (ofs : ℕ) (t : Option ℕ)
    (under : TrieEdges) : Type 0 where
  made :
      do_radix (suc f) (v ∷ vs) ofs
      ≡ edge
          (take (first_group v.t_str ofs vs).len (drop ofs v.t_str))
          t
          under
          (do_radix f (first_group v.t_str ofs vs).left ofs)
  under_it :
      ((t ≡ some v.t_oid)
        × (under
            ≡ do_radix f
                (first_group v.t_str ofs vs).others
                (ofs + (first_group v.t_str ofs vs).len)))
      ⊎ ((t ≡ none)
          × (under
              ≡ do_radix f
                  (v ∷ (first_group v.t_str ofs vs).others)
                  (ofs + (first_group v.t_str ofs vs).len))
          × ((ofs + (first_group v.t_str ofs vs).len == length v.t_str) ≡ false))

do_radix-IsEdge :
    (f : ℕ) (v : TrieEntry) (vs : List TrieEntry) (ofs : ℕ)
    → (t : Option ℕ) × (under : TrieEdges) × IsEdge f v vs ofs t under
unfolding do_radix
do_radix-IsEdge f v vs ofs =
    let g = first_group v.t_str ofs vs in
    elim (Bool-cases (ofs + g.len == length v.t_str)) [
      | inl whole ↦ (
        some v.t_oid,
        do_radix f g.others (ofs + g.len),
        record { made = rw (do_radix, whole) refl; under_it = inl (refl, refl) },
      )
      | inr part ↦ (
        none,
        do_radix f (v ∷ g.others) (ofs + g.len),
        record { made = rw (do_radix, part) refl; under_it = inr (refl, refl, part) },
      )
    ]

-- The calls that follow a first group.
module _ (m : ℕ) (v : TrieEntry) (vs : List TrieEntry) (ofs : ℕ)
    (ready : IsReady m ofs (v ∷ vs)) where
  abbrev first : IsFirst v.t_str ofs vs (first_group v.t_str ofs vs)
  first = first_group-IsFirst v.t_str ofs vs (omega (arith, ready.inside.0))

  abbrev cut : IsCut v.t_str ofs (first_group v.t_str ofs vs)
  cut = first_group-IsCut v.t_str ofs vs ready.inside.0 ready.entries.0.short

  left-IsReady : IsReady m ofs (first_group v.t_str ofs vs).left
  left-IsReady =
      let g = first_group v.t_str ofs vs in
      record {
        sorted =
            (IsSorted-append ofs g.others g.left
              (subst (IsSorted ofs) first.parts ready.sorted.1)).1;
        inside =
            (All-split (λ t. ofs < length t.t_str) g.others g.left
              (subst (All (λ t. ofs < length t.t_str)) first.parts ready.inside.1)).1;
        entries =
            (All-split (IsEntry m) g.others g.left
              (subst (All (IsEntry m)) first.parts ready.entries.1)).1;
      }

  -- The strings behind the first are longer than the text.
  others-Less :
      All
        (λ t.
          Less
            (drop (ofs + (first_group v.t_str ofs vs).len) v.t_str)
            (drop (ofs + (first_group v.t_str ofs vs).len) t.t_str))
        (first_group v.t_str ofs vs).others
  others-Less =
      let g = first_group v.t_str ofs vs in
      let ordered =
        (All-split (λ t. Less (drop ofs v.t_str) (drop ofs t.t_str)) g.others g.left
          (subst (All (λ t. Less (drop ofs v.t_str) (drop ofs t.t_str))) first.parts
            ready.sorted.0)).0 in
      All-zip (Shares v.t_str ofs g.len) (λ t. Less (drop ofs v.t_str) (drop ofs t.t_str))
        (λ t. Less (drop (ofs + g.len) v.t_str) (drop (ofs + g.len) t.t_str)) g.others
        (λ t s h. Shares-Less v v t ofs g.len (refl, first.inside) s h) first.shared ordered

  others-IsReady :
      IsReady m (ofs + (first_group v.t_str ofs vs).len) (first_group v.t_str ofs vs).others
  others-IsReady =
      let g = first_group v.t_str ofs vs in
      record {
        sorted =
            Shares-IsSorted v ofs g.len g.others first.shared
              (IsSorted-append ofs g.others g.left
                (subst (IsSorted ofs) first.parts ready.sorted.1)).0;
        inside =
            All-map (λ t. Less (drop (ofs + g.len) v.t_str) (drop (ofs + g.len) t.t_str))
              (λ t. ofs + g.len < length t.t_str) g.others
              (λ t h.
                let e = length-drop (ofs + g.len) t.t_str in
                let pos = Less-some (drop (ofs + g.len) v.t_str) (drop (ofs + g.len) t.t_str) h in
                omega (arith, e, pos))
              others-Less;
        entries =
            (All-split (IsEntry m) g.others g.left
              (subst (All (IsEntry m)) first.parts ready.entries.1)).0;
      }

  part-IsReady :
      (ofs + (first_group v.t_str ofs vs).len == length v.t_str) ≡ false
      → IsReady m (ofs + (first_group v.t_str ofs vs).len) (v ∷ (first_group v.t_str ofs vs).others)
  part-IsReady part =
      let g = first_group v.t_str ofs vs in
      let r = others-IsReady in
      let more : ofs + g.len < length v.t_str = ground (arith, first.inside, part) in
      record {
        sorted = (others-Less, r.sorted);
        inside = (more, r.inside);
        entries = (ready.entries.0, r.entries);
      }

  -- What is left is behind the text.
  text-Before :
      All
        (λ t. Before (take (first_group v.t_str ofs vs).len (drop ofs v.t_str)) (drop ofs t.t_str))
        (first_group v.t_str ofs vs).left
  text-Before =
      let g = first_group v.t_str ofs vs in
      let r = left-IsReady in
      let ordered =
        (All-split (λ t. Less (drop ofs v.t_str) (drop ofs t.t_str)) g.others g.left
          (subst (All (λ t. Less (drop ofs v.t_str) (drop ofs t.t_str))) first.parts
            ready.sorted.0)).1 in
      left-Before v ofs g.len g.left cut.some_text ready.inside.0 cut.stops ordered r.sorted
        r.inside

-- The edges of a call are behind whatever its strings are behind.
do_radix-Before :
    (m f : ℕ) (vs : List TrieEntry) (ofs : ℕ) (cmp : List ℕ)
    → IsReady m ofs vs
    → All (λ t. Before cmp (drop ofs t.t_str)) vs
    → All (λ e. Before cmp e.e_cmp) (siblings (do_radix f vs ofs))
unfolding do_radix
do_radix-Before m zero vs ofs cmp ready h = tt
do_radix-Before m (suc f) [] ofs cmp ready h = tt
do_radix-Before m (suc f) (v ∷ vs) ofs cmp ready (h, hs) =
    let g = first_group v.t_str ofs vs in
    let (t, under, is) = do_radix-IsEdge f v vs ofs in
    let behind =
      (All-split (λ t. Before cmp (drop ofs t.t_str)) g.others g.left
        (subst (All (λ t. Before cmp (drop ofs t.t_str))) (first m v vs ofs ready).parts hs)).1 in
    subst (λ e. All (λ e. Before cmp e.e_cmp) (siblings e)) (sym is.made)
      (
        Before-take cmp (drop ofs v.t_str) g.len (cut m v vs ofs ready).some_text h,
        do_radix-Before m f g.left ofs cmp (left-IsReady m v vs ofs ready) behind,
      )

IsNode-edge :
    (m f : ℕ) (v : TrieEntry) (vs : List TrieEntry) (ofs : ℕ) (t : Option ℕ) (under : TrieEdges)
    → IsReady m ofs (v ∷ vs)
    → IsEdge f v vs ofs t under
    → InOrder (siblings under)
    → IsNode m (record {
      e_cmp = take (first_group v.t_str ofs vs).len (drop ofs v.t_str);
      e_terminal = t;
      e_edges = under;
    })
IsNode-edge m f v vs ofs t under ready is ordered =
    let g = first_group v.t_str ofs vs in
    let c = cut m v vs ofs ready in
    let len =
      length-take g.len (drop ofs v.t_str)
        (omega (arith, length-drop ofs v.t_str, (first m v vs ofs ready).inside)) in
    let P = λ (c : ℕ). (0 < c) × (c < 256) in
    record {
      bytes = All-take P g.len (drop ofs v.t_str) (All-drop P ofs v.t_str ready.entries.0.bytes);
      text = (omega (arith, len, c.some_text), omega (arith, len, c.cut));
      known = elim is.under_it [
        | inl (same, _) ↦ subst (Terminal m) (sym same) ready.entries.0.known
        | inr (same, _, _) ↦ subst (Terminal m) (sym same) tt
      ];
      ordered = ordered;
    }

do_radix-IsNode :
    (m f : ℕ) (vs : List TrieEntry) (ofs : ℕ)
    → IsReady m ofs vs
    → Each (IsNode m) (do_radix f vs ofs) × InOrder (siblings (do_radix f vs ofs))
unfolding do_radix
do_radix-IsNode m zero vs ofs ready = (tt, tt)
do_radix-IsNode m (suc f) [] ofs ready = (tt, tt)
do_radix-IsNode m (suc f) (v ∷ vs) ofs ready =
    let g = first_group v.t_str ofs vs in
    let cmp = take g.len (drop ofs v.t_str) in
    let (t, under, is) = do_radix-IsEdge f v vs ofs in
    let r_left = left-IsReady m v vs ofs ready in
    let ih_left = do_radix-IsNode m f g.left ofs r_left in
    let Good : TrieEdges → Type 0 = λ e. Each (IsNode m) e × InOrder (siblings e) in
    let ih_under : Good under = elim is.under_it [
      | inl (_, same) ↦
          subst Good (sym same)
            (do_radix-IsNode m f g.others (ofs + g.len) (others-IsReady m v vs ofs ready))
      | inr (_, same, part) ↦
          subst Good (sym same)
            (do_radix-IsNode m f (v ∷ g.others) (ofs + g.len) (part-IsReady m v vs ofs ready part))
    ] in
    subst Good (sym is.made) (
      (IsNode-edge m f v vs ofs t under ready is ih_under.1, ih_under.0, ih_left.0),
      (do_radix-Before m f g.left ofs cmp r_left (text-Before m v vs ofs ready), ih_left.1),
    )

-- Sorted strings of which none is empty, with the objects below `m`.
pub record IsSite (m : ℕ) (ent : List TrieEntry) : Type 0 where
  pub sorted : IsSorted 0 ent
  pub inside : All (λ t. 0 < length t.t_str) ent
  pub entries : All (IsEntry m) ent

-- The edges under the root.
pub IsSite-IsNode :
    (m f : ℕ) (ent : List TrieEntry)
    → IsSite m ent
    → Each (IsNode m) (do_radix f ent 0) × InOrder (siblings (do_radix f ent 0))
IsSite-IsNode m f ent site =
    do_radix-IsNode m f ent 0
      (record { sorted = site.sorted; inside = site.inside; entries = site.entries })
