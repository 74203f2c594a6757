-- ===== src/Trie/Index.antt =====
-- The array that trie.c writes for sorted strings is an index as webroot.c wants it.
use mathlib.Core.Path.{subst}
use mathlib.Core.Option.{some_inj}
use ashttpd.Prelude.{
  ℕ, zero, suc, ◌+◌, ◌<◌, ◌≡◌, ◌≢◌, refl, sym, ap, ◌∙◌, ◌⊎◌, inl, inr, List, [], ◌∷◌, Option, none,
  some, ◌==◌, length, get_elem?, get_elem?-some, All, All-map, Bool-cases, arith,
}
use ashttpd.Webroot.{TrieDedge, gidx_invalid_oid}
use ashttpd.Webroot.Edges.{IsEdge, AllEdges, IsIndex}
use ashttpd.Webroot.Complete.{Before, IsOrdered, IsTrie}
use ashttpd.Trie.{TrieEntry, TrieEdges, no_edges, edge, do_radix, radix_fuel, construct_radix}
use ashttpd.Trie.Layout.{
  siblings, e_num_edges, Placed, disk_oid, layout_radix, trie_write_trie, trie_write,
}
use ashttpd.Trie.Layout.Each.{layout_radix-AllOrder, AllOrder-at, behind-AllOrder}
use ashttpd.Trie.Layout.Order.{IsPlaced, layout_radix-AllPlaced}
use ashttpd.Trie.Layout.Place.{
  IsDisk, trie_write_trie-at, length-trie_write_trie, Laid, layout_radix-Laid, placed-Laid,
}
use ashttpd.Trie.Sorted.{InOrder, Terminal, IsNode}
use ashttpd.Trie.Nodes.{IsSite, IsSite-IsNode}
use ashttpd.Trie.Fits.{IsFine, construct_radix-IsFine}

get_elem?-lt :
    (arr : List TrieDedge) (i : ℕ) (d : TrieDedge) → get_elem? arr i ≡ some d → i < length arr
get_elem?-lt [] i d h = absurd (ground (arith, h))
get_elem?-lt (x ∷ xs) zero d h = omega arith
get_elem?-lt (x ∷ xs) (suc i) d h = omega (arith, get_elem?-lt xs i d h)

AllEdges-all :
    (m size at : ℕ) (arr : List TrieDedge)
    → ((i : ℕ) (d : TrieDedge) → get_elem? arr i ≡ some d → IsEdge m size (at + i) d)
    → AllEdges m size at arr
AllEdges-all m size at [] h = tt
AllEdges-all m size at (x ∷ xs) h = (
  let z : at + 0 ≡ at = omega arith in subst (λ k. IsEdge m size k x) z (h 0 x refl),
  AllEdges-all m size (suc at) xs (λ i d e.
      let z : at + suc i ≡ suc at + i = omega arith in
      subst (λ k. IsEdge m size k d) z (h (suc i) d e)),
)

-- An edge of the array that was written, as it was laid out.
record IsLaid (order : List Placed) (i : ℕ) (p : Placed) (d : TrieDedge) : Type 0 where
  there : get_elem? order i ≡ some p
  disk : IsDisk p d

array-IsLaid :
    (order : List Placed) (arr : List TrieDedge) (i : ℕ) (d : TrieDedge)
    → trie_write_trie order ≡ some arr
    → get_elem? arr i ≡ some d
    → (p : Placed) × IsLaid order i p d
array-IsLaid order arr i d written at =
    let lt : i < length order =
      omega (arith, get_elem?-lt arr i d at, length-trie_write_trie order arr written) in
    let (p, there) = get_elem?-some i order lt in
    let (d', at', disk) = trie_write_trie-at order arr i p written there in
    (p, record { there = there; disk = subst (IsDisk p) (some_inj.0 (sym at' ∙ at)) disk })

disk-IsEdge :
    (m i : ℕ) (order : List Placed) (p : Placed) (d : TrieDedge)
    → IsPlaced 0 order i p
    → IsFine m p.node
    → IsDisk p d
    → IsEdge m (length order) i d
disk-IsEdge m i order p d placed fine disk =
    let n = e_num_edges p.node in
    record {
      no_nul = subst (All (λ c. c ≢ 0)) (sym disk.text) (
          All-map (λ c. (0 < c) × (c < 256)) (λ c. c ≢ 0) p.node.e_cmp
            (λ c h e. absurd (omega arith)) fine.bytes);
      short = omega (arith, ap length disk.text, fine.short);
      known =
          subst (λ o. (o ≡ gidx_invalid_oid) ⊎ (o < m)) (sym disk.object)
            (disk_oid-known m p.node.e_terminal fine.known);
      few = omega (arith, disk.number, fine.few);
      inside = elim (Bool-cases (n == 0)) [
        | inl leaf ↦ ground (arith, disk.index, leaf, placed.ahead, placed.fits)
        | inr more ↦ ground (arith, disk.index, more, placed.ahead, placed.fits)
      ];
      forward = elim (Bool-cases (n == 0)) [
        | inl leaf ↦ inl (ground (arith, disk.number, leaf))
        | inr more ↦ inr (ground (arith, disk.index, more, placed.ahead, placed.fits, disk.number))
      ];
    }
  where
    disk_oid-known :
        (m : ℕ) (t : Option ℕ) → Terminal m t → (disk_oid t ≡ gidx_invalid_oid) ⊎ (disk_oid t < m)
    disk_oid-known m none h = inl refl
    disk_oid-known m (some o) h = inr h

-- Edges that are laid out are in the order of the trie.
Laid-Before :
    (arr : List TrieDedge) (e : TrieEdges) (cmp : List ℕ) (at j : ℕ) (b : TrieDedge)
    → Laid arr at e
    → All (λ d. Before cmp d.e_cmp) (siblings e)
    → j < length (siblings e)
    → get_elem? arr (at + j) ≡ some b
    → Before cmp b.re_str
Laid-Before arr no_edges cmp at j b laid h lt at_b = absurd (omega arith)
Laid-Before arr (edge text t under rest) cmp at zero b ((d, is, _), _) (before, _) lt at_b =
    let z : at + 0 ≡ at = omega arith in
    let same = some_inj.0 (sym is.here ∙ ap (get_elem? arr) (sym z) ∙ at_b) in
    subst (Before cmp) (sym is.text ∙ ap (λ x. x.re_str) same) before
Laid-Before arr (edge text t under rest) cmp at (suc j) b (_, laid) (_, before) lt at_b =
    let z : suc at + j ≡ at + suc j = omega arith in
    Laid-Before arr rest cmp (suc at) j b laid before (omega arith) (ap (get_elem? arr) z ∙ at_b)

Laid-IsOrdered :
    (arr : List TrieDedge) (e : TrieEdges) (at : ℕ)
    → Laid arr at e
    → InOrder (siblings e)
    → IsOrdered arr at (length (siblings e))
Laid-IsOrdered arr no_edges at laid o i j a b lt in_n at_a at_b = absurd (omega arith)
Laid-IsOrdered arr (edge text t under rest) at laid o i zero a b lt in_n at_a at_b =
    absurd (omega arith)
Laid-IsOrdered arr (edge text t under rest) at ((d, is, _), laid) (before, o) zero (suc j) a b lt
      in_n at_a at_b =
    let z : at + 0 ≡ at = omega arith in
    let y : suc at + j ≡ at + suc j = omega arith in
    let same = some_inj.0 (sym is.here ∙ ap (get_elem? arr) (sym z) ∙ at_a) in
    subst (λ x. Before x b.re_str) (sym is.text ∙ ap (λ x. x.re_str) same)
      (Laid-Before arr rest text (suc at) j b laid before (omega arith)
        (ap (get_elem? arr) y ∙ at_b))
Laid-IsOrdered arr (edge text t under rest) at (_, laid) (_, o) (suc i) (suc j) a b lt in_n at_a
      at_b =
    let y : suc at + j ≡ at + suc j = omega arith in
    let z : suc at + i ≡ at + suc i = omega arith in
    Laid-IsOrdered arr rest (suc at) laid o i j a b (omega arith) (omega arith)
      (ap (get_elem? arr) z ∙ at_a) (ap (get_elem? arr) y ∙ at_b)

pub trie_write-array :
    (ent : List TrieEntry) (arr : List TrieDedge)
    → trie_write ent ≡ some arr
    → trie_write_trie (layout_radix (construct_radix ent)) ≡ some arr
unfolding trie_write
trie_write-array [] arr e = absurd (ground (arith, e))
trie_write-array (v ∷ vs) arr e = e

module _ (m : ℕ) (ent : List TrieEntry) (arr : List TrieDedge) (site : IsSite m ent)
    (written : trie_write ent ≡ some arr) where
  abbrev root : TrieEdges
  root = construct_radix ent

  as_written : trie_write_trie (layout_radix root) ≡ some arr
  as_written = trie_write-array ent arr written

  pub trie_write-Laid : Laid arr 0 (construct_radix ent)
  trie_write-Laid = layout_radix-Laid root arr as_written

  size : length arr ≡ length (layout_radix root)
  size = length-trie_write_trie (layout_radix root) arr as_written

  order-IsFine : (i : ℕ) (p : Placed) → get_elem? (layout_radix root) i ≡ some p → IsFine m p.node
  order-IsFine i p at =
      AllOrder-at (IsFine m) (layout_radix root) i p
        (layout_radix-AllOrder (IsFine m) root (construct_radix-IsFine m ent site)) at

  -- Each edge of the array is one as the search expects it.
  pub trie_write-IsIndex : IsIndex m arr
  trie_write-IsIndex = AllEdges-all m (length arr) 0 arr (λ i d at.
      let (p, is) = array-IsLaid (layout_radix root) arr i d as_written at in
      let z : 0 + i ≡ i = omega arith in
      subst (λ k. IsEdge m (length arr) k d) (sym z)
        (subst (λ k. IsEdge m k i d) (sym size)
          (disk-IsEdge m i (layout_radix root) p d (layout_radix-AllPlaced root i p is.there)
            (order-IsFine i p is.there) is.disk)))

  behind-IsNode :
      (i : ℕ) (p : Placed) → get_elem? (layout_radix root) (suc i) ≡ some p → IsNode m p.node
  unfolding construct_radix
  behind-IsNode i p at =
      behind-AllOrder (IsNode m) [] none (do_radix (suc (radix_fuel ent 0)) ent 0) i p
        (IsSite-IsNode m (suc (radix_fuel ent 0)) ent site).0 at

  -- Siblings are in order, and only the text of the root is empty.
  pub written-IsTrie : IsTrie arr
  written-IsTrie = (
    λ i d at.
        let (p, is) = array-IsLaid (layout_radix root) arr i d as_written at in
        let laid =
          placed-Laid (layout_radix root) arr i p d as_written (layout_radix-AllPlaced root)
            is.there is.disk in
        subst (λ n. IsOrdered arr d.re_edges_idx n) (sym is.disk.number)
          (Laid-IsOrdered arr p.node.e_edges d.re_edges_idx laid
            (order-IsFine i p is.there).ordered),
    λ i d at.
        let (p, is) = array-IsLaid (layout_radix root) arr (suc i) d as_written at in
        omega (arith, ap length is.disk.text, (behind-IsNode i p is.there).text.0),
  )

  pub trie_write-root : 0 < length arr
  unfolding construct_radix
  trie_write-root = let ((d, is, _), _) = trie_write-Laid in get_elem?-lt arr 0 d is.here
