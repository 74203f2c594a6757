-- ===== src/Trie/Layout/Place.antt =====
-- The array that trie.c writes holds the trie: the edges under an edge are those that its structure
-- points to.
use mathlib.Core.Path.{subst}
use mathlib.Core.Option.{some_inj}
use ashttpd.Prelude.{
  Bool, true, ◌≤◌, ℕ, zero, suc, ◌-◌, ◌<◌, ◌≡◌, refl, sym, ap, ◌∙◌, inl, inr, List, [], ◌∷◌, none,
  some, ◌&&◌, leb, ltb, ◌==◌, if◌then◌else◌, length, drop, get_elem?, Bool-cases, ◌>>=◌, >>=-some,
  arith,
}
use ashttpd.Webroot.{TrieDedge}
use ashttpd.Trie.{TrieEdges, no_edges, edge, re_edge_max}
use ashttpd.Trie.Layout.{
  Node, siblings, e_num_edges, Placed, disk_oid, disk_edge, node_to_disk, trie_write_trie,
  layout_radix,
}
use ashttpd.Trie.Layout.Starts.{Starts}
use ashttpd.Trie.Layout.Order.{AllPlaced, layout_radix-AllPlaced, layout_radix-Starts}

-- What `node_to_disk` writes for an edge.
pub record IsDisk (p : Placed) (d : TrieDedge) : Type 0 where
  pub text : d.re_str ≡ p.node.e_cmp
  pub object : d.re_oid ≡ disk_oid p.node.e_terminal
  pub number : d.re_num_edges ≡ e_num_edges p.node
  pub index : d.re_edges_idx ≡ (if e_num_edges p.node == 0 then 0 else p.first)
  pub few : e_num_edges p.node < 256

pub node_to_disk-IsDisk : (p : Placed) (d : TrieDedge) → node_to_disk p ≡ some d → IsDisk p d
unfolding node_to_disk
node_to_disk-IsDisk p d h =
    let n = e_num_edges p.node in
    let disk = disk_edge p in
    elim (Bool-cases (ltb n 0x100 && leb (length p.node.e_cmp) re_edge_max)) [
      | inl fits ↦
          let e : node_to_disk p ≡ some disk = rw (node_to_disk, fits) refl in
          subst (IsDisk p) (some_inj.0 (sym e ∙ h)) (record {
            text = refl;
            object = refl;
            number = refl;
            index = refl;
            few = ground (arith, fits);
          })
      | inr differ ↦
          let e : node_to_disk p ≡ none = rw (node_to_disk, differ) refl in absurd (cc (sym e ∙ h))
    ]

le_max : (b : Bool) (n : ℕ) → (b && leb n re_edge_max) ≡ true → n ≤ 8
le_max b n h = ground (arith, h)

pub node_to_disk-short :
    (p : Placed) (d : TrieDedge) → node_to_disk p ≡ some d → length d.re_str ≤ 8
unfolding node_to_disk
node_to_disk-short p d h =
    let text = (node_to_disk-IsDisk p d h).text in
    elim (Bool-cases (ltb (e_num_edges p.node) 0x100 && leb (length p.node.e_cmp) re_edge_max)) [
      | inl fits ↦ omega (
        arith,
        ap length text,
        le_max (ltb (e_num_edges p.node) 0x100) (length p.node.e_cmp) fits,
      )
      | inr differ ↦
          let e : node_to_disk p ≡ none = rw (node_to_disk, differ) refl in absurd (cc (sym e ∙ h))
    ]

pub trie_write_trie-cons :
    (e : Placed) (es : List Placed) (arr : List TrieDedge)
    → trie_write_trie (e ∷ es) ≡ some arr
    → (d : TrieDedge) × (ds : List TrieDedge) × (node_to_disk e ≡ some d)
      × (trie_write_trie es ≡ some ds)
      × (arr ≡ d ∷ ds)
unfolding trie_write_trie
trie_write_trie-cons e es arr h =
    let (d, written, more) =
      >>=-some (node_to_disk e) (λ d. do ds ← trie_write_trie es; some (d ∷ ds)) h in
    let (ds, rest, split) = >>=-some (trie_write_trie es) (λ ds. some (d ∷ ds)) more in
    (d, ds, written, rest, sym (some_inj.0 split))

-- Each edge of the order has been written in its place.
pub trie_write_trie-at :
    (order : List Placed) (arr : List TrieDedge) (i : ℕ) (p : Placed)
    → trie_write_trie order ≡ some arr
    → get_elem? order i ≡ some p
    → (d : TrieDedge) × (get_elem? arr i ≡ some d) × IsDisk p d
trie_write_trie-at [] arr i p h at = absurd (ground (arith, at))
trie_write_trie-at (e ∷ es) arr zero p h at =
    let (d, ds, written, rest, split) = trie_write_trie-cons e es arr h in
    (
      d,
      ap (λ a. get_elem? a 0) split,
      subst (λ q. IsDisk q d) (some_inj.0 at) (node_to_disk-IsDisk e d written),
    )
trie_write_trie-at (e ∷ es) arr (suc i) p h at =
    let (d, ds, written, rest, split) = trie_write_trie-cons e es arr h in
    let (d', at', is) = trie_write_trie-at es ds i p rest at in
    (d', ap (λ a. get_elem? a (suc i)) split ∙ at', is)

pub length-trie_write_trie :
    (order : List Placed) (arr : List TrieDedge)
    → trie_write_trie order ≡ some arr
    → length arr ≡ length order
unfolding trie_write_trie
length-trie_write_trie [] arr h = ground (arith, h)
length-trie_write_trie (e ∷ es) arr h =
    let (d, ds, written, rest, split) = trie_write_trie-cons e es arr h in
    ap length split ∙ ap suc (length-trie_write_trie es ds rest)

-- The structure at an index of the array is that of an edge.
pub record IsWritten (arr : List TrieDedge) (at : ℕ) (e : Node) (d : TrieDedge) : Type 0 where
  pub here : get_elem? arr at ≡ some d
  pub text : d.re_str ≡ e.e_cmp
  pub object : d.re_oid ≡ disk_oid e.e_terminal
  pub number : d.re_num_edges ≡ e_num_edges e

-- The array holds the edges one behind the other from the index on, and so it does those under each.
abbrev pub Laid : List TrieDedge → (at : ℕ) → TrieEdges → Type 0
Laid arr at no_edges = Unit
Laid arr at (edge cmp t under rest) =
    ((d : TrieDedge) × IsWritten arr at (record { e_cmp = cmp; e_terminal = t; e_edges = under }) d
      × Laid arr d.re_edges_idx under)
    × Laid arr (suc at) rest

Starts-at :
    (c : Node) (cs : List Node) (at : ℕ) (order : List Placed)
    → Starts (c ∷ cs) (drop at order)
    → (p : Placed) × (get_elem? order at ≡ some p) × (p.node ≡ c) × Starts cs (drop (suc at) order)
Starts-at c cs zero [] h = elim h [ ]
Starts-at c cs (suc at) [] h = elim h [ ]
Starts-at c cs zero (p ∷ ps) h = (p, refl, h.0, h.1)
Starts-at c cs (suc at) (p ∷ ps) h = Starts-at c cs at ps h

-- The index that is written for an edge is that of the first edge under it, if there is one.
disk-Laid :
    (arr : List TrieDedge) (under : TrieEdges) (first idx : ℕ)
    → idx ≡ (if length (siblings under) == 0 then 0 else first)
    → Laid arr first under
    → Laid arr idx under
disk-Laid arr no_edges first idx e h = tt
disk-Laid arr (edge cmp t under rest) first idx e h =
    let same : idx ≡ first = ground (arith, e) in
    subst (λ k. Laid arr k (edge cmp t under rest)) (sym same) h

module _ (order : List Placed) (arr : List TrieDedge) (written : trie_write_trie order ≡ some arr)
    (placed : AllPlaced 0 order) where
  order-Laid : (e : TrieEdges) (at : ℕ) → Starts (siblings e) (drop at order) → Laid arr at e
  order-Laid no_edges at h = tt
  order-Laid (edge cmp t under rest) at h =
      let c : Node = record { e_cmp = cmp; e_terminal = t; e_edges = under } in
      let (p, here, same, behind) = Starts-at c (siblings rest) at order h in
      let (d, at_d, disk) = trie_write_trie-at order arr at p written here in
      let found =
        subst (λ n. Starts (siblings n.e_edges) (drop (p.first - 0) order)) same
          (placed at p here).found in
      let z : p.first - 0 ≡ p.first = omega arith in
      let ih =
        order-Laid under p.first (subst (λ n. Starts (siblings under) (drop n order)) z found) in
      let index =
        subst (λ n. d.re_edges_idx ≡ (if e_num_edges n == 0 then 0 else p.first)) same disk.index in
      let text = subst (λ n. d.re_str ≡ n.e_cmp) same disk.text in
      let object = subst (λ n. d.re_oid ≡ disk_oid n.e_terminal) same disk.object in
      let number = subst (λ n. d.re_num_edges ≡ e_num_edges n) same disk.number in
      (
        (
          d,
          record { here = at_d; text = text; object = object; number = number },
          disk-Laid arr under p.first d.re_edges_idx index ih,
        ),
        order-Laid rest (suc at) behind,
      )

-- What is under an edge of the order.
pub placed-Laid :
    (order : List Placed) (arr : List TrieDedge) (i : ℕ) (p : Placed) (d : TrieDedge)
    → trie_write_trie order ≡ some arr
    → AllPlaced 0 order
    → get_elem? order i ≡ some p
    → IsDisk p d
    → Laid arr d.re_edges_idx p.node.e_edges
placed-Laid order arr i p d written placed at disk =
    let z : p.first - 0 ≡ p.first = omega arith in
    let found =
      subst (λ n. Starts (siblings p.node.e_edges) (drop n order)) z (placed i p at).found in
    disk-Laid arr p.node.e_edges p.first d.re_edges_idx disk.index
      (order-Laid order arr written placed p.node.e_edges p.first found)

-- The root stands at the front.
pub layout_radix-Laid :
    (root : TrieEdges) (arr : List TrieDedge)
    → trie_write_trie (layout_radix root) ≡ some arr
    → Laid arr 0 root
layout_radix-Laid root arr written =
    order-Laid (layout_radix root) arr written (layout_radix-AllPlaced root) root 0
      (layout_radix-Starts root)
