-- ===== src/Trie/Fits.antt =====
-- All edges that trie.c lays out for sorted strings fit the structure that is written.
use ashttpd.Prelude.{
  All-zip, All-map, ℕ, suc, ◌+◌, ◌≤◌, ◌<◌, ◌≡◌, refl, List, [], ◌∷◌, some, true, ◌&&◌, leb, ltb,
  length, All, arith,
}
use ashttpd.Webroot.{TrieDedge}
use ashttpd.Webroot.Complete.{Before}
use ashttpd.Trie.{
  TrieEntry, TrieEdges, no_edges, edge, re_edge_max, do_radix, radix_fuel, construct_radix,
}
use ashttpd.Trie.Layout.{
  Node, siblings, e_num_edges, Placed, disk_edge, layout_radix, node_to_disk, trie_write_trie,
  trie_write,
}
use ashttpd.Trie.Layout.Each.{Each, Each-siblings, AllOrder, layout_radix-AllOrder}
use ashttpd.Trie.Sorted.{InOrder, Terminal, IsNode}
use ashttpd.Trie.Nodes.{IsSite, IsSite-IsNode}

-- A text begins with a byte above another one.
abbrev Above : (b : ℕ) → List ℕ → Type 0
Above b [] = ⊥
Above b (x ∷ xs) = (b < x) × (x < 256)

Above-head :
    (b : ℕ) (cmp : List ℕ)
    → Above b cmp
    → (x : ℕ) × (b < x) × (x < 256) × ((d : List ℕ) → Before cmp d → Above 0 d → Above x d)
Above-head b [] h = elim h [ ]
Above-head b (x ∷ xs) (lt, small) = (x, lt, small, λ d before above. higher d before above)
  where
    higher : (d : List ℕ) → Before (x ∷ xs) d → Above 0 d → Above x d
    higher [] before above = elim above [ ]
    higher (y ∷ ys) before above = (before, above.1)

Above-zero : (b : ℕ) (cmp : List ℕ) → Above b cmp → Above 0 cmp
Above-zero b [] h = h
Above-zero b (x ∷ xs) (lt, small) = (omega arith, small)

-- There are no more texts in order than bytes.
InOrder-le :
    (b : ℕ) (es : List Node)
    → b ≤ 255
    → All (λ e. Above b e.e_cmp) es
    → InOrder es
    → length es + b ≤ 255
InOrder-le b [] le h o = omega arith
InOrder-le b (e ∷ es) le (h, hs) (o, os) =
    let (x, lt, small, higher) = Above-head b e.e_cmp h in
    let above : All (λ d. Above x d.e_cmp) es =
      All-zip (λ d. Above b d.e_cmp) (λ d. Before e.e_cmp d.e_cmp) (λ d. Above x d.e_cmp) es
        (λ d a before. higher d.e_cmp before (Above-zero b d.e_cmp a)) hs o in
    omega (arith, InOrder-le x es (omega arith) above os)

-- What holds of the root as well.
pub record IsFine (m : ℕ) (e : Node) : Type 0 where
  pub bytes : All (λ c. (0 < c) × (c < 256)) e.e_cmp
  pub known : Terminal m e.e_terminal
  pub short : length e.e_cmp ≤ re_edge_max
  pub few : e_num_edges e < 256
  pub ordered : InOrder (siblings e.e_edges)

text-Above : (cmp : List ℕ) → All (λ c. (0 < c) × (c < 256)) cmp → 0 < length cmp → Above 0 cmp
text-Above [] h pos = absurd (omega arith)
text-Above (x ∷ xs) h pos = h.0

siblings-le :
    (m : ℕ) (under : TrieEdges)
    → Each (IsNode m) under
    → InOrder (siblings under)
    → length (siblings under) < 256
siblings-le m under h o =
    let above =
      All-map (IsNode m) (λ e. Above 0 e.e_cmp) (siblings under)
        (λ e is. text-Above e.e_cmp is.bytes is.text.0) (Each-siblings (IsNode m) under h) in
    omega (arith, InOrder-le 0 (siblings under) (omega arith) above o)

Each-IsFine : (m : ℕ) (e : TrieEdges) → Each (IsNode m) e → Each (IsFine m) e
Each-IsFine m no_edges h = tt
Each-IsFine m (edge cmp t under rest) (is, h_under, h_rest) = (
  record {
    bytes = is.bytes;
    known = is.known;
    short = is.text.1;
    few = siblings-le m under h_under is.ordered;
    ordered = is.ordered;
  },
  Each-IsFine m under h_under,
  Each-IsFine m rest h_rest,
)

pub construct_radix-IsFine :
    (m : ℕ) (ent : List TrieEntry) → IsSite m ent → Each (IsFine m) (construct_radix ent)
unfolding construct_radix
construct_radix-IsFine m ent site =
    let under = do_radix (suc (radix_fuel ent 0)) ent 0 in
    let (each, ordered) = IsSite-IsNode m (suc (radix_fuel ent 0)) ent site in
    (
      record {
        bytes = tt;
        known = tt;
        short = omega arith;
        few = siblings-le m under each ordered;
        ordered = ordered;
      },
      Each-IsFine m under each,
      tt,
    )

node_to_disk-some :
    (m : ℕ) (p : Placed) → IsFine m p.node → (d : TrieDedge) × (node_to_disk p ≡ some d)
unfolding node_to_disk
node_to_disk-some m p is =
    let fits : (ltb (e_num_edges p.node) 0x100 && leb (length p.node.e_cmp) re_edge_max) ≡ true =
      ground (arith, is.few, is.short) in
    (disk_edge p, rw (node_to_disk, fits) refl)

trie_write_trie-some :
    (m : ℕ) (order : List Placed)
    → AllOrder (IsFine m) order
    → (arr : List TrieDedge) × (trie_write_trie order ≡ some arr)
unfolding trie_write_trie
trie_write_trie-some m [] h = ([], refl)
trie_write_trie-some m (p ∷ ps) (is, h) =
    let (d, e) = node_to_disk-some m p is in
    let (ds, es) = trie_write_trie-some m ps h in (d ∷ ds, rw (trie_write_trie, e, es) refl)

-- For one or more strings in the strict order of `strcmp`, so that no two are the same, which have from 1 to 255 bytes
-- and no NUL, and whose objects have numbers below `m`, the assertions of `node_to_disk` hold: no
-- edge has more than 255 edges under it, and no text is longer than the structure's field.
pub trie_write_total :
    (m : ℕ) (ent : List TrieEntry)
    → 0 < length ent
    → IsSite m ent
    → (arr : List TrieDedge) × (trie_write ent ≡ some arr)
unfolding trie_write
trie_write_total m [] some_strings site = absurd (omega (arith, some_strings))
trie_write_total m (v ∷ vs) some_strings site =
    let ent = v ∷ vs in
    let root = construct_radix ent in
    trie_write_trie-some m (layout_radix root)
      (layout_radix-AllOrder (IsFine m) root (construct_radix-IsFine m ent site))
