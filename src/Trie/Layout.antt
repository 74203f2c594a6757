-- ===== src/Trie/Layout.antt =====
-- trie.c: how the edges of a trie are laid out in breadth-first order, and written.
-- An edge is known by its place in the lists that it stands in; its index `e_bfs_idx` is its place in
-- the whole order. The structures that are written are those of the Webroot module.
pub mod Each
pub mod Starts
pub mod Order
pub mod Place
use ashttpd.Prelude.{
  ℕ, zero, suc, ◌+◌, ◌*◌, List, [], ◌∷◌, ◌++◌, Option, none, some, Bool, true, false, ◌&&◌, leb,
  ltb, ◌==◌, if◌then◌else◌, length, ◌>>=◌,
}
use ashttpd.Webroot.{TrieDedge, gidx_invalid_oid, sizeof_dedge}
use ashttpd.Trie.{TrieEntry, TrieEdges, no_edges, edge, re_edge_max, construct_radix}

-- One `struct trie_edge`, without its siblings.
pub record Node : Type 0 where
  pub e_cmp : List ℕ
  pub e_terminal : Option ℕ
  pub e_edges : TrieEdges

-- The edges of a list `e_edges`.
abbrev pub siblings : TrieEdges → List Node
siblings no_edges = []
siblings (edge cmp t under rest) =
    record { e_cmp = cmp; e_terminal = t; e_edges = under } ∷ siblings rest

abbrev pub e_num_edges : Node → ℕ
e_num_edges e = length (siblings e.e_edges)

-- An edge in its place, with the index of the first edge under it.
pub record Placed : Type 0 where
  pub node : Node
  pub first : ℕ

-- The walk over `cur` that puts the edges under each to the end of `next`, where `at` is the index that
-- the end of `next` will have: the edges under one stand there together.
abbrev pub place : (at : ℕ) → List Node → List Placed
place at [] = []
place at (e ∷ es) = record { node = e; first = at } ∷ place (at + e_num_edges e) es

abbrev pub next_level : List Node → List Node
next_level [] = []
next_level (e ∷ es) = siblings e.e_edges ++ next_level es

abbrev pub list_empty : List Node → Bool
list_empty [] = true
list_empty (e ∷ es) = false

-- `do_layout_bfs` from the label on, with the numbers of `layout_radix`: `i` edges stand in the order
-- before those of `cur`. Each round takes one unit of fuel.
unfoldable pub do_layout_bfs : (fuel i : ℕ) (cur : List Node) → List Placed
do_layout_bfs zero i cur = []
do_layout_bfs (suc f) i cur =
    let next = next_level cur in
    let rest = do_layout_bfs f (i + length cur) next in
    let order = place (i + length cur) cur in if list_empty next then order else order ++ rest

-- `r_num_edges`, which counts the calls of `edge_new`.
abbrev pub num_edges : TrieEdges → ℕ
num_edges no_edges = 0
num_edges (edge cmp t under rest) = suc (num_edges under + num_edges rest)

-- What `layout_radix` leaves in `r_bfs_order`.
unfoldable pub layout_radix : TrieEdges → List Placed
unfolding do_layout_bfs
layout_radix root = do_layout_bfs (num_edges root) 0 (siblings root)

abbrev pub disk_oid : Option ℕ → ℕ
disk_oid none = gidx_invalid_oid
disk_oid (some oid) = oid

-- The structure that `node_to_disk` fills.
abbrev pub disk_edge : Placed → TrieDedge
disk_edge p =
    let n = e_num_edges p.node in
    record {
      re_oid = disk_oid p.node.e_terminal;
      re_edges_idx = if n == 0 then 0 else p.first;
      re_num_edges = n;
      re_str = p.node.e_cmp;
    }

-- `node_to_disk` with its two assertions.
unfoldable pub node_to_disk : Placed → Option TrieDedge
node_to_disk p =
    if ltb (e_num_edges p.node) 0x100 && leb (length p.node.e_cmp) re_edge_max
    then some (disk_edge p)
    else none

-- `trie_write_trie`, where all writes succeed.
unfoldable pub trie_write_trie : List Placed → Option (List TrieDedge)
unfolding node_to_disk
trie_write_trie [] = some []
trie_write_trie (e ∷ es) = do d ← node_to_disk e; ds ← trie_write_trie es; some (d ∷ ds)

-- `trie_new` and `trie_write_trie` on what it makes. `do_radix` asserts that there is a string.
unfoldable pub trie_write : List TrieEntry → Option (List TrieDedge)
unfolding construct_radix layout_radix trie_write_trie
trie_write [] = none
trie_write (v ∷ vs) = trie_write_trie (layout_radix (construct_radix (v ∷ vs)))

unfoldable pub trie_trie_size : TrieEdges → ℕ
trie_trie_size root = sizeof_dedge * num_edges root
