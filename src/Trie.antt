-- ===== src/Trie.antt =====
-- trie.c: the trie that mkroot builds of the sorted strings of a web root.
-- The strings from a pointer on are a list. The edges under one are the first of them, with what is under
-- it and with its siblings. Allocations succeed.
pub mod Fits
pub mod Groups
pub mod Index
pub mod Layout
pub mod Cut
pub mod Lookup
pub mod Nodes
pub mod Sorted
pub mod Sound
pub mod Spells
use ashttpd.Prelude.{
  ℕ, zero, suc, ◌+◌, ◌-◌, ◌*◌, List, [], ◌∷◌, ◌++◌, Option, none, some, Bool, true, false, not,
  ◌&&◌, leb, ltb, ◌==◌, if◌then◌else◌, length, take, drop,
}

-- `struct trie_entry`
pub record TrieEntry : Type 0 where
  pub t_str : List ℕ
  pub t_oid : ℕ

-- `struct trie_edge`: its text, its object, the edges under it and the siblings behind it.
pub data TrieEdges : Type 0 where
  no_edges : TrieEdges
  edge : (e_cmp : List ℕ) (e_terminal : Option ℕ) (e_edges siblings : TrieEdges) → TrieEdges

abbrev pub re_edge_max : ℕ
re_edge_max = 8

-- How many bytes two strings have in common.
abbrev pub same_bytes : List ℕ → List ℕ → ℕ
same_bytes [] ys = 0
same_bytes (x ∷ xs) [] = 0
same_bytes (x ∷ xs) (y ∷ ys) = let rest = same_bytes xs ys in if x == y then suc rest else 0

unfoldable pub common_prefix : (a b : List ℕ) (ofs : ℕ) → ℕ
common_prefix a b ofs =
    let min = if ltb (length a) (length b) then length a else length b in
    let ret = same_bytes (drop ofs a) (drop ofs b) in
    if leb min ofs then 0 else if ltb re_edge_max ret then re_edge_max else ret

-- What the first loop of `do_radix` finds: the length of the text, the strings behind the first that
-- share it, and those that are left.
pub record Group : Type 0 where
  pub len : ℕ
  pub others : List TrieEntry
  pub left : List TrieEntry

unfoldable pub group : (v : List ℕ) (ofs len : ℕ) → List TrieEntry → Group
group v ofs len [] = record { len = len; others = []; left = [] }
group v ofs len (t ∷ ts) =
    let x = common_prefix v t.t_str ofs in
    let r = group v ofs (if ltb x len then x else len) ts in
    if ltb len 0x100 && not (x == 0)
    then record r { others = t ∷ r.others }
    else record { len = len; others = []; left = t ∷ ts }

-- The loop from its start, where the first string is compared with itself.
unfoldable pub first_group : (v : List ℕ) (ofs : ℕ) → List TrieEntry → Group
unfolding group
first_group v ofs vs =
    let len = length v - ofs in
    let x = common_prefix v v ofs in
    if ltb len 0x100 && not (x == 0)
    then group v ofs (if ltb x len then x else len) vs
    else record { len = len; others = []; left = vs }

-- `do_radix`; each recursive call and each round of the loop takes one unit of fuel.
unfoldable pub do_radix : (fuel : ℕ) → List TrieEntry → (ofs : ℕ) → TrieEdges
unfolding first_group
do_radix zero vs ofs = no_edges
do_radix (suc f) [] ofs = no_edges
do_radix (suc f) (v ∷ vs) ofs =
    let g = first_group v.t_str ofs vs in
    let cmp = take g.len (drop ofs v.t_str) in
    let siblings = do_radix f g.left ofs in
    let behind = do_radix f g.others (ofs + g.len) in
    let all = do_radix f (v ∷ g.others) (ofs + g.len) in
    if ofs + g.len == length v.t_str
    then edge cmp (some v.t_oid) behind siblings
    else edge cmp none all siblings

-- All bytes that are to be spelled from an offset on, with one more for each string.
abbrev pub radix_fuel : List TrieEntry → (ofs : ℕ) → ℕ
radix_fuel [] ofs = 0
radix_fuel (v ∷ vs) ofs = (length v.t_str - ofs) + 1 + radix_fuel vs ofs

-- The root edge that `construct_radix` makes, which has no text.
unfoldable pub construct_radix : List TrieEntry → TrieEdges
unfolding do_radix
construct_radix ent = edge [] none (do_radix (suc (radix_fuel ent 0)) ent 0) no_edges
