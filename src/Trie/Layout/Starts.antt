-- ===== src/Trie/Layout/Starts.antt =====
-- The levels of the breadth-first walk of trie.c: how many edges there are, and which ones a list of placed
-- edges begins with.
use ashttpd.Prelude.{ℕ, suc, ◌+◌, ◌≤◌, ◌≡◌, refl, ap, List, [], ◌∷◌, ◌++◌, length, drop, arith}
use ashttpd.Trie.{TrieEdges, no_edges, edge}
use ashttpd.Trie.Layout.{Node, siblings, e_num_edges, Placed, place, next_level, num_edges}

-- A list of placed edges begins with these.
abbrev pub Starts : List Node → List Placed → Type 0
Starts [] ps = Unit {0}
Starts (c ∷ cs) [] = ⊥
Starts (c ∷ cs) (p ∷ ps) = (p.node ≡ c) × Starts cs ps

abbrev pub num_all : List Node → ℕ
num_all [] = 0
num_all (e ∷ es) = suc (num_edges e.e_edges + num_all es)

pub num_all-siblings : (e : TrieEdges) → num_all (siblings e) ≡ num_edges e
num_all-siblings no_edges = refl
num_all-siblings (edge cmp t under rest) = omega (arith, num_all-siblings rest)

num_all-append : (xs ys : List Node) → num_all (xs ++ ys) ≡ num_all xs + num_all ys
num_all-append [] ys = omega arith
num_all-append (x ∷ xs) ys = omega (arith, num_all-append xs ys)

pub num_all-next_level : (cur : List Node) → num_all (next_level cur) + length cur ≡ num_all cur
num_all-next_level [] = refl
num_all-next_level (e ∷ es) = omega (
  arith,
  num_all-append (siblings e.e_edges) (next_level es),
  num_all-siblings e.e_edges,
  num_all-next_level es,
)

pub Starts-le : (cs : List Node) (ps : List Placed) → Starts cs ps → length cs ≤ length ps
Starts-le [] ps h = omega arith
Starts-le (c ∷ cs) [] h = elim h [ ]
Starts-le (c ∷ cs) (p ∷ ps) h = omega (arith, Starts-le cs ps h.1)

pub Starts-append : (cs : List Node) (ps qs : List Placed) → Starts cs ps → Starts cs (ps ++ qs)
Starts-append [] ps qs h = tt
Starts-append (c ∷ cs) [] qs h = elim h [ ]
Starts-append (c ∷ cs) (p ∷ ps) qs h = (h.0, Starts-append cs ps qs h.1)

pub Starts-front : (xs ys : List Node) (ps : List Placed) → Starts (xs ++ ys) ps → Starts xs ps
Starts-front [] ys ps h = tt
Starts-front (x ∷ xs) ys [] h = elim h [ ]
Starts-front (x ∷ xs) ys (p ∷ ps) h = (h.0, Starts-front xs ys ps h.1)

pub Starts-drop :
    (xs ys : List Node) (ps : List Placed) → Starts (xs ++ ys) ps → Starts ys (drop (length xs) ps)
Starts-drop [] ys ps h = h
Starts-drop (x ∷ xs) ys [] h = elim h [ ]
Starts-drop (x ∷ xs) ys (p ∷ ps) h = Starts-drop xs ys ps h.1

pub Starts-place : (at : ℕ) (cur : List Node) → Starts cur (place at cur)
Starts-place at [] = tt
Starts-place at (e ∷ es) = (refl, Starts-place (at + e_num_edges e) es)

pub length-place : (at : ℕ) (cur : List Node) → length (place at cur) ≡ length cur
length-place at [] = refl
length-place at (e ∷ es) = ap suc (length-place (at + e_num_edges e) es)
