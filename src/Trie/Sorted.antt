-- ===== src/Trie/Sorted.antt =====
-- What the trie that trie.c builds of sorted strings is like: siblings are in the order of their first
-- bytes, and each text has a few bytes.
use ashttpd.Prelude.{
  ℕ, zero, suc, ◌≤◌, ◌<◌, ◌≡◌, refl, ap, ◌⊎◌, inl, inr, List, [], ◌∷◌, Option, none, some, length,
  take, drop, All, length-drop, arith,
}
use ashttpd.Webroot.Complete.{Before}
use ashttpd.Trie.{TrieEntry, re_edge_max, same_bytes, common_prefix}
use ashttpd.Trie.Layout.{Node, siblings}

-- The order of `strcmp`, strictly.
abbrev pub Less : List ℕ → List ℕ → Type 0
Less [] [] = ⊥
Less [] (y ∷ ys) = Unit {0}
Less (x ∷ xs) [] = ⊥
Less (x ∷ xs) (y ∷ ys) = (x < y) ⊎ ((x ≡ y) × Less xs ys)

-- The strings are in this order from an offset on, with no two alike.
abbrev pub IsSorted : (ofs : ℕ) → List TrieEntry → Type 0
IsSorted ofs [] = Unit
IsSorted ofs (v ∷ vs) = All (λ t. Less (drop ofs v.t_str) (drop ofs t.t_str)) vs × IsSorted ofs vs

-- Strings of less than 256 bytes, none of which is NUL, for objects with numbers below `m`.
pub record IsEntry (m : ℕ) (t : TrieEntry) : Type 0 where
  pub bytes : All (λ c. (0 < c) × (c < 256)) t.t_str
  pub short : length t.t_str < 256
  pub known : t.t_oid < m

-- Each edge is before those behind it.
abbrev pub InOrder : List Node → Type 0
InOrder [] = Unit
InOrder (e ∷ es) = All (λ d. Before e.e_cmp d.e_cmp) es × InOrder es

abbrev pub Terminal : (m : ℕ) → Option ℕ → Type 0
Terminal m none = Unit
Terminal m (some o) = o < m

-- An edge with what is directly under it.
pub record IsNode (m : ℕ) (e : Node) : Type 0 where
  pub bytes : All (λ c. (0 < c) × (c < 256)) e.e_cmp
  pub text : (0 < length e.e_cmp) × (length e.e_cmp ≤ re_edge_max)
  pub known : Terminal m e.e_terminal
  pub ordered : InOrder (siblings e.e_edges)

pub Less-cut :
    (n : ℕ) (xs ys : List ℕ)
    → take n xs ≡ take n ys
    → n ≤ length xs
    → n ≤ length ys
    → Less xs ys
    → Less (drop n xs) (drop n ys)
Less-cut zero xs ys e a b h = h
Less-cut (suc n) [] ys e a b h = absurd (omega arith)
Less-cut (suc n) (x ∷ xs) [] e a b h = absurd (omega arith)
Less-cut (suc n) (x ∷ xs) (y ∷ ys) e a b (inl lt) = absurd (ground (arith, e, lt))
Less-cut (suc n) (x ∷ xs) (y ∷ ys) e a b (inr (_, h)) =
    Less-cut n xs ys (ap (drop 1) e) (omega arith) (omega arith) h

pub Less-some : (xs ys : List ℕ) → Less xs ys → 0 < length ys
Less-some [] [] h = elim h [ ]
Less-some (x ∷ xs) [] h = elim h [ ]
Less-some [] (y ∷ ys) h = omega arith
Less-some (x ∷ xs) (y ∷ ys) h = omega arith

-- Strings that differ in their first bytes.
pub Less-Before :
    (n : ℕ) (xs ys : List ℕ)
    → 0 < n
    → 0 < length xs
    → same_bytes xs ys ≡ 0
    → Less xs ys
    → Before (take n xs) ys
Less-Before zero xs ys pos_n some_x e h = absurd (omega arith)
Less-Before (suc n) [] ys pos_n some_x e h = absurd (omega arith)
Less-Before (suc n) (x ∷ xs) [] pos_n some_x e h = elim h [ ]
Less-Before (suc n) (x ∷ xs) (y ∷ ys) pos_n some_x e (inl lt) = lt
Less-Before (suc n) (x ∷ xs) (y ∷ ys) pos_n some_x e (inr (same, _)) =
    absurd (ground (arith, e, same))

pub Before-Less : (cmp xs ys : List ℕ) → Before cmp xs → Less xs ys → Before cmp ys
Before-Less [] xs ys b h = absurd (ground (arith, b))
Before-Less (c ∷ cmp) [] ys b h = absurd (ground (arith, b))
Before-Less (c ∷ cmp) (x ∷ xs) [] b h = elim h [ ]
Before-Less (c ∷ cmp) (x ∷ xs) (y ∷ ys) b (inl lt) = omega arith
Before-Less (c ∷ cmp) (x ∷ xs) (y ∷ ys) b (inr (same, _)) = omega arith

pub Before-take : (cmp xs : List ℕ) (n : ℕ) → 0 < n → Before cmp xs → Before cmp (take n xs)
Before-take [] xs n pos_n b = absurd (ground (arith, b))
Before-take (c ∷ cmp) [] n pos_n b = absurd (ground (arith, b))
Before-take (c ∷ cmp) (x ∷ xs) zero pos_n b = absurd (omega arith)
Before-take (c ∷ cmp) (x ∷ xs) (suc n) pos_n b = b

pub same_bytes_self : (xs : List ℕ) → same_bytes xs xs ≡ length xs
same_bytes_self [] = refl
same_bytes_self (x ∷ xs) = ground (arith, same_bytes_self xs)

pub common_prefix_self :
    (v : List ℕ) (ofs : ℕ)
    → ofs < length v
    → (0 < common_prefix v v ofs) × (common_prefix v v ofs ≤ re_edge_max)
unfolding common_prefix
common_prefix_self v ofs lt = ground (arith, lt, same_bytes_self (drop ofs v), length-drop ofs v)

pub common_prefix-zero :
    (v t : List ℕ) (ofs : ℕ)
    → ofs < length v
    → ofs < length t
    → common_prefix v t ofs ≡ 0
    → same_bytes (drop ofs v) (drop ofs t) ≡ 0
unfolding common_prefix
common_prefix-zero v t ofs a b h = ground (arith, a, b, h)
