-- ===== src/Trie/Layout/Order.antt =====
-- The breadth-first order of trie.c: the edges under an edge stand together, behind it, from the index on
-- that was noted for it.
use mathlib.Core.Path.{subst}
use ashttpd.Prelude.{
  ℕ, zero, suc, ◌+◌, ◌-◌, ◌≤◌, ◌<◌, ◌≡◌, refl, sym, ap, ◌∙◌, ◌⊎◌, inl, inr, List, [], ◌∷◌, ◌++◌,
  some, true, false, length, drop, get_elem?, append_assoc, append-nil, Bool-cases, length-append,
  drop-append_left, drop-drop, arith,
}
use mathlib.Core.Option.{some_inj}
use ashttpd.Trie.{TrieEdges}
use ashttpd.Trie.Layout.{
  Node, siblings, e_num_edges, Placed, place, next_level, list_empty, do_layout_bfs, num_edges,
  layout_radix,
}
use ashttpd.Trie.Layout.Starts.{
  Starts, num_all, num_all-siblings, num_all-next_level, Starts-le, Starts-append, Starts-front,
  Starts-drop, Starts-place, length-place,
}

-- The edges under the one at `j` are a part of the next level, and stand there from its index on.
place-part :
    (at : ℕ) (cur : List Node) (j : ℕ) (p : Placed)
    → get_elem? (place at cur) j ≡ some p
    → (pre post : List Node) × (next_level cur ≡ pre ++ (siblings p.node.e_edges ++ post))
      × (p.first ≡ at + length pre)
place-part at [] j p h = ground arith
place-part at (e ∷ es) zero p h =
    let same = some_inj.0 h in
    (
      [],
      next_level es,
      ap (λ q. siblings q.node.e_edges ++ next_level es) same,
      sym (ap (λ q. q.first) same) ∙ (omega arith),
    )
place-part at (e ∷ es) (suc j) p h =
    let (pre, post, split, first) = place-part (at + e_num_edges e) es j p h in
    (
      siblings e.e_edges ++ pre,
      post,
      ap (λ t. siblings e.e_edges ++ t) split
          ∙ sym (append_assoc (siblings e.e_edges) pre (siblings p.node.e_edges ++ post)),
      omega (arith, first, length-append (siblings e.e_edges) pre),
    )

-- Where the edges under the one at `j` of a part of the order stand; `i` edges stand before the part.
pub record IsPlaced (i : ℕ) (order : List Placed) (j : ℕ) (p : Placed) : Type 0 where
  pub ahead : i + j < p.first
  pub fits : p.first + e_num_edges p.node ≤ i + length order
  pub found : Starts (siblings p.node.e_edges) (drop (p.first - i) order)

abbrev pub AllPlaced : (i : ℕ) → List Placed → Type 0
AllPlaced i order = (j : ℕ) (p : Placed) → get_elem? order j ≡ some p → IsPlaced i order j p

get_elem?-append :
    (xs ys : List Placed) (j : ℕ) (p : Placed)
    → get_elem? (xs ++ ys) j ≡ some p
    → ((get_elem? xs j ≡ some p) × (j < length xs))
      ⊎ ((get_elem? ys (j - length xs) ≡ some p) × (length xs ≤ j))
get_elem?-append [] ys j p h =
    let z : j - 0 ≡ j = omega arith in inr (ap (get_elem? ys) z ∙ h, omega arith)
get_elem?-append (x ∷ xs) ys zero p h = inl (h, omega arith)
get_elem?-append (x ∷ xs) ys (suc j) p h = elim (get_elem?-append xs ys j p h) [
  | inl (e, lt) ↦ inl (e, omega arith)
  | inr (e, le) ↦
      let z : suc j - suc (length xs) ≡ j - length xs = omega arith in
      inr (ap (get_elem? ys) z ∙ e, omega arith)
]

drop-behind : (xs ys : List Placed) (n : ℕ) → drop (length xs + n) (xs ++ ys) ≡ drop n ys
drop-behind xs ys n = drop-drop (length xs) n (xs ++ ys) ∙ ap (drop n) (drop-append_left xs ys)

do_layout_bfs-Starts :
    (f i : ℕ) (cur : List Node) → num_all cur ≤ f → Starts cur (do_layout_bfs f i cur)
unfolding do_layout_bfs
do_layout_bfs-Starts zero i [] le = tt
do_layout_bfs-Starts zero i (e ∷ es) le = absurd (omega arith)
do_layout_bfs-Starts (suc f) i cur le =
    let next = next_level cur in
    let rest = do_layout_bfs f (i + length cur) next in
    let order = place (i + length cur) cur in
    let here = Starts-place (i + length cur) cur in
    elim (Bool-cases (list_empty next)) [
      | inl none_left ↦ rw (do_layout_bfs, none_left) here
      | inr more ↦ rw (do_layout_bfs, more) (Starts-append cur order rest here)
    ]

-- The part that a round adds, before a part that begins with the next level.
module _ (i : ℕ) (cur : List Node) (rest : List Placed) (begins : Starts (next_level cur) rest)
    (placed : AllPlaced (i + length cur) rest) where
  order : List Placed
  order = place (i + length cur) cur ++ rest

  here-IsPlaced :
      (j : ℕ) (p : Placed)
      → get_elem? (place (i + length cur) cur) j ≡ some p
      → j < length (place (i + length cur) cur)
      → IsPlaced i order j p
  unfolding order
  here-IsPlaced j p at lt =
      let (pre, post, split, first) = place-part (i + length cur) cur j p at in
      let mine = siblings p.node.e_edges in
      let len = length-place (i + length cur) cur in
      let behind : Starts (mine ++ post) (drop (length pre) rest) =
        Starts-drop pre (mine ++ post) rest (subst (λ t. Starts t rest) split begins) in
      let total = ap length split ∙ length-append pre (mine ++ post) in
      let z : p.first - i ≡ length (place (i + length cur) cur) + length pre =
        omega (arith, first, len) in
      record {
        ahead = omega (arith, first, lt, len);
        fits = omega (
          arith,
          first,
          len,
          total,
          Starts-le (next_level cur) rest begins,
          length-append mine post,
          length-append (place (i + length cur) cur) rest,
        );
        found =
            subst (Starts mine)
              (sym (
                ap (λ n. drop n order) z
                ∙ drop-behind (place (i + length cur) cur) rest (length pre)))
              (Starts-front mine post (drop (length pre) rest) behind);
      }

  behind-IsPlaced :
      (j : ℕ) (p : Placed)
      → get_elem? rest (j - length (place (i + length cur) cur)) ≡ some p
      → length (place (i + length cur) cur) ≤ j
      → IsPlaced i order j p
  unfolding order
  behind-IsPlaced j p at le =
      let len = length-place (i + length cur) cur in
      let is = placed (j - length (place (i + length cur) cur)) p at in
      let z : p.first - i ≡ length (place (i + length cur) cur) + (p.first - (i + length cur)) =
        omega (arith, is.ahead, len) in
      record {
        ahead = omega (arith, is.ahead, len, le);
        fits = omega (arith, is.fits, len, length-append (place (i + length cur) cur) rest);
        found =
            subst (Starts (siblings p.node.e_edges))
              (sym (
                ap (λ n. drop n order) z
                ∙ drop-behind (place (i + length cur) cur) rest (p.first - (i + length cur))))
              is.found;
      }

  order-AllPlaced : AllPlaced i order
  unfolding order
  order-AllPlaced j p at = elim (get_elem?-append (place (i + length cur) cur) rest j p at) [
    | inl (here, lt) ↦ here-IsPlaced j p here lt
    | inr (behind, le) ↦ behind-IsPlaced j p behind le
  ]

list_empty-nil : (xs : List Node) → list_empty xs ≡ true → xs ≡ []
list_empty-nil [] h = refl
list_empty-nil (x ∷ xs) h = cc

list_empty-some : (cur : List Node) → list_empty (next_level cur) ≡ false → 0 < length cur
list_empty-some [] h = cc
list_empty-some (x ∷ xs) h = omega arith

nil-AllPlaced : (i : ℕ) → AllPlaced i []
nil-AllPlaced i j p at = ground arith

pub do_layout_bfs-AllPlaced :
    (f i : ℕ) (cur : List Node) → num_all cur ≤ f → AllPlaced i (do_layout_bfs f i cur)
unfolding do_layout_bfs order
do_layout_bfs-AllPlaced zero i cur le = nil-AllPlaced i
do_layout_bfs-AllPlaced (suc f) i cur le =
    let next = next_level cur in
    let rest = do_layout_bfs f (i + length cur) next in
    let here = place (i + length cur) cur in
    elim (Bool-cases (list_empty next)) [
      | inl none_left ↦
          let e : do_layout_bfs (suc f) i cur ≡ here ++ [] =
            rw (do_layout_bfs, none_left) (sym (append-nil here)) in
          subst (AllPlaced i) (sym e) (
            order-AllPlaced i cur []
              (subst (λ t. Starts t []) (sym (list_empty-nil next none_left)) tt)
              (nil-AllPlaced (i + length cur)))
      | inr more ↦
          let e : do_layout_bfs (suc f) i cur ≡ here ++ rest = rw (do_layout_bfs, more) refl in
          let enough : num_all next ≤ f =
            omega (arith, num_all-next_level cur, le, list_empty-some cur more) in
          subst (AllPlaced i) (sym e) (
            order-AllPlaced i cur rest (do_layout_bfs-Starts f (i + length cur) next enough)
              (do_layout_bfs-AllPlaced f (i + length cur) next enough))
    ]

-- The whole order.
pub layout_radix-AllPlaced : (root : TrieEdges) → AllPlaced 0 (layout_radix root)
unfolding layout_radix
layout_radix-AllPlaced root =
    do_layout_bfs-AllPlaced (num_edges root) 0 (siblings root)
      (omega (arith, num_all-siblings root))

pub layout_radix-Starts : (root : TrieEdges) → Starts (siblings root) (layout_radix root)
unfolding layout_radix
layout_radix-Starts root =
    do_layout_bfs-Starts (num_edges root) 0 (siblings root) (omega (arith, num_all-siblings root))
