-- ===== src/Trie/Cut.antt =====
-- The groups that the first loop of `do_radix` in trie.c makes of sorted strings.
use mathlib.Core.Path.{subst}
use ashttpd.Prelude.{
  All-zip, All-map, All-split, ℕ, ◌+◌, ◌-◌, ◌≤◌, ◌<◌, ◌≡◌, refl, sym, ◌∙◌, inl, inr, List, [], ◌∷◌,
  ◌++◌, true, not, ◌&&◌, ltb, ◌==◌, length, take, drop, All, Bool-cases, length-drop, drop-drop,
  arith,
}
use ashttpd.Webroot.Complete.{Before}
use ashttpd.Trie.{TrieEntry, re_edge_max, common_prefix, Group, group, first_group}
use ashttpd.Trie.Groups.{Shares, less, less-le, less-some, group-IsGroup}
use ashttpd.Trie.Sorted.{
  Less, IsSorted, Less-cut, Less-Before, Before-Less, common_prefix_self, common_prefix-zero,
}

-- The string that ends a group shares no byte with the first.
abbrev pub Stops : (v : List ℕ) (ofs : ℕ) → List TrieEntry → Type 0
Stops v ofs [] = Unit {0}
Stops v ofs (t ∷ ts) = common_prefix v t.t_str ofs ≡ 0

group-Stops :
    (v : List ℕ) (ofs len : ℕ) (ts : List TrieEntry)
    → len < 256
    → Stops v ofs (group v ofs len ts).left
unfolding group
group-Stops v ofs len [] lt = tt
group-Stops v ofs len (t ∷ ts) lt =
    let x = common_prefix v t.t_str ofs in
    let r = group v ofs (less x len) ts in
    elim (Bool-cases (ltb len 0x100 && not (x == 0))) [
      | inl more ↦
          let e : group v ofs len (t ∷ ts) ≡ record r { others = t ∷ r.others } =
            rw (group, more) refl in
          subst (λ g. Stops v ofs g.left) (sym e)
            (group-Stops v ofs (less x len) ts (omega (arith, (less-le x len).1)))
      | inr stop ↦
          let e : group v ofs len (t ∷ ts) ≡ record { len = len; others = []; left = t ∷ ts } =
            rw (group, stop) refl in
          subst (λ g. Stops v ofs g.left) (sym e) (ground (arith, stop, lt))
    ]

-- The group of the first string, where strings have less than 256 bytes.
pub record IsCut (v : List ℕ) (ofs : ℕ) (g : Group) : Type 0 where
  pub some_text : 0 < g.len
  pub cut : g.len ≤ re_edge_max
  pub stops : Stops v ofs g.left

pub first_group-IsCut :
    (v : List ℕ) (ofs : ℕ) (ts : List TrieEntry)
    → ofs < length v
    → length v < 256
    → IsCut v ofs (first_group v ofs ts)
unfolding first_group
first_group-IsCut v ofs ts lt short =
    let len = length v - ofs in
    let x = common_prefix v v ofs in
    let (pos_x, max_x) = common_prefix_self v ofs lt in
    let (le_x, le_len) = less-le x len in
    let more : (ltb len 0x100 && not (x == 0)) ≡ true = ground (arith, lt, short, pos_x) in
    let e : first_group v ofs ts ≡ group v ofs (less x len) ts = rw (first_group, more) refl in
    let is = group-IsGroup v ofs (less x len) ts (less-some x len pos_x (omega arith)) in
    subst (IsCut v ofs) (sym e) (record {
      some_text = is.some_text;
      cut = omega (arith, is.shorter, le_x, max_x);
      stops = group-Stops v ofs (less x len) ts (omega arith);
    })

module _ (ofs : ℕ) where
  pub IsSorted-append :
      (xs ys : List TrieEntry) → IsSorted ofs (xs ++ ys) → IsSorted ofs xs × IsSorted ofs ys
  IsSorted-append [] ys h = (tt, h)
  IsSorted-append (x ∷ xs) ys h =
      let (a, b) = IsSorted-append xs ys h.1 in
      (((All-split (λ t. Less (drop ofs x.t_str) (drop ofs t.t_str)) xs ys h.0).0, a), b)

-- Behind a text that they share, strings are in the same order.
pub Shares-Less :
    (v a b : TrieEntry) (ofs len : ℕ)
    → Shares v.t_str ofs len a
    → Shares v.t_str ofs len b
    → Less (drop ofs a.t_str) (drop ofs b.t_str)
    → Less (drop (ofs + len) a.t_str) (drop (ofs + len) b.t_str)
Shares-Less v a b ofs len (same_a, in_a) (same_b, in_b) h =
    let cut =
      Less-cut len (drop ofs a.t_str) (drop ofs b.t_str) (sym same_a ∙ same_b)
        (omega (arith, length-drop ofs a.t_str)) (omega (arith, length-drop ofs b.t_str)) h in
    subst (λ t. Less t (drop (ofs + len) b.t_str)) (sym (drop-drop ofs len a.t_str))
      (subst (Less (drop len (drop ofs a.t_str))) (sym (drop-drop ofs len b.t_str)) cut)

pub Shares-IsSorted :
    (v : TrieEntry) (ofs len : ℕ) (ts : List TrieEntry)
    → All (Shares v.t_str ofs len) ts
    → IsSorted ofs ts
    → IsSorted (ofs + len) ts
Shares-IsSorted v ofs len [] s h = tt
Shares-IsSorted v ofs len (t ∷ ts) (s, ss) (h, hs) = (
  All-zip (Shares v.t_str ofs len) (λ u. Less (drop ofs t.t_str) (drop ofs u.t_str))
      (λ u. Less (drop (ofs + len) t.t_str) (drop (ofs + len) u.t_str)) ts
      (λ u s_u lt. Shares-Less v t u ofs len s s_u lt) ss h,
  Shares-IsSorted v ofs len ts ss hs,
)

-- What is left is behind the group.
pub left-Before :
    (v : TrieEntry) (ofs len : ℕ) (ts : List TrieEntry)
    → 0 < len
    → ofs < length v.t_str
    → Stops v.t_str ofs ts
    → All (λ t. Less (drop ofs v.t_str) (drop ofs t.t_str)) ts
    → IsSorted ofs ts
    → All (λ t. ofs < length t.t_str) ts
    → All (λ t. Before (take len (drop ofs v.t_str)) (drop ofs t.t_str)) ts
left-Before v ofs len [] pos_n lt stops less sorted inside = tt
left-Before v ofs len (t ∷ ts) pos_n lt stops (less, _) (sorted, _) (in_t, _) =
    let cmp = take len (drop ofs v.t_str) in
    let here =
      Less-Before len (drop ofs v.t_str) (drop ofs t.t_str) pos_n
        (omega (arith, length-drop ofs v.t_str))
        (common_prefix-zero v.t_str t.t_str ofs lt in_t stops) less in
    (
      here,
      All-map (λ u. Less (drop ofs t.t_str) (drop ofs u.t_str)) (λ u. Before cmp (drop ofs u.t_str))
          ts (λ u h. Before-Less cmp (drop ofs t.t_str) (drop ofs u.t_str) here h) sorted,
    )
