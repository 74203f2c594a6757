-- ===== src/Trie/Groups.antt =====
-- The strings that the first loop of `do_radix` in trie.c puts together share the text of their edge.
use mathlib.Core.Path.{ap₂, subst}
use ashttpd.Prelude.{
  ℕ, zero, suc, ◌+◌, ◌-◌, ◌≤◌, ◌<◌, ◌≡◌, refl, sym, ap, ◌⊎◌, inl, inr, List, [], ◌∷◌, ◌++◌, true,
  not, ◌&&◌, leb, ltb, ◌==◌, if◌then◌else◌, length, take, drop, All, Bool-cases, ==→eq, length-drop,
  arith,
}
use ashttpd.Trie.{TrieEntry, re_edge_max, same_bytes, common_prefix, Group, group, first_group}

-- A string that has this text at this offset.
abbrev pub Shares : (v : List ℕ) (ofs len : ℕ) → TrieEntry → Type 0
Shares v ofs len t =
    (take len (drop ofs v) ≡ take len (drop ofs t.t_str)) × (ofs + len ≤ length t.t_str)

same_bytes-take :
    (n : ℕ) (xs ys : List ℕ)
    → n ≤ same_bytes xs ys
    → (take n xs ≡ take n ys) × (n ≤ length xs) × (n ≤ length ys)
same_bytes-take zero xs ys h = (refl, omega arith, omega arith)
same_bytes-take (suc n) [] ys h = absurd (omega arith)
same_bytes-take (suc n) (x ∷ xs) [] h = absurd (omega arith)
same_bytes-take (suc n) (x ∷ xs) (y ∷ ys) h = elim (Bool-cases (x == y)) [
  | inl same ↦
      let le : n ≤ same_bytes xs ys = ground (arith, h, same) in
      let (e, a, b) = same_bytes-take n xs ys le in
      (ap₂ (λ c t. c ∷ t) (==→eq x y same) e, omega (arith, a), omega (arith, b))
  | inr differ ↦ ground (arith, h, differ)
]

common_prefix-le :
    (a b : List ℕ) (ofs n : ℕ)
    → n ≤ common_prefix a b ofs
    → n ≤ same_bytes (drop ofs a) (drop ofs b)
unfolding common_prefix
common_prefix-le a b ofs n h =
    let ret = same_bytes (drop ofs a) (drop ofs b) in
    let min = if ltb (length a) (length b) then length a else length b in
    elim (Bool-cases (leb min ofs)) [
      | inl y ↦ ground (arith, h, y)
      | inr y ↦ elim (Bool-cases (ltb re_edge_max ret)) [
        | inl z ↦ ground (arith, h, y, z)
        | inr z ↦ ground (arith, h, y, z)
      ]
    ]

pub common_prefix-Shares :
    (v : List ℕ) (t : TrieEntry) (ofs n : ℕ)
    → 0 < n
    → n ≤ common_prefix v t.t_str ofs
    → Shares v ofs n t × (ofs + n ≤ length v)
unfolding common_prefix
common_prefix-Shares v t ofs n pos_n h =
    let le : n ≤ same_bytes (drop ofs v) (drop ofs t.t_str) = common_prefix-le v t.t_str ofs n h in
    let (e, a, b) = same_bytes-take n (drop ofs v) (drop ofs t.t_str) le in
    (
      (e, omega (arith, pos_n, b, length-drop ofs t.t_str)),
      omega (arith, pos_n, a, length-drop ofs v),
    )

-- What a group is, of the strings `ts` behind the first.
pub record IsGroup (v : List ℕ) (ofs len : ℕ) (ts : List TrieEntry) (g : Group) : Type 0 where
  pub parts : ts ≡ g.others ++ g.left
  pub shared : All (Shares v ofs g.len) g.others
  pub some_text : 0 < g.len
  pub shorter : g.len ≤ len

-- The length goes down to a common prefix.
module _ (x len : ℕ) where
  abbrev pub less : ℕ
  less = if ltb x len then x else len

  pub less-le : (less ≤ x) × (less ≤ len)
  less-le = elim (Bool-cases (ltb x len)) [
    | inl y ↦ (ground (arith, y), ground (arith, y))
    | inr y ↦ (ground (arith, y), ground (arith, y))
  ]

  pub less-some : 0 < x → 0 < len → 0 < less
  less-some a b = elim (Bool-cases (ltb x len)) [
    | inl y ↦ ground (arith, a, y)
    | inr y ↦ ground (arith, b, y)
  ]

more-some : (len x : ℕ) → (ltb len 0x100 && not (x == 0)) ≡ true → 0 < x
more-some len x h = elim (Bool-cases (x == 0)) [
  | inl y ↦ ground (arith, h, y)
  | inr n ↦ ground (arith, n)
]

pub group-IsGroup :
    (v : List ℕ) (ofs len : ℕ) (ts : List TrieEntry)
    → 0 < len
    → IsGroup v ofs len ts (group v ofs len ts)
unfolding group
group-IsGroup v ofs len [] h = record {
  parts = refl;
  shared = tt;
  some_text = h;
  shorter = omega arith;
}
group-IsGroup v ofs len (t ∷ ts) h =
    let x = common_prefix v t.t_str ofs in
    let r = group v ofs (less x len) ts in
    elim (Bool-cases (ltb len 0x100 && not (x == 0))) [
      | inl more ↦
          let e : group v ofs len (t ∷ ts) ≡ record r { others = t ∷ r.others } =
            rw (group, more) refl in
          let (le_x, le_len) = less-le x len in
          let ih = group-IsGroup v ofs (less x len) ts (less-some x len (more-some len x more) h) in
          let here =
            common_prefix-Shares v t ofs r.len ih.some_text (omega (arith, ih.shorter, le_x)) in
          subst (IsGroup v ofs len (t ∷ ts)) (sym e) (record {
            parts = ap (λ us. t ∷ us) ih.parts;
            shared = (here.0, ih.shared);
            some_text = ih.some_text;
            shorter = omega (arith, ih.shorter, le_len);
          })
      | inr stop ↦
          let e : group v ofs len (t ∷ ts) ≡ record { len = len; others = []; left = t ∷ ts } =
            rw (group, stop) refl in
          subst (IsGroup v ofs len (t ∷ ts)) (sym e)
            (record { parts = refl; shared = tt; some_text = h; shorter = omega arith })
    ]

-- The first string has the text as well.
pub record IsFirst (v : List ℕ) (ofs : ℕ) (ts : List TrieEntry) (g : Group) : Type 0 where
  pub parts : ts ≡ g.others ++ g.left
  pub shared : All (Shares v ofs g.len) g.others
  pub inside : ofs + g.len ≤ length v
  pub moves : (0 < g.len) ⊎ (ofs + g.len ≡ length v)

pub first_group-IsFirst :
    (v : List ℕ) (ofs : ℕ) (ts : List TrieEntry)
    → ofs ≤ length v
    → IsFirst v ofs ts (first_group v ofs ts)
unfolding first_group
first_group-IsFirst v ofs ts le =
    let len = length v - ofs in
    let x = common_prefix v v ofs in
    elim (Bool-cases (ltb len 0x100 && not (x == 0))) [
      | inl more ↦
          let g = group v ofs (less x len) ts in
          let e : first_group v ofs ts ≡ g = rw (first_group, more) refl in
          let (le_x, le_len) = less-le x len in
          let pos_x = more-some len x more in
          let pos_len : 0 < len = omega (
            arith,
            pos_x,
            (common_prefix-Shares v (record { t_str = v; t_oid = 0 }) ofs x pos_x (omega arith)).1,
          ) in
          let is_group = group-IsGroup v ofs (less x len) ts (less-some x len pos_x pos_len) in
          subst (IsFirst v ofs ts) (sym e) (record {
            parts = is_group.parts;
            shared = is_group.shared;
            inside = omega (arith, is_group.shorter, le_len, le);
            moves = inl is_group.some_text;
          })
      | inr stop ↦
          let e : first_group v ofs ts ≡ record { len = len; others = []; left = ts } =
            rw (first_group, stop) refl in
          subst (IsFirst v ofs ts) (sym e) (record {
            parts = refl;
            shared = tt;
            inside = omega (arith, le);
            moves = inr (omega (arith, le));
          })
    ]
