-- ===== src/Trie/Spells.antt =====
-- The trie that trie.c builds spells every string that it is built of, for its object.
use mathlib.Core.Path.{ap₂, subst}
use ashttpd.Prelude.{
  All-zip, All-map, All-always, All-append, All-split, ℕ, zero, suc, ◌+◌, ◌≤◌, ◌<◌, ◌≡◌, refl, sym,
  ap, ◌∙◌, inl, inr, List, [], ◌∷◌, ◌++◌, Option, none, some, false, ◌==◌, length, take, drop, All,
  Bool-cases, ==→eq, length-drop, drop-drop, take-append-drop, arith,
}
use ashttpd.Trie.{
  TrieEntry, TrieEdges, edge, Group, first_group, do_radix, radix_fuel, construct_radix,
}
use ashttpd.Trie.Groups.{Shares, IsFirst, first_group-IsFirst}

-- A path of edges spells the string, and ends at the object.
pub data Spelled : TrieEdges → List ℕ → ℕ → Type 0 where
  ends :
      {cmp : List ℕ} {o : ℕ} {under rest : TrieEdges} → Spelled (edge cmp (some o) under rest) cmp o
  goes :
      {cmp str : List ℕ} {t : Option ℕ} {o : ℕ} {under rest : TrieEdges}
      → Spelled under str o
      → Spelled (edge cmp t under rest) (cmp ++ str) o
  skips :
      {cmp str : List ℕ} {t : Option ℕ} {o : ℕ} {under rest : TrieEdges}
      → Spelled rest str o
      → Spelled (edge cmp t under rest) str o

pub take_all : (n : ℕ) (xs : List ℕ) → length xs ≤ n → take n xs ≡ xs
take_all zero [] h = refl
take_all zero (x ∷ xs) h = absurd (omega arith)
take_all (suc n) [] h = refl
take_all (suc n) (x ∷ xs) h = ap (λ t. x ∷ t) (take_all n xs (omega arith))

radix_fuel-append :
    (xs ys : List TrieEntry) (ofs : ℕ)
    → radix_fuel (xs ++ ys) ofs ≡ radix_fuel xs ofs + radix_fuel ys ofs
radix_fuel-append [] ys ofs = omega arith
radix_fuel-append (x ∷ xs) ys ofs = omega (arith, radix_fuel-append xs ys ofs)

radix_fuel-le : (xs : List TrieEntry) (ofs len : ℕ) → radix_fuel xs (ofs + len) ≤ radix_fuel xs ofs
radix_fuel-le [] ofs len = omega arith
radix_fuel-le (x ∷ xs) ofs len = omega (arith, radix_fuel-le xs ofs len)

-- All of some strings are spelled from an offset on.
abbrev pub SpellsAll : TrieEdges → (ofs : ℕ) → List TrieEntry → Type 0
SpellsAll edges ofs vs = All (λ t. Spelled edges (drop ofs t.t_str) t.t_oid) vs

abbrev pub Reaches : (ofs : ℕ) → List TrieEntry → Type 0
Reaches ofs vs = All (λ t. ofs ≤ length t.t_str) vs

-- What is spelled under an edge, behind its text.
under-Spelled :
    (v : List ℕ) (ofs len : ℕ) (t : Option ℕ) (under siblings : TrieEdges) (x : TrieEntry)
    → Shares v ofs len x
    → Spelled under (drop (ofs + len) x.t_str) x.t_oid
    → Spelled (edge (take len (drop ofs v)) t under siblings) (drop ofs x.t_str) x.t_oid
under-Spelled v ofs len t under siblings x (same, _) s =
    let str = x.t_str in
    let whole : take len (drop ofs v) ++ drop (ofs + len) str ≡ drop ofs str =
      ap₂ (λ a b. a ++ b) same (drop-drop ofs len str) ∙ take-append-drop len (drop ofs str) in
    subst (λ k. Spelled (edge (take len (drop ofs v)) t under siblings) k x.t_oid) whole (goes s)

-- The strings of a group behind the first, and those that are left.
edge-SpellsAll :
    {oid : ℕ} (v : List ℕ) (ofs : ℕ) (vs : List TrieEntry) (t : Option ℕ)
    (under siblings : TrieEdges) (g : Group)
    → IsFirst v ofs vs g
    → SpellsAll under (ofs + g.len) g.others
    → SpellsAll siblings ofs g.left
    → Spelled (edge (take g.len (drop ofs v)) t under siblings) (drop ofs v) oid
    → Spelled (edge (take g.len (drop ofs v)) t under siblings) (drop ofs v) oid
      × SpellsAll (edge (take g.len (drop ofs v)) t under siblings) ofs vs
edge-SpellsAll v ofs vs t under siblings g first h_under h_left spelled =
    let here = edge (take g.len (drop ofs v)) t under siblings in
    let P : TrieEntry → Type 0 = λ x. Spelled here (drop ofs x.t_str) x.t_oid in
    let h_others : All P g.others =
      All-zip (Shares v ofs g.len) (λ x. Spelled under (drop (ofs + g.len) x.t_str) x.t_oid) P
        g.others (under-Spelled v ofs g.len t under siblings) first.shared h_under in
    let h_skip : All P g.left =
      All-map (λ x. Spelled siblings (drop ofs x.t_str) x.t_oid) P g.left (λ x s. skips s) h_left in
    (spelled, subst (All P) (sym first.parts) (All-append P g.others g.left h_others h_skip))

part-moves :
    (v : List ℕ) (ofs : ℕ) (vs : List TrieEntry) (g : Group)
    → IsFirst v ofs vs g
    → (ofs + g.len == length v) ≡ false
    → 0 < g.len
part-moves v ofs vs g first part = elim first.moves [
  | inl some_text ↦ some_text
  | inr all ↦ ground (arith, all, part)
]

do_radix-SpellsAll :
    (f : ℕ) (vs : List TrieEntry) (ofs : ℕ)
    → Reaches ofs vs
    → radix_fuel vs ofs < f
    → SpellsAll (do_radix f vs ofs) ofs vs
unfolding do_radix
do_radix-SpellsAll zero vs ofs r lt = absurd (omega arith)
do_radix-SpellsAll (suc f) [] ofs r lt = tt
do_radix-SpellsAll (suc f) (v ∷ vs) ofs (r_v, r) lt =
    let str = v.t_str in
    let g = first_group str ofs vs in
    let first = first_group-IsFirst str ofs vs r_v in
    let cmp = take g.len (drop ofs str) in
    let siblings = do_radix f g.left ofs in
    let behind = do_radix f g.others (ofs + g.len) in
    let all = do_radix f (v ∷ g.others) (ofs + g.len) in
    let (r_others, r_left) =
      All-split (λ t. ofs ≤ length t.t_str) g.others g.left (subst (Reaches ofs) first.parts r) in
    let total = ap (λ t. radix_fuel t ofs) first.parts ∙ radix_fuel-append g.others g.left ofs in
    let less = radix_fuel-le g.others ofs g.len in
    let reach : Reaches (ofs + g.len) g.others =
      All-zip (Shares str ofs g.len) (λ t. ofs ≤ length t.t_str) (λ t. ofs + g.len ≤ length t.t_str)
        g.others (λ x s _. s.1) first.shared r_others in
    let ih_left = do_radix-SpellsAll f g.left ofs r_left (omega (arith, total, lt)) in
    let there : TrieEdges → Type 0 = λ e. SpellsAll e ofs (v ∷ vs) in
    elim (Bool-cases (ofs + g.len == length str)) [
      | inl whole ↦
          let here = edge cmp (some v.t_oid) behind siblings in
          let e : do_radix (suc f) (v ∷ vs) ofs ≡ here = rw (do_radix, whole) refl in
          let ih =
            do_radix-SpellsAll f g.others (ofs + g.len) reach (omega (arith, total, less, lt)) in
          let text : cmp ≡ drop ofs str =
            take_all g.len (drop ofs str)
              (omega (arith, length-drop ofs str, ==→eq (ofs + g.len) (length str) whole)) in
          let spelled : Spelled here (drop ofs str) v.t_oid =
            subst (λ k. Spelled here k v.t_oid) text ends in
          subst there (sym e)
            (edge-SpellsAll str ofs vs (some v.t_oid) behind siblings g first ih ih_left spelled)
      | inr part ↦
          let here = edge cmp none all siblings in
          let e : do_radix (suc f) (v ∷ vs) ofs ≡ here = rw (do_radix, part) refl in
          let moves = part-moves str ofs vs g first part in
          let (ih_v, ih) =
            do_radix-SpellsAll f (v ∷ g.others) (ofs + g.len) (first.inside, reach)
              (omega (arith, total, less, lt, moves, first.inside)) in
          let spelled = under-Spelled str ofs g.len none all siblings v (refl, first.inside) ih_v in
          subst there (sym e)
            (edge-SpellsAll str ofs vs none all siblings g first ih ih_left spelled)
    ]

-- The trie that `construct_radix` makes spells every string that it is given, for the string's object,
-- whatever their order.
pub construct_radix-Spelled :
    (ent : List TrieEntry) → All (λ t. Spelled (construct_radix ent) t.t_str t.t_oid) ent
unfolding construct_radix
construct_radix-Spelled ent =
    let edges = do_radix (suc (radix_fuel ent 0)) ent 0 in
    All-map (λ t. Spelled edges t.t_str t.t_oid)
      (λ t. Spelled (construct_radix ent) t.t_str t.t_oid) ent (λ t s. goes s)
      (do_radix-SpellsAll (suc (radix_fuel ent 0)) ent 0
        (All-always (λ t. 0 ≤ length t.t_str) ent (λ t. omega arith)) (omega arith))
