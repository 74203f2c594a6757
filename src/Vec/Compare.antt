-- ===== src/Vec/Compare.antt =====
-- The comparisons of vec.c: when they give zero, and the order that they define.
use ashttpd.Prelude.{
  ℕ, suc, ◌≤◌, ◌≡◌, refl, ap, ◌∙◌, ◌↔◌, List, [], ◌∷◌, map, true, false, arith, if◌then◌else◌,
  length, ℤ, pos, sub_ℕ, is_zero, is_neg, neg,
}
use ashttpd.Vec.{
  RoVec, bytes, v_len, to_lower, diff_loop, vcasecmp_fast, vcmp_fast, prefix_loop, vcasecmp, vcmp,
}

pub length-map : (f : ℕ → ℕ) (xs : List ℕ) → length (map f xs) ≡ length xs
length-map f [] = refl
length-map f (x ∷ xs) = ap suc (length-map f xs)

map_self : (xs : List ℕ) → map (λ x. x) xs ≡ xs
map_self [] = refl
map_self (x ∷ xs) = ap (λ t. x ∷ t) (map_self xs)

diff_loop→map :
    (f : ℕ → ℕ) (xs ys : List ℕ)
    → length xs ≡ length ys
    → diff_loop f xs ys ≡ pos 0
    → map f xs ≡ map f ys
unfolding diff_loop
diff_loop→map f [] [] h e = refl
diff_loop→map f [] (y ∷ ys) h e = absurd (omega arith)
diff_loop→map f (x ∷ xs) [] h e = absurd (omega arith)
diff_loop→map f (x ∷ xs) (y ∷ ys) h e = ground (arith, diff_loop→map f xs ys)

map→diff_loop : (f : ℕ → ℕ) (xs ys : List ℕ) → map f xs ≡ map f ys → diff_loop f xs ys ≡ pos 0
unfolding diff_loop
map→diff_loop f [] ys e = refl
map→diff_loop f (x ∷ xs) [] e = refl
map→diff_loop f (x ∷ xs) (y ∷ ys) e = ground (arith, map→diff_loop f xs ys)

-- The comparison that both fast versions make, by the length first and then through `f`.
abbrev fast_cmp : (ℕ → ℕ) → List ℕ → List ℕ → ℤ
fast_cmp f xs ys =
    let ret = sub_ℕ (length xs) (length ys) in if is_zero ret then diff_loop f xs ys else ret

fast_cmp-zero : (f : ℕ → ℕ) (xs ys : List ℕ) → (fast_cmp f xs ys ≡ pos 0) ↔ (map f xs ≡ map f ys)
fast_cmp-zero f xs ys = (
  λ e. diff_loop→map f xs ys (ground arith) (ground arith),
  λ e. ground (arith, map→diff_loop f xs ys, ap length e, length-map f xs, length-map f ys),
)

-- `vcasecmp_fast` gives zero exactly when the two vectors' bytes agree up to the case of letters.
pub vcasecmp_fast-zero :
    (v w : RoVec) → (vcasecmp_fast v w ≡ pos 0) ↔ (map to_lower (bytes v) ≡ map to_lower (bytes w))
unfolding vcasecmp_fast
vcasecmp_fast-zero v w = fast_cmp-zero to_lower (bytes v) (bytes w)

-- `vcmp_fast` gives zero exactly when the two vectors hold the same bytes.
pub vcmp_fast-zero : (v w : RoVec) → (vcmp_fast v w ≡ pos 0) ↔ (bytes v ≡ bytes w)
unfolding vcmp_fast
vcmp_fast-zero v w =
    rw (map_self (bytes v), map_self (bytes w)) at (fast_cmp-zero (λ x. x) (bytes v) (bytes w))

prefix_loop→map :
    (f : ℕ → ℕ) (xs ys : List ℕ) (ret : ℤ)
    → (ret ≡ pos 0 → length xs ≡ length ys)
    → prefix_loop f xs ys ret ≡ pos 0
    → map f xs ≡ map f ys
unfolding prefix_loop
prefix_loop→map f [] [] ret h e = refl
prefix_loop→map f [] (y ∷ ys) ret h e = absurd (omega (arith, h e))
prefix_loop→map f (x ∷ xs) [] ret h e = absurd (omega (arith, h e))
prefix_loop→map f (x ∷ xs) (y ∷ ys) ret h e =
    ground (arith, prefix_loop→map f xs ys ret (λ z. omega (arith, h z)))

map→prefix_loop :
    (f : ℕ → ℕ) (xs ys : List ℕ) (ret : ℤ) → map f xs ≡ map f ys → prefix_loop f xs ys ret ≡ ret
unfolding prefix_loop
map→prefix_loop f [] [] ret e = refl
map→prefix_loop f [] (y ∷ ys) ret e = cc
map→prefix_loop f (x ∷ xs) [] ret e = cc
map→prefix_loop f (x ∷ xs) (y ∷ ys) ret e = ground (arith, map→prefix_loop f xs ys ret)

sub_ℕ-zero : (a b : ℕ) → sub_ℕ a b ≡ pos 0 → a ≡ b
sub_ℕ-zero a b e = ground arith

sub_ℕ-self : (a b : ℕ) → a ≡ b → sub_ℕ a b ≡ pos 0
sub_ℕ-self a b e = ground arith

length_eq_of_map : (f : ℕ → ℕ) (xs ys : List ℕ) → map f xs ≡ map f ys → length xs ≡ length ys
length_eq_of_map f xs ys e = omega (arith, ap length e, length-map f xs, length-map f ys)

prefix_cmp-zero :
    (f : ℕ → ℕ) (xs ys : List ℕ)
    → (prefix_loop f xs ys (sub_ℕ (length xs) (length ys)) ≡ pos 0) ↔ (map f xs ≡ map f ys)
prefix_cmp-zero f xs ys = (
  λ e. prefix_loop→map f xs ys _ (sub_ℕ-zero (length xs) (length ys)) e,
  λ e. map→prefix_loop f xs ys _ e ∙ sub_ℕ-self _ _ (length_eq_of_map f xs ys e),
)

-- `vcasecmp` gives zero exactly when the two vectors' bytes agree up to the case of letters.
pub vcasecmp-zero :
    (v w : RoVec) → (vcasecmp v w ≡ pos 0) ↔ (map to_lower (bytes v) ≡ map to_lower (bytes w))
unfolding vcasecmp
vcasecmp-zero v w = prefix_cmp-zero to_lower (bytes v) (bytes w)

-- `vcmp` gives zero exactly when the two vectors hold the same bytes.
pub vcmp-zero : (v w : RoVec) → (vcmp v w ≡ pos 0) ↔ (bytes v ≡ bytes w)
unfolding vcmp
vcmp-zero v w =
    rw (map_self (bytes v), map_self (bytes w)) at (prefix_cmp-zero (λ x. x) (bytes v) (bytes w))

diff_loop-neg : (f : ℕ → ℕ) (xs ys : List ℕ) → diff_loop f xs ys ≡ neg (diff_loop f ys xs)
unfolding diff_loop
diff_loop-neg f [] [] = refl
diff_loop-neg f [] (y ∷ ys) = refl
diff_loop-neg f (x ∷ xs) [] = refl
diff_loop-neg f (x ∷ xs) (y ∷ ys) = ground (arith, diff_loop-neg f xs ys)

-- Swapping the arguments of `vcasecmp_fast` negates its result, as a sorted table needs.
pub vcasecmp_fast-neg : (v w : RoVec) → vcasecmp_fast v w ≡ neg (vcasecmp_fast w v)
unfolding vcasecmp_fast
vcasecmp_fast-neg v w = ground (arith, diff_loop-neg to_lower (bytes v) (bytes w))

-- The sign says which length is the smaller, or that they are equal.
pub vcasecmp_fast-len :
    (v w : RoVec)
    → (is_neg (vcasecmp_fast v w) ≡ true → v_len v ≤ v_len w)
      × (vcasecmp_fast v w ≡ pos 0 → v_len v ≡ v_len w)
      × (is_neg (vcasecmp_fast v w) ≡ false → v_len w ≤ v_len v)
unfolding vcasecmp_fast
vcasecmp_fast-len v w = ground arith

diff_loop_trans :
    (f : ℕ → ℕ) (xs ys zs : List ℕ)
    → length xs ≡ length ys
    → length ys ≡ length zs
    → is_neg (diff_loop f xs ys) ≡ true
    → is_neg (diff_loop f ys zs) ≡ true
    → is_neg (diff_loop f xs zs) ≡ true
unfolding diff_loop
diff_loop_trans f [] ys zs p q h k = cc
diff_loop_trans f (x ∷ xs) [] zs p q h k = cc
diff_loop_trans f (x ∷ xs) (y ∷ ys) [] p q h k = cc
diff_loop_trans f (x ∷ xs) (y ∷ ys) (z ∷ zs) p q h k =
    ground (arith, diff_loop_trans f xs ys zs (omega arith) (omega arith))

-- The order that `vcasecmp_fast` gives vectors, by length and then by lowered bytes, is transitive.
pub vcasecmp_fast_trans :
    (u v w : RoVec)
    → is_neg (vcasecmp_fast u v) ≡ true
    → is_neg (vcasecmp_fast v w) ≡ true
    → is_neg (vcasecmp_fast u w) ≡ true
unfolding vcasecmp_fast
vcasecmp_fast_trans u v w h k =
    ground (arith, diff_loop_trans to_lower (bytes u) (bytes v) (bytes w))

diff_loop-congr :
    (f : ℕ → ℕ) (xs ys zs : List ℕ) → map f xs ≡ map f ys → diff_loop f xs zs ≡ diff_loop f ys zs
unfolding diff_loop
diff_loop-congr f [] [] zs e = refl
diff_loop-congr f [] (y ∷ ys) zs e = cc
diff_loop-congr f (x ∷ xs) [] zs e = cc
diff_loop-congr f (x ∷ xs) (y ∷ ys) [] e = refl
diff_loop-congr f (x ∷ xs) (y ∷ ys) (z ∷ zs) e = ground (arith, diff_loop-congr f xs ys zs)

-- Vectors that `vcasecmp_fast` finds equal compare alike with any third.
pub vcasecmp_fast-congr :
    (u v w : RoVec) → vcasecmp_fast u v ≡ pos 0 → vcasecmp_fast u w ≡ vcasecmp_fast v w
vcasecmp_fast-congr u v w e =
    unfold vcasecmp_fast in
    ground (
      arith,
      length_eq_of_map to_lower (bytes u) (bytes v) ((vcasecmp_fast-zero u v).0 e),
      diff_loop-congr to_lower (bytes u) (bytes v) (bytes w) ((vcasecmp_fast-zero u v).0 e),
    )
