-- ===== src/Prelude/Alls.antt =====
-- Lists of which each element has a property.
use Prim.Native.Nat.{ℕ, zero, suc}
use mathlib.Core.List.{List, [], ◌∷◌, ◌++◌}
use ashttpd.Prelude.Lists.{All, take, drop}

module _ {ℓ} {A : Type ℓ} where
  pub All-zip :
      (P Q R : A → Type 0) (xs : List A)
      → ((x : A) → P x → Q x → R x)
      → All P xs
      → All Q xs
      → All R xs
  All-zip P Q R [] f p q = tt
  All-zip P Q R (x ∷ xs) f (p, ps) (q, qs) = (f x p q, All-zip P Q R xs f ps qs)

  pub All-map : (P R : A → Type 0) (xs : List A) → ((x : A) → P x → R x) → All P xs → All R xs
  All-map P R [] f p = tt
  All-map P R (x ∷ xs) f (p, ps) = (f x p, All-map P R xs f ps)

  pub All-always : (P : A → Type 0) (xs : List A) → ((x : A) → P x) → All P xs
  All-always P [] f = tt
  All-always P (x ∷ xs) f = (f x, All-always P xs f)

  pub All-append : (P : A → Type 0) (xs ys : List A) → All P xs → All P ys → All P (xs ++ ys)
  All-append P [] ys p q = q
  All-append P (x ∷ xs) ys (p, ps) q = (p, All-append P xs ys ps q)

  pub All-split : (P : A → Type 0) (xs ys : List A) → All P (xs ++ ys) → All P xs × All P ys
  All-split P [] ys h = (tt, h)
  All-split P (x ∷ xs) ys (p, h) = let (a, b) = All-split P xs ys h in ((p, a), b)

  pub All-take : (P : A → Type 0) (n : ℕ) (xs : List A) → All P xs → All P (take n xs)
  All-take P zero xs h = tt
  All-take P (suc n) [] h = tt
  All-take P (suc n) (x ∷ xs) h = (h.0, All-take P n xs h.1)

  pub All-drop : (P : A → Type 0) (n : ℕ) (xs : List A) → All P xs → All P (drop n xs)
  All-drop P zero xs h = h
  All-drop P (suc n) [] h = tt
  All-drop P (suc n) (x ∷ xs) h = All-drop P n xs h.1
