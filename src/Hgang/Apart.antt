-- ===== src/Hgang/Apart.antt =====
-- Objects of one size that do not overlap.
use ashttpd.Prelude.{ℕ, ◌+◌, ◌≤◌, ◌⊎◌, inl, inr, List, [], ◌∷◌, ◌++◌, All}

-- Two objects of this size share no byte.
abbrev pub Apart : (size a b : ℕ) → Type 0
Apart size a b = (a + size ≤ b) ⊎ (b + size ≤ a)

abbrev pub AllApart : (size : ℕ) → List ℕ → Type 0
AllApart size [] = Unit
AllApart size (x ∷ xs) = All (Apart size x) xs × AllApart size xs

pub Apart-flip : (size a b : ℕ) → Apart size a b → Apart size b a
Apart-flip size a b (inl h) = inr h
Apart-flip size a b (inr h) = inl h

-- An element of a list that all have a property is taken out, or put in.
module _ (P : ℕ → Type 0) where
  pub All-pull : (xs : List ℕ) (p : ℕ) (ys : List ℕ) → All P (xs ++ p ∷ ys) → P p × All P (xs ++ ys)
  All-pull [] p ys h = h
  All-pull (x ∷ xs) p ys (px, h) = let (pp, rest) = All-pull xs p ys h in (pp, (px, rest))

  pub All-push : (xs : List ℕ) (p : ℕ) (ys : List ℕ) → P p → All P (xs ++ ys) → All P (xs ++ p ∷ ys)
  All-push [] p ys pp h = (pp, h)
  All-push (x ∷ xs) p ys pp (px, h) = (px, All-push xs p ys pp h)

module _ (size : ℕ) where
  pub AllApart-pull :
      (xs : List ℕ) (p : ℕ) (ys : List ℕ)
      → AllApart size (xs ++ p ∷ ys)
      → All (Apart size p) (xs ++ ys) × AllApart size (xs ++ ys)
  AllApart-pull [] p ys h = h
  AllApart-pull (x ∷ xs) p ys (apart, h) =
      let (x_p, x_rest) = All-pull (Apart size x) xs p ys apart in
      let (p_rest, rest) = AllApart-pull xs p ys h in
      ((Apart-flip size x p x_p, p_rest), (x_rest, rest))

  pub AllApart-push :
      (xs : List ℕ) (p : ℕ) (ys : List ℕ)
      → All (Apart size p) (xs ++ ys)
      → AllApart size (xs ++ ys)
      → AllApart size (xs ++ p ∷ ys)
  AllApart-push [] p ys apart h = (apart, h)
  AllApart-push (x ∷ xs) p ys (p_x, apart) (x_rest, rest) = (
    All-push (Apart size x) xs p ys (Apart-flip size p x p_x) x_rest,
    AllApart-push xs p ys apart rest,
  )
