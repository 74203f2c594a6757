-- ===== src/Vec/Number.antt =====
-- `vtouint` of vec.c reads the longest run of decimal digits, modulo 2^32.
use ashttpd.Prelude.{
  ℕ, ◌+◌, ◌-◌, ◌*◌, ◌%◌, ◌^◌, ◌≤◌, ◌<◌, ◌≡◌, refl, ◌∙◌, ◌⊎◌, List, [], ◌∷◌, ◌++◌, arith, length,
  All,
}
use ashttpd.Vec.{vec, vtouint_loop, vtouint}

abbrev pub IsDigit : ℕ → Type 0
IsDigit c = (48 ≤ c) × (c < 58)

-- The list does not go on with a digit; bytes are below 256.
abbrev pub NoDigitFirst : List ℕ → Type 0
NoDigitFirst [] = Unit
NoDigitFirst (c ∷ cs) = (c < 48) ⊎ ((58 ≤ c) × (c < 256))

-- The number that digits denote, behind the digits of `acc`.
abbrev pub decimal : ℕ → List ℕ → ℕ
decimal acc [] = acc
decimal acc (c ∷ cs) = decimal (acc * 10 + (c - 48)) cs

decimal-mod :
    (x y : ℕ) (ds : List ℕ)
    → x % 2 ^ 32 ≡ y % 2 ^ 32
    → decimal x ds % 2 ^ 32 ≡ decimal y ds % 2 ^ 32
decimal-mod x y [] h = h
decimal-mod x y (c ∷ cs) h = decimal-mod (x * 10 + (c - 48)) (y * 10 + (c - 48)) cs (omega arith)

vtouint_loop-stop : (rest : List ℕ) (u n : ℕ) → NoDigitFirst rest → vtouint_loop rest u n ≡ (u, n)
unfolding vtouint_loop
vtouint_loop-stop [] u n h = refl
vtouint_loop-stop (c ∷ cs) u n h = ground arith

vtouint_loop-digits :
    (ds rest : List ℕ) (u n : ℕ)
    → All IsDigit ds
    → NoDigitFirst rest
    → u < 2 ^ 32
    → vtouint_loop (ds ++ rest) u n ≡ (decimal u ds % 2 ^ 32, n + length ds)
unfolding vtouint_loop
vtouint_loop-digits [] rest u n h k lt = vtouint_loop-stop rest u n k ∙ ground arith
vtouint_loop-digits (c ∷ cs) rest u n h k lt =
    let u' = (u * 10 % 2 ^ 32 + (c + 2 ^ 32 - 48) % 2 ^ 32) % 2 ^ 32 in
    ground (
      arith,
      vtouint_loop-digits cs rest u' (n + 1) h.1 k (omega arith),
      decimal-mod u' (u * 10 + (c - 48)) cs (omega arith),
    )

-- `vtouint` consumes exactly the leading decimal digits of a vector, and its value is the number
-- that they denote, modulo 2^32.
pub vtouint-decimal :
    (ds rest : List ℕ)
    → All IsDigit ds
    → NoDigitFirst rest
    → vtouint (vec (ds ++ rest)) ≡ (decimal 0 ds % 2 ^ 32, length ds)
unfolding vtouint
vtouint-decimal ds rest h k = vtouint_loop-digits ds rest 0 0 h k (omega arith) ∙ ground arith
