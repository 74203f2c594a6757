-- ===== src/HttpConn/Numbers.antt =====
-- The numbers that http_conn.c prints: decimal lengths, and the hexadecimal digits of an ETag.
use ashttpd.Prelude.{
  ℕ, zero, suc, ◌+◌, ◌*◌, ◌/◌, ◌%◌, ◌^◌, ◌≤◌, ◌<◌, ◌≡◌, refl, ap, ◌∙◌, List, [], ◌∷◌, Option, none,
  some, arith, lt→ltb, ◌==◌, ltb, if◌then◌else◌, Bool-cases, inl, inr, All, ◌>>=◌, Bool, true,
  false, ==→eq, all_below, all_below-at,
}
use ashttpd.Vec.Number.{decimal}
use ashttpd.HttpConn.Print.{digits, print_u64, hex_at, print_etag}

pow_suc : (k : ℕ) → 10 ^ suc k ≡ 10 * 10 ^ k
pow_suc k = ground arith

digits-decimal :
    (k n : ℕ) (acc : List ℕ) → n < 10 ^ suc k → decimal 0 (digits (suc k) n acc) ≡ decimal n acc
unfolding digits
digits-decimal zero n acc lt =
    rw (lt→ltb n 10 (omega (arith, lt))) (ap (λ m. decimal m acc) (omega arith))
digits-decimal (suc k) n acc lt =
    let rest : 10 ≤ n → decimal 0 (digits (suc k) (n / 10) ((48 + n % 10) ∷ acc)) ≡ decimal n acc =
      λ le.
        digits-decimal k (n / 10) ((48 + n % 10) ∷ acc) (omega (arith, pow_suc (suc k), lt))
        ∙ ap (λ m. decimal m acc) (omega arith) in
    elim (Bool-cases (ltb n 10)) [
      | inl small ↦ rw small (ap (λ m. decimal m acc) (omega arith))
      | inr large ↦ rw large (rest (ground (arith, large)))
    ]

-- Every number of 64 bits is printed with digits that denote it.
pub print_u64-decimal : (n : ℕ) → n < 2 ^ 64 → decimal 0 (print_u64 n) ≡ n
print_u64-decimal n lt = digits-decimal 19 n [] (omega arith)

-- The digit for a half.
abbrev digit_of : ℕ → ℕ
digit_of n = if ltb n 10 then 48 + n else if n == 10 then 48 else 86 + n

is_digit : Option ℕ → ℕ → Bool
is_digit none d = false
is_digit (some c) d = c == d

is_digit-some : (o : Option ℕ) (d : ℕ) → is_digit o d ≡ true → o ≡ some d
unfolding is_digit
is_digit-some none d h = ground (arith, h)
is_digit-some (some c) d h = ap some (==→eq c d h)

hex_table : all_below 16 (λ n. is_digit (hex_at n) (digit_of n)) ≡ true
unfolding all_below is_digit hex_at
hex_table = refl

hex_at-digit_of : (n : ℕ) → n < 16 → hex_at n ≡ some (digit_of n)
hex_at-digit_of n lt =
    is_digit-some (hex_at n) (digit_of n)
      (all_below-at 16 (λ n. is_digit (hex_at n) (digit_of n)) n hex_table lt)

print_etag-cons :
    (c : ℕ) (cs : List ℕ)
    → c < 256
    → print_etag (c ∷ cs)
      ≡ (print_etag cs >>= λ rest. some (digit_of (c / 16) ∷ digit_of (c % 16) ∷ rest))
unfolding print_etag
print_etag-cons c cs lt =
    rw (hex_at-digit_of (c / 16) (omega arith), hex_at-digit_of (c % 16) (omega arith)) refl

-- Two halves of a byte have the same digit if they are equal, or 0 and 10.
abbrev pub Alike : ℕ → ℕ → Type 0
Alike m n = (if m == 10 then 0 else m) ≡ (if n == 10 then 0 else n)

abbrev pub AllAlike : List ℕ → List ℕ → Type 0
AllAlike [] [] = Unit
AllAlike (c ∷ cs) (d ∷ ds) = Alike (c / 16) (d / 16) × Alike (c % 16) (d % 16) × AllAlike cs ds
AllAlike _ _ = ⊥

-- Tags of bytes that differ only by halves 0 and 10 in each other's place have a text, and the same
-- one.
pub print_etag-Alike :
    (cs ds : List ℕ)
    → All (λ (c : ℕ). c < 256) cs
    → All (λ (c : ℕ). c < 256) ds
    → AllAlike cs ds
    → (text : List ℕ) × (print_etag cs ≡ some text) × (print_etag ds ≡ some text)
unfolding print_etag
print_etag-Alike [] [] hc hd a = ([], refl, refl)
print_etag-Alike [] (d ∷ ds) hc hd a = elim a [ ]
print_etag-Alike (c ∷ cs) [] hc hd a = elim a [ ]
print_etag-Alike (c ∷ cs) (d ∷ ds) hc hd a =
    let (text, e, f) = print_etag-Alike cs ds hc.1 hd.1 a.2 in
    let hi : digit_of (c / 16) ≡ digit_of (d / 16) = ground (arith, a.0) in
    let lo : digit_of (c % 16) ≡ digit_of (d % 16) = ground (arith, a.1) in
    (
      digit_of (c / 16) ∷ digit_of (c % 16) ∷ text,
      print_etag-cons c cs hc.0 ∙ rw e refl,
      print_etag-cons d ds hd.0 ∙ rw (f, hi, lo) refl,
    )
