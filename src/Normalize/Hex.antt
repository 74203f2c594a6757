-- ===== src/Normalize/Hex.antt =====
-- `n_hex` (normalize.c) undoes percent encoding, and lets no NUL and no bad escape through.
use mathlib.Core.Path.{subst}
use ashttpd.Prelude.{
  ℕ, ◌+◌, ◌/◌, ◌%◌, ◌<◌, ◌≡◌, ◌≢◌, refl, ap, ◌∙◌, List, [], ◌∷◌, Bool, true, false, arith, ltb,
  ◌==◌, if◌then◌else◌, All, ==-false→ne,
}
use ashttpd.Normalize.{
  Outcome, ok, err, fault, put, HexState, plain, percent, digit, is_hex, hexchar, hex_byte,
  n_hex_loop, n_hex, nads_ws,
}

-- The flags that are off, and the one that is on.
nads_ws_flags : (nads_ws 1 ≡ true) × (nads_ws 2 ≡ false) × (nads_ws 4 ≡ false) × (nads_ws 8 ≡ false)
unfolding nads_ws
nads_ws_flags = (refl, refl, refl, refl)

-- A digit of either case: `upper` chooses "A" to "F".
abbrev pub hex_digit : Bool → ℕ → ℕ
hex_digit upper n = if ltb n 10 then 48 + n else if upper then 55 + n else 87 + n

-- One byte of a URI: as it is, or as an escape with digits of either case.
pub data Token : Type 0 where
  literal : ℕ → Token
  escaped : Bool → Bool → ℕ → Token

abbrev pub token_byte : Token → ℕ
token_byte (literal c) = c
token_byte (escaped u v c) = c

-- A literal is any byte but '%' and an escape any byte but NUL.
abbrev pub IsToken : Token → Type 0
IsToken (literal c) = c ≢ 37
IsToken (escaped u v c) = (0 < c) × (c < 256)

unfoldable pub print_token : Token → List ℕ → List ℕ
print_token (literal c) rest = c ∷ rest
print_token (escaped u v c) rest = 37 ∷ hex_digit u (c / 16) ∷ hex_digit v (c % 16) ∷ rest

unfoldable pub print_tokens : List Token → List ℕ
unfolding print_token
print_tokens [] = []
print_tokens (t ∷ ts) = print_token t (print_tokens ts)

abbrev pub token_bytes : List Token → List ℕ
token_bytes [] = []
token_bytes (t ∷ ts) = token_byte t ∷ token_bytes ts

hexchar-digit : (u : Bool) (n : ℕ) → n < 16 → hexchar (hex_digit u n) ≡ n
unfolding hexchar
hexchar-digit u n h = ground arith

is_hex-digit : (u : Bool) (n : ℕ) → n < 16 → is_hex (hex_digit u n) ≡ true
unfolding is_hex
is_hex-digit u n h = ground arith

hex_byte-digits :
    (u v : Bool) (c : ℕ) → c < 256 → hex_byte (hex_digit u (c / 16)) (hex_digit v (c % 16)) ≡ c
unfolding hex_byte
hex_byte-digits u v c h =
    omega (arith, hexchar-digit u (c / 16) (omega arith), hexchar-digit v (c % 16) (omega arith))

n_hex_loop-escape :
    (hi lo c : ℕ) (cs : List ℕ)
    → is_hex hi ≡ true
    → is_hex lo ≡ true
    → hex_byte hi lo ≡ c
    → 0 < c
    → n_hex_loop plain (37 ∷ hi ∷ lo ∷ cs) ≡ put c (n_hex_loop plain cs)
unfolding n_hex_loop
n_hex_loop-escape hi lo c cs h g e pos = ground arith

n_hex_loop-literal :
    (c : ℕ) (cs : List ℕ) → c ≢ 37 → n_hex_loop plain (c ∷ cs) ≡ put c (n_hex_loop plain cs)
unfolding n_hex_loop
n_hex_loop-literal c cs h = ground arith

loop-print :
    (ts : List Token) → All IsToken ts → n_hex_loop plain (print_tokens ts) ≡ ok (token_bytes ts)
unfolding print_tokens
loop-print [] h = unfold n_hex_loop in refl
loop-print (literal c ∷ ts) h =
    n_hex_loop-literal c (print_tokens ts) h.0 ∙ ap (put c) (loop-print ts h.1)
loop-print (escaped u v c ∷ ts) h =
    n_hex_loop-escape (hex_digit u (c / 16)) (hex_digit v (c % 16)) c (print_tokens ts)
      (is_hex-digit u (c / 16) (omega arith)) (is_hex-digit v (c % 16) (omega arith))
      (hex_byte-digits u v c h.0.1) h.0.0
    ∙ ap (put c) (loop-print ts h.1)

-- Bytes that are written literally or as percent escapes, with digits of either case, are decoded
-- to themselves.
pub n_hex-print : (ts : List Token) → All IsToken ts → n_hex (print_tokens ts) ≡ ok (token_bytes ts)
unfolding n_hex
n_hex-print ts h = loop-print ts h

-- The output, if there is one, has no NUL; `n_hex` never faults.
abbrev NoNul : Outcome → Type 0
NoNul (ok out) = All (λ c. c ≢ 0) out
NoNul (err e out) = All (λ c. c ≢ 0) out
NoNul fault = ⊥

put-NoNul : (c : ℕ) (o : Outcome) → c ≢ 0 → NoNul o → NoNul (put c o)
put-NoNul c (ok out) h g = (h, g)
put-NoNul c (err e out) h g = (h, g)
put-NoNul c fault h g = g

NoNul-if :
    (b : Bool) (x y : Outcome)
    → (b ≡ true → NoNul x)
    → (b ≡ false → NoNul y)
    → NoNul (if b then x else y)
NoNul-if true x y hx hy = hx refl
NoNul-if false x y hx hy = hy refl

loop-NoNul : (st : HexState) (cs : List ℕ) → All (λ c. c ≢ 0) cs → NoNul (n_hex_loop st cs)
unfolding n_hex_loop
loop-NoNul plain [] h = tt
loop-NoNul percent [] h = tt
loop-NoNul (digit d) [] h = tt
loop-NoNul plain (c ∷ cs) h =
    NoNul-if (c == 37) _ _ (λ _. loop-NoNul percent cs h.1)
      (λ _. put-NoNul c _ h.0 (loop-NoNul plain cs h.1))
loop-NoNul percent (c ∷ cs) h = NoNul-if (is_hex c) _ _ (λ _. loop-NoNul (digit c) cs h.1) (λ _. tt)
loop-NoNul (digit d) (c ∷ cs) h =
    NoNul-if (is_hex c) _ _
      (λ _.
        NoNul-if (hex_byte d c == 0) _ _ (λ _. tt)
          (λ e. put-NoNul (hex_byte d c) _ (==-false→ne _ 0 e) (loop-NoNul plain cs h.1)))
      (λ _. tt)

-- Whatever escapes a string without NUL holds, no NUL byte comes out of `n_hex`.
pub n_hex-NoNul :
    (buf out : List ℕ) → All (λ c. c ≢ 0) buf → n_hex buf ≡ ok out → All (λ c. c ≢ 0) out
unfolding n_hex
n_hex-NoNul buf out h e = subst NoNul e (loop-NoNul plain buf h)
