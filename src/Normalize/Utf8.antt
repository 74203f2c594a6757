-- ===== src/Normalize/Utf8.antt =====
-- `n_utf8` (normalize.c) on ASCII, on real sequences, and on malformed ones.
use Prim.Native.Nat.{bit_and}
use ashttpd.Prelude.{
  all_below, all_below-at, ℕ, ◌+◌, ◌-◌, ◌*◌, ◌%◌, ◌≤◌, ◌<◌, ◌≡◌, refl, ap, ◌∙◌, List, [], ◌∷◌, ◌++◌,
  true, false, ◌&&◌, arith, leb, ◌==◌, if◌then◌else◌, All, ==→eq,
}
use ashttpd.Normalize.{
  Outcome, ok, fault, put, char_is, utf8_len, utf8_flush, single, multi, n_utf8_loop, n_utf8,
}

loop-ascii : (cs : List ℕ) → All (λ c. c < 128) cs → n_utf8_loop single cs ≡ ok cs
unfolding n_utf8_loop char_is
loop-ascii [] h = refl
loop-ascii (c ∷ cs) h = ground (arith, loop-ascii cs h.1)

-- ASCII passes unchanged.
pub n_utf8-ascii : (cs : List ℕ) → All (λ c. c < 128) cs → n_utf8 cs ≡ ok cs
unfolding n_utf8
n_utf8-ascii cs h = loop-ascii cs h

len_table : all_below 64 (λ x. utf8_len (128 + x) 6 1 == 1) ≡ true
unfolding all_below utf8_len
len_table = refl

-- A continuation byte in the place of a lead byte is taken for a sequence of one byte.
len-continuation : (c : ℕ) → 128 ≤ c → c < 192 → utf8_len c 6 1 ≡ 1
len-continuation c h k =
    let back : 128 + (c - 128) ≡ c = omega arith in
    rw back at (==→eq _ 1 (all_below-at 64 _ (c - 128) len_table (omega arith)))

char_is-high : (c k : ℕ) → 128 ≤ k → char_is c k ≡ false
unfolding char_is
char_is-high c k h = ground arith

-- Such a sequence makes `n_ucs4` read `fmask[-1]`, once another byte has come.
flush-one : (c d : ℕ) (rest : Outcome) → utf8_flush 1 (c ∷ d ∷ []) rest ≡ fault
unfolding utf8_flush
flush-one c d rest = refl

multi-one : (c d : ℕ) (cs : List ℕ) → n_utf8_loop (multi 1 (c ∷ [])) (d ∷ cs) ≡ fault
unfolding n_utf8_loop
multi-one c d cs = rw (char_is-high d 255 (omega arith), char_is-high d 254 (omega arith))

single-lead :
    (c : ℕ) (cs : List ℕ)
    → 128 ≤ c
    → n_utf8_loop single (c ∷ cs) ≡ n_utf8_loop (multi (utf8_len c 6 1) (c ∷ [])) cs
unfolding n_utf8_loop
single-lead c cs h =
    let high : leb 128 c ≡ true = ground arith in
    rw (char_is-high c 255 (omega arith), char_is-high c 254 (omega arith), high)

single-copy :
    (c : ℕ) (cs : List ℕ) → c < 128 → n_utf8_loop single (c ∷ cs) ≡ put c (n_utf8_loop single cs)
unfolding n_utf8_loop
single-copy c cs h =
    let low : leb 128 c ≡ false = ground arith in
    rw (char_is-high c 255 (omega arith), char_is-high c 254 (omega arith), low)

-- After any ASCII text, a byte from 0x80 to 0xbf that any byte follows makes `n_ucs4` read outside
-- of its table of masks.
pub n_utf8-continuation :
    (pre : List ℕ) (c d : ℕ) (cs : List ℕ)
    → All (λ x. x < 128) pre
    → 128 ≤ c
    → c < 192
    → n_utf8 (pre ++ c ∷ d ∷ cs) ≡ fault
unfolding n_utf8
n_utf8-continuation [] c d cs h lo hi =
    single-lead c (d ∷ cs) lo ∙ rw (len-continuation c lo hi) (multi-one c d cs)
n_utf8-continuation (x ∷ pre) c d cs h lo hi =
    single-copy x (pre ++ c ∷ d ∷ cs) h.0 ∙ ap (put x) (n_utf8-continuation pre c d cs h.1 lo hi)

pair_table :
    all_below 32 (λ x. (utf8_len (192 + x) 6 1 == 2) && (bit_and (192 + x) 0x1f == x)) ≡ true
unfolding all_below utf8_len
pair_table = refl

tail_table : all_below 256 (λ d. bit_and d 0x3f == d % 64) ≡ true
unfolding all_below
tail_table = refl

mask-tail : (d : ℕ) → d < 256 → bit_and d 0x3f ≡ d % 64
mask-tail d h = ==→eq _ _ (all_below-at 256 _ d tail_table h)

pair_facts : (x : ℕ) → x < 32 → (utf8_len (192 + x) 6 1 ≡ 2) × (bit_and (192 + x) 0x1f ≡ x)
pair_facts x h = ground (arith, all_below-at 32 _ x pair_table h)

multi-pair :
    (c d : ℕ) (cs : List ℕ)
    → n_utf8_loop (multi 2 (c ∷ [])) (d ∷ cs) ≡ utf8_flush 2 (c ∷ d ∷ []) (n_utf8_loop single cs)
unfolding n_utf8_loop
multi-pair c d cs = rw (char_is-high d 255 (omega arith), char_is-high d 254 (omega arith))

flush-pair :
    (x d : ℕ) (rest : Outcome)
    → x < 32
    → d < 256
    → utf8_flush 2 ((192 + x) ∷ d ∷ []) rest ≡ (
        if leb 256 (x * 64 + d % 64)
        then put (192 + x) (put d rest)
        else put (x * 64 + d % 64) rest)
unfolding utf8_flush
flush-pair x d rest h k = rw ((pair_facts x h).1, mask-tail d k)

-- A sequence of two bytes stays, if its character is not below 256, and is otherwise replaced by
-- the one byte that it encodes.
pub n_utf8-pair :
    (x d : ℕ) (cs : List ℕ)
    → x < 32
    → d < 256
    → n_utf8 ((192 + x) ∷ d ∷ cs) ≡ (
        if leb 256 (x * 64 + d % 64)
        then put (192 + x) (put d (n_utf8 cs))
        else put (x * 64 + d % 64) (n_utf8 cs))
unfolding n_utf8
n_utf8-pair x d cs h k =
    single-lead (192 + x) (d ∷ cs) (omega arith)
    ∙ rw ((pair_facts x h).0)
        (multi-pair (192 + x) d cs ∙ flush-pair x d (n_utf8_loop single cs) h k)
