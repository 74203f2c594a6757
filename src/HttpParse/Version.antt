-- ===== src/HttpParse/Version.antt =====
-- `http_proto_version` of http_parse.c accepts "HTTP/X.Y" with two digits and nothing else.
use Prim.Native.Nat.{bit_or}
use ashttpd.Prelude.{
  ℕ, zero, suc, ◌+◌, ◌-◌, ◌*◌, ◌/◌, ◌%◌, ◌^◌, ◌<◌, ◌≡◌, ◌≢◌, refl, List, [], ◌∷◌, ◌++◌, Bool, true,
  ◌&&◌, arith, ◌==◌, ==→eq, codes,
}
use ashttpd.Vec.{RoVec, vec, bytes}
use ashttpd.HttpParse.{http_proto_version, http_ver_unknown}

all_below : ℕ → (ℕ → Bool) → Bool
all_below zero p = true
all_below (suc n) p = p n && all_below n p

all_below-at : (n : ℕ) (p : ℕ → Bool) (x : ℕ) → all_below n p ≡ true → x < n → p x ≡ true
unfolding all_below
all_below-at zero p x h lt = absurd (omega arith)
all_below-at (suc n) p x h lt = ground (arith, all_below-at n p x)

nibbles : all_below 100 (λ n. bit_or (n / 10 * 2 ^ 4) (n % 10) == n / 10 * 16 + n % 10) ≡ true
unfolding all_below
nibbles = refl

-- The two nibbles do not overlap, so `|` adds them.
bit_or-nibbles : (a b : ℕ) → a < 10 → b < 10 → bit_or (a * 2 ^ 4) b ≡ a * 16 + b
bit_or-nibbles a b h k =
    let quot : (a * 10 + b) / 10 ≡ a = omega arith in
    let rem : (a * 10 + b) % 10 ≡ b = omega arith in
    rw (quot, rem) at (==→eq _ _ (all_below-at 100 _ (a * 10 + b) nibbles (omega arith)))

abbrev pub http_text : ℕ → ℕ → List ℕ
http_text maj min = codes "HTTP/" ++ (48 + maj) ∷ 46 ∷ (48 + min) ∷ []

-- The version of "HTTP/maj.min" has the minor number in its high and the major number in its low
-- four bits, for digits `maj` and `min`.
pub http_proto_version-digits :
    (maj min : ℕ)
    → maj < 10
    → min < 10
    → http_proto_version (vec (http_text maj min)) ≡ min * 16 + maj
unfolding http_proto_version
http_proto_version-digits maj min h k =
    let sub_maj : 48 + maj - 48 ≡ maj = omega arith in
    let sub_min : 48 + min - 48 ≡ min = omega arith in
    ground (arith, sub_maj, sub_min, bit_or-nibbles min maj k h)

-- Whatever is not "HTTP/" with two digits around a dot is of the unknown version.
pub http_proto_version-known :
    (v : RoVec)
    → http_proto_version v ≢ http_ver_unknown
    → (maj : ℕ) × (min : ℕ) × (maj < 10) × (min < 10) × (bytes v ≡ http_text maj min)
unfolding http_proto_version
http_proto_version-known (vec (h ∷ t ∷ u ∷ p ∷ slash ∷ maj ∷ dot ∷ min ∷ [])) known =
    (maj - 48, min - 48, ground arith, ground arith, ground arith)
http_proto_version-known _ known = absurd (known refl)
