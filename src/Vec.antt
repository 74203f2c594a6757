-- ===== src/Vec.antt =====
-- vec.c: byte vectors (`struct ro_vec`). A vector is the bytes it covers; its pointer may be NULL.
-- Lengths and byte differences fit an `int`, since every vector lies in a buffer of a few KB, so
-- the conversion of a difference from `ssize_t` to `int` is not modelled.
pub mod Compare
pub mod Number
use ashttpd.Prelude.{
  ℕ, ◌+◌, ◌-◌, ◌*◌, ◌%◌, ◌^◌, List, [], ◌∷◌, ◌&&◌, leb, if◌then◌else◌, length, ℤ, pos, sub_ℕ,
  is_zero,
}

-- `v_ptr == NULL`, or the `v_len` bytes at `v_ptr`.
pub data RoVec : Type 0 where
  null : RoVec
  vec : List ℕ → RoVec

abbrev pub bytes : RoVec → List ℕ
bytes null = []
bytes (vec xs) = xs

abbrev pub v_len : RoVec → ℕ
v_len v = length (bytes v)

-- `tolower` in the C locale.
unfoldable pub to_lower : ℕ → ℕ
to_lower c = if leb 65 c && leb c 90 then c + 32 else c

-- The value that the loop of `vtouint` has gathered, and the number of bytes it consumed.
-- `(*ptr) - '0'` is unsigned, so a byte below '0' wraps above 9.
unfoldable pub vtouint_loop : List ℕ → ℕ → ℕ → ℕ × ℕ
vtouint_loop [] u n = (u, n)
vtouint_loop (c ∷ cs) u n =
    let digit = (c + 2 ^ 32 - 48) % 2 ^ 32 in
    let rest = vtouint_loop cs ((u * 10 % 2 ^ 32 + digit) % 2 ^ 32) (n + 1) in
    if leb 10 digit then (u, n) else rest

-- `*u` and the result of `vtouint`.
unfoldable pub vtouint : RoVec → ℕ × ℕ
unfolding vtouint_loop
vtouint v = vtouint_loop (bytes v) 0 0

-- The first non-zero difference of two vectors' bytes, read through `f`.
unfoldable pub diff_loop : (ℕ → ℕ) → List ℕ → List ℕ → ℤ
diff_loop f (x ∷ xs) (y ∷ ys) =
    let rest = diff_loop f xs ys in let ret = sub_ℕ (f x) (f y) in if is_zero ret then rest else ret
diff_loop f _ _ = pos 0

unfoldable pub vcasecmp_fast : RoVec → RoVec → ℤ
vcasecmp_fast v1 v2 =
    let ret = sub_ℕ (v_len v1) (v_len v2) in
    if is_zero ret then diff_loop to_lower (bytes v1) (bytes v2) else ret

unfoldable pub vcmp_fast : RoVec → RoVec → ℤ
vcmp_fast v1 v2 =
    let ret = sub_ℕ (v_len v1) (v_len v2) in
    if is_zero ret then diff_loop (λ x. x) (bytes v1) (bytes v2) else ret

-- `str` is the C string's bytes without its NUL.
unfoldable pub vstrcmp_fast : RoVec → List ℕ → ℤ
vstrcmp_fast v1 str = vcasecmp_fast v1 (vec str)

-- The loop over the common prefix: the outer `ret`, the length difference, is what remains.
unfoldable pub prefix_loop : (ℕ → ℕ) → List ℕ → List ℕ → ℤ → ℤ
prefix_loop f (x ∷ xs) (y ∷ ys) ret =
    let rest = prefix_loop f xs ys ret in let d = sub_ℕ (f x) (f y) in if is_zero d then rest else d
prefix_loop f _ _ ret = ret

unfoldable pub vcasecmp : RoVec → RoVec → ℤ
vcasecmp v1 v2 = prefix_loop to_lower (bytes v1) (bytes v2) (sub_ℕ (v_len v1) (v_len v2))

unfoldable pub vcmp : RoVec → RoVec → ℤ
vcmp v1 v2 = prefix_loop (λ x. x) (bytes v1) (bytes v2) (sub_ℕ (v_len v1) (v_len v2))

unfoldable pub vstrcmp : RoVec → List ℕ → ℤ
vstrcmp v1 str = vcasecmp v1 (vec str)
