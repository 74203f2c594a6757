-- ===== src/Normalize.antt =====
-- normalize.c: the normalisation of a request's URI, in the steps of the source.
-- A C string is the list of its bytes without the NUL. The steps rewrite the buffer in place behind
-- their reading position; here each gives the bytes it has written, also when it fails. `char` is
-- signed, as on the platforms the Makefile builds for. The flag CASE_SENSITIVE is the only one set,
-- so the branches of MS_UTF16, PERCENT_HACK and DOUBLE_HEX cannot be taken and `maxlen` is 1.
mod Clean
pub mod Hex
pub mod Idempotent
pub mod Path
pub mod Safe
pub mod Utf8
use Prim.Native.Nat.{bit_and}
use ashttpd.Prelude.{
  take, ℕ, zero, suc, ◌+◌, ◌-◌, ◌*◌, ◌%◌, ◌^◌, List, [], ◌∷◌, ◌++◌, Option, none, some, Bool, true,
  false, not, ◌&&◌, ◌||◌, leb, ltb, ◌==◌, if◌then◌else◌, length, drop, get_elem?, reverse,
}

pub data Error : Type 0 where
  err_success err_bad_hex err_traversal err_bad_utf8 err_null : Error

-- What a step leaves: the string, or the error with the bytes written before it. `fault` is an
-- access outside an array.
pub data Outcome : Type 0 where
  ok : List ℕ → Outcome
  err : Error → List ℕ → Outcome
  fault : Outcome

-- `*out++ = c`, before what the rest of the loop writes.
abbrev pub put : ℕ → Outcome → Outcome
put c (ok out) = ok (c ∷ out)
put c (err e out) = err e (c ∷ out)
put c fault = fault

abbrev pub put_all : List ℕ → Outcome → Outcome
put_all [] o = o
put_all (c ∷ cs) o = put c (put_all cs o)

abbrev pub nads_flags : ℕ
nads_flags = 1

unfoldable pub nads_ws : ℕ → Bool
nads_ws x = not (bit_and nads_flags x == 0)

-- `chartype(c) & T_HEX`
unfoldable pub is_hex : ℕ → Bool
is_hex c = (leb 48 c && leb c 57) || (leb 97 c && leb c 102) || (leb 65 c && leb c 70)

unfoldable pub hexchar : ℕ → ℕ
hexchar c =
    if ltb ((c + 2 ^ 32 - 48) % 2 ^ 32) 10
    then (c + 2 ^ 32 - 48) % 2 ^ 32
    else if ltb ((c + 2 ^ 32 - 97) % 2 ^ 32) 6
    then (c + 2 ^ 32 - 97) % 2 ^ 32 + 10
    else if ltb ((c + 2 ^ 32 - 65) % 2 ^ 32) 6
    then (c + 2 ^ 32 - 65) % 2 ^ 32 + 10
    else 0

-- `state` with the digits gathered in `hbuf`.
pub data HexState : Type 0 where
  plain percent : HexState
  digit : ℕ → HexState

-- The two nibbles do not overlap, so their `|` is a sum.
unfoldable pub hex_byte : ℕ → ℕ → ℕ
unfolding hexchar
hex_byte hi lo = hexchar hi * 16 + hexchar lo

unfoldable pub n_hex_loop : HexState → List ℕ → Outcome
unfolding is_hex hex_byte
n_hex_loop plain [] = ok []
n_hex_loop percent [] = err err_bad_hex []
n_hex_loop (digit h) [] = err err_bad_hex []
n_hex_loop plain (c ∷ cs) =
    let escape = n_hex_loop percent cs in
    let copy = n_hex_loop plain cs in if c == b'%' then escape else put c copy
n_hex_loop percent (c ∷ cs) =
    let rest = n_hex_loop (digit c) cs in if is_hex c then rest else err err_bad_hex []
n_hex_loop (digit h) (c ∷ cs) =
    let rest = n_hex_loop plain cs in
    if is_hex c
    then (if hex_byte h c == 0 then err err_null [] else put (hex_byte h c) rest)
    else err err_bad_hex []

unfoldable pub n_hex : List ℕ → Outcome
n_hex buf = n_hex_loop plain buf

-- A `char` that is promoted to `int` equals `k`.
unfoldable pub char_is : ℕ → ℕ → Bool
char_is c k = ltb c 128 && (c == k)

-- The loop over the lead byte's high bits, `n` being 2 ^ b: `len` counts from 1.
unfoldable pub utf8_len : ℕ → ℕ → ℕ → ℕ
utf8_len lead zero len = len
utf8_len lead (suc b) len =
    let rest = utf8_len lead b (len + 1) in if bit_and lead (2 ^ suc b) == 0 then len else rest

abbrev pub fmask : List ℕ
fmask = 0x1f ∷ 0x0f ∷ 0x07 ∷ 0x03 ∷ 0x01 ∷ 0 ∷ []

-- The bytes behind the first, six bits each, the shifted parts not overlapping.
unfoldable pub ucs4_tail : ℕ → List ℕ → ℕ
ucs4_tail acc [] = acc
ucs4_tail acc (c ∷ cs) = ucs4_tail (acc * 64 + bit_and c 0x3f) cs

-- `fmask[len - 2]`, where `none` is an access outside of the array: before it for a `len` below 2.
unfoldable pub mask_at : (len : ℕ) → Option ℕ
mask_at zero = none
mask_at (suc zero) = none
mask_at (suc (suc n)) = get_elem? fmask n

-- The character of a sequence, `none` where the mask of its first byte lies outside of the array.
unfoldable pub n_ucs4 : List ℕ → Option ℕ
unfolding ucs4_tail mask_at
n_ucs4 [] = some 0
n_ucs4 (c ∷ cs) = elim (mask_at (length (c ∷ cs))) [
  | none ↦ none
  | some mask ↦ some (ucs4_tail (bit_and c mask) cs)
]

-- What is written for a sequence of `len` bytes. `chr` may hold more: a sequence of one byte has got a
-- second into it.
unfoldable pub utf8_flush : ℕ → List ℕ → Outcome → Outcome
unfolding n_ucs4
utf8_flush len chr rest = elim (n_ucs4 (take len chr)) [
  | none ↦ fault
  | some ucs4 ↦ if leb 256 ucs4 then put_all (take len chr) rest else put ucs4 rest
]

-- State 0, or state 1 with `len` and the bytes of `chr`, newest first.
pub data Utf8State : Type 0 where
  single : Utf8State
  multi : ℕ → List ℕ → Utf8State

-- `chr` has room for six bytes. No `char` equals 0xff or 0xfe.
unfoldable pub n_utf8_loop : Utf8State → List ℕ → Outcome
unfolding char_is utf8_len utf8_flush
n_utf8_loop single [] = ok []
n_utf8_loop (multi len chr) [] = err err_bad_utf8 []
n_utf8_loop single (c ∷ cs) =
    let lead = n_utf8_loop (multi (utf8_len c 6 1) (c ∷ [])) cs in
    let copy = n_utf8_loop single cs in
    if char_is c 0xff || char_is c 0xfe
    then err err_bad_utf8 []
    else if leb 128 c
    then lead
    else put c copy
n_utf8_loop (multi len chr) (c ∷ cs) =
    let full = n_utf8_loop single cs in
    let more = n_utf8_loop (multi len (c ∷ chr)) cs in
    if char_is c 0xff || char_is c 0xfe
    then err err_bad_utf8 []
    else if leb 6 (length chr)
    then fault
    else if leb len (length chr + 1)
    then utf8_flush len (reverse (c ∷ chr)) full
    else more

unfoldable pub n_utf8 : List ℕ → Outcome
n_utf8 buf = n_utf8_loop single buf

-- "Converts backslashes to forward slashes".
unfoldable pub to_slash : ℕ → ℕ
to_slash b = if b == b'\\' then b'/' else b

-- `n_pcount`: the string it leaves. `prev` says that the byte before was a slash. The count that it
-- returns is the number of slashes left.
unfoldable pub n_pcount : Bool → List ℕ → List ℕ
n_pcount prev [] = []
n_pcount prev (b ∷ bs) =
    let c = to_slash b in
    let rest = n_pcount (c == b'/') bs in if (c == b'/') && prev then rest else c ∷ rest

-- The bytes up to the first slash, and the components, each behind a slash.
unfoldable pub split_path : List ℕ → List ℕ × List (List ℕ)
split_path [] = ([], [])
split_path (c ∷ cs) = let (s, ss) = split_path cs in if c == b'/' then ([], s ∷ ss) else (c ∷ s, ss)

unfoldable pub is_dot : List ℕ → Bool
is_dot (a ∷ []) = a == b'.'
is_dot _ = false

unfoldable pub is_dotdot : List ℕ → Bool
is_dotdot (a ∷ b ∷ []) = (a == b'.') && (b == b'.')
is_dotdot _ = false

-- "Strip out /./ and /../": the components `c[0]` to `c[out - 1]`, newest first, and those to read.
unfoldable pub strip : List (List ℕ) → List (List ℕ) → Option (List (List ℕ))
unfolding is_dot is_dotdot
strip kept [] = some (reverse kept)
strip [] (c ∷ cs) =
    let skip = strip [] cs in
    let keep = strip (c ∷ []) cs in if is_dot c then skip else if is_dotdot c then none else keep
strip (k ∷ kept) (c ∷ cs) =
    let skip = strip (k ∷ kept) cs in
    let up = strip kept cs in
    let keep = strip (c ∷ k ∷ kept) cs in
    if is_dot c then skip else if is_dotdot c then up else keep

-- "Reconstruct the URL", behind the first slash.
unfoldable pub join : List (List ℕ) → List ℕ
join [] = []
join (c ∷ []) = c
join (c ∷ d ∷ cs) = c ++ b'/' ∷ join (d ∷ cs)

-- On a traversal the buffer's slashes have become NULs: what is left is the text before the first.
unfoldable pub n_path : List ℕ → Outcome
unfolding n_pcount split_path strip join
n_path buf =
    let (front, c) = split_path (n_pcount false buf) in
    elim (strip [] c) [ none ↦ err err_traversal front | some kept ↦ ok (b'/' ∷ join kept) ]

-- `n->uri` and `n->query`.
unfoldable pub n_split : List ℕ → List ℕ × Option (List ℕ)
n_split [] = ([], none)
n_split (c ∷ cs) =
    let (uri, query) = n_split cs in if c == b'?' then ([], some cs) else (c ∷ uri, query)

-- The C string that a buffer holds.
unfoldable pub until_nul : List ℕ → List ℕ
until_nul [] = []
until_nul (c ∷ cs) = let rest = until_nul cs in if c == 0 then [] else c ∷ rest

-- `nads_errcode` with the return value NADS_FAIL or NADS_OK, and the strings at `uri` and `query`.
pub data Normalized : Type 0 where
  nads_ok : List ℕ → Option (List ℕ) → Normalized
  nads_fail : Error → List ℕ → Normalized
  nads_fault : Normalized

-- The string at `buf` after a step that wrote `out` and then failed.
unfoldable pub left_over : List ℕ → List ℕ → List ℕ
unfolding until_nul
left_over out buf = until_nul (out ++ drop (length out) buf)

-- One step of the chain, on the C string `buf`.
unfoldable pub and_then : Outcome → List ℕ → (List ℕ → Normalized) → Normalized
and_then (ok out) buf next = next (until_nul out)
and_then (err e out) buf next = nads_fail e (left_over out buf)
and_then fault buf next = nads_fault

unfoldable pub norm_query : List ℕ → Option (List ℕ) → Normalized
norm_query uri none = nads_ok uri none
norm_query uri (some q) = elim (n_hex (until_nul q)) [
  | ok out ↦ nads_ok uri (some out)
  | err e out ↦ nads_fail e uri
  | fault ↦ nads_fault
]

-- `n_path` fails with the NULs that it put in place of the slashes.
unfoldable pub path_done : Outcome → Option (List ℕ) → Normalized
path_done (ok uri) query = norm_query uri query
path_done (err e front) query = nads_fail e front
path_done fault query = nads_fault

unfoldable pub norm_path : List ℕ → Option (List ℕ) → Normalized
unfolding path_done
norm_path buf query = path_done (n_path buf) query

-- On an empty string `n_path` writes its NUL behind the string's own, where the query begins if the
-- URI was empty from the start.
unfoldable pub clobber : List ℕ → Option (List ℕ) → Option (List ℕ)
clobber uri none = none
clobber [] (some q) = some []
clobber (c ∷ uri) (some q) = some q

unfoldable pub nads_normalize : List ℕ → Normalized
unfolding n_split n_hex n_utf8 n_path and_then norm_query norm_path clobber
nads_normalize buf =
    let (uri, query) = n_split buf in
    let uri0 = until_nul uri in
    and_then (n_hex uri0) uri0
      λ uri1. and_then (n_utf8 uri1) uri1 λ uri2. norm_path uri2 (clobber uri query)
