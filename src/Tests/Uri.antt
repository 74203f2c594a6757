-- ===== src/Tests/Uri.antt =====
-- normalize.c and vec.c at concrete inputs.
use ashttpd.Prelude.{
  ℕ, ◌+◌, ◌*◌, ◌%◌, ◌≡◌, refl, List, [], ◌∷◌, ◌++◌, some, true, false, arith, leb, if◌then◌else◌,
  codes, All,
}
use ashttpd.Vec.{RoVec, vec}
use ashttpd.Normalize.{
  Outcome, ok, fault, put, n_hex, n_utf8, n_path, split_path, nads_normalize, nads_ok, norm_path,
}
use ashttpd.Normalize.Hex.{Token, literal, escaped}
use ashttpd.Normalize.Path.{IsPlain, components}
use ashttpd.Normalize.Idempotent.{n_path_idem}
use ashttpd.Normalize.Utf8.{n_utf8-continuation, n_utf8-pair}
use ashttpd.Normalize.Safe.{nads_normalize-safe}

abbrev dotted : List ℕ
dotted = codes "/a/./b%2f../c?x=1"

dotted_run : nads_normalize dotted ≡ nads_ok (codes "/a/c") (some (codes "x=1"))
unfolding nads_normalize ashttpd.Normalize.n_hex_loop ashttpd.Normalize.until_nul
    ashttpd.Normalize.n_utf8_loop ashttpd.Normalize.to_slash
dotted_run = refl

nads_normalize-safe_example :
    ((split_path (codes "/a/c")).0 ≡ []) × All IsPlain (components (codes "/a/c"))
nads_normalize-safe_example =
    nads_normalize-safe dotted (codes "/a/c") (some (codes "x=1")) dotted_run

n_path_run : n_path (codes "//a/../b/") ≡ ok (codes "/b/")
unfolding n_path ashttpd.Normalize.to_slash
n_path_run = refl

n_path_idem_example : n_path (codes "/b/") ≡ ok (codes "/b/")
n_path_idem_example = n_path_idem (codes "//a/../b/") (codes "/b/") n_path_run

abbrev escapes : List Token
escapes = literal 97 ∷ escaped true false 47 ∷ []

n_hex_run : n_hex (codes "%41b") ≡ ok (65 ∷ 98 ∷ [])
unfolding n_hex ashttpd.Normalize.n_hex_loop
n_hex_run = refl

n_utf8-continuation_example : n_utf8 (codes "/" ++ 128 ∷ 65 ∷ []) ≡ fault
n_utf8-continuation_example =
    n_utf8-continuation (codes "/") 128 65 [] (ground arith) (omega arith) (omega arith)

-- U+00E9 becomes the byte 233.
n_utf8-pair_example : n_utf8 ((192 + 3) ∷ 169 ∷ []) ≡ (
    if leb 256 (3 * 64 + 169 % 64)
    then put (192 + 3) (put 169 (n_utf8 []))
    else put (3 * 64 + 169 % 64) (n_utf8 []))
n_utf8-pair_example = n_utf8-pair 3 169 [] (omega arith) (omega arith)

abbrev host : RoVec
host = vec (codes "Host")

abbrev etag : RoVec
etag = vec (codes "Etag")
