-- ===== src/Normalize/Safe.antt =====
-- The whole of `nads_normalize` (normalize.c): what reaches the lookup when it succeeds.
use ashttpd.Prelude.{ℕ, ◌≡◌, ◌≢◌, refl, sym, ap, List, [], ◌∷◌, Option, none, arith, ◌<◌, All}
use ashttpd.Normalize.{
  Outcome, ok, err, fault, Normalized, nads_ok, and_then, norm_query, path_done, norm_path, n_hex,
  n_utf8, n_path, n_split, clobber, until_nul, nads_normalize, split_path,
}
use ashttpd.Normalize.Path.{components, IsPlain, n_path-safe}
use ashttpd.Normalize.Hex.{Token, IsToken, print_tokens, token_bytes, n_hex-print}
use ashttpd.Normalize.Utf8.{n_utf8-ascii}

norm_query-uri :
    (uri u : List ℕ) (query q : Option (List ℕ)) → norm_query uri query ≡ nads_ok u q → u ≡ uri
unfolding norm_query
norm_query-uri uri u query q h = ground arith

path_done-ok :
    (o : Outcome) (u : List ℕ) (query q : Option (List ℕ))
    → path_done o query ≡ nads_ok u q
    → o ≡ ok u
unfolding path_done
path_done-ok (ok v) u query q h = ap ok (sym (norm_query-uri v u query q h))
path_done-ok (err e v) u query q h = cc
path_done-ok fault u query q h = cc

norm_path-ok :
    (buf u : List ℕ) (query q : Option (List ℕ))
    → norm_path buf query ≡ nads_ok u q
    → n_path buf ≡ ok u
unfolding norm_path
norm_path-ok buf u query q h = path_done-ok (n_path buf) u query q h

and_then-ok :
    (o : Outcome) (buf u : List ℕ) (q : Option (List ℕ)) (next : List ℕ → Normalized)
    → and_then o buf next ≡ nads_ok u q
    → (out : List ℕ) × (o ≡ ok out) × (next (until_nul out) ≡ nads_ok u q)
unfolding and_then
and_then-ok (ok out) buf u q next h = (out, refl, h)
and_then-ok (err e out) buf u q next h = cc
and_then-ok fault buf u q next h = cc

-- A URI that `nads_normalize` accepts is an absolute path none of whose components is "." or "..",
-- whatever escapes, encodings, backslashes and doubled slashes it was written with.
pub nads_normalize-safe :
    (buf uri : List ℕ) (query : Option (List ℕ))
    → nads_normalize buf ≡ nads_ok uri query
    → ((split_path uri).0 ≡ []) × All IsPlain (components uri)
unfolding nads_normalize
nads_normalize-safe buf uri query h =
    let uri0 = until_nul (n_split buf).0 in
    let q = clobber (n_split buf).0 (n_split buf).1 in
    let (uri1, _, step1) = and_then-ok (n_hex uri0) uri0 uri query _ h in
    let (uri2, _, step2) =
      and_then-ok (n_utf8 (until_nul uri1)) (until_nul uri1) uri query _ step1 in
    n_path-safe (until_nul uri2) uri (norm_path-ok (until_nul uri2) uri q query step2)

n_split-plain : (cs : List ℕ) → All (λ c. c ≢ 63) cs → n_split cs ≡ (cs, none)
unfolding n_split
n_split-plain [] h = refl
n_split-plain (c ∷ cs) h = ground (arith, n_split-plain cs h.1)

until_nul-string : (cs : List ℕ) → All (λ c. c ≢ 0) cs → until_nul cs ≡ cs
unfolding until_nul
until_nul-string [] h = refl
until_nul-string (c ∷ cs) h = ground (arith, until_nul-string cs h.1)

clobber-none : (uri : List ℕ) → clobber uri none ≡ none
unfolding clobber
clobber-none uri = refl

-- On a URI without a query, written in literals and escapes of ASCII bytes, the chain comes down to
-- the path normalisation of the bytes that were written.
pub nads_normalize-path :
    (ts : List Token)
    → All IsToken ts
    → All (λ c. c < 128) (token_bytes ts)
    → All (λ c. c ≢ 0) (token_bytes ts)
    → All (λ c. c ≢ 63) (print_tokens ts)
    → All (λ c. c ≢ 0) (print_tokens ts)
    → nads_normalize (print_tokens ts) ≡ norm_path (token_bytes ts) none
unfolding nads_normalize
nads_normalize-path ts h low nul query str =
    rw
      (
        n_split-plain (print_tokens ts) query,
        until_nul-string (print_tokens ts) str,
        n_hex-print ts h,
      )
      (unfold and_then in
        rw (
          until_nul-string (token_bytes ts) nul,
          n_utf8-ascii (token_bytes ts) low,
          until_nul-string (token_bytes ts) nul,
        ))
