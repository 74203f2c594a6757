-- ===== src/HttpReq/Port.antt =====
-- The port and the host name that `http_req` (http_req.c) takes from the Host header.
use ashttpd.Prelude.{
  ltb, if◌then◌else◌, Bool-cases, inl, inr, ◌≤◌, ◌%◌, sym, ℕ, zero, suc, ◌+◌, ◌^◌, ◌<◌, ◌≡◌, ◌≢◌,
  refl, ap, ◌∙◌, List, [], ◌∷◌, ◌++◌, some, arith, length, take, drop, get_elem?, All,
  length-append, append-nil,
}
use ashttpd.Vec.{vtouint, null, vec}
use ashttpd.Vec.Number.{IsDigit, decimal, vtouint-decimal}
use ashttpd.HttpReq.{Request, http_default_port, split_host, parse_port, extract_port}

get_elem?-mid : (xs ys : List ℕ) (c : ℕ) → get_elem? (xs ++ c ∷ ys) (length xs) ≡ some c
get_elem?-mid [] ys c = refl
get_elem?-mid (x ∷ xs) ys c = get_elem?-mid xs ys c

take-left : (xs ys : List ℕ) → take (length xs) (xs ++ ys) ≡ xs
take-left [] ys = refl
take-left (x ∷ xs) ys = ap (λ t. x ∷ t) (take-left xs ys)

drop-mid : (xs ys : List ℕ) (c : ℕ) → drop (suc (length xs)) (xs ++ c ∷ ys) ≡ ys
drop-mid [] ys c = refl
drop-mid (x ∷ xs) ys c = drop-mid xs ys c

-- The byte at `length xs + j` behind `xs`.
get_elem?-right : (xs ys : List ℕ) (j : ℕ) → get_elem? (xs ++ ys) (length xs + j) ≡ get_elem? ys j
get_elem?-right [] ys j = let e : 0 + j ≡ j = omega arith in rw e
get_elem?-right (x ∷ xs) ys j =
    let e : suc (length xs) + j ≡ suc (length xs + j) = omega arith in
    rw e (get_elem?-right xs ys j)

-- No byte of the list is `c`.
abbrev pub Without : ℕ → List ℕ → Type 0
Without c xs = All (λ x. x ≢ c) xs

Without-at : (c : ℕ) (ys : List ℕ) (j : ℕ) → Without c ys → get_elem? ys j ≢ some c
Without-at c [] j h e = cc
Without-at c (y ∷ ys) zero h e = ground arith
Without-at c (y ∷ ys) (suc j) h e = Without-at c ys j h.1 e

split_host-skip :
    (i : ℕ) (xs : List ℕ) → get_elem? xs i ≢ some 58 → split_host (suc i) xs ≡ split_host i xs
unfolding split_host
split_host-skip i xs h = ground arith

split_host-found :
    (i : ℕ) (xs : List ℕ)
    → get_elem? xs i ≡ some 58
    → split_host (suc i) xs ≡ (vec (take i xs), vec (drop (suc i) xs))
unfolding split_host
split_host-found i xs h = ground arith

split_host-tail :
    (xs ys : List ℕ) (j : ℕ)
    → Without 58 ys
    → split_host (suc (length xs + j)) (xs ++ 58 ∷ ys) ≡ (vec xs, vec ys)
split_host-tail xs ys zero h =
    let shift : length xs + 0 ≡ length xs = omega arith in
    rw (shift, split_host-found (length xs) (xs ++ 58 ∷ ys) (get_elem?-mid xs ys 58))
      (rw (take-left xs (58 ∷ ys), drop-mid xs ys 58))
split_host-tail xs ys (suc j) h =
    let shift : length xs + suc j ≡ suc (length xs + j) = omega arith in
    split_host-skip (length xs + suc j) (xs ++ 58 ∷ ys)
      (rw (get_elem?-right xs (58 ∷ ys) (suc j)) (Without-at 58 ys j h))
    ∙ rw shift (split_host-tail xs ys j h)

split_host-colon :
    (xs ys : List ℕ)
    → Without 58 ys
    → split_host (length (xs ++ 58 ∷ ys)) (xs ++ 58 ∷ ys) ≡ (vec xs, vec ys)
split_host-colon xs ys h =
    let size : length (xs ++ 58 ∷ ys) ≡ suc (length xs + length ys) =
      omega (arith, length-append {0} xs (58 ∷ ys)) in
    rw size (split_host-tail xs ys (length ys) h)

split_host-plain : (i : ℕ) (xs : List ℕ) → Without 58 xs → split_host i xs ≡ (vec xs, null)
split_host-plain zero xs h = unfold split_host in refl
split_host-plain (suc i) xs h =
    split_host-skip i xs (Without-at 58 xs i h) ∙ split_host-plain i xs h

IsDigit-no_colon : (ds : List ℕ) → All IsDigit ds → Without 58 ds
IsDigit-no_colon [] h = tt
IsDigit-no_colon (d ∷ ds) h = (omega arith, IsDigit-no_colon ds h.1)

parse_port-digits :
    (ds : List ℕ)
    → ds ≢ []
    → All IsDigit ds
    → decimal 0 ds < 2 ^ 16
    → parse_port (vec ds) ≡ decimal 0 ds
unfolding parse_port
parse_port-digits [] ne h lt = absurd (ne refl)
parse_port-digits (d ∷ ds) ne h lt =
    ground (arith, append-nil (d ∷ ds), vtouint-decimal (d ∷ ds) [] h tt)

-- A host header without a colon is the host name, and the port is 80.
pub extract_port-plain :
    (r : Request) (name : List ℕ)
    → r.host ≡ vec name
    → Without 58 name
    → extract_port r ≡ record r { hostname = vec name; port = http_default_port }
unfolding extract_port parse_port
extract_port-plain r name host h = ground (arith, split_host-plain (length name) name h)

parse_port-large :
    (ds : List ℕ)
    → All IsDigit ds
    → decimal 0 ds < 2 ^ 32
    → 2 ^ 16 ≤ decimal 0 ds
    → parse_port (vec ds) ≡ http_default_port
unfolding parse_port
parse_port-large ds h lt large =
    let read : vtouint (vec ds) ≡ (decimal 0 ds % 2 ^ 32, length ds) =
      ap (λ t. vtouint (vec t)) (sym (append-nil ds)) ∙ vtouint-decimal ds [] h tt in
    ground (arith, read)

-- A Host header of a name, a colon and digits, with a number that 32 bits hold, is split at the last
-- colon. The port is this number, if 16 bits hold it, and 80 if not. The name may hold colons itself.
pub extract_port-number :
    (r : Request) (name ds : List ℕ)
    → r.host ≡ vec (name ++ 58 ∷ ds)
    → ds ≢ []
    → All IsDigit ds
    → decimal 0 ds < 2 ^ 32
    → extract_port r ≡ record r {
      hostname = vec name;
      port = if ltb (decimal 0 ds) (2 ^ 16) then decimal 0 ds else http_default_port;
    }
unfolding extract_port
extract_port-number r name ds host ne h lt = elim (Bool-cases (ltb (decimal 0 ds) (2 ^ 16))) [
  | inl small ↦
      let port = parse_port-digits ds ne h (ground (arith, small)) in
      ground (arith, small, split_host-colon name ds (IsDigit-no_colon ds h), port)
  | inr large ↦
      let port = parse_port-large ds h lt (ground (arith, large)) in
      ground (arith, large, split_host-colon name ds (IsDigit-no_colon ds h), port)
]
