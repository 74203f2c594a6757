-- ===== src/Incremental/Chunks.antt =====
-- `http_parse_incremental` (include/http-parse.h) gives the same verdict however the request is cut
-- into the pieces that the socket delivers.
use ashttpd.Prelude.{ℕ, ◌+◌, ◌≤◌, ◌≡◌, List, [], ◌∷◌, ◌++◌, arith, length, if◌then◌else◌}
use ashttpd.Incremental.{Rstate, next_state, Parsed, http_parse_incremental}

-- A call on more data, once a first call on `xs` has not found the end of the request.
unfoldable pub continue : Parsed → List ℕ → Parsed
continue r ys =
    let more = http_parse_incremental r.state ys in
    if r.complete then r else record more { moved = r.moved + more.moved }

-- Calling the recogniser on a first chunk and then, if it is not complete, on a second one leaves
-- the result, the state and the position that one call on both chunks leaves.
pub http_parse_incremental-append :
    (s : Rstate) (xs ys : List ℕ)
    → http_parse_incremental s (xs ++ ys) ≡ continue (http_parse_incremental s xs) ys
unfolding http_parse_incremental continue
http_parse_incremental-append s [] ys = ground arith
http_parse_incremental-append s (x ∷ xs) ys =
    ground (arith, http_parse_incremental-append (next_state s x) xs ys)

-- The recogniser stays within its input: an incomplete call has read all of it, and a complete one
-- stands on a byte of it.
pub http_parse_incremental-moved :
    (s : Rstate) (xs : List ℕ)
    → (http_parse_incremental s xs).moved
        + (if (http_parse_incremental s xs).complete then 1 else 0)
      ≤ length xs
unfolding http_parse_incremental
http_parse_incremental-moved s [] = omega arith
http_parse_incremental-moved s (x ∷ xs) =
    ground (arith, http_parse_incremental-moved (next_state s x) xs)
