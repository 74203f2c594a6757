-- ===== src/Incremental.antt =====
-- include/http-parse.h: the incremental recogniser of the blank line that ends a request.
-- The two maps are total here: an index past RSTATE_NR_NONTERMINAL, which the assertions exclude,
-- gives the state itself.
pub mod BlankLine
pub mod Chunks
use ashttpd.Prelude.{ℕ, suc, ◌+◌, List, [], ◌∷◌, Bool, true, false, ◌==◌, if◌then◌else◌}

-- RSTATE_INITIAL to RSTATE_CRLFCRLF, in the order of their numbers.
pub data Rstate : Type 0 where
  initial cr lf crlf lfcr crlfcr lflf crlflf lfcrlf crlfcrlf : Rstate

unfoldable pub cr_map : Rstate → Rstate
cr_map initial = cr
cr_map cr = cr
cr_map lf = lfcr
cr_map crlf = crlfcr
cr_map lfcr = cr
cr_map crlfcr = cr
cr_map s = s

unfoldable pub lf_map : Rstate → Rstate
lf_map initial = lf
lf_map cr = crlf
lf_map lf = lflf
lf_map crlf = crlflf
lf_map lfcr = lfcrlf
lf_map crlfcr = crlfcrlf
lf_map s = s

-- RSTATE_TERMINAL
unfoldable pub is_terminal : Rstate → Bool
is_terminal lflf = true
is_terminal crlflf = true
is_terminal lfcrlf = true
is_terminal crlfcrlf = true
is_terminal s = false

-- The state after one byte: the `switch`.
unfoldable pub next_state : Rstate → ℕ → Rstate
unfolding cr_map lf_map
next_state s c = if c == 13 then cr_map s else if c == 10 then lf_map s else initial

-- What a call leaves: its result, the state, and the distance that `*rptr` has moved.
pub record Parsed : Type 0 where
  pub complete : Bool
  pub state : Rstate
  pub moved : ℕ

-- A `return 1` does not move `*rptr` past the byte that ended the request.
unfoldable pub http_parse_incremental : Rstate → List ℕ → Parsed
http_parse_incremental s [] = record { complete = false; state = s; moved = 0 }
http_parse_incremental s (c ∷ cs) =
    let s' = next_state s c in
    let rest = http_parse_incremental s' cs in
    if is_terminal s'
    then record { complete = true; state = s'; moved = 0 }
    else record rest { moved = suc rest.moved }
