-- ===== src/HttpParse/Bounds.antt =====
-- The result of `http_decode_buf` (http_parse.c) never passes the end of the buffer.
use ashttpd.Prelude.{ℕ, ◌+◌, ◌≤◌, List, [], ◌∷◌, arith, length}
use ashttpd.HttpParse.{
  Hcb, State, state0, state1, state2, state3, state4, finished, Scan, Table, scan, scan_init, round,
  dispatch, http_decode_buf,
}

module _ {S : Type 0} where
  dispatch-ret :
      (hdrs : List (Hcb S)) (st : State) (c : ℕ) (sc : Scan S)
      → sc.ret ≤ sc.pos
      → (dispatch hdrs st c sc).ret ≤ sc.pos + 1
  unfolding dispatch
  dispatch-ret hdrs state0 c sc h = ground arith
  dispatch-ret hdrs state1 c sc h = ground arith
  dispatch-ret hdrs state2 c sc h = ground arith
  dispatch-ret hdrs state3 c sc h = ground arith
  dispatch-ret hdrs state4 c sc h = ground arith
  dispatch-ret hdrs finished c sc h = ground arith

  scan-ret :
      (hdrs : List (Hcb S)) (cs : List ℕ) (sc : Scan S)
      → sc.ret ≤ sc.pos
      → (scan hdrs cs sc).ret ≤ sc.pos + length cs
  unfolding scan
  scan-ret hdrs [] sc h = omega arith
  scan-ret hdrs (c ∷ cs) sc h =
      omega (arith, scan-ret hdrs cs (round hdrs c sc) (dispatch-ret hdrs sc.state c sc h))

  -- `http_decode_buf` never reports more bytes than it was given.
  pub http_decode_buf-le : (d : Table S) (p : List ℕ) (s : S) → (http_decode_buf d p s).0 ≤ length p
  unfolding http_decode_buf
  http_decode_buf-le d p s = ground (arith, scan-ret d.hdrs p (scan_init s) (omega arith))
