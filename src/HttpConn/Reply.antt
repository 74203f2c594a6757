-- ===== src/HttpConn/Reply.antt =====
-- http_conn.c: the responses of one text, `response_400` to `response_501`.
use ashttpd.Prelude.{
  ℕ, ◌-◌, List, [], ◌∷◌, ◌++◌, Option, some, ◌&&◌, leb, ltb, if◌then◌else◌, length, take, ◌>>=◌,
  ◌>>◌, assert,
}
use ashttpd.Vec.{RoVec, bytes}
use ashttpd.Normalize.{until_nul}
use ashttpd.HttpBuf.{HttpBuf, buf_write, buf_done_write, store}
use ashttpd.HttpConn.{World}
use ashttpd.HttpConn.Texts.{
  resp400, resp500, resp301_front, resp301_back, resp301, resp403, resp404, resp501,
}

-- What `snprintf` with room for `room` bytes leaves of a text, without the NUL behind it if all of
-- the text fits.
unfoldable pub snprintf_bytes : ℕ → List ℕ → List ℕ
snprintf_bytes room text =
    if ltb (length text) room
    then text
    else if ltb 0 room
    then take (room - 1) text ++ 0 ∷ []
    else []

-- The text is copied to `b_write`, after the assertion that there is space for it.
unfoldable pub write_text : List ℕ → HttpBuf → Option HttpBuf
write_text text b = do
  space ← buf_write b
  assert (space.0 && leb (length text) space.1)
  r ← buf_done_write (store b text) (length text)
  some r.0

unfoldable pub respond : List ℕ → World → Option World
unfolding write_text
respond text w = do
  res ← w.h.h_res
  b ← write_text text res
  some (record w { h = record (w.h) { h_res = some b; h_data_len = 0 } })

abbrev pub close_after : World → World
close_after w = record w { h = record (w.h) { h_conn_close = 1 } }

unfoldable pub response_403 : World → Option World
response_403 w = respond resp403 w

unfoldable pub response_404 : World → Option World
response_404 w = respond resp404 w

unfoldable pub response_501 : World → Option World
response_501 w = do w' ← respond resp501 w; some (close_after w')

unfoldable pub response_400 : World → Option World
response_400 w = do w' ← respond resp400 w; some (close_after w')

unfoldable pub response_500 : World → Option World
response_500 w = do w' ← respond resp500 w; some (close_after w')

-- The text of `resp301` for a host and a location; `%.*s` stops at a NUL.
abbrev pub moved_text : RoVec → RoVec → List ℕ
moved_text host loc =
    resp301_front ++ (until_nul (bytes host) ++ (until_nul (bytes loc) ++ resp301_back))

-- The format is copied to the buffer first, then the text is printed over it; the number of bytes
-- passed on is that of the whole text.
unfoldable pub response_301 : RoVec → RoVec → World → Option World
response_301 host loc w = do
  res ← w.h.h_res
  space ← buf_write res
  assert (space.0 && leb (length resp301) space.1)
  let text = moved_text host loc
  let b = store (store res resp301) (snprintf_bytes space.1 text)
  r ← buf_done_write b (length text)
  some (record w { h = record (w.h) { h_res = some r.0; h_data_len = 0 } })
