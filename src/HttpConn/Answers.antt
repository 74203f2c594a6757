-- ===== src/HttpConn/Answers.antt =====
-- What the responses of http_conn.c leave in the buffers of a connection.
use ashttpd.Prelude.{
  [], length-take, length-drop, ℕ, ◌-◌, ◌≤◌, ◌<◌, ◌≡◌, ◌⊎◌, refl, sym, ap, ◌∙◌, List, ◌++◌, Option,
  none, some, arith, ◌==◌, Bool-cases, inl, inr, length, drop, ==→eq,
}
use ashttpd.HttpBuf.{HttpBuf, b_end}
use ashttpd.HttpBuf.Queue.{
  IsBuf, contents, buf_access, buf_done_read-contents, buf_done_write-contents, buf_reset-contents,
  length-zero,
}
use ashttpd.Incremental.{initial}
use ashttpd.HttpConn.{World, call, free_req}
use ashttpd.HttpConn.Texts.{resp400, resp403, resp404, resp500, resp501}
use ashttpd.HttpConn.Reply.{
  write_text, respond, response_400, response_403, response_404, response_500, response_501,
}
use ashttpd.HttpConn.Serve.{request_done}

write_text-contents :
    (text : List ℕ) (b : HttpBuf)
    → IsBuf b
    → 0 < length text
    → length text ≤ b_end b - b.b_write
    → (b' : HttpBuf) × (write_text text b ≡ some b') × IsBuf b' × (contents b' ≡ contents b ++ text)
unfolding write_text
write_text-contents text b v ne fits =
    let (b', e, w, c) = buf_done_write-contents text v fits in
    (b', ground (arith, (buf_access v).1, e), w, c)

-- The response is the text, no data follows, and the connection is closed after it or not.
abbrev pub Replies : List ℕ → ℕ → HttpBuf → World → Option World → Type 0
Replies text close b w r =
    (b' : HttpBuf) × (r
      ≡ some
          (record w { h = record (w.h) { h_res = some b'; h_data_len = 0; h_conn_close = close } }))
    × IsBuf b'
    × (contents b' ≡ contents b ++ text)

-- With room for the longest of the texts, each error response runs into no assertion and appends its
-- text to the response; the connection is closed after the codes 400, 500 and 501, and goes on
-- after 403 and 404 as it would have.
pub error_responses :
    (b : HttpBuf) (w : World)
    → w.h.h_res ≡ some b
    → IsBuf b
    → 181 ≤ b_end b - b.b_write
    → Replies resp400 1 b w (response_400 w)
      × Replies resp500 1 b w (response_500 w)
      × Replies resp501 1 b w (response_501 w)
      × Replies resp403 w.h.h_conn_close b w (response_403 w)
      × Replies resp404 w.h.h_conn_close b w (response_404 w)
unfolding response_400 response_500 response_501 response_403 response_404 respond
error_responses b w h v room =
    let (b0, e0, v0, c0) = write_text-contents resp400 b v (omega arith) (omega arith) in
    let (b1, e1, v1, c1) = write_text-contents resp500 b v (omega arith) (omega arith) in
    let (b2, e2, v2, c2) = write_text-contents resp501 b v (omega arith) (omega arith) in
    let (b3, e3, v3, c3) = write_text-contents resp403 b v (omega arith) (omega arith) in
    let (b4, e4, v4, c4) = write_text-contents resp404 b v (omega arith) (omega arith) in
    (
      (b0, rw (h, e0) refl, v0, c0),
      (b1, rw (h, e1) refl, v1, c1),
      (b2, rw (h, e2) refl, v2, c2),
      (b3, rw (h, e3) refl, v3, c3),
      (b4, rw (h, e4) refl, v4, c4),
    )

-- The buffer of the request is kept for the bytes that are left, which begin at its front, with the
-- recogniser at its first state and position; without such bytes it is freed.
abbrev pub KeepsRest : List ℕ → World → Type 0
KeepsRest bytes w' =
    ((bytes ≡ []) × (w'.h.h_req ≡ none))
    ⊎ ((0 < length bytes)
        × ((b' : HttpBuf) × (w'.h.h_req ≡ some b')
            × IsBuf b'
            × (b'.b_read ≡ 0)
            × (contents b' ≡ bytes))
        × (w'.h.h_rptr ≡ 0)
        × (w'.h.h_rstate ≡ initial))

-- After a request of `hlen` bytes, of those that its buffer holds, the buffer is freed if it holds no
-- more, and otherwise kept, with exactly the bytes behind the request, at its front, and with the
-- recogniser at its first position and state.
pub request_done-left :
    (hlen : ℕ) (req : HttpBuf) (w : World)
    → w.h.h_req ≡ some req
    → IsBuf req
    → hlen ≤ length (contents req)
    → (w' : World) × (request_done hlen w ≡ some w') × KeepsRest (drop hlen (contents req)) w'
unfolding request_done
request_done-left hlen req w h v fits =
    let (b, e, bv, left, _) = buf_done_read-contents hlen v fits in
    let (b', e', bv', same, _, end) = buf_reset-contents bv in
    elim (Bool-cases (length (contents b) == 0)) [
      | inl empty ↦ (
        call free_req (record w { h = record (w.h) { h_req = none } }),
        ground (arith, h, e, (buf_access bv).0, empty),
        inl (
          length-zero (drop hlen (contents req))
              (sym (ap length left) ∙ ==→eq (length (contents b)) 0 empty),
          refl,
        ),
      )
      | inr more ↦ (
        record w { h = record (w.h) { h_req = some b'; h_rptr = 0; h_rstate = initial } },
        ground (arith, h, e, (buf_access bv).0, more, e'),
        inr (
          ground (arith, more, ap length left),
          (b', refl, bv', at_front b b' bv' same end, same ∙ left),
          refl,
          refl,
        ),
      )
    ]
  where
    at_front :
        (b b' : HttpBuf)
        → IsBuf b'
        → contents b' ≡ contents b
        → b'.b_write ≡ length (contents b)
        → b'.b_read ≡ 0
    at_front b b' v same end =
        let size =
          length-take (b'.b_write - b'.b_read) (drop b'.b_read b'.mem)
            (omega (arith, length-drop b'.b_read b'.mem, v.ordered, v.inside)) in
        omega (arith, v.ordered, size, ap length same, end)
