-- ===== src/Sync/Steps.antt =====
-- What `io_sync_write` of io_sync.c does with the bytes of the file: those that were sent, those in the
-- buffer and those still to be read are always the same, in their order.
use mathlib.Core.Path.{subst, ap₂}
use ashttpd.Prelude.{
  ℕ, ◌+◌, ◌-◌, ◌≤◌, ◌≡◌, refl, sym, ap, ◌∙◌, List, [], ◌++◌, Option, none, some, Bool, true, false,
  not, arith, ltb, ◌==◌, Bool-cases, inl, inr, length, take, drop, append_assoc, take-append-drop,
}
use ashttpd.HttpBuf.{HttpBuf, b_end, buf_read}
use ashttpd.HttpBuf.Queue.{
  IsBuf, contents, buf_access, buf_done_read-contents, buf_reset-contents, length-zero,
}
use ashttpd.HttpConn.{
  conn_data, World, call, send, free_data, http_conn_get_priv, http_conn_set_priv, nbio_inactive,
  nbio_write,
}
use ashttpd.HttpConn.Header.{SendResult, again, failed, sent}
use ashttpd.HttpConn.Life.{IsConn, IsCounted}
use ashttpd.HttpConn.Transfer.{Goes, Takes, pending, sent_bytes}
use ashttpd.HttpConn.Ranges.{range, http_conn_data_complete-Keeps}
use ashttpd.Os.{Answer}
use ashttpd.Sync.{top_up, data_sent, io_sync_write}
use ashttpd.Sync.TopUp.{Reads, http_conn_get_priv-some, inactive-some, inactive_sent, top_up-moved}

-- The buffer that is left, if one is.
abbrev pub HasBuf : Option HttpBuf → Type 0
HasBuf none = Unit
HasBuf (some b) = IsBuf b

-- The bytes that went out, those in the buffer and those left in the range are the same before and
-- after; the buffer is still well-formed, and the connection goes on, or is about to be killed.
abbrev pub Passes : List ℕ → HttpBuf → World → Option HttpBuf × World × Bool → Type 0
Passes file b w (o, w', more) =
    (sent_bytes w'.calls ++ (pending o ++ range file w')
      ≡ sent_bytes w.calls ++ (contents b ++ range file w))
    × HasBuf o
    × Goes (w', more)

data_sent-Passes :
    (file : List ℕ) (n : ℕ) (b : HttpBuf) (w : World)
    → IsConn w
    → w.h.h_state ≡ conn_data
    → IsBuf b
    → n ≤ length (contents b)
    → (r : Option HttpBuf × World × Bool) × (data_sent n b w ≡ some r) × Passes file b w r
unfolding data_sent sent_bytes http_conn_set_priv
data_sent-Passes file n b w v d is_buf fits =
    let len = w.h.h_data_len in
    let (b1, e, is_buf1, left, _) = buf_done_read-contents n is_buf fits in
    let w1 : World = call (send (not (len == 0)) (take n (contents b))) w in
    let moved : sent_bytes w1.calls ++ (contents b1 ++ range file w)
        ≡ sent_bytes w.calls ++ (contents b ++ range file w) =
      append_assoc (sent_bytes w.calls) (take n (contents b)) (contents b1 ++ range file w)
      ∙ ap (λ t. sent_bytes w.calls ++ t)
          (sym (append_assoc (take n (contents b)) (contents b1) (range file w))
            ∙ ap (λ t. t ++ range file w)
                (ap (λ t. take n (contents b) ++ t) left ∙ take-append-drop n (contents b))) in
    elim (Bool-cases (length (contents b1) + len == 0)) [
      | inl done ↦
          let empty : length (contents b1) ≡ 0 = ground (arith, done) in
          let z : len ≡ 0 = ground (arith, done) in
          let w2 : World = record w1 { h = record (w.h) { h_io_state = 0; h_io_priv = none } } in
          let set : http_conn_set_priv none 0 w1 ≡ some w2 = ground (arith, d) in
          let (w3, e3, (_, calls, _), none_left, _, conn) =
            http_conn_data_complete-Keeps file (call free_data w2) v d z in
          let all : contents b1 ++ range file w ≡ [] =
            ap₂ (λ a k. a ++ take k (drop w.h.h_data_off file)) (length-zero (contents b1) empty)
              z in
          (
            (none, w3, true),
            rw ((buf_access is_buf).0, e, (buf_access is_buf1).0, done, set, e3) refl,
            (ap₂ (λ a t. a ++ t) calls (none_left ∙ sym all) ∙ moved, tt, conn),
          )
      | inr more ↦ elim (Bool-cases (ltb (b_end b1 - b1.b_write) len)) [
        | inl full ↦
            let (b2, e2, is_buf2, same, _, _) = buf_reset-contents is_buf1 in
            (
              (some b2, w1, true),
              rw
                  (
                    (buf_access is_buf).0,
                    e,
                    (buf_access is_buf1).0,
                    more,
                    (buf_access is_buf1).1,
                    full,
                    e2,
                  )
                  refl,
              (ap (λ t. sent_bytes w1.calls ++ (t ++ range file w)) same ∙ moved, is_buf2, v),
            )
        | inr space ↦ (
          (some b1, w1, true),
          rw ((buf_access is_buf).0, e, (buf_access is_buf1).0, more, (buf_access is_buf1).1, space)
              refl,
          (moved, is_buf1, v),
        )
      ]
    ]

-- What `send` returns for what is in the buffer once it has been topped up.
abbrev pub TakesBuf : (file : List ℕ) → List Answer → HttpBuf → World → SendResult → Type 0
TakesBuf file ans b w ret =
    (t : HttpBuf × World × Bool) → top_up file ans b w ≡ some t → Takes ret t.0

Goes-killed :
    (w : World)
    → w.h.h_state ≡ conn_data
    → IsCounted w.h.h_state w.h.h_open w.concurrency
    → Goes (w, false)
Goes-killed w d v =
    let c : IsCounted conn_data w.h.h_open w.concurrency =
      subst (λ t. IsCounted t w.h.h_open w.concurrency) d v in
    (c.0, (v, λ r. ground (arith, d, r)))

io_sync_write-sent :
    (file : List ℕ) (ans : List Answer) (n : ℕ) (b b1 : HttpBuf) (w w1 : World) (more : Bool)
    {p : Option ℕ × ℕ} {ptr : List ℕ × ℕ}
    → http_conn_get_priv w ≡ some p
    → top_up file ans b w ≡ some (b1, w1, more)
    → more ≡ true
    → buf_read b1 ≡ some ptr
    → (n == 0) ≡ false
    → io_sync_write file ans (sent n) b w ≡ data_sent n b1 w1
unfolding io_sync_write
io_sync_write-sent file ans n b b1 w w1 more priv e on ptr something =
    rw (priv, e, on, ptr, something) refl

-- A call of `io_sync_write` while data is sent runs into no assertion, if the system's answers are right
-- for the file and `send` takes no more than it is given. The bytes on the socket, those in the buffer
-- and those of the range still to be read are the same before and after it, in this order; the buffer is
-- well-formed, or given back with nothing left in it, and the connection is as it should be, or open
-- and about to be killed.
pub io_sync_write-Passes :
    (file : List ℕ) (ans : List Answer) (ret : SendResult) (b : HttpBuf) (w : World)
    → IsConn w
    → w.h.h_state ≡ conn_data
    → IsBuf b
    → Reads file ans b w
    → TakesBuf file ans b w ret
    → (r : Option HttpBuf × World × Bool) × (io_sync_write file ans ret b w ≡ some r)
      × Passes file b w r
unfolding io_sync_write
io_sync_write-Passes file ans ret b w v d is_buf reads takes =
    let (b1, off, len, more, e, is_buf1, joined) = top_up-moved file ans b w d is_buf reads in
    let w1 : World = record w { h = record (w.h) { h_data_off = off; h_data_len = len } } in
    let priv = http_conn_get_priv-some w d in
    let ptr = (buf_access is_buf1).0 in
    let kept = ap (λ t. sent_bytes w.calls ++ t) joined in
    let killed = Goes-killed w1 d v.0 in
    elim (Bool-cases more) [
      | inr stop ↦ ((some b1, w1, false), rw (priv, e, stop) refl, (kept, is_buf1, killed))
      | inl on ↦
          elim ret
              as (λ k.
                Takes k b1
                → (r : Option HttpBuf × World × Bool) × (io_sync_write file ans k b w ≡ some r)
                  × Passes file b w r) [
                    | again ↦ λ _. (
                      (some b1, call (nbio_inactive nbio_write) w1, true),
                      rw (priv, e, on, ptr, inactive-some w1 d) refl,
                      (
                        ap (λ t. t ++ (contents b1 ++ take len (drop off file))) (inactive_sent w)
                            ∙ kept,
                        is_buf1,
                        v,
                      ),
                    )
                    | failed ↦ λ _.
                        ((some b1, w1, false), rw (priv, e, on, ptr) refl, (kept, is_buf1, killed))
                    | sent n ↦ λ fits. elim (Bool-cases (n == 0)) [
                      | inl nothing ↦ (
                        (some b1, w1, false),
                        rw (priv, e, on, ptr, nothing) refl,
                        (kept, is_buf1, killed),
                      )
                      | inr something ↦
                          let (r, e', (bytes, has_buf, goes)) =
                            data_sent-Passes file n b1 w1 v d is_buf1 fits in
                          (
                            r,
                            io_sync_write-sent file ans n b b1 w w1 more priv e on ptr something
                                ∙ e',
                            (bytes ∙ kept, has_buf, goes),
                          )
                    ]
                  ]
            (takes (b1, w1, more) e)
    ]
