-- ===== src/HttpConn/Transfer.antt =====
-- How `http_write` of http_conn.c sends a header: all its bytes, once and in order, in whatever
-- pieces `send` takes them, and then on to the next state.
use mathlib.Core.Path.{subst, ap₂}
use ashttpd.Prelude.{
  ℕ, zero, suc, ◌≤◌, ◌≡◌, refl, sym, ap, ◌∙◌, List, [], ◌∷◌, ◌++◌, Option, none, some, Bool, true,
  false, not, arith, ◌==◌, if◌then◌else◌, Bool-cases, inl, inr, length, take, drop,
  take-append-drop, append_assoc, append-nil, ==→eq,
}
use ashttpd.HttpBuf.{HttpBuf}
use ashttpd.HttpBuf.Queue.{IsBuf, contents, buf_access, buf_done_read-contents}
use ashttpd.HttpConn.{
  ConnState, conn_request, conn_header, conn_data, conn_dead, in_response, World, Call, call, send,
  free_res, nbio_set_wait, nbio_inactive, nbio_read, nbio_write, http_kill,
}
use ashttpd.HttpConn.Header.{
  SendResult, again, failed, sent, header_done, header_sent, http_write_hdr, http_write,
}
use ashttpd.HttpConn.Life.{
  IsCounted, HasResponse, IsConn, IsKillable, http_kill-IsDead, dead_IsConn,
}

-- The bytes that went to the socket, in the order of the calls.
unfoldable pub sent_bytes : List Call → List ℕ
sent_bytes [] = []
sent_bytes (send more xs ∷ cs) = sent_bytes cs ++ xs
sent_bytes (_ ∷ cs) = sent_bytes cs

-- The bytes of the header that are still to be sent.
abbrev pub pending : Option HttpBuf → List ℕ
pending none = []
pending (some b) = contents b

-- `send` takes no more than it is given.
abbrev pub Takes : SendResult → HttpBuf → Type 0
Takes (sent n) b = n ≤ length (contents b)
Takes _ b = Unit

-- What a step leaves: a connection as it should be, or one that is about to be killed.
abbrev pub Goes : World × Bool → Type 0
Goes (w, true) = IsConn w
Goes (w, false) = (w.h.h_open ≡ true) × IsKillable w

-- A step from one world to another that goes on with the header.
abbrev pub Sends : World → World × Bool → Type 0
Sends w (w', more) =
    (sent_bytes w'.calls ++ pending w'.h.h_res ≡ sent_bytes w.calls ++ pending w.h.h_res)
    × Goes (w', more)

drop_all : (n : ℕ) (xs : List ℕ) → length (drop n xs) ≡ 0 → take n xs ≡ xs
drop_all zero [] z = refl
drop_all zero (x ∷ xs) z = ground (arith, z)
drop_all (suc n) [] z = refl
drop_all (suc n) (x ∷ xs) z = ap (λ t. x ∷ t) (drop_all n xs z)

-- The response is gone and nothing more was sent.
Done : World → World × Bool → Type 0
Done w (w', more) =
    (sent_bytes w'.calls ≡ sent_bytes w.calls) × (w'.h.h_res ≡ none) × Goes (w', more)

header_done-Done :
    (w : World)
    → w.h.h_state ≡ conn_header
    → IsCounted conn_header w.h.h_open w.concurrency
    → Done w (header_done w)
unfolding header_done sent_bytes Done
header_done-Done w s c =
    let w1 = call free_res (record w { h = record (w.h) { h_res = none } }) in
    elim (Bool-cases (w.h.h_data_len == 0)) [
      | inl empty ↦ elim (Bool-cases (w.h.h_conn_close == 0)) [
        | inl keep ↦
            let e : header_done w ≡ (
              call (nbio_set_wait nbio_read)
                  (record w1 { h = record (w1.h) { h_state = conn_request } }),
              true,
            ) =
              ground (arith, empty, keep) in
            subst (Done w) (sym e) (refl, refl, (c, refl))
        | inr close ↦
            let e : header_done w ≡ (w1, false) = ground (arith, empty, close) in
            subst (Done w) (sym e) (
              refl,
              refl,
              (c.0, (subst (λ t. IsCounted t w.h.h_open w.concurrency) (sym s) c, λ r. refl)),
            )
      ]
      | inr full ↦
          let e : header_done w ≡ (record w1 { h = record (w1.h) { h_state = conn_data } }, true) =
            ground (arith, full) in
          subst (Done w) (sym e) (refl, refl, (c, refl))
    ]

header_sent-Sends :
    (n : ℕ) (res : HttpBuf) (w : World)
    → IsConn w
    → w.h.h_state ≡ conn_header
    → w.h.h_res ≡ some res
    → IsBuf res
    → n ≤ length (contents res)
    → (r : World × Bool) × (header_sent n res w ≡ some r) × Sends w r
unfolding header_sent sent_bytes Done
header_sent-Sends n res w v s h b fits =
    let (rest, e, rest_IsBuf, left, _) = buf_done_read-contents n b fits in
    let w1 : World = record w {
      h = record (w.h) { h_res = some rest };
      calls = send (not (w.h.h_data_len == 0)) (take n (contents res)) ∷ w.calls;
    } in
    let c : IsCounted conn_header w.h.h_open w.concurrency =
      subst (λ t. IsCounted t w.h.h_open w.concurrency) s v.0 in
    let whole : (sent_bytes w.calls ++ take n (contents res)) ++ contents rest
        ≡ sent_bytes w.calls ++ contents res =
      append_assoc (sent_bytes w.calls) (take n (contents res)) (contents rest)
      ∙ ap (λ t. sent_bytes w.calls ++ t)
          (ap (λ t. take n (contents res) ++ t) left ∙ take-append-drop n (contents res)) in
    elim (Bool-cases (length (contents rest) == 0)) [
      | inl empty ↦
          let (calls, gone, goes) = header_done-Done w1 s c in
          let all : take n (contents res) ≡ contents res =
            drop_all n (contents res)
              (sym (ap length left) ∙ ==→eq (length (contents rest)) 0 empty) in
          (
            header_done w1,
            ground (arith, (buf_access b).0, e, (buf_access rest_IsBuf).0, empty),
            (
              ap₂ (λ a o. a ++ pending o) calls gone
                  ∙ append-nil (sent_bytes w.calls ++ take n (contents res))
                  ∙ ap (λ t. sent_bytes w.calls ++ t) (all ∙ ap pending (sym h)),
              goes,
            ),
          )
      | inr more ↦ (
        (w1, true),
        ground (arith, (buf_access b).0, e, (buf_access rest_IsBuf).0, more),
        (
          whole ∙ ap (λ o. sent_bytes w.calls ++ pending o) (sym h),
          (v.0, subst (λ t. HasResponse t (some rest)) (sym s) rest_IsBuf),
        ),
      )
    ]

-- On a connection that is sending its header, a call of `http_write_hdr` runs into no assertion. The
-- bytes on the socket with those still to be sent are the same before and after it, and the
-- connection is as it should be after it, or open and about to be killed.
pub http_write_hdr-Sends :
    (ret : SendResult) (res : HttpBuf) (w : World)
    → IsConn w
    → w.h.h_state ≡ conn_header
    → w.h.h_res ≡ some res
    → Takes ret res
    → (r : World × Bool) × (http_write_hdr ret w ≡ some r) × Sends w r
unfolding http_write_hdr sent_bytes
http_write_hdr-Sends ret res w v s h fits =
    let b : IsBuf res =
      subst (λ o. HasResponse conn_header o) h (subst (λ t. HasResponse t w.h.h_res) s v.1) in
    let c : IsCounted conn_header w.h.h_open w.concurrency =
      subst (λ t. IsCounted t w.h.h_open w.concurrency) s v.0 in
    let give_up : Goes (w, false) = (c.0, (v.0, λ r. ground (arith, s, r))) in
    elim ret
        as (λ k. Takes k res → (r : World × Bool) × (http_write_hdr k w ≡ some r) × Sends w r) [
          | again ↦ λ _. (
            (call (nbio_inactive nbio_write) w, true),
            ground (arith, h, (buf_access b).0),
            (refl, v),
          )
          | failed ↦ λ _. ((w, false), ground (arith, h, (buf_access b).0), (refl, give_up))
          | sent n ↦ λ fits. elim (Bool-cases (n == 0)) [
            | inl none_sent ↦
                ((w, false), ground (arith, h, (buf_access b).0, none_sent), (refl, give_up))
            | inr some_sent ↦
                let (r, e, sends) = header_sent-Sends n res w v s h b fits in
                (r, ground (arith, h, (buf_access b).0, some_sent, e), sends)
          ]
        ]
      fits

-- What `http_write` does with the answer of a step.
finish_write :
    (r : World × Bool)
    → Goes r
    → (w' : World) × ((if r.1 then some r.0 else http_kill r.0) ≡ some w') × IsConn w'
finish_write (w, true) g = (w, refl, g)
finish_write (w, false) g =
    let (w', e, dead, shut, _) = http_kill-IsDead w g.1 g.0 in (w', e, dead_IsConn w' dead shut)

-- `http_write` on a connection that sends a header, or data with an I/O model that leaves a
-- connection as it should be: it runs into no assertion, and leaves one as well, killed or not.
pub http_write-IsConn :
    (io_write : World → Option (World × Bool)) (ret : SendResult) (w : World)
    → IsConn w
    → in_response w.h.h_state ≡ true
    → ((b : HttpBuf) → w.h.h_res ≡ some b → Takes ret b)
    → (w.h.h_state ≡ conn_data → (r : World × Bool) × (io_write w ≡ some r) × Goes r)
    → (w' : World) × (http_write io_write ret w ≡ some w') × IsConn w'
unfolding http_write
http_write-IsConn io_write ret w v s fits io = go w.h.h_state refl w.h.h_res refl
  where
    go :
        (t : ConnState)
        → w.h.h_state ≡ t
        → (o : Option HttpBuf) → w.h.h_res ≡ o
        → (w' : World) × (http_write io_write ret w ≡ some w') × IsConn w'
    go conn_request e o f = ground (arith, s, e)
    go conn_dead e o f = ground (arith, s, e)
    go conn_header e none f = absurd (ground (arith, v.1, e, f))
    go conn_header e (some b) f =
        let (r, step, sends) = http_write_hdr-Sends ret b w v e f (fits b f) in
        let (w', done, conn) = finish_write r sends.1 in (w', ground (arith, e, step, done), conn)
    go conn_data e o f =
        let (r, step, goes) = io e in
        let (w', done, conn) = finish_write r goes in (w', ground (arith, e, step, done), conn)
