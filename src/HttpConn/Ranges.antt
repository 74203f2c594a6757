-- ===== src/HttpConn/Ranges.antt =====
-- The range of a file that a connection of http_conn.c sends, and what the end of a response leaves of it.
use mathlib.Core.Path.{subst}
use mathlib.Core.Option.{some_inj}
use ashttpd.Prelude.{
  ℕ, ◌-◌, ◌<◌, ◌≡◌, refl, sym, ap, ◌∙◌, List, [], ◌∷◌, ◌++◌, none, some, true, false, arith, ◌==◌,
  Bool-cases, inl, inr, take, drop,
}
use ashttpd.HttpConn.{
  conn_request, conn_data, conn_dead, World, Call, call, sendfile, http_kill,
  http_conn_data_complete, nbio_del, free_req, fd_close, wake_listeners, webroot_unref,
  nbio_set_wait, nbio_read, in_response,
}
use ashttpd.HttpConn.Life.{IsConn, IsCounted, HasResponse, http_conn_data_complete-IsConn}
use ashttpd.HttpConn.Transfer.{sent_bytes}

-- The bytes of a file that went to the socket by `sendfile`, in the order of the calls.
unfoldable pub file_sent : List ℕ → List Call → List ℕ
file_sent file [] = []
file_sent file (sendfile root off len ret ∷ cs) = file_sent file cs ++ take ret (drop off file)
file_sent file (_ ∷ cs) = file_sent file cs

-- The range of the file that is still to be sent.
abbrev pub range : List ℕ → World → List ℕ
range file w = take w.h.h_data_len (drop w.h.h_data_off file)

-- A call that neither sends of the file, nor takes of the range.
abbrev pub Keeps : List ℕ → World → World → Type 0
Keeps file w w' =
    (file_sent file w'.calls ≡ file_sent file w.calls)
    × (sent_bytes w'.calls ≡ sent_bytes w.calls)
    × (w'.h.h_data_len ≡ w.h.h_data_len)

http_kill-Keeps :
    (file : List ℕ) (w : World)
    → w.h.h_state ≡ conn_request
    → w.h.h_open ≡ true
    → 0 < w.concurrency
    → w.h.h_res ≡ none
    → (w' : World) × (http_kill w ≡ some w') × Keeps file w w'
unfolding http_kill file_sent sent_bytes
http_kill-Keeps file w s o c r =
    let shut : World = record w {
      h = record (w.h) { h_open = false };
      concurrency = w.concurrency - 1;
      calls = fd_close ∷ w.calls;
    } in
    let dead : World → World =
      λ v. call nbio_del (record (call free_req v) { h = record (v.h) { h_state = conn_dead } }) in
    elim (Bool-cases w.oom_waiting) [
      | inl y ↦ (dead (call wake_listeners shut), ground (arith, s, o, c, r, y), (refl, refl, refl))
      | inr n ↦ (dead shut, ground (arith, s, o, c, r, n), (refl, refl, refl))
    ]

completed :
    (file : List ℕ) (w : World)
    → IsConn w
    → w.h.h_state ≡ conn_data
    → w.h.h_data_len ≡ 0
    → (w' : World) × (http_conn_data_complete w ≡ some w') × Keeps file w w'
unfolding http_conn_data_complete file_sent sent_bytes
completed file w v d z =
    let res : w.h.h_res ≡ none = subst (λ s. HasResponse s w.h.h_res) d v.1 in
    let c : IsCounted conn_data w.h.h_open w.concurrency =
      subst (λ s. IsCounted s w.h.h_open w.concurrency) d v.0 in
    let w1 : World = record w {
      h = record (w.h) { h_state = conn_request; h_webroot = none };
      calls = webroot_unref w.h.h_webroot ∷ nbio_set_wait nbio_read ∷ w.calls;
    } in
    elim (Bool-cases (w.h.h_conn_close == 0)) [
      | inl keep ↦ (w1, ground (arith, d, z, keep), (refl, refl, refl))
      | inr close ↦
          let (w2, e, keeps) = http_kill-Keeps file w1 refl c.0 c.1 res in
          (w2, ground (arith, d, z, close, e), keeps)
    ]

-- When all of the range has been taken, the response is over, and the connection is as it should be.
pub http_conn_data_complete-Keeps :
    (file : List ℕ) (w : World)
    → IsConn w
    → w.h.h_state ≡ conn_data
    → w.h.h_data_len ≡ 0
    → (w' : World) × (http_conn_data_complete w ≡ some w')
      × Keeps file w w'
      × (range file w' ≡ [])
      × (in_response w'.h.h_state ≡ false)
      × IsConn w'
http_conn_data_complete-Keeps file w v d z =
    let (w2, e, state, _, conn) = http_conn_data_complete-IsConn w v d z in
    let (w3, e', keeps) = completed file w v d z in
    let same : w2 ≡ w3 = some_inj.0 (sym e ∙ e') in
    let over : in_response w2.h.h_state ≡ false = elim (Bool-cases (w.h.h_conn_close == 0)) [
      | inl k ↦ ap in_response state ∙ rw k refl
      | inr k ↦ ap in_response state ∙ rw k refl
    ] in
    (
      w3,
      e',
      keeps,
      ap (λ k. take k (drop w3.h.h_data_off file)) (keeps.2 ∙ z),
      subst (λ u. in_response u.h.h_state ≡ false) same over,
      subst IsConn same conn,
    )
