-- ===== src/HttpConn/Head.antt =====
-- The head that `handle_get` of http_conn.c writes for a file, as one text.
use mathlib.Core.Path.{ap₂}
use ashttpd.Prelude.{
  ℕ, ◌+◌, ◌-◌, ◌/◌, ◌%◌, ◌≤◌, ◌<◌, ◌≡◌, ap, ◌∙◌, List, [], ◌∷◌, ◌++◌, Option, some, arith, ◌==◌,
  if◌then◌else◌, length, length-append, append_assoc, codes, ◌>>=◌,
}
use ashttpd.Vec.{bytes}
use ashttpd.HttpConn.Reply.{snprintf_bytes}
use ashttpd.HttpConn.Print.{
  Resp, Tm, push, print_u64, print_etag, print_time, resp_string, resp_u64, resp_etag, resp_time,
  resp_http_code,
}
use ashttpd.HttpConn.Get.{FileData, reason, write_head}

-- A writer that appends a text whenever there is space for it and for 50 bytes more, which is
-- enough for what the writers assert beyond the text.
record Appends (f : Resp → Option Resp) (s : List ℕ) : Type 0 where
  appends : (r : Resp) → length s + 50 ≤ r.room → f r ≡ some (push s r)

string-Appends : (s : List ℕ) → Appends (resp_string s) s
unfolding resp_string
string-Appends s = record { appends = λ r h. ground (arith, h) }

code-Appends :
    (c : ℕ)
    → Appends (resp_http_code c) ((48 + c / 100 % 10) ∷ (48 + c / 10 % 10) ∷ (48 + c % 10) ∷ [])
unfolding resp_http_code
code-Appends c = record { appends = λ r h. ground (arith, h) }

u64-Appends : (n : ℕ) → Appends (resp_u64 n) (print_u64 n)
unfolding resp_u64 snprintf_bytes
u64-Appends n = record { appends = λ r h. ground (arith, h) }

etag-Appends : (tag text : List ℕ) → print_etag tag ≡ some text → Appends (resp_etag tag) text
unfolding resp_etag
etag-Appends tag text e = record { appends = λ r h. ground (arith, h, e) }

time-Appends :
    (tm : Tm) (text : List ℕ)
    → print_time tm ≡ some text
    → length text < 45
    → Appends (resp_time tm) text
unfolding resp_time snprintf_bytes
time-Appends tm text e lt = record { appends = λ r h. ground (arith, h, e, lt) }

push-push : (s t : List ℕ) (r : Resp) → push t (push s r) ≡ push (s ++ t) r
push-push s t r =
    let room : r.room - length s - length t ≡ r.room - length (s ++ t) =
      omega (arith, length-append s t) in
    ap₂ (λ o n. record { out = o; room = n }) (append_assoc r.out s t) room

seq-Appends :
    {f g : Resp → Option Resp} {s t : List ℕ}
    → Appends f s
    → Appends g t
    → Appends (λ r. f r >>= g) (s ++ t)
seq-Appends {f} {g} {s} {t} a b = record {
  appends = λ r h.
      ap (λ o. o >>= g) (a.appends r (omega (arith, length-append s t)))
      ∙ b.appends (push s r) (omega (arith, length-append s t))
      ∙ ap some (push-push s t r);
}

-- The lines of a head, for a printed tag and time.
abbrev pub head_text : (code data_len conn_close : ℕ) → FileData → (tag time : List ℕ) → List ℕ
head_text code data_len conn_close f tag time =
    codes "HTTP/1.1 "
    ++ (((48 + code / 100 % 10) ∷ (48 + code / 10 % 10) ∷ (48 + code % 10) ∷ [])
        ++ (reason code
            ++ ((13 ∷ 10 ∷ codes "Content-Type: ")
                ++ (bytes f.mime_type
                    ++ ((13 ∷ 10 ∷ codes "Content-Length: ")
                        ++ (print_u64 data_len
                            ++ ((13 ∷ 10 ∷ codes "Connection: ")
                                ++ ((if conn_close == 0 then codes "Keep-Alive" else codes "Close")
                                    ++ ((13 ∷ 10 ∷ codes "ETag: ")
                                        ++ (tag
                                            ++ ((13 ∷ 10 ∷ codes "Last-Modified: ")
                                                ++ (time
                                                    ++ (13 ∷ 10 ∷ codes "Server: ashttpd"
                                                        ++ 13 ∷ 10 ∷ 13 ∷ 10 ∷ [])))))))))))))

-- With space for the head and 50 bytes more, the writers run into no assertion, and what they append
-- is the head, line by line.
pub write_head-text :
    (code data_len conn_close : ℕ) (f : FileData) (tm : Tm) (tag time : List ℕ) (r : Resp)
    → print_etag f.f_etag ≡ some tag
    → print_time tm ≡ some time
    → length time < 45
    → length (head_text code data_len conn_close f tag time) + 50 ≤ r.room
    → write_head code data_len conn_close f tm r
      ≡ some (push (head_text code data_len conn_close f tag time) r)
unfolding write_head
write_head-text code data_len conn_close f tm tag time r e t lt room =
    let line : (s : List ℕ) → Appends (resp_string s) s = string-Appends in
    let all = seq-Appends (line (codes "HTTP/1.1 ")) (
      seq-Appends (code-Appends code) (
        seq-Appends (line (reason code)) (
          seq-Appends (line (13 ∷ 10 ∷ codes "Content-Type: ")) (
            seq-Appends (line (bytes f.mime_type)) (
              seq-Appends (line (13 ∷ 10 ∷ codes "Content-Length: ")) (
                seq-Appends (u64-Appends data_len) (
                  seq-Appends (line (13 ∷ 10 ∷ codes "Connection: ")) (
                    seq-Appends
                      (line (if conn_close == 0 then codes "Keep-Alive" else codes "Close"))
                      (seq-Appends (line (13 ∷ 10 ∷ codes "ETag: ")) (
                        seq-Appends (etag-Appends f.f_etag tag e) (
                          seq-Appends (line (13 ∷ 10 ∷ codes "Last-Modified: ")) (
                            seq-Appends (time-Appends tm time t lt) (
                              line (
                                13 ∷ 10 ∷ codes "Server: ashttpd"
                                ++ 13 ∷ 10 ∷ 13 ∷ 10 ∷ [])))))))))))))) in
    all.appends r room
