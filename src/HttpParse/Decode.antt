-- ===== src/HttpParse/Decode.antt =====
-- What `http_decode_buf` (http_parse.c) makes of a head in the usual form.
use mathlib.Core.List.{reverse-reverse}
use ashttpd.Prelude.{
  ℕ, ◌+◌, ◌≡◌, ◌≢◌, refl, ap, ◌∙◌, List, [], ◌∷◌, ◌++◌, reverse, false, arith, ◌==◌, length, All,
}
use ashttpd.Vec.{RoVec, null, vec}
use ashttpd.HttpParse.{
  Hcb, state0, state1, state2, finished, Table, scan, scan_init, finish, dispatch_hdr,
  http_decode_buf, set_hv,
}
use ashttpd.HttpParse.Print.{
  IsWord, IsText, Header, IsHeader, print_headers, print_head, dispatch_all,
}
use ashttpd.HttpParse.Runs.{mk, scan-run, round-word, round-text, scan-header}

-- The length of printed header lines.
unfoldable pub headers_len : List Header → ℕ
headers_len [] = 0
headers_len ((k, v) ∷ hs) = length k + 2 + length v + 2 + headers_len hs

last_key : RoVec → List Header → RoVec
last_key key [] = key
last_key key ((k, v) ∷ hs) = last_key (vec k) hs

word_ne_nil : (w : List ℕ) → IsWord w → (length w == 0) ≡ false
word_ne_nil [] ok = absurd ok
word_ne_nil (c ∷ w) ok = ground arith

module _ {S : Type 0} where
  scan-headers :
      (hdrs : List (Hcb S)) (h0 h1 h2 : RoVec) (ret : ℕ) (hs : List Header) (rest : List ℕ)
      (key : RoVec) (n : ℕ) (s : S)
      → All IsHeader hs
      → scan hdrs (print_headers hs rest) (mk state2 2 h0 h1 h2 [] key n ret s)
        ≡ scan hdrs rest (
            mk state2 2 h0 h1 h2 []
              (last_key key hs)
              (n + headers_len hs)
              ret
              (dispatch_all hdrs hs s))
  unfolding print_headers headers_len last_key dispatch_all
  scan-headers hdrs h0 h1 h2 ret [] rest key n s ok =
      ap (λ m. scan hdrs rest (mk state2 2 h0 h1 h2 [] key m ret s)) (omega arith)
  scan-headers hdrs h0 h1 h2 ret ((k, v) ∷ hs) rest key n s ok =
      scan-header hdrs h0 h1 h2 ret k v (print_headers hs rest) key n s ok.0.0 ok.0.1
      ∙ scan-headers hdrs h0 h1 h2 ret hs rest (vec k) _ _ ok.1
      ∙ ap
          (λ m. scan hdrs rest (
            mk state2 2 h0 h1 h2 [] (last_key (vec k) hs) m ret
              (dispatch_all hdrs hs (dispatch_hdr hdrs (vec k) (vec v) s))))
          (omega arith)

  module _ (hdrs : List (Hcb S)) (key : RoVec) (s : S) where
    -- The first byte of a word.
    scan-start :
        (i c n ret : ℕ) (h0 h1 h2 g0 g1 g2 : RoVec) (ys tok : List ℕ)
        → set_hv (vec []) (mk state0 i h0 h1 h2 tok key n ret s)
          ≡ mk state0 i g0 g1 g2 tok key n ret s
        → c ≢ 32
        → scan hdrs (c ∷ ys) (mk state0 i h0 h1 h2 tok key n ret s)
          ≡ scan hdrs ys (mk state1 i g0 g1 g2 (c ∷ []) key (n + 1) ret s)
    unfolding scan
    scan-start i c n ret h0 h1 h2 g0 g1 g2 ys tok set ok = ap (scan hdrs ys) (ground arith)

    scan-method :
        (m ys tok : List ℕ) (n ret : ℕ) (h0 h1 h2 : RoVec)
        → IsWord m
        → scan hdrs (m ++ 32 ∷ ys) (mk state0 0 h0 h1 h2 tok key n ret s)
          ≡ scan hdrs ys (mk state0 1 (vec m) h1 h2 (reverse m) key (n + length m + 1) ret s)
    unfolding set_hv
    scan-method [] ys tok n ret h0 h1 h2 ok = absurd ok
    scan-method (c ∷ m) ys tok n ret h0 h1 h2 ok =
        scan-start 0 c n ret h0 h1 h2 (vec []) h1 h2 (m ++ 32 ∷ ys) tok refl ok.0.0
        ∙ scan-run hdrs state1 0 (vec []) h1 h2 key ret s _
            (round-word hdrs (vec []) h1 h2 ret 0 key s) m (32 ∷ ys) (c ∷ []) (n + 1) ok.1
        ∙ scan-space (reverse (c ∷ m)) (n + 1 + length m)
        ∙ rw (reverse-reverse (c ∷ m)) (
            ap (λ k. scan hdrs ys (mk state0 1 (vec (c ∷ m)) h1 h2 (reverse (c ∷ m)) key k ret s))
              (omega arith))
      where
        scan-space :
            (t : List ℕ) (k : ℕ)
            → scan hdrs (32 ∷ ys) (mk state1 0 (vec []) h1 h2 t key k ret s)
              ≡ scan hdrs ys (mk state0 1 (vec (reverse t)) h1 h2 t key (k + 1) ret s)
        scan-space t k = unfold scan in refl

    scan-uri :
        (u ys tok : List ℕ) (n ret : ℕ) (h0 h1 h2 : RoVec)
        → IsWord u
        → scan hdrs (u ++ 32 ∷ ys) (mk state0 1 h0 h1 h2 tok key n ret s)
          ≡ scan hdrs ys (mk state0 2 h0 (vec u) h2 (reverse u) key (n + length u + 1) ret s)
    unfolding set_hv
    scan-uri [] ys tok n ret h0 h1 h2 ok = absurd ok
    scan-uri (c ∷ u) ys tok n ret h0 h1 h2 ok =
        scan-start 1 c n ret h0 h1 h2 h0 (vec []) h2 (u ++ 32 ∷ ys) tok refl ok.0.0
        ∙ scan-run hdrs state1 1 h0 (vec []) h2 key ret s _
            (round-word hdrs h0 (vec []) h2 ret 1 key s) u (32 ∷ ys) (c ∷ []) (n + 1) ok.1
        ∙ scan-space (reverse (c ∷ u)) (n + 1 + length u)
        ∙ rw (reverse-reverse (c ∷ u)) (
            ap (λ k. scan hdrs ys (mk state0 2 h0 (vec (c ∷ u)) h2 (reverse (c ∷ u)) key k ret s))
              (omega arith))
      where
        scan-space :
            (t : List ℕ) (k : ℕ)
            → scan hdrs (32 ∷ ys) (mk state1 1 h0 (vec []) h2 t key k ret s)
              ≡ scan hdrs ys (mk state0 2 h0 (vec (reverse t)) h2 t key (k + 1) ret s)
        scan-space t k = unfold scan in refl

    scan-proto :
        (p ys tok : List ℕ) (n ret : ℕ) (h0 h1 h2 : RoVec)
        → IsText p
        → scan hdrs (p ++ 13 ∷ 10 ∷ ys) (mk state0 2 h0 h1 h2 tok key n ret s)
          ≡ scan hdrs ys (mk state2 2 h0 h1 (vec p) [] key (n + length p + 2) (n + length p + 2) s)
    unfolding set_hv
    scan-proto [] ys tok n ret h0 h1 h2 ok = absurd ok
    scan-proto (c ∷ p) ys tok n ret h0 h1 h2 ok =
        scan-start 2 c n ret h0 h1 h2 h0 h1 (vec []) (p ++ 13 ∷ 10 ∷ ys) tok refl ok.0
        ∙ scan-run hdrs state1 2 h0 h1 (vec []) key ret s _
            (round-text hdrs h0 h1 (vec []) ret key s) p (13 ∷ 10 ∷ ys) (c ∷ []) (n + 1) ok.2
        ∙ scan-crlf (reverse (c ∷ p)) (n + 1 + length p)
        ∙ rw (reverse-reverse (c ∷ p))
            (ap (λ k. scan hdrs ys (mk state2 2 h0 h1 (vec (c ∷ p)) [] key k k s)) (omega arith))
      where
        scan-crlf :
            (t : List ℕ) (k : ℕ)
            → scan hdrs (13 ∷ 10 ∷ ys) (mk state1 2 h0 h1 (vec []) t key k ret s)
              ≡ scan hdrs ys (mk state2 2 h0 h1 (vec (reverse t)) [] key (k + 1 + 1) (k + 1 + 1) s)
        scan-crlf t k = unfold scan in refl

    scan-end :
        (n ret : ℕ) (h0 h1 h2 : RoVec) (ys : List ℕ)
        → scan hdrs (13 ∷ 10 ∷ ys) (mk state2 2 h0 h1 h2 [] key n ret s)
          ≡ scan hdrs ys (mk finished 2 h0 h1 h2 (13 ∷ []) key (n + 1 + 1) (n + 1 + 1) s)
    unfolding scan
    scan-end n ret h0 h1 h2 ys = refl

    scan-finished :
        (d : Table S) (ys : List ℕ) (n ret : ℕ) (h0 h1 h2 : RoVec) (tok : List ℕ)
        → finish d (scan hdrs ys (mk finished 2 h0 h1 h2 tok key n ret s))
          ≡ finish d (mk finished 2 h0 h1 h2 tok key n ret s)
    unfolding scan
    scan-finished d [] n ret h0 h1 h2 tok = refl
    scan-finished d (y ∷ ys) n ret h0 h1 h2 tok =
        scan-finished d ys (n + 1) ret h0 h1 h2 tok ∙ (unfold finish in refl)

  finish-mk :
      (d : Table S) (m u p : List ℕ) (tok : List ℕ) (key : RoVec) (n ret : ℕ) (s : S)
      → IsWord m
      → IsWord u
      → finish d (mk finished 2 (vec m) (vec u) (vec p) tok key n ret s)
        ≡ (ret, d.third.fn (vec p) (d.second.fn (vec u) (d.first.fn (vec m) s)))
  unfolding finish
  finish-mk d m u p tok key n ret s hm hu = rw (word_ne_nil m hm, word_ne_nil u hu)

  scan-head :
      (hdrs : List (Hcb S)) (m u p : List ℕ) (hs : List Header) (rest : List ℕ) (s : S)
      → IsWord m
      → IsWord u
      → IsText p
      → All IsHeader hs
      → let n = 0 + length m + 1 + length u + 1 + length p + 2 + headers_len hs + 1 + 1 in
        scan hdrs (print_head m u p hs rest) (scan_init s)
        ≡ scan hdrs rest (
            mk finished 2
              (vec m)
              (vec u)
              (vec p)
              (13 ∷ [])
              (last_key null hs)
              n
              n
              (dispatch_all hdrs hs s))
  unfolding print_head
  scan-head hdrs m u p hs rest s hm hu hp hh =
      scan-method hdrs null s m _ [] 0 0 null null null hm
      ∙ scan-uri hdrs null s u _ (reverse m) _ 0 (vec m) null null hu
      ∙ scan-proto hdrs null s p _ (reverse u) _ 0 (vec m) (vec u) null hp
      ∙ scan-headers hdrs (vec m) (vec u) (vec p) _ hs (13 ∷ 10 ∷ rest) null _ s hh
      ∙ scan-end hdrs (last_key null hs) (dispatch_all hdrs hs s) _ _ (vec m) (vec u) (vec p) rest

  -- A head in the usual form is decoded to what was printed: the result is its length, every header
  -- is dispatched in order, and then method, URI and protocol are handed to the first three
  -- functions. What follows the head changes nothing.
  pub http_decode_buf-print :
      (d : Table S) (method uri proto : List ℕ) (hs : List Header) (rest : List ℕ) (s : S)
      → IsWord method
      → IsWord uri
      → IsText proto
      → All IsHeader hs
      → http_decode_buf d (print_head method uri proto hs rest) s ≡ (
        length method + 1 + (length uri + 1) + (length proto + 2) + headers_len hs + 2,
        d.third.fn
            (vec proto)
            (d.second.fn (vec uri) (d.first.fn (vec method) (dispatch_all d.hdrs hs s))),
      )
  unfolding http_decode_buf
  http_decode_buf-print d method uri proto hs rest s hm hu hp hh =
      ap (finish d) (scan-head d.hdrs method uri proto hs rest s hm hu hp hh)
      ∙ scan-finished d.hdrs (last_key null hs) (dispatch_all d.hdrs hs s) d rest _ _ _ _ _ _
      ∙ finish-mk d method uri proto (13 ∷ []) (last_key null hs) 0 _ (dispatch_all d.hdrs hs s) hm
          hu
      ∙ ap
          (λ n. (
            n,
            d.third.fn (vec proto)
                (d.second.fn (vec uri) (d.first.fn (vec method) (dispatch_all d.hdrs hs s))),
          ))
          (omega arith)
