-- ===== src/HttpConn/Reading.antt =====
-- How `http_read` of http_conn.c collects a request: whatever pieces `recv` delivers, the request is
-- handled exactly when the bytes received so far hold the blank line.
use ashttpd.Prelude.{
  ◌⊎◌, inl, inr, Bool-cases, ℕ, ◌+◌, ◌-◌, ◌≤◌, ◌<◌, ◌≡◌, refl, sym, ap, ◌∙◌, List, [], ◌∷◌, ◌++◌,
  Option, some, Bool, true, false, arith, leb, if◌then◌else◌, length, take, drop, length-take,
  length-drop,
}
use ashttpd.HttpBuf.{HttpBuf, b_end, buf_done_write, store}
use ashttpd.HttpBuf.Queue.{IsBuf, contents, buf_access, buf_done_write-contents}
use ashttpd.Incremental.{initial, Parsed, Rstate, next_state, http_parse_incremental}
use ashttpd.Incremental.Chunks.{continue, http_parse_incremental-append}
use ashttpd.Incremental.BlankLine.{has_blank, http_parse_incremental-has_blank}
use ashttpd.HttpConn.{World, conn_request}
use ashttpd.HttpConn.Get.{Deps}
use ashttpd.HttpConn.Serve.{received, request_buf, read_bytes, handle_request, http_read}

-- A buffer whose bytes, all from its front, are not yet a request; the recogniser has read them.
abbrev pub IsReading : HttpBuf → World → Type 0
IsReading b w =
    (w.h.h_req ≡ some b)
    × IsBuf b
    × (b.b_read ≡ 0)
    × (http_parse_incremental initial (contents b)
        ≡ record { complete = false; state = w.h.h_rstate; moved = w.h.h_rptr })

-- The world after the bytes up to `b` have been read by the recogniser.
abbrev pub after : HttpBuf → Parsed → World → World
after b p w = record w { h = record (w.h) { h_req = some b; h_rstate = p.state; h_rptr = p.moved } }

moved_all :
    (s : Rstate) (xs : List ℕ)
    → (http_parse_incremental s xs).complete ≡ false
    → (http_parse_incremental s xs).moved ≡ length xs
unfolding http_parse_incremental
moved_all s [] h = refl
moved_all s (x ∷ xs) h = ground (arith, moved_all (next_state s x) xs)

drop-append_left : (xs ys : List ℕ) → drop (length xs) (xs ++ ys) ≡ ys
drop-append_left [] ys = refl
drop-append_left (x ∷ xs) ys = drop-append_left xs ys

contents_from_start : (b : HttpBuf) → b.b_read ≡ 0 → take b.b_write b.mem ≡ contents b
contents_from_start b z = let n : b.b_write - 0 ≡ b.b_write = omega arith in rw z (rw n refl)

done_offsets :
    (b b' : HttpBuf) (xs : List ℕ) (space : ℕ)
    → buf_done_write (store b xs) (length xs) ≡ some (b', space)
    → (b'.b_read ≡ b.b_read) × (b'.b_write ≡ b.b_write + length xs)
unfolding buf_done_write store
done_offsets b b' xs space h = ground (arith, h)

incomplete :
    (xs : List ℕ)
    → (http_parse_incremental initial xs).complete ≡ false
    → http_parse_incremental initial xs ≡ record {
      complete = false;
      state = (http_parse_incremental initial xs).state;
      moved = (http_parse_incremental initial xs).moved;
    }
incomplete xs h =
    let p = http_parse_incremental initial xs in
    let with : Bool → Parsed = λ t. record { complete = t; state = p.state; moved = p.moved } in
    ap with h

module _ (d : Deps) (alloc_res : Option HttpBuf) (sockname : List ℕ) where
  read_bytes-after :
      (b : HttpBuf) (xs : List ℕ) (w : World)
      → IsReading b w
      → length xs ≤ b_end b - b.b_write
      → (b' : HttpBuf) × IsBuf b'
        × (b'.b_read ≡ 0)
        × (contents b' ≡ contents b ++ xs)
        × (read_bytes d alloc_res sockname b xs w ≡ (
            let p = http_parse_incremental initial (contents b ++ xs) in
            if p.complete
            then handle_request d alloc_res sockname (after b' p w)
            else some (after b' p w)))
  unfolding read_bytes continue
  read_bytes-after b xs w (req, v, start, seen) fits =
      let (b', e, v', c) = buf_done_write-contents xs v fits in
      let (start', end') = done_offsets b b' xs _ e in
      let old = contents b in
      let n : length old ≡ b.b_write = omega (
        arith,
        length-take (b.b_write - b.b_read) (drop b.b_read b.mem)
            (omega (arith, length-drop {0} b.b_read b.mem, v.ordered, v.inside)),
        start,
      ) in
      let rptr : w.h.h_rptr ≡ length old =
        sym (ap (λ p. p.moved) seen) ∙ moved_all initial old (ap (λ p. p.complete) seen) in
      let new : drop w.h.h_rptr (take b'.b_write b'.mem) ≡ xs =
        rw (contents_from_start b' (start' ∙ start), c, rptr) (drop-append_left old xs) in
      let inside : leb w.h.h_rptr b'.b_write ≡ true = ground (arith, rptr, n, end') in
      let whole = http_parse_incremental-append initial old xs ∙ ap (λ r. continue r xs) seen in
      (b', v', start' ∙ start, c, rw (e, inside, new, whole) refl)

  http_read-read_bytes :
      (alloc_req : Option HttpBuf) (b : HttpBuf) (x : ℕ) (xs : List ℕ) (w : World)
      → w.h.h_state ≡ conn_request
      → w.h.h_req ≡ some b
      → IsBuf b
      → 0 < b_end b - b.b_write
      → http_read d alloc_req alloc_res sockname (received (x ∷ xs)) w
        ≡ read_bytes d alloc_res sockname b (x ∷ xs) w
  unfolding http_read request_buf
  http_read-read_bytes alloc_req b x xs w s req v room =
      ground (arith, s, req, (buf_access v).1, room)

  -- When bytes arrive on a connection that collects a request, and there is space for them, they
  -- join those received before. If all of them hold a blank line the request is handled, and else the
  -- connection goes on collecting; no assertion fails before that.
  pub http_read-collects :
      (alloc_req : Option HttpBuf) (b : HttpBuf) (x : ℕ) (xs : List ℕ) (w : World)
      → w.h.h_state ≡ conn_request
      → IsReading b w
      → length (x ∷ xs) ≤ b_end b - b.b_write
      → let all = contents b ++ x ∷ xs in
        let p = http_parse_incremental initial all in
        (b' : HttpBuf) × (contents b' ≡ all)
        × (http_read d alloc_req alloc_res sockname (received (x ∷ xs)) w ≡ (
            if has_blank all
            then handle_request d alloc_res sockname (after b' p w)
            else some (after b' p w)))
        × ((has_blank all ≡ true) ⊎ IsReading b' (after b' p w))
  http_read-collects alloc_req b x xs w s (req, v, start, seen) fits =
      let all = contents b ++ x ∷ xs in
      let p = http_parse_incremental initial all in
      let (b', v', start', c, step) = read_bytes-after b (x ∷ xs) w (req, v, start, seen) fits in
      let blank = http_parse_incremental-has_blank all in
      (
        b',
        c,
        http_read-read_bytes alloc_req b x xs w s req v (omega arith)
            ∙ step
            ∙ ap
                (λ t.
                  if t
                  then handle_request d alloc_res sockname (after b' p w)
                  else some (after b' p w))
                blank,
        elim (Bool-cases (has_blank all)) [
          | inl found ↦ inl found
          | inr none_yet ↦ inr (
            refl,
            v',
            start',
            ap (http_parse_incremental initial) c ∙ incomplete all (blank ∙ none_yet),
          )
        ],
      )
