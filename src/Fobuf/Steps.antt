-- ===== src/Fobuf/Steps.antt =====
-- What `fobuf_write` and `fobuf_flush` of fobuf.c do with the bytes that are held.
use mathlib.Core.Path.{subst}
use ashttpd.Prelude.{
  ℕ, ◌+◌, ◌-◌, ◌≤◌, ◌<◌, ◌≡◌, refl, sym, ap, ◌∙◌, List, [], ◌++◌, Bool, true, false, leb, ltb, ◌==◌,
  Bool-cases, ◌⊎◌, inl, inr, length, take, drop, arith, append_assoc, append-nil, take-append-drop,
  length-append, length-take, is_some,
}
use ashttpd.HttpBuf.Queue.{length-zero}
use ashttpd.Fobuf.{FoBuf, Out, Sys, out_write, fobuf_flush, write_rest, fobuf_write}

-- What `fd_write` promises: what was written is where the bytes begin, and all of them if it succeeds.
abbrev pub IsSys : Sys → Type 0
IsSys sys =
    (k : ℕ) (buf : List ℕ)
    → (rest : List ℕ) × ((sys k buf).1 ++ rest ≡ buf) × (((sys k buf).0 ≡ false) ⊎ (rest ≡ []))

-- The buffer of an open file is not full.
pub record IsFoBuf (b : FoBuf) : Type 0 where
  pub room : length b.held + b.buf_len ≡ b.buf_sz
  pub more : 0 < b.buf_len
  pub opened : is_some b.fd ≡ true

-- What was written, and all that is still in the buffer.
abbrev pub all_bytes : FoBuf → Out → List ℕ
all_bytes b o = o.written ++ b.held

-- A step that is to put `all` in place: on success it is, and the buffer is as it should be. On failure
-- the file has a beginning of it.
abbrev pub Puts : (all : List ℕ) → Bool × FoBuf × Out → Type 0
Puts all (ok, b', o') =
    ((ok ≡ true) × (all_bytes b' o' ≡ all) × IsFoBuf b')
    ⊎ ((ok ≡ false) × ((rest : List ℕ) × (o'.written ++ rest ≡ all)))

module _ (sys : Sys) (is_sys : IsSys sys) where
  out_write-prefix :
      (buf : List ℕ) (o : Out)
      → (rest : List ℕ) × ((out_write sys buf o).1.written ++ rest ≡ o.written ++ buf)
        × (((out_write sys buf o).0 ≡ false) ⊎ (rest ≡ []))
  unfolding out_write
  out_write-prefix buf o =
      let (rest, split, outcome) = is_sys o.calls buf in
      (
        rest,
        append_assoc o.written (sys o.calls buf).1 rest ∙ ap (λ t. o.written ++ t) split,
        outcome,
      )

  -- A flush empties the buffer into the file, or fails and leaves the buffer.
  pub flush-cases :
      (b : FoBuf) (o : Out)
      → length b.held + b.buf_len ≡ b.buf_sz
      → ((b' : FoBuf) × (o' : Out) × (fobuf_flush sys b o ≡ (true, b', o'))
          × (b'.held ≡ [])
          × (b'.buf_len ≡ b.buf_sz)
          × (b'.buf_sz ≡ b.buf_sz)
          × (b'.fd ≡ b.fd)
          × (o'.written ≡ o.written ++ b.held))
        ⊎ ((o' : Out) × (fobuf_flush sys b o ≡ (false, b, o'))
            × ((rest : List ℕ) × (o'.written ++ rest ≡ o.written ++ b.held)))
  unfolding fobuf_flush
  flush-cases b o room =
      let (rest, split, outcome) = out_write-prefix b.held o in
      let r = out_write sys b.held o in
      elim (Bool-cases (b.buf_sz - b.buf_len == 0)) [
        | inl empty ↦
            let none_held : b.held ≡ [] = length-zero b.held (ground (arith, empty, room)) in
            let whole : b.buf_len ≡ b.buf_sz = omega (arith, room, ap length none_held) in
            inl (
              b,
              o,
              rw empty refl,
              none_held,
              whole,
              refl,
              refl,
              sym (append-nil o.written) ∙ ap (λ t. o.written ++ t) (sym none_held),
            )
        | inr some_held ↦ elim (Bool-cases r.0) [
          | inl y ↦ elim outcome [
            | inl bad ↦ absurd (ground (arith, bad, y))
            | inr nil ↦ inl (
              record b { held = []; buf_len = b.buf_sz },
              r.1,
              rw (fobuf_flush, some_held, y) refl,
              refl,
              refl,
              refl,
              refl,
              sym (append-nil r.1.written) ∙ ap (λ t. r.1.written ++ t) (sym nil) ∙ split,
            )
          ]
          | inr n ↦ inr (r.1, rw (fobuf_flush, some_held, n) refl, (rest, split))
        ]
      ]

  write_rest-Puts :
      (rest : List ℕ) (b : FoBuf) (o : Out)
      → b.held ≡ []
      → b.buf_len ≡ b.buf_sz
      → 0 < b.buf_sz
      → is_some b.fd ≡ true
      → Puts (all_bytes b o ++ rest) (write_rest sys rest b o)
  unfolding write_rest
  write_rest-Puts rest b o nil whole some_room file =
      let (left, split, outcome) = out_write-prefix rest o in
      let r = out_write sys rest o in
      let none_held : all_bytes b o ++ rest ≡ o.written ++ rest =
        ap (λ t. (o.written ++ t) ++ rest) nil ∙ ap (λ t. t ++ rest) (append-nil o.written) in
      elim (Bool-cases (leb b.buf_sz (length rest))) [
        | inl direct ↦
            let e : write_rest sys rest b o ≡ (r.0, b, r.1) = rw (write_rest, direct) refl in
            subst (Puts (all_bytes b o ++ rest)) (sym e) (elim outcome [
              | inl bad ↦ inr (bad, (left, split ∙ sym none_held))
              | inr all ↦ elim (Bool-cases r.0) [
                | inl y ↦
                    let sent =
                      sym (append-nil r.1.written) ∙ ap (λ t. r.1.written ++ t) (sym all) ∙ split in
                    inl (
                      y,
                      ap (λ t. r.1.written ++ t) nil
                          ∙ append-nil r.1.written
                          ∙ sent
                          ∙ sym none_held,
                      record {
                        room = omega (arith, ap length nil, whole);
                        more = omega (arith, whole, some_room);
                        opened = file;
                      },
                    )
                | inr n ↦ inr (n, (left, split ∙ sym none_held))
              ]
            ])
        | inr fits ↦
            let lt : length rest < b.buf_sz = ground (arith, fits) in
            let b' : FoBuf = record b {
              held = b.held ++ rest;
              buf_len = b.buf_len - length rest;
            } in
            let e : write_rest sys rest b o ≡ (true, b', o) = rw (write_rest, fits) refl in
            let total = length-append b.held rest in
            subst (Puts (all_bytes b o ++ rest)) (sym e) (
              inl (
                refl,
                sym (append_assoc o.written b.held rest),
                record {
                  room = omega (arith, total, ap length nil, whole, lt);
                  more = omega (arith, whole, lt);
                  opened = file;
                },
              ))
      ]

  -- `fobuf_write` puts the bytes behind those that it was given before, in the file or in the buffer. If
  -- a write fails, the file has a beginning of them all.
  pub fobuf_write-Puts :
      (buf : List ℕ) (b : FoBuf) (o : Out)
      → IsFoBuf b
      → Puts (all_bytes b o ++ buf) (fobuf_write sys buf b o)
  unfolding fobuf_write
  fobuf_write-Puts buf b o v = elim (Bool-cases (ltb (length buf) b.buf_len)) [
    | inl fits ↦
        let lt : length buf < b.buf_len = ground (arith, fits) in
        let b' : FoBuf = record b { held = b.held ++ buf; buf_len = b.buf_len - length buf } in
        let e : fobuf_write sys buf b o ≡ (true, b', o) = rw (fobuf_write, fits) refl in
        let total = length-append b.held buf in
        subst (Puts (all_bytes b o ++ buf)) (sym e) (
          inl (
            refl,
            sym (append_assoc o.written b.held buf),
            record {
              room = omega (arith, total, v.room, lt);
              more = omega (arith, lt);
              opened = v.opened;
            },
          ))
    | inr slow ↦
        let le : b.buf_len ≤ length buf = ground (arith, slow) in
        let front = take b.buf_len buf in
        let full : FoBuf = record b { held = b.held ++ front; buf_len = 0 } in
        let size = length-take b.buf_len buf le in
        let room : length full.held + 0 ≡ b.buf_sz =
          omega (arith, length-append b.held front, size, v.room) in
        let whole : o.written ++ (b.held ++ front) ++ drop b.buf_len buf ≡ all_bytes b o ++ buf =
          append_assoc o.written (b.held ++ front) (drop b.buf_len buf)
          ∙ ap (λ t. o.written ++ t)
              (append_assoc b.held front (drop b.buf_len buf)
                ∙ ap (λ t. b.held ++ t) (take-append-drop b.buf_len buf))
          ∙ sym (append_assoc o.written b.held buf) in
        elim (flush-cases full o room) [
          | inl (b1, o1, e, nil, len, sz, file, sent) ↦
              let back = drop b.buf_len buf in
              let e' : fobuf_write sys buf b o ≡ write_rest sys back b1 o1 =
                rw (fobuf_write, slow, e) refl in
              let same : all_bytes b1 o1 ++ back ≡ all_bytes b o ++ buf =
                ap (λ t. (o1.written ++ t) ++ back) nil
                ∙ ap (λ t. t ++ back) (append-nil o1.written ∙ sent)
                ∙ whole in
              let some_room : 0 < b1.buf_sz = omega (arith, sz, v.room, v.more) in
              subst (Puts (all_bytes b o ++ buf)) (sym e') (
                subst (λ t. Puts t (write_rest sys back b1 o1)) same
                  (write_rest-Puts back b1 o1 nil (len ∙ sym sz) some_room
                    (ap is_some file ∙ v.opened)))
          | inr (o1, e, (rest, split)) ↦
              let e' : fobuf_write sys buf b o ≡ (false, full, o1) =
                rw (fobuf_write, slow, e) refl in
              subst (Puts (all_bytes b o ++ buf)) (sym e') (
                inr (
                  refl,
                  (
                    rest ++ drop b.buf_len buf,
                    sym (append_assoc o1.written rest (drop b.buf_len buf))
                        ∙ ap (λ t. t ++ drop b.buf_len buf) split
                        ∙ whole,
                  ),
                ))
        ]
  ]
