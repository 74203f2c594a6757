-- ===== src/HttpBuf/Queue.antt =====
-- A buffer of http_buf.c is a queue of bytes: writers append, readers take from the front, and
-- `buf_reset` changes the space and not the contents.
use ashttpd.Prelude.{
  ℕ, ◌+◌, ◌-◌, ◌≤◌, ◌≡◌, refl, sym, ap, ◌∙◌, List, [], ◌∷◌, ◌++◌, some, ltb, ◌==◌, arith,
  Bool-cases, inl, inr, length, take, drop, length-append, length-take, length-drop, drop-drop,
  drop-take, drop-append, take-append, take-append_left,
}
use ashttpd.HttpBuf.{
  HttpBuf, b_end, buf_read, buf_write, buf_done_read, buf_done_write, buf_reset, store,
}

-- The offsets are in order.
pub record IsBuf (b : HttpBuf) : Type 0 where
  pub ordered : b.b_read ≤ b.b_write
  pub inside : b.b_write ≤ b_end b

-- The bytes that were written and not yet read.
abbrev pub contents : HttpBuf → List ℕ
contents b = take (b.b_write - b.b_read) (drop b.b_read b.mem)

-- On a well-formed buffer no assertion of the accessors fails: the reader sees the contents, and
-- the writer the rest of the space, NULL only when there is none.
pub buf_access :
    {b : HttpBuf}
    → IsBuf b
    → (buf_read b ≡ some (contents b, length (contents b)))
      × (buf_write b ≡ some (ltb 0 (b_end b - b.b_write), b_end b - b.b_write))
unfolding buf_read buf_write
buf_access {b} v =
    let size =
      length-take (b.b_write - b.b_read) (drop b.b_read b.mem)
        (omega (arith, length-drop b.b_read b.mem, v.ordered, v.inside)) in
    (ground (arith, v.ordered, size), ground (arith, v.inside))

-- A read of `sz` bytes is accepted exactly if that many are there, and takes them off the front.
pub buf_done_read-contents :
    {b : HttpBuf} (sz : ℕ)
    → IsBuf b
    → sz ≤ length (contents b)
    → (b' : HttpBuf) × (buf_done_read b sz ≡ some (b', length (contents b')))
      × IsBuf b'
      × (contents b' ≡ drop sz (contents b))
      × (b'.mem ≡ b.mem)
unfolding buf_done_read
buf_done_read-contents {b} sz v fits =
    let n = b.b_write - b.b_read in
    let m = b.b_write - (b.b_read + sz) in
    let size =
      length-take n (drop b.b_read b.mem)
        (omega (arith, length-drop b.b_read b.mem, v.ordered, v.inside)) in
    let size' =
      length-take m (drop (b.b_read + sz) b.mem)
        (omega (arith, length-drop (b.b_read + sz) b.mem, v.ordered, v.inside)) in
    let sum : n ≡ sz + m = omega (arith, v.ordered) in
    (
      record b { b_read = b.b_read + sz },
      ground (arith, size, size', v.ordered, v.inside),
      record { ordered = omega (arith, size, v.ordered); inside = v.inside },
      rw (drop-drop b.b_read sz b.mem) (rw sum (sym (drop-take sz m (drop b.b_read b.mem)))),
      refl,
    )

store-contents :
    (b : HttpBuf) (xs rest : List ℕ)
    → IsBuf b
    → take (b.b_write + length xs - b.b_read) (drop b.b_read (take b.b_write b.mem ++ (xs ++ rest)))
      ≡ contents b ++ xs
store-contents b xs rest v =
    let r = b.b_read in
    let w = b.b_write in
    let old = contents b in
    let split : r + (w - r) ≡ w = omega (arith, v.ordered) in
    let front : length (take w b.mem) ≡ w = length-take w b.mem v.inside in
    let kept : drop r (take w b.mem) ≡ old = rw split at (drop-take r (w - r) b.mem) in
    let size : length old ≡ w - r =
      length-take (w - r) (drop r b.mem) (omega (arith, length-drop {0} r b.mem, v.inside)) in
    let total : w + length xs - r ≡ length old + length xs = omega (arith, size, v.ordered) in
    rw (
      drop-append r (take w b.mem) (xs ++ rest) (omega (arith, front, v.ordered)),
      kept,
      total,
      take-append (length xs) old (xs ++ rest),
      take-append_left xs rest,
    )

-- Bytes stored at `b_write`, no more than there is space for, join the end of the contents.
pub buf_done_write-contents :
    {b : HttpBuf} (xs : List ℕ)
    → IsBuf b
    → length xs ≤ b_end b - b.b_write
    → (b' : HttpBuf) × (buf_done_write (store b xs) (length xs)
        ≡ some (b', b_end b - b.b_write - length xs))
      × IsBuf b'
      × (contents b' ≡ contents b ++ xs)
unfolding buf_done_write store
buf_done_write-contents {b} xs v fits =
    let r = b.b_read in
    let w = b.b_write in
    let n = length xs in
    let rest = drop (w + n) b.mem in
    let b' : HttpBuf = record { mem = take w b.mem ++ (xs ++ rest); b_read = r; b_write = w + n } in
    let front : length (take w b.mem) ≡ w = length-take w b.mem v.inside in
    let whole : b_end b' ≡ b_end b = omega (
      arith,
      length-append {0} (take w b.mem) (xs ++ rest),
      length-append {0} xs rest,
      length-drop {0} (w + n) b.mem,
      front,
      v.inside,
    ) in
    (
      b',
      ground (arith, whole, v.inside),
      record { ordered = omega (arith, v.ordered); inside = omega (arith, whole, v.inside) },
      store-contents b xs rest v,
    )

pub length-zero : (xs : List ℕ) → length xs ≡ 0 → xs ≡ []
length-zero [] h = refl
length-zero (x ∷ xs) h = ground (arith, h)

-- `buf_reset` makes room: the contents stay, all other space is free, and no assertion fails.
pub buf_reset-contents :
    {b : HttpBuf}
    → IsBuf b
    → (b' : HttpBuf) × (buf_reset b ≡ some b')
      × IsBuf b'
      × (contents b' ≡ contents b)
      × (b_end b' ≡ b_end b)
      × (b'.b_write ≡ length (contents b))
unfolding buf_reset
buf_reset-contents {b} v =
    let r = b.b_read in
    let n = b.b_write - b.b_read in
    let old = contents b in
    let size : length old ≡ n =
      length-take n (drop r b.mem) (omega (arith, length-drop {0} r b.mem, v.ordered, v.inside)) in
    let same : length (take n (drop r b.mem) ++ drop (0 + n) b.mem) ≡ b_end b = omega (
      arith,
      length-append {0} (take n (drop r b.mem)) (drop (0 + n) b.mem),
      length-drop {0} (0 + n) b.mem,
      size,
      v.ordered,
      v.inside,
    ) in
    elim (Bool-cases (r == b.b_write)) [
      | inl empty ↦
          let none_left : length old ≡ 0 = ground (arith, size, empty) in
          (
            record b { b_read = 0; b_write = 0 },
            ground (arith, v.ordered, v.inside),
            record { ordered = omega arith; inside = omega arith },
            sym (length-zero old none_left),
            refl,
            sym none_left,
          )
      | inr full ↦ (
        record { mem = take n (drop r b.mem) ++ drop (0 + n) b.mem; b_read = 0; b_write = 0 + n },
        ground (arith, v.ordered, v.inside),
        record { ordered = omega arith; inside = omega (arith, same, v.ordered, v.inside) },
        ap (λ m. take m (old ++ drop (0 + n) b.mem)) (omega (arith, size))
            ∙ take-append_left old (drop (0 + n) b.mem),
        same,
        omega (arith, size),
      )
    ]
