-- ===== src/Os/Reads.antt =====
-- `fd_pread` of os.c reads a range of a file, in whatever pieces the system gives it.
use ashttpd.Prelude.{
  ℕ, ◌+◌, ◌-◌, ◌≤◌, ◌<◌, ◌≡◌, refl, sym, ap, ◌∙◌, List, [], ◌∷◌, ◌++◌, some, Bool, true, false, ltb,
  take, drop, length, arith, Bool-cases, ◌⊎◌, inl, inr, length-append, length-take, length-drop,
  drop-drop, take-add,
}
use ashttpd.Os.{
  PollAnswer, poll_ready, poll_failed, poll_interrupted, Answer, interrupted, failed, would_block,
  took, fd_wait_single, ssize_max, asked, Read, after_bytes, fd_pread,
}

-- The answers of `poll` come to an end.
abbrev pub Polls : List PollAnswer → Type 0
Polls [] = ⊥
Polls (poll_interrupted ∷ ps) = Polls ps
Polls (_ ∷ ps) = Unit

-- The answers that a file gives a reader of `len` bytes from `off` on: never more than was asked for or
-- is there, and none only at the end of the file or where none are asked for. There is an answer for
-- each call.
abbrev pub Answers : (file : List ℕ) → List Answer → (off len : ℕ) → Type 0
Answers file [] off len = ⊥
Answers file (interrupted ∷ ans) off len = Answers file ans off len
Answers file (failed ∷ ans) off len = Unit
Answers file (would_block ps ∷ ans) off len = Polls ps × Answers file ans off len
Answers file (took n ∷ ans) off len =
    (n ≤ asked len)
    × (off + n ≤ length file)
    × (((n ≡ 0) × ((len ≡ 0) ⊎ (length file ≤ off)))
        ⊎ ((0 < n) × ((n ≡ len) ⊎ Answers file ans (off + n) (len - n))))

pub asked-le : (n len : ℕ) → n ≤ asked len → n ≤ len
asked-le n len h = elim (Bool-cases (ltb len ssize_max)) [
  | inl y ↦ ground (arith, h, y)
  | inr y ↦ ground (arith, h, y)
]

pub fd_wait_single-some :
    (ps : List PollAnswer) → Polls ps → (b : Bool) × (fd_wait_single ps ≡ some b)
unfolding fd_wait_single
fd_wait_single-some [] h = absurd h
fd_wait_single-some (poll_interrupted ∷ ps) h = fd_wait_single-some ps h
fd_wait_single-some (poll_failed ∷ ps) h = (false, refl)
fd_wait_single-some (poll_ready ∷ ps) h = (true, refl)

-- What a read of `len` bytes from `off` on stores: the bytes of the file. A success without the flag
-- stores all of them, and the flag is raised only where there are no more, or none were asked for.
abbrev pub IsRead : (file : List ℕ) (off len : ℕ) → Read → Type 0
IsRead file off len r =
    (r.stored ≡ take (length r.stored) (drop off file))
    × (length r.stored ≤ len)
    × ((r.ok ≡ false)
        ⊎ (((r.eof ≡ false) × (length r.stored ≡ len) × (0 < len))
            ⊎ ((r.eof ≡ true) × ((len ≡ 0) ⊎ (length file ≤ off + length r.stored)))))

-- With answers that a file gives, `fd_pread` ends, and it stores the bytes of the file from the offset
-- on, no more than were asked for. If it succeeds, then all of them are there, or the flag is raised:
-- at the end of the file, but also for a read of no bytes.
pub fd_pread-IsRead :
    (file : List ℕ) (ans : List Answer) (off len : ℕ)
    → Answers file ans off len
    → (r : Read) × (fd_pread file ans off len false ≡ some r) × IsRead file off len r
unfolding fd_pread
fd_pread-IsRead file [] off len h = absurd h
fd_pread-IsRead file (interrupted ∷ ans) off len h = fd_pread-IsRead file ans off len h
fd_pread-IsRead file (failed ∷ ans) off len h =
    (record { ok = false; stored = []; eof = false }, refl, (refl, omega arith, inl refl))
fd_pread-IsRead file (would_block ps ∷ ans) off len (polls, h) =
    let (b, e) = fd_wait_single-some ps polls in
    let (r, e', is_read) = fd_pread-IsRead file ans off len h in
    elim (Bool-cases b) [
      | inl y ↦ (r, rw (e, y) e', is_read)
      | inr n ↦ (
        record { ok = false; stored = []; eof = false },
        rw (e, n) refl,
        (refl, omega arith, inl refl),
      )
    ]
fd_pread-IsRead file (took n ∷ ans) off len (fits, inside, inl (z, why)) = (
  record { ok = true; stored = []; eof = true },
  ground (arith, z),
  (
    refl,
    omega arith,
    inr (inr (refl, elim why [ inl y ↦ inl y | inr y ↦ inr (omega (arith, y)) ])),
  ),
)
fd_pread-IsRead file (took n ∷ ans) off len (fits, inside, inr (pos_n, inl all)) =
    let xs = take n (drop off file) in
    let size : length xs ≡ n =
      length-take n (drop off file) (omega (arith, length-drop off file, inside)) in
    (
      record { ok = true; stored = xs; eof = false },
      ground (arith, pos_n, all),
      (
        ap (λ k. take k (drop off file)) (sym size),
        omega (arith, size, all),
        inr (inl (refl, size ∙ all, omega (arith, pos_n, all))),
      ),
    )
fd_pread-IsRead file (took n ∷ ans) off len (fits, inside, inr (pos_n, inr more)) =
    let xs = take n (drop off file) in
    let size : length xs ≡ n =
      length-take n (drop off file) (omega (arith, length-drop off file, inside)) in
    elim (Bool-cases (ltb n len)) [
      | inl y ↦
          let lt : n < len = ground (arith, y) in
          let (r, e, (stored, le, outcome)) = fd_pread-IsRead file ans (off + n) (len - n) more in
          let k = length r.stored in
          let total : length (xs ++ r.stored) ≡ n + k =
            omega (arith, length-append xs r.stored, size) in
          let whole : xs ++ r.stored ≡ take (length (xs ++ r.stored)) (drop off file) =
            ap (λ t. xs ++ t) (stored ∙ ap (take k) (drop-drop off n file))
            ∙ take-add n k (drop off file)
            ∙ ap (λ j. take j (drop off file)) (sym total) in
          (
            after_bytes xs r,
            ground (arith, pos_n, y, e),
            (
              whole,
              omega (arith, total, le, lt),
              elim outcome [
                | inl bad ↦ inl bad
                | inr (inl (eof, all, some_left)) ↦
                    inr (inl (eof, omega (arith, total, all, some_left), omega (arith, some_left)))
                | inr (inr (eof, why)) ↦ inr (inr (eof, inr (omega (arith, total, lt))))
              ],
            ),
          )
      | inr y ↦
          let all : n ≡ len = ground (arith, y, asked-le n len fits) in
          (
            record { ok = true; stored = xs; eof = false },
            ground (arith, pos_n, all),
            (
              ap (λ k. take k (drop off file)) (sym size),
              omega (arith, size, all),
              inr (inl (refl, size ∙ all, omega (arith, pos_n, all))),
            ),
          )
    ]
