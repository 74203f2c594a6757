-- ===== src/Os/Writes.antt =====
-- `fd_write` of os.c writes all bytes, in whatever pieces the system takes them.
use ashttpd.Prelude.{
  ℕ, ◌≤◌, ◌≡◌, refl, ap, ◌∙◌, List, [], ◌∷◌, ◌++◌, some, Bool, true, false, ltb, take, drop, length,
  arith, Bool-cases, ◌⊎◌, inl, inr, length-drop, take-append-drop, append_assoc,
}
use ashttpd.HttpBuf.Queue.{length-zero}
use ashttpd.Os.{Answer, interrupted, failed, would_block, took, asked, fd_write}
use ashttpd.Os.Reads.{Polls, fd_wait_single-some}

-- The answers that a writer of these bytes gets: never more than was given, and one for each call.
abbrev pub Accepts : List Answer → (buf : List ℕ) → Type 0
Accepts [] buf = ⊥
Accepts (interrupted ∷ ans) buf = Accepts ans buf
Accepts (failed ∷ ans) buf = Unit
Accepts (would_block ps ∷ ans) buf = Polls ps × Accepts ans buf
Accepts (took n ∷ ans) buf =
    (n ≤ asked (length buf)) × ((n ≡ length buf) ⊎ Accepts ans (drop n buf))

-- With answers for each call, `fd_write` ends. What was written is where the bytes begin, and all of
-- them if it succeeds.
pub fd_write-prefix :
    (ans : List Answer) (buf : List ℕ)
    → Accepts ans buf
    → (r : Bool × List ℕ) × (fd_write ans buf ≡ some r)
      × ((rest : List ℕ) × (r.1 ++ rest ≡ buf) × ((r.0 ≡ false) ⊎ (rest ≡ [])))
unfolding fd_write
fd_write-prefix [] buf h = absurd h
fd_write-prefix (interrupted ∷ ans) buf h = fd_write-prefix ans buf h
fd_write-prefix (failed ∷ ans) buf h = ((false, []), refl, (buf, refl, inl refl))
fd_write-prefix (would_block ps ∷ ans) buf (polls, h) =
    let (b, e) = fd_wait_single-some ps polls in
    let (r, e', prefix) = fd_write-prefix ans buf h in
    elim (Bool-cases b) [
      | inl y ↦ (r, rw (e, y) e', prefix)
      | inr n ↦ ((false, []), rw (e, n) refl, (buf, refl, inl refl))
    ]
fd_write-prefix (took n ∷ ans) buf (fits, more) = elim (Bool-cases (ltb n (length buf))) [
  | inl y ↦ elim more [
    | inl all ↦ absurd (ground (arith, y, all))
    | inr h ↦
        let (r, e, (rest, split, outcome)) = fd_write-prefix ans (drop n buf) h in
        (
          (r.0, take n buf ++ r.1),
          rw (y, e) refl,
          (
            rest,
            append_assoc (take n buf) r.1 rest
                ∙ ap (λ t. take n buf ++ t) split
                ∙ take-append-drop n buf,
            outcome,
          ),
        )
  ]
  | inr y ↦
      let none_left : drop n buf ≡ [] =
        length-zero (drop n buf) (ground (arith, y, length-drop n buf)) in
      ((true, take n buf), rw y refl, (drop n buf, take-append-drop n buf, inr none_left))
]
