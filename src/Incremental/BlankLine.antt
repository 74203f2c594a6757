-- ===== src/Incremental/BlankLine.antt =====
-- `http_parse_incremental` (include/http-parse.h) against an independent description of the end of
-- a request: a line feed, then at most one carriage return, then a line feed.
use ashttpd.Prelude.{
  ℕ, suc, ◌≡◌, refl, List, [], ◌∷◌, ◌++◌, Bool, true, false, ◌&&◌, ◌||◌, arith, if◌then◌else◌, take,
  ◌==◌, Bool-cases, inl, inr,
}
use ashttpd.Incremental.{
  Rstate, initial, cr, lf, crlf, lfcr, crlfcr, lflf, crlflf, lfcrlf, crlfcrlf, is_terminal,
  next_state, http_parse_incremental,
}

-- "\n\n" or "\n\r\n" at the front.
abbrev pub blank_at : List ℕ → Bool
blank_at (a ∷ b ∷ c ∷ cs) = (a == 10) && ((b == 10) || ((b == 13) && (c == 10)))
blank_at (a ∷ b ∷ []) = (a == 10) && (b == 10)
blank_at (a ∷ []) = false
blank_at [] = false

unfoldable pub has_blank : List ℕ → Bool
has_blank [] = false
has_blank (c ∷ cs) = blank_at (c ∷ cs) || has_blank cs

-- What a state remembers of the bytes before it.
abbrev pending : Rstate → List ℕ
pending lf = 10 ∷ []
pending crlf = 10 ∷ []
pending lfcr = 10 ∷ 13 ∷ []
pending crlfcr = 10 ∷ 13 ∷ []
pending s = []

-- One byte, seen by the recogniser and by the description.
step-blank :
    (s : Rstate) (c : ℕ) (cs : List ℕ)
    → is_terminal s ≡ false
    → has_blank (pending s ++ c ∷ cs)
      ≡ (if is_terminal (next_state s c) then true else has_blank (pending (next_state s c) ++ cs))
unfolding has_blank next_state is_terminal
step-blank initial c [] h = ground arith
step-blank initial c (d ∷ []) h = ground arith
step-blank initial c (d ∷ e ∷ cs) h = ground arith
step-blank cr c [] h = ground arith
step-blank cr c (d ∷ []) h = ground arith
step-blank cr c (d ∷ e ∷ cs) h = ground arith
step-blank lf c [] h = ground arith
step-blank lf c (d ∷ []) h = ground arith
step-blank lf c (d ∷ e ∷ cs) h = ground arith
step-blank crlf c [] h = ground arith
step-blank crlf c (d ∷ []) h = ground arith
step-blank crlf c (d ∷ e ∷ cs) h = ground arith
step-blank lfcr c [] h = ground arith
step-blank lfcr c (d ∷ []) h = ground arith
step-blank lfcr c (d ∷ e ∷ cs) h = ground arith
step-blank crlfcr c [] h = ground arith
step-blank crlfcr c (d ∷ []) h = ground arith
step-blank crlfcr c (d ∷ e ∷ cs) h = ground arith
step-blank lflf c cs h = cc
step-blank crlflf c cs h = cc
step-blank lfcrlf c cs h = cc
step-blank crlfcrlf c cs h = cc

pending-no_blank : (s : Rstate) → is_terminal s ≡ false → has_blank (pending s ++ []) ≡ false
unfolding has_blank is_terminal
pending-no_blank initial h = refl
pending-no_blank _ h = ground arith

complete-pending :
    (s : Rstate) (cs : List ℕ)
    → is_terminal s ≡ false
    → (http_parse_incremental s cs).complete ≡ has_blank (pending s ++ cs)
unfolding http_parse_incremental
complete-pending s [] h = ground (arith, pending-no_blank s h)
complete-pending s (c ∷ cs) h =
    ground (arith, step-blank s c cs h, complete-pending (next_state s c) cs)

initial-open : is_terminal initial ≡ false
unfolding is_terminal
initial-open = refl

-- From its first state the recogniser reports a complete request exactly when the bytes hold a line
-- feed followed by a line feed, or by a carriage return and a line feed.
pub http_parse_incremental-has_blank :
    (cs : List ℕ) → (http_parse_incremental initial cs).complete ≡ has_blank cs
http_parse_incremental-has_blank cs = complete-pending initial cs initial-open

-- The call on the bytes before the one it stops at is not complete; with that byte it is.
complete-first :
    (s : Rstate) (cs : List ℕ)
    → (http_parse_incremental s cs).complete ≡ true
    → let n = (http_parse_incremental s cs).moved in
      ((http_parse_incremental s (take n cs)).complete ≡ false)
      × ((http_parse_incremental s (take (suc n) cs)).complete ≡ true)
unfolding http_parse_incremental
complete-first s [] h = cc
complete-first s (c ∷ cs) h = elim (Bool-cases (is_terminal (next_state s c))) [
  | inl end ↦ ground arith
  | inr more ↦ ground (arith, complete-first (next_state s c) cs)
]

-- A complete call stops at the last byte of the first blank line: the bytes before that byte hold
-- no blank line, and with it they do.
pub http_parse_incremental-first :
    (cs : List ℕ)
    → (http_parse_incremental initial cs).complete ≡ true
    → let n = (http_parse_incremental initial cs).moved in
      (has_blank (take n cs) ≡ false) × (has_blank (take (suc n) cs) ≡ true)
http_parse_incremental-first cs h =
    let n = (http_parse_incremental initial cs).moved in
    ground (
      arith,
      complete-first initial cs h,
      http_parse_incremental-has_blank (take n cs),
      http_parse_incremental-has_blank (take (suc n) cs),
    )
