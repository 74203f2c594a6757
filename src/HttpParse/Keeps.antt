-- ===== src/HttpParse/Keeps.antt =====
-- What every callback of the control blocks keeps, `http_decode_buf` (http_parse.c) keeps.
use mathlib.Core.Path.{subst}
use ashttpd.Prelude.{ℕ, ◌≡◌, sym, ◌⊎◌, inl, inr, Bool-cases, ◌==◌, reverse, List, [], ◌∷◌, arith}
use ashttpd.Vec.{RoVec, vec}
use ashttpd.HttpParse.{
  Hcb, State, state0, state1, state2, state3, state4, finished, Scan, scan, round, dispatch, step0,
  step1, step2, step3, step4, strip_cr, dispatch_hdr,
}

-- A property of the caller's variables that the dispatch of a header keeps.
abbrev pub KeepsHdr : {S : Type 0} → List (Hcb S) → (S → Type 0) → Type 0
KeepsHdr {S} hdrs P = (k v : RoVec) (s : S) → P s → P (dispatch_hdr hdrs k v s)

module _ {S : Type 0} (c : ℕ) (sc : Scan S) where
  step0-out : (step0 c sc).out ≡ sc.out
  unfolding step0
  step0-out = ground arith

  step1-out : (step1 c sc).out ≡ sc.out
  unfolding step1
  step1-out = ground arith

  step2-out : (step2 c sc).out ≡ sc.out
  unfolding step2
  step2-out = ground arith

  step3-out : (step3 c sc).out ≡ sc.out
  unfolding step3
  step3-out = ground arith

  step4-out :
      (hdrs : List (Hcb S))
      → ((step4 hdrs c sc).out ≡ sc.out)
        ⊎ ((v : RoVec) × ((step4 hdrs c sc).out ≡ dispatch_hdr hdrs sc.key v sc.out))
  unfolding step4
  step4-out hdrs = elim (Bool-cases (c == 10)) [
    | inl eol ↦ inr (vec (reverse (strip_cr sc.tok)), ground arith)
    | inr other ↦ inl (ground arith)
  ]

module _ {S : Type 0} (hdrs : List (Hcb S)) (P : S → Type 0) (keep : KeepsHdr hdrs P) where
  dispatch-out : (st : State) (c : ℕ) (sc : Scan S) → P sc.out → P (dispatch hdrs st c sc).out
  unfolding dispatch
  dispatch-out state0 c sc h = subst P (sym (step0-out c sc)) h
  dispatch-out state1 c sc h = subst P (sym (step1-out c sc)) h
  dispatch-out state2 c sc h = subst P (sym (step2-out c sc)) h
  dispatch-out state3 c sc h = subst P (sym (step3-out c sc)) h
  dispatch-out state4 c sc h = elim (step4-out c sc hdrs) [
    | inl same ↦ subst P (sym same) h
    | inr (v, called) ↦ subst P (sym called) (keep sc.key v sc.out h)
  ]
  dispatch-out finished c sc h = h

  pub scan-out : (cs : List ℕ) (sc : Scan S) → P sc.out → P (scan hdrs cs sc).out
  unfolding scan
  scan-out [] sc h = h
  scan-out (c ∷ cs) sc h = scan-out cs (round hdrs c sc) (dispatch-out sc.state c sc h)
