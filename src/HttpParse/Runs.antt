-- ===== src/HttpParse/Runs.antt =====
-- Runs of the loop of `http_decode_buf` (http_parse.c) over a token and over a header line.
use mathlib.Core.List.{reverse_aux, reverse-reverse}
use ashttpd.Prelude.{
  ℕ, ◌+◌, ◌≡◌, ◌≢◌, refl, ap, ◌∙◌, List, [], ◌∷◌, ◌++◌, reverse, arith, length, All,
}
use ashttpd.Vec.{RoVec, vec}
use ashttpd.HttpParse.{Hcb, State, state1, state2, state3, state4, Scan, scan, round, dispatch_hdr}
use ashttpd.HttpParse.Print.{IsWordByte, IsText, IsName}

module _ {S : Type 0} where
  abbrev pub mk : State → ℕ → RoVec → RoVec → RoVec → List ℕ → RoVec → ℕ → ℕ → S → Scan S
  mk st i h0 h1 h2 tok key n ret s = record {
    state = st;
    i = i;
    hv0 = h0;
    hv1 = h1;
    hv2 = h2;
    tok = tok;
    key = key;
    pos = n;
    ret = ret;
    out = s;
  }

  -- A run of bytes that each only lengthen the token.
  pub scan-run :
      (hdrs : List (Hcb S)) (st : State) (i : ℕ) (h0 h1 h2 key : RoVec) (ret : ℕ) (s : S)
      (P : ℕ → Type 0)
      → ((c : ℕ) (tok : List ℕ) (n : ℕ)
          → P c
          → round hdrs c (mk st i h0 h1 h2 tok key n ret s)
            ≡ mk st i h0 h1 h2 (c ∷ tok) key (n + 1) ret s)
      → (w ys tok : List ℕ) (n : ℕ) → All P w
      → scan hdrs (w ++ ys) (mk st i h0 h1 h2 tok key n ret s)
        ≡ scan hdrs ys (mk st i h0 h1 h2 (reverse_aux w tok) key (n + length w) ret s)
  unfolding scan
  scan-run hdrs st i h0 h1 h2 key ret s P one [] ys tok n ok =
      ap (λ m. scan hdrs ys (mk st i h0 h1 h2 tok key m ret s)) (omega arith)
  scan-run hdrs st i h0 h1 h2 key ret s P one (c ∷ w) ys tok n ok =
      ap (scan hdrs (w ++ ys)) (one c tok n ok.0)
      ∙ scan-run hdrs st i h0 h1 h2 key ret s P one w ys (c ∷ tok) (n + 1) ok.1
      ∙ ap (λ m. scan hdrs ys (mk st i h0 h1 h2 (reverse_aux w (c ∷ tok)) key m ret s))
          (omega arith)

  module _ (hdrs : List (Hcb S)) (h0 h1 h2 : RoVec) (ret : ℕ) where
    pub round-word :
        (i : ℕ) (key : RoVec) (s : S) (c : ℕ) (tok : List ℕ) (n : ℕ)
        → IsWordByte c
        → round hdrs c (mk state1 i h0 h1 h2 tok key n ret s)
          ≡ mk state1 i h0 h1 h2 (c ∷ tok) key (n + 1) ret s
    unfolding round
    round-word i key s c tok n ok = ground arith

    pub round-text :
        (key : RoVec) (s : S) (c : ℕ) (tok : List ℕ) (n : ℕ)
        → c ≢ 10
        → round hdrs c (mk state1 2 h0 h1 h2 tok key n ret s)
          ≡ mk state1 2 h0 h1 h2 (c ∷ tok) key (n + 1) ret s
    unfolding round
    round-text key s c tok n ok = ground arith

    round-name :
        (key : RoVec) (s : S) (c : ℕ) (tok : List ℕ) (n : ℕ)
        → (c ≢ 58) × (c ≢ 10)
        → round hdrs c (mk state2 2 h0 h1 h2 tok key n ret s)
          ≡ mk state2 2 h0 h1 h2 (c ∷ tok) key (n + 1) ret s
    unfolding round
    round-name key s c tok n ok = ground arith

    round-value :
        (key : RoVec) (s : S) (c : ℕ) (tok : List ℕ) (n : ℕ)
        → c ≢ 10
        → round hdrs c (mk state4 2 h0 h1 h2 tok key n ret s)
          ≡ mk state4 2 h0 h1 h2 (c ∷ tok) key (n + 1) ret s
    unfolding round
    round-value key s c tok n ok = ground arith

    round-first :
        (key : RoVec) (s : S) (c : ℕ) (tok : List ℕ) (n : ℕ)
        → c ≢ 32
        → round hdrs c (mk state3 2 h0 h1 h2 tok key n ret s)
          ≡ mk state4 2 h0 h1 h2 (c ∷ []) key (n + 1) ret s
    unfolding round
    round-first key s c tok n ok = ground arith

    scan-colon :
        (key : RoVec) (s : S) (ys tok : List ℕ) (n : ℕ)
        → scan hdrs (58 ∷ 32 ∷ ys) (mk state2 2 h0 h1 h2 tok key n ret s)
          ≡ scan hdrs ys (mk state3 2 h0 h1 h2 tok (vec (reverse tok)) (n + 1 + 1) ret s)
    unfolding scan
    scan-colon key s ys tok n = refl

    scan-first :
        (key : RoVec) (s : S) (c : ℕ) (ys tok : List ℕ) (n : ℕ)
        → c ≢ 32
        → scan hdrs (c ∷ ys) (mk state3 2 h0 h1 h2 tok key n ret s)
          ≡ scan hdrs ys (mk state4 2 h0 h1 h2 (c ∷ []) key (n + 1) ret s)
    unfolding scan
    scan-first key s c ys tok n ok = ap (scan hdrs ys) (round-first key s c tok n ok)

    scan-eol :
        (key : RoVec) (s : S) (ys tok : List ℕ) (n : ℕ)
        → scan hdrs (13 ∷ 10 ∷ ys) (mk state4 2 h0 h1 h2 tok key n ret s)
          ≡ scan hdrs ys (
              mk state2 2 h0 h1 h2 [] key
                (n + 1 + 1)
                ret
                (dispatch_hdr hdrs key (vec (reverse tok)) s))
    unfolding scan
    scan-eol key s ys tok n = refl

    -- One header line.
    pub scan-header :
        (k v ys : List ℕ) (key : RoVec) (n : ℕ) (s : S)
        → IsName k
        → IsText v
        → scan hdrs (k ++ 58 ∷ 32 ∷ (v ++ 13 ∷ 10 ∷ ys)) (mk state2 2 h0 h1 h2 [] key n ret s)
          ≡ scan hdrs ys (
              mk state2 2 h0 h1 h2 []
                (vec k)
                (n + length k + 2 + length v + 2)
                ret
                (dispatch_hdr hdrs (vec k) (vec v) s))
    scan-header k [] ys key n s name text = absurd text
    scan-header k (c ∷ v) ys key n s name text =
        scan-run hdrs state2 2 h0 h1 h2 key ret s _ (round-name key s) k _ [] n name
        ∙ scan-colon key s _ (reverse k) (n + length k)
        ∙ rw (reverse-reverse k) (
            scan-first (vec k) s c _ (reverse k) _ text.0
            ∙ scan-run hdrs state4 2 h0 h1 h2 (vec k) ret s _ (round-value (vec k) s) v _ _ _ text.2
            ∙ scan-eol (vec k) s ys (reverse (c ∷ v)) _
            ∙ rw (reverse-reverse (c ∷ v)) (
                ap
                  (λ m. scan hdrs ys (
                    mk state2 2 h0 h1 h2 [] (vec k) m ret
                      (dispatch_hdr hdrs (vec k) (vec (c ∷ v)) s)))
                  (omega arith)))
