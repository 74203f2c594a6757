-- ===== src/HttpParse/Print.antt =====
-- Heads in the usual form: what a client prints, and what `http_decode_buf` is to make of it.
use ashttpd.Prelude.{ℕ, ◌≢◌, List, [], ◌∷◌, ◌++◌, All}
use ashttpd.Vec.{vec}
use ashttpd.HttpParse.{Hcb, dispatch_hdr}

-- A byte of a method or of a URI.
abbrev pub IsWordByte : ℕ → Type 0
IsWordByte c = (c ≢ 32) × (c ≢ 10)

-- A non-empty word.
abbrev pub IsWord : List ℕ → Type 0
IsWord [] = ⊥
IsWord (c ∷ cs) = IsWordByte c × All IsWordByte cs

-- Text up to the end of a line: not empty, not led by a space, with no newline.
abbrev pub IsText : List ℕ → Type 0
IsText [] = ⊥
IsText (c ∷ cs) = (c ≢ 32) × (c ≢ 10) × All (λ x. x ≢ 10) cs

abbrev pub IsName : List ℕ → Type 0
IsName cs = All (λ c. (c ≢ 58) × (c ≢ 10)) cs

-- A header's name and value.
abbrev pub Header : Type 0
Header = List ℕ × List ℕ

abbrev pub IsHeader : Header → Type 0
IsHeader (k, v) = IsName k × IsText v

-- The header lines "name: value", and what follows them.
unfoldable pub print_headers : List Header → List ℕ → List ℕ
print_headers [] rest = rest
print_headers ((k, v) ∷ hs) rest = k ++ 58 ∷ 32 ∷ (v ++ 13 ∷ 10 ∷ print_headers hs rest)

-- A head, and what follows it.
unfoldable pub print_head : (method uri proto : List ℕ) → List Header → List ℕ → List ℕ
unfolding print_headers
print_head method uri proto hs rest =
    method ++ 32 ∷ (uri ++ 32 ∷ (proto ++ 13 ∷ 10 ∷ print_headers hs (13 ∷ 10 ∷ rest)))

module _ {S : Type 0} where
  -- Every header is handed to `dispatch_hdr`, in order.
  unfoldable pub dispatch_all : List (Hcb S) → List Header → S → S
  dispatch_all hdrs [] s = s
  dispatch_all hdrs ((k, v) ∷ hs) s = dispatch_all hdrs hs (dispatch_hdr hdrs (vec k) (vec v) s)
