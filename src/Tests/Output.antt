-- ===== src/Tests/Output.antt =====
-- fobuf.c at a concrete file.
use ashttpd.Prelude.{◌≡◌, ◌⊎◌, inr, refl, [], ◌∷◌, some, true, false, append-nil}
use ashttpd.Fobuf.{Sys, fobuf_new, fobuf_close}
use ashttpd.Fobuf.Order.{write_all, fobuf_close-concat}

-- A system that writes all it is given.
abbrev writes : Sys
writes k buf = (true, buf)

fobuf_close-concat_example :
    let r =
      write_all writes
        ((1 ∷ []) ∷ (2 ∷ 3 ∷ 4 ∷ []) ∷ [])
        (fobuf_new (some 7) 2)
        (record { written = []; calls = 0 }) in
    let c = fobuf_close writes true true r.1 r.2 in
    (r.0 ≡ false) ⊎ ((c.0 ≡ false) ⊎ (c.1.written ≡ 1 ∷ 2 ∷ 3 ∷ 4 ∷ []))
fobuf_close-concat_example =
    fobuf_close-concat writes (λ k buf. ([], append-nil buf, inr refl))
      ((1 ∷ []) ∷ (2 ∷ 3 ∷ 4 ∷ []) ∷ []) 2 7 true true (record { written = []; calls = 0 })
