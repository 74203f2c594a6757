-- ===== src/Tests/Buffers.antt =====
-- The buffers at concrete contents.
use ashttpd.Prelude.{[], ◌∷◌, arith}
use ashttpd.HttpBuf.{HttpBuf}
use ashttpd.HttpBuf.Queue.{IsBuf}

abbrev some_bytes : HttpBuf
some_bytes = record { mem = 7 ∷ 8 ∷ 9 ∷ 0 ∷ 0 ∷ []; b_read = 1; b_write = 3 }

some_bytes-IsBuf : IsBuf some_bytes
some_bytes-IsBuf = record { ordered = omega arith; inside = omega arith }
