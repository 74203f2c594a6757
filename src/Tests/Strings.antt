-- ===== src/Tests/Strings.antt =====
-- strpool.c at a concrete pool.
use ashttpd.Prelude.{inr, List, [], ◌∷◌, none, some, arith}
use ashttpd.Strpool.{Strpool, strpool_new, strpool_alloc, strpool_alloc_slow}
use ashttpd.Strpool.Runs.{Area, Runs, starts, allocs, IsStrpool, Runs-IsStrpool}

-- Three objects of 10, 20 and 100 bytes from slabs of 64 bytes; the third has a slab of its own.
abbrev after_three : Strpool
after_three =
    (strpool_alloc (some 5000)
      (strpool_alloc none (strpool_alloc (some 1000) (strpool_new 64) 10).0 20).0 100).0

abbrev three_areas : List Area
three_areas =
    record { at = 5024; size = 100 }
    ∷ record { at = 1034; size = 20 }
    ∷ record { at = 1024; size = 10 }
    ∷ []

after_three-Runs : Runs after_three three_areas
unfolding strpool_new strpool_alloc strpool_alloc_slow
after_three-Runs =
    allocs (some 5000) 100
      (allocs none 20 (allocs (some 1000) 10 (starts 64) (omega arith) tt) (omega arith) tt)
      (omega arith) (inr (omega arith), tt)

Runs-IsStrpool_example : IsStrpool after_three three_areas
Runs-IsStrpool_example = Runs-IsStrpool after_three-Runs
