-- ===== src/Tests/Pools.antt =====
-- hgang.c at a concrete pool.
use ashttpd.Prelude.{◌≡◌, refl, [], ◌∷◌, none, some, inr, arith}
use ashttpd.Hgang.{Hgang, hgang_new, hgang_alloc, hgang_return}
use ashttpd.Hgang.Pool.{IsPool}
use ashttpd.Hgang.Runs.{Runs, starts, allocs, returns, Runs-IsPool}

-- A pool of objects of 16 bytes, two in a slab.
abbrev pool : Hgang
pool = record { obj_size = 16; next_obj = 0; slab_size = 40; slabs = []; free = [] }

pool_run : hgang_new 16 2 ≡ some pool
unfolding hgang_new
pool_run = refl

-- Three objects, of which the third is in a second slab; then the second one is returned.
abbrev third : Hgang
third = (hgang_alloc (some 4096) (hgang_alloc none (hgang_alloc (some 1000) pool).1).1).1

third-Runs : Runs third (4104 ∷ 1024 ∷ 1008 ∷ [])
unfolding hgang_alloc
third-Runs =
    allocs (some 4096) 4104 (inr (omega arith), tt) refl
      (allocs none 1024 tt refl (allocs (some 1000) 1008 tt refl (starts 16 2 pool_run)))

Runs-IsPool_example : IsPool (hgang_return third (some 1024)) (4104 ∷ 1008 ∷ [])
Runs-IsPool_example =
    Runs-IsPool (hgang_return third (some 1024)) (4104 ∷ 1008 ∷ [])
      (returns (4104 ∷ []) 1024 (1008 ∷ []) third-Runs)
