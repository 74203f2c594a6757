-- ===== src/Strpool.antt =====
-- strpool.c: a pool of memory for strings. A pointer is a number, and the sizes are those of 64 bits.
-- The slabs are a list with the last one, from which the next object is taken, in front.
pub mod Runs
use ashttpd.Prelude.{
  ℕ, ◌+◌, ◌-◌, ◌%◌, ◌^◌, List, [], ◌∷◌, Option, none, some, ltb, ◌==◌, if◌then◌else◌,
}

-- `struct strpool_slab` with its address and the size that was asked for.
pub record Slab : Type 0 where
  pub base : ℕ
  pub alloc : ℕ
  pub len : ℕ
  pub ptr : ℕ

-- `struct strpool`
pub record Strpool : Type 0 where
  pub slab_size : ℕ
  pub slabs : List Slab

-- `sizeof(struct strpool_slab)`
abbrev pub overhead : ℕ
overhead = 24

unfoldable pub strpool_new : (slab_size : ℕ) → Strpool
strpool_new slab_size =
    let size = if slab_size == 0 then 8192 else slab_size in
    record { slab_size = if ltb size overhead then overhead else size; slabs = [] }

-- `overhead + sz`, which wraps around.
abbrev pub slab_need : (sz : ℕ) → ℕ
slab_need sz = (overhead + sz) % 2 ^ 64

-- How much `strpool_alloc_slow` asks for.
abbrev pub slab_alloc : Strpool → (sz : ℕ) → ℕ
slab_alloc m sz = if ltb (slab_need sz) m.slab_size then m.slab_size else slab_need sz

-- `malloc` is what the system answers.
unfoldable pub strpool_alloc_slow : (malloc : Option ℕ) → Strpool → (sz : ℕ) → Strpool × Option ℕ
strpool_alloc_slow none m sz = (m, none)
strpool_alloc_slow (some s) m sz =
    let alloc = slab_alloc m sz in
    let slab : Slab = record {
      base = s;
      alloc = alloc;
      len = alloc - slab_need sz;
      ptr = s + overhead + sz;
    } in
    (record m { slabs = slab ∷ m.slabs }, some (s + overhead))

-- An object of a slab that is large enough.
abbrev pub slab_take : Slab → (sz : ℕ) → Slab
slab_take s sz =
    let end = s.ptr + s.len in
    record s { ptr = s.ptr + sz; len = if ltb end (s.ptr + sz) then 0 else s.len - sz }

abbrev pub alloc_tail : (malloc : Option ℕ) → Strpool → (sz : ℕ) → List Slab → Strpool × Option ℕ
alloc_tail malloc m sz [] = strpool_alloc_slow malloc m sz
alloc_tail malloc m sz (s ∷ ss) =
    if ltb s.len sz
    then strpool_alloc_slow malloc m sz
    else (record m { slabs = slab_take s sz ∷ ss }, some s.ptr)

unfoldable pub strpool_alloc : (malloc : Option ℕ) → Strpool → (sz : ℕ) → Strpool × Option ℕ
strpool_alloc malloc m sz = alloc_tail malloc m sz m.slabs
