-- ===== src/Hgang.antt =====
-- hgang.c: pools of objects of one size.
-- A pointer is a number, and NULL is `none`. The list of the free objects, which goes through the objects
-- themselves, is a list. What `malloc` returns is an argument.
pub mod Apart
pub mod Pool
pub mod Runs
use ashttpd.Prelude.{
  ℕ, ◌+◌, ◌-◌, ◌*◌, ◌%◌, List, [], ◌∷◌, Option, none, some, Bool, true, false, not, ◌&&◌, leb, ltb,
  ◌==◌, if◌then◌else◌,
}

-- `struct _hgang`; a slab is known by its address, the latest first.
pub record Hgang : Type 0 where
  pub obj_size : ℕ
  pub next_obj : ℕ
  pub slab_size : ℕ
  pub slabs : List ℕ
  pub free : List ℕ

-- The sizes of a pointer and of `struct _hgang_hdr`.
abbrev pub ptr_size : ℕ
ptr_size = 8

abbrev pub hdr_size : ℕ
hdr_size = 8

-- The size of a block, for objects of a size that is large enough.
abbrev pub block_size : (obj_size slab_size : ℕ) → ℕ
block_size obj_size slab_size =
    if not (slab_size == 0)
    then hdr_size + slab_size * obj_size
    else if ltb obj_size 8192
    then hdr_size + (8192 - 8192 % obj_size)
    else hdr_size + 4 * obj_size

-- `hgang_new`, for a `malloc` that succeeds.
unfoldable pub hgang_new : (obj_size slab_size : ℕ) → Option Hgang
hgang_new obj_size slab_size =
    let size = if ltb obj_size ptr_size then ptr_size else obj_size in
    if obj_size == 0
    then none
    else some (record {
      obj_size = size;
      next_obj = 0;
      slab_size = block_size size slab_size;
      slabs = [];
      free = [];
    })

abbrev pub first_byte : ℕ → ℕ
first_byte hdr = hdr + hdr_size

abbrev pub last_byte : Hgang → ℕ → ℕ
last_byte h hdr = hdr + h.slab_size

abbrev pub obj_in_slab : Hgang → (hdr obj : ℕ) → Bool
obj_in_slab h hdr obj = leb (first_byte hdr) obj && leb (obj + h.obj_size) (last_byte h hdr)

unfoldable pub hgang_alloc_slow : (malloc : Option ℕ) → Hgang → Option ℕ × Hgang
hgang_alloc_slow none h = (none, h)
hgang_alloc_slow (some hdr) h =
    let ret = hdr + hdr_size in
    (some ret, record h { next_obj = ret + h.obj_size; slabs = hdr ∷ h.slabs })

-- The end of `hgang_alloc`, when no object is free.
unfoldable pub alloc_next : (malloc : Option ℕ) → (slabs : List ℕ) → Hgang → Option ℕ × Hgang
unfolding hgang_alloc_slow
alloc_next malloc [] h = hgang_alloc_slow malloc h
alloc_next malloc (hdr ∷ _) h =
    if obj_in_slab h hdr h.next_obj
    then (some h.next_obj, record h { next_obj = h.next_obj + h.obj_size })
    else hgang_alloc_slow malloc h

-- The rest of `hgang_alloc`, by the list of the free objects.
unfoldable pub alloc_from : (malloc : Option ℕ) → (free : List ℕ) → Hgang → Option ℕ × Hgang
unfolding alloc_next
alloc_from malloc (p ∷ ps) h = (some p, record h { free = ps })
alloc_from malloc [] h = alloc_next malloc h.slabs h

unfoldable pub hgang_alloc : (malloc : Option ℕ) → Hgang → Option ℕ × Hgang
unfolding alloc_from
hgang_alloc malloc h = alloc_from malloc h.free h

unfoldable pub hgang_return : Hgang → Option ℕ → Hgang
hgang_return h none = h
hgang_return h (some obj) = record h { free = obj ∷ h.free }
