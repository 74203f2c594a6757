-- ===== src/Hgang/Pool.antt =====
-- The objects that hgang.c hands out never overlap, whatever the order of allocations and returns.
use mathlib.Core.Path.{subst}
use native.Mathlib.Nat.{mul_comm, mul-suc, mod-le, mod-eq-sub-mod}
use ashttpd.Prelude.{
  All-map, zero, ℕ, suc, ◌+◌, ◌-◌, ◌*◌, ◌%◌, ◌≤◌, ◌<◌, ◌≡◌, refl, sym, ◌⊎◌, inl, inr, List, [], ◌∷◌,
  ◌++◌, Option, none, some, false, ltb, ◌==◌, if◌then◌else◌, Bool-cases, All, arith,
}
use ashttpd.Hgang.{Hgang, ptr_size, hdr_size, block_size, hgang_new, first_byte}
use ashttpd.Hgang.Apart.{Apart, AllApart}

-- An object that is inside of one of these slabs.
abbrev pub InSome : (size slab : ℕ) → List ℕ → ℕ → Type 0
InSome size slab [] obj = ⊥
InSome size slab (hdr ∷ hdrs) obj =
    ((first_byte hdr ≤ obj) × (obj + size ≤ hdr + slab)) ⊎ InSome size slab hdrs obj

-- An object that has been handed out once: it is in the first slab, in front of the next object, or in
-- another slab.
abbrev pub Known : (size slab next : ℕ) → List ℕ → ℕ → Type 0
Known size slab next [] obj = ⊥
Known size slab next (hdr ∷ hdrs) obj =
    ((first_byte hdr ≤ obj) × (obj + size ≤ next)) ⊎ InSome size slab hdrs obj

-- The next object starts inside of the first slab.
abbrev pub HasNext : (slab next : ℕ) → List ℕ → Type 0
HasNext slab next [] = Unit
HasNext slab next (hdr ∷ hdrs) = (first_byte hdr ≤ next) × (next ≤ hdr + slab)

-- A pool, where `live` are the objects that are in use: they and the free ones do not overlap, and nor
-- do the slabs.
pub record IsPool (h : Hgang) (live : List ℕ) : Type 0 where
  pub some_size : 0 < h.obj_size
  pub block : hdr_size + h.obj_size ≤ h.slab_size
  pub slabs_apart : AllApart h.slab_size h.slabs
  pub next : HasNext h.slab_size h.next_obj h.slabs
  pub known : All (Known h.obj_size h.slab_size h.next_obj h.slabs) (live ++ h.free)
  pub apart : AllApart h.obj_size (live ++ h.free)

-- `malloc` gives a block that does not overlap the others.
abbrev pub Fresh : Hgang → Option ℕ → Type 0
Fresh h none = Unit
Fresh h (some hdr) = All (Apart h.slab_size hdr) h.slabs

times-le : (k size : ℕ) → (k == 0) ≡ false → size ≤ k * size
times-le zero size h = ground (arith, h)
times-le (suc k) size h = omega (arith, mul_comm (suc k) size, mul-suc size k)

block_size-le : (size slab_size : ℕ) → 0 < size → hdr_size + size ≤ block_size size slab_size
block_size-le size slab_size lt = elim (Bool-cases (slab_size == 0)) [
  | inr some_slab ↦ ground (arith, some_slab, times-le slab_size size some_slab)
  | inl auto ↦ elim (Bool-cases (ltb size 8192)) [
    | inl small ↦
        let le : size ≤ 8192 = ground (arith, small) in
        let rest : 8192 % size ≤ 8192 - size =
          rw (mod-eq-sub-mod {n = 8192} {m = size} le) (mod-le (8192 - size) size) in
        ground (arith, auto, small, rest)
    | inr large ↦ ground (arith, auto, large)
  ]
]

pub hgang_new-IsPool :
    (obj_size slab_size : ℕ)
    → 0 < obj_size
    → (h : Hgang) × (hgang_new obj_size slab_size ≡ some h) × IsPool h []
unfolding hgang_new
hgang_new-IsPool obj_size slab_size lt =
    let size = if ltb obj_size ptr_size then ptr_size else obj_size in
    let zero_no : (obj_size == 0) ≡ false = ground (arith, lt) in
    let h : Hgang = record {
      obj_size = size;
      next_obj = 0;
      slab_size = block_size size slab_size;
      slabs = [];
      free = [];
    } in
    let some_size : 0 < size = elim (Bool-cases (ltb obj_size ptr_size)) [
      | inl y ↦ ground (arith, y)
      | inr n ↦ ground (arith, lt, n)
    ] in
    (
      h,
      rw zero_no refl,
      record {
        some_size = some_size;
        block = block_size-le size slab_size some_size;
        slabs_apart = tt;
        next = tt;
        known = tt;
        apart = tt;
      },
    )

module _ (size slab : ℕ) where
  InSome-Apart :
      (hdr : ℕ) (hdrs : List ℕ) (obj : ℕ)
      → All (Apart slab hdr) hdrs
      → InSome size slab hdrs obj
      → (obj + size ≤ hdr) ⊎ (hdr + slab ≤ obj)
  InSome-Apart hdr [] obj apart other = absurd other
  InSome-Apart hdr (x ∷ hdrs) obj (apart, _) (inl (first, last)) = elim apart [
    | inl before ↦ inr (omega arith)
    | inr behind ↦ inl (omega arith)
  ]
  InSome-Apart hdr (x ∷ hdrs) obj (_, rest) (inr other) = InSome-Apart hdr hdrs obj rest other

  -- The next object of the first slab does not overlap a known one.
  next-Apart :
      (next hdr : ℕ) (hdrs : List ℕ) (obj : ℕ)
      → All (Apart slab hdr) hdrs
      → first_byte hdr ≤ next
      → next + size ≤ hdr + slab
      → Known size slab next (hdr ∷ hdrs) obj
      → Apart size next obj
  next-Apart next hdr hdrs obj apart first last (inl (_, before)) = inr before
  next-Apart next hdr hdrs obj apart first last (inr other) =
      elim (InSome-Apart hdr hdrs obj apart other) [
        | inl before ↦ inr (omega arith)
        | inr behind ↦ inl (omega arith)
      ]

  Known-InSome :
      (next : ℕ) (hdrs : List ℕ) (obj : ℕ)
      → HasNext slab next hdrs
      → Known size slab next hdrs obj
      → InSome size slab hdrs obj
  Known-InSome next [] obj has known = absurd known
  Known-InSome next (hdr ∷ hdrs) obj has (inl (first, before)) = inl (first, omega (arith, has.1))
  Known-InSome next (hdr ∷ hdrs) obj has (inr other) = inr other

  -- The next object moves on.
  Known-more :
      (next : ℕ) (hdrs : List ℕ) (obj : ℕ)
      → Known size slab next hdrs obj
      → Known size slab (next + size) hdrs obj
  Known-more next [] obj known = known
  Known-more next (hdr ∷ hdrs) obj (inl (first, before)) = inl (first, omega (arith, before))
  Known-more next (hdr ∷ hdrs) obj (inr other) = inr other

module _ (h : Hgang) (live : List ℕ) (v : IsPool h live) where
  pub slow-IsPool :
      (hdr : ℕ)
      → All (Apart h.slab_size hdr) h.slabs
      → IsPool
          (record h { next_obj = hdr + hdr_size + h.obj_size; slabs = hdr ∷ h.slabs })
          ((hdr + hdr_size) ∷ live)
  slow-IsPool hdr fresh =
      let size = h.obj_size in
      let slab = h.slab_size in
      let used = live ++ h.free in
      let p = hdr + hdr_size in
      let in_slabs =
        All-map (Known size slab h.next_obj h.slabs) (InSome size slab h.slabs) used
          (λ obj. Known-InSome size slab h.next_obj h.slabs obj v.next) v.known in
      record {
        some_size = v.some_size;
        block = v.block;
        slabs_apart = (fresh, v.slabs_apart);
        next = (omega arith, omega (arith, v.block));
        known = (
          inl (omega arith, omega arith),
          All-map (InSome size slab h.slabs) (Known size slab (p + size) (hdr ∷ h.slabs)) used
              (λ obj s. inr s) in_slabs,
        );
        apart = (
          All-map (InSome size slab h.slabs) (Apart size p) used
              (λ obj s. elim (InSome-Apart size slab hdr h.slabs obj fresh s) [
                | inl before ↦ inr (omega (arith, before))
                | inr behind ↦ inl (omega (arith, v.block, behind))
              ])
              in_slabs,
          v.apart,
        );
      }

  pub fast-IsPool :
      (hdr : ℕ) (hdrs : List ℕ)
      → h.slabs ≡ hdr ∷ hdrs
      → h.next_obj + h.obj_size ≤ hdr + h.slab_size
      → IsPool (record h { next_obj = h.next_obj + h.obj_size }) (h.next_obj ∷ live)
  fast-IsPool hdr hdrs e room =
      let size = h.obj_size in
      let slab = h.slab_size in
      let next = h.next_obj in
      let used = live ++ h.free in
      let has : HasNext slab next (hdr ∷ hdrs) = subst (HasNext slab next) e v.next in
      let apart : AllApart slab (hdr ∷ hdrs) = subst (AllApart slab) e v.slabs_apart in
      let known : All (Known size slab next (hdr ∷ hdrs)) used =
        subst (λ t. All (Known size slab next t) used) e v.known in
      record {
        some_size = v.some_size;
        block = v.block;
        slabs_apart = v.slabs_apart;
        next = subst (HasNext slab (next + size)) (sym e) (omega (arith, has.0), room);
        known =
            subst (λ t. All (Known size slab (next + size) t) (next ∷ used)) (sym e)
              (
                inl (has.0, omega arith),
                All-map (Known size slab next (hdr ∷ hdrs))
                    (Known size slab (next + size) (hdr ∷ hdrs)) used
                    (Known-more size slab next (hdr ∷ hdrs)) known,
              );
        apart = (
          All-map (Known size slab next (hdr ∷ hdrs)) (Apart size next) used
              (λ obj. next-Apart size slab next hdr hdrs obj apart.0 has.0 room) known,
          v.apart,
        );
      }
