-- ===== src/Strpool/Runs.antt =====
-- No two objects of a pool of strpool.c overlap.
use mathlib.Core.Path.{subst}
use ashttpd.Prelude.{
  All-map, ℕ, ◌+◌, ◌-◌, ◌^◌, ◌<◌, ◌≤◌, ◌≡◌, refl, sym, ◌⊎◌, inl, inr, List, [], ◌∷◌, Option, none,
  some, ltb, All, Bool-cases, arith,
}
use ashttpd.Strpool.{
  Slab, Strpool, overhead, strpool_new, slab_need, slab_alloc, strpool_alloc_slow, slab_take,
  alloc_tail, strpool_alloc,
}

-- Some bytes of the memory.
pub record Area : Type 0 where
  pub at : ℕ
  pub size : ℕ

abbrev pub Apart : Area → Area → Type 0
Apart a b = (a.at + a.size ≤ b.at) ⊎ (b.at + b.size ≤ a.at)

abbrev pub Within : Area → Area → Type 0
Within a b = (b.at ≤ a.at) × (a.at + a.size ≤ b.at + b.size)

abbrev pub AllApart : List Area → Type 0
AllApart [] = Unit
AllApart (x ∷ xs) = All (Apart x) xs × AllApart xs

-- What malloc gave, and what is left of it.
abbrev pub block : Slab → Area
block s = record { at = s.base; size = s.alloc }

abbrev pub rest : Slab → Area
rest s = record { at = s.ptr; size = s.len }

abbrev pub InSlab : Area → List Slab → Type 0
InSlab o [] = ⊥
InSlab o (s ∷ ss) = Within o (block s) ⊎ InSlab o ss

-- The memory that malloc returns is none that it returned before.
abbrev pub IsFresh : Strpool → (sz : ℕ) → (malloc : Option ℕ) → Type 0
IsFresh m sz none = Unit
IsFresh m sz (some s) =
    All (λ t. Apart (record { at = s; size = slab_alloc m sz }) (block t)) m.slabs

abbrev pub handed : Option ℕ → (sz : ℕ) → List Area → List Area
handed none sz objs = objs
handed (some p) sz objs = record { at = p; size = sz } ∷ objs

-- A pool after some calls, with the objects that were handed out.
pub data Runs : Strpool → List Area → Type 0 where
  starts : (slab_size : ℕ) → Runs (strpool_new slab_size) []
  allocs :
      {m : Strpool} {objs : List Area} (malloc : Option ℕ) (sz : ℕ)
      → Runs m objs
      → overhead + sz < 2 ^ 64
      → IsFresh m sz malloc
      → Runs (strpool_alloc malloc m sz).0 (handed (strpool_alloc malloc m sz).1 sz objs)

-- The last slab: what is left of it is in it, and none of the objects reaches into that.
abbrev pub IsTail : List Slab → List Area → Type 0
IsTail [] objs = Unit
IsTail (s ∷ ss) objs = Within (rest s) (block s) × All (λ o. Apart o (rest s)) objs

pub record IsStrpool (m : Strpool) (objs : List Area) : Type 0 where
  pub apart : AllApart objs
  pub inside : All (λ o. InSlab o m.slabs) objs
  pub last : IsTail m.slabs objs

abbrev IsStep : Strpool × Option ℕ → (sz : ℕ) → List Area → Type 0
IsStep r sz objs = IsStrpool r.0 (handed r.1 sz objs)

-- What is within a block is apart from whatever the block is apart from.
Apart-Within : (a b c d : Area) → Apart a b → Within c b → Within d a → Apart d c
Apart-Within a b c d (inl h) (l, u) (l', u') = inl (omega (arith, h, l, u, l', u'))
Apart-Within a b c d (inr h) (l, u) (l', u') = inr (omega (arith, h, l, u, l', u'))

Apart-flip : (a b : Area) → Apart a b → Apart b a
Apart-flip a b (inl h) = inr h
Apart-flip a b (inr h) = inl h

InSlab-Apart :
    (a d o : Area) (ss : List Slab)
    → All (λ t. Apart a (block t)) ss
    → Within d a
    → InSlab o ss
    → Apart d o
InSlab-Apart a d o [] h w i = elim i [ ]
InSlab-Apart a d o (s ∷ ss) (h, hs) w (inl i) = Apart-Within a (block s) o d h i w
InSlab-Apart a d o (s ∷ ss) (h, hs) w (inr i) = InSlab-Apart a d o ss hs w i

slab_need-small : (sz : ℕ) → overhead + sz < 2 ^ 64 → slab_need sz ≡ overhead + sz
slab_need-small sz lt = omega arith

slab_alloc-le : (m : Strpool) (sz : ℕ) → overhead + sz < 2 ^ 64 → overhead + sz ≤ slab_alloc m sz
slab_alloc-le m sz lt = elim (Bool-cases (ltb (slab_need sz) m.slab_size)) [
  | inl y ↦ ground (arith, y, slab_need-small sz lt)
  | inr y ↦ ground (arith, y, slab_need-small sz lt)
]

alloc_slow-IsStrpool :
    (malloc : Option ℕ) (m : Strpool) (sz : ℕ) (objs : List Area)
    → IsStrpool m objs
    → overhead + sz < 2 ^ 64
    → IsFresh m sz malloc
    → IsStep (strpool_alloc_slow malloc m sz) sz objs
unfolding strpool_alloc_slow
alloc_slow-IsStrpool none m sz objs h lt fresh = h
alloc_slow-IsStrpool (some s) m sz objs h lt fresh =
    let le = slab_alloc-le m sz lt in
    let need = slab_need-small sz lt in
    let a : Area = record { at = s; size = slab_alloc m sz } in
    let d : Area = record { at = s + overhead; size = sz } in
    let left : Area = record { at = s + overhead + sz; size = slab_alloc m sz - slab_need sz } in
    let d_in : Within d a = (omega arith, omega (arith, le)) in
    let left_in : Within left a = (omega arith, omega (arith, le, need)) in
    record {
      apart = (
        All-map (λ o. InSlab o m.slabs) (Apart d) objs
            (λ o i. InSlab-Apart a d o m.slabs fresh d_in i) h.inside,
        h.apart,
      );
      inside = (
        inl d_in,
        All-map (λ o. InSlab o m.slabs) (λ o. Within o a ⊎ InSlab o m.slabs) objs (λ o i. inr i)
            h.inside,
      );
      last = (
        left_in,
        (
          inl (omega arith),
          All-map (λ o. InSlab o m.slabs) (λ o. Apart o left) objs
              (λ o i. Apart-flip left o (InSlab-Apart a left o m.slabs fresh left_in i)) h.inside,
        ),
      );
    }

slab_take-len : (s : Slab) (sz : ℕ) → sz ≤ s.len → (slab_take s sz).len ≡ s.len - sz
slab_take-len s sz le = elim (Bool-cases (ltb (s.ptr + s.len) (s.ptr + sz))) [
  | inl y ↦ ground (arith, le, y)
  | inr y ↦ ground (arith, le, y)
]

-- What is apart from a free area is apart from its front and from the rest.
Apart-front :
    (o : Area) (s : Slab) (sz : ℕ)
    → sz ≤ s.len
    → Apart o (rest s)
    → Apart (record { at = s.ptr; size = sz }) o
Apart-front o s sz le (inl h) = inr (omega (arith, h))
Apart-front o s sz le (inr h) = inl (omega (arith, h, le))

Apart-back :
    (o : Area) (s : Slab) (sz : ℕ) → sz ≤ s.len → Apart o (rest s) → Apart o (rest (slab_take s sz))
Apart-back o s sz le (inl h) = inl (omega (arith, h))
Apart-back o s sz le (inr h) = inr (omega (arith, h, le, slab_take-len s sz le))

slab_take-IsStrpool :
    (m : Strpool) (sz : ℕ) (s : Slab) (ss : List Slab) (objs : List Area)
    → m.slabs ≡ s ∷ ss
    → sz ≤ s.len
    → IsStrpool m objs
    → IsStrpool (record m { slabs = slab_take s sz ∷ ss }) (record { at = s.ptr; size = sz } ∷ objs)
slab_take-IsStrpool m sz s ss objs e le h =
    let ((lo, hi), free) = subst (λ l. IsTail l objs) e h.last in
    let inside = subst (λ l. All (λ o. InSlab o l) objs) e h.inside in
    let new_len = slab_take-len s sz le in
    let d : Area = record { at = s.ptr; size = sz } in
    record {
      apart = (
        All-map (λ o. Apart o (rest s)) (Apart d) objs (λ o a. Apart-front o s sz le a) free,
        h.apart,
      );
      inside = (inl (lo, omega (arith, hi, le)), inside);
      last = (
        (omega (arith, lo), omega (arith, hi, le, new_len)),
        (
          inl (omega arith),
          All-map (λ o. Apart o (rest s)) (λ o. Apart o (rest (slab_take s sz))) objs
              (λ o a. Apart-back o s sz le a) free,
        ),
      );
    }

alloc_tail-IsStrpool :
    (malloc : Option ℕ) (m : Strpool) (sz : ℕ) (ss : List Slab) (objs : List Area)
    → m.slabs ≡ ss
    → IsStrpool m objs
    → overhead + sz < 2 ^ 64
    → IsFresh m sz malloc
    → IsStep (alloc_tail malloc m sz ss) sz objs
alloc_tail-IsStrpool malloc m sz [] objs e h lt fresh =
    alloc_slow-IsStrpool malloc m sz objs h lt fresh
alloc_tail-IsStrpool malloc m sz (s ∷ ss) objs e h lt fresh = elim (Bool-cases (ltb s.len sz)) [
  | inl less ↦
      let step : alloc_tail malloc m sz (s ∷ ss) ≡ strpool_alloc_slow malloc m sz =
        rw (alloc_tail, less) refl in
      subst (λ r. IsStep r sz objs) (sym step) (alloc_slow-IsStrpool malloc m sz objs h lt fresh)
  | inr fits ↦
      let r : Strpool × Option ℕ = (record m { slabs = slab_take s sz ∷ ss }, some s.ptr) in
      let step : alloc_tail malloc m sz (s ∷ ss) ≡ r = rw (alloc_tail, fits) refl in
      subst (λ r. IsStep r sz objs) (sym step)
        (slab_take-IsStrpool m sz s ss objs e (ground (arith, fits)) h)
]

-- After any calls with sizes that `size_t` holds together with the slab's own 24 bytes, no two objects of a pool share a byte, each is within memory that the system
-- gave, and none reaches into what is still to be handed out, provided that the system never returns
-- memory twice.
pub Runs-IsStrpool : {m : Strpool} {objs : List Area} → Runs m objs → IsStrpool m objs
unfolding strpool_new strpool_alloc
Runs-IsStrpool (starts slab_size) = record { apart = tt; inside = tt; last = tt }
Runs-IsStrpool (allocs {m} {objs} malloc sz runs lt fresh) =
    alloc_tail-IsStrpool malloc m sz m.slabs objs refl (Runs-IsStrpool runs) lt fresh
