-- ===== src/Nbio/Lists.antt =====
-- The lists of nbio.c: how often an I/O is on which, and what moving one does.
use mathlib.Core.Path.{subst}
use ashttpd.Prelude.{
  ℕ, suc, ◌+◌, ◌≤◌, ◌≡◌, refl, sym, ◌∙◌, List, [], ◌∷◌, ◌++◌, true, false, ◌==◌, if◌then◌else◌,
  Bool-cases, ◌⊎◌, inl, inr, arith, ==→eq,
}
use ashttpd.Nbio.{
  flags_and, flags_any, is_deleted, mask_wait, Nbio, IoThread, Place, on_inactive, on_active,
  on_deleted, on_waitq, without, set_io, list_move_tail,
}

-- How often a number is in a list.
abbrev pub count : ℕ → List ℕ → ℕ
count k [] = 0
count k (x ∷ xs) = let rest = count k xs in if x == k then suc rest else rest

pub count-append : (k : ℕ) (xs ys : List ℕ) → count k (xs ++ ys) ≡ count k xs + count k ys
count-append k [] ys = omega arith
count-append k (x ∷ xs) ys = ground (arith, count-append k xs ys)

pub count-without :
    (k n : ℕ) (xs : List ℕ) → count k (without n xs) ≡ (if k == n then 0 else count k xs)
count-without k n [] = ground arith
count-without k n (x ∷ xs) = ground (arith, count-without k n xs)

-- Where an I/O is, by the number of times that it is on the active, inactive, wait and deleted lists: on
-- one at most, on that of the deleted ones exactly if its mask says so, and on the active list only if
-- it has something to do.
pub record IsAt (active inactive waitq deleted : ℕ) (io : Nbio) : Type 0 where
  pub once : active + inactive + waitq + deleted ≤ 1
  pub alive :
      ((is_deleted io.mask ≡ true) × (active + inactive + waitq ≡ 0))
      ⊎ ((is_deleted io.mask ≡ false) × (deleted ≡ 0))
  pub busy : (active ≡ 0) ⊎ (flags_any (flags_and (mask_wait io.mask) io.flags) ≡ true)

abbrev pub IsPlaced : IoThread → ℕ → Type 0
IsPlaced t n =
    IsAt (count n t.active) (count n t.inactive) (count n t.waitq) (count n t.deleted) (t.ios n)

abbrev pub IsLoop : IoThread → Type 0
IsLoop t = (n : ℕ) → IsPlaced t n

-- All but one are placed.
abbrev pub IsLoopBut : ℕ → IoThread → Type 0
IsLoopBut n t = (k : ℕ) → (k == n) ≡ false → IsPlaced t k

-- The list that an I/O may be put on.
abbrev pub Fits : Place → Nbio → Type 0
Fits on_deleted io = is_deleted io.mask ≡ true
Fits on_active io =
    (is_deleted io.mask ≡ false) × (flags_any (flags_and (mask_wait io.mask) io.flags) ≡ true)
Fits on_inactive io = is_deleted io.mask ≡ false
Fits on_waitq io = is_deleted io.mask ≡ false

pub set_io-IsLoopBut : (n : ℕ) (io : Nbio) (t : IoThread) → IsLoop t → IsLoopBut n (set_io n io t)
set_io-IsLoopBut n io t v k e = rw e (v k)

pub gone : (k n : ℕ) (xs : List ℕ) → (k == n) ≡ false → count k (without n xs) ≡ count k xs
gone k n xs e = count-without k n xs ∙ rw e refl

added : (k n : ℕ) (xs : List ℕ) → (k == n) ≡ false → count k (without n xs ++ n ∷ []) ≡ count k xs
added k n xs e = ground (arith, count-append k (without n xs) (n ∷ []), gone k n xs e, e)

pub none_left : (n : ℕ) (xs : List ℕ) → count n (without n xs) ≡ 0
none_left n xs = ground (arith, count-without n n xs)

one_left : (n : ℕ) (xs : List ℕ) → count n (without n xs ++ n ∷ []) ≡ 1
one_left n xs = ground (arith, count-append n (without n xs) (n ∷ []), none_left n xs)

module _ (n : ℕ) (t : IoThread) where
  moved_other :
      (q : Place) (k : ℕ) → (k == n) ≡ false → IsPlaced t k → IsPlaced (list_move_tail n q t) k
  unfolding list_move_tail
  moved_other on_active k e v =
      rw (added k n t.active e, gone k n t.inactive e, gone k n t.waitq e, gone k n t.deleted e) v
  moved_other on_inactive k e v =
      rw (gone k n t.active e, added k n t.inactive e, gone k n t.waitq e, gone k n t.deleted e) v
  moved_other on_deleted k e v =
      rw (gone k n t.active e, gone k n t.inactive e, gone k n t.waitq e, added k n t.deleted e) v
  moved_other on_waitq k e v =
      rw (gone k n t.active e, gone k n t.inactive e, added k n t.waitq e, gone k n t.deleted e) v

  moved_self : (q : Place) → Fits q (t.ios n) → IsPlaced (list_move_tail n q t) n
  unfolding list_move_tail
  moved_self on_active fits =
      rw (one_left n t.active, none_left n t.inactive, none_left n t.waitq, none_left n t.deleted)
        (record { once = omega arith; alive = inr (fits.0, refl); busy = inr fits.1 })
  moved_self on_inactive fits =
      rw (none_left n t.active, one_left n t.inactive, none_left n t.waitq, none_left n t.deleted)
        (record { once = omega arith; alive = inr (fits, refl); busy = inl refl })
  moved_self on_deleted fits =
      rw (none_left n t.active, none_left n t.inactive, none_left n t.waitq, one_left n t.deleted)
        (record { once = omega arith; alive = inl (fits, omega arith); busy = inl refl })
  moved_self on_waitq fits =
      rw (none_left n t.active, none_left n t.inactive, one_left n t.waitq, none_left n t.deleted)
        (record { once = omega arith; alive = inr (fits, refl); busy = inl refl })

-- Moving an I/O to a list that it fits puts it there and nowhere else.
pub list_move_tail-IsLoop :
    (n : ℕ) (q : Place) (t : IoThread)
    → IsLoopBut n t
    → Fits q (t.ios n)
    → IsLoop (list_move_tail n q t)
list_move_tail-IsLoop n q t others fits k = elim (Bool-cases (k == n)) [
  | inl y ↦ subst (IsPlaced (list_move_tail n q t)) (sym (==→eq k n y)) (moved_self n t q fits)
  | inr e ↦ moved_other n t q k e (others k e)
]
