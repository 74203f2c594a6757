-- ===== src/HttpParse/Dispatch.antt =====
-- The binary search of `dispatch_hdr` (http_parse.c) finds what a linear search would find, if the
-- table is sorted by the order of `vcasecmp_fast`, which compares lengths first.
use ashttpd.Prelude.{
  ℕ, zero, suc, ◌+◌, ◌-◌, ◌/◌, ◌<◌, ◌≡◌, refl, sym, ap, ◌∙◌, List, [], ◌∷◌, ◌++◌, Option, none,
  some, true, false, not, append_assoc, arith, if◌then◌else◌, Bool-cases, inl, inr, length, drop,
  get_elem?, All, append-nil, length-append, is_zero, is_neg,
}
use mathlib.Core.Path.{subst}
use ashttpd.Vec.{RoVec, vec, vstrcmp_fast}
use ashttpd.Vec.Compare.{vcasecmp_fast_trans, vcasecmp_fast-congr}
use ashttpd.HttpParse.{Hcb, search_hdr, call, dispatch_hdr}

module _ {S : Type 0} where
  abbrev pub Before : RoVec → Hcb S → Type 0
  Before k e = is_neg (vstrcmp_fast k e.label) ≡ true

  -- Each label stands before all later ones.
  abbrev pub IsSorted : List (Hcb S) → Type 0
  IsSorted [] = Unit
  IsSorted (e ∷ es) = All (Before (vec e.label)) es × IsSorted es

  -- The first entry whose label is `k` up to case.
  unfoldable pub find_hdr : RoVec → List (Hcb S) → Option (Hcb S)
  find_hdr k [] = none
  find_hdr k (e ∷ es) =
      let rest = find_hdr k es in if is_zero (vstrcmp_fast k e.label) then some e else rest

  orelse : Option (Hcb S) → Option (Hcb S) → Option (Hcb S)
  orelse none o = o
  orelse (some e) o = some e

  find_hdr-append :
      (k : RoVec) (xs ys : List (Hcb S))
      → find_hdr k (xs ++ ys) ≡ orelse (find_hdr k xs) (find_hdr k ys)
  unfolding find_hdr orelse
  find_hdr-append k [] ys = refl
  find_hdr-append k (x ∷ xs) ys = ground (arith, find_hdr-append k xs ys)

  neg_trans : (k : RoVec) (e x : Hcb S) → Before k e → Before (vec e.label) x → Before k x
  unfolding vstrcmp_fast
  neg_trans k e x h g = vcasecmp_fast_trans k (vec e.label) (vec x.label) h g

  find_hdr-Before :
      (k : RoVec) (e : Hcb S) (es : List (Hcb S))
      → Before k e
      → All (Before (vec e.label)) es
      → find_hdr k es ≡ none
  unfolding find_hdr
  find_hdr-Before k e [] h all = refl
  find_hdr-Before k e (x ∷ es) h all =
      ground (arith, neg_trans k e x h all.0, find_hdr-Before k e es h all.1)

  -- `xs` all stand before `e`, and `k` stands behind it.
  All-Before-mid :
      (xs ys : List (Hcb S)) (e : Hcb S)
      → IsSorted (xs ++ e ∷ ys)
      → All (λ x. Before (vec x.label) e) xs
  All-Before-mid [] ys e h = tt
  All-Before-mid (x ∷ xs) ys e h = (all_at xs h.0, All-Before-mid xs ys e h.1)
    where
      all_at :
          (zs : List (Hcb S)) → All (Before (vec x.label)) (zs ++ e ∷ ys) → Before (vec x.label) e
      all_at [] a = a.0
      all_at (z ∷ zs) a = all_at zs a.1

  -- What does not stand before `e` differs from all that does.
  apart :
      (k : RoVec) (e x : Hcb S)
      → is_neg (vstrcmp_fast k e.label) ≡ false
      → Before (vec x.label) e
      → is_zero (vstrcmp_fast k x.label) ≡ false
  unfolding vstrcmp_fast
  apart k e x h g = ground (arith, vcasecmp_fast-congr k (vec x.label) (vec e.label))

  find_hdr-behind :
      (k : RoVec) (e : Hcb S) (xs : List (Hcb S))
      → is_neg (vstrcmp_fast k e.label) ≡ false
      → All (λ x. Before (vec x.label) e) xs
      → find_hdr k xs ≡ none
  unfolding find_hdr
  find_hdr-behind k e [] h all = refl
  find_hdr-behind k e (x ∷ xs) h all =
      ground (arith, apart k e x h all.0, find_hdr-behind k e xs h all.1)

  IsSorted-left : (xs ys : List (Hcb S)) → IsSorted (xs ++ ys) → IsSorted xs
  IsSorted-left [] ys h = tt
  IsSorted-left (x ∷ xs) ys h = (all_left xs h.0, IsSorted-left xs ys h.1)
    where
      all_left :
          (zs : List (Hcb S))
          → All (Before (vec x.label)) (zs ++ ys)
          → All (Before (vec x.label)) zs
      all_left [] a = tt
      all_left (z ∷ zs) a = (a.0, all_left zs a.1)

  IsSorted-right : (xs ys : List (Hcb S)) → IsSorted (xs ++ ys) → IsSorted ys
  IsSorted-right [] ys h = h
  IsSorted-right (x ∷ xs) ys h = IsSorted-right xs ys h.1

  -- One probe of the search decides what the linear search finds in the whole list.
  find_hdr-split :
      (k : RoVec) (ls rs : List (Hcb S)) (e : Hcb S)
      → IsSorted (ls ++ e ∷ rs)
      → find_hdr k (ls ++ e ∷ rs) ≡ (
          if is_neg (vstrcmp_fast k e.label)
          then find_hdr k ls
          else if not (is_zero (vstrcmp_fast k e.label))
          then find_hdr k rs
          else some e)
  find_hdr-split k ls rs e h =
      let sorted : IsSorted (e ∷ rs) = IsSorted-right ls (e ∷ rs) h in
      elim (Bool-cases (is_neg (vstrcmp_fast k e.label))) [
        | inl before ↦
            rw (before, find_hdr-append k ls (e ∷ rs))
              (unfold find_hdr orelse in ground (arith, find_hdr-Before k e rs before sorted.0))
        | inr behind ↦
            rw (behind, find_hdr-append k ls (e ∷ rs))
              (unfold find_hdr orelse in
                ground (arith, find_hdr-behind k e ls behind (All-Before-mid ls rs e h)))
      ]

  get_elem?-mid : (ls rs : List (Hcb S)) (e : Hcb S) → get_elem? (ls ++ e ∷ rs) (length ls) ≡ some e
  get_elem?-mid [] rs e = refl
  get_elem?-mid (l ∷ ls) rs e = get_elem?-mid ls rs e

  drop-mid : (ls rs : List (Hcb S)) (e : Hcb S) → drop (length ls + 1) (ls ++ e ∷ rs) ≡ rs
  drop-mid [] rs e = refl
  drop-mid (l ∷ ls) rs e =
      let shift : suc (length ls) + 1 ≡ suc (length ls + 1) = omega arith in
      rw shift (drop-mid ls rs e)

  search_hdr-step :
      (f m : ℕ) (ls rs : List (Hcb S)) (e : Hcb S) (k : RoVec)
      → suc m / 2 ≡ length ls
      → search_hdr (suc f) (ls ++ e ∷ rs) (suc m) k ≡ (
          if is_neg (vstrcmp_fast k e.label)
          then search_hdr f (ls ++ e ∷ rs) (length ls) k
          else if not (is_zero (vstrcmp_fast k e.label))
          then search_hdr f rs (m - length ls) k
          else some e)
  unfolding search_hdr
  search_hdr-step f m ls rs e k h =
      let left : suc m - (length ls + 1) ≡ m - length ls = omega arith in
      rw (h, search_hdr, get_elem?-mid ls rs e) (rw (h, drop-mid ls rs e, left))

  split_at :
      (xs : List (Hcb S)) (i : ℕ)
      → i < length xs
      → (ls : List (Hcb S)) × (e : Hcb S) × (rs : List (Hcb S)) × (xs ≡ ls ++ e ∷ rs)
        × (length ls ≡ i)
  split_at [] i h = absurd (omega arith)
  split_at (x ∷ xs) zero h = ([], x, xs, refl, refl)
  split_at (x ∷ xs) (suc i) h =
      let (ls, e, rs, eq, len) = split_at xs i (omega arith) in
      (x ∷ ls, e, rs, ap (λ t. x ∷ t) eq, ap suc len)

  search_hdr-round :
      (f m : ℕ) (ls rs tail : List (Hcb S)) (e : Hcb S) (k : RoVec)
      → suc m / 2 ≡ length ls
      → m ≡ length ls + length rs
      → IsSorted (ls ++ e ∷ rs)
      → search_hdr f (ls ++ e ∷ (rs ++ tail)) (length ls) k ≡ find_hdr k ls
      → search_hdr f (rs ++ tail) (length rs) k ≡ find_hdr k rs
      → search_hdr (suc f) ((ls ++ e ∷ rs) ++ tail) (suc m) k ≡ find_hdr k (ls ++ e ∷ rs)
  search_hdr-round f m ls rs tail e k mid len sorted left right =
      let size : m - length ls ≡ length rs = omega arith in
      rw (
        append_assoc ls (e ∷ rs) tail,
        search_hdr-step f m ls (rs ++ tail) e k mid,
        find_hdr-split k ls rs e sorted,
        size,
        left,
        right,
      )

  search_hdr-find :
      (f : ℕ) (xs tail : List (Hcb S)) (k : RoVec)
      → length xs < f
      → IsSorted xs
      → search_hdr f (xs ++ tail) (length xs) k ≡ find_hdr k xs
  search_hdr-find zero xs tail k h sorted = absurd (omega arith)
  search_hdr-find (suc f) [] tail k h sorted = unfold search_hdr find_hdr in refl
  search_hdr-find (suc f) (x ∷ xs) tail k h sorted =
      let (ls, e, rs, eq, mid) = split_at (x ∷ xs) (suc (length xs) / 2) (omega arith) in
      let len : suc (length xs) ≡ length ls + suc (length rs) =
        ap length eq ∙ length-append ls (e ∷ rs) in
      let parts : IsSorted (ls ++ e ∷ rs) = subst IsSorted eq sorted in
      subst (λ t. search_hdr (suc f) (t ++ tail) (suc (length xs)) k ≡ find_hdr k t) (sym eq)
        (search_hdr-round f (length xs) ls rs tail e k (sym mid) (omega arith) parts
          (search_hdr-find f ls (e ∷ (rs ++ tail)) k (omega arith)
            (IsSorted-left ls (e ∷ rs) parts))
          (search_hdr-find f rs tail k (omega arith) (IsSorted-right ls (e ∷ rs) parts).1))

  -- On a sorted table the binary search of `dispatch_hdr` calls the function of the entry whose
  -- label equals the header's name up to case, and no function if there is no such entry.
  pub dispatch_hdr-find :
      (dcb : List (Hcb S)) (k v : RoVec) (s : S)
      → IsSorted dcb
      → dispatch_hdr dcb k v s ≡ call (find_hdr k dcb) v s
  unfolding dispatch_hdr
  dispatch_hdr-find dcb k v s sorted =
      let found : search_hdr (length dcb + 1) (dcb ++ []) (length dcb) k ≡ find_hdr k dcb =
        search_hdr-find (length dcb + 1) dcb [] k (omega arith) sorted in
      ap (λ o. call o v s) (rw append-nil at found)
