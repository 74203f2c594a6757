-- ===== src/Hgang/Runs.antt =====
-- Any number of allocations from a pool of hgang.c, and returns to it, in any order.
use mathlib.Core.Path.{subst}
use mathlib.Core.Option.{some_inj}
use ashttpd.Prelude.{
  ℕ, ◌+◌, ◌≤◌, ◌≡◌, ◌≢◌, ◌==◌, refl, sym, ap, ◌∙◌, inl, inr, List, [], ◌∷◌, ◌++◌, Option, none,
  some, true, Bool-cases, All, append_assoc, arith,
}
use ashttpd.Hgang.{
  Hgang, obj_in_slab, hgang_new, hgang_alloc_slow, alloc_next, alloc_from, hgang_alloc,
  hgang_return,
}
use ashttpd.Hgang.Apart.{Apart, AllApart, All-pull, All-push, AllApart-pull, AllApart-push}
use ashttpd.Hgang.Pool.{Known, IsPool, Fresh, hgang_new-IsPool, slow-IsPool, fast-IsPool}

-- What an allocation leaves: the pool with one more object in use, or NULL and the pool.
abbrev pub Allocates : List ℕ → Option ℕ × Hgang → Type 0
Allocates live (none, h) = IsPool h live
Allocates live (some p, h) = IsPool h (p ∷ live)

module _ (h : Hgang) (live : List ℕ) (v : IsPool h live) where
  pop-IsPool : (p : ℕ) (ps : List ℕ) → h.free ≡ p ∷ ps → IsPool (record h { free = ps }) (p ∷ live)
  pop-IsPool p ps e =
      let known = Known h.obj_size h.slab_size h.next_obj h.slabs in
      record {
        some_size = v.some_size;
        block = v.block;
        slabs_apart = v.slabs_apart;
        next = v.next;
        known = All-pull known live p ps (subst (λ f. All known (live ++ f)) e v.known);
        apart =
            AllApart-pull h.obj_size live p ps
              (subst (λ f. AllApart h.obj_size (live ++ f)) e v.apart);
      }

  alloc_slow-Allocates :
      (malloc : Option ℕ) → Fresh h malloc → Allocates live (hgang_alloc_slow malloc h)
  unfolding hgang_alloc_slow
  alloc_slow-Allocates none fresh = v
  alloc_slow-Allocates (some hdr) fresh = slow-IsPool h live v hdr fresh

  alloc_next-Allocates :
      (malloc : Option ℕ) (slabs : List ℕ)
      → h.slabs ≡ slabs
      → Fresh h malloc
      → Allocates live (alloc_next malloc slabs h)
  unfolding alloc_next
  alloc_next-Allocates malloc [] e fresh = alloc_slow-Allocates malloc fresh
  alloc_next-Allocates malloc (hdr ∷ hdrs) e fresh =
      elim (Bool-cases (obj_in_slab h hdr h.next_obj)) [
        | inl room ↦
            let fits : h.next_obj + h.obj_size ≤ hdr + h.slab_size = ground (arith, room) in
            let same : alloc_next malloc (hdr ∷ hdrs) h
                ≡ (some h.next_obj, record h { next_obj = h.next_obj + h.obj_size }) =
              rw (alloc_next, room) refl in
            subst (Allocates live) (sym same) (fast-IsPool h live v hdr hdrs e fits)
        | inr full ↦
            let same : alloc_next malloc (hdr ∷ hdrs) h ≡ hgang_alloc_slow malloc h =
              rw (alloc_next, full) refl in
            subst (Allocates live) (sym same) (alloc_slow-Allocates malloc fresh)
      ]

  -- An allocation gives an object that does not overlap any in use, or NULL.
  pub hgang_alloc-Allocates :
      (malloc : Option ℕ) → Fresh h malloc → Allocates live (hgang_alloc malloc h)
  unfolding hgang_alloc
  hgang_alloc-Allocates malloc fresh = go h.free refl
    where
      go : (free : List ℕ) → h.free ≡ free → Allocates live (hgang_alloc malloc h)
      go [] e =
          subst (Allocates live) (sym (ap (λ f. alloc_from malloc f h) e))
            (alloc_next-Allocates malloc h.slabs refl fresh)
      go (p ∷ ps) e =
          subst (Allocates live) (sym (ap (λ f. alloc_from malloc f h) e)) (pop-IsPool p ps e)

hgang_return-IsPool :
    (h : Hgang) (xs : List ℕ) (p : ℕ) (ys : List ℕ)
    → IsPool h (xs ++ p ∷ ys)
    → IsPool (hgang_return h (some p)) (xs ++ ys)
unfolding hgang_return
hgang_return-IsPool h xs p ys v =
    let known = Known h.obj_size h.slab_size h.next_obj h.slabs in
    let out = append_assoc xs (p ∷ ys) h.free in
    let back = append_assoc xs ys h.free in
    let (known_p, known_rest) =
      All-pull known xs p (ys ++ h.free) (subst (All known) out v.known) in
    let (apart_p, apart_rest) =
      AllApart-pull h.obj_size xs p (ys ++ h.free) (subst (AllApart h.obj_size) out v.apart) in
    let used = sym back in
    record {
      some_size = v.some_size;
      block = v.block;
      slabs_apart = v.slabs_apart;
      next = v.next;
      known = All-push known (xs ++ ys) p h.free known_p (subst (All known) used known_rest);
      apart =
          AllApart-push h.obj_size (xs ++ ys) p h.free
            (subst (All (Apart h.obj_size p)) used apart_p)
            (subst (AllApart h.obj_size) used apart_rest);
    }

-- A pool and the objects in use after some calls. Only an object that is in use is returned.
pub data Runs : Hgang → List ℕ → Type 0 where
  starts : {h : Hgang} (obj_size slab_size : ℕ) → hgang_new obj_size slab_size ≡ some h → Runs h []
  allocs :
      {h : Hgang} {live : List ℕ} (malloc : Option ℕ) (p : ℕ)
      → Fresh h malloc
      → (hgang_alloc malloc h).0 ≡ some p
      → Runs h live
      → Runs (hgang_alloc malloc h).1 (p ∷ live)
  fails :
      {h : Hgang} {live : List ℕ} (malloc : Option ℕ)
      → Fresh h malloc
      → (hgang_alloc malloc h).0 ≡ none
      → Runs h live
      → Runs (hgang_alloc malloc h).1 live
  returns :
      {h : Hgang} (xs : List ℕ) (p : ℕ) (ys : List ℕ)
      → Runs h (xs ++ p ∷ ys)
      → Runs (hgang_return h (some p)) (xs ++ ys)

new_none :
    {h : Hgang} (obj_size slab_size : ℕ)
    → (obj_size == 0) ≡ true
    → hgang_new obj_size slab_size ≢ some h
unfolding hgang_new
new_none obj_size slab_size z e = ground (arith, z, e)

got :
    {live : List ℕ} {p : ℕ} (r : Option ℕ × Hgang)
    → r.0 ≡ some p
    → Allocates live r
    → IsPool r.1 (p ∷ live)
got {live} (none, h) e v = ground (arith, e)
got {live} (some p, h) e v = subst (λ x. IsPool h (x ∷ live)) (some_inj.0 e) v

got_none : {live : List ℕ} (r : Option ℕ × Hgang) → r.0 ≡ none → Allocates live r → IsPool r.1 live
got_none (none, h) e v = v
got_none (some p, h) e v = ground (arith, e)

-- Whatever is allocated and returned, in any order, the objects in use and the free ones never overlap,
-- and each of them is inside of a slab, if `malloc` gives blocks that do not overlap and only an object
-- that is in use is returned.
pub Runs-IsPool : (h : Hgang) (live : List ℕ) → Runs h live → IsPool h live
Runs-IsPool h' live (starts {h} obj_size slab_size e) = elim (Bool-cases (obj_size == 0)) [
  | inl zero_size ↦ absurd (new_none obj_size slab_size zero_size e)
  | inr some_size ↦
      let (h1, e1, v) = hgang_new-IsPool obj_size slab_size (ground (arith, some_size)) in
      subst (λ x. IsPool x []) (some_inj.0 (sym e1 ∙ e)) v
]
Runs-IsPool h' live' (allocs {h} {live} malloc p fresh e r) =
    got (hgang_alloc malloc h) e (hgang_alloc-Allocates h live (Runs-IsPool h live r) malloc fresh)
Runs-IsPool h' live' (fails {h} {live} malloc fresh e r) =
    got_none (hgang_alloc malloc h) e
      (hgang_alloc-Allocates h live (Runs-IsPool h live r) malloc fresh)
Runs-IsPool h' live' (returns {h} xs p ys r) =
    hgang_return-IsPool h xs p ys (Runs-IsPool h (xs ++ p ∷ ys) r)
