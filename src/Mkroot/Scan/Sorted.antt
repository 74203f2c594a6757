-- ===== src/Mkroot/Scan/Sorted.antt =====
-- The URIs of mkroot.c in the order of `sort_uris`, as trie.c gets them.
use mathlib.Core.Path.{subst}
use mathlib.Core.List.{Permᴰ}
use ashttpd.Prelude.{
  ℕ, ◌+◌, ◌<◌, ◌≡◌, ◌≢◌, ◌⊎◌, inl, inr, List, [], ◌∷◌, some, length, map, All, All-map, All-zip,
  arith,
}
use ashttpd.Trie.{TrieEntry}
use ashttpd.Trie.Sorted.{Less, IsSorted, IsEntry}
use ashttpd.Trie.Nodes.{IsSite}
use ashttpd.Mkroot.{Uri, Obj, redirect_at, file_at, Root}
use ashttpd.Mkroot.Image.{o_oid, trie_entries}
use ashttpd.Mkroot.Scan.{Item, System, scan_root}
use ashttpd.Mkroot.Scan.Objects.{IsObj}
use ashttpd.Mkroot.Scan.Names.{NoTwo, IsTree}
use ashttpd.Mkroot.Scan.Uris.{uris}
use ashttpd.Mkroot.Scan.Walk.{scan_root-IsRoot}
use ashttpd.Mkroot.Scan.Once.{scan_root-Adds}

-- `ucmp` gives no more than 0 for each and those behind it.
abbrev pub Ordered : List Uri → Type 0
Ordered [] = Unit
Ordered (u ∷ us) = All (λ v. (u.u_uri ≡ v.u_uri) ⊎ Less u.u_uri v.u_uri) us × Ordered us

-- What `qsort` may make of a list with `ucmp`.
pub record IsSorting (us sorted : List Uri) : Type 0 where
  pub perm : Permᴰ us sorted
  pub ordered : Ordered sorted

-- A string without NUL, of less than 256 bytes.
abbrev pub IsUri : List ℕ → Type 0
IsUri x = All (λ c. (0 < c) × (c < 256)) x × (length x < 256)

All-perm : (P : Uri → Type 0) {us vs : List Uri} → Permᴰ us vs → All P us → All P vs
All-perm P Permᴰ.nil h = tt
All-perm P (Permᴰ.cons e p) h = (subst P e h.0, All-perm P p h.1)
All-perm P (Permᴰ.swap e e') h = (subst P e' h.1.0, (subst P e h.0, h.1.1))
All-perm P (Permᴰ.trans p q) h = All-perm P q (All-perm P p h)

uris-All :
    (P : List ℕ → Type 0) (us : List Uri)
    → All P (map (λ (u : Uri). u.u_uri) us)
    → All (λ u. P u.u_uri) us
uris-All P [] h = tt
uris-All P (u ∷ us) h = (h.0, uris-All P us h.1)

-- No two have the same string.
abbrev Apart : List Uri → Type 0
Apart [] = Unit
Apart (u ∷ us) = All (λ v. u.u_uri ≢ v.u_uri) us × Apart us

NoTwo-Apart : (us : List Uri) → NoTwo (map (λ (u : Uri). u.u_uri) us) → Apart us
NoTwo-Apart [] h = tt
NoTwo-Apart (u ∷ us) h = (uris-All (λ x. u.u_uri ≢ x) us h.0, NoTwo-Apart us h.1)

Apart-perm : {us vs : List Uri} → Permᴰ us vs → Apart us → Apart vs
Apart-perm Permᴰ.nil h = tt
Apart-perm (Permᴰ.cons {l₂ = l₂} e p) h =
    (subst (λ u. All (λ v. u.u_uri ≢ v.u_uri) l₂) e (All-perm _ p h.0), Apart-perm p h.1)
Apart-perm (Permᴰ.swap {l = l} e e') h = (
  (λ same. h.0.0 (cc (same, e, e')), subst (λ u. All (λ v. u.u_uri ≢ v.u_uri) l) e' h.1.0),
  (subst (λ u. All (λ v. u.u_uri ≢ v.u_uri) l) e h.0.1, h.1.1),
)
Apart-perm (Permᴰ.trans p q) h = Apart-perm q (Apart-perm p h)

module _ (r : Root) where
  abbrev entry_of : Uri → TrieEntry
  entry_of u = record { t_str = u.u_uri; t_oid = o_oid r u.u_obj }

  entries-All :
      (P : TrieEntry → Type 0) (us : List Uri)
      → All (λ u. P (entry_of u)) us
      → All P (trie_entries r us)
  entries-All P [] h = tt
  entries-All P (u ∷ us) h = (h.0, entries-All P us h.1)

  Ordered-IsSorted : (us : List Uri) → Ordered us → Apart us → IsSorted 0 (trie_entries r us)
  Ordered-IsSorted [] h a = tt
  Ordered-IsSorted (u ∷ us) h a = (
    entries-All (λ t. Less u.u_uri t.t_str) us
        (All-zip (λ v. (u.u_uri ≡ v.u_uri) ⊎ Less u.u_uri v.u_uri) (λ v. u.u_uri ≢ v.u_uri)
          (λ v. Less u.u_uri v.u_uri) us (λ v le differ. strictly u v le differ) h.0 a.0),
    Ordered-IsSorted us h.1 a.1,
  )
    where
      strictly :
          (u v : Uri)
          → (u.u_uri ≡ v.u_uri) ⊎ Less u.u_uri v.u_uri
          → u.u_uri ≢ v.u_uri
          → Less u.u_uri v.u_uri
      strictly u v (inl same) differ = absurd (differ same)
      strictly u v (inr less) differ = less

  o_oid-lt :
      (o : Obj)
      → IsObj (length r.r_redirect) (length r.r_file) o
      → o_oid r o < length r.r_redirect + length r.r_file
  o_oid-lt (redirect_at i) h = omega (arith, h)
  o_oid-lt (file_at i) h = omega (arith, h)

-- When each directory has each name once, no name is empty or has a slash, and the URIs are strings of
-- less than 256 bytes, what `sort_uris` makes of the URIs of a walk that succeeds is what trie.c takes:
-- they are in the order of `strcmp`, no two are the same, none is empty, and each has an object.
pub scan_root-IsSite :
    (sys : System) (item : Item) (r : Root) (us : List Uri)
    → IsTree item
    → scan_root sys item ≡ some r
    → All IsUri (uris r)
    → IsSorting r.r_uri us
    → IsSite (length r.r_redirect + length r.r_file) (trie_entries r us)
scan_root-IsSite sys item r us names e texts sorting =
    let (once, long) = scan_root-Adds sys item r names e in
    let m = length r.r_redirect + length r.r_file in
    let objs = (scan_root-IsRoot sys item r e).uris in
    let P : Uri → Type 0 = λ u.
      IsUri u.u_uri
      × (0 < length u.u_uri)
      × IsObj (length r.r_redirect) (length r.r_file) u.u_obj in
    let all : All P us = All-perm P sorting.perm (
      All-zip (λ u. IsUri u.u_uri)
        (λ u. (0 < length u.u_uri) × IsObj (length r.r_redirect) (length r.r_file) u.u_obj) P
        r.r_uri (λ u text more. (text, more.0, more.1)) (uris-All IsUri r.r_uri texts)
        (All-zip (λ u. 0 < length u.u_uri)
          (λ u. IsObj (length r.r_redirect) (length r.r_file) u.u_obj) _ r.r_uri
          (λ u some_bytes obj. (some_bytes, obj)) (uris-All (λ x. 0 < length x) r.r_uri long)
          objs)) in
    record {
      sorted =
          Ordered-IsSorted r us sorting.ordered
            (Apart-perm sorting.perm (NoTwo-Apart r.r_uri once));
      inside =
          entries-All r (λ t. 0 < length t.t_str) us
            (All-map P (λ u. 0 < length u.u_uri) us (λ u h. h.1) all);
      entries = entries-All r (IsEntry m) us (
          All-map P (λ u. IsEntry m (record { t_str = u.u_uri; t_oid = o_oid r u.u_obj })) us
            (λ u (text, long, obj). record {
              bytes = text.0;
              short = text.1;
              known = o_oid-lt r u.u_obj obj;
            })
            all);
    }
