-- ===== src/Mkroot/Scan/Once.antt =====
-- The walk of mkroot.c over a directory gives each URI once.
use mathlib.Core.Path.{subst}
use mathlib.Core.Option.{some_inj}
use ashttpd.Prelude.{
  ◌<◌, ◌≡◌, ◌≢◌, refl, sym, ap, ◌∙◌, inl, inr, ℕ, List, [], ◌∷◌, ◌++◌, Option, none, some, false,
  if◌then◌else◌, length, All, All-append, All-map, Bool-cases, >>=-some, length-append,
  append_assoc, append-nil, arith,
}
use ashttpd.Mkroot.{
  Obj, Root, root_new, ends_slash, path_splice, webroot_link, obj_redirect, obj_file_path,
}
use ashttpd.Mkroot.Scan.{
  Item, bad, reg, dir, link, other, Entries, closed, end, entry, System, skips_name, webroot_lookup,
  add_index, is_nil, with_obj, link_obj, scan_item, scan_dir, scan_root,
}
use ashttpd.Mkroot.Scan.Names.{
  NoTwo, NoTwo-append, IsName, Absent, IsTree, IsDir, Under, In, ends_slash-child,
  path_splice-child, In-differ, In-long, In-Under,
}
use ashttpd.Mkroot.Scan.Uris.{
  uris, Keeps, link_name, webroot_link-uris, obj_file_path-Keeps, add_index-uris,
}

-- URIs are added behind those that were there, each once.
abbrev Adds : (List ℕ → Type 0) → (r r' : Root) → Type 0
Adds P r r' = (new : List (List ℕ)) × (uris r' ≡ uris r ++ new) × NoTwo new × All P new

Adds-none : (P : List ℕ → Type 0) (r : Root) → Adds P r r
Adds-none P r = ([], sym (append-nil (uris r)), tt, tt)

Adds-join :
    (d : List ℕ) (item : Item) (es : Entries) (u : List ℕ) (r r1 r' : Root)
    → IsName d
    → Absent d es
    → IsDir es
    → Adds (Under (u ++ (47 ∷ d))) r r1
    → Adds (In es u) r1 r'
    → Adds (In (entry d item es) u) r r'
Adds-join d item es u r r1 r' name absent names (xs, ex, nx, ax) (ys, ey, ny, ay) = (
  xs ++ ys,
  ey ∙ ap (λ t. t ++ ys) ex ∙ append_assoc (uris r) xs ys,
  NoTwo-append xs ys nx ny (
      All-map (Under (u ++ (47 ∷ d))) (λ x. All (λ y. x ≢ y) ys) xs
        (λ x under.
          All-map (In es u) (λ y. x ≢ y) ys
            (λ y inside. In-differ es u d x y name absent names under inside) ay)
        ax),
  All-append (In (entry d item es) u) xs ys
      (All-map (Under (u ++ (47 ∷ d))) (In (entry d item es) u) xs (λ x under. inl under) ax)
      (All-map (In es u) (In (entry d item es) u) ys (λ y inside. inr inside) ay),
)

-- An object that is not a directory.
link_name-Under : (u : List ℕ) → Under u (link_name u)
link_name-Under [] = (47 ∷ [], refl, refl, omega arith)
link_name-Under (c ∷ cs) = ([], sym (append-nil (c ∷ cs)), tt, omega arith)

link-Adds :
    (u : List ℕ) (o : Obj) (r r1 : Root) → Keeps r r1 → Adds (Under u) r (webroot_link u o r1)
link-Adds u o r r1 same = (
  link_name u ∷ [],
  webroot_link-uris u o r1 ∙ ap (λ us. uris (record r { r_uri = us }) ++ link_name u ∷ []) same,
  (tt, tt),
  (link_name-Under u, tt),
)

obj_redirect-Keeps : (path : List ℕ) (r : Root) → Keeps r (obj_redirect path r).0
unfolding obj_redirect
obj_redirect-Keeps path r = refl

-- A directory has its index at a name that ends with a slash, and its own name, which is moved there.
abbrev own : List ℕ → List (List ℕ)
own [] = []
own (c ∷ cs) = (c ∷ cs) ∷ []

own-All : (P : List ℕ → Type 0) (u : List ℕ) → (0 < length u → P u) → All P (own u)
own-All P [] h = tt
own-All P (c ∷ cs) h = (h (omega arith), tt)

own-NoTwo : (u : List ℕ) → NoTwo (own u)
own-NoTwo [] = tt
own-NoTwo (c ∷ cs) = (tt, tt)

link_name-slash : (u : List ℕ) → link_name (u ++ (47 ∷ [])) ≡ u ++ (47 ∷ [])
link_name-slash [] = refl
link_name-slash (c ∷ cs) = refl

path_splice-slash : (u : List ℕ) → ends_slash u ≡ false → path_splice u (47 ∷ []) ≡ u ++ (47 ∷ [])
unfolding path_splice
path_splice-slash u e = rw (path_splice, e) refl

own-Keeps :
    (u dpath : List ℕ) (r : Root)
    → Keeps r (if is_nil u then (r, none) else with_obj (obj_redirect dpath r)).0
unfolding obj_redirect
own-Keeps [] dpath r = refl
own-Keeps (c ∷ cs) dpath r = refl

link_obj-own :
    (u dpath : List ℕ) (r r2 : Root)
    → uris (link_obj u (if is_nil u then (r, none) else with_obj (obj_redirect dpath r)).1 r2)
      ≡ uris r2 ++ own u
unfolding obj_redirect
link_obj-own [] dpath r r2 = sym (append-nil (uris r2))
link_obj-own (c ∷ cs) dpath r r2 = webroot_link-uris (c ∷ cs) _ r2

shorter : (u x y : List ℕ) → length x ≡ length y → length u < length x → u ≢ y
shorter u x y e lt same = omega (arith, e, lt, ap length same)

dir-Adds :
    (es : Entries) (u : List ℕ) (r r1 r2 r' : Root)
    → IsDir es
    → uris r1 ≡ uris r ++ (u ++ (47 ∷ [])) ∷ []
    → Adds (In es u) r1 r2
    → uris r' ≡ uris r2 ++ own u
    → Adds (Under u) r r'
dir-Adds es u r r1 r2 r' names e1 (xs, ex, nx, ax) e2 =
    let dpath = u ++ (47 ∷ []) in
    let len = length-append u (47 ∷ []) in
    let long : All (λ x. length dpath < length x) xs =
      All-map (In es u) (λ x. length dpath < length x) xs
        (λ x inside. omega (arith, len, In-long es u x names inside)) ax in
    (
      dpath ∷ (xs ++ own u),
      e2
          ∙ ap (λ t. t ++ own u) (ex ∙ ap (λ t. t ++ xs) e1 ∙ append_assoc (uris r) (dpath ∷ []) xs)
          ∙ append_assoc (uris r) (dpath ∷ xs) (own u),
      (
        All-append (λ y. dpath ≢ y) xs (own u)
            (All-map (λ x. length dpath < length x) (λ y. dpath ≢ y) xs
              (λ x lt. shorter dpath x x refl lt) long)
            (own-All (λ y. dpath ≢ y) u (λ long e. omega (arith, len, ap length e))),
        NoTwo-append xs (own u) nx (own-NoTwo u) (
            All-map (λ x. length dpath < length x) (λ x. All (λ y. x ≢ y) (own u)) xs
              (λ x lt. own-All (λ y. x ≢ y) u (λ some_bytes e. omega (arith, len, lt, ap length e)))
              long),
      ),
      (
        (47 ∷ [], refl, refl, omega (arith, len)),
        All-append (Under u) xs (own u)
            (All-map (In es u) (Under u) xs (λ x inside. In-Under es u x inside) ax)
            (own-All (Under u) u (λ long. ([], sym (append-nil u), tt, long))),
      ),
    )

module _ (sys : System) where
  mutual
    unfolding scan_item IsTree

    scan_item-Adds :
        (item : Item) (at u : List ℕ) (r r' : Root)
        → IsTree item
        → ends_slash u ≡ false
        → scan_item sys item at u r ≡ some r'
        → Adds (Under u) r r'
    scan_item-Adds bad at u r r' names plain e = absurd (ground (arith, e))
    scan_item-Adds other at u r r' names plain e =
        subst (Adds (Under u) r) (some_inj.0 e) (Adds-none (Under u) r)
    scan_item-Adds (reg st) at u r r' names plain e =
        let path = webroot_lookup sys u in
        let mime = sys.magic_file path in
        let o = obj_file_path path mime st.st_dev st.st_ino st.st_mtime st.st_size r in
        subst (Adds (Under u) r) (some_inj.0 e) (
          link-Adds u o.1 r o.0
            (obj_file_path-Keeps path mime st.st_dev st.st_ino st.st_mtime st.st_size r))
    scan_item-Adds (link none) at u r r' names plain e = absurd (ground (arith, e))
    scan_item-Adds (link (some buf)) at u r r' names plain e =
        let o = obj_redirect (path_splice at buf) r in
        subst (Adds (Under u) r) (some_inj.0 e)
          (link-Adds u o.1 r o.0 (obj_redirect-Keeps (path_splice at buf) r))
    scan_item-Adds (dir st es) at u r r' names plain e =
        let dpath = path_splice u (b'/' ∷ []) in
        let (r1, indexed, e1) = >>=-some (add_index sys st es dpath r) _ e in
        let o = if is_nil u then (r1, none) else with_obj (obj_redirect dpath r1) in
        let (r2, scanned, e2) = >>=-some (scan_dir sys es u o.0) _ e1 in
        let slash = path_splice-slash u plain in
        let first =
          ap (λ us. uris (record r { r_uri = us })) (own-Keeps u dpath r1)
          ∙ add_index-uris sys st es dpath r r1 indexed
          ∙ ap (λ t. uris r ++ t ∷ []) (ap link_name slash ∙ link_name-slash u) in
        dir-Adds es u r o.0 r2 r' names first (scan_dir-Adds es u o.0 r2 names plain scanned)
          (ap uris (sym (some_inj.0 e2)) ∙ link_obj-own u dpath r1 r2)

    scan_dir-Adds :
        (es : Entries) (at : List ℕ) (r r' : Root)
        → IsDir es
        → ends_slash at ≡ false
        → scan_dir sys es at r ≡ some r'
        → Adds (In es at) r r'
    scan_dir-Adds closed at r r' names plain e = absurd (ground (arith, e))
    scan_dir-Adds end at r r' names plain e =
        subst (Adds (In end at) r) (some_inj.0 e) (Adds-none (In end at) r)
    scan_dir-Adds (entry d_name item es) at r r' names plain e =
        let (name, tree, absent, others) = names in
        let u = path_splice at d_name in
        let child = scan_item sys item at u r in
        let (r1, scanned, e1) = >>=-some (if skips_name d_name then some r else child) _ e in
        let spliced = path_splice-child at d_name plain name in
        let keep : (r1 : Root) → child ≡ some r1 → Adds (Under (at ++ (47 ∷ d_name))) r r1 = λ r1 e.
          subst (λ u. Adds (Under u) r r1) spliced
            (scan_item-Adds item at u r r1 tree
              (ap ends_slash spliced ∙ ends_slash-child at d_name name) e) in
        Adds-join d_name item es at r r1 r' name absent others
          (elim (Bool-cases (skips_name d_name)) [
            | inl skipped ↦
                let same : ◌≡◌ {A = Option Root} (some r) (some r1) = rw skipped at scanned in
                subst (Adds (Under (at ++ (47 ∷ d_name))) r) (some_inj.0 same)
                  (Adds-none (Under (at ++ (47 ∷ d_name))) r)
            | inr named ↦ let made : child ≡ some r1 = rw named at scanned in keep r1 made
          ])
          (scan_dir-Adds es at r1 r' others plain e1)

  pub scan_root-Adds :
      (item : Item) (r : Root)
      → IsTree item
      → scan_root sys item ≡ some r
      → NoTwo (uris r) × All (λ x. 0 < length x) (uris r)
  unfolding scan_root
  scan_root-Adds item r names e =
      let (new, split, once, under) = scan_item-Adds item [] [] root_new r names refl e in
      let inside =
        All-map (Under []) (λ x. 0 < length x) new (λ x (rest, same, t, long). long) under in
      subst (λ us. NoTwo us × All (λ x. 0 < length x) us) (sym split) (once, inside)

  -- When each directory has each name once, and no name is empty or has a slash, a walk that succeeds gives
  -- each URI once.
  pub scan_root-NoTwo :
      (item : Item) (r : Root) → IsTree item → scan_root sys item ≡ some r → NoTwo (uris r)
  scan_root-NoTwo item r names e = (scan_root-Adds item r names e).0
