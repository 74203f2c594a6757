-- ===== src/Mkroot/Scan/Walk.antt =====
-- The walk of mkroot.c over a directory keeps the lists of a web root in order.
use mathlib.Core.Path.{subst}
use mathlib.Core.Option.{some_inj}
use ashttpd.Prelude.{
  ℕ, ◌≡◌, inl, inr, List, [], ◌∷◌, Option, none, some, if◌then◌else◌, Bool-cases, >>=-some, arith,
}
use ashttpd.Mkroot.{Obj, Root, root_new, path_splice, obj_redirect, obj_file_path}
use ashttpd.Mkroot.Scan.{
  Stat, Item, bad, reg, dir, link, other, Entries, closed, end, entry, StatResult, stat_ok, enoent,
  stat_error, System, skips_name, index_pages, index_dir, webroot_lookup, stat_page, try_index,
  try_pages, index_obj, add_index, is_nil, with_obj, keep_found, link_obj, scan_item, scan_dir,
  scan_root,
}
use ashttpd.Mkroot.Scan.Objects.{IsRoot, root_new-IsRoot, webroot_link-IsRoot}
use ashttpd.Mkroot.Scan.Made.{Gives, obj_file_path-Gives, obj_redirect-Gives, index_dir-Gives}

-- What a page gives, if there is one.
abbrev MayGive : List Obj → Root → Option Obj → Type 0
MayGive os r none = IsRoot os r
MayGive os r (some o) = Gives os r o

module _ (sys : System) where
  stat_page-MayGive :
      (os : List Obj) (res : StatResult) (ipath : List ℕ) (r : Root) (tried : Root × Option Obj)
      → IsRoot os r
      → stat_page sys res ipath r ≡ some tried
      → MayGive os tried.0 tried.1
  unfolding stat_page
  stat_page-MayGive os enoent ipath r tried h e = subst (λ t. MayGive os t.0 t.1) (some_inj.0 e) h
  stat_page-MayGive os stat_error ipath r tried h e = absurd (ground (arith, e))
  stat_page-MayGive os (stat_ok st) ipath r tried h e = elim (Bool-cases st.is_reg) [
    | inl file ↦
        let o =
          obj_file_path ipath (sys.magic_file ipath) st.st_dev st.st_ino st.st_mtime st.st_size r in
        let e' : some (with_obj o) ≡ some tried = rw file at e in
        subst (λ t. MayGive os t.0 t.1) (some_inj.0 e')
          (obj_file_path-Gives os ipath (sys.magic_file ipath) st.st_dev st.st_ino st.st_mtime
            st.st_size r h)
    | inr special ↦
        let e' : ◌≡◌ {A = Option (Root × Option Obj)} (some (r, none)) (some tried) =
          rw special at e in
        subst (λ t. MayGive os t.0 t.1) (some_inj.0 e') h
  ]

  try_pages-MayGive :
      (os : List Obj) (u : List ℕ) (pages : List (List ℕ)) (r : Root) (tried : Root × Option Obj)
      → IsRoot os r
      → try_pages sys u pages r ≡ some tried
      → MayGive os tried.0 tried.1
  unfolding try_pages
  try_pages-MayGive os u [] r tried h e = subst (λ t. MayGive os t.0 t.1) (some_inj.0 e) h
  try_pages-MayGive os u (page ∷ pages) r tried h e =
      let ipath = webroot_lookup sys (path_splice u page) in
      let (first, tried_first, more) = >>=-some (try_index sys u page r) _ e in
      let given = stat_page-MayGive os (sys.stat ipath) ipath r first h tried_first in
      kept first tried (try_pages sys u pages first.0) given more
        (λ ok. try_pages-MayGive os u pages first.0 tried ok)
    where
      kept :
          (first tried : Root × Option Obj) (next : Option (Root × Option Obj))
          → MayGive os first.0 first.1
          → keep_found first next ≡ some tried
          → (IsRoot os first.0 → next ≡ some tried → MayGive os tried.0 tried.1)
          → MayGive os tried.0 tried.1
      kept (r, some obj) tried next given more later =
          subst (λ t. MayGive os t.0 t.1) (some_inj.0 more) given
      kept (r, none) tried next given more later = later given more

  index_obj-Gives :
      (os : List Obj) (st : Stat) (es : Entries) (u : List ℕ) (tried : Root × Option Obj)
      (o : Root × Obj)
      → MayGive os tried.0 tried.1
      → index_obj sys st es u tried ≡ some o
      → Gives os o.0 o.1
  unfolding index_obj
  index_obj-Gives os st es u (r, some obj) o h e = subst (λ t. Gives os t.0 t.1) (some_inj.0 e) h
  index_obj-Gives os st es u (r, none) o h e =
      let (made, listed, e1) = >>=-some (index_dir st es u r) _ e in
      subst (λ t. Gives os t.0 t.1) (some_inj.0 e1) (index_dir-Gives os st es u r made h listed)

  add_index-IsRoot :
      (os : List Obj) (st : Stat) (es : Entries) (u : List ℕ) (r r' : Root)
      → IsRoot os r
      → add_index sys st es u r ≡ some r'
      → IsRoot os r'
  unfolding add_index
  add_index-IsRoot os st es u r r' h e =
      let (tried, pages, e1) = >>=-some (try_pages sys u index_pages r) _ e in
      let (o, indexed, e2) = >>=-some (index_obj sys st es u tried) _ e1 in
      let given =
        index_obj-Gives os st es u tried o (try_pages-MayGive os u index_pages r tried h pages)
          indexed in
      subst (IsRoot os) (some_inj.0 e2) (webroot_link-IsRoot os u o.0 o.1 given)

  -- A directory's own redirect is linked after what is in it.
  abbrev or_nil : List Obj → Option Obj → List Obj
  or_nil os none = os
  or_nil os (some o) = o ∷ os

  link_obj-IsRoot :
      (os : List Obj) (u : List ℕ) (o : Option Obj) (r : Root)
      → IsRoot (or_nil os o) r
      → IsRoot os (link_obj u o r)
  link_obj-IsRoot os u none r h = h
  link_obj-IsRoot os u (some o) r h = webroot_link-IsRoot os u r o h

  own_redirect :
      (os : List Obj) (u dpath : List ℕ) (r : Root)
      → IsRoot os r
      → let o = if is_nil u then (r, none) else with_obj (obj_redirect dpath r) in
        IsRoot (or_nil os o.1) o.0
  own_redirect os [] dpath r h = h
  own_redirect os (c ∷ cs) dpath r h = obj_redirect-Gives os dpath r h

  mutual
    unfolding scan_item

    scan_item-IsRoot :
        (item : Item) (os : List Obj) (at u : List ℕ) (r r' : Root)
        → IsRoot os r
        → scan_item sys item at u r ≡ some r'
        → IsRoot os r'
    scan_item-IsRoot bad os at u r r' h e = absurd (ground (arith, e))
    scan_item-IsRoot other os at u r r' h e = subst (IsRoot os) (some_inj.0 e) h
    scan_item-IsRoot (reg st) os at u r r' h e =
        let path = webroot_lookup sys u in
        let o =
          obj_file_path path (sys.magic_file path) st.st_dev st.st_ino st.st_mtime st.st_size r in
        subst (IsRoot os) (some_inj.0 e) (
          webroot_link-IsRoot os u o.0 o.1 (
            obj_file_path-Gives os path (sys.magic_file path) st.st_dev st.st_ino st.st_mtime
              st.st_size r h))
    scan_item-IsRoot (link none) os at u r r' h e = absurd (ground (arith, e))
    scan_item-IsRoot (link (some buf)) os at u r r' h e =
        let o = obj_redirect (path_splice at buf) r in
        subst (IsRoot os) (some_inj.0 e)
          (webroot_link-IsRoot os u o.0 o.1 (obj_redirect-Gives os (path_splice at buf) r h))
    scan_item-IsRoot (dir st es) os at u r r' h e =
        let dpath = path_splice u (b'/' ∷ []) in
        let (r1, indexed, e1) = >>=-some (add_index sys st es dpath r) _ e in
        let o = if is_nil u then (r1, none) else with_obj (obj_redirect dpath r1) in
        let own = own_redirect os u dpath r1 (add_index-IsRoot os st es dpath r r1 h indexed) in
        let (r2, scanned, e2) = >>=-some (scan_dir sys es u o.0) _ e1 in
        subst (IsRoot os) (some_inj.0 e2)
          (link_obj-IsRoot os u o.1 r2 (scan_dir-IsRoot es (or_nil os o.1) u o.0 r2 own scanned))

    scan_dir-IsRoot :
        (es : Entries) (os : List Obj) (at : List ℕ) (r r' : Root)
        → IsRoot os r
        → scan_dir sys es at r ≡ some r'
        → IsRoot os r'
    scan_dir-IsRoot closed os at r r' h e = absurd (ground (arith, e))
    scan_dir-IsRoot end os at r r' h e = subst (IsRoot os) (some_inj.0 e) h
    scan_dir-IsRoot (entry d_name item es) os at r r' h e =
        let child = scan_item sys item at (path_splice at d_name) r in
        let (r1, scanned, e1) = >>=-some (if skips_name d_name then some r else child) _ e in
        let keep : (r1 : Root) → child ≡ some r1 → IsRoot os r1 =
          λ r1 e. scan_item-IsRoot item os at (path_splice at d_name) r r1 h e in
        scan_dir-IsRoot es os at r1 r'
          (elim (Bool-cases (skips_name d_name)) [
            | inl skipped ↦
                let same : ◌≡◌ {A = Option Root} (some r) (some r1) = rw skipped at scanned in
                subst (IsRoot os) (some_inj.0 same) h
            | inr named ↦ let made : child ≡ some r1 = rw named at scanned in keep r1 made
          ])
          e1

  -- When the walk over a directory succeeds, each URI has an object of the web root, each file object one
  -- of its mime types, no two of them are of one inode, and the size of the temporary file is right.
  pub scan_root-IsRoot : (item : Item) (r : Root) → scan_root sys item ≡ some r → IsRoot [] r
  unfolding scan_root
  scan_root-IsRoot item r e = scan_item-IsRoot item [] [] [] root_new r root_new-IsRoot e
