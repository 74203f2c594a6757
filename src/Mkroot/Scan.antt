-- ===== src/Mkroot/Scan.antt =====
-- mkroot.c: the walk over a directory, which makes the objects and URIs of a web root.
-- The file system is a tree of what `lstat`, `opendir`, `readdir` and `readlink` give; what `stat` and
-- libmagic say of a path are functions. Allocations and writes to the temporary file succeed.
pub mod Made
pub mod Names
pub mod Uris
pub mod Once
pub mod Sorted
pub mod Objects
pub mod Walk
use ashttpd.Prelude.{
  ℕ, ◌+◌, ◌-◌, List, [], ◌∷◌, ◌++◌, Option, none, some, Bool, true, false, ◌&&◌, ◌||◌, not, ◌==◌,
  if◌then◌else◌, length, codes, ◌>>=◌,
}
use ashttpd.Mkroot.{
  FileObj, Obj, Root, root_new, same_text, begins_slash, path_splice, set_file, webroot_link,
  obj_redirect, obj_code, obj_file_path, obj_file_tmpchunks,
}

-- `struct stat`, as far as it is used.
pub record Stat : Type 0 where
  pub st_dev : ℕ
  pub st_ino : ℕ
  pub st_mtime : ℕ
  pub st_size : ℕ
  pub is_reg : Bool

mutual
  -- What `lstat` gives; `bad` is an error.
  pub data Item : Type 0 where
    bad : Item
    reg : Stat → Item
    dir : Stat → Entries → Item
    link : Option (List ℕ) → Item
    other : Item

  -- What `opendir` and `readdir` give; `closed` is an error of `opendir`.
  pub data Entries : Type 0 where
    closed : Entries
    end : Entries
    entry : (d_name : List ℕ) → Item → Entries → Entries

pub data StatResult : Type 0 where
  stat_ok : Stat → StatResult
  enoent : StatResult
  stat_error : StatResult

pub record System : Type 0 where
  pub r_base : List ℕ
  pub stat : List ℕ → StatResult
  pub magic_file : List ℕ → List ℕ

abbrev pub dotfiles : Bool
dotfiles = false

abbrev pub indexdirs : Bool
indexdirs = true

abbrev pub begins_dot : List ℕ → Bool
begins_dot [] = false
begins_dot (c ∷ cs) = c == b'.'

-- The entries that are passed over.
abbrev pub skips_name : List ℕ → Bool
skips_name d_name =
    same_text d_name (codes ".")
    || same_text d_name (codes "..")
    || (not dotfiles && begins_dot d_name)

abbrev pub index_pages : List (List ℕ)
index_pages = codes "index.html" ∷ codes "default.html" ∷ []

-- `tc_printf`, with the text as it is formatted.
unfoldable pub tc_printf : (text : List ℕ) → Root → Root
tc_printf text r = record r {
  r_tmpchunks = r.r_tmpchunks ++ text;
  r_tmpoff = r.r_tmpoff + length text;
}

abbrev pub page_head : (u : List ℕ) → Root → Root
page_head u r =
    let a =
      tc_printf
        (codes "<!DOCTYPE HTML PUBLIC "
          ++ (b'"' ∷ codes "-//W3C//DTD HTML 3.2 Final//EN" ++ (b'"' ∷ codes ">")))
        r in
    let b =
      tc_printf
        (codes "<html>"
          ++ (10 ∷ 9 ∷ codes "<head><title>Index of "
              ++ (u ++ (codes "</title>" ++ (9 ∷ codes "</head>" ++ (10 ∷ []))))))
        a in
    let c = tc_printf (codes "<body><h1>Index of " ++ (u ++ (codes "</h1>" ++ (10 ∷ [])))) b in
    tc_printf (codes "</body>" ++ (10 ∷ codes "</html>")) c

-- The line of an entry.
abbrev pub page_line : (u d_name : List ℕ) → Root → Root
page_line u d_name r =
    tc_printf
      (codes "<a href="
        ++ (b'"' ∷ path_splice u d_name
            ++ (b'"' ∷ codes ">" ++ (d_name ++ (codes "</a><br>" ++ (10 ∷ []))))))
      r

-- The walk of `index_dir`; `none` is an error of `opendir`.
unfoldable pub page_lines : Entries → (u : List ℕ) → Root → Option Root
unfolding tc_printf path_splice
page_lines closed u r = none
page_lines end u r = some r
page_lines (entry d_name item es) u r =
    page_lines es u (if skips_name d_name then r else page_line u d_name r)

unfoldable pub index_dir : Stat → Entries → (u : List ℕ) → Root → Option (Root × ℕ)
unfolding page_lines obj_file_tmpchunks
index_dir st es u r = do
  let o = obj_file_tmpchunks (codes "text/html") st.st_dev st.st_ino st.st_mtime r
  r' ← page_lines es u (page_head u o.0)
  let size = r'.r_tmpoff - r.r_tmpoff
  some (record r' { r_file = set_file o.1 (λ f. record f { size = size }) r'.r_file }, o.1)

abbrev pub is_nil : List ℕ → Bool
is_nil [] = true
is_nil (c ∷ cs) = false

abbrev pub with_obj : Root × Obj → Root × Option Obj
with_obj o = (o.0, some o.1)

-- The end of `scan_item`, where there may be an object.
abbrev pub link_obj : (u : List ℕ) → Option Obj → Root → Root
link_obj u none r = r
link_obj u (some obj) r = webroot_link u obj r

abbrev pub keep_found : Root × Option Obj → Option (Root × Option Obj) → Option (Root × Option Obj)
keep_found (r, some obj) next = some (r, some obj)
keep_found (r, none) next = next

module _ (sys : System) where
  abbrev pub webroot_lookup : List ℕ → List ℕ
  webroot_lookup path = path_splice sys.r_base path

  -- `try_index` after its call of `stat`: `none` is an error, and no object a page that is not there.
  unfoldable pub stat_page : StatResult → (ipath : List ℕ) → Root → Option (Root × Option Obj)
  unfolding obj_file_path
  stat_page enoent ipath r = some (r, none)
  stat_page stat_error ipath r = none
  stat_page (stat_ok st) ipath r =
      let o =
        obj_file_path ipath (sys.magic_file ipath) st.st_dev st.st_ino st.st_mtime st.st_size r in
      if st.is_reg then some (with_obj o) else some (r, none)

  unfoldable pub try_index : (u page : List ℕ) → Root → Option (Root × Option Obj)
  unfolding path_splice stat_page
  try_index u page r =
      let ipath = webroot_lookup (path_splice u page) in stat_page (sys.stat ipath) ipath r

  -- The loop of `add_index`, which ends with the first object.
  unfoldable pub try_pages :
      (u : List ℕ) → (pages : List (List ℕ)) → Root → Option (Root × Option Obj)
  unfolding try_index
  try_pages u [] r = some (r, none)
  try_pages u (page ∷ pages) r = do
    tried ← try_index u page r
    keep_found tried (try_pages u pages tried.0)

  -- The object of the index: a page, or else the directory is listed, or forbidden.
  unfoldable pub index_obj : Stat → Entries → (u : List ℕ) → Root × Option Obj → Option (Root × Obj)
  unfolding index_dir obj_code
  index_obj st es u (r, some obj) = some (r, obj)
  index_obj st es u (r, none) =
      let listed = (do made ← index_dir st es u r; some (made.0, Obj.file_at made.1)) in
      if indexdirs then listed else some (obj_code 403 r)

  unfoldable pub add_index : Stat → Entries → (u : List ℕ) → Root → Option Root
  unfolding try_pages index_obj webroot_link
  add_index st es u r = do
    tried ← try_pages u index_pages r
    o ← index_obj st es u tried
    some (webroot_link u o.1 o.0)

  unfoldable mutual
    unfolding add_index obj_redirect obj_file_path webroot_link path_splice

    pub scan_item : Item → (at u : List ℕ) → Root → Option Root
    scan_item bad at u r = none
    scan_item other at u r = some r
    scan_item (reg st) at u r =
        let path = webroot_lookup u in
        let o =
          obj_file_path path (sys.magic_file path) st.st_dev st.st_ino st.st_mtime st.st_size r in
        some (webroot_link u o.1 o.0)
    scan_item (link none) at u r = none
    scan_item (link (some buf)) at u r =
        let o = obj_redirect (path_splice at buf) r in some (webroot_link u o.1 o.0)
    scan_item (dir st es) at u r = do
      let dpath = path_splice u (b'/' ∷ [])
      r1 ← add_index st es dpath r
      let o = if is_nil u then (r1, none) else with_obj (obj_redirect dpath r1)
      r2 ← scan_dir es u o.0
      some (link_obj u o.1 r2)

    pub scan_dir : Entries → (at : List ℕ) → Root → Option Root
    scan_dir closed at r = none
    scan_dir end at r = some r
    scan_dir (entry d_name item es) at r = do
      let child = scan_item item at (path_splice at d_name) r
      r' ← if skips_name d_name then some r else child
      scan_dir es at r'

-- `scan_item` of `do_mkroot`.
unfoldable pub scan_root : System → Item → Option Root
unfolding scan_item
scan_root sys item = scan_item sys item [] [] root_new
