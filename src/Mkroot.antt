-- ===== src/Mkroot.antt =====
-- mkroot.c: the objects of a web root that is being built. Allocations succeed.
-- Objects are only added to the ends of their lists, so a pointer to one is its place there. A mime type
-- is added to the front: a pointer to one is the number of those behind it.
pub mod Image
pub mod Scan
use ashttpd.Prelude.{
  ℕ, zero, suc, ◌+◌, ◌-◌, List, [], ◌∷◌, ◌++◌, Option, none, some, Bool, true, false, ◌&&◌, ◌||◌,
  ◌==◌, if◌then◌else◌, length, get_elem?,
}

-- `struct mime_type`
pub record MimeType : Type 0 where
  pub m_type : List ℕ
  pub m_strtab_off : ℕ

-- An object of the type OBJ_TYPE_REDIRECT; `uri` is NULL for a code.
pub record Redirect : Type 0 where
  pub uri : Option (List ℕ)
  pub strtab_off : ℕ
  pub code : ℕ

-- Where the bytes of a file are: at a path, or in the temporary file from an offset on.
pub data Content : Type 0 where
  file_path : (path : List ℕ) → Content
  file_tmpchunk : (tmpoff : ℕ) → Content

-- An object of the type OBJ_TYPE_FILE
pub record FileObj : Type 0 where
  pub type : ℕ
  pub content : Content
  pub size : ℕ
  pub off : ℕ
  pub dev : ℕ
  pub ino : ℕ
  pub mtime : ℕ
  pub digest : List ℕ

-- A pointer to an object.
pub data Obj : Type 0 where
  redirect_at : ℕ → Obj
  file_at : ℕ → Obj

-- `struct uri`
pub record Uri : Type 0 where
  pub u_obj : Obj
  pub u_uri : List ℕ

-- The lists of `struct webroot`, whose counts are their lengths, and the bytes that were written to the
-- temporary file, with their number.
pub record Root : Type 0 where
  pub r_uri : List Uri
  pub r_redirect : List Redirect
  pub r_file : List FileObj
  pub r_mime_type : List MimeType
  pub r_tmpchunks : List ℕ
  pub r_tmpoff : ℕ

-- `hgang_alloc0` clears an object.
abbrev pub no_digest : List ℕ
no_digest = 0 ∷ 0 ∷ 0 ∷ 0 ∷ 0 ∷ 0 ∷ 0 ∷ 0 ∷ 0 ∷ 0 ∷ 0 ∷ 0 ∷ 0 ∷ 0 ∷ 0 ∷ 0 ∷ 0 ∷ 0 ∷ 0 ∷ 0 ∷ []

abbrev pub root_new : Root
root_new = record {
  r_uri = [];
  r_redirect = [];
  r_file = [];
  r_mime_type = [];
  r_tmpchunks = [];
  r_tmpoff = 0;
}

-- `strcmp` gives 0.
abbrev pub same_text : (a b : List ℕ) → Bool
same_text [] [] = true
same_text [] (b ∷ bs) = false
same_text (a ∷ as') [] = false
same_text (a ∷ as') (b ∷ bs) = let rest = same_text as' bs in if a == b then rest else false

-- The tests of `path_splice`.
abbrev pub ends_slash : List ℕ → Bool
ends_slash [] = false
ends_slash (c ∷ []) = c == b'/'
ends_slash (c ∷ d ∷ cs) = ends_slash (d ∷ cs)

abbrev pub begins_slash : List ℕ → Bool
begins_slash [] = false
begins_slash (c ∷ cs) = c == b'/'

unfoldable pub path_splice : (dir path : List ℕ) → List ℕ
path_splice dir path =
    if ends_slash dir || begins_slash path then dir ++ path else dir ++ (b'/' ∷ path)

-- `webroot_link`
unfoldable pub webroot_link : (link : List ℕ) → (target : Obj) → Root → Root
webroot_link link target r =
    let name : List ℕ = elim link [ [] ↦ b'/' ∷ [] | c ∷ cs ↦ c ∷ cs ] in
    record r { r_uri = r.r_uri ++ record { u_obj = target; u_uri = name } ∷ [] }

-- The walk of `mime_add`: the number of types behind the first that is the same.
abbrev pub find_mime : (mime : List ℕ) → List MimeType → Option ℕ
find_mime mime [] = none
find_mime mime (m ∷ ms) =
    let rest = find_mime mime ms in if same_text m.m_type mime then some (length ms) else rest

unfoldable pub mime_add : (mime : List ℕ) → Root → Root × ℕ
mime_add mime r = elim (find_mime mime r.r_mime_type) [
  | some m ↦ (r, m)
  | none ↦ (
    record r { r_mime_type = record { m_type = mime; m_strtab_off = 0 } ∷ r.r_mime_type },
    length r.r_mime_type,
  )
]

-- The type that a pointer points to.
abbrev pub mime_at : List MimeType → ℕ → Option MimeType
mime_at [] k = none
mime_at (m ∷ ms) k = let rest = mime_at ms k in if k == length ms then some m else rest

unfoldable pub obj_redirect : (path : List ℕ) → Root → Root × Obj
obj_redirect path r = (
  record r {
    r_redirect = r.r_redirect ++ record { uri = some path; strtab_off = 0; code = 0 } ∷ [];
  },
  redirect_at (length r.r_redirect),
)

unfoldable pub obj_code : (code : ℕ) → Root → Root × Obj
obj_code code r = (
  record r { r_redirect = r.r_redirect ++ record { uri = none; strtab_off = 0; code = code } ∷ [] },
  redirect_at (length r.r_redirect),
)

abbrev pub next_place : Option ℕ → Option ℕ
next_place none = none
next_place (some i) = some (suc i)

-- The walk of `obj_file`.
abbrev pub find_file : (dev ino : ℕ) → List FileObj → Option ℕ
find_file dev ino [] = none
find_file dev ino (f ∷ fs) =
    let rest = next_place (find_file dev ino fs) in
    if dev == f.dev && ino == f.ino then some 0 else rest

-- The object that `obj_file` makes; its callers set the type and the path.
abbrev pub new_file : (dev ino mtime size : ℕ) → FileObj
new_file dev ino mtime size = record {
  type = 0;
  content = file_path [];
  size = size;
  off = 0;
  dev = dev;
  ino = ino;
  mtime = mtime;
  digest = no_digest;
}

abbrev pub set_file : ℕ → (FileObj → FileObj) → List FileObj → List FileObj
set_file i g [] = []
set_file zero g (f ∷ fs) = g f ∷ fs
set_file (suc i) g (f ∷ fs) = f ∷ set_file i g fs

unfoldable pub obj_file : (dev ino mtime size : ℕ) → Root → Root × ℕ
obj_file dev ino mtime size r = elim (find_file dev ino r.r_file) [
  | some i ↦ (r, i)
  | none ↦ (record r { r_file = r.r_file ++ new_file dev ino mtime size ∷ [] }, length r.r_file)
]

unfoldable pub obj_file_path : (path mime : List ℕ) (dev ino mtime size : ℕ) → Root → Root × Obj
unfolding obj_file mime_add
obj_file_path path mime dev ino mtime size r =
    let a = obj_file dev ino mtime size r in
    let m = mime_add mime a.0 in
    (
      record (m.0) {
        r_file = set_file a.1 (λ f. record f { content = file_path path; type = m.1 }) m.0.r_file;
      },
      file_at a.1,
    )

unfoldable pub obj_file_tmpchunks : (mime : List ℕ) (dev ino mtime : ℕ) → Root → Root × ℕ
unfolding obj_file mime_add
obj_file_tmpchunks mime dev ino mtime r =
    let a = obj_file dev ino mtime 0 r in
    let m = mime_add mime a.0 in
    (
      record (m.0) {
        r_file =
            set_file a.1 (λ f. record f { content = file_tmpchunk r.r_tmpoff; type = m.1 })
              m.0.r_file;
      },
      a.1,
    )
