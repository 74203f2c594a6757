-- ===== src/Webroot.antt =====
-- webroot.c, webroot-common.h and include/webroot-format.h: the index of a web root, and the search in it.
-- The arrays of the mapped index are lists of their structures. A string is the bytes from its pointer
-- to the end of readable memory, with its length; `fault` is an access outside of an array or of that
-- memory, or a failed assertion.
pub mod Complete
pub mod Edges
pub mod Answer
pub mod Find
pub mod Mapped
pub mod Search
use ashttpd.Prelude.{
  ℕ, zero, suc, ◌+◌, ◌-◌, ◌*◌, ◌/◌, ◌%◌, ◌^◌, List, [], ◌∷◌, Option, none, some, Bool, true, false,
  not, ltb, leb, ◌==◌, if◌then◌else◌, length, take, drop, get_elem?, ℤ, pos, sub_ℕ, is_zero, is_neg,
  ◌>>=◌, ◌>>◌, assert,
}
use ashttpd.Vec.{vec}
use ashttpd.HttpConn.Get.{
  FileData, WebrootName, http_found, http_moved_permanently, http_forbidden, http_other,
}

abbrev pub gidx_invalid_oid : ℕ
gidx_invalid_oid = 0xffffffff

abbrev pub webroot_invalid_redirect : ℕ
webroot_invalid_redirect = 0xffffffff

abbrev pub webroot_magic : ℕ
webroot_magic = 0x37 * 2 ^ 24 + 0x13 * 2 ^ 16 + 87 * 2 ^ 8 + 119

abbrev pub webroot_current_ver : ℕ
webroot_current_ver = 3

abbrev pub etag_sz : ℕ
etag_sz = 20

-- `re_str` is the first `re_strlen` bytes of the field.
pub record TrieDedge : Type 0 where
  pub re_oid : ℕ
  pub re_edges_idx : ℕ
  pub re_num_edges : ℕ
  pub re_str : List ℕ

pub record WebrootFile : Type 0 where
  pub f_off : ℕ
  pub f_len : ℕ
  pub f_type : ℕ
  pub f_type_len : ℕ
  pub f_modified : ℕ
  pub f_digest : List ℕ

pub record WebrootRedirect : Type 0 where
  pub r_off : ℕ
  pub r_len : ℕ

-- `struct _webroot`; `r_map` is the bytes of the mapped part of the file.
pub record Webroot : Type 0 where
  pub r_ref : ℕ
  pub r_map : List ℕ
  pub r_trie : List TrieDedge
  pub r_redir : List WebrootRedirect
  pub r_file : List WebrootFile

abbrev pub r_num_oid : Webroot → ℕ
r_num_oid r = length r.r_redir + length r.r_file

-- The first difference between a string's memory and a text.
unfoldable pub byte_diff : (mem text : List ℕ) → ℤ
byte_diff mem [] = pos 0
byte_diff [] (c ∷ cs) = pos 0
byte_diff (m ∷ mem) (c ∷ cs) = let rest = byte_diff mem cs in if m == c then rest else sub_ℕ m c

-- `memcmp` of a string's memory with a text, which must have as many bytes that can be read.
unfoldable pub memcmp : (mem text : List ℕ) → Option ℤ
unfolding byte_diff
memcmp mem text = if leb (length text) (length mem) then some (byte_diff mem text) else none

pub data Query : Type 0 where
  oid : ℕ → Query
  fault : Query
  out_of_fuel : Query

-- `trie_query`: `re` is the array from the pointer on, of which `num_edges` are to be searched. Each
-- round of the loop and each call takes one unit of fuel.
unfoldable pub trie_query :
    (fuel : ℕ) (trie re : List TrieDedge) (num_edges : ℕ) (mem : List ℕ) (v_len : ℕ) → Query
unfolding memcmp
trie_query zero trie re n mem v_len = out_of_fuel
trie_query (suc f) trie re zero mem v_len = oid gidx_invalid_oid
trie_query (suc f) trie re (suc m) mem v_len =
    let i = suc m / 2 in
    elim (get_elem? re i) [
      | none ↦ fault
      | some e ↦ elim (memcmp mem e.re_str) [
        | none ↦ fault
        | some cmp ↦
            let left = trie_query f trie re i mem v_len in
            let right = trie_query f trie (drop (i + 1) re) (suc m - (i + 1)) mem v_len in
            let k = length e.re_str in
            let suff_len = (v_len + 2 ^ 64 - k) % 2 ^ 64 in
            let down =
              trie_query f trie (drop e.re_edges_idx trie) e.re_num_edges (drop k mem) suff_len in
            if is_neg cmp
            then left
            else if not (is_zero cmp)
            then right
            else if suff_len == 0
            then oid e.re_oid
            else if ltb e.re_edges_idx (length trie)
            then down
            else fault
      ]
    ]

-- The fuel for the search in a whole index: more than a loop over 255 edges for each edge.
abbrev pub query_fuel : Webroot → ℕ
query_fuel r = (length r.r_trie + 2) * 257

-- The bytes of the mapped file at an offset.
abbrev pub map_bytes : Webroot → (off len : ℕ) → List ℕ
map_bytes r off len = take len (drop off r.r_map)

unfoldable pub redirect_name : Webroot → WebrootRedirect → WebrootName
redirect_name r redir =
    if redir.r_off == webroot_invalid_redirect
    then (if redir.r_len == 403 then http_forbidden else http_other redir.r_len)
    else http_moved_permanently (vec (map_bytes r redir.r_off redir.r_len))

abbrev pub file_data : Webroot → WebrootFile → FileData
file_data r file = record {
  mime_type = vec (map_bytes r file.f_type file.f_type_len);
  f_ofs = file.f_off;
  f_len = file.f_len;
  f_mtime = file.f_modified;
  f_etag = take etag_sz file.f_digest;
}

unfoldable pub file_name : Webroot → WebrootFile → WebrootName
file_name r file = http_found (file_data r file)

-- What an object number stands for; `none` is the failed assertion.
unfoldable pub oid_name : Webroot → ℕ → Option WebrootName
unfolding redirect_name file_name
oid_name r idx =
    let n = length r.r_redir in
    if ltb idx (r_num_oid r)
    then (if ltb idx n
        then (do redir ← get_elem? r.r_redir idx; some (redirect_name r redir))
        else (do file ← get_elem? r.r_file (idx - n); some (file_name r file)))
    else none

-- `webroot_find`: `some none` is its result 0, and `none` a fault. `mem` is the memory from the URI on.
unfoldable pub webroot_find : Webroot → (mem : List ℕ) (v_len : ℕ) → Option (Option WebrootName)
unfolding trie_query oid_name
webroot_find r mem v_len = elim (trie_query (query_fuel r) r.r_trie r.r_trie 1 mem v_len) [
  | fault ↦ none
  | out_of_fuel ↦ none
  | oid idx ↦
      let found = (do name ← oid_name r idx; some (some name)) in
      if idx == gidx_invalid_oid then some none else found
]

unfoldable pub webroot_ref : Webroot → Webroot
webroot_ref r = record r { r_ref = r.r_ref + 1 }

-- `webroot_unref` and `dtor`: `none` is left of a web root whose last reference is gone.
unfoldable pub webroot_unref : Option Webroot → Option Webroot
webroot_unref none = none
webroot_unref (some r) =
    let left = (r.r_ref + 2 ^ 32 - 1) % 2 ^ 32 in
    if left == 0 then none else some (record r { r_ref = left })

-- `struct webroot_hdr`
pub record WebrootHdr : Type 0 where
  pub h_num_edges : ℕ
  pub h_num_redirect : ℕ
  pub h_num_file : ℕ
  pub h_strtab_sz : ℕ
  pub h_magic : ℕ
  pub h_vers : ℕ
  pub h_files_begin : ℕ

-- The sizes of the packed structures.
abbrev pub sizeof_hdr : ℕ
sizeof_hdr = 32

abbrev pub sizeof_dedge : ℕ
sizeof_dedge = 18

abbrev pub sizeof_redirect : ℕ
sizeof_redirect = 8

abbrev pub sizeof_file : ℕ
sizeof_file = 48

-- Where `webroot_open` puts the arrays: the offsets of edges, redirects, files, strings and their end.
pub record Layout : Type 0 where
  pub trie_at : ℕ
  pub redir_at : ℕ
  pub file_at : ℕ
  pub strtab_at : ℕ
  pub end_at : ℕ

-- The products are of 64 bits.
unfoldable pub layout : WebrootHdr → Layout
layout hdr =
    let redir = sizeof_hdr + hdr.h_num_edges * sizeof_dedge in
    let file = redir + hdr.h_num_redirect * sizeof_redirect in
    let strtab = file + hdr.h_num_file * sizeof_file in
    record {
      trie_at = sizeof_hdr;
      redir_at = redir;
      file_at = file;
      strtab_at = strtab;
      end_at = strtab + hdr.h_strtab_sz;
    }

-- The checks of `webroot_open` and `map_webroot`, for the header that was read, if it was, and the
-- size of the file.
unfoldable pub webroot_open : Option WebrootHdr → (st_size : ℕ) → Option Layout
unfolding layout
webroot_open none st_size = none
webroot_open (some hdr) st_size =
    if not (hdr.h_magic == webroot_magic)
    then none
    else if not (hdr.h_vers == webroot_current_ver)
    then none
    else if ltb st_size hdr.h_files_begin
    then none
    else if ltb hdr.h_files_begin (layout hdr).end_at
    then none
    else some (layout hdr)
