-- ===== src/Mkroot/Image.antt =====
-- mkroot.c: the numbers and offsets that `webroot_prep` gives to the objects, and the file that
-- `webroot_write` makes of them. All writes succeed; numbers of 64 bits do not wrap around.
pub mod Numbers
pub mod Sections
pub mod Served
pub mod Opened
pub mod Looked
pub mod Parts
pub mod Read
pub mod Bytes
use ashttpd.Prelude.{
  ℕ, zero, suc, ◌+◌, ◌-◌, ◌*◌, ◌/◌, ◌%◌, ◌^◌, List, [], ◌∷◌, ◌++◌, Option, none, some, Bool, true,
  false, ltb, ◌==◌, if◌then◌else◌, length, take, drop, map, ◌>>=◌,
}
use ashttpd.Webroot.{
  TrieDedge, WebrootFile, WebrootRedirect, WebrootHdr, webroot_invalid_redirect, webroot_magic,
  webroot_current_ver, sizeof_hdr, sizeof_dedge, sizeof_redirect, sizeof_file,
}
use ashttpd.Trie.{TrieEntry}
use ashttpd.Trie.Layout.{trie_write}
use ashttpd.Mkroot.{
  MimeType, Redirect, Content, file_path, file_tmpchunk, FileObj, Obj, redirect_at, file_at, Uri,
  Root, mime_at,
}

-- `sort_objects`: redirects are numbered first.
abbrev pub o_oid : Root → Obj → ℕ
o_oid r (redirect_at i) = i
o_oid r (file_at i) = length r.r_redirect + i

-- The entries that `webroot_prep` makes of the sorted URIs.
abbrev pub trie_entries : Root → List Uri → List TrieEntry
trie_entries r [] = []
trie_entries r (u ∷ us) = record { t_str = u.u_uri; t_oid = o_oid r u.u_obj } ∷ trie_entries r us

-- The offsets of strings are of 32 bits.
abbrev pub lay_mimes : (off : ℕ) → List MimeType → List MimeType
lay_mimes off [] = []
lay_mimes off (m ∷ ms) =
    record m { m_strtab_off = off % 2 ^ 32 } ∷ lay_mimes (off + length m.m_type) ms

abbrev pub uri_text : Redirect → List ℕ
uri_text obj = elim obj.uri [ none ↦ [] | some uri ↦ uri ]

abbrev pub lay_redirects : (off : ℕ) → List Redirect → List Redirect
lay_redirects off [] = []
lay_redirects off (obj ∷ objs) =
    record obj { strtab_off = off % 2 ^ 32 } ∷ lay_redirects (off + length (uri_text obj)) objs

abbrev pub lay_files : (off : ℕ) → List FileObj → List FileObj
lay_files off [] = []
lay_files off (obj ∷ objs) = record obj { off = off } ∷ lay_files (off + obj.size) objs

-- The string tables.
abbrev pub mimetab : List MimeType → List ℕ
mimetab [] = []
mimetab (m ∷ ms) = m.m_type ++ mimetab ms

abbrev pub redirtab : List Redirect → List ℕ
redirtab [] = []
redirtab (obj ∷ objs) = uri_text obj ++ redirtab objs

-- The index before the string tables.
abbrev pub strtab_begin : (edges : ℕ) → Root → ℕ
strtab_begin edges r =
    sizeof_hdr
    + sizeof_dedge * edges
    + sizeof_redirect * length r.r_redirect
    + sizeof_file * length r.r_file

abbrev pub files_begin : (edges : ℕ) → Root → ℕ
files_begin edges r =
    strtab_begin edges r + length (mimetab r.r_mime_type) + length (redirtab r.r_redirect)

-- The offsets that `webroot_prep` lays out, for a trie of so many edges.
unfoldable pub webroot_prep : (edges : ℕ) → Root → Root
webroot_prep edges r =
    let off = strtab_begin edges r in
    record r {
      r_mime_type = lay_mimes off r.r_mime_type;
      r_redirect = lay_redirects (off + length (mimetab r.r_mime_type)) r.r_redirect;
      r_file = lay_files (files_begin edges r) r.r_file;
    }

-- A number of so many bytes, the lowest first.
abbrev pub le_bytes : (n x : ℕ) → List ℕ
le_bytes zero x = []
le_bytes (suc n) x = (x % 256) ∷ le_bytes n (x / 256)

-- `write_header`; `pad` is what the last field holds, which is never set.
unfoldable pub header : (edges : ℕ) → Root → WebrootHdr
header edges r = record {
  h_num_edges = edges % 2 ^ 32;
  h_num_redirect = length r.r_redirect % 2 ^ 32;
  h_num_file = length r.r_file % 2 ^ 32;
  h_strtab_sz = (length (mimetab r.r_mime_type) + length (redirtab r.r_redirect)) % 2 ^ 32;
  h_magic = webroot_magic;
  h_vers = webroot_current_ver;
  h_files_begin = files_begin edges r % 2 ^ 32;
}

unfoldable pub hdr_bytes : (pad : ℕ) → WebrootHdr → List ℕ
hdr_bytes pad hdr =
    le_bytes 4 hdr.h_num_edges
    ++ (le_bytes 4 hdr.h_num_redirect
        ++ (le_bytes 4 hdr.h_num_file
            ++ (le_bytes 4 hdr.h_strtab_sz
                ++ (le_bytes 4 hdr.h_magic
                    ++ (le_bytes 4 hdr.h_vers
                        ++ (le_bytes 4 hdr.h_files_begin ++ le_bytes 4 pad))))))

-- `memset` leaves zeros behind the text.
abbrev pub zeros : ℕ → List ℕ
zeros zero = []
zeros (suc n) = 0 ∷ zeros n

unfoldable pub edge_bytes : TrieDedge → List ℕ
edge_bytes d =
    le_bytes 4 d.re_oid
    ++ (le_bytes 4 d.re_edges_idx
        ++ (le_bytes 1 d.re_num_edges
            ++ (le_bytes 1 (length d.re_str) ++ (d.re_str ++ zeros (8 - length d.re_str)))))

-- `write_redirect_objs`; the fields hold 32 bits.
abbrev pub redirect_obj : Redirect → WebrootRedirect
redirect_obj obj = elim obj.uri [
  | some uri ↦ record { r_off = obj.strtab_off % 2 ^ 32; r_len = length uri % 2 ^ 32 }
  | none ↦ record { r_off = webroot_invalid_redirect; r_len = obj.code % 2 ^ 32 }
]

unfoldable pub redirect_bytes : WebrootRedirect → List ℕ
redirect_bytes wr = le_bytes 4 wr.r_off ++ le_bytes 4 wr.r_len

-- `write_file_objs`; the fields hold 64 and 32 bits, and `none` is a pointer to no type.
abbrev pub file_obj : Root → FileObj → Option WebrootFile
file_obj r obj = do
  m ← mime_at r.r_mime_type obj.type
  some (record {
    f_off = obj.off % 2 ^ 64;
    f_len = obj.size % 2 ^ 64;
    f_type = m.m_strtab_off % 2 ^ 32;
    f_type_len = length m.m_type % 2 ^ 32;
    f_modified = obj.mtime % 2 ^ 32;
    f_digest = obj.digest;
  })

unfoldable pub file_bytes : WebrootFile → List ℕ
file_bytes wf =
    le_bytes 8 wf.f_off
    ++ (le_bytes 8 wf.f_len
        ++ (le_bytes 4 wf.f_type
            ++ (le_bytes 4 wf.f_type_len ++ (le_bytes 4 wf.f_modified ++ wf.f_digest))))

module _ (r : Root) where
  abbrev pub file_objs : List FileObj → Option (List WebrootFile)
  file_objs [] = some []
  file_objs (obj ∷ objs) = do wf ← file_obj r obj; wfs ← file_objs objs; some (wf ∷ wfs)

abbrev pub concat_edges : List TrieDedge → List ℕ
concat_edges [] = []
concat_edges (d ∷ ds) = edge_bytes d ++ concat_edges ds

abbrev pub concat_redirects : List WebrootRedirect → List ℕ
concat_redirects [] = []
concat_redirects (wr ∷ wrs) = redirect_bytes wr ++ concat_redirects wrs

abbrev pub concat_files : List WebrootFile → List ℕ
concat_files [] = []
concat_files (wf ∷ wfs) = file_bytes wf ++ concat_files wfs

-- What the system gives: the bytes that can be read at a path, if it can be opened and read, the bytes of
-- the temporary file, and the digest of some bytes.
pub record Sources : Type 0 where
  pub read_path : List ℕ → Option (List ℕ)
  pub tmpchunks : List ℕ
  pub sha1 : List ℕ → List ℕ

module _ (src : Sources) where
  abbrev pub file_data : FileObj → Option (List ℕ)
  file_data obj = elim obj.content [
    | file_path path ↦ src.read_path path
    | file_tmpchunk tmpoff ↦ some (drop tmpoff src.tmpchunks)
  ]

  -- `write_file`: no more than `size` bytes are read, and if there are less the result is 0.
  unfoldable pub write_file : FileObj → Option (List ℕ × FileObj)
  write_file obj = do
    bytes ← file_data obj
    let buf = take obj.size bytes
    if length buf == obj.size then some (buf, record obj { digest = src.sha1 buf }) else none

  unfoldable pub write_files : List FileObj → Option (List ℕ × List FileObj)
  unfolding write_file
  write_files [] = some ([], [])
  write_files (obj ∷ objs) = do
    out ← write_file obj
    outs ← write_files objs
    some (out.0 ++ outs.0, out.1 ∷ outs.1)

-- Bytes that are written over those at an offset.
abbrev pub write_at : (off : ℕ) → (bytes file : List ℕ) → List ℕ
write_at off bytes file = take off file ++ (bytes ++ drop (off + length bytes) file)

-- The file and the structures of its index.
pub record Written : Type 0 where
  pub image : List ℕ
  pub redirects : List WebrootRedirect
  pub files : List WebrootFile

-- What is written before the structures of the files, and the strings behind them.
abbrev pub index_front : (pad : ℕ) → List TrieDedge → Root → List ℕ
index_front pad trie r =
    hdr_bytes pad (header (length trie) r)
    ++ (concat_edges trie ++ concat_redirects (map redirect_obj r.r_redirect))

abbrev pub strtab : Root → List ℕ
strtab r = mimetab r.r_mime_type ++ redirtab r.r_redirect

-- `webroot_write`, with `write_etags` at its end, of a root that `webroot_prep` has laid out for this trie.
unfoldable pub webroot_write : Sources → (pad : ℕ) → List TrieDedge → Root → Option Written
unfolding write_files header hdr_bytes edge_bytes redirect_bytes file_bytes
webroot_write src pad trie r = do
  wfs ← file_objs r r.r_file
  out ← write_files src r.r_file
  wfs' ← file_objs r out.1
  let front = index_front pad trie r
  some (record {
    image =
        write_at (length front) (concat_files wfs')
          (front ++ (concat_files wfs ++ (strtab r ++ out.0)));
    redirects = map redirect_obj r.r_redirect;
    files = wfs';
  })
