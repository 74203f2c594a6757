-- ===== src/Webroot/Mapped.antt =====
-- webroot.c and include/webroot-format.h: the structures that a web root finds in the bytes of its file,
-- which are of a machine that stores the lowest byte of a number first.
use ashttpd.Prelude.{ℕ, zero, suc, ◌+◌, ◌*◌, List, [], ◌∷◌, take, drop}
use ashttpd.Webroot.{TrieDedge, WebrootFile, WebrootRedirect, WebrootHdr, Webroot, layout}

-- A number of so many bytes.
abbrev pub read_le : (n : ℕ) → List ℕ → ℕ
read_le zero bs = 0
read_le (suc n) [] = 0
read_le (suc n) (b ∷ bs) = b + 256 * read_le n bs

unfoldable pub read_hdr : List ℕ → WebrootHdr
read_hdr bs = record {
  h_num_edges = read_le 4 bs;
  h_num_redirect = read_le 4 (drop 4 bs);
  h_num_file = read_le 4 (drop 8 bs);
  h_strtab_sz = read_le 4 (drop 12 bs);
  h_magic = read_le 4 (drop 16 bs);
  h_vers = read_le 4 (drop 20 bs);
  h_files_begin = read_le 4 (drop 24 bs);
}

unfoldable pub read_dedge : List ℕ → TrieDedge
read_dedge bs = record {
  re_oid = read_le 4 bs;
  re_edges_idx = read_le 4 (drop 4 bs);
  re_num_edges = read_le 1 (drop 8 bs);
  re_str = take (read_le 1 (drop 9 bs)) (drop 10 bs);
}

unfoldable pub read_redirect : List ℕ → WebrootRedirect
read_redirect bs = record { r_off = read_le 4 bs; r_len = read_le 4 (drop 4 bs) }

unfoldable pub read_file : List ℕ → WebrootFile
read_file bs = record {
  f_off = read_le 8 bs;
  f_len = read_le 8 (drop 8 bs);
  f_type = read_le 4 (drop 16 bs);
  f_type_len = read_le 4 (drop 20 bs);
  f_modified = read_le 4 (drop 24 bs);
  f_digest = take 20 (drop 28 bs);
}

-- An array of so many structures of `size` bytes.
abbrev pub read_array {ℓ} : {A : Type ℓ} → (read : List ℕ → A) (size n : ℕ) → List ℕ → List A
read_array read size zero bs = []
read_array read size (suc n) bs = read bs ∷ read_array read size n (drop size bs)

-- What `webroot_open` makes of a file that passes its checks, with its header: the index is mapped, and
-- the arrays are where the layout of the header puts them.
unfoldable pub map_hdr : WebrootHdr → (image : List ℕ) → Webroot
unfolding read_dedge read_redirect read_file layout
map_hdr hdr image =
    let l = layout hdr in
    let map = take hdr.h_files_begin image in
    record {
      r_ref = 1;
      r_map = map;
      r_trie = read_array read_dedge 18 hdr.h_num_edges (drop l.trie_at map);
      r_redir = read_array read_redirect 8 hdr.h_num_redirect (drop l.redir_at map);
      r_file = read_array read_file 48 hdr.h_num_file (drop l.file_at map);
    }

unfoldable pub map_image : (image : List ℕ) → Webroot
unfolding read_hdr map_hdr
map_image image = map_hdr (read_hdr image) image
