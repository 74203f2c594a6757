-- ===== src/Tests/Index.antt =====
-- mkroot.c and webroot.c at a root of two URIs: "/" is a file of three bytes, and "/a" is moved to "/".
use ashttpd.Tests.Site.{behind}
use ashttpd.Webroot.Mapped.{map_image}
use ashttpd.Prelude.{
  ◌^◌, ◌<◌, ◌≡◌, inr, refl, List, [], ◌∷◌, ◌++◌, Option, none, some, length, arith, codes,
}
use ashttpd.Vec.{vec}
use ashttpd.HttpConn.Get.{FileData, http_found, http_moved_permanently}
use ashttpd.Webroot.{TrieDedge, Layout, webroot_find, webroot_open, gidx_invalid_oid}
use ashttpd.Mkroot.{Root, FileObj, Redirect, Uri, redirect_at, file_at, file_path, no_digest}
use ashttpd.Mkroot.Image.{Sources, Written, header, webroot_prep, webroot_write}
use ashttpd.Mkroot.Image.Served.{IsBuilt, IsServed, laid}
use ashttpd.Mkroot.Image.Opened.{IsLayout, webroot_open-IsLayout}
use ashttpd.Mkroot.Image.Looked.{IsFinished, built, webroot_find-IsServed, webroot_find_moved}

abbrev three_bytes : FileObj
three_bytes = record {
  type = 0;
  content = file_path (codes "/srv/index.html");
  size = 3;
  off = 0;
  dev = 1;
  ino = 2;
  mtime = 4;
  digest = no_digest;
}

abbrev to_root : Redirect
to_root = record { uri = some (codes "/"); strtab_off = 0; code = 0 }

abbrev slash_uri : Uri
slash_uri = record { u_obj = file_at 0; u_uri = codes "/" }

abbrev a_uri : Uri
a_uri = record { u_obj = redirect_at 0; u_uri = codes "/a" }

abbrev two_uris : List Uri
two_uris = slash_uri ∷ a_uri ∷ []

abbrev small_root : Root
small_root = record {
  r_uri = two_uris;
  r_redirect = to_root ∷ [];
  r_file = three_bytes ∷ [];
  r_mime_type = record { m_type = codes "text/html"; m_strtab_off = 0 } ∷ [];
  r_tmpchunks = [];
  r_tmpoff = 0;
}

-- Each path can be read, and gives four bytes; the digest is always the same.
abbrev sources : Sources
sources = record {
  read_path = λ path. some (7 ∷ 8 ∷ 9 ∷ 10 ∷ []);
  tmpchunks = [];
  sha1 = λ bytes. no_digest;
}

-- The root, "/" under it, and "a" under that.
abbrev small_trie : List TrieDedge
small_trie =
    record { re_oid = gidx_invalid_oid; re_edges_idx = 1; re_num_edges = 1; re_str = [] }
    ∷ record { re_oid = 1; re_edges_idx = 2; re_num_edges = 1; re_str = codes "/" }
    ∷ record { re_oid = 0; re_edges_idx = 0; re_num_edges = 0; re_str = codes "a" }
    ∷ []

abbrev or_empty : Option Written → Written
or_empty none = record { image = []; redirects = []; files = [] }
or_empty (some w) = w

abbrev small_file : Written
small_file = or_empty (webroot_write sources 0 small_trie (webroot_prep 3 small_root))

small_file-written :
    webroot_write sources 0 small_trie (webroot_prep 3 small_root) ≡ some small_file
unfolding webroot_write webroot_prep
small_file-written = refl

small_file-fits : length small_file.image < 2 ^ 64
unfolding webroot_write webroot_prep
small_file-fits = omega arith

small-IsFinished : IsFinished sources 0 two_uris small_trie small_root small_file
unfolding ashttpd.Trie.Layout.trie_write ashttpd.Trie.common_prefix
small-IsFinished = record {
  laws = λ bytes. refl;
  digests = (refl, tt);
  site = record {
    sorted = ((inr (refl, tt), tt), (tt, tt));
    inside = omega arith;
    entries = (
      record { bytes = omega arith; short = omega arith; known = omega arith },
      (record { bytes = omega arith; short = omega arith; known = omega arith }, tt),
    );
  };
  tried = refl;
  small = omega arith;
  fits = small_file-fits;
  written = small_file-written;
}

webroot_find-IsServed_example :
    (f : FileData) × IsServed sources small_root three_bytes small_file.image f
    × (webroot_find (map_image small_file.image) (codes "/" ++ 0 ∷ behind) 1
        ≡ some (some (http_found f)))
webroot_find-IsServed_example =
    webroot_find-IsServed sources 0 two_uris small_trie small_root small_file small-IsFinished 0 0
      slash_uri three_bytes behind refl refl refl (omega arith) (omega arith)

webroot_find_moved_example :
    webroot_find (map_image small_file.image) (codes "/a" ++ 0 ∷ behind) 2
    ≡ some (some (http_moved_permanently (vec (codes "/"))))
webroot_find_moved_example =
    webroot_find_moved sources 0 two_uris small_trie small_root small_file small-IsFinished 1 0
      a_uri to_root (codes "/") behind refl refl refl refl (omega arith) (omega arith)

small-IsBuilt : IsBuilt sources 0 small_trie small_root small_file
small-IsBuilt = built sources 0 two_uris small_trie small_root small_file small-IsFinished

webroot_open-IsLayout_example :
    (l : Layout) × (webroot_open
        (some (header 3 (laid sources 0 small_trie small_root small_file small-IsBuilt)))
        (length small_file.image)
      ≡ some l)
    × IsLayout small_trie small_root small_file l
webroot_open-IsLayout_example =
    webroot_open-IsLayout sources 0 small_trie small_root small_file small-IsBuilt
