-- ===== src/Tests/Radix.antt =====
-- The trie of trie.c at three strings: "/a", "/ab" and "/b", for three files.
use ashttpd.Prelude.{◌≡◌, ◌⊎◌, inl, inr, refl, ℕ, List, [], ◌∷◌, none, some, arith}
use ashttpd.HttpConn.Get.{WebrootName}
use ashttpd.Webroot.{TrieDedge, Webroot, oid_name, webroot_find, gidx_invalid_oid}
use ashttpd.Trie.{TrieEntry, construct_radix}
use ashttpd.Trie.Layout.{trie_write}
use ashttpd.Trie.Sound.{Listed}
use ashttpd.Trie.Nodes.{IsSite}
use ashttpd.Trie.Fits.{trie_write_total}
use ashttpd.Trie.Lookup.{webroot_find-Listed}
use ashttpd.Tests.Site.{behind, page}

abbrev three_strings : List TrieEntry
three_strings =
    record { t_str = 47 ∷ 97 ∷ []; t_oid = 0 }
    ∷ record { t_str = 47 ∷ 97 ∷ 98 ∷ []; t_oid = 1 }
    ∷ record { t_str = 47 ∷ 98 ∷ []; t_oid = 2 }
    ∷ []

three_strings-IsSite : IsSite 3 three_strings
three_strings-IsSite = record {
  sorted = (
    (inr (refl, inr (refl, tt)), (inr (refl, inl (omega arith)), tt)),
    ((inr (refl, inl (omega arith)), tt), (tt, tt)),
  );
  inside = omega arith;
  entries = (
    record { bytes = omega arith; short = omega arith; known = omega arith },
    (
      record { bytes = omega arith; short = omega arith; known = omega arith },
      (record { bytes = omega arith; short = omega arith; known = omega arith }, tt),
    ),
  );
}

trie_write_total_example : (arr : List TrieDedge) × (trie_write three_strings ≡ some arr)
trie_write_total_example = trie_write_total 3 three_strings (omega arith) three_strings-IsSite

-- The root, "/", "a" and "b" under it, and "b" under "a".
abbrev three_edges : List TrieDedge
three_edges =
    record { re_oid = gidx_invalid_oid; re_edges_idx = 1; re_num_edges = 1; re_str = [] }
    ∷ record { re_oid = gidx_invalid_oid; re_edges_idx = 2; re_num_edges = 2; re_str = 47 ∷ [] }
    ∷ record { re_oid = 0; re_edges_idx = 4; re_num_edges = 1; re_str = 97 ∷ [] }
    ∷ record { re_oid = 2; re_edges_idx = 0; re_num_edges = 0; re_str = 98 ∷ [] }
    ∷ record { re_oid = 1; re_edges_idx = 0; re_num_edges = 0; re_str = 98 ∷ [] }
    ∷ []

three_edges-written : trie_write three_strings ≡ some three_edges
unfolding trie_write ashttpd.Trie.common_prefix
three_edges-written = refl

abbrev three_files : Webroot
three_files = record {
  r_ref = 1;
  r_map = 0 ∷ 0 ∷ [];
  r_trie = three_edges;
  r_redir = [];
  r_file = page ∷ page ∷ page ∷ [];
}

webroot_find-Listed_example :
    ((webroot_find three_files (47 ∷ 97 ∷ 98 ∷ 0 ∷ behind) 3 ≡ some none)
      × ((o : ℕ) → ¬ Listed three_strings 0 (47 ∷ 97 ∷ 98 ∷ []) o))
    ⊎ ((o : ℕ) × (name : WebrootName) × Listed three_strings 0 (47 ∷ 97 ∷ 98 ∷ []) o
        × (oid_name three_files o ≡ some name)
        × (webroot_find three_files (47 ∷ 97 ∷ 98 ∷ 0 ∷ behind) 3 ≡ some (some name)))
webroot_find-Listed_example =
    webroot_find-Listed three_files three_strings three_strings-IsSite three_edges-written
      (omega arith) (47 ∷ 97 ∷ 98 ∷ []) behind (omega arith) (omega arith)
