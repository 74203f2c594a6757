-- ===== src/Tests/Site.antt =====
-- webroot.c at a concrete index: a root with two children.
use mathlib.Core.Path.{subst}
use mathlib.Core.Option.{some_inj}
use ashttpd.Prelude.{
  ℕ, zero, suc, ◌<◌, ◌≡◌, ◌⊎◌, inl, inr, refl, List, [], ◌∷◌, ◌++◌, none, some, arith, length,
  get_elem?,
}
use ashttpd.HttpConn.Get.{WebrootName}
use ashttpd.Webroot.{TrieDedge, WebrootFile, Webroot, gidx_invalid_oid, oid_name, webroot_find}
use ashttpd.Webroot.Edges.{Spells, ends, goes}
use ashttpd.Webroot.Complete.{Before, IsOrdered, IsTrie}
use ashttpd.Webroot.Find.{IsWebroot, webroot_find-Spells, webroot_find_complete}

abbrev pub slash : TrieDedge
slash = record { re_oid = gidx_invalid_oid; re_edges_idx = 1; re_num_edges = 2; re_str = 47 ∷ [] }

abbrev pub edge_a : TrieDedge
edge_a = record { re_oid = 0; re_edges_idx = 0; re_num_edges = 0; re_str = 97 ∷ [] }

abbrev pub edge_bc : TrieDedge
edge_bc = record { re_oid = 1; re_edges_idx = 0; re_num_edges = 0; re_str = 98 ∷ 99 ∷ [] }

-- A file of three bytes at offset 400; its type is two bytes of the map.
abbrev pub page : WebrootFile
page = record {
  f_off = 400;
  f_len = 3;
  f_type = 0;
  f_type_len = 2;
  f_modified = 0;
  f_digest = 0 ∷ 1 ∷ 2 ∷ 3 ∷ 4 ∷ 5 ∷ 6 ∷ 7 ∷ 8 ∷ 9 ∷ 0 ∷ 1 ∷ 2 ∷ 3 ∷ 4 ∷ 5 ∷ 6 ∷ 7 ∷ 8 ∷ 9 ∷ [];
}

-- `/a` is moved to two bytes of the map, and `/bc` is the file.
abbrev pub site : Webroot
site = record {
  r_ref = 1;
  r_map = 116 ∷ 120 ∷ [];
  r_trie = slash ∷ edge_a ∷ edge_bc ∷ [];
  r_redir = record { r_off = 0; r_len = 2 } ∷ [];
  r_file = page ∷ [];
}

pub site-IsWebroot : IsWebroot site
site-IsWebroot = record {
  root = omega arith;
  index = (
    record {
      no_nul = (ground arith, tt);
      short = omega arith;
      known = inl refl;
      few = omega arith;
      inside = omega arith;
      forward = inr (omega arith, omega arith);
    },
    (
      record {
        no_nul = (ground arith, tt);
        short = omega arith;
        known = inr (omega arith);
        few = omega arith;
        inside = omega arith;
        forward = inl refl;
      },
      (
        record {
          no_nul = (ground arith, (ground arith, tt));
          short = omega arith;
          known = inr (omega arith);
          few = omega arith;
          inside = omega arith;
          forward = inl refl;
        },
        tt,
      ),
    ),
  );
  numbers = omega arith;
}

children-IsOrdered : IsOrdered site.r_trie 1 2
children-IsOrdered zero (suc zero) a b lt in_n at_a at_b =
    subst (λ y. Before a.re_str y.re_str) (some_inj.0 at_b)
      (subst (λ x. Before x.re_str edge_bc.re_str) (some_inj.0 at_a) (omega arith))
children-IsOrdered zero zero a b lt in_n at_a at_b = absurd (omega arith)
children-IsOrdered zero (suc (suc j)) a b lt in_n at_a at_b = absurd (omega arith)
children-IsOrdered (suc i) j a b lt in_n at_a at_b = absurd (omega arith)

leaf-IsOrdered : (p : ℕ) → IsOrdered site.r_trie p 0
leaf-IsOrdered p i j a b lt in_n at_a at_b = absurd (omega arith)

groups-IsOrdered :
    (i : ℕ) (e : TrieDedge)
    → get_elem? site.r_trie i ≡ some e
    → IsOrdered site.r_trie e.re_edges_idx e.re_num_edges
groups-IsOrdered zero e at =
    subst (λ x. IsOrdered site.r_trie x.re_edges_idx x.re_num_edges) (some_inj.0 at)
      children-IsOrdered
groups-IsOrdered (suc zero) e at =
    subst (λ x. IsOrdered site.r_trie x.re_edges_idx x.re_num_edges) (some_inj.0 at)
      (leaf-IsOrdered 0)
groups-IsOrdered (suc (suc zero)) e at =
    subst (λ x. IsOrdered site.r_trie x.re_edges_idx x.re_num_edges) (some_inj.0 at)
      (leaf-IsOrdered 0)
groups-IsOrdered (suc (suc (suc i))) e at = ground (arith, at)

texts_some : (i : ℕ) (e : TrieDedge) → get_elem? site.r_trie (suc i) ≡ some e → 0 < length e.re_str
texts_some zero e at = subst (λ x. 0 < length x.re_str) (some_inj.0 at) (omega arith)
texts_some (suc zero) e at = subst (λ x. 0 < length x.re_str) (some_inj.0 at) (omega arith)
texts_some (suc (suc i)) e at = ground (arith, at)

pub site-IsTrie : IsTrie site.r_trie
site-IsTrie = (groups-IsOrdered, texts_some)

-- What is in memory behind a URI and its NUL.
abbrev pub behind : List ℕ
behind = 1 ∷ 2 ∷ 3 ∷ 4 ∷ 5 ∷ 6 ∷ 7 ∷ []

-- `/bc`
abbrev pub slash_bc : List ℕ
slash_bc = 47 ∷ 98 ∷ 99 ∷ []

pub slash_bc-Spells : Spells site.r_trie 0 1 slash_bc 1
slash_bc-Spells =
    goes 0 slash (98 ∷ 99 ∷ []) (omega arith) refl refl
      (ends 1 edge_bc (omega arith) refl refl refl)

webroot_find-Spells_example :
    (webroot_find site (slash_bc ++ 0 ∷ behind) 3 ≡ some none)
    ⊎ ((o : ℕ) × (name : WebrootName) × Spells site.r_trie 0 1 slash_bc o
        × (oid_name site o ≡ some name)
        × (webroot_find site (slash_bc ++ 0 ∷ behind) 3 ≡ some (some name)))
webroot_find-Spells_example =
    webroot_find-Spells site site-IsWebroot slash_bc behind (omega arith) (omega arith)

webroot_find_complete_example :
    (name : WebrootName) × (oid_name site 1 ≡ some name)
    × (webroot_find site (slash_bc ++ 0 ∷ behind) 3 ≡ some (some name))
webroot_find_complete_example =
    webroot_find_complete site site-IsWebroot slash_bc behind (omega arith) (omega arith) 1
      site-IsTrie slash_bc-Spells (omega arith)
