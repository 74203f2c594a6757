-- ===== src/Webroot/Find.antt =====
-- `webroot_find` of webroot.c, and with it `handle_get` of http_conn.c, on an index as it should be.
use ashttpd.Prelude.{
  ℕ, ◌-◌, ◌^◌, ◌≤◌, ◌<◌, ◌≡◌, ◌⊎◌, inl, inr, refl, List, ◌∷◌, ◌++◌, none, some, true, false, arith,
  ltb, ◌==◌, length, get_elem?-some, Bool-cases,
}
use ashttpd.Webroot.{
  Webroot, r_num_oid, query_fuel, redirect_name, file_name, oid_name, gidx_invalid_oid,
  webroot_find,
}
use ashttpd.HttpConn.Get.{WebrootName}
use ashttpd.Webroot.Edges.{IsIndex, Spells, Enough}
use ashttpd.Webroot.Search.{trie_query-Finds}
use ashttpd.Webroot.Complete.{IsTrie, IsOrdered, trie_query-Tail, Spells-Tail}

-- A root edge, an index as it should be, and no more objects than there are numbers for.
pub record IsWebroot (r : Webroot) : Type 0 where
  pub root : 0 < length r.r_trie
  pub index : IsIndex (r_num_oid r) r.r_trie
  pub numbers : r_num_oid r ≤ 0xffffffff

-- The object at the end of a spelling has a name.
oid_name-some :
    (r : Webroot) (o : ℕ) → o < r_num_oid r → (name : WebrootName) × (oid_name r o ≡ some name)
unfolding oid_name
oid_name-some r o lt = elim (Bool-cases (ltb o (length r.r_redir))) [
  | inl y ↦
      let (redir, e) = get_elem?-some o r.r_redir (ground (arith, y)) in
      (redirect_name r redir, ground (arith, lt, y, e))
  | inr n ↦
      let n' : length r.r_redir ≤ o = ground (arith, n) in
      let (file, e) = get_elem?-some (o - length r.r_redir) r.r_file (omega (arith, n')) in
      (file_name r file, ground (arith, lt, n, e))
]

module _ (r : Webroot) (ok : IsWebroot r) (str after : List ℕ) (short : length str < 2 ^ 64)
    (room : 7 ≤ length after) where
  enough : Enough (length r.r_trie) 0 1 (query_fuel r)
  enough = inr (omega (arith, ok.root), omega arith, omega arith)

  -- A search in an index as it should be, whose texts have up to eight bytes, ends without a failed
  -- assertion or an access outside of the index or the memory of the string, which has a NUL and seven
  -- bytes more behind it. It finds nothing, or the name of an object whose
  -- number is at the end of edges that spell the string.
  pub webroot_find-Spells :
      (webroot_find r (str ++ 0 ∷ after) (length str) ≡ some none)
      ⊎ ((o : ℕ) × (name : WebrootName) × Spells r.r_trie 0 1 str o
          × (oid_name r o ≡ some name)
          × (webroot_find r (str ++ 0 ∷ after) (length str) ≡ some (some name)))
  unfolding webroot_find
  webroot_find-Spells =
      let (o, e, cases) =
        trie_query-Finds (r_num_oid r) r.r_trie ok.index (query_fuel r) 0 1 str after enough short
          room in
      elim cases [
        | inl none_found ↦
            let same : (o == gidx_invalid_oid) ≡ true = ground (arith, none_found) in
            inl (rw (webroot_find, e, same) refl)
        | inr (spelled, lt) ↦
            let (name, named) = oid_name-some r o lt in
            let other : (o == gidx_invalid_oid) ≡ false = ground (arith, lt, ok.numbers) in
            inr (o, name, spelled, named, rw (webroot_find, e, other, named) refl)
      ]

  -- If siblings are in the order of their first bytes too, and only the root's text may be empty, then a
  -- string that edges spell for an object, with a NUL and seven bytes more behind it, is found, with the
  -- object's name.
  pub webroot_find_complete :
      (o : ℕ)
      → IsTrie r.r_trie
      → Spells r.r_trie 0 1 str o
      → o < r_num_oid r
      → (name : WebrootName) × (oid_name r o ≡ some name)
        × (webroot_find r (str ++ 0 ∷ after) (length str) ≡ some (some name))
  unfolding webroot_find
  webroot_find_complete o t spelled lt =
      let (name, named) = oid_name-some r o lt in
      let (j, a, rest, in_n, at, split, tail) = Spells-Tail spelled in
      let e =
        trie_query-Tail (r_num_oid r) r.r_trie ok.index t (query_fuel r) 0 1 j o a str rest after
          single enough short room in_n at split tail in
      let other : (o == gidx_invalid_oid) ≡ false = ground (arith, lt, ok.numbers) in
      (name, named, rw (webroot_find, e, other, named) refl)
    where
      single : IsOrdered r.r_trie 0 1
      single i j a b lt one at_a at_b = absurd (omega arith)
