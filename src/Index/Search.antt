-- ===== src/Index/Search.antt =====
-- The directed descent against the list of all names.
use Prim.Native.Nat.{Ordering}
use ntfs_efi.Prelude.{
  ℕ, zero, suc, ◌+◌, ◌*◌, ◌≤◌, ◌≡◌, refl, sym, ap, ◌∙◌, Bool, true, false, ◌&&◌, Option, none, some,
  List, ◌∷◌, arith, ltb, leb, Bool-cases, ◌⊎◌, inl, inr,
}
use ntfs_efi.Index.{
  IndexVolume, IndexAlloc, compare_names, entry_length, is_end, indexed_file, name_length,
  entry_name, is_real, sub_vcn, has_sub_node, descend, node_unused, load_block, block_first,
  block_last, search_index_block, search_sub_node, search_below, has_alloc, root_ok, root_first,
  root_last, find_in_directory, max_index_depth,
}
use ntfs_efi.Index.Tree.{
  Key, Subtree, leaf, block, Entries, final, entry, keys, keys_of, height, height_of, IsEntry,
  IsKey, HasChild, IsStored, HoldsEntries,
}
use ntfs_efi.Index.Sorted.{
  find_key, IsSorted, IsSorted-left, IsSorted-right, IsSorted-AllBefore, find_key-append_right,
  find_key-append_left, find_key-AllAfter, find_key-AllBefore,
}

Ordering-cases : (o : Ordering) → (o ≡ Ordering.lt) ⊎ (o ≡ Ordering.eq) ⊎ (o ≡ Ordering.gt)
Ordering-cases Ordering.lt = inl refl
Ordering-cases Ordering.eq = inr (inl refl)
Ordering-cases Ordering.gt = inr (inr refl)

-- The walk goes on behind an entry with a name.
entry_there :
    (buf : List ℕ) (end e : ℕ)
    → IsEntry buf end e
    → (ltb e end && (ltb 0 (entry_length buf e) && leb (e + entry_length buf e) end)) ≡ true
entry_there buf end e h = ground (arith, h.filled, h.inside)

-- One round of the walk at an entry with a name, by how the name compares.
module _ (fuel : ℕ) (cs : Bool) (upcase : List ℕ) (search_sub : ℕ → Option ℕ) (buf : List ℕ)
    (end : ℕ) (name : List ℕ) (e : ℕ) (k : Key) (h : IsEntry buf end e) (w : IsKey buf e k) where
  abbrev step : Option ℕ
  step = search_index_block (suc fuel) cs upcase search_sub true buf end name e

  abbrev next : Option ℕ
  next = search_index_block fuel cs upcase search_sub true buf end name (e + entry_length buf e)

  name_fits : leb (82 + name_length buf e * 2) (entry_length buf e) ≡ true
  name_fits = ground (arith, w.fits)

  compared :
      (o : Ordering)
      → compare_names cs upcase name k.name ≡ o
      → compare_names cs upcase name (entry_name buf e) ≡ o
  compared o p = ap (compare_names cs upcase name) w.name_at ∙ p

  step_lt : compare_names cs upcase name k.name ≡ Ordering.lt → step ≡ descend search_sub true buf e
  unfolding search_index_block
  step_lt p =
      rw (search_index_block, entry_there buf end e h, w.names, name_fits, compared Ordering.lt p)
        refl

  step_gt : compare_names cs upcase name k.name ≡ Ordering.gt → step ≡ next
  unfolding search_index_block
  step_gt p =
      rw (search_index_block, entry_there buf end e h, w.names, name_fits, compared Ordering.gt p)
        refl

  step_found :
      compare_names cs upcase name k.name ≡ Ordering.eq → is_real k.mft ≡ true → step ≡ some k.mft
  unfolding search_index_block
  step_found p q =
      let real : is_real (indexed_file buf e) ≡ true = ap is_real w.mft_at ∙ q in
      rw
        (
          search_index_block,
          entry_there buf end e h,
          w.names,
          name_fits,
          compared Ordering.eq p,
          real,
        )
        (ap some w.mft_at)

  step_system :
      compare_names cs upcase name k.name ≡ Ordering.eq → is_real k.mft ≡ false → step ≡ next
  unfolding search_index_block
  step_system p q =
      let real : is_real (indexed_file buf e) ≡ false = ap is_real w.mft_at ∙ q in
      rw
        (
          search_index_block,
          entry_there buf end e h,
          w.names,
          name_fits,
          compared Ordering.eq p,
          real,
        )
        refl

search_final :
    (fuel : ℕ) (cs : Bool) (upcase : List ℕ) (search_sub : ℕ → Option ℕ) (buf : List ℕ) (end : ℕ)
    (name : List ℕ) (e : ℕ)
    → IsEntry buf end e
    → is_end buf e ≡ true
    → search_index_block (suc fuel) cs upcase search_sub true buf end name e
      ≡ descend search_sub true buf e
unfolding search_index_block
search_final fuel cs upcase search_sub buf end name e h last =
    rw (search_index_block, entry_there buf end e h, last) refl

module _ (v : IndexVolume) (a : IndexAlloc) (cs : Bool) (name : List ℕ) where
  abbrev cmp_with : Key → Ordering
  cmp_with k = compare_names cs v.upcase_table name k.name

  abbrev find : List Key → Option ℕ
  find = find_key cs v.upcase_table name

  abbrev Ordered : List Key → Type 0
  Ordered = IsSorted cs v.upcase_table

  descend_leaf :
      (left : ℕ) (buf : List ℕ) (e : ℕ)
      → has_sub_node buf e ≡ false
      → descend (search_sub_node left v cs a name) true buf e ≡ none
  unfolding descend
  descend_leaf left buf e h = rw h refl

  descend_block :
      (left : ℕ) (buf : List ℕ) (e vcn : ℕ)
      → has_sub_node buf e ≡ true
      → sub_vcn buf e ≡ vcn
      → descend (search_sub_node left v cs a name) true buf e ≡ search_sub_node left v cs a name vcn
  unfolding descend
  descend_block left buf e vcn h q = rw h (ap (search_sub_node left v cs a name) q)

  sub_node_step :
      (left vcn : ℕ) (buf : List ℕ)
      → load_block v a vcn ≡ some buf
      → node_unused a vcn ≡ false
      → search_sub_node (suc left) v cs a name vcn
        ≡ search_index_block
            (block_last buf)
            cs
            v.upcase_table
            (search_sub_node left v cs a name)
            true
            buf
            (block_last buf)
            name
            (block_first buf)
  unfolding search_sub_node
  sub_node_step left vcn buf loaded used = rw (search_sub_node, used, loaded) refl

  mutual
    -- The subtree in front of an entry.
    search_subtree :
        (left : ℕ) (buf : List ℕ) (e : ℕ) (t : Subtree)
        → height t ≤ left
        → HasChild buf e t
        → IsStored v a t
        → Ordered (keys t)
        → descend (search_sub_node left v cs a name) true buf e ≡ find (keys t)
    search_subtree left buf e leaf h c s o = descend_leaf left buf e c
    search_subtree zero buf e (block vcn es) h c s o = absurd (omega (arith, h))
    search_subtree (suc left) buf e (block vcn es) h (node, q) (sub, loaded, used, held) o =
        descend_block (suc left) buf e vcn node q
        ∙ sub_node_step left vcn sub loaded used
        ∙ search_entries (block_last sub) left sub (block_last sub) (block_first sub) es
            (omega arith) (omega (arith, h)) held o

    search_entries :
        (fuel left : ℕ) (buf : List ℕ) (end e : ℕ) (es : Entries)
        → end ≤ e + fuel
        → height_of es ≤ left
        → HoldsEntries v a buf end e es
        → Ordered (keys_of es)
        → search_index_block fuel cs v.upcase_table
            (search_sub_node left v cs a name)
            true
            buf
            end
            name
            e
          ≡ find (keys_of es)
    search_entries zero left buf end e (final t) enough h (i, last, c, s) o =
        absurd (omega (arith, i.filled, i.inside))
    search_entries zero left buf end e (entry k t es) enough h (i, w, c, s, r) o =
        absurd (omega (arith, i.filled, i.inside))
    search_entries (suc fuel) left buf end e (final t) enough h (i, last, c, s) o =
        search_final fuel cs v.upcase_table (search_sub_node left v cs a name) buf end name e i last
        ∙ search_subtree left buf e t h c s o
    search_entries (suc fuel) left buf end e (entry k t es) enough h (i, w, c, s, r) o =
        let sub : ℕ → Option ℕ = search_sub_node left v cs a name in
        let up : List ℕ = v.upcase_table in
        let front : Ordered (keys t) = IsSorted-left cs up (keys t) (k ∷ keys_of es) o in
        let (after, rest) = IsSorted-right cs up (keys t) (k ∷ keys_of es) o in
        let below = IsSorted-AllBefore cs up (keys t) k (keys_of es) o in
        let here = search_subtree left buf e t (omega (arith, h)) c s front in
        let later =
          search_entries fuel left buf end (e + entry_length buf e) es (omega (arith, i.filled))
            (omega (arith, h)) r rest in
        elim (Ordering-cases (cmp_with k)) [
          | inl p ↦
              let nothing : find (k ∷ keys_of es) ≡ none =
                rw (find_key, p) (find_key-AllAfter cs up name k (keys_of es) p after) in
              step_lt fuel cs up sub buf end name e k i w p
              ∙ here
              ∙ sym (find_key-append_left cs up name (keys t) (k ∷ keys_of es) nothing)
          | inr (inl p) ↦
              let pass =
                find_key-append_right cs up name (keys t) (k ∷ keys_of es)
                  (find_key-AllBefore cs up name k (keys t) (inr p) below) in
              elim (Bool-cases (is_real k.mft)) [
                | inl real ↦
                    step_found fuel cs up sub buf end name e k i w p real
                    ∙ sym (pass ∙ rw (find_key, p, real) refl)
                | inr system ↦
                    step_system fuel cs up sub buf end name e k i w p system
                    ∙ later
                    ∙ sym (pass ∙ rw (find_key, p, system) refl)
              ]
          | inr (inr p) ↦
              let pass =
                find_key-append_right cs up name (keys t) (k ∷ keys_of es)
                  (find_key-AllBefore cs up name k (keys t) (inl p) below) in
              step_gt fuel cs up sub buf end name e k i w p
              ∙ later
              ∙ sym (pass ∙ rw (find_key, p) refl)
        ]

  -- For a directory whose names are in the order of NtfsEfiCompareNames, whose tree lies in the
  -- $INDEX_ROOT and in used blocks of the $INDEX_ALLOCATION and is at most 32 blocks high:
  -- NtfsEfiFindInDirectory gives the user file whose name compares as equal to the name asked for, and
  -- nothing where there is none, though it reads one block at each level only.
  pub find_in_directory-find_key :
      (root : List ℕ) (es : Entries)
      → root_ok root ≡ true
      → HoldsEntries v a root (root_last root) (root_first root) es
      → height_of es ≤ max_index_depth
      → Ordered (keys_of es)
      → find_in_directory v cs root (some a) name ≡ find (keys_of es)
  unfolding find_in_directory search_below has_alloc
  find_in_directory-find_key root es good held low o = rw good (
      search_entries (root_last root) max_index_depth root (root_last root) (root_first root) es
        (omega arith) low held o)
