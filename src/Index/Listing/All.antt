-- ===== src/Index/Listing/All.antt =====
-- The enumeration against the list of all names.
use ntfs_efi.Prelude.{
  ℕ, zero, suc, ◌+◌, ◌≤◌, ◌<◌, ◌≡◌, refl, sym, ap, ◌∙◌, Bool, true, false, ◌&&◌, Option, some, List,
  [], ◌∷◌, ◌++◌, length, take, arith, ltb, if◌then◌else◌, Bool-cases, dec_lt, inl, inr,
  append_assoc, append-nil, length-append, length-take,
}
use ntfs_efi.Index.{
  IndexVolume, IndexAlloc, entry_length, is_end, sub_vcn, has_sub_node, load_block, block_first,
  block_last, max_index_depth, has_alloc, root_ok, root_first, root_last,
}
use ntfs_efi.Index.Tree.{
  Key, Subtree, leaf, block, Entries, final, entry, keys, keys_of, height, height_of, IsEntry,
  IsKey, HasChild, IsStored, HoldsEntries,
}
use ntfs_efi.Index.Listing.{
  is_listed, add_listed, collect_front, collect_block, collect_sub, collect_below, collect_dir,
}

-- The MFT indexes that an enumeration gives.
abbrev pub listed : List Key → List ℕ
listed [] = []
listed (k ∷ l) = if is_listed k.mft k.kind then k.mft ∷ listed l else listed l

listed-append : (l m : List Key) → listed (l ++ m) ≡ listed l ++ listed m
listed-append [] m = refl
listed-append (k ∷ l) m = ground (arith, listed-append l m)

take_full : (n : ℕ) (l m : List ℕ) → n ≤ length l → take n (l ++ m) ≡ take n l
take_full zero l m h = refl
take_full (suc n) [] m h = absurd (omega arith)
take_full (suc n) (x ∷ l) m h = ap (λ t. x ∷ t) (take_full n l m (omega arith))

take_whole : (n : ℕ) (l : List ℕ) → length l ≤ n → take n l ≡ l
take_whole zero [] h = refl
take_whole zero (x ∷ l) h = absurd (omega arith)
take_whole (suc n) [] h = refl
take_whole (suc n) (x ∷ l) h = ap (λ t. x ∷ t) (take_whole n l (omega arith))

-- An entry with a name, after what was collected.
add_listed_lem :
    (most : ℕ) (buf : List ℕ) (e : ℕ) (k : Key) (l : List ℕ)
    → IsKey buf e k
    → add_listed most buf e (take most l) ≡ take most (l ++ listed (k ∷ []))
unfolding add_listed
add_listed_lem most buf e k l w = elim (Bool-cases (is_listed k.mft k.kind)) [
  | inr hidden ↦ rw (w.mft_at, w.kind_at, hidden) (ap (take most) (sym (append-nil l)))
  | inl shown ↦ elim (dec_lt (length l) most) [
    | yes room ↦
        let free : ltb (length (take most l)) most ≡ true = ground (arith, length-take most l) in
        let longer : length (l ++ k.mft ∷ []) ≤ most =
          omega (arith, length-append l (k.mft ∷ [])) in
        rw (w.mft_at, w.kind_at, shown, free)
          (ap (λ o. o ++ k.mft ∷ []) (take_whole most l (omega arith))
            ∙ sym (take_whole most (l ++ k.mft ∷ []) longer))
    | no full ↦
        let busy : ltb (length (take most l)) most ≡ false = ground (arith, length-take most l) in
        rw (w.mft_at, w.kind_at, shown, busy) (sym (take_full most l (k.mft ∷ []) (omega arith)))
  ]
]

listed_join :
    (l : List ℕ) (ks m : List Key) (k : Key)
    → l ++ listed ks ++ listed (k ∷ []) ++ listed m ≡ l ++ listed (ks ++ k ∷ m)
listed_join l ks m k =
    append_assoc (l ++ listed ks) (listed (k ∷ [])) (listed m)
    ∙ ap (λ t. l ++ listed ks ++ t) (sym (listed-append (k ∷ []) m))
    ∙ append_assoc l (listed ks) (listed (k ∷ m))
    ∙ ap (λ t. l ++ t) (sym (listed-append ks (k ∷ m)))

module _ (v : IndexVolume) (a : IndexAlloc) (most : ℕ) where
  collect_full :
      (fuel : ℕ) (sub : ℕ → List ℕ → Option (List ℕ)) (alloc : Bool) (buf : List ℕ) (end e : ℕ)
      (out : List ℕ)
      → most ≤ length out
      → collect_block (suc fuel) sub alloc most buf end e out ≡ some out
  unfolding collect_block
  collect_full fuel sub alloc buf end e out h =
      let stop : (ltb e end && (ltb (length out) most && ltb 0 (entry_length buf e))) ≡ false =
        ground arith in
      rw (collect_block, stop) refl

  front_leaf :
      (left : ℕ) (buf : List ℕ) (e : ℕ) (out : List ℕ)
      → has_sub_node buf e ≡ false
      → collect_front (collect_sub left v a most) true buf e out ≡ some out
  unfolding collect_front
  front_leaf left buf e out h = rw h refl

  front_block :
      (left : ℕ) (buf : List ℕ) (e vcn : ℕ) (sub out : List ℕ)
      → has_sub_node buf e ≡ true
      → sub_vcn buf e ≡ vcn
      → load_block v a vcn ≡ some sub
      → collect_front (collect_sub (suc left) v a most) true buf e out
        ≡ collect_block
            (suc (block_last sub))
            (collect_sub left v a most)
            true
            most
            sub
            (block_last sub)
            (block_first sub)
            out
  unfolding collect_front collect_sub
  front_block left buf e vcn sub out h q loaded = rw (h, q, collect_sub, loaded) refl

  step_final :
      (fuel : ℕ) (sub : ℕ → List ℕ → Option (List ℕ)) (buf : List ℕ) (end e : ℕ)
      (out front : List ℕ)
      → length out < most
      → IsEntry buf end e
      → is_end buf e ≡ true
      → collect_front sub true buf e out ≡ some front
      → collect_block (suc fuel) sub true most buf end e out ≡ some front
  unfolding collect_block
  step_final fuel sub buf end e out front room i last at =
      let go : (ltb e end && (ltb (length out) most && ltb 0 (entry_length buf e))) ≡ true =
        ground (arith, i.filled, i.inside) in
      rw (collect_block, go, at, last) refl

  step_entry :
      (fuel : ℕ) (sub : ℕ → List ℕ → Option (List ℕ)) (buf : List ℕ) (end e : ℕ)
      (out front : List ℕ)
      → length out < most
      → IsEntry buf end e
      → is_end buf e ≡ false
      → collect_front sub true buf e out ≡ some front
      → collect_block (suc fuel) sub true most buf end e out
        ≡ collect_block fuel sub true most buf end
            (e + entry_length buf e)
            (add_listed most buf e front)
  unfolding collect_block
  step_entry fuel sub buf end e out front room i last at =
      let go : (ltb e end && (ltb (length out) most && ltb 0 (entry_length buf e))) ≡ true =
        ground (arith, i.filled, i.inside) in
      rw (collect_block, go, at, last) refl

  mutual
    collect_subtree :
        (left : ℕ) (buf : List ℕ) (e : ℕ) (t : Subtree) (l : List ℕ)
        → height t ≤ left
        → HasChild buf e t
        → IsStored v a t
        → collect_front (collect_sub left v a most) true buf e (take most l)
          ≡ some (take most (l ++ listed (keys t)))
    collect_subtree left buf e leaf l h c s =
        front_leaf left buf e (take most l) c ∙ ap (λ x. some (take most x)) (sym (append-nil l))
    collect_subtree zero buf e (block vcn es) l h c s = absurd (omega (arith, h))
    collect_subtree (suc left) buf e (block vcn es) l h (node, q) (sub, loaded, used, held) =
        front_block left buf e vcn sub (take most l) node q loaded
        ∙ collect_entries (block_last sub) left sub (block_last sub) (block_first sub) es l
            (omega arith) (omega (arith, h)) held

    collect_entries :
        (fuel left : ℕ) (buf : List ℕ) (end e : ℕ) (es : Entries) (l : List ℕ)
        → end ≤ e + fuel
        → height_of es ≤ left
        → HoldsEntries v a buf end e es
        → collect_block (suc fuel) (collect_sub left v a most) true most buf end e (take most l)
          ≡ some (take most (l ++ listed (keys_of es)))
    collect_entries fuel left buf end e (final t) l enough h (i, last, c, s) =
        elim (dec_lt (length l) most) [
          | yes room ↦
              step_final fuel (collect_sub left v a most) buf end e (take most l) _
                (omega (arith, length-take most l)) i last (collect_subtree left buf e t l h c s)
          | no full ↦
              collect_full fuel (collect_sub left v a most) true buf end e (take most l)
                (omega (arith, length-take most l))
              ∙ ap some (sym (take_full most l (listed (keys t)) (omega arith)))
        ]
    collect_entries zero left buf end e (entry k t es) l enough h (i, w, c, s, r) =
        absurd (omega (arith, i.filled, i.inside))
    collect_entries (suc fuel) left buf end e (entry k t es) l enough h (i, w, c, s, r) =
        elim (dec_lt (length l) most) [
          | yes room ↦
              let sub : ℕ → List ℕ → Option (List ℕ) = collect_sub left v a most in
              let front = collect_subtree left buf e t l (omega (arith, h)) c s in
              let named = add_listed_lem most buf e k (l ++ listed (keys t)) w in
              let l' : List ℕ = l ++ listed (keys t) ++ listed (k ∷ []) in
              step_entry (suc fuel) sub buf end e (take most l) _
                (omega (arith, length-take most l)) i w.names front
              ∙ ap (collect_block (suc fuel) sub true most buf end (e + entry_length buf e)) named
              ∙ collect_entries fuel left buf end (e + entry_length buf e) es l'
                  (omega (arith, i.filled)) (omega (arith, h)) r
              ∙ ap (λ x. some (take most x)) (listed_join l (keys t) (keys_of es) k)
          | no full ↦
              collect_full (suc fuel) (collect_sub left v a most) true buf end e (take most l)
                (omega (arith, length-take most l))
              ∙ ap some (sym (take_full most l (listed (keys t ++ k ∷ keys_of es)) (omega arith)))
        ]

  -- For a directory whose tree lies in the $INDEX_ROOT and in blocks of the $INDEX_ALLOCATION and is at most
  -- 32 blocks high: NtfsEfiCollectDir gives the MFT indexes of all its names of user files that are not DOS
  -- aliases only, in the order of the tree, up to the size of the array.
  pub collect_dir-listed :
      (root : List ℕ) (es : Entries)
      → root_ok root ≡ true
      → HoldsEntries v a root (root_last root) (root_first root) es
      → height_of es ≤ max_index_depth
      → collect_dir v root (some a) most ≡ some (take most (listed (keys_of es)))
  unfolding collect_dir collect_below has_alloc
  collect_dir-listed root es good held low =
      let none_yet : List ℕ = [] in
      let nil : take most none_yet ≡ none_yet = take_whole most [] (omega arith) in
      rw good (
        ap
          (collect_block (suc (root_last root)) (collect_sub max_index_depth v a most) true most
            root (root_last root) (root_first root))
          (sym nil)
        ∙ collect_entries (root_last root) max_index_depth root (root_last root) (root_first root)
            es [] (omega arith) low held)
