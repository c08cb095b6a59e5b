-- ===== src/Index/Listing/Bounds.antt =====
-- The end and the size of an enumeration, of any bytes.
use ntfs_efi.Prelude.{
  ℕ, zero, suc, ◌+◌, ◌≤◌, ◌≡◌, refl, Bool, true, false, ◌&&◌, Option, none, some, List, [], ◌∷◌,
  length, arith, ltb, Bool-cases, Option-cases, inl, inr, length-append,
}
use ntfs_efi.Index.{
  IndexVolume, IndexAlloc, entry_length, is_end, indexed_file, sub_vcn, has_sub_node, load_block,
  block_first, block_last, max_index_depth, has_alloc, root_ok, root_first, root_last,
}
use ntfs_efi.Index.Listing.{
  add_listed, collect_front, collect_block, collect_sub, collect_below, collect_dir,
}

-- A step that ends and does not write past the end of the array.
abbrev Keeps : ℕ → (List ℕ → Option (List ℕ)) → Type 0
Keeps most f =
    (out : List ℕ)
    → length out ≤ most
    → (done : List ℕ) × (f out ≡ some done) × (length done ≤ most)

add_listed-fits :
    (most : ℕ) (buf : List ℕ) (e : ℕ) (out : List ℕ)
    → length out ≤ most
    → length (add_listed most buf e out) ≤ most
unfolding add_listed
add_listed-fits most buf e out h = ground (arith, length-append out (indexed_file buf e ∷ []))

collect_front-Keeps :
    (most : ℕ) (sub : ℕ → List ℕ → Option (List ℕ)) (alloc : Bool) (buf : List ℕ) (e : ℕ)
    → ((vcn : ℕ) → Keeps most (sub vcn))
    → Keeps most (collect_front sub alloc buf e)
unfolding collect_front
collect_front-Keeps most sub alloc buf e k out h = elim (Bool-cases (has_sub_node buf e && alloc)) [
  | inl below ↦ rw below (k (sub_vcn buf e) out h)
  | inr flat ↦ rw flat (out, refl, h)
]

-- A round ends the walk or goes on at a later entry.
collect_block-Keeps :
    (fuel most : ℕ) (sub : ℕ → List ℕ → Option (List ℕ)) (alloc : Bool) (buf : List ℕ) (end e : ℕ)
    → end ≤ e + fuel
    → ((vcn : ℕ) → Keeps most (sub vcn))
    → Keeps most (collect_block (suc fuel) sub alloc most buf end e)
unfolding collect_block
collect_block-Keeps zero most sub alloc buf end e enough k out h =
    let stop : (ltb e end && (ltb (length out) most && ltb 0 (entry_length buf e))) ≡ false =
      ground arith in
    rw (collect_block, stop) (out, refl, h)
collect_block-Keeps (suc fuel) most sub alloc buf end e enough k out h =
    elim (Bool-cases (ltb e end && (ltb (length out) most && ltb 0 (entry_length buf e)))) [
      | inr stop ↦ rw (collect_block, stop) (out, refl, h)
      | inl go ↦
          let (front, at, low) = collect_front-Keeps most sub alloc buf e k out h in
          elim (Bool-cases (is_end buf e)) [
            | inl last ↦ rw (collect_block, go, at, last) (front, refl, low)
            | inr more ↦
                rw (collect_block, go, at, more)
                  (collect_block-Keeps fuel most sub alloc buf end (e + entry_length buf e)
                    (ground arith) k _ (add_listed-fits most buf e front low))
          ]
    ]

collect_sub-Keeps :
    (left : ℕ) (v : IndexVolume) (a : IndexAlloc) (most vcn : ℕ)
    → Keeps most (collect_sub left v a most vcn)
unfolding collect_sub
collect_sub-Keeps zero v a most vcn out h = (out, refl, h)
collect_sub-Keeps (suc left) v a most vcn out h = elim (Option-cases (load_block v a vcn)) [
  | inl bad ↦ rw (collect_sub, bad) (out, refl, h)
  | inr (buf, good) ↦
      rw (collect_sub, good)
        (collect_block-Keeps (block_last buf) most (collect_sub left v a most) true buf
          (block_last buf) (block_first buf) (omega arith) (collect_sub-Keeps left v a most) out h)
]

collect_below-Keeps :
    (v : IndexVolume) (a : Option IndexAlloc) (most vcn : ℕ)
    → Keeps most (collect_below v a most vcn)
unfolding collect_below
collect_below-Keeps v none most vcn out h = (out, refl, h)
collect_below-Keeps v (some a) most vcn out h = collect_sub-Keeps max_index_depth v a most vcn out h

-- Whatever the bytes of the directory are, also where its blocks form a cycle, NtfsEfiCollectDir ends, no
-- loop over a block running out of its rounds, and writes no more than Max elements to the array.
pub collect_dir_ends :
    (v : IndexVolume) (root : List ℕ) (a : Option IndexAlloc) (most : ℕ)
    → (out : List ℕ) × (collect_dir v root a most ≡ some out) × (length out ≤ most)
unfolding collect_dir
collect_dir_ends v root a most = elim (Bool-cases (root_ok root)) [
  | inr bad ↦ rw bad ([], refl, omega arith)
  | inl good ↦ rw good (
      collect_block-Keeps (root_last root) most (collect_below v a most) (has_alloc a) root
        (root_last root) (root_first root) (omega arith) (collect_below-Keeps v a most) []
        (omega arith))
]
