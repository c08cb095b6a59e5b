-- ===== src/Index/Listing.antt =====
-- NtfsCollectBlock, NtfsCollectSub and NtfsEfiCollectDir: the MFT indexes of all names of a directory in
-- their order, into an array of Max elements. A walk that does not come to an end gives none.
pub mod All
pub mod Bounds
use ntfs_efi.Prelude.{
  ℕ, zero, suc, ◌+◌, Bool, true, false, not, ◌&&◌, Option, none, some, List, [], ◌∷◌, ◌++◌, length,
  ltb, leb, ◌==◌, if◌then◌else◌,
}
use ntfs_efi.Index.{
  IndexVolume, IndexAlloc, entry_length, is_end, indexed_file, name_type, is_real, sub_vcn,
  has_sub_node, load_block, block_first, block_last, max_index_depth, has_alloc, root_ok,
  root_first, root_last,
}

abbrev pub file_name_dos : ℕ
file_name_dos = 2

-- A user file under a name that is not a DOS alias only.
pub is_listed : ℕ → ℕ → Bool
is_listed mft kind = is_real mft && not (kind == file_name_dos)

-- `Out[(*Count)++] = ...`
pub add_listed : ℕ → List ℕ → ℕ → List ℕ → List ℕ
add_listed max buf e out =
    if is_listed (indexed_file buf e) (name_type buf e) && ltb (length out) max
    then out ++ indexed_file buf e ∷ []
    else out

-- The subtree in front of an entry.
pub collect_front : (ℕ → List ℕ → Option (List ℕ)) → Bool → List ℕ → ℕ → List ℕ → Option (List ℕ)
collect_front collect_sub alloc buf e out =
    if has_sub_node buf e && alloc then collect_sub (sub_vcn buf e) out else some out

-- NtfsCollectBlock from the entry at e on, with what was collected before, for so many rounds at most:
-- none is a loop that goes on after them.
pub collect_block :
    ℕ → (ℕ → List ℕ → Option (List ℕ)) → Bool → ℕ → List ℕ → ℕ → ℕ → List ℕ → Option (List ℕ)
collect_block zero collect_sub alloc max buf end e out = none
collect_block (suc fuel) collect_sub alloc max buf end e out =
    elim (ltb e end && (ltb (length out) max && ltb 0 (entry_length buf e))) [
      | false ↦ some out
      | true ↦ elim (collect_front collect_sub alloc buf e out) [
        | none ↦ none
        | some front ↦ elim (is_end buf e) [
          | true ↦ some front
          | false ↦
              collect_block fuel collect_sub alloc max buf end (e + entry_length buf e)
                (add_listed max buf e front)
        ]
      ]
    ]

-- NtfsCollectSub, with as many levels left as max_index_depth is above Depth. At Depth 32 the source
-- returns.
pub collect_sub : ℕ → IndexVolume → IndexAlloc → ℕ → ℕ → List ℕ → Option (List ℕ)
collect_sub zero v a max vcn out = some out
collect_sub (suc left) v a max vcn out = elim (load_block v a vcn) [
  | none ↦ some out
  | some buf ↦
      collect_block (suc (block_last buf)) (collect_sub left v a max) true max buf (block_last buf)
        (block_first buf) out
]

pub collect_below : IndexVolume → Option IndexAlloc → ℕ → ℕ → List ℕ → Option (List ℕ)
collect_below v none max vcn out = some out
collect_below v (some a) max vcn out = collect_sub max_index_depth v a max vcn out

-- NtfsEfiCollectDir, from the bytes of the $INDEX_ROOT on: the elements of Out, whose number it returns.
pub collect_dir : IndexVolume → List ℕ → Option IndexAlloc → ℕ → Option (List ℕ)
collect_dir v root a max =
    if root_ok root
    then collect_block (suc (root_last root)) (collect_below v a max) (has_alloc a) max root
        (root_last root) (root_first root) []
    else some []
