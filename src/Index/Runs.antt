-- ===== src/Index/Runs.antt =====
-- A directory of two blocks.
use ntfs_efi.Prelude.{
  Option, none, ◌==◌, if◌then◌else◌, ℕ, ◌≡◌, ◌≤◌, refl, true, false, some, List, [], ◌∷◌, ◌++◌,
  replicate, take, length, arith,
}
use ntfs_efi.Usa.{read16, record_type, usa_offset, usa_count, fixup_record}
use ntfs_efi.Mft.{read32, read64, attribute_offset, bytes_in_use}
use ntfs_efi.Attr.{AttrCtx, read_attr}
use ntfs_efi.Attr.Memory.{memory}
use ntfs_efi.Index.Lookup.{
  index_attribute, attribute_bytes, index_bitmap, index_alloc, open_index, lookup_in_directory,
  lookup_in_directory-find_key,
}
use ntfs_efi.AttrFind.{
  read_chars, same_chars, attr_type, attr_length, is_non_resident, attr_name_length,
  attr_name_offset, value_length, value_offset, resident_ctx, prepare_attr_ctx, attr_fits,
  attr_matches, try_attr, find_loop, attr_area, find_attr_in_record, attr_data_length,
  find_attribute,
}
use ntfs_efi.Bitmap.{is_used}
use ntfs_efi.Index.{
  IndexVolume, IndexAlloc, first_entry_offset, total_size_of_entries, allocated_size,
  index_header_ok, index_block_ok, fold_char, compare_names, entry_length, is_node, is_end,
  indexed_file, name_length, name_type, entry_name, sub_vcn, is_real, has_sub_node, descend,
  search_index_block, bit_clear, node_unused, checked_block, load_block, block_first, block_last,
  search_sub_node, search_below, has_alloc, root_first, root_last, root_ok, find_in_directory,
}
use ntfs_efi.Index.Tree.{leaf, block, Entries, final, entry, keys_of, HoldsEntries}
use ntfs_efi.Index.Sorted.{find_key, IsSorted}
use ntfs_efi.Index.Listing.{collect_dir}
use ntfs_efi.Index.Listing.Bounds.{collect_dir_ends}
use ntfs_efi.Index.Listing.All.{listed, collect_dir-listed}

-- An entry of a name of one character.
abbrev name_entry : ℕ → ℕ → ℕ → ℕ → List ℕ
name_entry mft len flags c =
    mft ∷ replicate 7 0
    ++ len ∷ 0 ∷ 68 ∷ 0 ∷ flags ∷ 0 ∷ 0 ∷ 0 ∷ replicate 64 0
    ++ 1 ∷ 1 ∷ c ∷ 0 ∷ replicate 4 0

abbrev end_entry : ℕ → ℕ → List ℕ
end_entry len flags = replicate 8 0 ++ len ∷ 0 ∷ 0 ∷ 0 ∷ flags ∷ 0 ∷ 0 ∷ 0 ∷ []

abbrev header : ℕ → List ℕ
header total = 16 ∷ 0 ∷ 0 ∷ 0 ∷ total ∷ 0 ∷ 0 ∷ 0 ∷ total ∷ 0 ∷ 0 ∷ 0 ∷ replicate 4 0

-- The name 5 with a subtree in block 0, and the end.
abbrev root : List ℕ
root = replicate 16 0 ++ header 128 ++ name_entry 40 96 1 5 ++ replicate 8 0 ++ end_entry 16 2

-- The name 3, and the end.
abbrev index_block : List ℕ
index_block =
    0x49 ∷ 0x4e ∷ 0x44 ∷ 0x58 ∷ replicate 20 0
    ++ header 120
    ++ name_entry 30 88 0 3
    ++ end_entry 16 2

abbrev alloc : IndexAlloc
alloc = record {
  read_data = λ o n. index_block;
  bitmap = some (1 ∷ []);
  node_bits = 1;
  clust_per_block = 1;
}

-- The upper case of 4 is 3.
abbrev volume : IndexVolume
volume = record {
  geometry = record {
    bytes_per_file_record = 144;
    bytes_per_index_record = 144;
    bytes_per_sector = 48;
  };
  bytes_per_cluster = 144;
  upcase_table = 0 ∷ 1 ∷ 2 ∷ 3 ∷ 3 ∷ 5 ∷ [];
}

abbrev tree : Entries
tree =
    entry (record { name = 5 ∷ []; mft = 40; kind = 1 })
      (block 0 (entry (record { name = 3 ∷ []; mft = 30; kind = 1 }) leaf (final leaf)))
      (final leaf)

methods : Unit {0}
unfolding read16 record_type usa_offset usa_count fixup_record read32 is_used read64
    first_entry_offset total_size_of_entries allocated_size index_header_ok index_block_ok fold_char
    compare_names entry_length is_node is_end indexed_file name_length name_type read_chars
    entry_name sub_vcn is_real has_sub_node descend search_index_block bit_clear node_unused
    checked_block load_block block_first block_last search_sub_node search_below has_alloc
    root_first root_last root_ok find_in_directory
methods = tt

finds : find_in_directory volume false root (some alloc) (4 ∷ []) ≡ some 30
unfolding methods
finds = refl

holds_tree : HoldsEntries volume alloc root (root_last root) (root_first root) tree
unfolding methods
holds_tree = (
  record { filled = omega arith; inside = omega arith },
  record { names = refl; fits = omega arith; name_at = refl; mft_at = refl; kind_at = refl },
  (refl, refl),
  (
    index_block,
    refl,
    refl,
    (
      record { filled = omega arith; inside = omega arith },
      record { names = refl; fits = omega arith; name_at = refl; mft_at = refl; kind_at = refl },
      refl,
      tt,
      (record { filled = omega arith; inside = omega arith }, refl, refl, tt),
    ),
  ),
  (record { filled = omega arith; inside = omega arith }, refl, refl, tt),
)

root_ok-root : root_ok root ≡ true
unfolding methods
root_ok-root = refl

tree-IsSorted : IsSorted false volume.upcase_table (keys_of tree)
unfolding methods
tree-IsSorted = ((refl, tt), (tt, tt))

collect_dir-listed_example :
    collect_dir volume root (some alloc) 10 ≡ some (take 10 (listed (keys_of tree)))
collect_dir-listed_example =
    collect_dir-listed volume alloc 10 root tree root_ok-root holds_tree (omega arith)

collect_dir_ends_example :
    (out : List ℕ) × (collect_dir volume root (some alloc) 1 ≡ some out) × (length out ≤ 1)
collect_dir_ends_example = collect_dir_ends volume root (some alloc) 1

-- A resident attribute of name $I30: the name at 24, the value of 144 bytes at 32.
abbrev i30_image : ℕ → List ℕ → List ℕ
i30_image type value =
    type ∷ 0 ∷ 0 ∷ 0 ∷ 176 ∷ 0 ∷ 0 ∷ 0 ∷ 0 ∷ 4 ∷ 24 ∷ replicate 5 0
    ++ 144 ∷ 0 ∷ 0 ∷ 0 ∷ 32 ∷ 0 ∷ 0 ∷ 0 ∷ 0x24 ∷ 0 ∷ 0x49 ∷ 0 ∷ 0x33 ∷ 0 ∷ 0x30 ∷ 0 ∷ value

-- The record of the directory, number 50.
abbrev dir_record : List ℕ
dir_record =
    replicate 20 0
    ++ 32 ∷ 0 ∷ 0 ∷ 0 ∷ 128 ∷ 1 ∷ replicate 6 0
    ++ i30_image 0x90 root
    ++ i30_image 0xa0 index_block

abbrev read_record : ℕ → Option (List ℕ)
read_record k = if k == 50 then some dir_record else none

abbrev no_disk : ℕ → ℕ
no_disk k = 0

-- The context of the $INDEX_ALLOCATION.
abbrev alloc_ctx : AttrCtx
alloc_ctx = record {
  is_non_resident = false;
  value = index_block;
  runs = [];
  cache_idx = 0;
  cache_offset = 0;
}

abbrev stored_alloc : IndexAlloc
stored_alloc = record {
  read_data = λ o n. (read_attr memory 144 no_disk alloc_ctx o n).0;
  bitmap = none;
  node_bits = 0;
  clust_per_block = 1;
}

lookup_methods : Unit {0}
unfolding methods attribute_offset bytes_in_use read_attr same_chars attr_type attr_length
    is_non_resident attr_name_length attr_name_offset value_length value_offset resident_ctx
    prepare_attr_ctx attr_fits attr_matches try_attr find_loop attr_area find_attr_in_record
    attr_data_length find_attribute index_attribute attribute_bytes index_bitmap index_alloc
    open_index
lookup_methods = tt

opens : open_index memory volume no_disk read_record 50 ≡ some (dir_record, root)
unfolding lookup_methods
opens = refl

has_blocks : index_alloc memory volume no_disk read_record dir_record ≡ some stored_alloc
unfolding lookup_methods
has_blocks = refl

holds_stored : HoldsEntries volume stored_alloc root (root_last root) (root_first root) tree
unfolding lookup_methods
holds_stored = (
  record { filled = omega arith; inside = omega arith },
  record { names = refl; fits = omega arith; name_at = refl; mft_at = refl; kind_at = refl },
  (refl, refl),
  (
    index_block,
    refl,
    refl,
    (
      record { filled = omega arith; inside = omega arith },
      record { names = refl; fits = omega arith; name_at = refl; mft_at = refl; kind_at = refl },
      refl,
      tt,
      (record { filled = omega arith; inside = omega arith }, refl, refl, tt),
    ),
  ),
  (record { filled = omega arith; inside = omega arith }, refl, refl, tt),
)

lookup_in_directory-find_key_example :
    lookup_in_directory memory volume no_disk read_record false 50 (4 ∷ [])
    ≡ find_key false volume.upcase_table (4 ∷ []) (keys_of tree)
lookup_in_directory-find_key_example =
    lookup_in_directory-find_key memory volume no_disk read_record stored_alloc false (4 ∷ []) 50
      dir_record root tree opens has_blocks root_ok-root holds_stored (omega arith) tree-IsSorted
