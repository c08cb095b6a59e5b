-- ===== src/Index/Lookup.antt =====
-- NtfsEfiFindInDirectory without DirSearch, and NtfsEfiCollectDir, from the number of the directory on. Each
-- read of a block takes the context of the attribute as it was found.
use ntfs_efi.Prelude.{ℕ, ◌≡◌, ◌≤◌, ◌*◌, ◌/◌, ◌%◌, ◌^◌, Bool, true, Option, none, some, List, []}
use ntfs_efi.Disk.{DiskIo}
use ntfs_efi.Attr.{read_attr}
use ntfs_efi.AttrFind.{Found, attr_data_length, find_attribute}
use ntfs_efi.AttrFind.Host.{
  attribute_index_root, attribute_index_allocation, attribute_bitmap, index_name,
}
use ntfs_efi.Index.{
  IndexVolume, IndexAlloc, root_ok, root_first, root_last, max_index_depth, find_in_directory,
}
use ntfs_efi.Index.Tree.{Entries, keys_of, height_of, HoldsEntries}
use ntfs_efi.Index.Sorted.{find_key, IsSorted}
use ntfs_efi.Index.Search.{find_in_directory-find_key}
use ntfs_efi.Index.Listing.{collect_dir}

module _ (io : DiskIo) (v : IndexVolume) (d : io.Disk) (read_record : ℕ → Option (List ℕ)) where
  -- An attribute of name $I30.
  unfoldable pub index_attribute : List ℕ → ℕ → Option Found
  index_attribute rec type = find_attribute io v.bytes_per_cluster d read_record rec type index_name

  unfoldable pub attribute_bytes : Found → ℕ → ℕ → List ℕ
  attribute_bytes f offset n = (read_attr io v.bytes_per_cluster d f.ctx offset n).0

  -- BitmapBuf: the bytes behind those that were read are zero.
  unfoldable pub index_bitmap : List ℕ → Option (List ℕ)
  index_bitmap rec = elim (index_attribute rec attribute_bitmap) [
    | none ↦ none
    | some b ↦ some (attribute_bytes b 0 (attr_data_length b.image % 2 ^ 32))
  ]

  -- IndexAllocCtx and what goes with it.
  unfoldable pub index_alloc : List ℕ → Option IndexAlloc
  index_alloc rec = elim (index_attribute rec attribute_index_allocation) [
    | none ↦ none
    | some a ↦
        let clust_per_block = v.geometry.bytes_per_index_record / v.bytes_per_cluster in
        let bitmap = index_bitmap rec in
        some (record {
          read_data = attribute_bytes a;
          bitmap = bitmap;
          node_bits = elim bitmap [
            | none ↦ 0
            | some b ↦ attr_data_length a.image / (clust_per_block * v.bytes_per_cluster) % 2 ^ 32
          ];
          clust_per_block = clust_per_block;
        })
  ]

  -- The record of the directory and the bytes of its $INDEX_ROOT.
  unfoldable pub open_index : ℕ → Option (List ℕ × List ℕ)
  open_index dir = elim (read_record dir) [
    | none ↦ none
    | some rec ↦ elim (index_attribute rec attribute_index_root) [
      | none ↦ none
      | some root ↦ some (rec, attribute_bytes root 0 v.geometry.bytes_per_index_record)
    ]
  ]

  -- NtfsEfiFindInDirectory with DirSearch FALSE
  pub lookup_in_directory : Bool → ℕ → List ℕ → Option ℕ
  lookup_in_directory cs dir name = elim (open_index dir) [
    | none ↦ none
    | some (rec, root) ↦ find_in_directory v cs root (index_alloc rec) name
  ]

  -- NtfsEfiCollectDir
  pub collect_directory : ℕ → ℕ → Option (List ℕ)
  collect_directory dir max = elim (open_index dir) [
    | none ↦ some []
    | some (rec, root) ↦ collect_dir v root (index_alloc rec) max
  ]

  -- For a directory with an $INDEX_ROOT and an $INDEX_ALLOCATION of name $I30, in its own record or in those of
  -- its attribute list, that hold a tree of at most 32 blocks in height whose names are in the order
  -- of NtfsEfiCompareNames, the blocks in use by the $BITMAP: NtfsEfiFindInDirectory without DirSearch gives
  -- the user file whose name compares as equal to the name asked for, and nothing where there is none.
  pub lookup_in_directory-find_key :
      (a : IndexAlloc) (cs : Bool) (name : List ℕ) (dir : ℕ) (rec root : List ℕ) (es : Entries)
      → open_index dir ≡ some (rec, root)
      → index_alloc rec ≡ some a
      → root_ok root ≡ true
      → HoldsEntries v a root (root_last root) (root_first root) es
      → height_of es ≤ max_index_depth
      → IsSorted cs v.upcase_table (keys_of es)
      → lookup_in_directory cs dir name ≡ find_key cs v.upcase_table name (keys_of es)
  unfolding lookup_in_directory
  lookup_in_directory-find_key a cs name dir rec root es opened alloc good held low order =
      rw (lookup_in_directory, opened, alloc)
        (find_in_directory-find_key v a cs name root es good held low order)
