-- ===== src/Index.antt =====
-- src/ntfs_btree.c, with the checks of an index header in src/ntfs_mft.c: the lookup of a name in a
-- directory and the enumeration of a directory. An index block is the list of its bytes, and a pointer
-- into it is an offset; a read past the end of a buffer, which C does not define, gives 0. The read of
-- the $INDEX_ALLOCATION data is a function from an offset and a length to bytes. The debug output is left
-- out, and AllocatePool gives a buffer.
pub mod Order
pub mod Tree
pub mod Sorted
pub mod Search
pub mod Listing
pub mod Lookup
mod Runs
use Prim.Native.Nat.{compare, Ordering}
use ntfs_efi.Prelude.{
  ℕ, zero, suc, ◌+◌, ◌-◌, ◌*◌, ◌/◌, ◌%◌, ◌^◌, Bool, true, false, not, ◌&&◌, ◌||◌, Option, none,
  some, List, [], ◌∷◌, length, get_or, ltb, leb, ◌==◌, if◌then◌else◌,
}
use ntfs_efi.Prelude.Status.{Result, ok, err}
use ntfs_efi.Usa.{Geometry, read16, record_type, nrh_indx_type, fixup_record}
use ntfs_efi.Bitmap.{is_used, first_user_file}
use ntfs_efi.Mft.{read32, read64}
use ntfs_efi.AttrFind.{read_chars}

-- The fields of the INDEX_HEADER_ATTRIBUTE at h.
pub first_entry_offset : List ℕ → ℕ → ℕ
first_entry_offset buf h = read32 buf h

pub total_size_of_entries : List ℕ → ℕ → ℕ
total_size_of_entries buf h = read32 buf (h + 4)

pub allocated_size : List ℕ → ℕ → ℕ
allocated_size buf h = read32 buf (h + 8)

-- NtfsEfiIndexHeaderOk, for a header at h with `avail` bytes to the end of its buffer.
pub index_header_ok : List ℕ → ℕ → ℕ → Bool
index_header_ok buf h avail =
    leb 16 avail
    && (leb 16 (first_entry_offset buf h)
        && (leb (total_size_of_entries buf h) avail
            && leb (first_entry_offset buf h) (total_size_of_entries buf h)))

-- The offsets of Header in INDEX_BUFFER and INDEX_ROOT_ATTRIBUTE.
abbrev pub block_header : ℕ
block_header = 24

abbrev pub root_header : ℕ
root_header = 16

-- NtfsEfiIndexBlockOk
pub index_block_ok : Geometry → List ℕ → Bool
index_block_ok g buf =
    let avail = g.bytes_per_index_record - block_header in
    ltb block_header g.bytes_per_index_record
    && (index_header_ok buf block_header avail
        && (leb (allocated_size buf block_header) avail
            && leb (total_size_of_entries buf block_header) (allocated_size buf block_header)))

-- A character as it is compared: by the $UpCase table unless the case matters.
pub fold_char : Bool → List ℕ → ℕ → ℕ
fold_char true upcase c = c
fold_char false upcase c = get_or upcase c 0

-- NtfsEfiCompareNames: the sign of its result.
pub compare_names : Bool → List ℕ → List ℕ → List ℕ → Ordering
compare_names cs upcase [] [] = Ordering.eq
compare_names cs upcase [] (b ∷ m) = Ordering.lt
compare_names cs upcase (a ∷ l) [] = Ordering.gt
compare_names cs upcase (a ∷ l) (b ∷ m) =
    elim (compare (fold_char cs upcase a) (fold_char cs upcase b)) [
      | Ordering.lt ↦ Ordering.lt
      | Ordering.eq ↦ compare_names cs upcase l m
      | Ordering.gt ↦ Ordering.gt
    ]

-- The fields of the INDEX_ENTRY_ATTRIBUTE at e.
pub entry_length : List ℕ → ℕ → ℕ
entry_length buf e = read16 buf (e + 8)

-- NTFS_INDEX_ENTRY_NODE and NTFS_INDEX_ENTRY_END of Flags.
pub is_node : List ℕ → ℕ → Bool
is_node buf e = read16 buf (e + 12) % 2 == 1

pub is_end : List ℕ → ℕ → Bool
is_end buf e = read16 buf (e + 12) / 2 % 2 == 1

-- IndexedFile & NTFS_MFT_MASK
pub indexed_file : List ℕ → ℕ → ℕ
indexed_file buf e = read64 buf e % 2 ^ 48

pub name_length : List ℕ → ℕ → ℕ
name_length buf e = get_or buf (e + 80) 0

pub name_type : List ℕ → ℕ → ℕ
name_type buf e = get_or buf (e + 81) 0

-- FileName.Name
pub entry_name : List ℕ → ℕ → List ℕ
entry_name buf e = read_chars (name_length buf e) buf (e + 82)

-- The VCN in the last eight bytes of an entry.
pub sub_vcn : List ℕ → ℕ → ℕ
sub_vcn buf e = read64 buf (e + entry_length buf e - 8)

-- IsRealEntry
pub is_real : ℕ → Bool
is_real mft = leb first_user_file mft

-- `Flags & NTFS_INDEX_ENTRY_NODE`, with room for the VCN.
pub has_sub_node : List ℕ → ℕ → Bool
has_sub_node buf e = is_node buf e && leb 8 (entry_length buf e)

-- The subtree in front of an entry, where the directory has an $INDEX_ALLOCATION.
pub descend : (ℕ → Option ℕ) → Bool → List ℕ → ℕ → Option ℕ
descend search_sub has_alloc buf e =
    if has_sub_node buf e && has_alloc then search_sub (sub_vcn buf e) else none

-- NtfsEfiSearchIndexBlock from the entry at e on; `none` is -1. Each round takes a byte at least.
pub search_index_block :
    ℕ → Bool → List ℕ → (ℕ → Option ℕ) → Bool → List ℕ → ℕ → List ℕ → ℕ → Option ℕ
search_index_block zero cs upcase search_sub has_alloc buf end name e = none
search_index_block (suc fuel) cs upcase search_sub has_alloc buf end name e =
    elim (ltb e end && (ltb 0 (entry_length buf e) && leb (e + entry_length buf e) end)) [
      | false ↦ none
      | true ↦ elim (is_end buf e) [
        | true ↦ descend search_sub has_alloc buf e
        | false ↦ elim (leb (82 + name_length buf e * 2) (entry_length buf e)) [
          | false ↦ none
          | true ↦ elim (compare_names cs upcase name (entry_name buf e)) [
            | Ordering.lt ↦ descend search_sub has_alloc buf e
            | Ordering.gt ↦
                search_index_block fuel cs upcase search_sub has_alloc buf end name
                  (e + entry_length buf e)
            | Ordering.eq ↦ elim (is_real (indexed_file buf e)) [
              | true ↦ some (indexed_file buf e)
              | false ↦
                  search_index_block fuel cs upcase search_sub has_alloc buf end name
                    (e + entry_length buf e)
            ]
          ]
        ]
      ]
    ]

-- What the lookups know of the volume.
pub record IndexVolume : Type 0 where
  pub geometry : Geometry
  pub bytes_per_cluster : ℕ
  pub upcase_table : List ℕ

-- IndexAllocCtx, Bitmap, BitmapBits and ClustPerBlock.
pub record IndexAlloc : Type 0 where
  pub read_data : ℕ → ℕ → List ℕ
  pub bitmap : Option (List ℕ)
  pub node_bits : ℕ
  pub clust_per_block : ℕ

-- The bitmap says that a node is not in use.
pub bit_clear : ℕ → ℕ → Option (List ℕ) → Bool
bit_clear bits node none = false
bit_clear bits node (some bm) = ltb 0 bits && (ltb node bits && not (is_used bm node))

pub node_unused : IndexAlloc → ℕ → Bool
node_unused a vcn = bit_clear a.node_bits (vcn / a.clust_per_block % 2 ^ 32) a.bitmap

pub checked_block : Geometry → Result (List ℕ) → Option (List ℕ)
checked_block g (err s) = none
checked_block g (ok buf) = if index_block_ok g buf then some buf else none

-- The read of an INDX block and its checks.
pub load_block : IndexVolume → IndexAlloc → ℕ → Option (List ℕ)
load_block v a vcn =
    let buf = a.read_data (vcn * v.bytes_per_cluster % 2 ^ 64) v.geometry.bytes_per_index_record in
    if length buf == v.geometry.bytes_per_index_record && record_type buf == nrh_indx_type
    then checked_block v.geometry (fixup_record v.geometry buf)
    else none

-- First and Last of a block.
pub block_first : List ℕ → ℕ
block_first buf = block_header + first_entry_offset buf block_header

pub block_last : List ℕ → ℕ
block_last buf = block_header + total_size_of_entries buf block_header

abbrev pub max_index_depth : ℕ
max_index_depth = 32

-- NtfsEfiSearchSubNode, with as many levels left as max_index_depth is above Depth.
pub search_sub_node : ℕ → IndexVolume → Bool → IndexAlloc → List ℕ → ℕ → Option ℕ
search_sub_node zero v cs a name vcn = none
search_sub_node (suc left) v cs a name vcn = elim (node_unused a vcn) [
  | true ↦ none
  | false ↦ elim (load_block v a vcn) [
    | none ↦ none
    | some buf ↦
        search_index_block (block_last buf) cs v.upcase_table (search_sub_node left v cs a name)
          true buf (block_last buf) name (block_first buf)
  ]
]

-- The subtrees of a directory; without an $INDEX_ALLOCATION there are none.
pub search_below : IndexVolume → Bool → Option IndexAlloc → List ℕ → ℕ → Option ℕ
search_below v cs none name vcn = none
search_below v cs (some a) name vcn = search_sub_node max_index_depth v cs a name vcn

pub has_alloc : Option IndexAlloc → Bool
has_alloc none = false
has_alloc (some a) = true

-- First and Last of the $INDEX_ROOT value.
pub root_first : List ℕ → ℕ
root_first buf = root_header + first_entry_offset buf root_header

pub root_last : List ℕ → ℕ
root_last buf = root_header + total_size_of_entries buf root_header

-- The checks of the bytes that were read of the $INDEX_ROOT.
pub root_ok : List ℕ → Bool
root_ok buf =
    ltb root_header (length buf) && index_header_ok buf root_header (length buf - root_header)

-- NtfsEfiFindInDirectory with DirSearch FALSE, from the bytes of the $INDEX_ROOT on.
pub find_in_directory : IndexVolume → Bool → List ℕ → Option IndexAlloc → List ℕ → Option ℕ
find_in_directory v cs root a name =
    if root_ok root
    then search_index_block (root_last root) cs v.upcase_table (search_below v cs a name)
        (has_alloc a) root (root_last root) name (root_first root)
    else none
