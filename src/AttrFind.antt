-- ===== src/AttrFind.antt =====
-- src/ntfs_attr.c: NtfsEfiPrepareAttrCtx, NtfsEfiFindAttrInRecord and NtfsEfiFindAttribute. A pointer into
-- a record or into the attribute list is the list of bytes from there to the end of what is in use.
-- AllocatePool gives a buffer; NtfsEfiReadFileRecord is a function from an index to a record.
pub mod Layout
pub mod Sound
pub mod Remote
pub mod Host
mod Runs
use ntfs_efi.Prelude.{
  ℕ, zero, suc, ◌+◌, ◌*◌, ◌%◌, ◌^◌, Bool, true, false, not, ◌&&◌, ◌||◌, Option, none, some, List,
  [], ◌∷◌, length, get_or, take, drop, ltb, leb, ◌==◌, if◌then◌else◌,
}
use ntfs_efi.Prelude.Status.{Result, ok, err}
use ntfs_efi.Disk.{DiskIo}
use ntfs_efi.Usa.{read16}
use ntfs_efi.Mft.{read32, read64, attribute_offset, bytes_in_use}
use ntfs_efi.Runlist.{NtfsRunEntry, NtfsAttrRecord, ntfs_attr_min_header, build_run_list}
use ntfs_efi.Attr.{AttrCtx, read_attr}

-- n UTF-16 units.
unfoldable pub read_chars : ℕ → List ℕ → ℕ → List ℕ
read_chars zero buf o = []
read_chars (suc n) buf o = read16 buf o ∷ read_chars n buf (o + 2)

-- CompareMem of two names of one length.
unfoldable pub same_chars : List ℕ → List ℕ → Bool
same_chars [] [] = true
same_chars [] (b ∷ m) = false
same_chars (a ∷ l) [] = false
same_chars (a ∷ l) (b ∷ m) = a == b && same_chars l m

-- The fields of the NTFS_ATTR_RECORD at a pointer.
unfoldable pub attr_type : List ℕ → ℕ
attr_type p = read32 p 0

unfoldable pub attr_length : List ℕ → ℕ
attr_length p = read32 p 4

unfoldable pub is_non_resident : List ℕ → Bool
is_non_resident p = not (get_or p 8 0 == 0)

unfoldable pub attr_name_length : List ℕ → ℕ
attr_name_length p = get_or p 9 0

unfoldable pub attr_name_offset : List ℕ → ℕ
attr_name_offset p = read16 p 10

unfoldable pub value_length : List ℕ → ℕ
value_length p = read32 p 16

unfoldable pub value_offset : List ℕ → ℕ
value_offset p = read16 p 20

abbrev pub attribute_end : ℕ
attribute_end = 0xffffffff

abbrev pub attribute_attribute_list : ℕ
attribute_attribute_list = 0x20

abbrev pub ntfs_max_runs : ℕ
ntfs_max_runs = 2048

-- The record as NtfsBuildRunList reads it.
pub attr_record : List ℕ → NtfsAttrRecord
attr_record p = record {
  is_non_resident = is_non_resident p;
  record_length = attr_length p;
  lowest_vcn = read64 p 16;
  mapping_pairs_offset = read16 p 32;
  bytes = p;
}

unfoldable pub resident_ctx : List ℕ → AttrCtx
resident_ctx p = record {
  is_non_resident = false;
  value = take (value_length p) (drop (value_offset p) p);
  runs = [];
  cache_idx = 0;
  cache_offset = 0;
}

pub run_ctx : Result (List NtfsRunEntry) → Option AttrCtx
run_ctx (err s) = none
run_ctx (ok runs) =
    some
      (record { is_non_resident = true; value = []; runs = runs; cache_idx = 0; cache_offset = 0 })

-- NtfsEfiPrepareAttrCtx, of the bytes of one attribute record.
unfoldable pub prepare_attr_ctx : List ℕ → Option AttrCtx
prepare_attr_ctx p =
    if ltb (attr_length p) ntfs_attr_min_header
    then none
    else if is_non_resident p
    then run_ctx (build_run_list (attr_record p) ntfs_max_runs)
    else if ltb (attr_length p) (value_offset p + value_length p)
    then none
    else some (resident_ctx p)

-- The checks of an attribute record in front of a walk's next step.
unfoldable pub attr_fits : List ℕ → Bool
attr_fits p =
    leb ntfs_attr_min_header (attr_length p)
    && (leb (attr_length p) (length p)
        && (attr_name_length p == 0
            || leb (attr_name_offset p + attr_name_length p * 2) (attr_length p)))

unfoldable pub attr_matches : ℕ → List ℕ → List ℕ → Bool
attr_matches type name p =
    attr_type p == type
    && (attr_name_length p == length name
        && same_chars (read_chars (length name) p (attr_name_offset p)) name)

-- The heap copy of the record, the context, and the offset in the MFT record.
pub record Found : Type 0 where
  pub image : List ℕ
  pub ctx : AttrCtx
  pub offset : ℕ

-- The attribute at a pointer, if it is the one asked for and a context can be prepared.
unfoldable pub try_attr : ℕ → List ℕ → List ℕ → ℕ → Option Found
try_attr type name p o =
    if attr_matches type name p
    then (elim (prepare_attr_ctx (take (attr_length p) p)) [
      | none ↦ none
      | some c ↦ some (record { image = take (attr_length p) p; ctx = c; offset = o })
    ])
    else none

-- The loop of NtfsEfiFindAttrInRecord. Each round takes 24 bytes at least.
unfoldable pub find_loop : ℕ → ℕ → List ℕ → List ℕ → ℕ → Option Found
find_loop zero type name p o = none
find_loop (suc fuel) type name p o =
    elim (leb ntfs_attr_min_header (length p)
      && (not (attr_type p == attribute_end) && attr_fits p)) [
        | false ↦ none
        | true ↦ elim (try_attr type name p o) [
          | some f ↦ some f
          | none ↦ find_loop fuel type name (drop (attr_length p) p) (o + attr_length p)
        ]
      ]

-- The bytes from the first attribute to the end of what is in use.
unfoldable pub attr_area : List ℕ → List ℕ
attr_area rec = drop (attribute_offset rec) (take (bytes_in_use rec) rec)

-- NtfsEfiFindAttrInRecord
unfoldable pub find_attr_in_record : List ℕ → ℕ → List ℕ → Option Found
find_attr_in_record rec type name =
    find_loop (length (attr_area rec)) type name (attr_area rec) (attribute_offset rec)

-- NtfsEfiAttrDataLength
unfoldable pub attr_data_length : List ℕ → ℕ
attr_data_length p = if is_non_resident p then read64 p 48 else value_length p

-- The fields of the NTFS_ATTR_LIST_ITEM at a pointer, and its size.
abbrev pub list_item_size : ℕ
list_item_size = 32

pub item_length : List ℕ → ℕ
item_length p = read16 p 4

pub item_matches : ℕ → List ℕ → List ℕ → Bool
item_matches type name p =
    read32 p 0 == type
    && (get_or p 6 0 == length name
        && (length name == 0
            || (leb (get_or p 7 0 + length name * 2) (length p)
                && same_chars (read_chars (length name) p (get_or p 7 0)) name)))

-- Item->MFTIndex & NTFS_MFT_MASK
pub item_mft_index : List ℕ → ℕ
item_mft_index p = read64 p 16 % 2 ^ 48

-- The attribute in the record that an item names.
pub find_remote : (ℕ → Option (List ℕ)) → ℕ → List ℕ → List ℕ → Option Found
find_remote read_record type name p =
    if item_matches type name p
    then (elim (read_record (item_mft_index p)) [
      | none ↦ none
      | some rec ↦ find_attr_in_record rec type name
    ])
    else none

-- The loop over the attribute list. Each round takes 32 bytes at least.
pub list_loop : ℕ → (ℕ → Option (List ℕ)) → ℕ → List ℕ → List ℕ → Option Found
list_loop zero read_record type name p = none
list_loop (suc fuel) read_record type name p =
    elim (leb list_item_size (length p)
      && (not (read32 p 0 == attribute_end)
          && (leb list_item_size (item_length p) && leb (item_length p) (length p)))) [
            | false ↦ none
            | true ↦ elim (find_remote read_record type name p) [
              | some f ↦ some f
              | none ↦ list_loop fuel read_record type name (drop (item_length p) p)
            ]
          ]

module _ (io : DiskIo) where
  -- What follows when the record has an attribute list.
  pub follow_list : ℕ → io.Disk → (ℕ → Option (List ℕ)) → ℕ → List ℕ → Found → Option Found
  follow_list bpc d read_record type name list =
      let n = attr_data_length list.image in
      let items = (read_attr io bpc d list.ctx 0 n).0 in
      if leb list_item_size n && (leb n (1024 * 1024) && length items == n)
      then list_loop n read_record type name items
      else none

  -- NtfsEfiFindAttribute
  unfoldable pub find_attribute :
      ℕ → io.Disk → (ℕ → Option (List ℕ)) → List ℕ → ℕ → List ℕ → Option Found
  find_attribute bpc d read_record rec type name = elim (find_attr_in_record rec type name) [
    | some f ↦ some f
    | none ↦ elim (find_attr_in_record rec attribute_attribute_list []) [
      | none ↦ none
      | some list ↦ follow_list bpc d read_record type name list
    ]
  ]
