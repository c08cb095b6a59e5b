-- ===== src/AttrFind/Host.antt =====
-- src/ntfs_attr.c: NtfsEfiResolveIndexHost. An MFT index that has not been found, (ULONGLONG)-1, is `none`: the
-- indexes that are found have 48 bits.
pub mod Alias
mod Runs
use ntfs_efi.Prelude.{
  ℕ, zero, suc, ◌+◌, ◌*◌, ◌%◌, ◌^◌, Bool, true, false, not, ◌&&◌, ◌||◌, Option, none, some, List,
  [], ◌∷◌, length, get_or, drop, ltb, leb, ◌==◌, if◌then◌else◌,
}
use ntfs_efi.Prelude.Status.{Result, ok, err, ◌>>=◌, volume_corrupted, unsupported}
use ntfs_efi.Disk.{DiskIo}
use ntfs_efi.Mft.{read32}
use ntfs_efi.Attr.{read_attr}
use ntfs_efi.AttrFind.{
  read_chars, same_chars, attribute_end, attribute_attribute_list, Found, find_attr_in_record,
  attr_data_length, list_item_size, item_length, item_mft_index,
}

abbrev pub attribute_index_root : ℕ
attribute_index_root = 0x90

abbrev pub attribute_index_allocation : ℕ
attribute_index_allocation = 0xa0

abbrev pub attribute_bitmap : ℕ
attribute_bitmap = 0xb0

-- L"$I30"
abbrev pub index_name : List ℕ
index_name = 0x24 ∷ 0x49 ∷ 0x33 ∷ 0x30 ∷ []

-- The buffers that a record can stand in: the caller's, and those that are allocated for the two hosts.
pub data Buffer : Type 0 where
  base_buffer : Buffer
  rec_buffer : Buffer
  root_buffer : Buffer

-- A record of NTFS_INDEX_HOST: Rec, MFTIndex and Own, or RootRec, RootMFTIndex and RootOwn.
pub record HostRecord : Type 0 where
  pub buffer : Buffer
  pub image : List ℕ
  pub mft_index : ℕ
  pub own : Bool

pub record IndexHost : Type 0 where
  pub host : HostRecord
  pub root : HostRecord
  pub has_alloc : Bool

-- RootMFT, AllocMFT and BitmapMFT
pub record IndexPlaces : Type 0 where
  pub root_mft : Option ℕ
  pub alloc_mft : Option ℕ
  pub bitmap_mft : Option ℕ

abbrev pub no_places : IndexPlaces
no_places = record { root_mft = none; alloc_mft = none; bitmap_mft = none }

pub names_index : List ℕ → Bool
names_index p =
    get_or p 6 0 == 4
    && (leb (get_or p 7 0 + 4 * 2) (length p)
        && same_chars (read_chars 4 p (get_or p 7 0)) index_name)

pub note_place : ℕ → ℕ → IndexPlaces → IndexPlaces
note_place type at_index s =
    if type == attribute_index_root
    then record s { root_mft = some at_index }
    else if type == attribute_index_allocation
    then record s { alloc_mft = some at_index }
    else if type == attribute_bitmap
    then record s { bitmap_mft = some at_index }
    else s

pub note_item : List ℕ → IndexPlaces → IndexPlaces
note_item p s = if names_index p then note_place (read32 p 0) (item_mft_index p) s else s

-- The loop over the attribute list. Each round takes 32 bytes at least.
pub place_loop : ℕ → List ℕ → IndexPlaces → IndexPlaces
place_loop zero p s = s
place_loop (suc fuel) p s =
    elim (leb list_item_size (length p)
      && (not (read32 p 0 == attribute_end) && leb list_item_size (item_length p))) [
        | false ↦ s
        | true ↦ place_loop fuel (drop (item_length p) p) (note_item p s)
      ]

pub host_index : ℕ → IndexPlaces → Result (ℕ × Bool)
host_index root s = elim s.alloc_mft [
  | none ↦ ok (root, false)
  | some a ↦ elim s.bitmap_mft [
    | none ↦ ok (a, true)
    | some b ↦ if b == a then ok (a, true) else err unsupported
  ]
]

pub base_record : List ℕ → ℕ → HostRecord
base_record base base_mft = record {
  buffer = base_buffer;
  image = base;
  mft_index = base_mft;
  own = false;
}

pub load_record : (ℕ → Option (List ℕ)) → Buffer → ℕ → Result HostRecord
load_record read_record buffer k = elim (read_record k) [
  | none ↦ err volume_corrupted
  | some image ↦ ok (record { buffer = buffer; image = image; mft_index = k; own = true })
]

pub host_record : (ℕ → Option (List ℕ)) → List ℕ → ℕ → ℕ → Result HostRecord
host_record read_record base base_mft k =
    if k == base_mft then ok (base_record base base_mft) else load_record read_record rec_buffer k

-- The record of the $INDEX_ROOT, next to the host.
pub root_record : (ℕ → Option (List ℕ)) → List ℕ → ℕ → HostRecord → ℕ → Result HostRecord
root_record read_record base base_mft h k =
    if k == h.mft_index
    then ok (record h { own = false })
    else if k == base_mft
    then ok (base_record base base_mft)
    else load_record read_record root_buffer k

pub check_root : IndexHost → Result IndexHost
check_root h = elim (find_attr_in_record h.root.image attribute_index_root index_name) [
  | none ↦ err volume_corrupted
  | some f ↦ ok h
]

-- What follows the loop.
pub resolve_places : (ℕ → Option (List ℕ)) → List ℕ → ℕ → IndexPlaces → Result IndexHost
resolve_places read_record base base_mft s = elim s.root_mft [
  | none ↦ err unsupported
  | some k ↦ do
    (i, has_alloc) ← host_index k s
    h ← host_record read_record base base_mft i
    r ← root_record read_record base base_mft h k
    check_root (record { host = h; root = r; has_alloc = has_alloc })
]

-- A record without an attribute list.
pub resolve_base : List ℕ → ℕ → Result IndexHost
resolve_base base base_mft = elim (find_attr_in_record base attribute_index_root index_name) [
  | none ↦ err unsupported
  | some f ↦ ok (record {
    host = base_record base base_mft;
    root = base_record base base_mft;
    has_alloc = elim (find_attr_in_record base attribute_index_allocation index_name) [
      | none ↦ false
      | some g ↦ true
    ];
  })
]

-- NtfsEfiResolveIndexHost
pub resolve_index_host :
    (io : DiskIo) → ℕ → io.Disk → (ℕ → Option (List ℕ)) → List ℕ → ℕ → Result IndexHost
resolve_index_host io bpc d read_record base base_mft =
    elim (find_attr_in_record base attribute_attribute_list []) [
      | none ↦ resolve_base base base_mft
      | some list ↦
          let n = attr_data_length list.image in
          let items = (read_attr io bpc d list.ctx 0 n).0 in
          if not (leb list_item_size n && leb n (1024 * 1024)) || not (length items == n)
          then err volume_corrupted
          else resolve_places read_record base base_mft (place_loop n items no_places)
    ]
