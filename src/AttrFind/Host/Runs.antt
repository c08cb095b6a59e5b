-- ===== src/AttrFind/Host/Runs.antt =====
-- A directory whose $INDEX_ROOT and $INDEX_ALLOCATION lie in two other records.
use ntfs_efi.Prelude.{
  ℕ, ◌≡◌, refl, true, Option, none, some, List, [], ◌∷◌, ◌++◌, replicate, ◌==◌, if◌then◌else◌,
}
use ntfs_efi.Prelude.Status.{ok}
use ntfs_efi.Usa.{read16}
use ntfs_efi.Mft.{read32, read64, attribute_offset, bytes_in_use}
use ntfs_efi.Attr.{read_attr}
use ntfs_efi.Attr.Memory.{memory}
use ntfs_efi.AttrFind.{
  read_chars, same_chars, attr_type, attr_length, is_non_resident, attr_name_length,
  attr_name_offset, value_length, value_offset, resident_ctx, prepare_attr_ctx, attr_fits,
  attr_matches, try_attr, find_loop, attr_area, find_attr_in_record, attr_data_length, item_length,
  item_mft_index,
}
use ntfs_efi.AttrFind.Host.{
  rec_buffer, root_buffer, IndexHost, names_index, note_place, note_item, place_loop, host_index,
  base_record, load_record, host_record, root_record, check_root, resolve_places, resolve_base,
  resolve_index_host,
}
use ntfs_efi.AttrFind.Host.Alias.{IsResolved, resolve_index_host-IsResolved}

abbrev name_bytes : List ℕ
name_bytes = 0x24 ∷ 0 ∷ 0x49 ∷ 0 ∷ 0x33 ∷ 0 ∷ 0x30 ∷ 0 ∷ []

-- An item of 40 bytes, with the name at 26.
abbrev index_item : ℕ → ℕ → List ℕ
index_item type k =
    type ∷ 0 ∷ 0 ∷ 0 ∷ 40 ∷ 0 ∷ 4 ∷ 26 ∷ replicate 8 0
    ++ k ∷ replicate 9 0
    ++ name_bytes
    ++ replicate 6 0

abbrev items : List ℕ
items = index_item 0x90 41 ++ index_item 0xa0 40 ++ index_item 0xb0 40

abbrev list_image : List ℕ
list_image = 0x20 ∷ 0 ∷ 0 ∷ 0 ∷ 144 ∷ replicate 11 0 ++ 120 ∷ 0 ∷ 0 ∷ 0 ∷ 24 ∷ 0 ∷ 0 ∷ 0 ∷ items

-- An empty resident value and the name at 24.
abbrev root_image : List ℕ
root_image =
    0x90 ∷ 0 ∷ 0 ∷ 0 ∷ 32 ∷ 0 ∷ 0 ∷ 0 ∷ 0 ∷ 4 ∷ 24 ∷ replicate 5 0
    ++ 0 ∷ 0 ∷ 0 ∷ 0 ∷ 32 ∷ 0 ∷ 0 ∷ 0 ∷ name_bytes

abbrev record_of : ℕ → List ℕ → List ℕ
record_of n attr = replicate 20 0 ++ 32 ∷ 0 ∷ 0 ∷ 0 ∷ n ∷ replicate 7 0 ++ attr

abbrev base : List ℕ
base = record_of 176 list_image

abbrev read_record : ℕ → Option (List ℕ)
read_record k =
    if k == 41 then some (record_of 64 root_image) else if k == 40 then some [] else none

abbrev no_disk : ℕ → ℕ
no_disk k = 0

abbrev resolved : IndexHost
resolved = record {
  host = record { buffer = rec_buffer; image = []; mft_index = 40; own = true };
  root = record {
    buffer = root_buffer;
    image = record_of 64 root_image;
    mft_index = 41;
    own = true;
  };
  has_alloc = true;
}

resolves : resolve_index_host memory 4 no_disk read_record base 30 ≡ ok resolved
unfolding read16 read32 read64 attribute_offset bytes_in_use read_attr read_chars same_chars
    attr_type attr_length is_non_resident attr_name_length attr_name_offset value_length
    value_offset resident_ctx prepare_attr_ctx attr_fits attr_matches try_attr find_loop attr_area
    find_attr_in_record attr_data_length item_length item_mft_index names_index note_place note_item
    place_loop host_index base_record load_record host_record root_record check_root resolve_places
    resolve_base resolve_index_host
resolves = refl

resolve_index_host-IsResolved_example : IsResolved read_record base 30 resolved
resolve_index_host-IsResolved_example =
    resolve_index_host-IsResolved read_record base 30 memory 4 no_disk resolved resolves
