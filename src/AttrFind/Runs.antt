-- ===== src/AttrFind/Runs.antt =====
-- A record whose $DATA another record has, which the attribute list names.
use ntfs_efi.Prelude.{
  ℕ, ◌≡◌, refl, false, Option, none, some, List, [], ◌∷◌, ◌++◌, replicate, take, length, arith,
  ◌==◌, if◌then◌else◌,
}
use ntfs_efi.Usa.{read16}
use ntfs_efi.Mft.{read32, read64, attribute_offset, bytes_in_use}
use ntfs_efi.Attr.{AttrCtx, read_attr}
use ntfs_efi.Attr.Memory.{memory}
use ntfs_efi.AttrFind.{
  read_chars, same_chars, attr_type, attr_length, is_non_resident, attr_name_length,
  attr_name_offset, value_length, value_offset, attribute_attribute_list, resident_ctx,
  prepare_attr_ctx, attr_fits, attr_matches, Found, try_attr, find_loop, attr_area,
  find_attr_in_record, attr_data_length, item_length, item_matches, item_mft_index, find_remote,
  list_loop, follow_list, find_attribute,
}
use ntfs_efi.AttrFind.Layout.{IsImage, first_attr, find_attr_in_record-first_attr}
use ntfs_efi.AttrFind.Sound.{IsFound, find_attr_in_record-IsFound}
use ntfs_efi.AttrFind.Remote.{IsItem, first_remote, find_attribute-first_remote}

-- A resident attribute with a name of one character at 24 and a value of two bytes at 26.
abbrev data_image : ℕ → List ℕ
data_image c =
    0x80 ∷ 0 ∷ 0 ∷ 0 ∷ 32 ∷ 0 ∷ 0 ∷ 0 ∷ 0 ∷ 1 ∷ 24 ∷ 0 ∷ replicate 4 0
    ++ 2 ∷ 0 ∷ 0 ∷ 0 ∷ 26 ∷ 0 ∷ 0 ∷ 0 ∷ c ∷ 0 ∷ 7 ∷ 8 ∷ replicate 4 0

-- One item of the list: the $DATA of name 5, in record 40.
abbrev list_item : List ℕ
list_item =
    0x80 ∷ 0 ∷ 0 ∷ 0 ∷ 32 ∷ 0 ∷ 1 ∷ 26 ∷ replicate 8 0 ++ 40 ∷ replicate 9 0 ++ 5 ∷ replicate 5 0

abbrev list_image : List ℕ
list_image = 0x20 ∷ 0 ∷ 0 ∷ 0 ∷ 56 ∷ replicate 11 0 ++ 32 ∷ 0 ∷ 0 ∷ 0 ∷ 24 ∷ 0 ∷ 0 ∷ 0 ∷ list_item

abbrev end_mark : List ℕ
end_mark = replicate 4 255 ++ replicate 4 0

abbrev record_of : ℕ → List ℕ → List ℕ
record_of n attrs = replicate 20 0 ++ 32 ∷ 0 ∷ 0 ∷ 0 ∷ n ∷ replicate 7 0 ++ attrs ++ end_mark

abbrev first_record : List ℕ
first_record = record_of 128 (data_image 6 ++ list_image)

abbrev extension_record : List ℕ
extension_record = record_of 104 (data_image 4 ++ data_image 5)

abbrev read_record : ℕ → Option (List ℕ)
read_record k = if k == 40 then some extension_record else none

abbrev data_ctx : AttrCtx
data_ctx = record {
  is_non_resident = false;
  value = 7 ∷ 8 ∷ [];
  runs = [];
  cache_idx = 0;
  cache_offset = 0;
}

abbrev second : Found
second = record { image = data_image 5; ctx = data_ctx; offset = 64 }

abbrev list_found : Found
list_found = record {
  image = list_image;
  ctx = record {
    is_non_resident = false;
    value = list_item;
    runs = [];
    cache_idx = 0;
    cache_offset = 0;
  };
  offset = 64;
}

abbrev no_disk : ℕ → ℕ
no_disk k = 0

methods : Unit {0}
unfolding read16 read32 read64 attribute_offset bytes_in_use read_attr read_chars same_chars
    attr_type attr_length is_non_resident attr_name_length attr_name_offset value_length
    value_offset resident_ctx prepare_attr_ctx attr_fits attr_matches try_attr find_loop attr_area
    find_attr_in_record attr_data_length item_length item_matches item_mft_index find_remote
    list_loop follow_list find_attribute
methods = tt

finds_second : find_attr_in_record extension_record 0x80 (5 ∷ []) ≡ some second
unfolding methods
finds_second = refl

finds_list : find_attr_in_record first_record attribute_attribute_list [] ≡ some list_found
unfolding methods
finds_list = refl

finds_remote : find_attribute memory 4 no_disk read_record first_record 0x80 (5 ∷ []) ≡ some second
unfolding methods
finds_remote = refl

lies_elsewhere : find_attr_in_record first_record 0x80 (5 ∷ []) ≡ none
unfolding methods
lies_elsewhere = refl

data_image-IsImage : (c : ℕ) → IsImage (data_image c)
unfolding methods
data_image-IsImage c = record { header = omega arith; filled = refl; goes_on = refl; named = refl }

list_item-IsItem : IsItem list_item
unfolding methods
list_item-IsItem = record {
  header = omega arith;
  filled = refl;
  goes_on = refl;
  named = omega arith;
}

extension_area : attr_area extension_record ≡ data_image 4 ++ (data_image 5 ++ end_mark)
unfolding methods
extension_area = refl

list_items :
    (read_attr memory 4 no_disk list_found.ctx 0 (attr_data_length list_found.image)).0
    ≡ list_item ++ []
unfolding methods
list_items = refl

list_size : attr_data_length list_found.image ≡ 32
unfolding methods
list_size = refl

find_attr_in_record-first_attr_example :
    find_attr_in_record extension_record 0x80 (5 ∷ [])
    ≡ first_attr 0x80
        (5 ∷ [])
        (data_image 4 ∷ data_image 5 ∷ [])
        (attribute_offset extension_record)
find_attr_in_record-first_attr_example =
    find_attr_in_record-first_attr extension_record 0x80 (5 ∷ []) (data_image 4 ∷ data_image 5 ∷ [])
      end_mark extension_area (data_image-IsImage 4, (data_image-IsImage 5, tt)) refl

find_attr_in_record-IsFound_example :
    IsFound
      (attribute_offset extension_record)
      0x80
      (5 ∷ [])
      (take (bytes_in_use extension_record) extension_record)
      second
    × (is_non_resident second.image ≡ false → length second.ctx.value ≡ value_length second.image)
find_attr_in_record-IsFound_example =
    find_attr_in_record-IsFound extension_record 0x80 (5 ∷ []) second finds_second

find_attribute-first_remote_example :
    find_attribute memory 4 no_disk read_record first_record 0x80 (5 ∷ [])
    ≡ first_remote read_record 0x80 (5 ∷ []) (list_item ∷ [])
find_attribute-first_remote_example =
    find_attribute-first_remote memory 4 no_disk read_record first_record 0x80 (5 ∷ []) list_found
      (list_item ∷ []) [] lies_elsewhere finds_list list_items (omega (arith, list_size))
      (omega (arith, list_size)) (omega (arith, list_size)) (list_item-IsItem, tt) refl
