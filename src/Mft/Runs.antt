-- ===== src/Mft/Runs.antt =====
-- A small file record, read from the disk and then from the cache.
use ntfs_efi.Prelude.{◌≡◌, ◌≤◌, refl, List, [], ◌∷◌, ◌++◌, replicate, ℕ, arith}
use ntfs_efi.Prelude.Status.{ok, err, device_error}
use ntfs_efi.Usa.{
  Geometry, read16, write16, record_type, usa_offset, usa_count, record_size, usa_fits, usa_bounds,
  fixup_loop, fixup_record,
}
use ntfs_efi.Mft.{
  fresh_cache, holds, find_slot, store, put_at, cache_put, cache_get, read32, attribute_offset,
  bytes_in_use, bytes_allocated, header_bad, accept_record, check_record, read_cached,
  read_file_record,
}
use ntfs_efi.Mft.Read.{
  IsSound, fresh_cache-IsSound, read_file_record-IsSound, read_file_record_bounds,
  read_file_record_again,
}

abbrev small_records : Geometry
small_records = record {
  bytes_per_file_record = 96;
  bytes_per_index_record = 96;
  bytes_per_sector = 48;
}

-- "FILE", the array of three words at 36, the attributes at 48, 56 bytes of 96 in use.
abbrev header : List ℕ
header =
    0x46 ∷ 0x49 ∷ 0x4c ∷ 0x45 ∷ 36 ∷ 0 ∷ 3 ∷ 0 ∷ 0 ∷ 0 ∷ 0 ∷ 0 ∷ 0 ∷ 0 ∷ 0 ∷ 0 ∷ 1 ∷ 0 ∷ 1 ∷ 0 ∷ 48
    ∷ 0 ∷ 1 ∷ 0 ∷ 56 ∷ 0 ∷ 0 ∷ 0 ∷ 96 ∷ 0 ∷ 0 ∷ 0 ∷ 0 ∷ 0 ∷ 0 ∷ 0 ∷ 7 ∷ 0 ∷ 0x55 ∷ 0xaa ∷ 0x66
    ∷ 0xbb ∷ 0 ∷ 0 ∷ 0 ∷ 0 ∷ []

abbrev on_disk : List ℕ
on_disk = header ++ 7 ∷ 0 ∷ (replicate 46 0 ++ 7 ∷ 0 ∷ [])

abbrev in_memory : List ℕ
in_memory = header ++ 0x55 ∷ 0xaa ∷ (replicate 46 0 ++ 0x66 ∷ 0xbb ∷ [])

abbrev read_mft : ℕ → ℕ → List ℕ
read_mft offset n = on_disk

abbrev read_nothing : ℕ → ℕ → List ℕ
read_nothing offset n = []

methods : Unit {0}
unfolding read16 write16 record_type usa_offset usa_count record_size usa_fits usa_bounds fixup_loop
    fixup_record holds find_slot store put_at cache_put cache_get read32 attribute_offset
    bytes_in_use bytes_allocated header_bad accept_record check_record read_cached read_file_record
methods = tt

reads : (read_file_record small_records read_mft fresh_cache 5).0 ≡ ok in_memory
unfolding methods
reads = refl

fails : (read_file_record small_records read_nothing fresh_cache 5).0 ≡ err device_error
unfolding methods
fails = refl

read_file_record-IsSound_example :
    IsSound small_records (read_file_record small_records read_mft fresh_cache 5).1
read_file_record-IsSound_example =
    read_file_record-IsSound small_records read_mft fresh_cache 5
      (fresh_cache-IsSound small_records)

read_file_record_bounds_example :
    (attribute_offset in_memory ≤ bytes_in_use in_memory)
    × (bytes_in_use in_memory ≤ 96)
    × (bytes_allocated in_memory ≤ 96)
read_file_record_bounds_example =
    read_file_record_bounds small_records read_mft fresh_cache 5 in_memory
      (fresh_cache-IsSound small_records) reads

read_file_record_again_example :
    read_file_record small_records read_nothing
      (read_file_record small_records read_mft fresh_cache 5).1
      5
    ≡ (ok in_memory, (read_file_record small_records read_mft fresh_cache 5).1)
read_file_record_again_example =
    read_file_record_again small_records read_mft read_nothing fresh_cache 5 in_memory
      (fresh_cache-IsSound small_records).cache (omega arith) reads
