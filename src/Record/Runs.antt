-- ===== src/Record/Runs.antt =====
-- An MFT record on a small volume, written and read back.
use ntfs_efi.Prelude.{
  ℕ, ◌%◌, ◌≡◌, refl, true, false, none, List, [], ◌∷◌, ◌++◌, replicate, arith, inr,
  all_bytes-IsBytes,
}
use ntfs_efi.Prelude.Status.{ok}
use ntfs_efi.Usa.{
  Geometry, read16, write16, record_type, usa_offset, usa_count, record_size, usa_fits, usa_bounds,
  next_usn, unfixup_loop, unfixup_record,
}
use ntfs_efi.Usa.RoundTrip.{IsProtected}
use ntfs_efi.Attr.{AttrCtx}
use ntfs_efi.Attr.Memory.{memory, memory-DiskLaws}
use ntfs_efi.Attr.Locate.{IsCached}
use ntfs_efi.Attr.Content.{IsReadable}
use ntfs_efi.Attr.Write.{IsWindow}
use ntfs_efi.Mft.{
  fresh_cache, header_bad, attribute_offset, bytes_in_use, bytes_allocated, read32, cache_get,
  holds,
}
use ntfs_efi.Record.{
  Mounted, write_file_record, write_multi_sector_record, fixup_image, fixup_image_loop,
}
use ntfs_efi.Record.RoundTrip.{
  Committed, write_multi_sector_record_lem, IsReread, read-write_file_record,
}

abbrev small_volume : Geometry
small_volume = record {
  bytes_per_file_record = 128;
  bytes_per_index_record = 128;
  bytes_per_sector = 64;
}

-- "FILE", the array of three words at 48, the attributes at 56, 120 bytes in use of 128.
abbrev file_record : List ℕ
file_record =
    0x46 ∷ 0x49 ∷ 0x4c ∷ 0x45 ∷ 48 ∷ 0 ∷ 3 ∷ 0 ∷ replicate 12 0
    ++ 56 ∷ 0 ∷ 1 ∷ 0 ∷ 120 ∷ 0 ∷ 0 ∷ 0 ∷ 128 ∷ 0 ∷ 0 ∷ 0 ∷ replicate 16 0
    ++ 7 ∷ 0 ∷ 0 ∷ 0 ∷ 0 ∷ 0 ∷ replicate 8 9
    ++ 0x55 ∷ 0xaa ∷ replicate 62 5
    ++ 0x66 ∷ 0xbb ∷ []

file_record-IsProtected : IsProtected small_volume 128 file_record
unfolding record_size record_type usa_offset usa_count read16
file_record-IsProtected = record {
  rec = record { bytes = all_bytes-IsBytes file_record refl; sized = refl };
  typed = refl;
  after_header = omega arith;
  counted = omega arith;
  layout = record { room = omega arith; sectors = omega arith; array = omega arith };
}

-- $MFT: 8 records in clusters of 64 bytes from cluster 4 on.
abbrev mft_data : AttrCtx
mft_data = record {
  is_non_resident = true;
  value = [];
  runs = record { vbn = 0; lbn = 4; len = 16 } ∷ [];
  cache_idx = 1;
  cache_offset = 0;
}

abbrev mounted : Mounted memory
mounted = record { disk = λ k. k % 256; mft = mft_data; cache = fresh_cache }

mft_data-IsReadable : IsReadable 64 2048 mft_data.runs
mft_data-IsReadable = record {
  on_disk = (inr (omega arith), tt);
  small = omega arith;
  medium = omega arith;
}

mft_data-IsCached : IsCached 64 mft_data
mft_data-IsCached h = absurd (omega arith)

record_five-IsWindow : IsWindow (memory-DiskLaws 2048) 64 mft_data.runs 640 128
record_five-IsWindow = record {
  mapped = λ o lo hi e. ground arith;
  apart = λ o o' a lo hi lo' hi' p q. ground arith;
}

methods : Unit {0}
unfolding read16 write16 record_type usa_offset usa_count record_size usa_fits usa_bounds next_usn
    unfixup_loop unfixup_record header_bad attribute_offset bytes_in_use bytes_allocated read32
    write_file_record fixup_image fixup_image_loop
methods = tt

accepted :
    header_bad small_volume
      (write_file_record memory small_volume 64 (λ r. none) mounted 5 file_record).memory
    ≡ false
unfolding methods
accepted = refl

not_cached : cache_get fresh_cache.slots 5 ≡ none
unfolding cache_get holds
not_cached = refl

write_multi_sector_record_lem_example :
    (raw out : List ℕ) × (e : ℕ → ℕ) × (write_multi_sector_record memory small_volume 64
        mounted.disk mft_data 640 file_record 128
      ≡ record { status = ok tt; memory = out; disk = e })
    × Committed
        (memory-DiskLaws 2048)
        small_volume
        64
        mft_data
        640
        mounted.disk
        e
        file_record
        raw
        out
write_multi_sector_record_lem_example =
    write_multi_sector_record_lem (memory-DiskLaws 2048) small_volume 64 mounted.disk mft_data 640
      128 file_record file_record-IsProtected mft_data-IsReadable refl (omega arith)
      record_five-IsWindow

read-write_file_record_example :
    IsReread
      (memory-DiskLaws 2048)
      small_volume
      64
      (λ r. none)
      mounted
      5
      file_record
      file_record-IsProtected
      mft_data-IsReadable
      refl
      (omega arith)
      record_five-IsWindow
      (write_file_record memory small_volume 64 (λ r. none) mounted 5 file_record)
      fresh_cache
read-write_file_record_example =
    read-write_file_record (memory-DiskLaws 2048) small_volume 64 (λ r. none) mounted 5 file_record
      file_record-IsProtected mft_data-IsReadable refl (omega arith) record_five-IsWindow
      (omega arith) mft_data-IsCached (record { sized = refl; next_slot = omega arith })
      (omega arith) accepted fresh_cache not_cached
