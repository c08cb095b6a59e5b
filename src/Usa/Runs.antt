-- ===== src/Usa/Runs.antt =====
-- A record of two small sectors, and the theorems about it.
use ntfs_efi.Prelude.{◌≡◌, ◌≢◌, ◌<◌, refl, some, List, [], ◌∷◌, ℕ, arith, all_bytes-IsBytes}
use ntfs_efi.Prelude.Status.{ok, err, volume_corrupted}
use ntfs_efi.Usa.{
  Geometry, read16, write16, record_type, usa_offset, usa_count, record_size, usa_fits, usa_bounds,
  sector_end, fixup_loop, fixup_record, next_usn, unfixup_loop, unfixup_record,
}
use ntfs_efi.Usa.Words.{IsRecord}
use ntfs_efi.Usa.RoundTrip.{IsProtected, Restored, fixup-unfixup_record, fixup_record-torn}

abbrev small_sectors : Geometry
small_sectors = record {
  bytes_per_file_record = 48;
  bytes_per_index_record = 96;
  bytes_per_sector = 24;
}

-- "FILE", the array of three words at 16, an LSN of 0; the array; the sectors end in 0xaa55 and 0xbb66.
abbrev file_record : List ℕ
file_record =
    0x46 ∷ 0x49 ∷ 0x4c ∷ 0x45 ∷ 16 ∷ 0 ∷ 3 ∷ 0 ∷ 0 ∷ 0 ∷ 0 ∷ 0 ∷ 0 ∷ 0 ∷ 0 ∷ 0 ∷ 7 ∷ 0 ∷ 0 ∷ 0 ∷ 0
    ∷ 0 ∷ 0x55 ∷ 0xaa ∷ 1 ∷ 2 ∷ 3 ∷ 4 ∷ 5 ∷ 6 ∷ 7 ∷ 8 ∷ 9 ∷ 10 ∷ 11 ∷ 12 ∷ 13 ∷ 14 ∷ 15 ∷ 16 ∷ 17
    ∷ 18 ∷ 19 ∷ 20 ∷ 21 ∷ 22 ∷ 0x66 ∷ 0xbb ∷ []

file_record-IsRecord : IsRecord 48 file_record
file_record-IsRecord = record { bytes = all_bytes-IsBytes file_record refl; sized = refl }

file_record-IsProtected : IsProtected small_sectors 48 file_record
unfolding record_size record_type usa_offset usa_count read16
file_record-IsProtected = record {
  rec = file_record-IsRecord;
  typed = refl;
  after_header = omega arith;
  counted = omega arith;
  layout = record { room = omega arith; sectors = omega arith; array = omega arith };
}

methods : Unit {0}
unfolding read16 write16 record_type usa_offset usa_count record_size usa_fits usa_bounds fixup_loop
    fixup_record next_usn unfixup_loop unfixup_record
methods = tt

-- The number 7 at the ends of the sectors is not there yet, so the record as it stands is torn.
fixup_torn : fixup_record small_sectors file_record ≡ err volume_corrupted
unfolding methods
fixup_torn = refl

fixup-unfixup_record_example :
    (raw out : List ℕ) × (unfixup_record small_sectors file_record ≡ some raw)
    × (fixup_record small_sectors raw ≡ ok out)
    × Restored small_sectors file_record raw out
fixup-unfixup_record_example =
    fixup-unfixup_record small_sectors 48 file_record file_record-IsProtected

differs : read16 file_record (sector_end 24 1) ≢ read16 file_record (usa_offset file_record)
unfolding methods
differs = omega arith

counts : 1 < usa_count file_record
unfolding methods
counts = omega arith

fixup_record-torn_example : fixup_record small_sectors file_record ≡ err volume_corrupted
fixup_record-torn_example =
    fixup_record-torn small_sectors 48 file_record 1 file_record-IsProtected (omega arith) counts
      differs
