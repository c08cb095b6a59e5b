-- ===== src/Usa.antt =====
-- src/ntfs_mft.c: the update sequence array of a FILE record or an INDX block. A record is the list
-- of its bytes; USHORT and ULONG fields are little-endian. The header's fields are read once: the
-- loops write no byte of the header as long as a sector has 16 bytes or more.
pub mod Words
pub mod Loops
pub mod RoundTrip
mod Runs
use ntfs_efi.Prelude.{
  ℕ, zero, suc, ◌+◌, ◌-◌, ◌*◌, ◌/◌, ◌%◌, Bool, true, false, ◌&&◌, ◌||◌, Option, none, some, List,
  get_or, set, ltb, leb, ◌==◌, if◌then◌else◌,
}
use ntfs_efi.Prelude.Status.{Result, ok, err, volume_corrupted}

-- The record sizes of NTFS_EFI_VCB.
pub record Geometry : Type 0 where
  pub bytes_per_file_record : ℕ
  pub bytes_per_index_record : ℕ
  pub bytes_per_sector : ℕ

unfoldable pub read16 : List ℕ → ℕ → ℕ
read16 buf o = get_or buf o 0 + get_or buf (o + 1) 0 * 256

unfoldable pub write16 : List ℕ → ℕ → ℕ → List ℕ
write16 buf o v = set (set buf o (v % 256)) (o + 1) (v / 256 % 256)

unfoldable pub record_type : List ℕ → ℕ
record_type buf = read16 buf 0 + read16 buf 2 * 65536

unfoldable pub usa_offset : List ℕ → ℕ
usa_offset buf = read16 buf 4

unfoldable pub usa_count : List ℕ → ℕ
usa_count buf = read16 buf 6

abbrev pub nrh_file_type : ℕ
nrh_file_type = 0x454c4946

abbrev pub nrh_indx_type : ℕ
nrh_indx_type = 0x58444e49

-- The size of the buffer that a record of this type lives in.
unfoldable pub record_size : Geometry → ℕ → Option ℕ
record_size g t =
    if t == nrh_file_type
    then some g.bytes_per_file_record
    else if t == nrh_indx_type
    then some g.bytes_per_index_record
    else none

-- The bounds on UsaOffset and UsaCount, by size.
unfoldable pub usa_fits : Geometry → ℕ → ℕ → Option ℕ → Bool
usa_fits g offset count none = false
usa_fits g offset count (some size) =
    leb 16 offset && (leb (offset + count * 2) size && leb ((count - 1) * g.bytes_per_sector) size)

-- NtfsUsaBounds
unfoldable pub usa_bounds : Geometry → List ℕ → Bool
usa_bounds g buf = usa_fits g (usa_offset buf) (usa_count buf) (record_size g (record_type buf))

-- The last two bytes of sector i, counted from 1.
abbrev pub sector_end : ℕ → ℕ → ℕ
sector_end bps i = i * bps - 2

-- The loop of NtfsEfiFixupRecord: n rounds from i on, over the array at `usa`.
unfoldable pub fixup_loop : (n i usa bps usn : ℕ) → List ℕ → Result (List ℕ)
fixup_loop zero i usa bps usn buf = ok buf
fixup_loop (suc n) i usa bps usn buf =
    let rest =
      fixup_loop n (i + 1) usa bps usn
        (write16 buf (sector_end bps i) (read16 buf (usa + i * 2))) in
    if read16 buf (sector_end bps i) == usn then rest else err volume_corrupted

-- NtfsEfiFixupRecord. On an error the callers drop the record, so its half-patched bytes are no
-- result here.
unfoldable pub fixup_record : Geometry → List ℕ → Result (List ℕ)
fixup_record g buf =
    if usa_offset buf == 0 || usa_count buf == 0
    then ok buf
    else if usa_bounds g buf
    then fixup_loop (usa_count buf - 1) 1 (usa_offset buf) g.bytes_per_sector
        (read16 buf (usa_offset buf)) buf
    else err volume_corrupted

-- The next update sequence number: 0 and 0xFFFF are passed over.
unfoldable pub next_usn : ℕ → ℕ
next_usn usn = let u = (usn + 1) % 65536 in if u == 0 || u == 0xffff then 1 else u

-- The loop of NtfsEfiUnfixupRecord.
unfoldable pub unfixup_loop : (n i usa bps usn : ℕ) → List ℕ → List ℕ
unfixup_loop zero i usa bps usn buf = buf
unfixup_loop (suc n) i usa bps usn buf =
    unfixup_loop n (i + 1) usa bps usn
      (write16 (write16 buf (usa + i * 2) (read16 buf (sector_end bps i))) (sector_end bps i) usn)

-- NtfsEfiUnfixupRecord; `none` is FALSE.
unfoldable pub unfixup_record : Geometry → List ℕ → Option (List ℕ)
unfixup_record g buf =
    let usn = next_usn (read16 buf (usa_offset buf)) in
    if usa_offset buf == 0 || usa_count buf == 0
    then some buf
    else if usa_bounds g buf
    then some (
        unfixup_loop (usa_count buf - 1) 1 (usa_offset buf) g.bytes_per_sector usn
          (write16 buf (usa_offset buf) usn))
    else none
