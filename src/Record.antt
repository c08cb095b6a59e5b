-- ===== src/Record.antt =====
-- src/ntfs_mft.c: the writes of a multi-sector record: NtfsEfiWriteMultiSectorRecord for an INDX block,
-- NtfsEfiWriteFileRecord and NtfsEfiSyncMftMirror for an MFT record. AllocatePool gives a buffer.
pub mod Image
pub mod RoundTrip
mod Runs
use ntfs_efi.Prelude.{
  ℕ, zero, suc, ◌+◌, ◌-◌, ◌*◌, ◌%◌, ◌^◌, Bool, ◌||◌, ◌&&◌, Option, none, some, List, leb, ◌==◌,
  take, if◌then◌else◌,
}
use ntfs_efi.Prelude.Status.{Result, ok, err, volume_corrupted, device_error}
use ntfs_efi.Disk.{DiskIo}
use ntfs_efi.Usa.{
  Geometry, read16, write16, usa_offset, usa_count, usa_bounds, sector_end, unfixup_record,
}
use ntfs_efi.Attr.{AttrCtx, read_attr, write_attr}
use ntfs_efi.Mft.{MftCache, cache_get, cache_put, read_file_record}

-- The bytes that the loop of NtfsEfiFixupRecord leaves, also where it stops at a torn sector.
pub fixup_image_loop : (n i usa bps usn : ℕ) → List ℕ → List ℕ
fixup_image_loop zero i usa bps usn buf = buf
fixup_image_loop (suc n) i usa bps usn buf =
    let rest =
      fixup_image_loop n (i + 1) usa bps usn
        (write16 buf (sector_end bps i) (read16 buf (usa + i * 2))) in
    if read16 buf (sector_end bps i) == usn then rest else buf

-- The bytes that NtfsEfiFixupRecord leaves.
pub fixup_image : Geometry → List ℕ → List ℕ
fixup_image g buf =
    if usa_offset buf == 0 || usa_count buf == 0
    then buf
    else if usa_bounds g buf
    then fixup_image_loop (usa_count buf - 1) 1 (usa_offset buf) g.bytes_per_sector
        (read16 buf (usa_offset buf)) buf
    else buf

pub written_status : ℕ → ℕ → Result (Unit {0})
written_status written len = if written == len then ok tt else err device_error

-- What a write leaves: the status, the record in memory and the medium.
pub record WriteOutcome (io : DiskIo) : Type 0 where
  pub status : Result (Unit {0})
  pub memory : List ℕ
  pub disk : io.Disk

-- NtfsEfiWriteMultiSectorRecord
pub write_multi_sector_record :
    (io : DiskIo)
    → Geometry
    → (bpc : ℕ) → io.Disk
    → AttrCtx
    → (offset : ℕ) → List ℕ
    → (len : ℕ) → WriteOutcome io
write_multi_sector_record io g bpc d c offset buf len = elim (unfixup_record g buf) [
  | none ↦ record { status = err volume_corrupted; memory = buf; disk = d }
  | some raw ↦
      let (written, e) = write_attr io bpc d c offset (take len raw) in
      record { status = written_status written len; memory = fixup_image g raw; disk = e }
]

-- The part of NTFS_EFI_VCB that a write of an MFT record changes, and the medium.
pub record Mounted (io : DiskIo) : Type 0 where
  pub disk : io.Disk
  pub mft : AttrCtx
  pub cache : MftCache

abbrev pub mft_mirror : ℕ
mft_mirror = 1

abbrev pub byte_offset : Geometry → ℕ → ℕ
byte_offset g mft_index = mft_index * g.bytes_per_file_record % 2 ^ 64

-- The bytes of $MFT as NtfsEfiReadFileRecord reads them.
abbrev pub read_mft : (io : DiskIo) → ℕ → Mounted io → ℕ → ℕ → List ℕ
read_mft io bpc s offset len = (read_attr io bpc s.disk s.mft offset len).0

-- The context after NtfsEfiReadFileRecord: a record of the cache is not read.
pub mft_after_read : (io : DiskIo) → Geometry → ℕ → Mounted io → ℕ → AttrCtx
mft_after_read io g bpc s mft_index = elim (cache_get s.cache.slots mft_index) [
  | none ↦ (read_attr io bpc s.disk s.mft (byte_offset g mft_index) g.bytes_per_file_record).1
  | some image ↦ s.mft
]

-- The write to the $DATA of $MFTMirr, of which `find_data` (NtfsEfiFindAttribute) gives the context.
pub write_mirror :
    (io : DiskIo)
    → Geometry
    → ℕ
    → (List ℕ → Option AttrCtx)
    → io.Disk
    → ℕ
    → List ℕ
    → Result (List ℕ)
    → io.Disk
write_mirror io g bpc find_data d mft_index raw (err e) = d
write_mirror io g bpc find_data d mft_index raw (ok mirror) = elim (find_data mirror) [
  | none ↦ d
  | some c ↦ (write_attr io bpc d c (byte_offset g mft_index) (take g.bytes_per_file_record raw)).1
]

-- NtfsEfiSyncMftMirror
pub sync_mft_mirror :
    (io : DiskIo) → Geometry → ℕ → (List ℕ → Option AttrCtx) → Mounted io → ℕ → List ℕ → Mounted io
sync_mft_mirror io g bpc find_data s mft_index raw =
    let (mirror, cache) = read_file_record g (read_mft io bpc s) s.cache mft_mirror in
    let synced : Mounted io = record {
      disk = write_mirror io g bpc find_data s.disk mft_index raw mirror;
      mft = mft_after_read io g bpc s mft_mirror;
      cache = cache;
    } in
    if leb mft_index 3 then synced else s

-- The status and the record in memory, and what a write of an MFT record leaves of the VCB.
pub record FileOutcome (io : DiskIo) : Type 0 where
  pub status : Result (Unit {0})
  pub memory : List ℕ
  pub after : Mounted io

-- NtfsEfiWriteFileRecord
pub write_file_record :
    (io : DiskIo)
    → Geometry
    → ℕ
    → (List ℕ → Option AttrCtx)
    → Mounted io
    → ℕ
    → List ℕ
    → FileOutcome io
write_file_record io g bpc find_data s mft_index buf = elim (unfixup_record g buf) [
  | none ↦ record { status = err volume_corrupted; memory = buf; after = s }
  | some raw ↦
      let (written, e) =
        write_attr io bpc s.disk s.mft (byte_offset g mft_index)
          (take g.bytes_per_file_record raw) in
      let image = fixup_image g raw in
      let s' : Mounted io = record s { disk = e } in
      let synced =
        if written == g.bytes_per_file_record && leb mft_index 3
        then sync_mft_mirror io g bpc find_data s' mft_index raw
        else s' in
      record {
        status = written_status written g.bytes_per_file_record;
        memory = image;
        after =
            if written == g.bytes_per_file_record
            then record synced { cache = cache_put g synced.cache mft_index image }
            else synced;
      }
]
