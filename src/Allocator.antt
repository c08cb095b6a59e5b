-- ===== src/Allocator.antt =====
-- src/ntfs_bitmap.c: NtfsEfiAllocateClusters and NtfsEfiFreeClusters over the in-RAM mirror of
-- $Bitmap (Vcb->VolBitmap), which a mount seeds; a VolBitmap of NULL is the empty list. The reads of
-- record 6 and of its $DATA attribute that the two functions begin with have succeeded where the model
-- starts, NtfsEfiAllocateClusters finds the mirror as long as $Bitmap, and AllocatePool gives the buffer
-- of the patch. The two functions do not look at the results of the I/O on $Bitmap: its outcome is a
-- parameter, BitmapFile.
pub mod Marks
pub mod Alloc
pub mod Free
pub mod Coherent
mod Runs
use ntfs_efi.Prelude.{
  ℕ, zero, suc, ◌+◌, ◌-◌, ◌*◌, ◌/◌, ◌%◌, ◌^◌, bit_and, bit_or, Bool, true, false, ◌&&◌, not, Option,
  none, some, List, length, get_or, set, take, drop, ◌++◌, ltb, leb, ◌==◌, if◌then◌else◌,
}
use ntfs_efi.Prelude.Status.{Result, ok, err, volume_full}
use ntfs_efi.Bitmap.{scan_bitmap_range}

-- The fields of NTFS_EFI_VCB that the allocator keeps.
pub record Vcb : Type 0 where
  pub vol_bitmap : List ℕ
  -- The content of $Bitmap on the disk.
  pub disk_bitmap : List ℕ
  pub total_clusters : ℕ
  pub free_clusters : ℕ
  pub bitmap_alloc_hint : ℕ
  pub bytes_per_cluster : ℕ

-- What NtfsEfiReadAttr and NtfsEfiWriteAttr do on the $DATA of $Bitmap, whether they succeed or not: of
-- the content on the disk and an offset, the buffer of so many bytes after a read, and the content on
-- the disk after a write of the bytes.
pub record BitmapFile : Type 0 where
  pub read_bitmap : List ℕ → ℕ → ℕ → List ℕ
  pub write_bitmap : List ℕ → ℕ → List ℕ → List ℕ

-- `BmBuf[i / 8] |= (UCHAR)(1U << (i % 8))`
pub set_bit : List ℕ → ℕ → List ℕ
set_bit buf i = set buf (i / 8) (bit_or (get_or buf (i / 8) 0) (2 ^ (i % 8)))

-- `VolBitmap[i / 8] &= (UCHAR)~(1U << (i % 8))`
pub clear_bit : List ℕ → ℕ → List ℕ
clear_bit buf i = set buf (i / 8) (bit_and (get_or buf (i / 8) 0) (255 - 2 ^ (i % 8)))

-- The loops over the clusters of a run: n rounds from cluster i on.
pub set_bits : ℕ → ℕ → List ℕ → List ℕ
set_bits zero i buf = buf
set_bits (suc n) i buf = set_bits n (i + 1) (set_bit buf i)

pub clear_bits : ℕ → ℕ → List ℕ → List ℕ
clear_bits zero i buf = buf
clear_bits (suc n) i buf = clear_bits n (i + 1) (clear_bit buf i)

-- BmBits
pub bitmap_bits : Vcb → ℕ
bitmap_bits v =
    let bits = length v.vol_bitmap * 8 in
    if ltb v.total_clusters bits then v.total_clusters else bits

-- StartBit
pub start_bit : Vcb → ℕ
start_bit v = if leb (bitmap_bits v) v.bitmap_alloc_hint then 0 else v.bitmap_alloc_hint

-- `if (RunLen2 > RunLen)`
pub longer_run : ℕ × ℕ → ℕ × ℕ → ℕ × ℕ
longer_run a b = if ltb a.1 b.1 then b else a

-- The two phases of the search: from the hint to the end, then from the start to the hint.
pub find_run : Vcb → ℕ → ℕ × ℕ
find_run v needed =
    let first = scan_bitmap_range v.vol_bitmap (start_bit v) (bitmap_bits v) needed in
    if ltb first.1 needed && not (start_bit v == 0)
    then longer_run first (scan_bitmap_range v.vol_bitmap 0 (start_bit v) needed)
    else first

-- `LastByte - FirstByte + 1`
pub changed_bytes : ℕ → ℕ → ℕ
changed_bytes start count = (start + count - 1) / 8 - start / 8 + 1

-- `NtfsEfiWriteAttr (Vcb, BmCtx, FirstByte, Buf + FirstByte, (ULONG)(LastByte - FirstByte + 1))`
pub write_through : BitmapFile → List ℕ → List ℕ → ℕ → ℕ → List ℕ
write_through f disk buf start count =
    f.write_bitmap disk (start / 8)
      (take (changed_bytes start count % 2 ^ 32) (drop (start / 8) buf))

-- The marking of the run and the counters.
pub take_clusters : BitmapFile → Vcb → ℕ × ℕ → Vcb
take_clusters f v (start, len) = record v {
  vol_bitmap = set_bits len start v.vol_bitmap;
  disk_bitmap = write_through f v.disk_bitmap (set_bits len start v.vol_bitmap) start len;
  free_clusters = if ltb len v.free_clusters then v.free_clusters - len else 0;
  bitmap_alloc_hint = start + len;
}

-- NtfsEfiAllocateClusters: the run and the new VCB, or EFI_VOLUME_FULL and the VCB as it was.
pub allocate_clusters : BitmapFile → Vcb → ℕ → Result ((ℕ × ℕ) × Vcb)
allocate_clusters f v needed =
    let run = find_run v needed in
    if run.1 == 0 then err volume_full else ok (run, take_clusters f v run)

abbrev pub retreat_threshold_bytes : ℕ
retreat_threshold_bytes = 256 * 1024

-- The cursor after a free: a sizeable chunk in front of it pulls it back.
pub retreat : Vcb → ℕ → ℕ → ℕ
retreat v start count =
    if ltb start v.bitmap_alloc_hint
      && leb ((retreat_threshold_bytes + v.bytes_per_cluster - 1) / v.bytes_per_cluster) count
    then start
    else v.bitmap_alloc_hint

-- The read-modify-write of a patch where the mirror does not reach LastByte: `Patch[i / 8 - FirstByte]`
-- for cluster i is the byte of cluster i - FirstByte * 8 of the patch.
pub patch_disk : BitmapFile → List ℕ → ℕ → ℕ → List ℕ
patch_disk f disk start count =
    let patch = f.read_bitmap disk (start / 8) (changed_bytes start count) in
    f.write_bitmap disk (start / 8)
      (take (changed_bytes start count % 2 ^ 32) (clear_bits count (start % 8) patch))

-- NtfsEfiFreeClusters
pub free_clusters : BitmapFile → Vcb → ℕ → ℕ → Vcb
free_clusters f v start count =
    if count == 0
    then v
    else if ltb ((start + count - 1) / 8) (length v.vol_bitmap)
    then record v {
      vol_bitmap = clear_bits count start v.vol_bitmap;
      disk_bitmap = write_through f v.disk_bitmap (clear_bits count start v.vol_bitmap) start count;
      free_clusters = v.free_clusters + count;
      bitmap_alloc_hint = retreat v start count;
    }
    else record v {
      disk_bitmap = patch_disk f v.disk_bitmap start count;
      free_clusters = v.free_clusters + count;
      bitmap_alloc_hint = retreat v start count;
    }
