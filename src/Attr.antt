-- ===== src/Attr.antt =====
-- src/ntfs_attr.c: NtfsEfiReadAttr and NtfsEfiWriteAttr. UINT64 sums and products have their
-- wrap-around written out. The debug output is left out.
pub mod Extents
pub mod Locate
pub mod Content
pub mod Read
pub mod Write
pub mod RoundTrip
pub mod Memory
mod Runs
use ntfs_efi.Prelude.{
  ℕ, zero, suc, ◌+◌, ◌-◌, ◌*◌, ◌%◌, ◌^◌, min, Bool, true, false, ◌&&◌, ◌||◌, Option, none, some,
  List, [], ◌∷◌, ◌++◌, length, get_or, take, drop, replicate, ltb, leb, ◌==◌, if◌then◌else◌,
}
use ntfs_efi.Disk.{DiskIo}
use ntfs_efi.Runlist.{NtfsRunEntry, sparse_lbn}

-- NTFS_ATTR_CTX: the value of a resident attribute, or the runs and the cache of the last position.
pub record AttrCtx : Type 0 where
  pub is_non_resident : Bool
  pub value : List ℕ
  pub runs : List NtfsRunEntry
  pub cache_idx : ℕ
  pub cache_offset : ℕ

-- `Runs[i].Len * Vcb->BytesPerCluster`
pub run_bytes : ℕ → NtfsRunEntry → ℕ
run_bytes bpc r = r.len * bpc % 2 ^ 64

abbrev pub no_entry : NtfsRunEntry
no_entry = record { vbn = 0; lbn = 0; len = 0 }

-- Runs[CacheIdx]
pub cached_run : AttrCtx → NtfsRunEntry
cached_run c = get_or c.runs c.cache_idx no_entry

-- A cached run that does not hold the offset is dropped.
pub drop_stale : ℕ → AttrCtx → ℕ → AttrCtx
drop_stale bpc c offset =
    if ltb c.cache_idx (length c.runs)
      && (ltb offset c.cache_offset
          || leb ((c.cache_offset + run_bytes bpc (cached_run c)) % 2 ^ 64) offset)
    then record c { cache_idx = length c.runs }
    else c

-- The loop that moves the cache forward, at most once over the runs.
pub seek_forward : ℕ → ℕ → AttrCtx → ℕ → AttrCtx
seek_forward zero bpc c offset = c
seek_forward (suc fuel) bpc c offset =
    let next = (c.cache_offset + run_bytes bpc (cached_run c)) % 2 ^ 64 in
    let later =
      seek_forward fuel bpc (record c { cache_idx = c.cache_idx + 1; cache_offset = next })
        offset in
    if ltb c.cache_idx (length c.runs) then (if ltb offset next then c else later) else c

-- The linear scan: the run that holds the offset and where it starts.
pub scan_runs : ℕ → List NtfsRunEntry → ℕ → ℕ → ℕ → Option (ℕ × ℕ)
scan_runs bpc [] i scan offset = none
scan_runs bpc (r ∷ rs) i scan offset =
    let next = (scan + run_bytes bpc r) % 2 ^ 64 in
    let later = scan_runs bpc rs (i + 1) next offset in
    if ltb offset next then some (i, scan) else later

pub set_cache : AttrCtx → Option (ℕ × ℕ) → AttrCtx
set_cache c none = c
set_cache c (some (i, scan)) = record c { cache_idx = i; cache_offset = scan }

pub rescan : ℕ → AttrCtx → ℕ → AttrCtx
rescan bpc c offset =
    if leb (length c.runs) c.cache_idx then set_cache c (scan_runs bpc c.runs 0 0 offset) else c

-- What a round of NtfsEfiReadAttr does to the cache before it reads.
pub locate : ℕ → AttrCtx → ℕ → AttrCtx
locate bpc c offset =
    rescan bpc (seek_forward (length c.runs) bpc (drop_stale bpc c offset) offset) offset

-- `if (RunOffsetBytes + TakeBytes == RunLenBytes)`
pub advance : ℕ → AttrCtx → ℕ → ℕ → AttrCtx
advance bpc c inner n =
    if inner + n == run_bytes bpc (cached_run c)
    then record c {
      cache_idx = c.cache_idx + 1;
      cache_offset = (c.cache_offset + run_bytes bpc (cached_run c)) % 2 ^ 64;
    }
    else c

-- `(UINT64)Runs[i].LBN * Vcb->BytesPerCluster + RunOffsetBytes`
pub disk_offset : ℕ → NtfsRunEntry → ℕ → ℕ
disk_offset bpc r inner = (r.lbn * bpc + inner) % 2 ^ 64

-- RunOffsetBytes and TakeBytes.
pub run_offset : ℕ → ℕ → ℕ
run_offset offset start = (offset + 2 ^ 64 - start) % 2 ^ 64

pub take_bytes : ℕ → ℕ → ℕ → ℕ
take_bytes len inner remaining = min ((len + 2 ^ 64 - inner) % 2 ^ 64) remaining

pub prepend_read : List ℕ → List ℕ × AttrCtx → List ℕ × AttrCtx
prepend_read p (q, c) = (p ++ q, c)

module _ (io : DiskIo) where
  -- The bytes of a part of a run: zeros if it is sparse.
  pub read_run : ℕ → io.Disk → NtfsRunEntry → ℕ → ℕ → Option (List ℕ)
  read_run bpc d r inner n =
      if r.lbn == sparse_lbn
      then some (replicate n 0)
      else io.read_disk d (disk_offset bpc r inner) n

  -- The loop of NtfsEfiReadAttr: the bytes that it stores in Buffer, and the cache. Each round takes a
  -- byte at least, so Length rounds are enough.
  pub read_loop : ℕ → ℕ → io.Disk → AttrCtx → ℕ → ℕ → List ℕ × AttrCtx
  read_loop zero bpc d c offset remaining = ([], c)
  read_loop (suc fuel) bpc d c offset remaining =
      let t = locate bpc c offset in
      let inner = run_offset offset t.cache_offset in
      let n = take_bytes (run_bytes bpc (cached_run t)) inner remaining in
      elim (remaining == 0) [
        | true ↦ ([], c)
        | false ↦ elim (leb (length t.runs) t.cache_idx) [
          | true ↦ ([], t)
          | false ↦ elim (read_run bpc d (cached_run t) inner n) [
            | none ↦ ([], t)
            | some p ↦ prepend_read p (
                read_loop fuel bpc d (advance bpc t inner n) ((offset + n) % 2 ^ 64)
                  (remaining - n))
          ]
        ]
      ]

  -- NtfsEfiReadAttr: the bytes read, whose number it returns, and the context after it.
  unfoldable pub read_attr : ℕ → io.Disk → AttrCtx → ℕ → ℕ → List ℕ × AttrCtx
  read_attr bpc d c offset n =
      if c.is_non_resident
      then read_loop n bpc d c offset n
      else if leb (length c.value) offset
      then ([], c)
      else (take n (drop offset c.value), c)

  -- The loop of NtfsEfiWriteAttr, over the bytes that are left: the number written and the disk.
  pub write_loop : ℕ → ℕ → List NtfsRunEntry → io.Disk → ℕ → List ℕ → ℕ → ℕ × io.Disk
  write_loop zero bpc runs d offset p written = (written, d)
  write_loop (suc fuel) bpc runs d offset p written = elim (length p == 0) [
    | true ↦ (written, d)
    | false ↦ elim (scan_runs bpc runs 0 0 offset) [
      | none ↦ (written, d)
      | some (i, scan) ↦
          let r = get_or runs i no_entry in
          let inner = run_offset offset scan in
          let n = take_bytes (run_bytes bpc r) inner (length p) in
          let w = io.write_disk d (disk_offset bpc r inner) (take n p) in
          elim (r.lbn == sparse_lbn) [
            | true ↦ (written, d)
            | false ↦ elim w.0 [
              | false ↦ (written, w.1)
              | true ↦ write_loop fuel bpc runs w.1 ((offset + n) % 2 ^ 64) (drop n p) (written + n)
            ]
          ]
    ]
  ]

  -- NtfsEfiWriteAttr: the number of bytes written, and the disk. A resident attribute is refused.
  pub write_attr : ℕ → io.Disk → AttrCtx → ℕ → List ℕ → ℕ × io.Disk
  write_attr bpc d c offset p =
      if c.is_non_resident then write_loop (length p) bpc c.runs d offset p 0 else (0, d)
