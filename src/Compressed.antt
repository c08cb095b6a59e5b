-- ===== src/Compressed.antt =====
-- src/ntfs_lznt1.c: NtfsEfiReadCompressedAttr. A compression unit is 2 ^ CompressionUnit clusters. The
-- buffers are allocated; the debug output is left out.
pub mod Units
pub mod Layout
pub mod Slices
pub mod Merged
mod Runs
use ntfs_efi.Prelude.{
  ℕ, zero, suc, ◌+◌, ◌-◌, ◌*◌, ◌/◌, ◌%◌, ◌^◌, min, Bool, true, false, not, ◌&&◌, ◌||◌, Option, none,
  some, List, [], ◌∷◌, ◌++◌, length, take, drop, replicate, ltb, leb, ◌==◌, if◌then◌else◌,
}
use ntfs_efi.Disk.{DiskIo}
use ntfs_efi.Runlist.{NtfsRunEntry, sparse_lbn}
use ntfs_efi.Lznt1.{Decoded, done, compromised, fault, decompress_buffer}

-- RealClusters, FirstLBN and SawSparse.
pub record UnitScan : Type 0 where
  pub real_clusters : ℕ
  pub first_lbn : ℕ
  pub saw_sparse : Bool

pub start_unit : UnitScan
start_unit = record { real_clusters = 0; first_lbn = sparse_lbn; saw_sparse = false }

pub add_real : UnitScan → NtfsRunEntry → UnitScan
add_real s r = record s {
  real_clusters = (s.real_clusters + r.len) % 2 ^ 64;
  first_lbn = if s.first_lbn == sparse_lbn then r.lbn else s.first_lbn;
}

-- The walk over the run list for the unit of k clusters from `start` on.
pub scan_unit : ℕ → ℕ → List NtfsRunEntry → UnitScan → UnitScan
scan_unit start k [] s = s
scan_unit start k (r ∷ rs) s =
    let skipped = scan_unit start k rs s in
    let after_hole = scan_unit start k rs (record s { saw_sparse = true }) in
    let after_run = scan_unit start k rs (add_real s r) in
    if leb ((r.vbn + r.len) % 2 ^ 64) start
    then skipped
    else if leb ((start + k) % 2 ^ 64) r.vbn
    then s
    else if r.lbn == sparse_lbn
    then after_hole
    else if s.saw_sparse
    then s
    else after_run

-- UnitBuf, zeroed before, with the bytes of the decoder in front.
pub fill_unit : ℕ → List ℕ → List ℕ
fill_unit n q = q ++ replicate (n - length q) 0

-- `if (EFI_ERROR (Status) && ValidBytes == 0) break;`: ValidBytes is 0 where no byte was written.
pub decoded_unit : ℕ → Decoded → Option (List ℕ)
decoded_unit n (done q) = some (fill_unit n q)
decoded_unit n (compromised q) = if length q == 0 then none else some (fill_unit n q)
decoded_unit n fault = none

-- CompUnitBytes
pub unit_size : ℕ → ℕ → ℕ
unit_size bpc k = k * bpc % 2 ^ 64

module _ (io : DiskIo) where
  -- The bytes of UnitBuf for the runs that the walk has found; `none` leaves the loop.
  pub read_unit : ℕ → io.Disk → ℕ → UnitScan → Option (List ℕ)
  read_unit bpc d k s =
      let n = unit_size bpc k in
      let raw = s.real_clusters * bpc % 2 ^ 64 in
      elim (s.first_lbn == sparse_lbn) [
        | true ↦ some (replicate n 0)
        | false ↦ elim (not s.saw_sparse && leb k s.real_clusters) [
          | true ↦ io.read_disk d (s.first_lbn * bpc % 2 ^ 64) n
          | false ↦ elim (raw == 0 || ltb n raw) [
            | true ↦ none
            | false ↦ elim (io.read_disk d (s.first_lbn * bpc % 2 ^ 64) raw) [
              | none ↦ none
              | some p ↦ decoded_unit n (decompress_buffer (n % 2 ^ 32) p)
            ]
          ]
        ]
      ]

  -- The unit of number u.
  pub unit_at : ℕ → io.Disk → ℕ → List NtfsRunEntry → ℕ → Option (List ℕ)
  unit_at bpc d k runs u = read_unit bpc d k (scan_unit (u * k % 2 ^ 64) k runs start_unit)

  -- The loop of NtfsEfiReadCompressedAttr: the bytes that it stores in Buffer. Each round takes a byte
  -- at least, so Length rounds are enough.
  pub compressed_loop : ℕ → ℕ → io.Disk → ℕ → List NtfsRunEntry → ℕ → ℕ → List ℕ
  compressed_loop zero bpc d k runs offset remaining = []
  compressed_loop (suc fuel) bpc d k runs offset remaining =
      let n = unit_size bpc k in
      let inner = offset % n in
      let t = min (n - inner) remaining in
      elim (remaining == 0) [
        | true ↦ []
        | false ↦ elim (unit_at bpc d k runs (offset / n)) [
          | none ↦ []
          | some u ↦
              take t (drop inner u)
              ++ compressed_loop fuel bpc d k runs ((offset + t) % 2 ^ 64) (remaining - t)
        ]
      ]

  -- NtfsEfiReadCompressedAttr: the bytes read, whose number it returns.
  pub read_compressed_attr : ℕ → io.Disk → ℕ → List NtfsRunEntry → ℕ → ℕ → List ℕ
  read_compressed_attr bpc d compression_unit runs offset n =
      if compression_unit == 0 || ltb 16 compression_unit
      then []
      else compressed_loop n bpc d (2 ^ compression_unit) runs offset n
