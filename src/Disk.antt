-- ===== src/Disk.antt =====
-- src/ntfs_diskio.c: NtfsEfiReadDisk and NtfsEfiWriteDisk, which pass a request on to EFI_DISK_IO_PROTOCOL.
-- The protocol is not part of the repository: it is a parameter, with what the UEFI specification says
-- of it as laws. The call counters of the file are left out.
use ntfs_efi.Prelude.{
  ℕ, ◌+◌, ◌-◌, ◌<◌, ◌≤◌, ◌≡◌, Bool, true, ◌&&◌, Option, some, List, length, get_or, leb, ltb,
  if◌then◌else◌,
}

-- ReadDisk gives the bytes or an error, WriteDisk whether it succeeded and the medium after it.
pub record DiskIo : Type 1 where
  pub Disk : Type 0
  pub read_disk : Disk → ℕ → ℕ → Option (List ℕ)
  pub write_disk : Disk → ℕ → List ℕ → Bool × Disk

-- A medium of `size` bytes: a request inside it succeeds, a read gives the bytes that stand there, and a
-- write changes the bytes of its range and no others.
pub record DiskLaws (io : DiskIo) (size : ℕ) : Type 0 where
  pub byte_at : io.Disk → ℕ → ℕ
  pub read_inside :
      (d : io.Disk) (o n : ℕ)
      → o + n ≤ size
      → (p : List ℕ) × (io.read_disk d o n ≡ some p)
        × (length p ≡ n)
        × ((i : ℕ) → i < n → get_or p i 0 ≡ byte_at d (o + i))
  pub write_inside :
      (d : io.Disk) (o : ℕ) (p : List ℕ) → o + length p ≤ size → (io.write_disk d o p).0 ≡ true
  pub write_effect :
      (d : io.Disk) (o : ℕ) (p : List ℕ) (k : ℕ)
      → o + length p ≤ size
      → byte_at (io.write_disk d o p).1 k
        ≡ (if leb o k && ltb k (o + length p) then get_or p (k - o) 0 else byte_at d k)
