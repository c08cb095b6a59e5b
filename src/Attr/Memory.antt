-- ===== src/Attr/Memory.antt =====
-- A medium in memory, for runs of the attribute reads and writes.
use ntfs_efi.Prelude.{
  ℕ, zero, suc, ◌+◌, ◌-◌, ◌<◌, ◌≡◌, refl, true, ◌&&◌, some, List, [], ◌∷◌, length, get_or, ltb, leb,
  if◌then◌else◌, arith,
}
use ntfs_efi.Disk.{DiskIo, DiskLaws}

-- A medium that never fails.
abbrev pub bytes_of : (ℕ → ℕ) → ℕ → ℕ → List ℕ
bytes_of d o zero = []
bytes_of d o (suc n) = d o ∷ bytes_of d (o + 1) n

abbrev pub memory : DiskIo
memory = record {
  Disk = ℕ → ℕ;
  read_disk = λ d o n. some (bytes_of d o n);
  write_disk =
      λ d o p. (true, λ k. if leb o k && ltb k (o + length p) then get_or p (k - o) 0 else d k);
}

pub length-bytes_of : (d : ℕ → ℕ) (o n : ℕ) → length (bytes_of d o n) ≡ n
length-bytes_of d o zero = refl
length-bytes_of d o (suc n) = omega (arith, length-bytes_of d (o + 1) n)

get_or-bytes_of : (d : ℕ → ℕ) (o n i : ℕ) → i < n → get_or (bytes_of d o n) i 0 ≡ d (o + i)
get_or-bytes_of d o zero i h = absurd (omega arith)
get_or-bytes_of d o (suc n) zero h = let e : o + 0 ≡ o = omega arith in rw e refl
get_or-bytes_of d o (suc n) (suc i) h =
    let e : o + 1 + i ≡ o + suc i = omega arith in
    rw (← e) (get_or-bytes_of d (o + 1) n i (omega arith))

pub memory-DiskLaws : (size : ℕ) → DiskLaws memory size
memory-DiskLaws size = record {
  byte_at = λ d k. d k;
  read_inside = λ d o n h. (bytes_of d o n, refl, length-bytes_of d o n, get_or-bytes_of d o n);
  write_inside = λ d o p h. refl;
  write_effect = λ d o p k h. refl;
}
