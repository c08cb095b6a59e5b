-- ===== src/Allocator/Free.antt =====
-- NtfsEfiFreeClusters, alone and after NtfsEfiAllocateClusters.
use ntfs_efi.Prelude.{
  ℕ, ◌+◌, ◌-◌, ◌*◌, ◌/◌, ◌≤◌, ◌≡◌, sym, subst, ◌∙◌, true, false, ◌==◌, length, ltb, arith,
  if◌then◌else◌, Bool-cases, inl, inr, ◌⊎◌,
}
use ntfs_efi.Prelude.Status.{ok, err, volume_full, ok_injective}
use ntfs_efi.Bitmap.Skip.{UsedIn}
use ntfs_efi.Bitmap.{is_used}
use ntfs_efi.Allocator.{Vcb, BitmapFile, bitmap_bits, allocate_clusters, free_clusters}
use ntfs_efi.Allocator.Marks.{in_run, is_used-clear_bits}
use ntfs_efi.Allocator.Alloc.{IsMounted, IsAllocated, allocate_clusters-IsAllocated}

-- The outcome of a successful allocation, from its equation.
pub IsAllocated-of :
    (f : BitmapFile) (v : Vcb) (needed : ℕ) (run : ℕ × ℕ) (w : Vcb)
    → IsMounted v
    → 1 ≤ needed
    → allocate_clusters f v needed ≡ ok (run, w)
    → IsAllocated v needed run w
IsAllocated-of f v needed run w m n e = go (allocate_clusters-IsAllocated f v needed m n)
  where
    go :
        ((r : ℕ × ℕ) × (u : Vcb) × (allocate_clusters f v needed ≡ ok (r, u))
            × IsAllocated v needed r u)
          ⊎ ((allocate_clusters f v needed ≡ err volume_full)
              × UsedIn v.vol_bitmap 0 (bitmap_bits v))
        → IsAllocated v needed run w
    go (inl (r, u, d, a)) =
        subst (λ (p : (ℕ × ℕ) × Vcb). IsAllocated v needed p.0 p.1) (ok_injective (sym d ∙ e)) a
    go (inr (d, full)) = cc

-- On a mounted volume and for a run inside the bitmap, the clusters of the run are free after
-- NtfsEfiFreeClusters, and no other bit changes, whatever the write of $Bitmap does.
pub is_used-free_clusters :
    (f : BitmapFile) (v : Vcb) (start count i : ℕ) (m : IsMounted v)
    → start + count ≤ m.size * 8
    → is_used (free_clusters f v start count).vol_bitmap i
      ≡ (if in_run start count i then false else is_used v.vol_bitmap i)
unfolding free_clusters
is_used-free_clusters f v start count i m fits = elim (Bool-cases (count == 0)) [
  | inl z ↦ rw z (ground arith)
  | inr nz ↦
      let inside : ltb ((start + count - 1) / 8) (length v.vol_bitmap) ≡ true =
        ground (arith, m.buffer.sized) in
      rw (nz, inside) (is_used-clear_bits count start m.size i v.vol_bitmap m.buffer fits)
]

-- On a mounted volume, freeing the run that an allocation of at least one cluster returned restores
-- every bit of the bitmap, whatever the writes of $Bitmap do.
pub free-allocate_clusters :
    (f g : BitmapFile) (v : Vcb) (needed : ℕ) (run : ℕ × ℕ) (w : Vcb)
    → IsMounted v
    → 1 ≤ needed
    → allocate_clusters f v needed ≡ ok (run, w)
    → (i : ℕ) → is_used (free_clusters g w run.0 run.1).vol_bitmap i ≡ is_used v.vol_bitmap i
free-allocate_clusters f g v needed run w m n e i =
    let a = IsAllocated-of f v needed run w m n e in
    ground (
      arith,
      is_used-free_clusters g w run.0 run.1 i a.mounted a.in_mirror,
      a.marked i,
      a.was_free i,
    )
