-- ===== src/Allocator/Alloc.antt =====
-- The outcomes of NtfsEfiAllocateClusters.
use ntfs_efi.Prelude.{
  ℕ, ◌+◌, ◌*◌, ◌^◌, ◌<◌, ◌≤◌, ◌≡◌, ◌≢◌, refl, true, false, ◌&&◌, not, List, length, ltb, ◌==◌,
  arith, if◌then◌else◌, Bool-cases, inl, inr, ltb→lt, ◌⊎◌,
}
use ntfs_efi.Prelude.Status.{ok, err, volume_full}
use ntfs_efi.Bitmap.{is_used, scan_bitmap_range}
use ntfs_efi.Bitmap.Skip.{UsedIn, UsedIn-join}
use ntfs_efi.Bitmap.Scanned.{FreeIn}
use ntfs_efi.Bitmap.Scan.{Found, scan_bitmap_range-Found}
use ntfs_efi.Allocator.{
  Vcb, BitmapFile, bitmap_bits, start_bit, longer_run, find_run, take_clusters, allocate_clusters,
}
use ntfs_efi.Allocator.Marks.{IsBuffer, in_run, is_used-set_bits, set_bits-IsBuffer}

-- The mirror holds bytes, and the volume has fewer than 2 ^ 64 clusters.
pub record IsMounted (v : Vcb) : Type 0 where
  pub size : ℕ
  pub buffer : IsBuffer size v.vol_bitmap
  pub wide : v.total_clusters < 2 ^ 64

pub bitmap_bits-le :
    (v : Vcb) → (bitmap_bits v ≤ v.total_clusters) × (bitmap_bits v ≤ length v.vol_bitmap * 8)
unfolding bitmap_bits
bitmap_bits-le v = ground arith

start_bit-le : (v : Vcb) → start_bit v ≤ bitmap_bits v
unfolding start_bit
start_bit-le v = ground arith

-- Where the scan found nothing, every bit of its range is used.
nothing_free :
    (buf : List ℕ) (from_bit to_bit needed start len : ℕ)
    → 1 ≤ needed
    → len ≡ 0
    → Found buf from_bit to_bit needed start len
    → UsedIn buf from_bit to_bit
nothing_free buf from_bit to_bit needed start len n z f i lo hi =
    elim (Bool-cases (is_used buf i)) [
      | inl u ↦ u
      | inr free ↦ absurd (
          omega (
            arith,
            f.is_longest (omega arith) i (i + 1) lo (omega arith) (omega arith) (only i free),
          ))
    ]
  where
    only : (k : ℕ) → is_used buf k ≡ false → FreeIn buf k (k + 1)
    only k free m a b = let e : m ≡ k = omega arith in rw e free

-- What the two phases of the search find together.
pub record RunFound (v : Vcb) (needed : ℕ) (run : ℕ × ℕ) : Type 0 where
  pub is_free : FreeIn v.vol_bitmap run.0 (run.0 + run.1)
  pub inside : run.1 ≢ 0 → run.0 + run.1 ≤ bitmap_bits v
  pub at_most : run.1 ≤ needed
  pub none_free : run.1 ≡ 0 → UsedIn v.vol_bitmap 0 (bitmap_bits v)

module _ (v : Vcb) (needed : ℕ) (m : IsMounted v) (n : 1 ≤ needed) where
  abbrev first : ℕ × ℕ
  first = scan_bitmap_range v.vol_bitmap (start_bit v) (bitmap_bits v) needed

  abbrev second : ℕ × ℕ
  second = scan_bitmap_range v.vol_bitmap 0 (start_bit v) needed

  first-Found : Found v.vol_bitmap (start_bit v) (bitmap_bits v) needed first.0 first.1
  first-Found =
      scan_bitmap_range-Found v.vol_bitmap (start_bit v) (bitmap_bits v) needed (start_bit-le v)
        (omega (arith, bitmap_bits-le v, m.wide)) n

  second-Found : Found v.vol_bitmap 0 (start_bit v) needed second.0 second.1
  second-Found =
      scan_bitmap_range-Found v.vol_bitmap 0 (start_bit v) needed (omega arith)
        (omega (arith, start_bit-le v, bitmap_bits-le v, m.wide)) n

  first-RunFound : (first.1 ≡ 0 → UsedIn v.vol_bitmap 0 (start_bit v)) → RunFound v needed first
  first-RunFound low = record {
    is_free = first-Found.is_free;
    inside = λ z. (first-Found.in_range z).1;
    at_most = first-Found.at_most;
    none_free = λ z.
        UsedIn-join v.vol_bitmap 0 (start_bit v) (bitmap_bits v) (low z)
          (nothing_free v.vol_bitmap (start_bit v) (bitmap_bits v) needed _ _ n z first-Found);
  }

  second-RunFound : first.1 < second.1 → RunFound v needed second
  second-RunFound more = record {
    is_free = second-Found.is_free;
    inside = λ z. omega (arith, (second-Found.in_range z).1, start_bit-le v);
    at_most = second-Found.at_most;
    none_free = λ z. absurd (omega arith);
  }

  pub find_run-RunFound : RunFound v needed (find_run v needed)
  unfolding find_run longer_run
  find_run-RunFound = elim (Bool-cases (ltb first.1 needed && not (start_bit v == 0))) [
    | inl again ↦ elim (Bool-cases (ltb first.1 second.1)) [
      | inl more ↦ rw (again, more) (second-RunFound (ltb→lt first.1 second.1 more))
      | inr less ↦
          rw (again, less)
            (first-RunFound (λ z.
              nothing_free v.vol_bitmap 0 (start_bit v) needed _ _ n (ground arith) second-Found))
    ]
    | inr once ↦
        rw once (first-RunFound (λ z i lo hi. absurd (ground (arith, first-Found.at_most))))
  ]

-- The allocator's promise for a run and the VCB after it.
pub record IsAllocated (v : Vcb) (needed : ℕ) (run : ℕ × ℕ) (w : Vcb) : Type 0 where
  pub some_clusters : 1 ≤ run.1
  pub at_most : run.1 ≤ needed
  pub on_volume : run.0 + run.1 ≤ v.total_clusters
  pub was_free : (i : ℕ) → in_run run.0 run.1 i ≡ true → is_used v.vol_bitmap i ≡ false
  pub marked :
      (i : ℕ)
      → is_used w.vol_bitmap i ≡ (if in_run run.0 run.1 i then true else is_used v.vol_bitmap i)
  pub cursor : w.bitmap_alloc_hint ≡ run.0 + run.1
  pub mounted : IsMounted w
  pub in_mirror : run.0 + run.1 ≤ mounted.size * 8

allocated :
    (f : BitmapFile) (v : Vcb) (needed : ℕ) (run : ℕ × ℕ)
    → IsMounted v
    → RunFound v needed run
    → run.1 ≢ 0
    → IsAllocated v needed run (take_clusters f v run)
unfolding take_clusters
allocated f v needed (start, len) m found some_len =
    let fits : start + len ≤ m.size * 8 =
      omega (arith, found.inside some_len, bitmap_bits-le v, m.buffer.sized) in
    record {
      some_clusters = omega arith;
      at_most = found.at_most;
      on_volume = omega (arith, found.inside some_len, bitmap_bits-le v);
      was_free = λ i h. found.is_free i (ground arith) (ground arith);
      marked = λ i. is_used-set_bits len start m.size i v.vol_bitmap m.buffer fits;
      cursor = refl;
      mounted = record {
        size = m.size;
        buffer = set_bits-IsBuffer len start m.size v.vol_bitmap m.buffer;
        wide = m.wide;
      };
      in_mirror = fits;
    }

-- On a mounted volume, asking for at least one cluster: either a run of free clusters of the volume
-- comes back, at least one and at most what was asked for; exactly its bits are then marked and all
-- others are as they were, and the cursor stands behind it. Or the volume is reported full, and then
-- every cluster that the bitmap covers is in use. This holds whatever the write of $Bitmap does.
pub allocate_clusters-IsAllocated :
    (f : BitmapFile) (v : Vcb) (needed : ℕ)
    → IsMounted v
    → 1 ≤ needed
    → ((run : ℕ × ℕ) × (w : Vcb) × (allocate_clusters f v needed ≡ ok (run, w))
        × IsAllocated v needed run w)
      ⊎ ((allocate_clusters f v needed ≡ err volume_full) × UsedIn v.vol_bitmap 0 (bitmap_bits v))
unfolding allocate_clusters
allocate_clusters-IsAllocated f v needed m n =
    let found = find_run-RunFound v needed m n in
    elim (Bool-cases ((find_run v needed).1 == 0)) [
      | inl z ↦ inr (rw z, found.none_free (ground arith))
      | inr nz ↦ inl (
        find_run v needed,
        take_clusters f v (find_run v needed),
        rw nz,
        allocated f v needed (find_run v needed) m found (ground arith),
      )
    ]
