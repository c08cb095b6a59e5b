-- ===== src/Allocator/Runs.antt =====
-- A small volume, and the theorems about it.
use ntfs_efi.Prelude.{
  ◌≡◌, ◌⊎◌, refl, false, if◌then◌else◌, [], ◌∷◌, ◌++◌, ◌+◌, length, take, drop, ℕ, arith,
  all_bytes-IsBytes,
}
use ntfs_efi.Prelude.Status.{ok, err, volume_full}
use ntfs_efi.Bitmap.{
  is_used, is_full_byte, is_full_word, skip_words, skip_bytes, skip_full, extend_run, keep_best,
  end_run, take_run, advance, skip_step, scan_loop, scan_result, scan_bitmap_range,
}
use ntfs_efi.Bitmap.Skip.{UsedIn}
use ntfs_efi.Allocator.{
  Vcb, BitmapFile, set_bit, clear_bit, set_bits, clear_bits, bitmap_bits, start_bit, longer_run,
  find_run, take_clusters, changed_bytes, write_through, patch_disk, allocate_clusters, retreat,
  free_clusters,
}
use ntfs_efi.Allocator.Marks.{in_run}
use ntfs_efi.Allocator.Alloc.{IsMounted, IsAllocated, allocate_clusters-IsAllocated}
use ntfs_efi.Allocator.Coherent.{IsCoherent, allocate_clusters-IsCoherent, free_clusters-IsCoherent}
use ntfs_efi.Allocator.Free.{is_used-free_clusters, free-allocate_clusters}

-- 30 clusters; 18 and 19 are free, and 28 and 29; the cursor stands at 20.
abbrev small_volume : Vcb
small_volume = record {
  vol_bitmap = 255 ∷ 255 ∷ 0xf3 ∷ 0x0f ∷ [];
  disk_bitmap = 255 ∷ 255 ∷ 0xf3 ∷ 0x0f ∷ [];
  total_clusters = 30;
  free_clusters = 4;
  bitmap_alloc_hint = 20;
  bytes_per_cluster = 4096;
}

small_volume-IsMounted : IsMounted small_volume
small_volume-IsMounted = record {
  size = 4;
  buffer = record { bytes = all_bytes-IsBytes small_volume.vol_bitmap refl; sized = refl };
  wide = omega arith;
}

abbrev after : Vcb
after = record {
  vol_bitmap = 255 ∷ 255 ∷ 0xf3 ∷ 0x3f ∷ [];
  disk_bitmap = 255 ∷ 255 ∷ 0xf3 ∷ 0x3f ∷ [];
  total_clusters = 30;
  free_clusters = 2;
  bitmap_alloc_hint = 30;
  bytes_per_cluster = 4096;
}

-- A disk that does all I/O.
abbrev disk_file : BitmapFile
disk_file = record {
  read_bitmap = λ disk first n. take n (drop first disk);
  write_bitmap = λ disk first bytes. take first disk ++ (bytes ++ drop (first + length bytes) disk);
}

-- The bitmap on the disk has a byte more than the mirror.
abbrev longer : Vcb
longer = record after { disk_bitmap = 255 ∷ 255 ∷ 0xf3 ∷ 0xff ∷ 255 ∷ [] }

methods : Unit {0}
unfolding is_used is_full_byte is_full_word skip_words skip_bytes skip_full extend_run keep_best
    end_run take_run advance skip_step scan_loop scan_result scan_bitmap_range set_bit clear_bit
    set_bits clear_bits bitmap_bits start_bit longer_run find_run take_clusters changed_bytes
    write_through patch_disk allocate_clusters retreat free_clusters
methods = tt

allocates : allocate_clusters disk_file small_volume 3 ≡ ok ((28, 2), after)
unfolding methods
allocates = refl

allocate_clusters-IsAllocated_example :
    ((run : ℕ × ℕ) × (w : Vcb) × (allocate_clusters disk_file small_volume 3 ≡ ok (run, w))
      × IsAllocated small_volume 3 run w)
    ⊎ ((allocate_clusters disk_file small_volume 3 ≡ err volume_full)
        × UsedIn small_volume.vol_bitmap 0 (bitmap_bits small_volume))
allocate_clusters-IsAllocated_example =
    allocate_clusters-IsAllocated disk_file small_volume 3 small_volume-IsMounted (omega arith)

is_used-free_clusters_example :
    is_used (free_clusters disk_file small_volume 16 2).vol_bitmap 17
    ≡ (if in_run 16 2 17 then false else is_used small_volume.vol_bitmap 17)
unfolding small_volume-IsMounted
is_used-free_clusters_example =
    is_used-free_clusters disk_file small_volume 16 2 17 small_volume-IsMounted (omega arith)

free-allocate_clusters_example :
    is_used (free_clusters disk_file after 28 2).vol_bitmap 29 ≡ is_used small_volume.vol_bitmap 29
free-allocate_clusters_example =
    free-allocate_clusters disk_file disk_file small_volume 3 (28, 2) after small_volume-IsMounted
      (omega arith) allocates 29

allocate_clusters-IsCoherent_example : IsCoherent after
allocate_clusters-IsCoherent_example =
    allocate_clusters-IsCoherent disk_file (λ disk first bytes h. refl) small_volume 3 (28, 2) after
      small_volume-IsMounted (omega arith) (omega arith) refl allocates

free_clusters-IsCoherent_example : IsCoherent (free_clusters disk_file after 28 2)
free_clusters-IsCoherent_example =
    free_clusters-IsCoherent disk_file (λ disk first bytes h. refl) after 28 2 (omega arith)
      (omega arith) refl

-- A run past the end of the mirror is freed on the disk only.
patched :
    free_clusters disk_file longer 30 4
    ≡ record longer { disk_bitmap = 255 ∷ 255 ∷ 0xf3 ∷ 0x3f ∷ 0xfc ∷ []; free_clusters = 6 }
unfolding methods
patched = refl
