-- ===== src/Bitmap/Runs.antt =====
-- Concrete bitmaps, and the theorems about them.
use ntfs_efi.Prelude.{◌≡◌, refl, some, List, [], ◌∷◌, ℕ, arith}
use ntfs_efi.Bitmap.{
  is_used, is_full_byte, is_full_word, skip_words, skip_bytes, skip_full, extend_run, keep_best,
  end_run, take_run, advance, skip_step, scan_loop, scan_result, scan_bitmap_range, first_user_file,
  skip_aligned, first_free_loop, first_free_bit,
}
use ntfs_efi.Bitmap.Scan.{Found, scan_bitmap_range-Found}
use ntfs_efi.Bitmap.FirstFree.{FirstFree, first_free_bit-FirstFree}

-- Two full bytes, a run of 2 free bits at 18, a run of 4 at 28.
abbrev sample : List ℕ
sample = 255 ∷ 255 ∷ 0xf3 ∷ 0x0f ∷ []

methods : Unit {0}
unfolding is_used is_full_byte is_full_word skip_words skip_bytes skip_full extend_run keep_best
    end_run take_run advance skip_step scan_loop scan_result scan_bitmap_range skip_aligned
    first_free_loop first_free_bit
methods = tt

first_fit : scan_bitmap_range sample 0 32 2 ≡ (18, 2)
unfolding methods
first_fit = refl

longest : scan_bitmap_range sample 0 32 9 ≡ (28, 4)
unfolding methods
longest = refl

first_record : first_free_bit sample 32 ≡ some 18
unfolding methods
first_record = refl

scan_bitmap_range-Found_example :
    Found sample 0 32 9 (scan_bitmap_range sample 0 32 9).0 (scan_bitmap_range sample 0 32 9).1
scan_bitmap_range-Found_example =
    scan_bitmap_range-Found sample 0 32 9 (omega arith) (omega arith) (omega arith)

first_free_bit-FirstFree_example : FirstFree sample first_user_file 32 (first_free_bit sample 32)
first_free_bit-FirstFree_example = first_free_bit-FirstFree sample 32
