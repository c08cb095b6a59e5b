-- ===== src/Compressed/Runs.antt =====
-- A compressed attribute of three units, read across them.
use ntfs_efi.Prelude.{
  ℕ, zero, suc, ◌+◌, ◌*◌, ◌%◌, ◌^◌, ◌<◌, ◌≡◌, refl, ap, sym, ◌∙◌, some, List, [], ◌∷◌, length,
  get_elem?, replicate, ◌==◌, if◌then◌else◌, arith,
}
use mathlib.Core.Option.{some-injective}
use ntfs_efi.Attr.Memory.{memory, bytes_of, length-bytes_of}
use ntfs_efi.Lznt1.Samples.{decompress_buffer-small_unit}
use ntfs_efi.Compressed.{unit_at, unit_size, fill_unit, decoded_unit, read_compressed_attr}
use ntfs_efi.Compressed.Units.{IsSlice}
use ntfs_efi.Compressed.Layout.{UnitKind, hole, stored, packed, layout}
use ntfs_efi.Compressed.Merged.{merged, unit_at-merged}
use ntfs_efi.Compressed.Slices.{unit_bytes, read_compressed_attr-IsSlice}

-- Units of 8 bytes: packed into the cluster of 4 bytes at 40, stored at 80, and a hole.
abbrev units : List UnitKind
units = packed 10 1 ∷ stored 20 ∷ hole ∷ []

abbrev medium : ℕ → ℕ
medium k =
    if k == 40 then 1 else if k == 41 then 176 else if k == 42 then 0 else if k == 43 then 65 else k

abbrev content : ℕ → List ℕ
content zero = 65 ∷ replicate 7 0
content (suc zero) = bytes_of medium 80 8
content (suc (suc u)) = replicate 8 0

packed_bytes : unit_bytes memory 4 medium 2 (packed 10 1) ≡ some (content 0)
unfolding decoded_unit fill_unit
packed_bytes = ap (decoded_unit 8) decompress_buffer-small_unit

units_read :
    (u : ℕ)
    → 2 * 4 * u < 5 + 15
    → (x : UnitKind) × (get_elem? units u ≡ some x)
      × (unit_bytes memory 4 medium 2 x ≡ some (content u))
units_read zero h = (packed 10 1, refl, packed_bytes)
units_read (suc zero) h = (stored 20, refl, refl)
units_read (suc (suc zero)) h = (hole, refl, refl)
units_read (suc (suc (suc u))) h = absurd (omega (arith, h))

read_compressed_attr-IsSlice_example :
    IsSlice memory 4 medium 2
      (layout 2 0 units)
      content
      5
      15
      (read_compressed_attr memory 4 medium 1 (layout 2 0 units) 5 15)
read_compressed_attr-IsSlice_example =
    read_compressed_attr-IsSlice memory 4 medium 1 units content 5 15 (omega arith) (omega arith)
      (omega arith) (omega arith)
      (λ o m p e.
        ap length (sym (some-injective (bytes_of medium o m) p e)) ∙ length-bytes_of medium o m)
      ((omega arith, omega arith, omega arith), (omega arith, (tt, tt))) (omega arith) (omega arith)
      units_read

unit_at-merged_example :
    unit_at memory 4 medium 2 (merged 2 3 20) 2
    ≡ memory.read_disk medium (20 * 4 % 2 ^ 64) (unit_size 4 2)
unit_at-merged_example =
    unit_at-merged memory 4 medium 2 3 20 2 (omega arith) (omega arith) (omega arith) (omega arith)
