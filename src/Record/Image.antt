-- ===== src/Record/Image.antt =====
-- The bytes that a fixup leaves.
use ntfs_efi.Prelude.{ℕ, zero, suc, ◌+◌, ◌≡◌, List, Bool-cases, ◌==◌, ◌||◌, inl, inr}
use ntfs_efi.Prelude.Status.{ok, ok_injective}
use ntfs_efi.Usa.{
  Geometry, read16, usa_offset, usa_count, usa_bounds, sector_end, fixup_loop, fixup_record,
}
use ntfs_efi.Record.{fixup_image_loop, fixup_image}

fixup_image_loop_ok :
    (n i usa bps usn : ℕ) (buf out : List ℕ)
    → fixup_loop n i usa bps usn buf ≡ ok out
    → fixup_image_loop n i usa bps usn buf ≡ out
unfolding fixup_loop fixup_image_loop
fixup_image_loop_ok zero i usa bps usn buf out e = ok_injective e
fixup_image_loop_ok (suc n) i usa bps usn buf out e =
    elim (Bool-cases (read16 buf (sector_end bps i) == usn)) [
      | inl same ↦ rw same (fixup_image_loop_ok n (i + 1) usa bps usn _ out (rw same at e))
      | inr torn ↦ cc
    ]

-- Where the fixup succeeds, its result is what it leaves in the buffer.
pub fixup_image_ok :
    (g : Geometry) (buf out : List ℕ) → fixup_record g buf ≡ ok out → fixup_image g buf ≡ out
unfolding fixup_record fixup_image
fixup_image_ok g buf out e = elim (Bool-cases (usa_offset buf == 0 || usa_count buf == 0)) [
  | inl none_here ↦ rw none_here (ok_injective (rw none_here at e))
  | inr there ↦ elim (Bool-cases (usa_bounds g buf)) [
    | inl fits ↦ rw (there, fits) (fixup_image_loop_ok _ _ _ _ _ buf out (rw (there, fits) at e))
    | inr wild ↦ cc
  ]
]
