-- ===== src/Compressed/Merged.antt =====
-- Several stored units in one run.
use native.Mathlib.Nat.{mul-le-mul_right, suc-mul}
use ntfs_efi.Prelude.{
  ℕ, suc, ◌+◌, ◌*◌, ◌%◌, ◌^◌, ◌<◌, ◌≤◌, ◌≡◌, ◌≢◌, refl, ap, ◌∙◌, true, false, List, [], ◌∷◌, leb,
  ◌==◌, arith, eqb_false,
}
use ntfs_efi.Disk.{DiskIo}
use ntfs_efi.Runlist.{NtfsRunEntry, sparse_lbn}
use ntfs_efi.Compressed.{start_unit, scan_unit, unit_size, unit_at, read_unit}
use ntfs_efi.Compressed.Layout.{run_real, add_first, scan_unit-nil}

-- One run of m units of k clusters.
abbrev pub merged : ℕ → ℕ → ℕ → List NtfsRunEntry
merged k m lbn = record { vbn = 0; lbn = lbn; len = m * k } ∷ []

-- Where one run holds several stored units, the unit of any number u is read from the start of the run, as
-- the first unit is, for virtual clusters below 2 ^ 64.
pub unit_at-merged :
    (io : DiskIo) (bpc : ℕ) (d : io.Disk) (k m lbn u : ℕ)
    → 0 < k
    → u < m
    → m * k < 2 ^ 64
    → lbn ≢ sparse_lbn
    → unit_at io bpc d k (merged k m lbn) u ≡ io.read_disk d (lbn * bpc % 2 ^ 64) (unit_size bpc k)
unfolding unit_at read_unit
unit_at-merged io bpc d k m lbn u pos inside small real =
    let last : suc u * k ≤ m * k = mul-le-mul_right k (omega arith) in
    let step : suc u * k ≡ u * k + k = suc-mul u k in
    let start : u * k % 2 ^ 64 ≡ u * k = omega arith in
    let here : (lbn == sparse_lbn) ≡ false = eqb_false _ _ real in
    let enough : leb k (m * k) ≡ true = ground arith in
    let scanned : scan_unit (u * k) k (merged k m lbn) start_unit
        ≡ record { real_clusters = m * k; first_lbn = lbn; saw_sparse = false } =
      run_real (u * k) k (record { vbn = 0; lbn = lbn; len = m * k }) [] start_unit (omega arith)
        (omega arith) (omega arith) (omega arith) real (unfold start_unit in refl)
      ∙ ap (scan_unit (u * k) k []) (add_first (record { vbn = 0; lbn = lbn; len = m * k }) small)
      ∙ scan_unit-nil (u * k) k _ in
    rw start (ap (read_unit io bpc d k) scanned ∙ rw (read_unit, here, enough) refl)
