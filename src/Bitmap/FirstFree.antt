-- ===== src/Bitmap/FirstFree.antt =====
-- The answer of NtfsFirstFreeBit.
use ntfs_efi.Prelude.{
  ℕ, zero, suc, ◌+◌, ◌-◌, ◌%◌, ◌<◌, ◌≤◌, ◌≡◌, true, false, Option, none, some, List, leb, ◌==◌,
  leb→le, arith, Bool-cases, inl, inr,
}
use ntfs_efi.Bitmap.{is_used, skip_aligned, first_free_loop, first_free_bit, first_user_file}
use ntfs_efi.Bitmap.Skip.{UsedIn, UsedIn-join, skip_full-Skipped}

-- The answer to a search of the bits from `first` up to `limit`.
pub data FirstFree (buf : List ℕ) (first limit : ℕ) : Option ℕ → Type 0 where
  all_taken : UsedIn buf first limit → FirstFree buf first limit none
  found :
      (b : ℕ)
      → first ≤ b
      → b < limit
      → is_used buf b ≡ false
      → UsedIn buf first b
      → FirstFree buf first limit (some b)

extend_back :
    (buf : List ℕ) (a b limit : ℕ) (r : Option ℕ)
    → a ≤ b
    → UsedIn buf a b
    → FirstFree buf b limit r
    → FirstFree buf a limit r
extend_back buf a b limit _ le u (all_taken v) = all_taken (UsedIn-join buf a b limit u v)
extend_back buf a b limit _ le u (found c lo hi f v) =
    found c (omega arith) hi f (UsedIn-join buf a b c u v)

skip_aligned-UsedIn :
    (buf : List ℕ) (limit bit : ℕ)
    → (bit ≤ skip_aligned buf limit bit) × UsedIn buf bit (skip_aligned buf limit bit)
unfolding skip_aligned
skip_aligned-UsedIn buf limit bit = elim (Bool-cases (bit % 8 == 0)) [
  | inl at ↦ let k = skip_full-Skipped buf limit bit (ground arith) in rw at (k.forward, k.used)
  | inr off ↦ rw off (omega arith, λ i lo hi. absurd (omega arith))
]

next_UsedIn : (buf : List ℕ) (b : ℕ) → is_used buf b ≡ true → UsedIn buf b (b + 1)
next_UsedIn buf b u i lo hi = let e : i ≡ b = omega arith in rw e u

first_free_loop-FirstFree :
    (fuel : ℕ) (buf : List ℕ) (limit bit : ℕ)
    → limit ≤ bit + fuel
    → FirstFree buf bit limit (first_free_loop fuel buf limit bit)
unfolding first_free_loop
first_free_loop-FirstFree zero buf limit bit h = all_taken (λ i lo hi. absurd (omega arith))
first_free_loop-FirstFree (suc fuel) buf limit bit h =
    let (on, u) = skip_aligned-UsedIn buf limit bit in
    let b = skip_aligned buf limit bit in
    elim (Bool-cases (leb limit bit)) [
      | inl done ↦
          let le : limit ≤ bit = leb→le limit bit done in
          rw done (all_taken (λ i lo hi. absurd (omega arith)))
      | inr go ↦ elim (Bool-cases (leb limit b)) [
        | inl past ↦
            let le : limit ≤ b = leb→le limit b past in
            rw (go, past) (all_taken (λ i lo hi. u i lo (omega arith)))
        | inr more ↦ elim (Bool-cases (is_used buf b)) [
          | inl used ↦
              rw (go, more, used)
                (extend_back buf bit (b + 1) limit _ (omega arith)
                  (UsedIn-join buf bit b (b + 1) u (next_UsedIn buf b used))
                  (first_free_loop-FirstFree fuel buf limit (b + 1) (omega arith)))
          | inr free ↦
              let lt : b < limit = ground arith in rw (go, more, free) (found b on lt free u)
        ]
      ]
    ]

-- NtfsFirstFreeBit returns the lowest clear bit from record 16 up to the limit, and FALSE exactly
-- when all of these bits are set.
pub first_free_bit-FirstFree :
    (buf : List ℕ) (limit : ℕ) → FirstFree buf first_user_file limit (first_free_bit buf limit)
unfolding first_free_bit
first_free_bit-FirstFree buf limit =
    first_free_loop-FirstFree (limit - first_user_file) buf limit first_user_file (omega arith)
