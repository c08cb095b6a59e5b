-- ===== src/Runlist/Sizes.antt =====
-- LenBytes and OffBytes of NtfsEncodeRunEntry.
use mathlib.Core.Logic.{dif_pos}
use native.Mathlib.Bridge.{le_prop}
use mathlib.Core.WellFounded.{Acc}
use ntfs_efi.Prelude.{
  ℕ, zero, suc, ◌+◌, ◌-◌, ◌*◌, ◌/◌, ◌%◌, ◌^◌, ◌<◌, ◌≤◌, ◌≡◌, true, Bool-cases, inl, inr, dec_lt,
  leb, arith, tests,
}
use ntfs_efi.Prelude.Order.{lt_wf}
use ntfs_efi.Runlist.{
  count_bytes, byte_shrinks, widen, len_bytes_of, fits_signed, off_bytes_from, off_bytes_of,
  sign_extend,
}
use ntfs_efi.Runlist.Bytes.{pow8_step}

count_bytes_stop : (l : ℕ) (w : Acc ◌<◌ l) → l / 256 ≡ 0 → count_bytes l w ≡ 1
unfolding count_bytes
count_bytes_stop l (Acc.intro _ smaller) h = grind arith

count_bytes_next :
    (l : ℕ) (w : Acc ◌<◌ l)
    → 0 < l / 256
    → (v : Acc ◌<◌ (l / 256)) × (count_bytes l w ≡ suc (count_bytes (l / 256) v))
unfolding count_bytes
count_bytes_next l (Acc.intro _ smaller) h =
    (smaller _ (byte_shrinks l h), dif_pos (dec_lt 0 (l / 256)) le_prop h _ _)

suc_eq : (n : ℕ) → suc n ≡ n + 1
suc_eq n = omega arith

count_bytes_lem :
    (k l : ℕ) (w : Acc ◌<◌ l)
    → l < 2 ^ ((k + 1) * 8)
    → (1 ≤ count_bytes l w) × (count_bytes l w ≤ k + 1) × (l < 2 ^ (count_bytes l w * 8))
count_bytes_lem zero l w h = rw (count_bytes_stop l w (omega arith)) (omega arith)
count_bytes_lem (suc k) l w h = elim (dec_lt 0 (l / 256)) [
  | yes more ↦
      let k≡ : suc k ≡ k + 1 = omega arith in
      let fits_suc : l < 2 ^ ((k + 1 + 1) * 8) = rw k≡ at h in
      let (v, e) = count_bytes_next l w more in
      let (low, high, fits) =
        count_bytes_lem k (l / 256) v (omega (arith, fits_suc, pow8_step (k + 1))) in
      rw e (
        omega arith,
        omega arith,
        rw (suc_eq (count_bytes (l / 256) v)) (omega (arith, pow8_step (count_bytes (l / 256) v))),
      )
  | no done ↦ rw (count_bytes_stop l w (omega arith)) (omega arith)
]

-- A value below 2 ^ 63 whose top byte in n bytes has its high bit set takes fewer than 8.
top_bit_room : (n l : ℕ) → n ≤ 8 → l < 2 ^ 63 → leb 128 (l / 2 ^ ((n - 1) * 8) % 256) ≡ true → n ≤ 7
top_bit_room n l high h top = elim (dec_lt n 8) [
  | yes p ↦ omega arith
  | no p ↦
      let e : n ≡ 8 = omega arith in
      let t : leb 128 (l / 2 ^ 56 % 256) ≡ true = rw e at top in absurd (omega (tests, t))
]

widen_lem :
    (n l : ℕ)
    → l < 2 ^ 63
    → (1 ≤ n) × (n ≤ 8) × (l < 2 ^ (n * 8))
    → (1 ≤ widen n l) × (widen n l ≤ 8) × (l < 2 ^ (widen n l * 8))
unfolding widen
widen_lem n l h (low, high, fits) = elim (Bool-cases (leb 128 (l / 2 ^ ((n - 1) * 8) % 256))) [
  | inl top ↦
      rw top (omega arith, omega (arith, top_bit_room n l high h top), omega (arith, pow8_step n))
  | inr top ↦ rw top (low, high, fits)
]

pub len_bytes_of_lem :
    (l : ℕ)
    → l < 2 ^ 63
    → (1 ≤ len_bytes_of l) × (len_bytes_of l ≤ 8) × (l < 2 ^ (len_bytes_of l * 8))
unfolding len_bytes_of
len_bytes_of_lem l h = widen_lem _ l h (count_bytes_lem 7 l (lt_wf.apply l) (omega arith))

pub off_bytes_of_lem :
    (d : ℕ)
    → d < 2 ^ 64
    → (1 ≤ off_bytes_of d) × (off_bytes_of d ≤ 8) × (fits_signed (off_bytes_of d) d ≡ true)
unfolding off_bytes_of off_bytes_from fits_signed
off_bytes_of_lem d h = ground arith

-- The sign-extended top byte at place j completes the offset.
pub top_byte :
    (j d v : ℕ)
    → j < 8
    → d < 2 ^ 64
    → fits_signed (j + 1) d ≡ true
    → v + d / 2 ^ (j * 8) * 2 ^ (j * 8) ≡ d
    → (sign_extend (d / 2 ^ (j * 8) % 256) * 2 ^ (j * 8) % 2 ^ 64 + v) % 2 ^ 64 ≡ d
unfolding fits_signed sign_extend
top_byte zero d v lt h f e = ground arith
top_byte (suc zero) d v lt h f e = ground arith
top_byte (suc (suc zero)) d v lt h f e = ground arith
top_byte (suc (suc (suc zero))) d v lt h f e = ground arith
top_byte (suc (suc (suc (suc zero)))) d v lt h f e = ground arith
top_byte (suc (suc (suc (suc (suc zero))))) d v lt h f e = ground arith
top_byte (suc (suc (suc (suc (suc (suc zero)))))) d v lt h f e = ground arith
top_byte (suc (suc (suc (suc (suc (suc (suc zero))))))) d v lt h f e = ground arith
top_byte (suc (suc (suc (suc (suc (suc (suc (suc j)))))))) d v lt h f e = absurd (omega arith)
