-- ===== src/Runlist/Bytes.antt =====
-- Little-endian byte loops: what `read_bytes` makes of the bytes that `write_bytes` stored.
use native.Mathlib.Nat.{pow-le-pow_right, div-add-mod, div-div-eq-div-mul, mod-eq_of_lt}
use native.Mathlib.Numerals.{towards_suc}
use ntfs_efi.Prelude.{
  ℕ, zero, suc, ◌+◌, ◌*◌, ◌/◌, ◌%◌, ◌^◌, ◌<◌, ◌≤◌, ◌≡◌, refl, ap, ◌∙◌, bit_or, some, List, ◌++◌,
  length, arith,
}
use ntfs_efi.Prelude.Bits.{bit_or_high}
use ntfs_efi.Runlist.{read_bytes, write_bytes}

pub pow8_step : (i : ℕ) → 2 ^ ((i + 1) * 8) ≡ 2 ^ (i * 8) * 256
pow8_step i = let e : (i + 1) * 8 ≡ i * 8 + 8 = omega arith in rw e (simp towards_suc (omega arith))

-- A byte at place i stays below the next place.
byte_at_place : (b p : ℕ) → b < 256 → b * p + p ≤ p * 256
byte_at_place b p h = grind arith

pub pow8-le-u64 : (i : ℕ) → i < 8 → 2 ^ (i * 8) * 256 ≤ 2 ^ 64
pow8-le-u64 i h =
    rw (← pow8_step i)
      (pow-le-pow_right {n = 2} (omega arith) {i = (i + 1) * 8} {j = 64} (omega arith))

module _ (x i acc : ℕ) (h : acc < 2 ^ (i * 8)) (place : i < 8) where
  or_byte :
      bit_or acc (x / 2 ^ (i * 8) % 256 * 2 ^ (i * 8) % 2 ^ 64)
      ≡ acc + x / 2 ^ (i * 8) % 256 * 2 ^ (i * 8)
  or_byte =
      let small : x / 2 ^ (i * 8) % 256 * 2 ^ (i * 8) < 2 ^ 64 = omega (
        arith,
        byte_at_place (x / 2 ^ (i * 8) % 256) (2 ^ (i * 8)) (omega arith),
        pow8-le-u64 i place,
      ) in
      ap (bit_or acc) (mod-eq_of_lt small) ∙ bit_or_high (i * 8) acc (x / 2 ^ (i * 8) % 256) h

  grown : acc + x / 2 ^ (i * 8) % 256 * 2 ^ (i * 8) < 2 ^ ((i + 1) * 8)
  grown =
      omega (arith, pow8_step i, byte_at_place (x / 2 ^ (i * 8) % 256) (2 ^ (i * 8)) (omega arith))

-- The byte at place i and what stands above it.
split_place :
    (x i : ℕ)
    → x / 2 ^ (i * 8) * 2 ^ (i * 8)
      ≡ x / 2 ^ (i * 8) % 256 * 2 ^ (i * 8) + x / 2 ^ ((i + 1) * 8) * 2 ^ ((i + 1) * 8)
split_place x i =
    rw (pow8_step i, ← div-div-eq-div-mul x (2 ^ (i * 8)) 256)
      (omega (arith, ap (λ (t : ℕ). t * 2 ^ (i * 8)) (div-add-mod (x / 2 ^ (i * 8)) 256)))

-- Reading the bytes of x from place i up to place j adds just these to the value read so far, and
-- stops in front of the rest.
pub read-write_bytes :
    (n i j x acc : ℕ) (rest : List ℕ)
    → i + n ≡ j
    → j ≤ 8
    → acc < 2 ^ (i * 8)
    → (v : ℕ) × (read_bytes n i acc (write_bytes n i x ++ rest) ≡ some (v, rest))
      × (v + x / 2 ^ (j * 8) * 2 ^ (j * 8) ≡ acc + x / 2 ^ (i * 8) * 2 ^ (i * 8))
unfolding read_bytes write_bytes
read-write_bytes zero i j x acc rest e le h = let i≡j : i ≡ j = omega arith in (acc, refl, rw i≡j)
read-write_bytes (suc n) i j x acc rest e le h =
    let (v, r, s) =
      read-write_bytes n (i + 1) j x (acc + x / 2 ^ (i * 8) % 256 * 2 ^ (i * 8)) rest (omega arith)
        le (grown x i acc h (omega arith)) in
    (v, rw (or_byte x i acc h (omega arith)) r, omega (arith, s, split_place x i))

pub length-write_bytes : (n i x : ℕ) → length (write_bytes n i x) ≡ n
unfolding write_bytes
length-write_bytes zero i x = refl
length-write_bytes (suc n) i x = ap suc (length-write_bytes n (i + 1) x)
