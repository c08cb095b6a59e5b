-- ===== src/Compressed/Slices.antt =====
-- A compressed attribute, read over the units of its run list.
use native.Mathlib.Nat.{mul-le-mul_right, mul-pos}
use ntfs_efi.Prelude.{
  ℕ, zero, suc, ◌+◌, ◌-◌, ◌*◌, ◌%◌, ◌^◌, ◌<◌, ◌≤◌, ◌≡◌, refl, ap, subst, sym, ◌∙◌, true, false,
  ◌||◌, Option, none, some, List, [], ◌∷◌, length, get_elem?, replicate, ltb, leb, ◌==◌, arith,
  Bool-cases, Option-cases, inl, inr, length-append, length-replicate, eqb_false,
}
use mathlib.Core.Option.{some-injective}
use ntfs_efi.Disk.{DiskIo}
use ntfs_efi.Runlist.{sparse_lbn}
use ntfs_efi.Lznt1.{Decoded, done, compromised, fault, decompress_buffer}
use ntfs_efi.Lznt1.Bounds.{Fits, decompress_buffer-Fits}
use ntfs_efi.Lznt1.Tokens.{pow2_pos}
use ntfs_efi.Compressed.{
  unit_size, unit_at, read_unit, fill_unit, decoded_unit, read_compressed_attr,
}
use ntfs_efi.Compressed.Units.{IsSlice, AreUnits, compressed_loop-IsSlice}
use ntfs_efi.Compressed.Layout.{
  UnitKind, hole, stored, packed, IsUnit, AllUnits, layout, found, end_of, scan_at,
}

length-fill_unit : (n : ℕ) (q : List ℕ) → length q ≤ n → length (fill_unit n q) ≡ n
unfolding fill_unit
length-fill_unit n q h =
    omega (
      arith,
      length-append q (replicate (n - length q) 0),
      length-replicate {A = ℕ} (n - length q) 0,
    )

length-decoded_unit :
    (n : ℕ) (r : Decoded) (u : List ℕ) → Fits n r → decoded_unit n r ≡ some u → length u ≡ n
unfolding decoded_unit
length-decoded_unit n (done q) u f e =
    ap length (sym (some-injective (fill_unit n q) u e)) ∙ length-fill_unit n q f
length-decoded_unit n (compromised q) u f e = elim (Bool-cases (length q == 0)) [
  | inl empty ↦ cc
  | inr some_bytes ↦
      ap length (sym (some-injective (fill_unit n q) u (rw some_bytes at e)))
      ∙ length-fill_unit n q f
]
length-decoded_unit n fault u f e = absurd f

get_elem?-IsUnit :
    (k : ℕ) (xs : List UnitKind) (u : ℕ) (x : UnitKind)
    → AllUnits k xs
    → get_elem? xs u ≡ some x
    → IsUnit k x
get_elem?-IsUnit k [] u x w e = cc
get_elem?-IsUnit k (y ∷ xs) zero x (w, ws) e = subst (IsUnit k) (some-injective y x e) w
get_elem?-IsUnit k (y ∷ xs) (suc u) x (w, ws) e = get_elem?-IsUnit k xs u x ws e

module _ (io : DiskIo) (bpc : ℕ) (d : io.Disk) (k : ℕ) where
  -- The bytes of a packed unit, from a read of its clusters.
  abbrev pub unpacked : Option (List ℕ) → Option (List ℕ)
  unpacked none = none
  unpacked (some p) = decoded_unit (k * bpc) (decompress_buffer (k * bpc) p)

  -- The bytes of a unit.
  abbrev pub unit_bytes : UnitKind → Option (List ℕ)
  unit_bytes hole = some (replicate (k * bpc) 0)
  unit_bytes (stored lbn) = io.read_disk d (lbn * bpc % 2 ^ 64) (k * bpc)
  unit_bytes (packed lbn c) = unpacked (io.read_disk d (lbn * bpc % 2 ^ 64) (c * bpc))

  module _ (some_bytes : 0 < bpc) (small : k * bpc < 2 ^ 32) where
    unit_size_lem : unit_size bpc k ≡ k * bpc
    unfolding unit_size
    unit_size_lem = omega arith

    read_unit-found : (x : UnitKind) → IsUnit k x → read_unit io bpc d k (found k x) ≡ unit_bytes x
    unfolding read_unit
    read_unit-found hole w = ap (λ n. some (replicate n 0)) unit_size_lem
    read_unit-found (stored lbn) w =
        let real : (lbn == sparse_lbn) ≡ false = eqb_false _ _ w in
        let full : leb k k ≡ true = ground arith in rw (read_unit, real, full, unit_size_lem) refl
    read_unit-found (packed lbn c) (w, some_real, less) =
        let real : (lbn == sparse_lbn) ≡ false = eqb_false _ _ w in
        let under : c * bpc ≤ k * bpc = mul-le-mul_right bpc (omega arith) in
        let over : 0 < c * bpc = mul-pos some_real some_bytes in
        let raw : c * bpc % 2 ^ 64 ≡ c * bpc = omega arith in
        let limit : k * bpc % 2 ^ 32 ≡ k * bpc = omega arith in
        let fits : (c * bpc == 0 || ltb (k * bpc) (c * bpc)) ≡ false = ground arith in
        elim (Option-cases (io.read_disk d (lbn * bpc % 2 ^ 64) (c * bpc))) [
          | inl bad ↦ rw (read_unit, real, raw, unit_size_lem, fits, raw, bad) refl
          | inr (p, good) ↦
              rw (read_unit, real, raw, unit_size_lem, fits, raw, good, unit_size_lem, limit) refl
        ]

    module _ (full : (o n : ℕ) (p : List ℕ) → io.read_disk d o n ≡ some p → length p ≡ n) where
      unpacked_size : (r : Option (List ℕ)) (u : List ℕ) → unpacked r ≡ some u → length u ≡ k * bpc
      unpacked_size none u e = cc
      unpacked_size (some p) u e =
          length-decoded_unit (k * bpc) (decompress_buffer (k * bpc) p) u
            (decompress_buffer-Fits (k * bpc) p) e

      length-unit_bytes : (x : UnitKind) (u : List ℕ) → unit_bytes x ≡ some u → length u ≡ k * bpc
      length-unit_bytes hole u e =
          ap length (sym (some-injective (replicate (k * bpc) 0) u e))
          ∙ length-replicate {A = ℕ} (k * bpc) 0
      length-unit_bytes (stored lbn) u e = full (lbn * bpc % 2 ^ 64) (k * bpc) u e
      length-unit_bytes (packed lbn c) u e = unpacked_size _ u e

      layout-AreUnits :
          (xs : List UnitKind) (content : ℕ → List ℕ) (stop : ℕ)
          → 0 < k
          → AllUnits k xs
          → end_of k 0 xs < 2 ^ 64
          → ((u : ℕ)
              → k * bpc * u < stop
              → (x : UnitKind) × (get_elem? xs u ≡ some x) × (unit_bytes x ≡ some (content u)))
          → AreUnits io bpc d k (layout k 0 xs) content stop
      unfolding unit_at
      layout-AreUnits xs content stop pos w fits units = record {
        filled = rw unit_size_lem (mul-pos pos some_bytes);
        units = λ u lt.
            let (x, at_u, bytes) = units u (rw unit_size_lem at lt) in
            let (found_x, inside) = scan_at k 0 u x xs pos fits w at_u in
            let start : u * k % 2 ^ 64 ≡ 0 + u * k = omega (arith, inside) in
            (
              rw start (
                  ap (read_unit io bpc d k) found_x
                  ∙ read_unit-found x (get_elem?-IsUnit k xs u x w at_u)
                  ∙ bytes),
              length-unit_bytes x (content u) bytes ∙ sym unit_size_lem,
            );
      }

-- For a run list in which every unit has runs of its own, that is a hole, one run of its full size, or a
-- shorter run and a hole, with units of less than 2 ^ 32 bytes, a CompressionUnit from 1 to 16 and virtual
-- clusters and offsets below 2 ^ 64, on a medium whose reads give as many bytes as asked for: where every
-- unit up to the end of the read can be read, and decoded if it is packed, a read at any offset gives all
-- bytes asked for, each from its place in its unit; units have their full size, with zeros behind the
-- bytes of the decoder.
pub read_compressed_attr-IsSlice :
    (io : DiskIo) (bpc : ℕ) (d : io.Disk) (compression_unit : ℕ) (xs : List UnitKind)
    (content : ℕ → List ℕ) (offset n : ℕ)
    → 1 ≤ compression_unit
    → compression_unit ≤ 16
    → 0 < bpc
    → 2 ^ compression_unit * bpc < 2 ^ 32
    → ((o m : ℕ) (p : List ℕ) → io.read_disk d o m ≡ some p → length p ≡ m)
    → AllUnits (2 ^ compression_unit) xs
    → end_of (2 ^ compression_unit) 0 xs < 2 ^ 64
    → offset + n < 2 ^ 64
    → ((u : ℕ)
        → 2 ^ compression_unit * bpc * u < offset + n
        → (x : UnitKind) × (get_elem? xs u ≡ some x)
          × (unit_bytes io bpc d (2 ^ compression_unit) x ≡ some (content u)))
    → IsSlice io bpc d
        (2 ^ compression_unit)
        (layout (2 ^ compression_unit) 0 xs)
        content
        offset
        n
        (read_compressed_attr io bpc d compression_unit
          (layout (2 ^ compression_unit) 0 xs)
          offset
          n)
unfolding read_compressed_attr
read_compressed_attr-IsSlice io bpc d unit xs content offset n one most some_bytes small full w fits
      stop units =
    let taken : (unit == 0 || ltb 16 unit) ≡ false = ground arith in
    rw taken (
      compressed_loop-IsSlice io bpc d (2 ^ unit) (layout (2 ^ unit) 0 xs) content n offset n
        (omega arith) stop
        (layout-AreUnits io bpc d (2 ^ unit) some_bytes small full xs content (offset + n)
          (pow2_pos unit) w fits units))
