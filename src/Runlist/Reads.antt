-- ===== src/Runlist/Reads.antt =====
-- Which bytes NtfsDecodeRunEntry reads.
use ntfs_efi.Prelude.{
  ℕ, zero, suc, ◌+◌, ◌*◌, ◌%◌, ◌^◌, ◌<◌, ◌≤◌, ◌≡◌, refl, ◌∙◌, false, some, List, [], ◌∷◌, drop,
  length, length-drop, drop-drop, arith,
}
use ntfs_efi.Runlist.{
  RunEntry, decoded, read_bytes, sign_extend, add_top_byte, decode_offset, decode_fields,
}

read_bytes_next :
    (n i acc : ℕ) (p : List ℕ)
    → n ≤ length p
    → (v : ℕ) × (read_bytes n i acc p ≡ some (v, drop n p))
unfolding read_bytes
read_bytes_next zero i acc p h = (acc, refl)
read_bytes_next (suc n) i acc [] h = absurd (omega arith)
read_bytes_next (suc n) i acc (b ∷ p) h = read_bytes_next n (i + 1) _ p (omega arith)

drop-suc-cons : (n : ℕ) (p : List ℕ) → n < length p → (b : ℕ) × (drop n p ≡ b ∷ drop (suc n) p)
drop-suc-cons zero [] h = absurd (omega arith)
drop-suc-cons zero (b ∷ p) h = (b, refl)
drop-suc-cons (suc n) [] h = absurd (omega arith)
drop-suc-cons (suc n) (b ∷ p) h = drop-suc-cons n p (omega arith)

decode_offset_next :
    (len k : ℕ) (p : List ℕ)
    → k ≤ length p
    → (e : RunEntry) × (decode_offset len k p ≡ decoded e) × (e.next ≡ drop k p)
unfolding decode_offset add_top_byte
decode_offset_next len zero p h = (_, refl, refl)
decode_offset_next len (suc k) p h =
    let (low, r) = read_bytes_next k 0 0 p (omega arith) in
    let (b, top) = drop-suc-cons k p (omega arith) in
    (
      record {
        offset = (sign_extend b * 2 ^ (k * 8) % 2 ^ 64 + low) % 2 ^ 64;
        run_length = len;
        is_sparse = false;
        next = drop (suc k) p;
      },
      rw (decode_offset, r, add_top_byte, top) refl,
      refl,
    )

pub decode_fields_next :
    (m k : ℕ) (p : List ℕ)
    → m + k ≤ length p
    → (e : RunEntry) × (decode_fields m k p ≡ decoded e) × (e.next ≡ drop (m + k) p)
unfolding decode_fields
decode_fields_next m k p h =
    let (len, r) = read_bytes_next m 0 0 p (omega arith) in
    let (e, d, n) = decode_offset_next len k (drop m p) (omega (arith, length-drop m p)) in
    (e, rw (decode_fields, r) d, n ∙ drop-drop m k p)
