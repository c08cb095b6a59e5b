-- ===== src/Runlist/RoundTrip.antt =====
-- NtfsDecodeRunEntry on the output of NtfsEncodeRunEntry.
use native.Mathlib.Nat.{div-eq_of_lt}
use ntfs_efi.Prelude.{
  ℕ, zero, suc, ◌+◌, ◌*◌, ◌/◌, ◌%◌, ◌^◌, ◌<◌, ◌≤◌, ◌≡◌, ap, subst, ◌∙◌, false, bit_or, true, false,
  some, List, [], ◌∷◌, ◌++◌, append_assoc, length, length-append, arith,
}
use ntfs_efi.Prelude.Bits.{bit_or_high}
use ntfs_efi.Runlist.{
  RunEntry, decoded, read_bytes, write_bytes, add_top_byte, decode_offset, decode_fields,
  decode_run_entry, fits_signed, len_bytes_of, off_bytes_of, encode_run_entry,
}
use ntfs_efi.Runlist.Bytes.{read-write_bytes, length-write_bytes}
use ntfs_efi.Runlist.Sizes.{len_bytes_of_lem, off_bytes_of_lem, top_byte}

-- The entry that a length and an offset stand for.
abbrev pub entry : ℕ → ℕ → List ℕ → RunEntry
entry length delta rest = record {
  offset = delta;
  run_length = length;
  is_sparse = false;
  next = rest;
}

-- All bytes of a value that fits them.
read_all :
    (n x : ℕ) (rest : List ℕ)
    → n ≤ 8
    → x < 2 ^ (n * 8)
    → read_bytes n 0 0 (write_bytes n 0 x ++ rest) ≡ some (x, rest)
read_all n x rest le h = all (read-write_bytes n 0 n x 0 rest (omega arith) le (omega arith))
  where
    all :
        (v : ℕ) × (read_bytes n 0 0 (write_bytes n 0 x ++ rest) ≡ some (v, rest))
          × (v + x / 2 ^ (n * 8) * 2 ^ (n * 8) ≡ 0 + x / 2 ^ (0 * 8) * 2 ^ (0 * 8))
        → read_bytes n 0 0 (write_bytes n 0 x ++ rest) ≡ some (x, rest)
    all (v, r, s) =
        let e : v ≡ x = omega (arith, s, ap (λ (t : ℕ). t * 2 ^ (n * 8)) (div-eq_of_lt h)) in
        rw e at r

write_bytes-snoc :
    (n i x : ℕ) → write_bytes (suc n) i x ≡ write_bytes n i x ++ (x / 2 ^ ((i + n) * 8) % 256 ∷ [])
unfolding write_bytes
write_bytes-snoc zero i x = let e : i + 0 ≡ i = omega arith in rw e
write_bytes-snoc (suc n) i x =
    let e : i + suc n ≡ i + 1 + n = omega arith in
    rw e (ap (λ l. x / 2 ^ (i * 8) % 256 ∷ l) (write_bytes-snoc n (i + 1) x))

-- The low bytes of the offset, with its top byte next in line.
low_bytes :
    (j delta : ℕ) (rest : List ℕ)
    → j < 8
    → (v : ℕ) × (read_bytes j 0 0 (write_bytes (suc j) 0 delta ++ rest)
        ≡ some (v, delta / 2 ^ (j * 8) % 256 ∷ rest))
      × (v + delta / 2 ^ (j * 8) * 2 ^ (j * 8) ≡ delta)
low_bytes j delta rest hj =
    let last : List ℕ = delta / 2 ^ (j * 8) % 256 ∷ rest in
    let (v, q, s) = read-write_bytes j 0 j delta 0 last (omega arith) (omega arith) (omega arith) in
    let at_0 : 0 + j ≡ j = omega arith in
    (v, rw (write_bytes-snoc j 0 delta, append_assoc, at_0) q, omega (arith, s))

add_top_byte_lem :
    (len j delta v : ℕ) (rest : List ℕ)
    → j < 8
    → delta < 2 ^ 64
    → fits_signed (j + 1) delta ≡ true
    → v + delta / 2 ^ (j * 8) * 2 ^ (j * 8) ≡ delta
    → add_top_byte len j v (delta / 2 ^ (j * 8) % 256 ∷ rest) ≡ decoded (entry len delta rest)
unfolding add_top_byte
add_top_byte_lem len j delta v rest hj hd f s =
    ap (λ t. decoded (entry len t rest)) (top_byte j delta v hj hd f s)

decode_written :
    (m j len delta : ℕ) (rest : List ℕ)
    → m ≤ 8
    → j < 8
    → len < 2 ^ (m * 8)
    → delta < 2 ^ 64
    → fits_signed (j + 1) delta ≡ true
    → decode_fields m (suc j) (write_bytes m 0 len ++ (write_bytes (suc j) 0 delta ++ rest))
      ≡ decoded (entry len delta rest)
unfolding decode_fields decode_offset
decode_written m j len delta rest hm hj hl hd f =
    let (v, q, s) = low_bytes j delta rest hj in
    rw (decode_fields, read_all m len _ hm hl, decode_offset, q)
      (add_top_byte_lem len j delta v rest hj hd f s)

decode_written_pos :
    (m k len delta : ℕ) (rest : List ℕ)
    → m ≤ 8
    → 1 ≤ k
    → k ≤ 8
    → len < 2 ^ (m * 8)
    → delta < 2 ^ 64
    → fits_signed k delta ≡ true
    → decode_fields m k (write_bytes m 0 len ++ (write_bytes k 0 delta ++ rest))
      ≡ decoded (entry len delta rest)
decode_written_pos m zero len delta rest hm lo hk hl hd f = absurd (omega arith)
decode_written_pos m (suc j) len delta rest hm lo hk hl hd f =
    let e : suc j ≡ j + 1 = omega arith in
    decode_written m j len delta rest hm (omega arith) hl hd
      (subst (λ t. fits_signed t delta ≡ true) e f)

header_fields :
    (m k : ℕ)
    → m ≤ 8
    → k ≤ 8
    → (bit_or m (k * 16) % 256 % 16 ≡ m) × (bit_or m (k * 16) % 256 / 16 % 16 ≡ k)
header_fields m k hm hk = omega (arith, bit_or_high 4 m k (omega arith))

decode_header :
    (m k : ℕ) (p : List ℕ)
    → m ≤ 8
    → k ≤ 8
    → m + k ≤ length p
    → decode_run_entry (bit_or m (k * 16) % 256 ∷ p) ≡ decode_fields m k p
unfolding decode_run_entry
decode_header m k p hm hk h =
    rw ((header_fields m k hm hk).0, (header_fields m k hm hk).1) (ground arith)

-- For a length below 2 ^ 63 and any INT64 offset, decoding the encoded entry, whatever follows it,
-- gives the length, the offset and what follows, and no sparse run.
pub decode-encode_run_entry :
    (len delta : ℕ) (rest : List ℕ)
    → len < 2 ^ 63
    → delta < 2 ^ 64
    → decode_run_entry (encode_run_entry len delta ++ rest) ≡ decoded (entry len delta rest)
unfolding encode_run_entry
decode-encode_run_entry len delta rest hl hd =
    let (m_low, m_high, m_fits) = len_bytes_of_lem len hl in
    let (k_low, k_high, k_fits) = off_bytes_of_lem delta hd in
    decode_header m k (write_bytes m 0 len ++ write_bytes k 0 delta ++ rest) m_high k_high
      (rw (length-append, length-append, length-write_bytes, length-write_bytes) (omega arith))
    ∙ rw append_assoc (decode_written_pos m k len delta rest m_high k_low k_high m_fits hd k_fits)
  where
    m : ℕ
    m = len_bytes_of len

    k : ℕ
    k = off_bytes_of delta
