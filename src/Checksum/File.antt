-- ===== src/Checksum/File.antt =====
-- ChecksumFile over the reads of a file, and the text of a digest.
use ntfs_efi.Prelude.{
  ℕ, ◌+◌, ◌-◌, ◌*◌, ◌/◌, ◌%◌, ◌^◌, ◌<◌, ◌≡◌, refl, ap, sym, ◌∙◌, List, [], ◌∷◌, ◌++◌, length,
  length-append, append_assoc, append-nil, arith, bit_xor, ltb, if◌then◌else◌, IsBytes, map,
}
use ntfs_efi.Prelude.Status.{Result, ok, err, EfiStatus}
use ntfs_efi.Checksum.{
  crc32_update, crc_bits, FileChecksum, Progress, take_chunk, start_progress, finish, checksum_loop,
  checksum_file, hex_digit, sha256_to_text,
}
use ntfs_efi.Checksum.Stream.{sha256, HasHashed, sha256_init-HasHashed, sha256_update-HasHashed}
use ntfs_efi.Checksum.Padding.{sha256_final-HasHashed}

-- The CRC-32 of the bytes of one piece after those of another.
pub crc32_update-append :
    (crc : ℕ) (p q : List ℕ) → crc32_update crc (p ++ q) ≡ crc32_update (crc32_update crc p) q
unfolding crc32_update
crc32_update-append crc [] q = refl
crc32_update-append crc (b ∷ p) q = crc32_update-append (crc_bits 8 (bit_xor crc b)) p q

-- The reads of a file whose content comes in these pieces: each read gives a byte at least, the last
-- none.
abbrev pub IsFilled : List (List ℕ) → Type 0
IsFilled [] = Unit {0}
IsFilled (p ∷ ps) = (0 < length p) × IsFilled ps

abbrev pub reads_of : List (List ℕ) → List (Result (List ℕ))
reads_of [] = ok [] ∷ []
reads_of (p ∷ ps) = ok p ∷ reads_of ps

abbrev pub joined : List (List ℕ) → List ℕ
joined [] = []
joined (p ∷ ps) = p ++ joined ps

-- What ChecksumFile promises for a file with the content m.
pub checksum_of : List ℕ → FileChecksum
checksum_of m = record {
  size = length m % 2 ^ 64;
  sha256 = sha256 m;
  crc32 = 2 ^ 32 - 1 - crc32_update (2 ^ 32 - 1) m;
}

record HasRead (s : Progress) (m : List ℕ) : Type 0 where
  hashed : HasHashed s.sha m
  summed : s.crc ≡ crc32_update (2 ^ 32 - 1) m
  counted : s.size ≡ length m % 2 ^ 64

take_chunk-HasRead : (s : Progress) (m p : List ℕ) → HasRead s m → HasRead (take_chunk s p) (m ++ p)
unfolding take_chunk
take_chunk-HasRead s m p w = record {
  hashed = sha256_update-HasHashed s.sha m p w.hashed;
  summed = ap (λ t. crc32_update t p) w.summed ∙ sym (crc32_update-append (2 ^ 32 - 1) m p);
  counted = omega (arith, w.counted, length-append m p);
}

finish_lem : (s : Progress) (m : List ℕ) → HasRead s m → finish s ≡ checksum_of m
unfolding finish checksum_of
finish_lem s m w = rw (w.counted, w.summed, sha256_final-HasHashed s.sha m w.hashed) refl

checksum_loop_lem :
    (s : Progress) (m : List ℕ) (ps : List (List ℕ))
    → IsFilled ps
    → HasRead s m
    → checksum_loop s (reads_of ps) ≡ ok (checksum_of (m ++ joined ps))
unfolding checksum_loop
checksum_loop_lem s m [] f w = ap ok (finish_lem s m w ∙ ap checksum_of (sym (append-nil m)))
checksum_loop_lem s m ([] ∷ ps) f w = absurd (omega (arith, f.0))
checksum_loop_lem s m ((b ∷ p) ∷ ps) (f, fs) w =
    checksum_loop_lem (take_chunk s (b ∷ p)) (m ++ b ∷ p) ps fs (take_chunk-HasRead s m (b ∷ p) w)
    ∙ ap (λ t. ok (checksum_of t)) (append_assoc m (b ∷ p) (joined ps))

-- For a file that is read in any pieces that are not empty, ChecksumFile returns the size, the SHA-256 and the CRC-32 of the
-- whole content: SHA-256 as the fold over the blocks of the padded content, CRC-32 in one pass.
pub checksum_file_lem :
    (ps : List (List ℕ)) → IsFilled ps → checksum_file (reads_of ps) ≡ ok (checksum_of (joined ps))
unfolding checksum_file start_progress
checksum_file_lem ps f = checksum_loop_lem _ [] ps f (record {
  hashed = sha256_init-HasHashed;
  summed = unfold crc32_update in refl;
  counted = omega arith;
})

-- The bytes that a text of hexadecimal digits stands for.
abbrev pub hex_value : ℕ → ℕ
hex_value d = if ltb d 58 then d - 48 else d - 87

abbrev pub of_hex : List ℕ → List ℕ
of_hex [] = []
of_hex (d ∷ []) = []
of_hex (d ∷ e ∷ t) = (hex_value d * 16 + hex_value e) ∷ of_hex t

hex_value-hex_digit : (n : ℕ) → n < 16 → hex_value (hex_digit n) ≡ n
unfolding hex_digit
hex_value-hex_digit n h = ground arith

-- The text that ChecksumSha256ToText writes for a list of bytes reads as these bytes again, and has two
-- digits for each.
pub of_hex-sha256_to_text :
    (d : List ℕ)
    → IsBytes d
    → (of_hex (sha256_to_text d) ≡ d) × (length (sha256_to_text d) ≡ 2 * length d)
unfolding sha256_to_text
of_hex-sha256_to_text [] h = (refl, refl)
of_hex-sha256_to_text (b ∷ d) (hb, hd) =
    let (t, n) = of_hex-sha256_to_text d hd in
    let v : hex_value (hex_digit (b / 16)) * 16 + hex_value (hex_digit (b % 16)) ≡ b = omega (
      arith,
      hex_value-hex_digit (b / 16) (omega arith),
      hex_value-hex_digit (b % 16) (omega arith),
    ) in
    (ap (λ x. x ∷ of_hex (sha256_to_text d)) v ∙ ap (λ x. b ∷ x) t, omega arith)

loop_failed :
    (s : Progress) (ps : List (List ℕ)) (e : EfiStatus) (reads : List (Result (List ℕ)))
    → IsFilled ps
    → checksum_loop s (map ok ps ++ err e ∷ reads) ≡ err e
unfolding checksum_loop
loop_failed s [] e reads f = refl
loop_failed s ([] ∷ ps) e reads f = absurd (omega (arith, f.0))
loop_failed s ((b ∷ p) ∷ ps) e reads f = loop_failed (take_chunk s (b ∷ p)) ps e reads f.1

-- A read that fails, after any reads that are not empty, ends ChecksumFile with its status.
pub checksum_file_failed :
    (ps : List (List ℕ)) (e : EfiStatus) (reads : List (Result (List ℕ)))
    → IsFilled ps
    → checksum_file (map ok ps ++ err e ∷ reads) ≡ err e
unfolding checksum_file
checksum_file_failed ps e reads f = loop_failed start_progress ps e reads f
