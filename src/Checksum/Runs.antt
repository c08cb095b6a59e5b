-- ===== src/Checksum/Runs.antt =====
-- Known digests, and the theorems at concrete inputs.
use ntfs_efi.Prelude.{◌≡◌, refl, List, [], ◌∷◌, ℕ, ◌-◌, arith}
use ntfs_efi.Prelude.Status.{ok}
use ntfs_efi.Checksum.{
  sha256_k, add32, ror32, xor3, load_words, extend_words, round, rounds, add_words, transform,
  initial_words, sha256_init, copy_mem, flush, absorb, update_loop, sha256_update, zero_fill,
  store_length, spill, push_marker, last_block, word_bytes, digest_bytes, sha256_final, crc_bit,
  crc_bits, crc32_update, checksum_file, sha256_to_text, hex_digit,
}
use ntfs_efi.Checksum.File.{reads_of, checksum_of, checksum_file_lem}

methods : Unit {0}
unfolding sha256_k add32 ror32 xor3 load_words extend_words round rounds add_words transform
    initial_words sha256_init copy_mem flush absorb update_loop sha256_update zero_fill store_length
    spill push_marker last_block word_bytes digest_bytes sha256_final crc_bit crc_bits crc32_update
    sha256_to_text hex_digit
methods = tt

-- "abc", whose digest is the first example of FIPS 180-4.
abbrev abc : List ℕ
abc = 97 ∷ 98 ∷ 99 ∷ []

abc_digest :
    sha256_final (sha256_update sha256_init abc)
    ≡ 0xba ∷ 0x78 ∷ 0x16 ∷ 0xbf ∷ 0x8f ∷ 0x01 ∷ 0xcf ∷ 0xea ∷ 0x41 ∷ 0x41 ∷ 0x40 ∷ 0xde ∷ 0x5d
      ∷ 0xae ∷ 0x22 ∷ 0x23 ∷ 0xb0 ∷ 0x03 ∷ 0x61 ∷ 0xa3 ∷ 0x96 ∷ 0x17 ∷ 0x7a ∷ 0x9c ∷ 0xb4 ∷ 0x10
      ∷ 0xff ∷ 0x61 ∷ 0xf2 ∷ 0x00 ∷ 0x15 ∷ 0xad ∷ []
unfolding methods
abc_digest = refl

abc_crc : crc32_update 0xffffffff abc ≡ 0xffffffff - 0x352441c2
unfolding methods
abc_crc = refl

checksum_file_lem_example :
    checksum_file (reads_of (abc ∷ (100 ∷ []) ∷ [])) ≡ ok (checksum_of (97 ∷ 98 ∷ 99 ∷ 100 ∷ []))
checksum_file_lem_example =
    checksum_file_lem (abc ∷ (100 ∷ []) ∷ []) (omega arith, (omega arith, tt))
