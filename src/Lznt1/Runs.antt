-- ===== src/Lznt1/Runs.antt =====
-- Runs of the LZNT1 decoder.
use ntfs_efi.Prelude.{ℕ, ◌≡◌, ◌-◌, refl, List, [], ◌∷◌, get_or, arith, IsBytes}
use ntfs_efi.Lznt1.{
  done, compromised, max_displacement, raise_format, get_length, get_displacement, length_bits,
  copy_match, clip_length, flag_set, copy_token, literal_byte, item, refill, next_flags, chunk_loop,
  decompress_chunk, chunk_header, chunk_size, chunk_cap, one_chunk, buffer_loop, decompress_buffer,
}
use ntfs_efi.Lznt1.Format.{copy_match_lem}
use ntfs_efi.Lznt1.Bounds.{Fits, decompress_buffer-Fits}
use ntfs_efi.Lznt1.Tokens.{
  Token, literal, match_of, expand, expand_all, displacement_bits, token_value, token_bytes,
  is_match, flag_byte, encode_from, encode_chunk, AreTokens,
}
use ntfs_efi.Lznt1.RoundTrip.{decompress_chunk-encode_chunk}

-- Two literals, a match that overlaps itself, and a literal.
abbrev tokens : List Token
tokens = literal 65 ∷ literal 66 ∷ match_of 6 2 ∷ literal 67 ∷ []

tokens-bytes : encode_chunk tokens ≡ 4 ∷ 65 ∷ 66 ∷ 3 ∷ 16 ∷ 67 ∷ []
unfolding encode_chunk encode_from flag_byte is_match token_bytes token_value displacement_bits
    expand copy_match
tokens-bytes = refl

tokens-expanded : expand_all [] tokens ≡ 65 ∷ 66 ∷ 65 ∷ 66 ∷ 65 ∷ 66 ∷ 65 ∷ 66 ∷ 67 ∷ []
unfolding expand_all expand copy_match
tokens-expanded = refl

tokens-AreTokens : AreTokens 4096 [] tokens
unfolding expand displacement_bits copy_match
tokens-AreTokens = (
  (omega arith, omega arith),
  (
    (omega arith, omega arith),
    (
      (omega arith, omega arith, omega arith, omega arith, omega arith),
      ((omega arith, omega arith), tt),
    ),
  ),
)

decompress_chunk-encode_chunk_example :
    IsBytes (encode_chunk tokens)
    × (decompress_chunk 4096 (encode_chunk tokens) ≡ done (expand_all [] tokens))
decompress_chunk-encode_chunk_example =
    decompress_chunk-encode_chunk 4096 tokens (omega arith) tokens-AreTokens

methods : Unit {0}
unfolding decompress_buffer buffer_loop one_chunk chunk_header chunk_size chunk_cap decompress_chunk
    chunk_loop max_displacement raise_format item copy_token literal_byte get_length
    get_displacement length_bits copy_match clip_length flag_set refill next_flags
methods = tt

-- A unit of one compressed chunk.
abbrev unit_bytes : List ℕ
unit_bytes = 5 ∷ 176 ∷ 4 ∷ 65 ∷ 66 ∷ 3 ∷ 16 ∷ 67 ∷ []

one_unit : decompress_buffer 16 unit_bytes ≡ done (65 ∷ 66 ∷ 65 ∷ 66 ∷ 65 ∷ 66 ∷ 65 ∷ 66 ∷ 67 ∷ [])
unfolding methods
one_unit = refl

-- The same in a buffer that ends in the match.
short_buffer : decompress_buffer 4 unit_bytes ≡ done (65 ∷ 66 ∷ 65 ∷ 66 ∷ [])
unfolding methods
short_buffer = refl

-- A displacement in front of the output.
bad_displacement : decompress_chunk 16 (2 ∷ 65 ∷ 3 ∷ 16 ∷ []) ≡ compromised (65 ∷ [])
unfolding methods
bad_displacement = refl

decompress_buffer-Fits_example : Fits 4 (decompress_buffer 4 unit_bytes)
decompress_buffer-Fits_example = decompress_buffer-Fits 4 unit_bytes

copy_match_lem_example :
    get_or (copy_match 6 2 (65 ∷ 66 ∷ [])) 5 0 ≡ get_or (copy_match 6 2 (65 ∷ 66 ∷ [])) (5 - 2) 0
copy_match_lem_example =
    copy_match_lem 6 2 (65 ∷ 66 ∷ []) 5 (omega arith) (omega arith) (omega arith) (omega arith)
