-- ===== src/Lznt1/Samples.antt =====
-- A small compression unit.
use ntfs_efi.Prelude.{◌≡◌, refl, List, [], ◌∷◌, ℕ}
use ntfs_efi.Lznt1.{
  done, max_displacement, raise_format, get_length, get_displacement, length_bits, copy_match,
  clip_length, flag_set, copy_token, literal_byte, item, refill, next_flags, chunk_loop,
  decompress_chunk, chunk_header, chunk_size, chunk_cap, one_chunk, buffer_loop, decompress_buffer,
}

abbrev pub small_unit : List ℕ
small_unit = 1 ∷ 176 ∷ 0 ∷ 65 ∷ []

pub decompress_buffer-small_unit : decompress_buffer 8 small_unit ≡ done (65 ∷ [])
unfolding decompress_buffer buffer_loop one_chunk chunk_header chunk_size chunk_cap decompress_chunk
    chunk_loop max_displacement raise_format item copy_token literal_byte get_length
    get_displacement length_bits copy_match clip_length flag_set refill next_flags
decompress_buffer-small_unit = refl
