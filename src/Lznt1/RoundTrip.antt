-- ===== src/Lznt1/RoundTrip.antt =====
-- The encoder and the decoder of a chunk together.
use ntfs_efi.Prelude.{ℕ, ◌≤◌, ◌≡◌, List, [], IsBytes}
use ntfs_efi.Lznt1.{done, decompress_chunk}
use ntfs_efi.Lznt1.Tokens.{Token, expand_all, encode_chunk, AreTokens}
use ntfs_efi.Lznt1.Decode.{decode_chunk}
use ntfs_efi.Lznt1.Encoding.{encode_chunk-IsBytes}

-- Any list of literals and matches that the format can express within `cap` bytes of output, for `cap` at
-- most 4096, is encoded as a list of bytes, and the decoder of a chunk with an output buffer of `cap`
-- bytes succeeds on them with the bytes that the tokens stand for. A copy token has its length in the low
-- 12 bits and its displacement in the high 4 for the first 16 bytes of output, and one bit goes from
-- the length to the displacement each time the output passes a power of two, down to 4 and 12 bits.
pub decompress_chunk-encode_chunk :
    (cap : ℕ) (ts : List Token)
    → cap ≤ 4096
    → AreTokens cap [] ts
    → IsBytes (encode_chunk ts) × (decompress_chunk cap (encode_chunk ts) ≡ done (expand_all [] ts))
decompress_chunk-encode_chunk cap ts small h =
    (encode_chunk-IsBytes cap ts small h, decode_chunk cap ts small h)
