-- ===== src/Lznt1.antt =====
-- src/ntfs_lznt1.c: the LZNT1 decoder of one chunk and of a compression unit. A pointer into the
-- compressed buffer is the list of bytes from there to its end; the output buffer is the list of the
-- bytes that were written so far.
pub mod Format
pub mod Bounds
pub mod Tokens
pub mod Decode
pub mod Encoding
pub mod RoundTrip
pub mod Samples
mod Runs
use ntfs_efi.Prelude.{
  ℕ, zero, suc, ◌+◌, ◌-◌, ◌*◌, ◌/◌, ◌%◌, ◌^◌, Bool, true, false, ◌&&◌, ◌||◌, Option, none, some,
  List, [], ◌∷◌, ◌++◌, length, get_or, get_elem?, take, drop, replicate, min, ltb, leb, ◌==◌,
  if◌then◌else◌,
}

abbrev pub max_uncompressed_chunk_size : ℕ
max_uncompressed_chunk_size = 4096

-- NtfsLznt1MaxDisplacement
pub max_displacement : List ℕ
max_displacement = 16 ∷ 32 ∷ 64 ∷ 128 ∷ 256 ∷ 512 ∷ 1024 ∷ 2048 ∷ 4096 ∷ []

-- The bits of a copy token that hold its length, by format: 12 down to 4.
pub length_bits : ℕ → ℕ
length_bits format = if ltb format 8 then 12 - format else 4

-- NtfsLznt1GetLength
pub get_length : ℕ → ℕ → ℕ
get_length format ct = ct % 2 ^ length_bits format + 3

-- NtfsLznt1GetDisplacement
pub get_displacement : ℕ → ℕ → ℕ
get_displacement format ct = ct / 2 ^ length_bits format + 1

-- The outcome of a decoder: EFI_SUCCESS or EFI_COMPROMISED_DATA, with the bytes written; `fault` is a
-- read outside the table of displacements.
pub data Decoded : Type 0 where
  done : List ℕ → Decoded
  compromised : List ℕ → Decoded
  fault : Decoded

-- `while (UncompressedBuffer + NtfsLznt1MaxDisplacement[Format] < OutputPointer) Format += 1;` along the
-- rest of the table, after n bytes of output; `none` is a read past its end.
pub raise_format : List ℕ → ℕ → ℕ → Option ℕ
raise_format [] format n = none
raise_format (m ∷ table) format n =
    let later = raise_format table (format + 1) n in if ltb m n then later else some format

-- The byte-at-a-time copy.
pub copy_match : ℕ → ℕ → List ℕ → List ℕ
copy_match zero displacement out = out
copy_match (suc n) displacement out =
    copy_match n displacement (out ++ get_or out (length out - displacement) 0 ∷ [])

-- `if ((OutputPointer + Length) >= End) Length = End - OutputPointer;`
pub clip_length : ℕ → ℕ → ℕ → ℕ
clip_length cap n len = if leb cap (n + len) then cap - n else len

pub flag_set : ℕ → ℕ → Bool
flag_set flags bit = flags / 2 ^ bit % 2 == 1

-- The copy token at the head of the input: the output after it and the input behind it.
pub copy_token : ℕ → ℕ → List ℕ → List ℕ → Option (List ℕ × List ℕ)
copy_token cap format out [] = none
copy_token cap format out (b ∷ []) = none
copy_token cap format out (b ∷ c ∷ inp) =
    let displacement = get_displacement format (b + c * 256) in
    let len = clip_length cap (length out) (get_length format (b + c * 256)) in
    if ltb (length out) displacement then none else some (copy_match len displacement out, inp)

pub literal_byte : List ℕ → List ℕ → Option (List ℕ × List ℕ)
literal_byte out [] = none
literal_byte out (b ∷ inp) = some (out ++ b ∷ [], inp)

-- One item of the input, by its flag; `none` is EFI_COMPROMISED_DATA.
pub item : ℕ → Bool → ℕ → List ℕ → List ℕ → Option (List ℕ × List ℕ)
item cap true format out inp = copy_token cap format out inp
item cap false format out inp = literal_byte out inp

pub refill : List ℕ → Option (ℕ × ℕ × List ℕ)
refill [] = none
refill (b ∷ rest) = some (b, 0, rest)

-- After an item the next flag: of the same flag byte, or the first of a new one.
pub next_flags : ℕ → ℕ → List ℕ → Option (ℕ × ℕ × List ℕ)
next_flags flags bit inp =
    if (bit + 1) % 8 == 0 then refill inp else some (flags, (bit + 1) % 8, inp)

-- The loop of NtfsEfiLznt1DecompressChunk. Each round takes a byte of the input at least.
pub chunk_loop : ℕ → ℕ → ℕ → ℕ → ℕ → List ℕ → List ℕ → Decoded
chunk_loop zero cap flags bit format out inp = done out
chunk_loop (suc fuel) cap flags bit format out [] = done out
chunk_loop (suc fuel) cap flags bit format out (b ∷ inp) = elim (leb cap (length out)) [
  | true ↦ done out
  | false ↦ elim (raise_format (drop format max_displacement) format (length out)) [
    | none ↦ fault
    | some f ↦ elim (item cap (flag_set flags bit) f out (b ∷ inp)) [
      | none ↦ compromised out
      | some (out', rest) ↦ elim (next_flags flags bit rest) [
        | none ↦ done out'
        | some (flags', bit', rest') ↦ chunk_loop fuel cap flags' bit' f out' rest'
      ]
    ]
  ]
]

-- NtfsEfiLznt1DecompressChunk, for an output buffer of `cap` bytes. *FinalUncompressedChunkSize is the
-- number of bytes of the outcome.
pub decompress_chunk : ℕ → List ℕ → Decoded
decompress_chunk cap [] = done []
decompress_chunk cap (flags ∷ inp) = chunk_loop (length inp) cap flags 0 0 [] inp

-- The 16 bits of a chunk header.
pub chunk_header : List ℕ → ℕ
chunk_header p = get_or p 0 0 + get_or p 1 0 * 256

pub chunk_size : ℕ → ℕ
chunk_size header = header % 4096 + 3

-- The output limit of a compressed chunk, and the size of one that is stored.
pub chunk_cap : ℕ → ℕ → ℕ
chunk_cap cap n = min max_uncompressed_chunk_size (cap - n)

-- The bytes of one chunk: those of a stored chunk are copied.
pub stored_chunk : ℕ → List ℕ → Decoded
stored_chunk n p = if ltb (length p) (2 + n) then compromised [] else done (take n (drop 2 p))

pub one_chunk : ℕ → ℕ → List ℕ → List ℕ → Decoded
one_chunk cap header out p =
    if ltb (length p) (chunk_size header)
    then compromised []
    else if header / 2 ^ 15 % 2 == 1
    then decompress_chunk (chunk_cap cap (length out)) (take (chunk_size header - 2) (drop 2 p))
    else stored_chunk (chunk_cap cap (length out)) p

-- The zeros behind a chunk of n bytes that was short, where they leave room.
pub zero_gap : ℕ → ℕ → List ℕ → Option (List ℕ)
zero_gap cap n out =
    if ltb n max_uncompressed_chunk_size
    then (if leb cap (length out + (max_uncompressed_chunk_size - n))
        then none
        else some (out ++ replicate (max_uncompressed_chunk_size - n) 0))
    else some out

-- The loop of NtfsEfiLznt1DecompressBuffer, from a chunk whose header was read. Each round takes three
-- bytes at least. On an error the bytes written are those of the chunks before and of the part of the
-- chunk at hand.
pub buffer_loop : ℕ → ℕ → List ℕ → List ℕ → Decoded
buffer_loop zero cap out p = done out
buffer_loop (suc fuel) cap out p = elim (one_chunk cap (chunk_header p) out p) [
  | fault ↦ fault
  | compromised q ↦ compromised (out ++ q)
  | done q ↦
      let rest = drop (chunk_size (chunk_header p)) p in
      elim (length (out ++ q) == cap || ltb (length rest) 2) [
        | true ↦ done (out ++ q)
        | false ↦ elim (chunk_header rest == 0) [
          | true ↦ done (out ++ q)
          | false ↦ elim (zero_gap cap (length q) (out ++ q)) [
            | none ↦ done (out ++ q)
            | some out' ↦ buffer_loop fuel cap out' rest
          ]
        ]
      ]
]

-- NtfsEfiLznt1DecompressBuffer, for an output buffer of `cap` bytes.
pub decompress_buffer : ℕ → List ℕ → Decoded
decompress_buffer cap p = if ltb (length p) 2 then done [] else buffer_loop (length p) cap [] p
