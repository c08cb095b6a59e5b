-- ===== src/Runlist.antt =====
-- src/ntfs_runlist.c: the mapping pairs of a non-resident attribute, decoded to runs and encoded.
-- A pointer into the stream is the list of bytes from there to RunEnd. INT64 and UINT64 values are
-- bit patterns below 2 ^ 64, with the wrap-around of two's complement written out.
pub mod Bytes
pub mod Sizes
pub mod RoundTrip
pub mod Stream
pub mod Reads
pub mod Invariants
mod Runs
use mathlib.Core.Logic.{dite}
use mathlib.Core.WellFounded.{Acc}
use ntfs_efi.Prelude.{
  ℕ, zero, suc, ◌+◌, ◌-◌, ◌*◌, ◌/◌, ◌%◌, ◌^◌, ◌<◌, bit_or, Bool, true, false, ◌&&◌, ◌||◌, Option,
  none, some, List, [], ◌∷◌, ◌++◌, length, take, drop, ltb, leb, ◌==◌, if◌then◌else◌, arith, dec_lt,
}
use mathlib.Core.Option
use ntfs_efi.Prelude.Order.{lt_wf}
use ntfs_efi.Prelude.Status.{Result, ok, err, volume_corrupted, buffer_too_small, read_fault, ◌>>=◌}

-- NTFS_RUN_ENTRY
pub record NtfsRunEntry : Type 0 where
  pub vbn : ℕ
  pub lbn : ℕ
  pub len : ℕ

-- LBN == -1LL
abbrev pub sparse_lbn : ℕ
sparse_lbn = 2 ^ 64 - 1

-- The fields of NTFS_ATTR_RECORD that the decoder reads, and the record's own bytes.
pub record NtfsAttrRecord : Type 0 where
  pub is_non_resident : Bool
  pub record_length : ℕ
  pub lowest_vcn : ℕ
  pub mapping_pairs_offset : ℕ
  pub bytes : List ℕ

abbrev pub ntfs_attr_min_header : ℕ
ntfs_attr_min_header = 24

-- `for (i = 0; i < n; i++) acc |= ((UINT64)*DataRun++) << (i * 8)`: the value, and the bytes after;
-- `none` is a read at RunEnd.
pub read_bytes : ℕ → ℕ → ℕ → List ℕ → Option (ℕ × List ℕ)
read_bytes zero i acc p = some (acc, p)
read_bytes (suc n) i acc [] = none
read_bytes (suc n) i acc (b ∷ p) = read_bytes n (i + 1) (bit_or acc (b * 2 ^ (i * 8) % 2 ^ 64)) p

-- `(INT64)(CCHAR)b`
pub sign_extend : ℕ → ℕ
sign_extend b = if ltb b 128 then b else b + (2 ^ 64 - 256)

-- The outputs of NtfsDecodeRunEntry.
pub record RunEntry : Type 0 where
  pub offset : ℕ
  pub run_length : ℕ
  pub is_sparse : Bool
  pub next : List ℕ

-- What NtfsDecodeRunEntry does: it returns NULL, it reads a byte at RunEnd or behind, or it returns
-- with its outputs.
pub data Decoding : Type 0 where
  null : Decoding
  over_read : Decoding
  decoded : RunEntry → Decoding

-- The most significant byte of the offset, at shift `i * 8`.
pub add_top_byte : ℕ → ℕ → ℕ → List ℕ → Decoding
add_top_byte len i low [] = over_read
add_top_byte len i low (b ∷ p) = decoded record {
  offset = (sign_extend b * 2 ^ (i * 8) % 2 ^ 64 + low) % 2 ^ 64;
  run_length = len;
  is_sparse = false;
  next = p;
}

-- The OffBytes bytes of the offset, after the length.
pub decode_offset : ℕ → ℕ → List ℕ → Decoding
decode_offset len zero p =
    decoded record { offset = 0; run_length = len; is_sparse = true; next = p }
decode_offset len (suc low_bytes) p = elim (read_bytes low_bytes 0 0 p) [
  | none ↦ over_read
  | some (low, q) ↦ add_top_byte len low_bytes low q
]

pub decode_fields : ℕ → ℕ → List ℕ → Decoding
decode_fields len_bytes off_bytes p = elim (read_bytes len_bytes 0 0 p) [
  | none ↦ over_read
  | some (len, q) ↦ decode_offset len off_bytes q
]

-- NtfsDecodeRunEntry
pub decode_run_entry : List ℕ → Decoding
decode_run_entry [] = over_read
decode_run_entry (h ∷ p) =
    let len_bytes = h % 16 in
    let off_bytes = h / 16 % 16 in
    if ltb 8 len_bytes || ltb 8 off_bytes
    then null
    else if ltb (length p) (len_bytes + off_bytes)
    then null
    else decode_fields len_bytes off_bytes p

-- The run that one decoded entry gives, with CurrentLCN already moved.
pub run_of : RunEntry → ℕ → ℕ → NtfsRunEntry
run_of e lcn vbn = record {
  vbn = vbn;
  lbn = if e.is_sparse then sparse_lbn else lcn;
  len = e.run_length;
}

pub next_lcn : RunEntry → ℕ → ℕ
next_lcn e lcn = if e.is_sparse then lcn else (lcn + e.offset) % 2 ^ 64

pub prepend : NtfsRunEntry → Result (List NtfsRunEntry) → Result (List NtfsRunEntry)
prepend r rs = rs >>= λ l. ok (r ∷ l)

-- The loop of NtfsBuildRunList: `slots` is MaxRuns - Count.
pub build_loop : ℕ → List ℕ → ℕ → ℕ → Result (List NtfsRunEntry)
build_loop slots [] lcn vbn = ok []
build_loop zero (h ∷ p) lcn vbn = if h == 0 then ok [] else err buffer_too_small
build_loop (suc slots) (h ∷ p) lcn vbn = elim (h == 0) [
  | true ↦ ok []
  | false ↦ elim (decode_run_entry (h ∷ p)) [
    | null ↦ err volume_corrupted
    | over_read ↦ err read_fault
    | decoded e ↦
        prepend (run_of e (next_lcn e lcn) vbn)
          (build_loop slots e.next (next_lcn e lcn) ((vbn + e.run_length) % 2 ^ 64))
  ]
]

-- The checks on MappingPairsOffset that NtfsBuildRunList and NtfsMappingPairsSize share.
pub stream_ok : NtfsAttrRecord → Bool
stream_ok a =
    a.is_non_resident
    && (leb ntfs_attr_min_header a.record_length && ltb a.mapping_pairs_offset a.record_length)

-- The bytes from MappingPairsOffset to the end of the record.
pub stream : NtfsAttrRecord → List ℕ
stream a = drop a.mapping_pairs_offset (take a.record_length a.bytes)

-- NtfsBuildRunList without its debug output. *RunCount is the length of the result; on an error it
-- stays 0, so the caller sees no run.
pub build_run_list : NtfsAttrRecord → ℕ → Result (List NtfsRunEntry)
build_run_list a max_runs =
    if stream_ok a
    then build_loop max_runs (stream a) 0 (a.lowest_vcn % 2 ^ 64)
    else err volume_corrupted

-- The loop of NtfsMappingPairsSize from position `pos` on; `none` would be a want of fuel.
pub size_loop : ℕ → List ℕ → ℕ → Option ℕ
size_loop fuel [] pos = some 0
size_loop zero (h ∷ p) pos = none
size_loop (suc fuel) (h ∷ p) pos =
    let rest = size_loop fuel (drop (h % 16 + h / 16 % 16) p) (pos + (1 + h % 16 + h / 16 % 16)) in
    if h == 0
    then some (pos + 1)
    else if ltb 8 (h % 16) || ltb 8 (h / 16 % 16)
    then some 0
    else rest

-- NtfsMappingPairsSize: each round takes a byte at least.
pub mapping_pairs_size : NtfsAttrRecord → Option ℕ
mapping_pairs_size a = if stream_ok a then size_loop (length (stream a)) (stream a) 0 else some 0

byte_shrinks : (l : ℕ) → 0 < l / 256 → l / 256 < l
byte_shrinks l h = omega arith

-- `do { LenBytes++; L >>= 8; } while (L != 0)`
pub count_bytes : (l : ℕ) → Acc ◌<◌ l → ℕ
count_bytes l (Acc.intro _ smaller) =
    dite (dec_lt 0 (l / 256))
      (λ more. suc (count_bytes (l / 256) (smaller _ (byte_shrinks l more)))) (λ _. 1)

-- `if ((Length >> ((LenBytes - 1) * 8)) & 0x80) LenBytes++`
pub widen : ℕ → ℕ → ℕ
widen n length = if leb 128 (length / 2 ^ ((n - 1) * 8) % 256) then n + 1 else n

pub len_bytes_of : ℕ → ℕ
len_bytes_of length = widen (count_bytes length (lt_wf.apply length)) length

-- `D >= Min && D <= Max` for k bytes. At k = 8 the bounds are those of INT64.
pub fits_signed : ℕ → ℕ → Bool
fits_signed k d = ltb d (2 ^ (k * 8 - 1)) || leb (2 ^ 64 - 2 ^ (k * 8 - 1)) d

-- The search for OffBytes from k on; 8 bytes hold every INT64, so 7 rounds are enough.
pub off_bytes_from : ℕ → ℕ → ℕ → ℕ
off_bytes_from zero k d = k
off_bytes_from (suc rounds) k d = if fits_signed k d then k else off_bytes_from rounds (k + 1) d

pub off_bytes_of : ℕ → ℕ
off_bytes_of d = off_bytes_from 7 1 d

-- `for (; i < i + n; i++) *Dest++ = (UCHAR)((x >> (i * 8)) & 0xFF)`
pub write_bytes : ℕ → ℕ → ℕ → List ℕ
write_bytes zero i x = []
write_bytes (suc n) i x = x / 2 ^ (i * 8) % 256 ∷ write_bytes n (i + 1) x

-- NtfsEncodeRunEntry: the bytes that it stores at Dest, whose number it returns.
pub encode_run_entry : ℕ → ℕ → List ℕ
encode_run_entry length lcn_delta =
    let len_bytes = len_bytes_of length in
    let off_bytes = off_bytes_of lcn_delta in
    bit_or len_bytes (off_bytes * 16) % 256
    ∷ (write_bytes len_bytes 0 length ++ write_bytes off_bytes 0 lcn_delta)

-- The loop of ntfs_setinfo.c (truncation) that encodes a run list again, each offset relative to
-- the run before, and the terminator. A sparse run is refused (`none`).
pub encode_runs : List NtfsRunEntry → ℕ → Option (List ℕ)
encode_runs [] prev = some (0 ∷ [])
encode_runs (r ∷ rs) prev =
    let rest = encode_runs rs r.lbn in
    if r.lbn == sparse_lbn
    then none
    else Option.map (λ l. encode_run_entry r.len ((r.lbn + 2 ^ 64 - prev) % 2 ^ 64) ++ l) rest
