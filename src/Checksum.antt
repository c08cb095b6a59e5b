-- ===== src/Checksum.antt =====
-- ec/Checksum.c: SHA-256 and CRC-32 of a file, fed from the reads of the file. UINT32 values are
-- numbers below 2 ^ 32 with the wrap-around written out; TotalBytes is a UINT64. A buffer is the list
-- of its bytes.
pub mod Buffer
pub mod Stream
pub mod Padding
pub mod File
mod Runs
use ntfs_efi.Prelude.{
  ℕ, zero, suc, ◌+◌, ◌-◌, ◌*◌, ◌/◌, ◌%◌, ◌^◌, bit_and, bit_or, bit_xor, min, Bool, true, false,
  ◌&&◌, Option, none, some, List, [], ◌∷◌, ◌++◌, length, get_or, set, take, drop, replicate, ltb,
  ◌==◌, if◌then◌else◌,
}
use ntfs_efi.Prelude.Status.{Result, ok, err, EfiStatus}

-- State[8]
pub record Words : Type 0 where
  pub a : ℕ
  pub b : ℕ
  pub c : ℕ
  pub d : ℕ
  pub e : ℕ
  pub f : ℕ
  pub g : ℕ
  pub h : ℕ

pub record Sha256Context : Type 0 where
  pub state : Words
  pub total_bytes : ℕ
  pub block : List ℕ
  pub block_used : ℕ

pub sha256_k : List ℕ
sha256_k =
    0x428a2f98 ∷ 0x71374491 ∷ 0xb5c0fbcf ∷ 0xe9b5dba5 ∷ 0x3956c25b ∷ 0x59f111f1 ∷ 0x923f82a4
    ∷ 0xab1c5ed5 ∷ 0xd807aa98 ∷ 0x12835b01 ∷ 0x243185be ∷ 0x550c7dc3 ∷ 0x72be5d74 ∷ 0x80deb1fe
    ∷ 0x9bdc06a7 ∷ 0xc19bf174 ∷ 0xe49b69c1 ∷ 0xefbe4786 ∷ 0x0fc19dc6 ∷ 0x240ca1cc ∷ 0x2de92c6f
    ∷ 0x4a7484aa ∷ 0x5cb0a9dc ∷ 0x76f988da ∷ 0x983e5152 ∷ 0xa831c66d ∷ 0xb00327c8 ∷ 0xbf597fc7
    ∷ 0xc6e00bf3 ∷ 0xd5a79147 ∷ 0x06ca6351 ∷ 0x14292967 ∷ 0x27b70a85 ∷ 0x2e1b2138 ∷ 0x4d2c6dfc
    ∷ 0x53380d13 ∷ 0x650a7354 ∷ 0x766a0abb ∷ 0x81c2c92e ∷ 0x92722c85 ∷ 0xa2bfe8a1 ∷ 0xa81a664b
    ∷ 0xc24b8b70 ∷ 0xc76c51a3 ∷ 0xd192e819 ∷ 0xd6990624 ∷ 0xf40e3585 ∷ 0x106aa070 ∷ 0x19a4c116
    ∷ 0x1e376c08 ∷ 0x2748774c ∷ 0x34b0bcb5 ∷ 0x391c0cb3 ∷ 0x4ed8aa4a ∷ 0x5b9cca4f ∷ 0x682e6ff3
    ∷ 0x748f82ee ∷ 0x78a5636f ∷ 0x84c87814 ∷ 0x8cc70208 ∷ 0x90befffa ∷ 0xa4506ceb ∷ 0xbef9a3f7
    ∷ 0xc67178f2 ∷ []

pub add32 : ℕ → ℕ → ℕ
add32 x y = (x + y) % 2 ^ 32

pub ror32 : ℕ → ℕ → ℕ
ror32 value count = bit_or (value / 2 ^ count) (value * 2 ^ (32 - count) % 2 ^ 32)

pub xor3 : ℕ → ℕ → ℕ → ℕ
xor3 x y z = bit_xor (bit_xor x y) z

-- w[i] for i below 16: the big-endian words of the block.
pub load_words : ℕ → List ℕ → List ℕ
load_words zero p = []
load_words (suc n) p =
    bit_or (bit_or (bit_or (get_or p 0 0 * 2 ^ 24) (get_or p 1 0 * 2 ^ 16)) (get_or p 2 0 * 2 ^ 8))
      (get_or p 3 0)
    ∷ load_words n (drop 4 p)

-- The loop over w[i] for i from 16 on, n rounds of it.
pub extend_words : ℕ → ℕ → List ℕ → List ℕ
extend_words zero i w = w
extend_words (suc n) i w =
    let x = get_or w (i - 15) 0 in
    let y = get_or w (i - 2) 0 in
    let s0 = xor3 (ror32 x 7) (ror32 x 18) (x / 2 ^ 3) in
    let s1 = xor3 (ror32 y 17) (ror32 y 19) (y / 2 ^ 10) in
    extend_words n (i + 1)
      (w ++ add32 (add32 (add32 (get_or w (i - 16) 0) s0) (get_or w (i - 7) 0)) s1 ∷ [])

-- One round of the compression, with gSha256K[i] and w[i].
pub round : ℕ → ℕ → Words → Words
round k w s =
    let s1 = xor3 (ror32 s.e 6) (ror32 s.e 11) (ror32 s.e 25) in
    let choose = bit_xor (bit_and s.e s.f) (bit_and (2 ^ 32 - 1 - s.e) s.g) in
    let t1 = add32 (add32 (add32 (add32 s.h s1) choose) k) w in
    let s0 = xor3 (ror32 s.a 2) (ror32 s.a 13) (ror32 s.a 22) in
    let majority = xor3 (bit_and s.a s.b) (bit_and s.a s.c) (bit_and s.b s.c) in
    let t2 = add32 s0 majority in
    record {
      a = add32 t1 t2;
      b = s.a;
      c = s.b;
      d = s.c;
      e = add32 s.d t1;
      f = s.e;
      g = s.f;
      h = s.g;
    }

pub rounds : List ℕ → List ℕ → Words → Words
rounds [] w s = s
rounds (k ∷ ks) [] s = s
rounds (k ∷ ks) (x ∷ w) s = rounds ks w (round k x s)

pub add_words : Words → Words → Words
add_words s t = record {
  a = add32 s.a t.a;
  b = add32 s.b t.b;
  c = add32 s.c t.c;
  d = add32 s.d t.d;
  e = add32 s.e t.e;
  f = add32 s.f t.f;
  g = add32 s.g t.g;
  h = add32 s.h t.h;
}

-- Sha256Transform, on State.
pub transform : Words → List ℕ → Words
transform s block = add_words s (rounds sha256_k (extend_words 48 16 (load_words 16 block)) s)

pub initial_words : Words
initial_words = record {
  a = 0x6a09e667;
  b = 0xbb67ae85;
  c = 0x3c6ef372;
  d = 0xa54ff53a;
  e = 0x510e527f;
  f = 0x9b05688c;
  g = 0x1f83d9ab;
  h = 0x5be0cd19;
}

-- Sha256Init
pub sha256_init : Sha256Context
sha256_init = record {
  state = initial_words;
  total_bytes = 0;
  block = replicate 64 0;
  block_used = 0;
}

-- `CopyMem (&block[used], p, length p)`
pub copy_mem : List ℕ → ℕ → List ℕ → List ℕ
copy_mem block used p = take used block ++ (p ++ drop (used + length p) block)

-- `if (BlockUsed == 64) { Sha256Transform (...); BlockUsed = 0; }`
pub flush : Sha256Context → Sha256Context
flush c =
    if c.block_used == 64 then record c { state = transform c.state c.block; block_used = 0 } else c

-- One round of the loop of Sha256Update, for `take` bytes.
pub absorb : Sha256Context → List ℕ → Sha256Context
absorb c p =
    flush
      (record c { block = copy_mem c.block c.block_used p; block_used = c.block_used + length p })

-- The loop of Sha256Update. BlockUsed is below 64 at its head, so each round takes a byte at least.
pub update_loop : ℕ → Sha256Context → List ℕ → Sha256Context
update_loop zero c p = c
update_loop (suc fuel) c [] = c
update_loop (suc fuel) c (x ∷ p) =
    let room = 64 - c.block_used in
    let n = if ltb (length (x ∷ p)) room then length (x ∷ p) else room in
    update_loop fuel (absorb c (take n (x ∷ p))) (drop n (x ∷ p))

-- Sha256Update
pub sha256_update : Sha256Context → List ℕ → Sha256Context
sha256_update c p =
    update_loop (length p) (record c { total_bytes = (c.total_bytes + length p) % 2 ^ 64 }) p

-- `while (BlockUsed < limit) Block[BlockUsed++] = 0;` for n rounds
pub zero_fill : ℕ → ℕ → List ℕ → List ℕ
zero_fill zero used block = block
zero_fill (suc n) used block = zero_fill n (used + 1) (set block used 0)

-- The loop that stores bitLength, n rounds from round i on.
pub store_length : ℕ → ℕ → ℕ → List ℕ → List ℕ
store_length zero i bits block = block
store_length (suc n) i bits block =
    store_length n (i + 1) bits (set block (56 + i) (bits / 2 ^ (56 - i * 8) % 256))

-- `if (BlockUsed > 56) { ... }`
pub spill : Sha256Context → Sha256Context
spill c =
    if ltb 56 c.block_used
    then record c {
      state = transform c.state (zero_fill (64 - c.block_used) c.block_used c.block);
      block = zero_fill (64 - c.block_used) c.block_used c.block;
      block_used = 0;
    }
    else c

-- `Block[BlockUsed++] = 0x80;`
pub push_marker : Sha256Context → Sha256Context
push_marker c = record c { block = set c.block c.block_used 0x80; block_used = c.block_used + 1 }

-- What follows the marker and the spill, to the last transform.
pub last_block : ℕ → Sha256Context → Words
last_block bits c =
    transform c.state (store_length 8 0 bits (zero_fill (56 - c.block_used) c.block_used c.block))

pub word_bytes : ℕ → List ℕ → List ℕ
word_bytes w p = w / 2 ^ 24 % 256 ∷ w / 2 ^ 16 % 256 ∷ w / 2 ^ 8 % 256 ∷ w % 256 ∷ p

-- The loop that stores the digest.
pub digest_bytes : Words → List ℕ
digest_bytes s = word_bytes s.a (
    word_bytes s.b (
      word_bytes s.c
        (word_bytes s.d (word_bytes s.e (word_bytes s.f (word_bytes s.g (word_bytes s.h [])))))))

-- Sha256Final
pub sha256_final : Sha256Context → List ℕ
sha256_final c = digest_bytes (last_block (c.total_bytes * 8 % 2 ^ 64) (spill (push_marker c)))

-- One round of the inner loop of Crc32Update.
pub crc_bit : ℕ → ℕ
crc_bit crc = bit_xor (crc / 2) (bit_and 0xedb88320 ((2 ^ 32 - crc % 2) % 2 ^ 32))

pub crc_bits : ℕ → ℕ → ℕ
crc_bits zero crc = crc
crc_bits (suc n) crc = crc_bits n (crc_bit crc)

-- Crc32Update
pub crc32_update : ℕ → List ℕ → ℕ
crc32_update crc [] = crc
crc32_update crc (b ∷ p) = crc32_update (crc_bits 8 (bit_xor crc b)) p

-- EC_FILE_CHECKSUM
pub record FileChecksum : Type 0 where
  pub size : ℕ
  pub sha256 : List ℕ
  pub crc32 : ℕ

-- The variables of the loop of ChecksumFile.
pub record Progress : Type 0 where
  pub sha : Sha256Context
  pub crc : ℕ
  pub size : ℕ

pub take_chunk : Progress → List ℕ → Progress
take_chunk s p = record {
  sha = sha256_update s.sha p;
  crc = crc32_update s.crc p;
  size = (s.size + length p) % 2 ^ 64;
}

pub start_progress : Progress
start_progress = record { sha = sha256_init; crc = 2 ^ 32 - 1; size = 0 }

pub finish : Progress → FileChecksum
finish s = record { size = s.size; sha256 = sha256_final s.sha; crc32 = 2 ^ 32 - 1 - s.crc }

-- The loop of ChecksumFile, over the results of the calls of Read that it makes: it ends at an error or
-- at an empty read, which a file gives at its end.
pub checksum_loop : Progress → List (Result (List ℕ)) → Result FileChecksum
checksum_loop s [] = ok (finish s)
checksum_loop s (err e ∷ reads) = err e
checksum_loop s (ok [] ∷ reads) = ok (finish s)
checksum_loop s (ok (b ∷ p) ∷ reads) = checksum_loop (take_chunk s (b ∷ p)) reads

-- ChecksumFile, where the file was opened and the buffer allocated.
pub checksum_file : List (Result (List ℕ)) → Result FileChecksum
checksum_file reads = checksum_loop start_progress reads

pub hex_digit : ℕ → ℕ
hex_digit n = if ltb n 10 then 48 + n else 87 + n

-- ChecksumSha256ToText, without the terminator.
pub sha256_to_text : List ℕ → List ℕ
sha256_to_text [] = []
sha256_to_text (b ∷ p) = hex_digit (b / 16) ∷ hex_digit (b % 16) ∷ sha256_to_text p
