-- ===== src/Checksum/Padding.antt =====
-- The end of a hash: the marker, the zeros and the length that Sha256Final appends.
use ntfs_efi.Prelude.{
  ℕ, zero, suc, ◌+◌, ◌-◌, ◌*◌, ◌%◌, ◌^◌, ◌<◌, ◌≤◌, ◌≡◌, refl, ap, sym, ◌∙◌, List, [], ◌∷◌, ◌++◌,
  length, take, set, replicate, length-set, length-append, length-take, append_assoc, arith, ltb,
  true, false, dec_lt,
}
use ntfs_efi.Checksum.{
  Sha256Context, transform, initial_words, zero_fill, store_length, push_marker, spill, last_block,
  sha256_final, digest_bytes,
}
use ntfs_efi.Checksum.Buffer.{
  take_all, take-set_next, length-zero_fill, take-zero_fill, length_bytes, take-store_length,
  length-store_length,
}
use ntfs_efi.Checksum.Stream.{
  compress, padding, sha256, sha256_padded, compress-append, Absorbed, HasHashed,
}

length-length_bytes : (n i bits : ℕ) → length (length_bytes n i bits) ≡ n
length-length_bytes zero i bits = refl
length-length_bytes (suc n) i bits = ap suc (length-length_bytes n (i + 1) bits)

replicate-append : (n m : ℕ) → replicate {A = ℕ} n 0 ++ replicate m 0 ≡ replicate (n + m) 0
replicate-append zero m = let e : 0 + m ≡ m = omega arith in rw e refl
replicate-append (suc n) m =
    let e : suc n + m ≡ suc (n + m) = omega arith in rw e (ap (λ t. 0 ∷ t) (replicate-append n m))

-- A block that is filled up with zeros.
filled :
    (block : List ℕ) (used : ℕ)
    → length block ≡ 64
    → used ≤ 64
    → zero_fill (64 - used) used block ≡ take used block ++ replicate (64 - used) 0
filled block used sized h =
    let e : used + (64 - used) ≡ 64 = omega arith in
    sym (
      take_all (used + (64 - used)) (zero_fill (64 - used) used block)
        (omega (arith, length-zero_fill (64 - used) used block)))
    ∙ take-zero_fill (64 - used) used block (omega arith)

-- A block that is closed by the length.
closed :
    (block : List ℕ) (used bits : ℕ)
    → length block ≡ 64
    → used ≤ 56
    → store_length 8 0 bits (zero_fill (56 - used) used block)
      ≡ take used block ++ (replicate (56 - used) 0 ++ length_bytes 8 0 bits)
closed block used bits sized h =
    let z : List ℕ = zero_fill (56 - used) used block in
    let lz : length z ≡ 64 = length-zero_fill (56 - used) used block ∙ sized in
    let u : used + (56 - used) ≡ 56 = omega arith in
    let front : take 56 z ≡ take used block ++ replicate (56 - used) 0 =
      ap (λ n. take n z) (sym u) ∙ take-zero_fill (56 - used) used block (omega arith) in
    sym (take_all 64 (store_length 8 0 bits z) (omega (arith, length-store_length 8 0 bits z)))
    ∙ take-store_length 8 0 bits z (omega arith)
    ∙ ap (λ t. t ++ length_bytes 8 0 bits) front
    ∙ append_assoc (take used block) (replicate (56 - used) 0) (length_bytes 8 0 bits)

module _ (c : Sha256Context) (m : List ℕ) (a : Absorbed c m) (bits : ℕ) where
  abbrev pending : List ℕ
  pending = take c.block_used c.block

  abbrev marked : List ℕ
  marked = set c.block c.block_used 0x80

  sized : length marked ≡ 64
  sized = length-set c.block c.block_used 0x80 ∙ a.sized

  marked_front : take (c.block_used + 1) marked ≡ pending ++ 0x80 ∷ []
  marked_front =
      let e : c.block_used + 1 ≡ suc c.block_used = omega arith in
      rw e (take-set_next c.block_used c.block 0x80 (omega (arith, a.below, a.sized)))

  length_m : length m ≡ a.count * 64 + c.block_used
  length_m =
      ap length a.message
      ∙ omega (
        arith,
        length-append a.full pending,
        length-take c.block_used c.block,
        a.whole,
        a.below,
        a.sized,
      )

  -- The message, the marker and what follows.
  message_marked : (r : List ℕ) → m ++ 0x80 ∷ r ≡ a.full ++ (take (c.block_used + 1) marked ++ r)
  message_marked r =
      ap (λ t. t ++ 0x80 ∷ r) a.message
      ∙ append_assoc a.full pending (0x80 ∷ r)
      ∙ ap (λ t. a.full ++ t)
          (sym (append_assoc pending (0x80 ∷ []) r) ∙ ap (λ t. t ++ r) (sym marked_front))

  -- The marker and the length fit the block.
  abbrev only_block : List ℕ
  only_block = store_length 8 0 bits (zero_fill (56 - (c.block_used + 1)) (c.block_used + 1) marked)

  one_block :
      c.block_used < 56
      → m ++ 0x80 ∷ (replicate (55 - c.block_used) 0 ++ length_bytes 8 0 bits)
        ≡ a.full ++ only_block
  one_block h =
      let n : 55 - c.block_used ≡ 56 - (c.block_used + 1) = omega arith in
      rw n (
        message_marked (replicate (56 - (c.block_used + 1)) 0 ++ length_bytes 8 0 bits)
        ∙ ap (λ t. a.full ++ t) (sym (closed marked (c.block_used + 1) bits sized (omega arith))))

  -- The length goes to a block of its own.
  abbrev spilled : List ℕ
  spilled = zero_fill (64 - (c.block_used + 1)) (c.block_used + 1) marked

  abbrev second_block : List ℕ
  second_block = store_length 8 0 bits (zero_fill 56 0 spilled)

  length-spilled : length spilled ≡ 64
  length-spilled = length-zero_fill (64 - (c.block_used + 1)) (c.block_used + 1) marked ∙ sized

  two_blocks :
      56 ≤ c.block_used
      → m ++ 0x80 ∷ (replicate (119 - c.block_used) 0 ++ length_bytes 8 0 bits)
        ≡ (a.full ++ spilled) ++ second_block
  two_blocks h =
      let n : 119 - c.block_used ≡ 64 - (c.block_used + 1) + 56 = omega (arith, a.below) in
      let k : ℕ = 64 - (c.block_used + 1) in
      let front : List ℕ = take (c.block_used + 1) marked in
      let tail : List ℕ = replicate 56 0 ++ length_bytes 8 0 bits in
      ap (λ t. m ++ 0x80 ∷ (t ++ length_bytes 8 0 bits))
        (ap (λ t. replicate t 0) n ∙ sym (replicate-append k 56))
      ∙ ap (λ t. m ++ 0x80 ∷ t)
          (append_assoc (replicate k 0) (replicate 56 0) (length_bytes 8 0 bits))
      ∙ message_marked (replicate k 0 ++ tail)
      ∙ ap (λ t. a.full ++ t) (sym (append_assoc front (replicate k 0) tail))
      ∙ sym (append_assoc a.full (front ++ replicate k 0) tail)
      ∙ ap (λ t. (a.full ++ t) ++ tail)
          (sym (filled marked (c.block_used + 1) sized (omega (arith, a.below))))
      ∙ ap (λ t. (a.full ++ spilled) ++ t)
          (sym (closed spilled 0 bits length-spilled (omega arith)))

  length_closed :
      (block : List ℕ) (k used : ℕ)
      → length block ≡ 64
      → length (store_length 8 0 bits (zero_fill k used block)) ≡ 64
  length_closed block k used h =
      length-store_length 8 0 bits (zero_fill k used block) ∙ length-zero_fill k used block ∙ h

  length_one : length (a.full ++ only_block) ≡ suc a.count * 64
  length_one = omega (
    arith,
    length-append a.full only_block,
    a.whole,
    length_closed marked (56 - (c.block_used + 1)) (c.block_used + 1) sized,
  )

  length_two : length ((a.full ++ spilled) ++ second_block) ≡ suc (suc a.count) * 64
  length_two = omega (
    arith,
    length-append (a.full ++ spilled) second_block,
    length-append a.full spilled,
    a.whole,
    length-spilled,
    length_closed spilled 56 0 length-spilled,
  )

  last_one :
      c.block_used < 56
      → last_block bits (spill (push_marker c))
        ≡ compress (suc a.count) initial_words (a.full ++ only_block)
  unfolding last_block spill push_marker
  last_one h =
      let small : ltb 56 (c.block_used + 1) ≡ false = ground arith in
      rw small (
        ap (λ t. transform t only_block) a.hashed
        ∙ sym (
            compress-append a.count initial_words a.full only_block a.whole
              (length_closed marked (56 - (c.block_used + 1)) (c.block_used + 1) sized)))

  last_two :
      56 ≤ c.block_used
      → last_block bits (spill (push_marker c))
        ≡ compress (suc (suc a.count)) initial_words ((a.full ++ spilled) ++ second_block)
  unfolding last_block spill push_marker
  last_two h =
      let big : ltb 56 (c.block_used + 1) ≡ true = ground arith in
      rw big (
        ap (λ t. transform t second_block)
          (ap (λ t. transform t spilled) a.hashed
            ∙ sym (compress-append a.count initial_words a.full spilled a.whole length-spilled))
        ∙ sym (
            compress-append (suc a.count) initial_words (a.full ++ spilled) second_block
              (omega (arith, length-append a.full spilled, a.whole, length-spilled))
              (length_closed spilled 56 0 length-spilled)))

-- Sha256Final on a context that has taken in the message m gives the hash of m.
pub sha256_final-HasHashed :
    (c : Sha256Context) (m : List ℕ) → HasHashed c m → sha256_final c ≡ sha256 m
unfolding sha256_final
sha256_final-HasHashed c m w =
    let a = w.absorbed in
    let bits : ℕ = length m * 8 % 2 ^ 64 in
    let same : c.total_bytes * 8 % 2 ^ 64 ≡ bits = omega (arith, w.counted) in
    let lm : length m ≡ a.count * 64 + c.block_used = length_m c m a bits in
    elim (dec_lt c.block_used 56) [
      | yes h ↦
          let n : (119 - length m % 64) % 64 ≡ 55 - c.block_used = omega (arith, lm, h) in
          let e : m ++ padding (length m) ≡ a.full ++ only_block c m a bits =
            ap (λ t. m ++ 0x80 ∷ (replicate t 0 ++ length_bytes 8 0 bits)) n
            ∙ one_block c m a bits h in
          ap (λ t. digest_bytes (last_block t (spill (push_marker c)))) same
          ∙ ap digest_bytes (last_one c m a bits h)
          ∙ sym (
              sha256_padded m (a.full ++ only_block c m a bits) (suc a.count) e
                (length_one c m a bits))
      | no h ↦
          let n : (119 - length m % 64) % 64 ≡ 119 - c.block_used = omega (arith, lm, h, a.below) in
          let e : m ++ padding (length m)
              ≡ (a.full ++ spilled c m a bits) ++ second_block c m a bits =
            ap (λ t. m ++ 0x80 ∷ (replicate t 0 ++ length_bytes 8 0 bits)) n
            ∙ two_blocks c m a bits (omega arith) in
          ap (λ t. digest_bytes (last_block t (spill (push_marker c)))) same
          ∙ ap digest_bytes (last_two c m a bits (omega arith))
          ∙ sym (
              sha256_padded m ((a.full ++ spilled c m a bits) ++ second_block c m a bits)
                (suc (suc a.count)) e (length_two c m a bits))
    ]
