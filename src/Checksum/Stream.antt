-- ===== src/Checksum/Stream.antt =====
-- SHA-256 of a message as a fold over the blocks of the padded message, and a context that has taken in
-- a message.
use ntfs_efi.Prelude.{
  ℕ, zero, suc, ◌+◌, ◌-◌, ◌*◌, ◌/◌, ◌%◌, ◌^◌, ◌<◌, ◌≤◌, ◌≡◌, refl, ap, sym, ◌∙◌, List, [], ◌∷◌,
  ◌++◌, length, take, drop, replicate, length-append, length-take, length-drop, take-append-drop,
  append_assoc, append-nil, arith, ltb, if◌then◌else◌, eqb_true, eqb_false, ℕ_discrete, subst,
}
use ntfs_efi.Checksum.{
  Words, Sha256Context, transform, initial_words, sha256_init, copy_mem, flush, absorb, update_loop,
  sha256_update, digest_bytes,
}
use ntfs_efi.Checksum.Buffer.{take_all, take-copy_mem, length-copy_mem, length_bytes}

-- The compression of n blocks of 64 bytes, from the words s on.
pub compress : ℕ → Words → List ℕ → Words
compress zero s m = s
compress (suc n) s m = compress n (transform s (take 64 m)) (drop 64 m)

-- What FIPS 180-4 appends to a message of n bytes: a one bit, zeros, and the length in bits.
abbrev pub padding : ℕ → List ℕ
padding n = 0x80 ∷ (replicate ((119 - n % 64) % 64) 0 ++ length_bytes 8 0 (n * 8 % 2 ^ 64))

-- The hash of a message at one stroke.
pub sha256 : List ℕ → List ℕ
sha256 m =
    digest_bytes
      (compress (length (m ++ padding (length m)) / 64) initial_words (m ++ padding (length m)))

take_front : (n : ℕ) (a b : List ℕ) → n ≤ length a → take n (a ++ b) ≡ take n a
take_front zero a b h = refl
take_front (suc n) [] b h = absurd (omega arith)
take_front (suc n) (x ∷ a) b h = ap (λ t. x ∷ t) (take_front n a b (omega arith))

drop_front : (n : ℕ) (a b : List ℕ) → n ≤ length a → drop n (a ++ b) ≡ drop n a ++ b
drop_front zero a b h = refl
drop_front (suc n) [] b h = absurd (omega arith)
drop_front (suc n) (x ∷ a) b h = drop_front n a b (omega arith)

-- One more block.
pub compress-append :
    (n : ℕ) (s : Words) (full b : List ℕ)
    → length full ≡ n * 64
    → length b ≡ 64
    → compress (suc n) s (full ++ b) ≡ transform (compress n s full) b
unfolding compress
compress-append zero s [] b h hb = ap (transform s) (take_all 64 b (omega arith))
compress-append zero s (x ∷ full) b h hb = absurd (omega arith)
compress-append (suc n) s full b h hb =
    rw (take_front 64 full b (omega arith), drop_front 64 full b (omega arith))
      (compress-append n (transform s (take 64 full)) (drop 64 full) b
        (omega (arith, length-drop 64 full)) hb)

-- A context that has taken in the message m: whole blocks went through the compression, and the rest
-- lies in the block.
pub record Absorbed (c : Sha256Context) (m : List ℕ) : Type 0 where
  pub full : List ℕ
  pub count : ℕ
  pub whole : length full ≡ count * 64
  pub message : m ≡ full ++ take c.block_used c.block
  pub hashed : c.state ≡ compress count initial_words full
  pub below : c.block_used < 64
  pub sized : length c.block ≡ 64

pub sha256_init-Absorbed : Absorbed sha256_init []
unfolding sha256_init compress
sha256_init-Absorbed = record {
  full = [];
  count = 0;
  whole = refl;
  message = refl;
  hashed = refl;
  below = omega arith;
  sized = refl;
}

absorb-Absorbed :
    (c : Sha256Context) (m p : List ℕ)
    → Absorbed c m
    → c.block_used + length p ≤ 64
    → Absorbed (absorb c p) (m ++ p)
unfolding absorb flush
absorb-Absorbed c m p a h =
    let copied : List ℕ = copy_mem c.block c.block_used p in
    let fits : c.block_used + length p ≤ length c.block = omega (arith, a.sized) in
    let sized : length copied ≡ 64 = length-copy_mem c.block c.block_used p fits ∙ a.sized in
    let rest : take (c.block_used + length p) copied ≡ take c.block_used c.block ++ p =
      take-copy_mem c.block c.block_used p fits in
    let split : m ++ p ≡ a.full ++ take (c.block_used + length p) copied =
      ap (λ t. t ++ p) a.message
      ∙ append_assoc a.full (take c.block_used c.block) p
      ∙ ap (λ t. a.full ++ t) (sym rest) in
    elim (ℕ_discrete (c.block_used + length p) 64) [
      | yes e ↦ rw (eqb_true (c.block_used + length p) 64 e) (record {
        full = a.full ++ copied;
        count = suc a.count;
        whole = omega (arith, length-append a.full copied, a.whole, sized);
        message =
            split
            ∙ ap (λ t. a.full ++ t)
                (take_all (c.block_used + length p) copied (omega (arith, sized)))
            ∙ sym (append-nil (a.full ++ copied));
        hashed =
            ap (λ t. transform t copied) a.hashed
            ∙ sym (compress-append a.count initial_words a.full copied a.whole sized);
        below = omega arith;
        sized = sized;
      })
      | no n ↦ rw (eqb_false (c.block_used + length p) 64 n) (record {
        full = a.full;
        count = a.count;
        whole = a.whole;
        message = split;
        hashed = a.hashed;
        below = omega arith;
        sized = sized;
      })
    ]

update_loop-Absorbed :
    (fuel : ℕ) (c : Sha256Context) (m p : List ℕ)
    → length p ≤ fuel
    → Absorbed c m
    → Absorbed (update_loop fuel c p) (m ++ p)
unfolding update_loop
update_loop-Absorbed zero c m [] h a = rw (append-nil m) a
update_loop-Absorbed zero c m (x ∷ p) h a = absurd (omega arith)
update_loop-Absorbed (suc fuel) c m [] h a = rw (append-nil m) a
update_loop-Absorbed (suc fuel) c m (x ∷ p) h a =
    let n : ℕ =
      if ltb (length (x ∷ p)) (64 - c.block_used) then length (x ∷ p) else 64 - c.block_used in
    let room : (n ≤ 64 - c.block_used) × (1 ≤ n) × (n ≤ length (x ∷ p)) = ground (arith, a.below) in
    subst (Absorbed (update_loop (suc fuel) c (x ∷ p)))
      (append_assoc m (take n (x ∷ p)) (drop n (x ∷ p))
        ∙ ap (λ t. m ++ t) (take-append-drop n (x ∷ p)))
      (update_loop-Absorbed fuel (absorb c (take n (x ∷ p))) (m ++ take n (x ∷ p)) (drop n (x ∷ p))
        (omega (arith, length-drop n (x ∷ p), room))
        (absorb-Absorbed c m (take n (x ∷ p)) a
          (omega (arith, length-take n (x ∷ p), room, a.below))))

-- A context after the message m.
pub record HasHashed (c : Sha256Context) (m : List ℕ) : Type 0 where
  pub absorbed : Absorbed c m
  pub counted : c.total_bytes ≡ length m % 2 ^ 64

pub sha256_init-HasHashed : HasHashed sha256_init []
unfolding sha256_init
sha256_init-HasHashed = record { absorbed = sha256_init-Absorbed; counted = refl }

absorb_total : (c : Sha256Context) (p : List ℕ) → (absorb c p).total_bytes ≡ c.total_bytes
unfolding absorb flush
absorb_total c p = ground arith

total_kept :
    (fuel : ℕ) (c : Sha256Context) (p : List ℕ) → (update_loop fuel c p).total_bytes ≡ c.total_bytes
unfolding update_loop
total_kept zero c p = refl
total_kept (suc fuel) c [] = refl
total_kept (suc fuel) c (x ∷ p) = total_kept fuel _ _ ∙ absorb_total c _

pub sha256_update-HasHashed :
    (c : Sha256Context) (m p : List ℕ) → HasHashed c m → HasHashed (sha256_update c p) (m ++ p)
unfolding sha256_update
sha256_update-HasHashed c m p a = record {
  absorbed = update_loop-Absorbed (length p) _ m p (omega arith) (record {
    full = a.absorbed.full;
    count = a.absorbed.count;
    whole = a.absorbed.whole;
    message = a.absorbed.message;
    hashed = a.absorbed.hashed;
    below = a.absorbed.below;
    sized = a.absorbed.sized;
  });
  counted = total_kept (length p) _ p ∙ omega (arith, a.counted, length-append m p);
}

-- The hash, from the padded message in blocks.
pub sha256_padded :
    (m p : List ℕ) (n : ℕ)
    → m ++ padding (length m) ≡ p
    → length p ≡ n * 64
    → sha256 m ≡ digest_bytes (compress n initial_words p)
unfolding sha256
sha256_padded m p n e h = let k : n * 64 / 64 ≡ n = omega arith in rw (e, h, k) refl
