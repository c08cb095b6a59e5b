-- ===== src/Allocator/Coherent.antt =====
-- The mirror of $Bitmap against the bitmap on the disk.
use ntfs_efi.Prelude.{
  ℕ, zero, suc, ◌+◌, ◌-◌, ◌*◌, ◌/◌, ◌%◌, ◌^◌, ◌<◌, ◌≤◌, ◌≡◌, refl, ap, ◌∙◌, sym, true, List, [],
  ◌∷◌, ◌++◌, length, length-take, length-drop, length-set, ltb, take, drop, set, take-append-drop,
  drop-drop, subst, arith, Bool-cases, inl, inr, ◌==◌,
}
use ntfs_efi.Prelude.Status.{ok, ok_injective}
use ntfs_efi.Allocator.{
  Vcb, BitmapFile, set_bit, clear_bit, set_bits, clear_bits, changed_bytes, write_through,
  take_clusters, allocate_clusters, find_run, free_clusters,
}
use ntfs_efi.Allocator.Alloc.{IsMounted, bitmap_bits-le, find_run-RunFound}

take-set : (l : List ℕ) (k i v : ℕ) → k ≤ i → take k (set l i v) ≡ take k l
take-set l zero i v h = refl
take-set [] (suc k) i v h = refl
take-set (x ∷ l) (suc k) zero v h = absurd (omega arith)
take-set (x ∷ l) (suc k) (suc i) v h = ap (λ t. x ∷ t) (take-set l k i v (omega arith))

drop-set : (l : List ℕ) (k i v : ℕ) → i < k → drop k (set l i v) ≡ drop k l
drop-set l zero i v h = absurd (omega arith)
drop-set [] (suc k) i v h = refl
drop-set (x ∷ l) (suc k) zero v h = refl
drop-set (x ∷ l) (suc k) (suc i) v h = drop-set l k i v (omega arith)

-- Replacing the middle of a list by that of another with the same ends gives the other.
spliced :
    (a b : List ℕ) (first n : ℕ)
    → take first a ≡ take first b
    → drop (first + n) a ≡ drop (first + n) b
    → take first a ++ (take n (drop first b) ++ drop (first + n) a) ≡ b
spliced a b first n p q =
    rw (p, q, sym (drop-drop first n b), take-append-drop n (drop first b))
      (take-append-drop first b)

take-set_bits : (n k i : ℕ) (l : List ℕ) → k ≤ i / 8 → take k (set_bits n i l) ≡ take k l
unfolding set_bits set_bit
take-set_bits zero k i l h = refl
take-set_bits (suc n) k i l h = take-set_bits n k (i + 1) _ (omega arith) ∙ take-set l k (i / 8) _ h

drop-set_bits : (n k i : ℕ) (l : List ℕ) → i + n ≤ k * 8 → drop k (set_bits n i l) ≡ drop k l
unfolding set_bits set_bit
drop-set_bits zero k i l h = refl
drop-set_bits (suc n) k i l h =
    drop-set_bits n k (i + 1) _ (omega arith) ∙ drop-set l k (i / 8) _ (omega arith)

take-clear_bits : (n k i : ℕ) (l : List ℕ) → k ≤ i / 8 → take k (clear_bits n i l) ≡ take k l
unfolding clear_bits clear_bit
take-clear_bits zero k i l h = refl
take-clear_bits (suc n) k i l h =
    take-clear_bits n k (i + 1) _ (omega arith) ∙ take-set l k (i / 8) _ h

drop-clear_bits : (n k i : ℕ) (l : List ℕ) → i + n ≤ k * 8 → drop k (clear_bits n i l) ≡ drop k l
unfolding clear_bits clear_bit
drop-clear_bits zero k i l h = refl
drop-clear_bits (suc n) k i l h =
    drop-clear_bits n k (i + 1) _ (omega arith) ∙ drop-set l k (i / 8) _ (omega arith)

last_byte : (start n : ℕ) → 1 ≤ n → start + n ≤ (start / 8 + changed_bytes start n) * 8
unfolding changed_bytes
last_byte start n h = omega arith

length-set_bits : (n i : ℕ) (l : List ℕ) → length (set_bits n i l) ≡ length l
unfolding set_bits set_bit
length-set_bits zero i l = refl
length-set_bits (suc n) i l = length-set_bits n (i + 1) _ ∙ length-set l (i / 8) _

length-clear_bits : (n i : ℕ) (l : List ℕ) → length (clear_bits n i l) ≡ length l
unfolding clear_bits clear_bit
length-clear_bits zero i l = refl
length-clear_bits (suc n) i l = length-clear_bits n (i + 1) _ ∙ length-set l (i / 8) _

-- A write inside $Bitmap that succeeds: its bytes at their offset, and all others as they were.
abbrev pub IsComplete : BitmapFile → Type 0
IsComplete f =
    (disk : List ℕ) (first : ℕ) (bytes : List ℕ)
    → first + length bytes ≤ length disk
    → f.write_bitmap disk first bytes
      ≡ take first disk ++ (bytes ++ drop (first + length bytes) disk)

-- Where a buffer agrees with the disk in front of FirstByte and behind LastByte, the write of the bytes
-- between gives the buffer.
write_through_buffer :
    (f : BitmapFile) (disk buf : List ℕ) (start n : ℕ)
    → IsComplete f
    → 1 ≤ n
    → start + n ≤ length disk * 8
    → length disk < 2 ^ 32
    → length buf ≡ length disk
    → take (start / 8) disk ≡ take (start / 8) buf
    → drop (start / 8 + changed_bytes start n) disk ≡ drop (start / 8 + changed_bytes start n) buf
    → write_through f disk buf start n ≡ buf
unfolding write_through
write_through_buffer f disk buf start n whole some inside small same p q =
    let inner : start / 8 + changed_bytes start n ≤ length disk =
      unfold changed_bytes in omega arith in
    let narrow : changed_bytes start n % 2 ^ 32 ≡ changed_bytes start n = omega arith in
    let all : length (take (changed_bytes start n) (drop (start / 8) buf)) ≡ changed_bytes start n =
      ground (
        arith,
        length-take (changed_bytes start n) (drop (start / 8) buf),
        length-drop (start / 8) buf,
      ) in
    rw (write_through, narrow)
      (whole disk (start / 8) (take (changed_bytes start n) (drop (start / 8) buf)) (omega arith)
        ∙ rw all (spliced disk buf (start / 8) (changed_bytes start n) p q))

-- The bitmap on the disk is the mirror.
abbrev pub IsCoherent : Vcb → Type 0
IsCoherent v = v.disk_bitmap ≡ v.vol_bitmap

module _ (f : BitmapFile) (whole : IsComplete f) where
  write_through-set_bits :
      (buf : List ℕ) (start n : ℕ)
      → 1 ≤ n
      → start + n ≤ length buf * 8
      → length buf < 2 ^ 32
      → write_through f buf (set_bits n start buf) start n ≡ set_bits n start buf
  write_through-set_bits buf start n h inside small =
      write_through_buffer f buf (set_bits n start buf) start n whole h inside small
        (length-set_bits n start buf) (sym (take-set_bits n (start / 8) start buf (omega arith)))
        (sym (drop-set_bits n _ start buf (last_byte start n h)))

  write_through-clear_bits :
      (buf : List ℕ) (start n : ℕ)
      → 1 ≤ n
      → start + n ≤ length buf * 8
      → length buf < 2 ^ 32
      → write_through f buf (clear_bits n start buf) start n ≡ clear_bits n start buf
  write_through-clear_bits buf start n h inside small =
      write_through_buffer f buf (clear_bits n start buf) start n whole h inside small
        (length-clear_bits n start buf)
        (sym (take-clear_bits n (start / 8) start buf (omega arith)))
        (sym (drop-clear_bits n _ start buf (last_byte start n h)))

  -- On a mounted volume with a mirror below 4 GiB, where the write of $Bitmap succeeds: where the bitmap on
  -- the disk is the mirror, it is so again after NtfsEfiAllocateClusters has found a run for at least
  -- one cluster, although only the bytes from the first to the last of the run are written.
  pub allocate_clusters-IsCoherent :
      (v : Vcb) (needed : ℕ) (run : ℕ × ℕ) (w : Vcb)
      → IsMounted v
      → length v.vol_bitmap < 2 ^ 32
      → 1 ≤ needed
      → IsCoherent v
      → allocate_clusters f v needed ≡ ok (run, w)
      → IsCoherent w
  unfolding allocate_clusters take_clusters
  allocate_clusters-IsCoherent v needed run w m small n c h =
      elim (Bool-cases ((find_run v needed).1 == 0)) [
        | inl z ↦ cc (z, h)
        | inr nz ↦
            let (start, len) = find_run v needed in
            let found = find_run-RunFound v needed m n in
            let inside : (find_run v needed).0 + (find_run v needed).1 ≤ length v.vol_bitmap * 8 =
              ground (arith, found.inside, bitmap_bits-le v) in
            subst (λ (p : (ℕ × ℕ) × Vcb). IsCoherent p.1) (ok_injective (rw nz at h))
              (ap (λ d. write_through f d (set_bits len start v.vol_bitmap) start len) c
                ∙ write_through-set_bits v.vol_bitmap start len (ground arith) inside small)
      ]

  -- With a mirror below 4 GiB, where the write of $Bitmap succeeds: where the bitmap on the disk is the
  -- mirror, it is so again after NtfsEfiFreeClusters of a run inside the mirror.
  pub free_clusters-IsCoherent :
      (v : Vcb) (start count : ℕ)
      → length v.vol_bitmap < 2 ^ 32
      → start + count ≤ length v.vol_bitmap * 8
      → IsCoherent v
      → IsCoherent (free_clusters f v start count)
  unfolding free_clusters
  free_clusters-IsCoherent v start count small inside c = elim (Bool-cases (count == 0)) [
    | inl z ↦ rw z c
    | inr nz ↦
        let reached : ltb ((start + count - 1) / 8) (length v.vol_bitmap) ≡ true = ground arith in
        rw (nz, reached)
          (ap (λ d. write_through f d (clear_bits count start v.vol_bitmap) start count) c
            ∙ write_through-clear_bits v.vol_bitmap start count (ground arith) inside small)
  ]
