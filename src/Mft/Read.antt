-- ===== src/Mft/Read.antt =====
-- What NtfsEfiReadFileRecord lets through, from the disk or from the cache.
use ntfs_efi.Prelude.{
  ℕ, zero, suc, ◌*◌, ◌%◌, ◌^◌, ◌≤◌, ◌≡◌, refl, true, false, none, some, List, [], ◌∷◌, length, set,
  replicate, ltb, ◌==◌, arith, Bool-cases, Option-cases, inl, inr, eqb_true,
}
use ntfs_efi.Prelude.Status.{Result, ok, err, volume_corrupted, device_error, ok_injective}
use ntfs_efi.Usa.{Geometry, fixup_record}
use ntfs_efi.Mft.{
  CacheSlot, MftCache, empty_slot, fresh_cache, holds, find_slot, store, put_at, cache_put,
  cache_get, mft_cache_entries, mft_cache_recsize, attribute_offset, bytes_in_use, bytes_allocated,
  header_bad, accept_record, check_record, read_cached, read_file_record,
}
use ntfs_efi.Mft.Cache.{IsCache, cache_put-IsCache, cache_get-cache_put}

-- Every record in the cache has passed the check of its header.
abbrev pub IsChecked : Geometry → List CacheSlot → Type 0
IsChecked g [] = Unit {0}
IsChecked g (s ∷ l) = (s.valid ≡ true → header_bad g s.image ≡ false) × IsChecked g l

pub record IsSound (g : Geometry) (c : MftCache) : Type 0 where
  pub cache : IsCache c
  pub checked : IsChecked g c.slots

empty-IsChecked : (g : Geometry) (n : ℕ) → IsChecked g (replicate n empty_slot)
empty-IsChecked g zero = tt
empty-IsChecked g (suc n) = (λ h. cc, empty-IsChecked g n)

-- The cache of a volume that has just been mounted.
pub fresh_cache-IsSound : (g : Geometry) → IsSound g fresh_cache
fresh_cache-IsSound g = record {
  cache = record { sized = refl; next_slot = omega arith };
  checked = empty-IsChecked g mft_cache_entries;
}

set-IsChecked :
    (g : Geometry) (l : List CacheSlot) (i : ℕ) (s : CacheSlot)
    → header_bad g s.image ≡ false
    → IsChecked g l
    → IsChecked g (set l i s)
set-IsChecked g [] i s h w = tt
set-IsChecked g (t ∷ l) zero s h (w, ws) = (λ _. h, ws)
set-IsChecked g (t ∷ l) (suc i) s h (w, ws) = (w, set-IsChecked g l i s h ws)

cache_put-IsChecked :
    (g : Geometry) (c : MftCache) (k : ℕ) (image : List ℕ)
    → header_bad g image ≡ false
    → IsChecked g c.slots
    → IsChecked g (cache_put g c k image).slots
unfolding cache_put put_at store
cache_put-IsChecked g c k image h w =
    elim (Bool-cases (ltb mft_cache_recsize g.bytes_per_file_record)) [
      | inl big ↦ rw big w
      | inr fits ↦ elim (Option-cases (find_slot c.slots 0 k)) [
        | inl n ↦ rw (fits, n) (set-IsChecked g c.slots c.next _ h w)
        | inr (i, e) ↦ rw (fits, e) (set-IsChecked g c.slots i _ h w)
      ]
    ]

cache_get-IsChecked :
    (g : Geometry) (l : List CacheSlot) (k : ℕ) (image : List ℕ)
    → IsChecked g l
    → cache_get l k ≡ some image
    → header_bad g image ≡ false
unfolding cache_get holds
cache_get-IsChecked g [] k image w h = cc
cache_get-IsChecked g (s ∷ l) k image (w, ws) h = elim (Bool-cases (holds s k)) [
  | inl here ↦ ground (arith, here, h, w)
  | inr off ↦ cache_get-IsChecked g l k image ws (rw off at h)
]

-- The outcomes of a read, with the cache that it leaves.
data Outcome (g : Geometry) (c : MftCache) (k : ℕ) : Result (List ℕ) × MftCache → Type 0 where
  failed : (e : _) → Outcome g c k (err e, c)
  hit : (image : List ℕ) → cache_get c.slots k ≡ some image → Outcome g c k (ok image, c)
  loaded :
      (image : List ℕ)
      → header_bad g image ≡ false
      → Outcome g c k (ok image, cache_put g c k image)

accepted :
    (g : Geometry) (c : MftCache) (k : ℕ) (r : Result (List ℕ))
    → Outcome g c k (accept_record g c k r)
unfolding accept_record
accepted g c k (err e) = failed volume_corrupted
accepted g c k (ok buf) = elim (Bool-cases (header_bad g buf)) [
  | inl bad ↦ rw bad (failed volume_corrupted)
  | inr good ↦ rw good (loaded buf good)
]

read_file_record-Outcome :
    (g : Geometry) (read_mft : ℕ → ℕ → List ℕ) (c : MftCache) (k : ℕ)
    → Outcome g c k (read_file_record g read_mft c k)
unfolding read_file_record read_cached check_record
read_file_record-Outcome g read_mft c k = elim (Option-cases (cache_get c.slots k)) [
  | inr (image, h) ↦ rw h (hit image h)
  | inl miss ↦
      elim (Bool-cases (
        length (read_mft (k * g.bytes_per_file_record % 2 ^ 64) g.bytes_per_file_record)
        == g.bytes_per_file_record)) [
          | inl all ↦ rw (miss, all) (accepted g c k _)
          | inr short ↦ rw (miss, short) (failed device_error)
        ]
]

Outcome-IsSound :
    (g : Geometry) (c : MftCache) (k : ℕ) (p : Result (List ℕ) × MftCache)
    → IsSound g c
    → Outcome g c k p
    → IsSound g p.1
Outcome-IsSound g c k _ s (failed e) = s
Outcome-IsSound g c k _ s (hit image h) = s
Outcome-IsSound g c k _ s (loaded image good) = record {
  cache = cache_put-IsCache g c k image s.cache;
  checked = cache_put-IsChecked g c k image good s.checked;
}

Outcome-good :
    (g : Geometry) (c : MftCache) (k : ℕ) (p : Result (List ℕ) × MftCache) (buf : List ℕ)
    → IsSound g c
    → Outcome g c k p
    → p.0 ≡ ok buf
    → header_bad g buf ≡ false
Outcome-good g c k _ buf s (failed e) q = cc
Outcome-good g c k _ buf s (hit image h) q =
    rw (← (ok_injective q)) (cache_get-IsChecked g c.slots k image s.checked h)
Outcome-good g c k _ buf s (loaded image good) q = rw (← (ok_injective q)) good

Outcome-cached :
    (g : Geometry) (c : MftCache) (k : ℕ) (p : Result (List ℕ) × MftCache) (buf : List ℕ)
    → IsCache c
    → g.bytes_per_file_record ≤ mft_cache_recsize
    → Outcome g c k p
    → p.0 ≡ ok buf
    → cache_get p.1.slots k ≡ some buf
Outcome-cached g c k _ buf w small (failed e) q = cc
Outcome-cached g c k _ buf w small (hit image h) q = rw (← (ok_injective q)) h
Outcome-cached g c k _ buf w small (loaded image good) q =
    rw (← (ok_injective q)) (cache_get-cache_put g c k image w small)

pub hit_again :
    (g : Geometry) (read_mft : ℕ → ℕ → List ℕ) (c : MftCache) (k : ℕ) (buf : List ℕ)
    → cache_get c.slots k ≡ some buf
    → read_file_record g read_mft c k ≡ (ok buf, c)
unfolding read_file_record read_cached
hit_again g read_mft c k buf h = rw h refl

-- NtfsEfiReadFileRecord keeps the cache sound, whatever it answers: 16 slots, a next slot that is one
-- of them, and only records whose header has passed the check.
pub read_file_record-IsSound :
    (g : Geometry) (read_mft : ℕ → ℕ → List ℕ) (c : MftCache) (k : ℕ)
    → IsSound g c
    → IsSound g (read_file_record g read_mft c k).1
read_file_record-IsSound g read_mft c k s =
    Outcome-IsSound g c k _ s (read_file_record-Outcome g read_mft c k)

-- A record that NtfsEfiReadFileRecord returns, from a sound cache or from the disk, whatever the disk
-- holds, has its attributes inside its buffer: AttributeOffset is at most BytesInUse, and this and
-- BytesAllocated are at most BytesPerFileRecord.
pub read_file_record_bounds :
    (g : Geometry) (read_mft : ℕ → ℕ → List ℕ) (c : MftCache) (k : ℕ) (buf : List ℕ)
    → IsSound g c
    → (read_file_record g read_mft c k).0 ≡ ok buf
    → (attribute_offset buf ≤ bytes_in_use buf)
      × (bytes_in_use buf ≤ g.bytes_per_file_record)
      × (bytes_allocated buf ≤ g.bytes_per_file_record)
unfolding header_bad
read_file_record_bounds g read_mft c k buf s q =
    ground (arith, Outcome-good g c k _ buf s (read_file_record-Outcome g read_mft c k) q)

-- On a volume whose records fit the slots of the cache, a record that was read once is read again from
-- the cache: whatever the disk holds by then, the same record comes back and the cache stays.
pub read_file_record_again :
    (g : Geometry) (read_mft read_later : ℕ → ℕ → List ℕ) (c : MftCache) (k : ℕ) (buf : List ℕ)
    → IsCache c
    → g.bytes_per_file_record ≤ mft_cache_recsize
    → (read_file_record g read_mft c k).0 ≡ ok buf
    → read_file_record g read_later (read_file_record g read_mft c k).1 k
      ≡ (ok buf, (read_file_record g read_mft c k).1)
read_file_record_again g read_mft read_later c k buf w small q =
    hit_again g read_later _ k buf
      (Outcome-cached g c k _ buf w small (read_file_record-Outcome g read_mft c k) q)

pub read_file_record_miss :
    (g : Geometry) (read_mft : ℕ → ℕ → List ℕ) (c : MftCache) (k : ℕ) (raw out : List ℕ)
    → cache_get c.slots k ≡ none
    → read_mft (k * g.bytes_per_file_record % 2 ^ 64) g.bytes_per_file_record ≡ raw
    → length raw ≡ g.bytes_per_file_record
    → fixup_record g raw ≡ ok out
    → header_bad g out ≡ false
    → read_file_record g read_mft c k ≡ (ok out, cache_put g c k out)
unfolding read_file_record read_cached check_record accept_record
read_file_record_miss g read_mft c k raw out e bytes whole fixed good =
    let n : (length raw == g.bytes_per_file_record) ≡ true = eqb_true _ _ whole in
    rw (read_file_record, e, bytes, n, fixed, good) refl
