-- ===== src/Mft/Cache.antt =====
-- The cache of MFT records as a map from indices to records.
use ntfs_efi.Prelude.{
  ℕ, zero, suc, ◌+◌, ◌<◌, ◌≤◌, ◌≡◌, refl, ◌∙◌, true, false, none, some, List, [], ◌∷◌, length, take,
  set, length-set, ltb, arith, Bool-cases, Option-cases, inl, inr,
}
use ntfs_efi.Usa.{Geometry}
use ntfs_efi.Mft.{
  CacheSlot, MftCache, holds, find_slot, store, put_at, cache_put, cache_get, mft_cache_entries,
  mft_cache_recsize,
}

get_miss :
    (s : CacheSlot) (l : List CacheSlot) (k : ℕ)
    → holds s k ≡ false
    → cache_get (s ∷ l) k ≡ cache_get l k
unfolding cache_get
get_miss s l k h = rw h refl

get_none :
    (s : CacheSlot) (l : List CacheSlot) (k : ℕ)
    → cache_get (s ∷ l) k ≡ none
    → (holds s k ≡ false) × (cache_get l k ≡ none)
unfolding cache_get
get_none s l k h = elim (Bool-cases (holds s k)) [
  | inl here ↦ cc (here, h)
  | inr off ↦ (off, rw off at h)
]

holds_self :
    (k : ℕ) (image : List ℕ) → holds (record { valid = true; index = k; image = image }) k ≡ true
unfolding holds
holds_self k image = ground arith

get_hit :
    (l : List CacheSlot) (k : ℕ) (image : List ℕ)
    → cache_get (record { valid = true; index = k; image = image } ∷ l) k ≡ some image
unfolding cache_get
get_hit l k image = rw (holds_self k image) refl

-- A slot in front of which the record is not cached, once it is stored to, is the one that is found.
get_stored :
    (l : List CacheSlot) (i k : ℕ) (image : List ℕ)
    → i < length l
    → cache_get (take i l) k ≡ none
    → cache_get (set l i (record { valid = true; index = k; image = image })) k ≡ some image
get_stored [] i k image h n = absurd (omega arith)
get_stored (s ∷ l) zero k image h n = get_hit l k image
get_stored (s ∷ l) (suc i) k image h n =
    let (off, m) = get_none s (take i l) k n in
    get_miss s _ k off ∙ get_stored l i k image (omega arith) m

-- The slot that is found is the first that holds the record.
find_slot-some :
    (l : List CacheSlot) (b k i : ℕ)
    → find_slot l b k ≡ some i
    → (j : ℕ) × (i ≡ b + j) × (j < length l) × (cache_get (take j l) k ≡ none)
unfolding find_slot cache_get
find_slot-some [] b k i h = cc
find_slot-some (s ∷ l) b k i h = elim (Bool-cases (holds s k)) [
  | inl here ↦ (0, ground (arith, here, h), omega arith, refl)
  | inr off ↦
      let (j, e, lt, n) = find_slot-some l (b + 1) k i (rw off at h) in
      (suc j, omega arith, omega arith, rw off n)
]

find_slot-none :
    (l : List CacheSlot) (b k j : ℕ) → find_slot l b k ≡ none → cache_get (take j l) k ≡ none
unfolding find_slot cache_get
find_slot-none [] b k zero h = refl
find_slot-none [] b k (suc j) h = refl
find_slot-none (s ∷ l) b k zero h = refl
find_slot-none (s ∷ l) b k (suc j) h = elim (Bool-cases (holds s k)) [
  | inl here ↦ cc (here, h)
  | inr off ↦ rw off (find_slot-none l (b + 1) k j (rw off at h))
]

-- The table has its 16 slots, and the next slot is one of them.
pub record IsCache (c : MftCache) : Type 0 where
  pub sized : length c.slots ≡ mft_cache_entries
  pub next_slot : c.next < mft_cache_entries

pub cache_put-IsCache :
    (g : Geometry) (c : MftCache) (k : ℕ) (image : List ℕ)
    → IsCache c
    → IsCache (cache_put g c k image)
unfolding cache_put put_at store
cache_put-IsCache g c k image w =
    elim (Bool-cases (ltb mft_cache_recsize g.bytes_per_file_record)) [
      | inl big ↦ rw big w
      | inr fits ↦ elim (Option-cases (find_slot c.slots 0 k)) [
        | inl n ↦
            rw (fits, n)
              (record { sized = length-set c.slots c.next _ ∙ w.sized; next_slot = omega arith })
        | inr (i, e) ↦
            rw (fits, e)
              (record { sized = length-set c.slots i _ ∙ w.sized; next_slot = w.next_slot })
      ]
    ]

-- On a volume whose records fit the slots of the cache, a record that was put is found, whether its
-- index had a slot or takes the next in turn.
pub cache_get-cache_put :
    (g : Geometry) (c : MftCache) (k : ℕ) (image : List ℕ)
    → IsCache c
    → g.bytes_per_file_record ≤ mft_cache_recsize
    → cache_get (cache_put g c k image).slots k ≡ some image
unfolding cache_put put_at store
cache_get-cache_put g c k image w small =
    let fits : ltb mft_cache_recsize g.bytes_per_file_record ≡ false = ground arith in
    elim (Option-cases (find_slot c.slots 0 k)) [
      | inl n ↦
          rw (fits, n)
            (get_stored c.slots c.next k image (omega (arith, w.sized, w.next_slot))
              (find_slot-none c.slots 0 k c.next n))
      | inr (i, e) ↦
          let (j, q, lt, n) = find_slot-some c.slots 0 k i e in
          let same : i ≡ j = omega (arith, q) in
          rw (fits, e, same) (get_stored c.slots j k image lt n)
    ]
