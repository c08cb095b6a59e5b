-- ===== src/Mft.antt =====
-- src/ntfs_mft.c: the cache of MFT records and NtfsEfiReadFileRecord. A record is the list of its
-- bytes; the read of the $DATA attribute of $MFT is a function from an offset and a length to the
-- bytes that were read.
pub mod Cache
pub mod Read
mod Runs
use ntfs_efi.Prelude.{
  ℕ, ◌+◌, ◌*◌, ◌%◌, ◌^◌, Bool, true, false, ◌&&◌, ◌||◌, Option, none, some, List, [], ◌∷◌, length,
  set, replicate, ltb, ◌==◌, if◌then◌else◌,
}
use ntfs_efi.Prelude.Status.{Result, ok, err, volume_corrupted, device_error}
use ntfs_efi.Usa.{Geometry, read16, fixup_record}

abbrev pub mft_cache_entries : ℕ
mft_cache_entries = 16

abbrev pub mft_cache_recsize : ℕ
mft_cache_recsize = 4096

-- MftCacheValid[i], MftCacheIndex[i] and the first BytesPerFileRecord bytes of MftCacheData[i].
pub record CacheSlot : Type 0 where
  pub valid : Bool
  pub index : ℕ
  pub image : List ℕ

pub record MftCache : Type 0 where
  pub slots : List CacheSlot
  pub next : ℕ

-- The cache of a VCB that has just been allocated, all zero.
abbrev pub empty_slot : CacheSlot
empty_slot = record { valid = false; index = 0; image = [] }

abbrev pub fresh_cache : MftCache
fresh_cache = record { slots = replicate mft_cache_entries empty_slot; next = 0 }

unfoldable pub holds : CacheSlot → ℕ → Bool
holds s mft_index = s.valid && s.index == mft_index

-- The loop of NtfsMftCachePut, from slot i on.
pub find_slot : List CacheSlot → ℕ → ℕ → Option ℕ
find_slot [] i mft_index = none
find_slot (s ∷ l) i mft_index =
    let later = find_slot l (i + 1) mft_index in if holds s mft_index then some i else later

-- The label `store` of NtfsMftCachePut.
pub store : MftCache → ℕ → ℕ → List ℕ → MftCache
store c slot mft_index image = record c {
  slots = set c.slots slot (record { valid = true; index = mft_index; image = image });
}

-- The slot is the record's own, or the next in turn.
pub put_at : MftCache → ℕ → List ℕ → Option ℕ → MftCache
put_at c mft_index image (some slot) = store c slot mft_index image
put_at c mft_index image none =
    store (record c { next = (c.next + 1) % mft_cache_entries }) c.next mft_index image

-- NtfsMftCachePut
pub cache_put : Geometry → MftCache → ℕ → List ℕ → MftCache
cache_put g c mft_index image =
    if ltb mft_cache_recsize g.bytes_per_file_record
    then c
    else put_at c mft_index image (find_slot c.slots 0 mft_index)

-- The loop over the cache in NtfsEfiReadFileRecord.
unfoldable pub cache_get : List CacheSlot → ℕ → Option (List ℕ)
cache_get [] mft_index = none
cache_get (s ∷ l) mft_index =
    let later = cache_get l mft_index in if holds s mft_index then some s.image else later

unfoldable pub read32 : List ℕ → ℕ → ℕ
read32 buf o = read16 buf o + read16 buf (o + 2) * 65536

unfoldable pub read64 : List ℕ → ℕ → ℕ
read64 buf o = read32 buf o + read32 buf (o + 4) * 2 ^ 32

-- The fields of FILE_RECORD_HEADER that the check reads.
unfoldable pub attribute_offset : List ℕ → ℕ
attribute_offset buf = read16 buf 20

unfoldable pub bytes_in_use : List ℕ → ℕ
bytes_in_use buf = read32 buf 24

unfoldable pub bytes_allocated : List ℕ → ℕ
bytes_allocated buf = read32 buf 28

-- The condition under which NtfsEfiReadFileRecord refuses a record that is fixed up.
unfoldable pub header_bad : Geometry → List ℕ → Bool
header_bad g buf =
    ltb g.bytes_per_file_record (attribute_offset buf)
    || (ltb g.bytes_per_file_record (bytes_in_use buf)
        || (ltb g.bytes_per_file_record (bytes_allocated buf)
            || ltb (bytes_in_use buf) (attribute_offset buf)))

-- What follows the fixup.
pub accept_record : Geometry → MftCache → ℕ → Result (List ℕ) → Result (List ℕ) × MftCache
accept_record g c mft_index (err e) = (err volume_corrupted, c)
accept_record g c mft_index (ok buf) =
    if header_bad g buf then (err volume_corrupted, c) else (ok buf, cache_put g c mft_index buf)

-- What follows a miss in the cache, from the bytes that were read.
pub check_record : Geometry → MftCache → ℕ → List ℕ → Result (List ℕ) × MftCache
check_record g c mft_index buf =
    if length buf == g.bytes_per_file_record
    then accept_record g c mft_index (fixup_record g buf)
    else (err device_error, c)

pub read_cached :
    Geometry → (ℕ → ℕ → List ℕ) → MftCache → ℕ → Option (List ℕ) → Result (List ℕ) × MftCache
read_cached g read_mft c mft_index (some image) = (ok image, c)
read_cached g read_mft c mft_index none =
    check_record g c mft_index
      (read_mft (mft_index * g.bytes_per_file_record % 2 ^ 64) g.bytes_per_file_record)

-- NtfsEfiReadFileRecord: the record or the error, and the cache after it.
pub read_file_record : Geometry → (ℕ → ℕ → List ℕ) → MftCache → ℕ → Result (List ℕ) × MftCache
read_file_record g read_mft c mft_index =
    read_cached g read_mft c mft_index (cache_get c.slots mft_index)
