-- ===== src/Record/RoundTrip.antt =====
-- A record that is written, on the medium, in memory and in the cache.
use native.Mathlib.Nat.{mod-eq_of_lt}
use ntfs_efi.Prelude.{
  ℕ, zero, suc, ◌+◌, ◌*◌, ◌^◌, ◌<◌, ◌≤◌, ◌≡◌, refl, ap, subst, sym, ◌∙◌, true, false, Option, none,
  some, List, [], ◌∷◌, length, arith, leb, ◌==◌, take, eqb_true,
}
use ntfs_efi.Prelude.Status.{ok}
use ntfs_efi.Disk.{DiskIo, DiskLaws}
use ntfs_efi.Usa.{Geometry, fixup_record, unfixup_record}
use ntfs_efi.Usa.RoundTrip.{IsProtected, Restored, fixup-unfixup_record}
use ntfs_efi.Attr.{AttrCtx, read_attr, write_attr}
use ntfs_efi.Attr.Locate.{IsCached}
use ntfs_efi.Attr.Content.{IsReadable}
use ntfs_efi.Attr.Write.{IsWindow, Written}
use ntfs_efi.Attr.RoundTrip.{write_attr-Written, read_attr-write_attr}
use ntfs_efi.Mft.{MftCache, mft_cache_recsize, cache_get, cache_put, header_bad, read_file_record}
use ntfs_efi.Mft.Read.{hit_again, read_file_record_miss}
use ntfs_efi.Mft.Cache.{IsCache, cache_get-cache_put}
use ntfs_efi.Record.{
  Mounted, FileOutcome, write_file_record, write_multi_sector_record, written_status, byte_offset,
  read_mft,
}
use ntfs_efi.Record.Image.{fixup_image_ok}

take-length : (l : List ℕ) (n : ℕ) → length l ≡ n → take n l ≡ l
take-length [] zero e = refl
take-length [] (suc n) e = refl
take-length (x ∷ l) zero e = absurd (omega (arith, e))
take-length (x ∷ l) (suc n) e = ap (λ t. x ∷ t) (take-length l n (omega (arith, e)))

all_written : (n : ℕ) → written_status n n ≡ ok tt
unfolding written_status
all_written n = let e : (n == n) ≡ true = ground arith in rw e refl

-- What the write of a record leaves: the record in memory is the one that a reader makes of the stamped
-- bytes, and the medium changes at the places of the record only.
pub record Committed {io : DiskIo} {size : ℕ} (laws : DiskLaws io size) (g : Geometry) (bpc : ℕ)
    (c : AttrCtx) (offset : ℕ) (d e : io.Disk) (buf raw out : List ℕ) : Type 0 where
  pub stamped : unfixup_record g buf ≡ some raw
  pub readable : fixup_record g raw ≡ ok out
  pub restored : Restored g buf raw out
  pub written : Written laws bpc c.runs d e offset raw

multi_sector_step :
    (io : DiskIo) (g : Geometry) (bpc : ℕ) (d : io.Disk) (c : AttrCtx) (offset : ℕ)
    (buf raw out : List ℕ) (len : ℕ) (e : io.Disk)
    → unfixup_record g buf ≡ some raw
    → fixup_record g raw ≡ ok out
    → write_attr io bpc d c offset (take len raw) ≡ (len, e)
    → write_multi_sector_record io g bpc d c offset buf len
      ≡ record { status = ok tt; memory = out; disk = e }
unfolding write_multi_sector_record
multi_sector_step io g bpc d c offset buf raw out len e stamped readable q =
    rw (write_multi_sector_record, stamped, q, all_written len, fixup_image_ok g raw out readable)
      refl

file_record_step :
    (io : DiskIo) (g : Geometry) (bpc : ℕ) (find_data : List ℕ → Option AttrCtx) (s : Mounted io)
    (k : ℕ) (buf raw out : List ℕ) (e : io.Disk)
    → 3 < k
    → unfixup_record g buf ≡ some raw
    → fixup_record g raw ≡ ok out
    → write_attr io bpc s.disk s.mft (byte_offset g k) (take g.bytes_per_file_record raw)
      ≡ (g.bytes_per_file_record, e)
    → write_file_record io g bpc find_data s k buf ≡ record {
      status = ok tt;
      memory = out;
      after = record { disk = e; mft = s.mft; cache = cache_put g s.cache k out };
    }
unfolding write_file_record
file_record_step io g bpc find_data s k buf raw out e high stamped readable q =
    let full : (g.bytes_per_file_record == g.bytes_per_file_record) ≡ true = eqb_true _ _ refl in
    let unmirrored : leb k 3 ≡ false = ground arith in
    rw
      (
        write_file_record,
        stamped,
        q,
        all_written g.bytes_per_file_record,
        full,
        unmirrored,
        fixup_image_ok g raw out readable,
      )
      refl

module _ {io : DiskIo} {size : ℕ} (laws : DiskLaws io size) (g : Geometry) (bpc : ℕ) (d : io.Disk)
    (c : AttrCtx) (offset len : ℕ) (buf : List ℕ) (p : IsProtected g len buf)
    (w : IsReadable bpc size c.runs) (nonresident : c.is_non_resident ≡ true)
    (fits : offset + len < 2 ^ 64) (win : IsWindow laws bpc c.runs offset len) where
  -- The write of the stamped bytes, in full.
  commit :
      (raw out : List ℕ) × (e : io.Disk) × (write_attr io bpc d c offset (take len raw) ≡ (len, e))
      × (length raw ≡ len)
      × Committed laws g bpc c offset d e buf raw out
  commit =
      let (raw, out, stamped, readable, restored) = fixup-unfixup_record g len buf p in
      let n : length raw ≡ len = restored.sized ∙ p.rec.sized in
      let (e, q, wr) =
        write_attr-Written laws bpc d c offset raw w nonresident (rw n fits) (rw n win) in
      (
        raw,
        out,
        e,
        rw (take-length raw len n) (q ∙ ap (λ t. (t, e)) n),
        n,
        record { stamped = stamped; readable = readable; restored = restored; written = wr },
      )

  -- For a non-resident attribute whose runs lie on the medium, the medium and the runs being shorter than
  -- 2 ^ 64 bytes: a record with a sound update sequence array, written to a window of the attribute that
  -- ends below 2 ^ 64, has no hole and maps no two bytes to one place, is written with success. The stamped
  -- bytes stand at the window's places and nothing else on the medium changes; the record in memory is the
  -- one that a reader makes of them, with the end of every sector restored.
  pub write_multi_sector_record_lem :
      (raw out : List ℕ) × (e : io.Disk) × (write_multi_sector_record io g bpc d c offset buf len
        ≡ record { status = ok tt; memory = out; disk = e })
      × Committed laws g bpc c offset d e buf raw out
  write_multi_sector_record_lem =
      let (raw, out, e, q, n, whole) = commit in
      (
        raw,
        out,
        e,
        multi_sector_step io g bpc d c offset buf raw out len e whole.stamped whole.readable q,
        whole,
      )

module _ {io : DiskIo} {size : ℕ} (laws : DiskLaws io size) (g : Geometry) (bpc : ℕ)
    (find_data : List ℕ → Option AttrCtx) (s : Mounted io) (k : ℕ) (buf : List ℕ)
    (p : IsProtected g g.bytes_per_file_record buf) (w : IsReadable bpc size s.mft.runs)
    (nonresident : s.mft.is_non_resident ≡ true)
    (fits : k * g.bytes_per_file_record + g.bytes_per_file_record < 2 ^ 64)
    (win : IsWindow laws bpc s.mft.runs (k * g.bytes_per_file_record) g.bytes_per_file_record) where
  -- What later reads of the record give: through the cache that the write leaves, and from the disk
  -- through a cache c.
  pub record IsReread (o : FileOutcome io) (c : MftCache) : Type 0 where
    pub succeeds : o.status ≡ ok tt
    pub cached : (read_file_record g (read_mft io bpc o.after) o.after.cache k).0 ≡ ok o.memory
    pub from_disk : (read_file_record g (read_mft io bpc o.after) c k).0 ≡ ok o.memory

  unwrapped : byte_offset g k ≡ k * g.bytes_per_file_record
  unwrapped = mod-eq_of_lt {n = k * g.bytes_per_file_record} {m = 2 ^ 64} (omega arith)

  file_record_written :
      3 < k
      → (raw out : List ℕ) × (e : io.Disk) × (write_file_record io g bpc find_data s k buf
          ≡ record {
            status = ok tt;
            memory = out;
            after = record { disk = e; mft = s.mft; cache = cache_put g s.cache k out };
          })
        × (write_attr io bpc s.disk s.mft (k * g.bytes_per_file_record) raw
            ≡ (g.bytes_per_file_record, e))
        × (length raw ≡ g.bytes_per_file_record)
        × Committed laws g bpc s.mft (k * g.bytes_per_file_record) s.disk e buf raw out
  file_record_written high =
      let (raw, out, e, q, n, whole) =
        commit laws g bpc s.disk s.mft (k * g.bytes_per_file_record) g.bytes_per_file_record buf p w
          nonresident fits win in
      (
        raw,
        out,
        e,
        file_record_step io g bpc find_data s k buf raw out e high whole.stamped whole.readable
            (rw unwrapped q),
        rw (take-length raw g.bytes_per_file_record n) at q,
        n,
        whole,
      )

  image_read :
      (raw : List ℕ) (e : io.Disk)
      → write_attr io bpc s.disk s.mft (k * g.bytes_per_file_record) raw
        ≡ (g.bytes_per_file_record, e)
      → length raw ≡ g.bytes_per_file_record
      → IsCached bpc s.mft
      → (read_attr io bpc e s.mft (byte_offset g k) g.bytes_per_file_record).0 ≡ raw
  image_read raw e q n ic =
      let back =
        read_attr-write_attr laws bpc s.disk s.mft (k * g.bytes_per_file_record) raw w nonresident
          (rw n fits) (rw n win) ic in
      let back' : (read_attr io bpc e s.mft (k * g.bytes_per_file_record) (length raw)).0 ≡ raw =
        simp q at back in
      ap (λ o. (read_attr io bpc e s.mft o g.bytes_per_file_record).0) unwrapped ∙ rw n at back'

  -- Where the runs of $MFT lie on the medium, the medium and the runs being shorter than 2 ^ 64 bytes, and
  -- the window of the record in $MFT ends below 2 ^ 64, has no hole and maps no two bytes to one place, and
  -- where the cache has its 16 slots and records fit them: the write of an MFT record other than 0 to 3,
  -- with a sound update sequence array and, in memory after the write, a header that the reader accepts,
  -- succeeds. The record in memory is then what a read gives through the cache that the write leaves, and
  -- what a read gives from the disk, through any cache that lacks the record.
  pub read-write_file_record :
      3 < k
      → IsCached bpc s.mft
      → IsCache s.cache
      → g.bytes_per_file_record ≤ mft_cache_recsize
      → header_bad g (write_file_record io g bpc find_data s k buf).memory ≡ false
      → (c : MftCache) → cache_get c.slots k ≡ none
      → IsReread (write_file_record io g bpc find_data s k buf) c
  read-write_file_record high ic wc small good c absent =
      let (raw, out, e, step, q, n, whole) = file_record_written high in
      let after : Mounted io = record {
        disk = e;
        mft = s.mft;
        cache = cache_put g s.cache k out;
      } in
      let good' : header_bad g out ≡ false = simp step at good in
      subst (λ o. IsReread o c) (sym step)
        (record {
          succeeds = refl;
          cached =
              ap (λ r. r.0)
                (hit_again g (read_mft io bpc after) after.cache k out
                  (cache_get-cache_put g s.cache k out wc small));
          from_disk =
              ap (λ r. r.0)
                (read_file_record_miss g (read_mft io bpc after) c k raw out absent
                  (image_read raw e q n ic) n whole.readable good');
        })
