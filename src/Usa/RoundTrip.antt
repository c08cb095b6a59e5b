-- ===== src/Usa/RoundTrip.antt =====
-- A record that is stamped for the disk and fixed up again, and a record that was torn.
use ntfs_efi.Prelude.{
  ℕ, zero, suc, ◌+◌, ◌-◌, ◌*◌, ◌<◌, ◌≤◌, ◌≡◌, ◌≢◌, refl, sym, ◌∙◌, List, length, get_or, arith,
  ◌==◌, ◌||◌, true, false, some, ℕ_discrete, eqb_false, Bool-cases, inl, inr, ◌⊎◌,
}
use ntfs_efi.Prelude.Status.{ok, err, volume_corrupted}
use ntfs_efi.Usa.{
  Geometry, read16, write16, record_type, usa_offset, usa_count, record_size, usa_fits, usa_bounds,
  sector_end, fixup_loop, fixup_record, next_usn, unfixup_loop, unfixup_record,
}
use ntfs_efi.Usa.Words.{
  IsRecord, write16-IsRecord, read16-write16_self, get_or-write16_ne, read16-write16_ne,
}
use ntfs_efi.Usa.Loops.{
  Layout, Fixed, fixup_loop-Fixed, Unfixed, unfixup_loop-Unfixed, word_frame, slot_off, end_low,
  keeps_end,
}

-- A record with its array: in its buffer, after the header, and in front of the end of sector 1.
pub record IsProtected (g : Geometry) (size : ℕ) (buf : List ℕ) : Type 0 where
  pub rec : IsRecord size buf
  pub typed : record_size g (record_type buf) ≡ some size
  pub after_header : 16 ≤ usa_offset buf
  pub counted : 1 ≤ usa_count buf
  pub layout : Layout (usa_offset buf) (usa_count buf) g.bytes_per_sector size

next_usn-lt : (u : ℕ) → next_usn u < 65536
unfolding next_usn
next_usn-lt u = ground arith

module _ (g : Geometry) (size : ℕ) (buf : List ℕ) (p : IsProtected g size buf) where
  protected_bounds : usa_bounds g buf ≡ true
  unfolding usa_bounds usa_fits
  protected_bounds = rw p.typed (ground (arith, p.after_header, p.layout.array, p.layout.sectors))

  protected_test : (usa_offset buf == 0 || usa_count buf == 0) ≡ false
  protected_test = ground (arith, p.after_header, p.counted)

  fixup_record_eq :
      fixup_record g buf
      ≡ fixup_loop
          (usa_count buf - 1)
          1
          (usa_offset buf)
          g.bytes_per_sector
          (read16 buf (usa_offset buf))
          buf
  unfolding fixup_record
  fixup_record_eq = rw (protected_test, protected_bounds)

  abbrev stamped_usn : ℕ
  stamped_usn = next_usn (read16 buf (usa_offset buf))

  abbrev numbered : List ℕ
  numbered = write16 buf (usa_offset buf) stamped_usn

  abbrev raw : List ℕ
  raw = unfixup_loop (usa_count buf - 1) 1 (usa_offset buf) g.bytes_per_sector stamped_usn numbered

  unfixup_record_eq : unfixup_record g buf ≡ some raw
  unfolding unfixup_record
  unfixup_record_eq = rw (protected_test, protected_bounds)

  raw-Unfixed : Unfixed p.layout 1 stamped_usn numbered raw
  raw-Unfixed =
      unfixup_loop-Unfixed p.layout (usa_count buf - 1) 1 stamped_usn numbered
        (omega (arith, p.counted)) (omega arith) (next_usn-lt _)
        (write16-IsRecord size buf (usa_offset buf) stamped_usn p.rec)

  -- The header is not touched.
  header_word : (o : ℕ) → o + 1 < 8 → read16 raw o ≡ read16 buf o
  header_word o h =
      word_frame p.layout 1 stamped_usn o numbered raw raw-Unfixed
        (slot_off p.layout 0 o (omega (arith, p.after_header)))
        (slot_off p.layout 0 (o + 1) (omega (arith, p.after_header)))
        (inl (omega (arith, p.after_header))) (inl (omega (arith, p.after_header)))
      ∙ read16-write16_ne buf (usa_offset buf) stamped_usn o (omega (arith, p.after_header))
          (omega (arith, p.after_header)) (omega (arith, p.after_header))

  number_word : read16 raw (usa_offset buf) ≡ stamped_usn
  number_word =
      word_frame p.layout 1 stamped_usn (usa_offset buf) numbered raw raw-Unfixed
        (slot_off p.layout 0 (usa_offset buf) (omega (arith, p.counted)))
        (slot_off p.layout 0 (usa_offset buf + 1) (omega (arith, p.counted))) (inl (omega arith))
        (inl (omega arith))
      ∙ read16-write16_self buf (usa_offset buf) stamped_usn (next_usn-lt _)
          (omega (arith, p.layout.array, p.rec.sized, p.counted))

  type_kept : record_type raw ≡ record_type buf
  unfolding record_type
  type_kept = rw (header_word 0 (omega arith), header_word 2 (omega arith))

  offset_kept : usa_offset raw ≡ usa_offset buf
  unfolding usa_offset
  offset_kept = header_word 4 (omega arith)

  count_kept : usa_count raw ≡ usa_count buf
  unfolding usa_count
  count_kept = header_word 6 (omega arith)

  raw-IsProtected : IsProtected g size raw
  raw-IsProtected = record {
    rec = raw-Unfixed.rec;
    typed = rw type_kept p.typed;
    after_header = rw offset_kept p.after_header;
    counted = rw count_kept p.counted;
    layout = rw (offset_kept, count_kept) p.layout;
  }

-- What the disk gets, `raw`, and what a reader makes of it, `out`.
pub record Restored (g : Geometry) (buf raw out : List ℕ) : Type 0 where
  pub sized : length raw ≡ length buf
  pub same_header : (o : ℕ) → o < 7 → read16 raw o ≡ read16 buf o
  pub stamped :
      (j : ℕ)
      → 1 ≤ j
      → j < usa_count buf
      → read16 raw (sector_end g.bytes_per_sector j) ≡ next_usn (read16 buf (usa_offset buf))
  pub ends :
      (j : ℕ)
      → 1 ≤ j
      → j < usa_count buf
      → read16 out (sector_end g.bytes_per_sector j) ≡ read16 buf (sector_end g.bytes_per_sector j)
  pub body :
      (k : ℕ)
      → (k < usa_offset buf) ⊎ (usa_offset buf + usa_count buf * 2 ≤ k)
      → ((j : ℕ)
          → 1 ≤ j
          → j < usa_count buf
          → (k ≢ sector_end g.bytes_per_sector j) × (k ≢ sector_end g.bytes_per_sector j + 1))
      → get_or out k 0 ≡ get_or buf k 0

module _ (g : Geometry) (size : ℕ) (buf : List ℕ) (p : IsProtected g size buf) where
  fixed_up :
      (out : List ℕ)
      → fixup_loop
          (usa_count buf - 1)
          1
          (usa_offset buf)
          g.bytes_per_sector
          (stamped_usn g size buf p)
          (raw g size buf p)
        ≡ ok out
      → fixup_record g (raw g size buf p) ≡ ok out
  fixed_up out e =
      fixup_record_eq g size (raw g size buf p) (raw-IsProtected g size buf p)
      ∙ rw (count_kept g size buf p, offset_kept g size buf p, number_word g size buf p) e

  restored :
      (out : List ℕ)
      → Fixed p.layout 1 (raw g size buf p) out
      → Restored g buf (raw g size buf p) out
  restored out f =
      let s = raw-Unfixed g size buf p in
      record {
        sized = s.rec.sized ∙ sym p.rec.sized;
        same_header = λ o h. header_word g size buf p o (omega (arith, h));
        stamped = s.ends;
        ends = λ j lo hi.
            f.ends j lo hi
            ∙ s.slots j lo hi
            ∙ (let low = end_low p.layout j lo in
                read16-write16_ne buf (usa_offset buf) (stamped_usn g size buf p)
                  (sector_end g.bytes_per_sector j) (omega (arith, low, p.counted))
                  (omega (arith, low, p.counted)) (omega (arith, low, p.counted)));
        body = λ k side off.
            f.frame k off
            ∙ s.frame k off (omega (arith, side))
            ∙ get_or-write16_ne buf (usa_offset buf) (stamped_usn g size buf p) k
                (omega (arith, side, p.counted)) (omega (arith, side, p.counted));
      }

-- A record whose update sequence array lies in its buffer, after the header and in front of the end of
-- the first sector, is stamped without an error. The stamped record has as
-- many bytes, keeps the first 8 bytes of the header and has the next number at the end of every sector; fixing it up again
-- succeeds and restores the end of every sector, and every byte that is neither there nor in the array.
pub fixup-unfixup_record :
    (g : Geometry) (size : ℕ) (buf : List ℕ)
    → IsProtected g size buf
    → (raw out : List ℕ) × (unfixup_record g buf ≡ some raw)
      × (fixup_record g raw ≡ ok out)
      × Restored g buf raw out
fixup-unfixup_record g size buf p =
    let r = raw g size buf p in
    let s = raw-Unfixed g size buf p in
    let (out, e, f) =
      fixup_loop-Fixed p.layout (usa_count buf - 1) 1 (stamped_usn g size buf p) r
        (omega (arith, p.counted)) (omega arith) s.rec s.ends in
    (
      r,
      out,
      unfixup_record_eq g size buf p,
      fixed_up g size buf p out e,
      restored g size buf p out f,
    )

-- From sector i on, a sector end that is not the number stops the loop.
fixup_loop-torn :
    {usa count bps size : ℕ} (y : Layout usa count bps size) (n i j usn : ℕ) (buf : List ℕ)
    → i + n ≡ count
    → 1 ≤ i
    → i ≤ j
    → j < count
    → read16 buf (sector_end bps j) ≢ usn
    → fixup_loop n i usa bps usn buf ≡ err volume_corrupted
unfolding fixup_loop
fixup_loop-torn y zero i j usn buf e h lo hi d = absurd (omega arith)
fixup_loop-torn {usa} {bps} y (suc n) i j usn buf e h lo hi d = elim (ℕ_discrete i j) [
  | yes p ↦ rw (eqb_false (read16 buf (sector_end bps i)) usn (rw p d)) refl
  | no q ↦ elim (Bool-cases (read16 buf (sector_end bps i) == usn)) [
    | inl same ↦ rw same (
        fixup_loop-torn y n (i + 1) j usn _ (omega arith) (omega arith) (omega arith) hi
          (rw (keeps_end y i j (read16 buf (usa + i * 2)) buf h (omega arith)) d))
    | inr other ↦ rw other refl
  ]
]

-- A record in which the last word of one sector differs from the update sequence number, as a torn
-- write leaves it, is refused as corrupted.
pub fixup_record-torn :
    (g : Geometry) (size : ℕ) (buf : List ℕ) (j : ℕ)
    → IsProtected g size buf
    → 1 ≤ j
    → j < usa_count buf
    → read16 buf (sector_end g.bytes_per_sector j) ≢ read16 buf (usa_offset buf)
    → fixup_record g buf ≡ err volume_corrupted
fixup_record-torn g size buf j p lo hi d =
    fixup_record_eq g size buf p
    ∙ fixup_loop-torn p.layout (usa_count buf - 1) 1 j (read16 buf (usa_offset buf)) buf
        (omega (arith, p.counted)) (omega arith) lo hi d
