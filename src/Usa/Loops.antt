-- ===== src/Usa/Loops.antt =====
-- What the two loops over the sectors of a record do, word by word.
use ntfs_efi.Prelude.{
  ℕ, zero, suc, ◌+◌, ◌-◌, ◌*◌, ◌<◌, ◌≤◌, ◌≡◌, ◌≢◌, refl, ◌∙◌, List, get_or, arith, ℕ_discrete,
  eqb_true, ◌⊎◌, inl, inr,
}
use ntfs_efi.Prelude.Status.{ok}
use ntfs_efi.Usa.{read16, write16, sector_end, fixup_loop, unfixup_loop}
use ntfs_efi.Usa.Words.{
  IsRecord, write16-IsRecord, read16-lt, read16-write16_self, get_or-write16_ne, read16-write16_ne,
}

-- An update sequence array of `count` words at `usa` that ends in front of the last word of the first
-- sector, in a record of `size` bytes that holds all the sectors.
pub record Layout (usa count bps size : ℕ) : Type 0 where
  pub room : usa + count * 2 + 2 ≤ bps
  pub sectors : (count - 1) * bps ≤ size
  pub array : usa + count * 2 ≤ size

step_apart : (i j bps : ℕ) → i < j → i * bps + bps ≤ j * bps
step_apart i j bps h = grind arith

scaled : (i j bps : ℕ) → i ≤ j → i * bps ≤ j * bps
scaled i j bps h = grind arith

module _ {usa count bps size : ℕ} (y : Layout usa count bps size) where
  -- A position in the last word of one of the sectors from i on.
  abbrev pub OffEnds : ℕ → ℕ → Type 0
  OffEnds i k = (j : ℕ) → i ≤ j → j < count → (k ≢ sector_end bps j) × (k ≢ sector_end bps j + 1)

  pub end_low : (j : ℕ) → 1 ≤ j → usa + count * 2 ≤ sector_end bps j
  end_low j h = omega (arith, step_apart 0 j bps h, y.room)

  end_high : (j : ℕ) → 1 ≤ j → j < count → sector_end bps j + 1 < size
  end_high j h lt =
      omega (arith, y.sectors, y.room, step_apart 0 j bps h, scaled j (count - 1) bps (omega arith))

  ends_apart : (i j : ℕ) → 1 ≤ i → i < j → sector_end bps i + 2 ≤ sector_end bps j
  ends_apart i j h lt = omega (arith, step_apart i j bps lt, step_apart 0 i bps h, y.room)

  slot_low : (j : ℕ) → j < count → usa + j * 2 + 2 ≤ usa + count * 2
  slot_low j h = omega arith

  -- From sector i on: the last words hold what the array held, and nothing else has changed.
  pub record Fixed (i : ℕ) (buf out : List ℕ) : Type 0 where
    pub frame : (k : ℕ) → OffEnds i k → get_or out k 0 ≡ get_or buf k 0
    pub ends :
        (j : ℕ) → i ≤ j → j < count → read16 out (sector_end bps j) ≡ read16 buf (usa + j * 2)
    pub rec : IsRecord size out

  -- A word in front of all the ends, or one that is itself an earlier end, keeps clear of the rest.
  frame16 :
      (i o : ℕ) (buf out : List ℕ)
      → Fixed i buf out
      → OffEnds i o
      → OffEnds i (o + 1)
      → read16 out o ≡ read16 buf o
  unfolding read16
  frame16 i o buf out f a b = omega (arith, f.frame o a, f.frame (o + 1) b)

  earlier_end : (i : ℕ) → 1 ≤ i → OffEnds (i + 1) (sector_end bps i)
  earlier_end i h j lo lt =
      let d = ends_apart i j h (omega arith) in (omega (arith, d), omega (arith, d))

  earlier_end_high : (i : ℕ) → 1 ≤ i → OffEnds (i + 1) (sector_end bps i + 1)
  earlier_end_high i h j lo lt =
      let d = ends_apart i j h (omega arith) in (omega (arith, d), omega (arith, d))

  Fixed-step :
      (i : ℕ) (buf out : List ℕ)
      → 1 ≤ i
      → i < count
      → IsRecord size buf
      → Fixed (i + 1) (write16 buf (sector_end bps i) (read16 buf (usa + i * 2))) out
      → Fixed i buf out
  Fixed-step i buf out h lt r f = record {
    frame = λ k off.
        f.frame k (λ j lo hi. off j (omega arith) hi)
        ∙ get_or-write16_ne buf (sector_end bps i) _ k (off i (omega arith) lt).0
            (off i (omega arith) lt).1;
    ends = λ j lo hi. elim (ℕ_discrete i j) [
      | yes e ↦ rw (← e) (
          frame16 (i + 1) (sector_end bps i) _ out f (earlier_end i h) (earlier_end_high i h)
          ∙ read16-write16_self buf (sector_end bps i) _ (read16-lt size buf (usa + i * 2) r)
              (omega (arith, end_high i h lt, r.sized)))
      | no n ↦
          f.ends j (omega arith) hi
          ∙ read16-write16_ne buf (sector_end bps i) _ (usa + j * 2)
              (omega (arith, end_low i h, slot_low j hi))
              (omega (arith, end_low i h, slot_low j hi))
              (omega (arith, end_low i h, slot_low j hi))
    ];
    rec = f.rec;
  }

  pub keeps_end :
      (i j v : ℕ) (buf : List ℕ)
      → 1 ≤ i
      → i < j
      → read16 (write16 buf (sector_end bps i) v) (sector_end bps j) ≡ read16 buf (sector_end bps j)
  keeps_end i j v buf h lt =
      let d = ends_apart i j h lt in
      read16-write16_ne buf (sector_end bps i) _ (sector_end bps j) (omega (arith, d))
        (omega (arith, d)) (omega (arith, d))

  -- Where every last word from sector i on is the number, the loop succeeds.
  pub fixup_loop-Fixed :
      (n i usn : ℕ) (buf : List ℕ)
      → i + n ≡ count
      → 1 ≤ i
      → IsRecord size buf
      → ((j : ℕ) → i ≤ j → j < count → read16 buf (sector_end bps j) ≡ usn)
      → (out : List ℕ) × (fixup_loop n i usa bps usn buf ≡ ok out) × Fixed i buf out
  unfolding fixup_loop
  fixup_loop-Fixed zero i usn buf e h r m =
      (buf, refl, record { frame = λ k off. refl; ends = λ j lo hi. absurd (omega arith); rec = r })
  fixup_loop-Fixed (suc n) i usn buf e h r m =
      let lt : i < count = omega arith in
      let (out, q, f) =
        fixup_loop-Fixed n (i + 1) usn (write16 buf (sector_end bps i) (read16 buf (usa + i * 2)))
          (omega arith) (omega arith) (write16-IsRecord size buf (sector_end bps i) _ r)
          (λ j lo hi. keeps_end i j _ buf h (omega arith) ∙ m j (omega arith) hi) in
      (out, rw (eqb_true _ usn (m i (omega arith) lt)) q, Fixed-step i buf out h lt r f)

  -- From sector i on: the array holds the last words, and these hold the number.
  pub record Unfixed (i usn : ℕ) (buf raw : List ℕ) : Type 0 where
    pub frame :
        (k : ℕ)
        → OffEnds i k
        → (k < usa + i * 2) ⊎ (usa + count * 2 ≤ k)
        → get_or raw k 0 ≡ get_or buf k 0
    pub slots :
        (j : ℕ) → i ≤ j → j < count → read16 raw (usa + j * 2) ≡ read16 buf (sector_end bps j)
    pub ends : (j : ℕ) → i ≤ j → j < count → read16 raw (sector_end bps j) ≡ usn
    pub rec : IsRecord size raw

  module _ (i usn : ℕ) (buf : List ℕ) (h : 1 ≤ i) (lt : i < count) (r : IsRecord size buf) where
    -- One round of the loop.
    abbrev saved : List ℕ
    saved = write16 buf (usa + i * 2) (read16 buf (sector_end bps i))

    abbrev stamped : List ℕ
    stamped = write16 saved (sector_end bps i) usn

    saved-IsRecord : IsRecord size saved
    saved-IsRecord = write16-IsRecord size buf (usa + i * 2) _ r

    stamped_later_end :
        (j : ℕ) → i < j → read16 stamped (sector_end bps j) ≡ read16 buf (sector_end bps j)
    stamped_later_end j lo =
        let low = end_low j (omega arith) in
        keeps_end i j usn saved h lo
        ∙ read16-write16_ne buf (usa + i * 2) _ (sector_end bps j) (omega (arith, low))
            (omega (arith, low)) (omega (arith, low))

    stamped_end : usn < 65536 → read16 stamped (sector_end bps i) ≡ usn
    stamped_end u =
        read16-write16_self saved (sector_end bps i) usn u
          (omega (arith, end_high i h lt, saved-IsRecord.sized))

    stamped_slot : read16 stamped (usa + i * 2) ≡ read16 buf (sector_end bps i)
    stamped_slot =
        let low = end_low i h in
        read16-write16_ne saved (sector_end bps i) usn (usa + i * 2) (omega (arith, low))
          (omega (arith, low)) (omega (arith, low))
        ∙ read16-write16_self buf (usa + i * 2) _ (read16-lt size buf (sector_end bps i) r)
            (omega (arith, low, end_high i h lt, r.sized))

    stamped_off :
        (k : ℕ)
        → k ≢ usa + i * 2
        → k ≢ usa + i * 2 + 1
        → k ≢ sector_end bps i
        → k ≢ sector_end bps i + 1
        → get_or stamped k 0 ≡ get_or buf k 0
    stamped_off k a b c d =
        get_or-write16_ne saved (sector_end bps i) usn k c d
        ∙ get_or-write16_ne buf (usa + i * 2) _ k a b

  pub word_frame :
      (i usn o : ℕ) (buf raw : List ℕ)
      → Unfixed i usn buf raw
      → OffEnds i o
      → OffEnds i (o + 1)
      → (o < usa + i * 2) ⊎ (usa + count * 2 ≤ o)
      → (o + 1 < usa + i * 2) ⊎ (usa + count * 2 ≤ o + 1)
      → read16 raw o ≡ read16 buf o
  unfolding read16
  word_frame i usn o buf raw f a b c d = omega (arith, f.frame o a c, f.frame (o + 1) b d)

  pub slot_off : (i k : ℕ) → k < usa + count * 2 → OffEnds (i + 1) k
  slot_off i k h j lo hi =
      let low = end_low j (omega arith) in (omega (arith, low), omega (arith, low))

  Unfixed-step :
      (i usn : ℕ) (buf raw : List ℕ) (h : 1 ≤ i) (lt : i < count) (r : IsRecord size buf)
      → usn < 65536
      → Unfixed (i + 1) usn (stamped i usn buf h lt r) raw
      → Unfixed i usn buf raw
  Unfixed-step i usn buf raw h lt r u f = record {
    frame = λ k off side.
        f.frame k (λ j lo hi. off j (omega arith) hi) (omega arith)
        ∙ stamped_off i usn buf h lt r k (omega arith) (omega arith) (off i (omega arith) lt).0
            (off i (omega arith) lt).1;
    slots = λ j lo hi. elim (ℕ_discrete i j) [
      | yes e ↦ rw (← e) (
          word_frame (i + 1) usn (usa + i * 2) _ raw f (slot_off i (usa + i * 2) (omega arith))
            (slot_off i (usa + i * 2 + 1) (omega arith)) (inl (omega arith)) (inl (omega arith))
          ∙ stamped_slot i usn buf h lt r)
      | no n ↦ f.slots j (omega arith) hi ∙ stamped_later_end i usn buf h lt r j (omega arith)
    ];
    ends = λ j lo hi. elim (ℕ_discrete i j) [
      | yes e ↦ rw (← e) (
          word_frame (i + 1) usn (sector_end bps i) _ raw f (earlier_end i h) (earlier_end_high i h)
            (inr (omega (arith, end_low i h))) (inr (omega (arith, end_low i h)))
          ∙ stamped_end i usn buf h lt r u)
      | no n ↦ f.ends j (omega arith) hi
    ];
    rec = f.rec;
  }

  pub unfixup_loop-Unfixed :
      (n i usn : ℕ) (buf : List ℕ)
      → i + n ≡ count
      → 1 ≤ i
      → usn < 65536
      → IsRecord size buf
      → Unfixed i usn buf (unfixup_loop n i usa bps usn buf)
  unfolding unfixup_loop
  unfixup_loop-Unfixed zero i usn buf e h u r = record {
    frame = λ k off side. refl;
    slots = λ j lo hi. absurd (omega arith);
    ends = λ j lo hi. absurd (omega arith);
    rec = r;
  }
  unfixup_loop-Unfixed (suc n) i usn buf e h u r =
      let lt : i < count = omega arith in
      Unfixed-step i usn buf _ h lt r u (
        unfixup_loop-Unfixed n (i + 1) usn (stamped i usn buf h lt r) (omega arith) (omega arith) u
          (write16-IsRecord size (saved i usn buf h lt r) (sector_end bps i) usn
            (saved-IsRecord i usn buf h lt r)))
