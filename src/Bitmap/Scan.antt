-- ===== src/Bitmap/Scan.antt =====
-- The answer of NtfsScanBitmapRange.
use ntfs_efi.Prelude.{
  ℕ, zero, suc, ◌+◌, ◌-◌, ◌%◌, ◌^◌, ◌<◌, ◌≤◌, ◌≡◌, ◌≢◌, refl, leb→le, ltb→lt, false, ◌&&◌, List,
  ltb, leb, ◌==◌, arith, Bool-cases, inl, inr,
}
use ntfs_efi.Bitmap.{
  ScanState, is_used, skip_step, extend_run, keep_best, end_run, take_run, advance, scan_loop,
  start_scan, scan_result, scan_bitmap_range,
}
use ntfs_efi.Bitmap.Skip.{skip_full-Skipped}
use ntfs_efi.Bitmap.Scanned.{
  FreeIn, not_ltb→le, not_ltb_self, Scanned, bounded, skip-Scanned, end_run-Scanned,
  extend_run_start, extend_free, extend_run-Scanned,
}

module _ (buf : List ℕ) (from_bit to_bit needed : ℕ) where
  -- What the scan delivers: a free interval of the range, no longer than asked for, and one that is
  -- shorter only if no free interval of the range is longer.
  pub record Found (start len : ℕ) : Type 0 where
    pub is_free : FreeIn buf start (start + len)
    pub in_range : len ≢ 0 → (from_bit ≤ start) × (start + len ≤ to_bit)
    pub at_most : len ≤ needed
    pub is_longest :
        len < needed → (a e : ℕ) → from_bit ≤ a → a ≤ e → e ≤ to_bit → FreeIn buf a e → e ≤ a + len

  abbrev FoundIn : ScanState → Type 0
  FoundIn s = Found s.best_start s.best_len

  module _ (s : ScanState) (v : Scanned buf from_bit to_bit needed s) where
    keep_best-Found : to_bit ≤ s.bit → FoundIn (keep_best s)
    unfolding keep_best
    keep_best-Found ended = elim (Bool-cases (ltb s.best_len s.run_len)) [
      | inl longer ↦
          let more : s.best_len < s.run_len = ltb→lt s.best_len s.run_len longer in
          let start : s.run_start + s.run_len ≡ s.bit = v.open_run (omega arith) in
          rw longer record {
            is_free = λ i lo hi. v.run_free i (omega arith) (omega arith);
            in_range = λ n. (omega (arith, v.from_le), omega (arith, v.inside));
            at_most = omega (arith, v.run_short);
            is_longest = λ short a e lo ae hi f.
                bounded buf from_bit to_bit needed s v a e _ s.run_len
                  (v.longest a e lo ae (omega arith) f) (omega arith) (omega arith);
          }
      | inr shorter ↦
          let less : s.run_len ≤ s.best_len = not_ltb→le s.best_len s.run_len shorter in
          rw shorter record {
            is_free = v.best_free;
            in_range = λ n. (v.best_from n, omega (arith, v.best_end n, v.inside));
            at_most = omega (arith, v.best_short);
            is_longest = λ short a e lo ae hi f.
                bounded buf from_bit to_bit needed s v a e s.run_len s.best_len
                  (v.longest a e lo ae (omega arith) f) (omega arith) less;
          }
    ]

    take_kept : keep_best (take_run (extend_run s)) ≡ take_run (extend_run s)
    unfolding keep_best take_run extend_run
    take_kept = rw (not_ltb_self (s.run_len + 1))

    take_run-Found :
        s.bit < to_bit
        → to_bit < 2 ^ 64
        → is_used buf s.bit ≡ false
        → needed ≤ s.run_len + 1
        → FoundIn (keep_best (take_run (extend_run s)))
    unfolding take_run extend_run
    take_run-Found lt wide free enough =
        let start : (extend_run s).run_start + (s.run_len + 1) ≡ s.bit + 1 =
          extend_run_start buf from_bit to_bit needed s v lt wide free in
        rw take_kept record {
          is_free = λ i lo hi.
              extend_free buf from_bit to_bit needed s v lt wide free i (omega arith) (omega arith);
          in_range = λ n. (omega (arith, v.from_le), omega arith);
          at_most = omega (arith, v.run_short);
          is_longest = λ short a e lo ae hi f. absurd (omega arith);
        }

    skip_step-Scanned : Scanned buf from_bit to_bit needed (skip_step buf to_bit s)
    unfolding skip_step
    skip_step-Scanned = elim (Bool-cases (s.run_len == 0 && s.bit % 8 == 0)) [
      | inl go ↦ rw go (
          skip-Scanned buf from_bit to_bit needed s v _ (ground arith)
            (skip_full-Skipped buf to_bit s.bit (ground arith)))
      | inr stop ↦ rw stop v
    ]

    skip_step_forward : s.bit ≤ (skip_step buf to_bit s).bit
    unfolding skip_step
    skip_step_forward = elim (Bool-cases (s.run_len == 0 && s.bit % 8 == 0)) [
      | inl go ↦ rw go ((skip_full-Skipped buf to_bit s.bit (ground arith)).forward)
      | inr stop ↦ rw stop (omega arith)
    ]

  scan_loop-Found :
      (fuel : ℕ) (s : ScanState)
      → Scanned buf from_bit to_bit needed s
      → to_bit < 2 ^ 64
      → to_bit ≤ s.bit + fuel
      → FoundIn (keep_best (scan_loop fuel buf to_bit needed s))
  unfolding scan_loop end_run advance extend_run
  scan_loop-Found zero s v wide enough = keep_best-Found s v (omega arith)
  scan_loop-Found (suc fuel) s v wide enough =
      let t = skip_step buf to_bit s in
      let w = skip_step-Scanned s v in
      let on = skip_step_forward s v in
      elim (Bool-cases (leb to_bit s.bit)) [
        | inl done ↦ rw (done) (keep_best-Found s v (leb→le to_bit s.bit done))
        | inr go ↦ elim (Bool-cases (leb to_bit t.bit)) [
          | inl done ↦ rw (go, done) (keep_best-Found t w (leb→le to_bit t.bit done))
          | inr more ↦
              let lt : t.bit < to_bit = ground arith in
              elim (Bool-cases (is_used buf t.bit)) [
                | inl used ↦
                    rw (go, more, used)
                      (scan_loop-Found fuel (end_run t)
                        (end_run-Scanned buf from_bit to_bit needed t w lt used) wide (omega arith))
                | inr free ↦ elim (Bool-cases (leb needed (extend_run t).run_len)) [
                  | inl full ↦
                      rw (go, more, free, full)
                        (take_run-Found t w lt wide free (leb→le needed _ full))
                  | inr short ↦
                      rw (go, more, free, short)
                        (scan_loop-Found fuel (advance (extend_run t))
                          (extend_run-Scanned buf from_bit to_bit needed t w lt wide free
                            (ground arith))
                          wide (omega arith))
                ]
              ]
        ]
      ]

start-Scanned :
    (buf : List ℕ) (from_bit to_bit needed : ℕ)
    → from_bit ≤ to_bit
    → 1 ≤ needed
    → Scanned buf from_bit to_bit needed (start_scan from_bit)
start-Scanned buf from_bit to_bit needed h n = record {
  from_le = omega arith;
  inside = h;
  open_run = λ z. absurd (z refl);
  closed_run = λ z. refl;
  run_free = λ i lo hi. absurd (omega arith);
  run_short = n;
  best_free = λ i lo hi. absurd (omega arith);
  best_from = λ z. absurd (z refl);
  best_end = λ z. absurd (z refl);
  best_short = n;
  tail = λ a lo hi f. omega arith;
  longest = λ a e lo ae hi f. inl (omega arith);
}

scan_result-Found :
    (buf : List ℕ) (from_bit to_bit needed : ℕ) (s : ScanState)
    → Found buf from_bit to_bit needed s.best_start s.best_len
    → Found buf from_bit to_bit needed (scan_result s).0 (scan_result s).1
unfolding scan_result
scan_result-Found buf from_bit to_bit needed s f = elim (Bool-cases (s.best_len == 0)) [
  | inl z ↦
      let e : s.best_len ≡ 0 = ground arith in
      rw z record {
        is_free = λ i lo hi. absurd (omega arith);
        in_range = λ n. absurd (n e);
        at_most = f.at_most;
        is_longest = f.is_longest;
      }
  | inr n ↦ rw n f
]

-- The scan of a range of a bitmap below 2 ^ 64, for at least one cluster, returns a free interval of
-- that range of at most the length asked for; if it is shorter than that, no free interval of the
-- range is longer.
pub scan_bitmap_range-Found :
    (buf : List ℕ) (from_bit to_bit needed : ℕ)
    → from_bit ≤ to_bit
    → to_bit < 2 ^ 64
    → 1 ≤ needed
    → Found buf from_bit to_bit needed
        (scan_bitmap_range buf from_bit to_bit needed).0
        (scan_bitmap_range buf from_bit to_bit needed).1
unfolding scan_bitmap_range
scan_bitmap_range-Found buf from_bit to_bit needed h wide n =
    scan_result-Found buf from_bit to_bit needed _ (
      scan_loop-Found buf from_bit to_bit needed (to_bit - from_bit) (start_scan from_bit)
        (start-Scanned buf from_bit to_bit needed h n) wide (omega arith))
