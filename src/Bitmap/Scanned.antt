-- ===== src/Bitmap/Scanned.antt =====
-- The invariant of the loop of NtfsScanBitmapRange.
use ntfs_efi.Prelude.{
  ℕ, ◌+◌, ◌-◌, ◌^◌, ◌<◌, ◌≤◌, ◌≡◌, ◌≢◌, refl, subst, ltb→lt, true, false, List, ltb, ◌==◌, arith,
  Bool-cases, inl, inr, ◌⊎◌, dec_lt, dec_le, ℕ_discrete,
}
use ntfs_efi.Bitmap.{ScanState, no_run, is_used, extend_run, keep_best, end_run, advance}
use ntfs_efi.Bitmap.Skip.{UsedIn, Skipped}

-- The bits from s up to e are all free.
abbrev pub FreeIn : List ℕ → ℕ → ℕ → Type 0
FreeIn buf s e = (i : ℕ) → s ≤ i → i < e → is_used buf i ≡ false

pub not_ltb→le : (a b : ℕ) → ltb a b ≡ false → b ≤ a
not_ltb→le a b h = ground arith

pub not_ltb_self : (n : ℕ) → ltb n n ≡ false
not_ltb_self n = ground arith

module _ (buf : List ℕ) (from_bit to_bit needed : ℕ) where
  -- The loop's invariant: the open run ends at the bit at hand and reaches back as far as free bits
  -- do, and no free interval passed so far is longer than the best run and the open one.
  pub record Scanned (s : ScanState) : Type 0 where
    pub from_le : from_bit + s.run_len ≤ s.bit
    pub inside : s.bit ≤ to_bit
    pub open_run : s.run_len ≢ 0 → s.run_start + s.run_len ≡ s.bit
    pub closed_run : s.run_len ≡ 0 → s.run_start ≡ no_run
    pub run_free : FreeIn buf (s.bit - s.run_len) s.bit
    pub run_short : s.run_len < needed
    pub best_free : FreeIn buf s.best_start (s.best_start + s.best_len)
    pub best_from : s.best_len ≢ 0 → from_bit ≤ s.best_start
    pub best_end : s.best_len ≢ 0 → s.best_start + s.best_len ≤ s.bit
    pub best_short : s.best_len < needed
    pub tail : (a : ℕ) → from_bit ≤ a → a ≤ s.bit → FreeIn buf a s.bit → s.bit ≤ a + s.run_len
    pub longest :
        (a e : ℕ)
        → from_bit ≤ a
        → a ≤ e
        → e ≤ s.bit
        → FreeIn buf a e
        → (e ≤ a + s.best_len) ⊎ (e ≤ a + s.run_len)

  -- A bit that is used is in no free interval.
  clash : (a e i : ℕ) → FreeIn buf a e → a ≤ i → i < e → is_used buf i ≡ true → ⊥
  clash a e i f lo hi u = cc (f i lo hi)

  -- Behind a stretch of used bits, a free interval is empty or ends where the stretch begins.
  ends_before :
      (a e bit b : ℕ) → UsedIn buf bit b → a ≤ e → e ≤ b → FreeIn buf a e → (e ≤ bit) ⊎ (e ≡ a)
  ends_before a e bit b u ae eb f = elim (dec_le e bit) [
    | yes h ↦ inl h
    | no h ↦ elim (dec_lt a e) [
      | yes p ↦
          absurd (
            clash a e (e - 1) f (omega arith) (omega arith) (u (e - 1) (omega arith) (omega arith)))
      | no p ↦ inr (omega arith)
    ]
  ]

  module _ (s : ScanState) (v : Scanned s) where
    -- What is known of free intervals up to a bit b, when the bits from s.bit up to it are used.
    tail_past :
        (b a : ℕ)
        → UsedIn buf s.bit b
        → from_bit ≤ a
        → a ≤ b
        → s.bit ≤ b
        → FreeIn buf a b
        → b ≤ a + s.run_len
    tail_past b a u lo hi sb f = elim (ends_before a b s.bit b u hi (omega arith) f) [
      | inl h ↦ omega (arith, v.tail a lo (omega arith) (λ i l r. f i l (omega arith)))
      | inr h ↦ omega arith
    ]

    longest_past :
        (b a e : ℕ)
        → UsedIn buf s.bit b
        → from_bit ≤ a
        → a ≤ e
        → e ≤ b
        → FreeIn buf a e
        → (e ≤ a + s.best_len) ⊎ (e ≤ a + s.run_len)
    longest_past b a e u lo ae eb f = elim (ends_before a e s.bit b u ae eb f) [
      | inl h ↦ v.longest a e lo ae h f
      | inr h ↦ inl (omega arith)
    ]

    pub skip-Scanned :
        (b : ℕ) → s.run_len ≡ 0 → Skipped buf to_bit s.bit b → Scanned (record s { bit = b })
    skip-Scanned b z k = record {
      from_le = omega (arith, v.from_le, k.forward);
      inside = k.within v.inside;
      open_run = λ n. absurd (n z);
      closed_run = v.closed_run;
      run_free = λ i lo hi. absurd (omega arith);
      run_short = v.run_short;
      best_free = v.best_free;
      best_from = v.best_from;
      best_end = λ n. omega (arith, v.best_end n, k.forward);
      best_short = v.best_short;
      tail = λ a lo hi f. tail_past b a k.used lo hi k.forward f;
      longest = λ a e lo ae hi f. longest_past b a e k.used lo ae hi f;
    }

    pub bounded :
        (a e x m : ℕ) → (e ≤ a + s.best_len) ⊎ (e ≤ a + x) → s.best_len ≤ m → x ≤ m → e ≤ a + m
    bounded a e x m h p q = omega arith

    one_used : is_used buf s.bit ≡ true → UsedIn buf s.bit (s.bit + 1)
    one_used u i lo hi = let e : i ≡ s.bit = omega arith in rw e u

    tail_used :
        is_used buf s.bit ≡ true
        → (a : ℕ) → a ≤ s.bit + 1
        → FreeIn buf a (s.bit + 1)
        → s.bit + 1 ≤ a + 0
    tail_used u a hi f = elim (dec_le a s.bit) [
      | yes h ↦ absurd (clash a (s.bit + 1) s.bit f h (omega arith) u)
      | no h ↦ omega arith
    ]

    pub end_run-Scanned : s.bit < to_bit → is_used buf s.bit ≡ true → Scanned (end_run s)
    unfolding end_run keep_best
    end_run-Scanned lt u = elim (Bool-cases (ltb s.best_len s.run_len)) [
      | inl longer ↦
          let more : s.best_len < s.run_len = ltb→lt s.best_len s.run_len longer in
          let start : s.run_start + s.run_len ≡ s.bit = v.open_run (omega arith) in
          rw longer record {
            from_le = omega (arith, v.from_le);
            inside = omega arith;
            open_run = λ n. absurd (n refl);
            closed_run = λ n. refl;
            run_free = λ i lo hi. absurd (omega arith);
            run_short = omega (arith, v.run_short);
            best_free = λ i lo hi. v.run_free i (omega arith) (omega arith);
            best_from = λ n. omega (arith, v.from_le);
            best_end = λ n. omega arith;
            best_short = v.run_short;
            tail = λ a lo hi f. tail_used u a hi f;
            longest = λ a e lo ae hi f. inl (
                bounded a e _ s.run_len (longest_past (s.bit + 1) a e (one_used u) lo ae hi f)
                  (omega arith) (omega arith));
          }
      | inr shorter ↦
          let less : s.run_len ≤ s.best_len = not_ltb→le s.best_len s.run_len shorter in
          rw shorter record {
            from_le = omega (arith, v.from_le);
            inside = omega arith;
            open_run = λ n. absurd (n refl);
            closed_run = λ n. refl;
            run_free = λ i lo hi. absurd (omega arith);
            run_short = omega (arith, v.run_short);
            best_free = v.best_free;
            best_from = v.best_from;
            best_end = λ n. omega (arith, v.best_end n);
            best_short = v.best_short;
            tail = λ a lo hi f. tail_used u a hi f;
            longest = λ a e lo ae hi f. inl (
                bounded a e s.run_len s.best_len
                  (longest_past (s.bit + 1) a e (one_used u) lo ae hi f) (omega arith) less);
          }
    ]

    module _ (lt : s.bit < to_bit) (wide : to_bit < 2 ^ 64) (free : is_used buf s.bit ≡ false) where
      -- The run that the free bit extends starts where it did, or at this bit.
      pub extend_run_start : (extend_run s).run_start + (s.run_len + 1) ≡ s.bit + 1
      unfolding extend_run
      extend_run_start = elim (ℕ_discrete s.run_len 0) [
        | yes z ↦ rw (v.closed_run z, z) refl
        | no n ↦
            let e : s.run_start + s.run_len ≡ s.bit = v.open_run n in
            let real : (s.run_start == no_run) ≡ false = ground arith in rw real (omega arith)
      ]

      pub extend_free : FreeIn buf (s.bit - s.run_len) (s.bit + 1)
      extend_free i lo hi = elim (dec_lt i s.bit) [
        | yes h ↦ v.run_free i lo h
        | no h ↦ (let e : i ≡ s.bit = omega arith in rw e free)
      ]

      tail_free :
          (a : ℕ)
          → from_bit ≤ a
          → a ≤ s.bit + 1
          → FreeIn buf a (s.bit + 1)
          → s.bit + 1 ≤ a + (s.run_len + 1)
      tail_free a lo hi f = elim (dec_le a s.bit) [
        | yes h ↦ omega (arith, v.tail a lo h (λ i l r. f i l (omega arith)))
        | no h ↦ omega arith
      ]

      wider :
          (a e : ℕ)
          → (e ≤ a + s.best_len) ⊎ (e ≤ a + s.run_len)
          → (e ≤ a + s.best_len) ⊎ (e ≤ a + (s.run_len + 1))
      wider a e (inl h) = inl h
      wider a e (inr h) = inr (omega arith)

      pub extend_run-Scanned : s.run_len + 1 < needed → Scanned (advance (extend_run s))
      unfolding extend_run advance
      extend_run-Scanned short = record {
        from_le = omega (arith, v.from_le);
        inside = omega arith;
        open_run = λ n. extend_run_start;
        closed_run = λ n. absurd (omega arith);
        run_free = λ i lo hi. extend_free i (omega arith) hi;
        run_short = short;
        best_free = v.best_free;
        best_from = v.best_from;
        best_end = λ n. omega (arith, v.best_end n);
        best_short = v.best_short;
        tail = tail_free;
        longest = λ a e lo ae hi f. elim (dec_le e s.bit) [
          | yes h ↦ wider a e (v.longest a e lo ae h f)
          | no h ↦
              let last : e ≡ s.bit + 1 = omega arith in
              inr (rw last (tail_free a lo (omega arith) (subst (FreeIn buf a) last f)))
        ];
      }
