-- ===== src/Attr/Extents.antt =====
-- A run list as a map from offsets of the attribute to positions on the disk, and the search for the
-- run that holds an offset.
use ntfs_efi.Prelude.{
  ℕ, zero, suc, ◌+◌, ◌-◌, ◌*◌, ◌%◌, ◌^◌, ◌<◌, ◌≤◌, ◌≡◌, refl, ap₂, ◌∙◌, true, false, Option, none,
  some, List, [], ◌∷◌, length, get_or, ltb, ◌==◌, if◌then◌else◌, arith, Bool-cases, inl, inr, ◌⊎◌,
  ltb→lt,
}
use ntfs_efi.Runlist.{NtfsRunEntry, sparse_lbn}
use ntfs_efi.Attr.{run_bytes, no_entry, scan_runs}

-- The bytes that the runs map.
abbrev pub extent : ℕ → List NtfsRunEntry → ℕ
extent bpc [] = 0
extent bpc (r ∷ rs) = r.len * bpc + extent bpc rs

-- Where run i starts.
abbrev pub start_of : ℕ → List NtfsRunEntry → ℕ → ℕ
start_of bpc [] i = 0
start_of bpc (r ∷ rs) zero = 0
start_of bpc (r ∷ rs) (suc i) = r.len * bpc + start_of bpc rs i

-- The position on the disk of a byte of the attribute; a hole has none.
abbrev pub disk_pos : ℕ → List NtfsRunEntry → ℕ → Option ℕ
disk_pos bpc [] o = none
disk_pos bpc (r ∷ rs) o =
    if ltb o (r.len * bpc)
    then (if r.lbn == sparse_lbn then none else some (r.lbn * bpc + o))
    else disk_pos bpc rs (o - r.len * bpc)

-- Run i holds the offset o.
pub record Holds (bpc : ℕ) (runs : List NtfsRunEntry) (i o : ℕ) : Type 0 where
  pub inside : i < length runs
  pub from_start : start_of bpc runs i ≤ o
  pub before_end : o < start_of bpc runs i + (get_or runs i no_entry).len * bpc

pub start_of-le :
    (bpc : ℕ) (runs : List NtfsRunEntry) (i : ℕ)
    → i < length runs
    → start_of bpc runs i + (get_or runs i no_entry).len * bpc ≤ extent bpc runs
start_of-le bpc [] i h = absurd (omega arith)
start_of-le bpc (r ∷ rs) zero h = omega arith
start_of-le bpc (r ∷ rs) (suc i) h = omega (arith, start_of-le bpc rs i (omega arith))

pub start_of_next :
    (bpc : ℕ) (runs : List NtfsRunEntry) (i : ℕ)
    → i < length runs
    → start_of bpc runs (i + 1) ≡ start_of bpc runs i + (get_or runs i no_entry).len * bpc
start_of_next bpc [] i h = absurd (omega arith)
start_of_next bpc (r ∷ []) zero h = omega arith
start_of_next bpc (r ∷ s ∷ rs) zero h = omega arith
start_of_next bpc (r ∷ rs) (suc i) h =
    let e : suc i + 1 ≡ suc (i + 1) = omega arith in
    rw e (omega (arith, start_of_next bpc rs i (omega arith)))

-- The position of a byte that run i holds.
pub disk_pos-Holds :
    (bpc : ℕ) (runs : List NtfsRunEntry) (i o : ℕ)
    → Holds bpc runs i o
    → disk_pos bpc runs o ≡ (
        if (get_or runs i no_entry).lbn == sparse_lbn
        then none
        else some ((get_or runs i no_entry).lbn * bpc + (o - start_of bpc runs i)))
disk_pos-Holds bpc [] i o h = absurd (omega (arith, h.inside))
disk_pos-Holds bpc (r ∷ rs) zero o h =
    let small : ltb o (r.len * bpc) ≡ true = ground (arith, h.before_end) in
    let z : o - 0 ≡ o = omega arith in rw (small, z) refl
disk_pos-Holds bpc (r ∷ rs) (suc i) o h =
    let big : ltb o (r.len * bpc) ≡ false = ground (arith, h.from_start) in
    let e : o - r.len * bpc - start_of bpc rs i ≡ o - (r.len * bpc + start_of bpc rs i) =
      omega arith in
    rw (big, ← e)
      (disk_pos-Holds bpc rs i (o - r.len * bpc) (record {
        inside = omega (arith, h.inside);
        from_start = omega (arith, h.from_start);
        before_end = omega (arith, h.before_end, h.from_start);
      }))

-- The linear scan finds the run, or the offset is past the last.
pub scan_runs_found :
    (bpc : ℕ) (runs : List NtfsRunEntry) (b scan o : ℕ)
    → scan + extent bpc runs < 2 ^ 64
    → scan ≤ o
    → ((scan_runs bpc runs b scan o ≡ none) × (scan + extent bpc runs ≤ o))
      ⊎ ((j : ℕ) × (scan_runs bpc runs b scan o ≡ some (b + j, scan + start_of bpc runs j))
          × Holds bpc runs j (o - scan))
unfolding scan_runs run_bytes
scan_runs_found bpc [] b scan o h lo = inl (refl, omega arith)
scan_runs_found bpc (r ∷ rs) b scan o h lo =
    let m : (scan + r.len * bpc % 2 ^ 64) % 2 ^ 64 ≡ scan + r.len * bpc = omega arith in
    elim (Bool-cases (ltb o (scan + r.len * bpc))) [
      | inl here ↦
          let lt : o < scan + r.len * bpc = ltb→lt o (scan + r.len * bpc) here in
          let e : (b ≡ b + 0) × (scan ≡ scan + 0) = (omega arith, omega arith) in
          inr (
            0,
            rw (m, here) (ap₂ (λ (x y : ℕ). some (x, y)) e.0 e.1),
            record { inside = omega arith; from_start = omega arith; before_end = omega arith },
          )
      | inr past ↦
          found past m
            (scan_runs_found bpc rs (b + 1) (scan + r.len * bpc) o (omega arith) (ground arith))
    ]
  where
    found :
        (ltb o (scan + r.len * bpc) ≡ false)
        → ((scan + r.len * bpc % 2 ^ 64) % 2 ^ 64 ≡ scan + r.len * bpc)
        → ((scan_runs bpc rs (b + 1) (scan + r.len * bpc) o ≡ none)
            × (scan + r.len * bpc + extent bpc rs ≤ o))
          ⊎ ((j : ℕ) × (scan_runs bpc rs (b + 1) (scan + r.len * bpc) o
                ≡ some (b + 1 + j, scan + r.len * bpc + start_of bpc rs j))
              × Holds bpc rs j (o - (scan + r.len * bpc)))
        → ((scan_runs bpc (r ∷ rs) b scan o ≡ none) × (scan + extent bpc (r ∷ rs) ≤ o))
          ⊎ ((j : ℕ) × (scan_runs bpc (r ∷ rs) b scan o
                ≡ some (b + j, scan + start_of bpc (r ∷ rs) j))
              × Holds bpc (r ∷ rs) j (o - scan))
    found past m (inl (n, e)) = inl (rw (m, past) n, omega arith)
    found past m (inr (j, e, w)) =
        let q : (b + 1 + j ≡ b + suc j)
            × (scan + r.len * bpc + start_of bpc rs j ≡ scan + (r.len * bpc + start_of bpc rs j)) =
          (omega arith, omega arith) in
        let ge : scan + r.len * bpc ≤ o = ground arith in
        inr (
          suc j,
          rw (m, past) (e ∙ ap₂ (λ (x y : ℕ). some (x, y)) q.0 q.1),
          record {
            inside = omega (arith, w.inside);
            from_start = omega (arith, w.from_start);
            before_end = omega (arith, w.before_end, w.from_start);
          },
        )
