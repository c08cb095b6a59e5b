-- ===== src/Compressed/Layout.antt =====
-- Run lists in which every compression unit has runs of its own.
use native.Mathlib.Nat.{suc-mul}
use mathlib.Core.Option.{some-injective}
use ntfs_efi.Prelude.{
  ℕ, zero, suc, ◌+◌, ◌-◌, ◌*◌, ◌%◌, ◌^◌, ◌<◌, ◌≤◌, ◌≡◌, ◌≢◌, refl, ap, ◌∙◌, true, false, some, List,
  [], ◌∷◌, get_elem?, leb, ◌==◌, arith, eqb_false, eqb_true,
}
use ntfs_efi.Runlist.{NtfsRunEntry, sparse_lbn}
use ntfs_efi.Compressed.{UnitScan, start_unit, add_real, scan_unit}

-- A unit: a hole, stored as it is, or packed into the first c of its clusters.
pub data UnitKind : Type 0 where
  hole : UnitKind
  stored : ℕ → UnitKind
  packed : ℕ → ℕ → UnitKind

abbrev pub IsUnit : ℕ → UnitKind → Type 0
IsUnit k hole = Unit {0}
IsUnit k (stored lbn) = lbn ≢ sparse_lbn
IsUnit k (packed lbn c) = (lbn ≢ sparse_lbn) × (0 < c) × (c < k)

abbrev pub AllUnits : ℕ → List UnitKind → Type 0
AllUnits k [] = Unit {0}
AllUnits k (x ∷ xs) = IsUnit k x × AllUnits k xs

-- The runs from the virtual cluster v on.
abbrev pub layout : ℕ → ℕ → List UnitKind → List NtfsRunEntry
layout k v [] = []
layout k v (hole ∷ xs) = record { vbn = v; lbn = sparse_lbn; len = k } ∷ layout k (v + k) xs
layout k v (stored lbn ∷ xs) = record { vbn = v; lbn = lbn; len = k } ∷ layout k (v + k) xs
layout k v (packed lbn c ∷ xs) =
    record { vbn = v; lbn = lbn; len = c }
    ∷ record { vbn = v + c; lbn = sparse_lbn; len = k - c }
    ∷ layout k (v + k) xs

-- What the walk finds.
abbrev pub found : ℕ → UnitKind → UnitScan
found k hole = record { real_clusters = 0; first_lbn = sparse_lbn; saw_sparse = true }
found k (stored lbn) = record { real_clusters = k; first_lbn = lbn; saw_sparse = false }
found k (packed lbn c) = record { real_clusters = c; first_lbn = lbn; saw_sparse = true }

-- The virtual cluster behind the runs.
abbrev pub end_of : ℕ → ℕ → List UnitKind → ℕ
end_of k v [] = v
end_of k v (x ∷ xs) = end_of k (v + k) xs

le-end_of : (k v : ℕ) (xs : List UnitKind) → v ≤ end_of k v xs
le-end_of k v [] = omega arith
le-end_of k v (x ∷ xs) = omega (arith, le-end_of k (v + k) xs)

-- One run of the walk, by where it lies.
module _ (start k : ℕ) (r : NtfsRunEntry) (rs : List NtfsRunEntry) (s : UnitScan)
    (small : start + k < 2 ^ 64) (short : r.vbn + r.len < 2 ^ 64) where
  run_before : r.vbn + r.len ≤ start → scan_unit start k (r ∷ rs) s ≡ scan_unit start k rs s
  unfolding scan_unit
  run_before h = let b : leb ((r.vbn + r.len) % 2 ^ 64) start ≡ true = ground arith in rw b refl

  run_behind : start < r.vbn + r.len → start + k ≤ r.vbn → scan_unit start k (r ∷ rs) s ≡ s
  unfolding scan_unit
  run_behind h g =
      let b : leb ((r.vbn + r.len) % 2 ^ 64) start ≡ false = ground arith in
      let e : leb ((start + k) % 2 ^ 64) r.vbn ≡ true = ground arith in rw (b, e) refl

  run_hole :
      start < r.vbn + r.len
      → r.vbn < start + k
      → r.lbn ≡ sparse_lbn
      → scan_unit start k (r ∷ rs) s ≡ scan_unit start k rs (record s { saw_sparse = true })
  unfolding scan_unit
  run_hole h g hole_here =
      let b : leb ((r.vbn + r.len) % 2 ^ 64) start ≡ false = ground arith in
      let e : leb ((start + k) % 2 ^ 64) r.vbn ≡ false = ground arith in
      let l : (r.lbn == sparse_lbn) ≡ true = eqb_true _ _ hole_here in rw (b, e, l) refl

  pub run_real :
      start < r.vbn + r.len
      → r.vbn < start + k
      → r.lbn ≢ sparse_lbn
      → s.saw_sparse ≡ false
      → scan_unit start k (r ∷ rs) s ≡ scan_unit start k rs (add_real s r)
  unfolding scan_unit
  run_real h g real no_hole =
      let b : leb ((r.vbn + r.len) % 2 ^ 64) start ≡ false = ground arith in
      let e : leb ((start + k) % 2 ^ 64) r.vbn ≡ false = ground arith in
      let l : (r.lbn == sparse_lbn) ≡ false = eqb_false _ _ real in rw (b, e, l, no_hole) refl

pub scan_unit-nil : (start k : ℕ) (s : UnitScan) → scan_unit start k [] s ≡ s
unfolding scan_unit
scan_unit-nil start k s = refl

-- A run behind the unit ends the walk.
scan_behind :
    (k start v : ℕ) (xs : List UnitKind) (s : UnitScan)
    → 0 < k
    → start + k ≤ v
    → end_of k v xs < 2 ^ 64
    → AllUnits k xs
    → scan_unit start k (layout k v xs) s ≡ s
scan_behind k start v [] s pos behind fits w = scan_unit-nil start k s
scan_behind k start v (hole ∷ xs) s pos behind fits (w, ws) =
    run_behind start k _ _ s (omega (arith, le-end_of k (v + k) xs))
      (omega (arith, le-end_of k (v + k) xs)) (omega arith) behind
scan_behind k start v (stored lbn ∷ xs) s pos behind fits (w, ws) =
    run_behind start k _ _ s (omega (arith, le-end_of k (v + k) xs))
      (omega (arith, le-end_of k (v + k) xs)) (omega arith) behind
scan_behind k start v (packed lbn c ∷ xs) s pos behind fits ((real, some_real, less), ws) =
    run_behind start k _ _ s (omega (arith, le-end_of k (v + k) xs))
      (omega (arith, le-end_of k (v + k) xs)) (omega arith) behind

pub add_first :
    (r : NtfsRunEntry)
    → r.len < 2 ^ 64
    → add_real start_unit r
      ≡ record { real_clusters = r.len; first_lbn = r.lbn; saw_sparse = false }
unfolding add_real start_unit
add_first r small =
    let e : (0 + r.len) % 2 ^ 64 ≡ r.len = omega arith in
    ap (λ n. record { real_clusters = n; first_lbn = r.lbn; saw_sparse = false }) e

scan_here :
    (k v : ℕ) (x : UnitKind) (xs : List UnitKind)
    → 0 < k
    → end_of k v (x ∷ xs) < 2 ^ 64
    → AllUnits k (x ∷ xs)
    → scan_unit v k (layout k v (x ∷ xs)) start_unit ≡ found k x
unfolding start_unit
scan_here k v hole xs pos fits (w, ws) =
    run_hole v k _ _ start_unit (omega (arith, le-end_of k (v + k) xs))
      (omega (arith, le-end_of k (v + k) xs)) (omega arith) (omega arith) refl
    ∙ scan_behind k v (v + k) xs _ pos (omega arith) fits ws
scan_here k v (stored lbn) xs pos fits (w, ws) =
    run_real v k _ _ start_unit (omega (arith, le-end_of k (v + k) xs))
      (omega (arith, le-end_of k (v + k) xs)) (omega arith) (omega arith) w refl
    ∙ ap (scan_unit v k (layout k (v + k) xs)) (add_first _ (omega (arith, le-end_of k (v + k) xs)))
    ∙ scan_behind k v (v + k) xs _ pos (omega arith) fits ws
scan_here k v (packed lbn c) xs pos fits ((real, some_real, less), ws) =
    let rest : List NtfsRunEntry =
      record { vbn = v + c; lbn = sparse_lbn; len = k - c } ∷ layout k (v + k) xs in
    run_real v k _ rest start_unit (omega (arith, le-end_of k (v + k) xs))
      (omega (arith, le-end_of k (v + k) xs)) (omega arith) (omega arith) real refl
    ∙ ap (scan_unit v k rest) (add_first _ (omega (arith, le-end_of k (v + k) xs)))
    ∙ run_hole v k _ _ _ (omega (arith, le-end_of k (v + k) xs))
        (omega (arith, le-end_of k (v + k) xs)) (omega arith) (omega arith) refl
    ∙ scan_behind k v (v + k) xs _ pos (omega arith) fits ws

suc_times : (k v j : ℕ) → v + suc j * k ≡ v + k + j * k
suc_times k v j = omega (arith, suc-mul j k)

-- The runs in front of the unit are passed.
scan_passes :
    (k v start : ℕ) (x : UnitKind) (xs : List UnitKind)
    → v + k ≤ start
    → start + k < 2 ^ 64
    → IsUnit k x
    → scan_unit start k (layout k v (x ∷ xs)) start_unit
      ≡ scan_unit start k (layout k (v + k) xs) start_unit
scan_passes k v start hole xs h small w = run_before start k _ _ start_unit small (omega arith) h
scan_passes k v start (stored lbn) xs h small w =
    run_before start k _ _ start_unit small (omega arith) h
scan_passes k v start (packed lbn c) xs h small (real, some_real, less) =
    run_before start k _ _ start_unit small (omega arith) (omega arith)
    ∙ run_before start k _ _ start_unit small (omega arith) (omega arith)

pub scan_at :
    (k v j : ℕ) (x : UnitKind) (xs : List UnitKind)
    → 0 < k
    → end_of k v xs < 2 ^ 64
    → AllUnits k xs
    → get_elem? xs j ≡ some x
    → (scan_unit (v + j * k) k (layout k v xs) start_unit ≡ found k x)
      × (v + j * k + k ≤ end_of k v xs)
scan_at k v j x [] pos fits w e = cc
scan_at k v zero x (y ∷ xs) pos fits w e =
    let same : y ≡ x = some-injective y x e in
    let start : v + 0 * k ≡ v = omega arith in
    (
      rw start (scan_here k v y xs pos fits w ∙ ap (found k) same),
      omega (arith, le-end_of k (v + k) xs),
    )
scan_at k v (suc j) x (y ∷ xs) pos fits (w, ws) e =
    let (q, le) = scan_at k (v + k) j x xs pos fits ws e in
    let start : v + suc j * k ≡ v + k + j * k = suc_times k v j in
    (
      rw start (scan_passes k v (v + k + j * k) y xs (omega arith) (omega arith) w ∙ q),
      omega (arith, start, le),
    )
