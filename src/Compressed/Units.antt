-- ===== src/Compressed/Units.antt =====
-- The slice that is read across the units.
use native.Mathlib.Nat.{
  add-mul-div_left, add-mul-mod_self_left, div-eq_of_lt, mod-eq_of_lt, div-add-mod, mod-lt,
}
use ntfs_efi.Prelude.{
  ℕ, zero, suc, ◌+◌, ◌-◌, ◌*◌, ◌/◌, ◌%◌, ◌^◌, ◌<◌, ◌≤◌, ◌≡◌, ap, sym, ◌∙◌, min, some, List, ◌++◌,
  length, get_or, take, drop, ◌==◌, arith, Bool-cases, inl, inr, length-append, length-take,
  length-drop, get_or-append_left, get_or-append_right, get_or-take, get_or-drop, dec_lt,
}
use ntfs_efi.Disk.{DiskIo}
use ntfs_efi.Runlist.{NtfsRunEntry}
use ntfs_efi.Compressed.{unit_size, unit_at, compressed_loop}

-- A place inside a unit.
place : (n q r : ℕ) → r < n → ((r + n * q) / n ≡ q) × ((r + n * q) % n ≡ r)
place n q r h = (
  add-mul-div_left r q {y = n} (omega arith) ∙ omega (arith, div-eq_of_lt {n = r} {m = n} h),
  add-mul-mod_self_left r n q ∙ mod-eq_of_lt {n = r} {m = n} h,
)

module _ (io : DiskIo) (bpc : ℕ) (d : io.Disk) (k : ℕ) (runs : List NtfsRunEntry)
    (content : ℕ → List ℕ) where
  -- The units up to the end of a read have their content.
  pub record AreUnits (stop : ℕ) : Type 0 where
    pub filled : 0 < unit_size bpc k
    pub units :
        (u : ℕ)
        → unit_size bpc k * u < stop
        → (unit_at io bpc d k runs u ≡ some (content u)) × (length (content u) ≡ unit_size bpc k)

  -- A read of n bytes at an offset.
  pub record IsSlice (offset n : ℕ) (out : List ℕ) : Type 0 where
    pub whole : length out ≡ n
    pub bytes :
        (i : ℕ)
        → i < n
        → get_or out i 0
          ≡ get_or (content ((offset + i) / unit_size bpc k)) ((offset + i) % unit_size bpc k) 0

  module _ (offset n t : ℕ) (later : List ℕ) (filled : 0 < unit_size bpc k)
      (inside : t ≤ unit_size bpc k - offset % unit_size bpc k) (asked : t ≤ n)
      (sized : length (content (offset / unit_size bpc k)) ≡ unit_size bpc k)
      (next : IsSlice (offset + t) (n - t) later) where
    abbrev first : List ℕ
    first = take t (drop (offset % unit_size bpc k) (content (offset / unit_size bpc k)))

    length-first : length first ≡ t
    length-first = omega (
      arith,
      sized,
      length-take t (drop (offset % unit_size bpc k) (content (offset / unit_size bpc k))),
      length-drop (offset % unit_size bpc k) (content (offset / unit_size bpc k)),
      mod-lt offset {m = unit_size bpc k} filled,
    )

    -- A byte of the first unit.
    first_byte :
        (i : ℕ)
        → i < t
        → get_or first i 0
          ≡ get_or (content ((offset + i) / unit_size bpc k)) ((offset + i) % unit_size bpc k) 0
    first_byte i lt =
        let m : ℕ = unit_size bpc k in
        let q : ℕ = offset / m in
        let r : ℕ = offset % m in
        let e : offset + i ≡ r + i + m * q = omega (arith, div-add-mod offset m) in
        let (e_div, e_mod) = place m q (r + i) (omega arith) in
        get_or-take t i (drop r (content q)) 0 lt
        ∙ get_or-drop r i (content q) 0
        ∙ sym (
            ap (λ o. get_or (content (o / m)) (o % m) 0) e
            ∙ ap (λ v. get_or (content v) ((r + i + m * q) % m) 0) e_div
            ∙ ap (λ v. get_or (content q) v 0) e_mod)

    IsSlice-step : IsSlice offset n (first ++ later)
    IsSlice-step = record {
      whole = omega (arith, length-append first later, length-first, next.whole);
      bytes = λ i lt. elim (dec_lt i t) [
        | yes here ↦
            get_or-append_left first later i 0 (omega (arith, length-first)) ∙ first_byte i here
        | no there ↦
            let e : i ≡ length first + (i - t) = omega (arith, length-first) in
            let back : offset + t + (i - t) ≡ offset + i = omega arith in
            ap (λ v. get_or (first ++ later) v 0) e
            ∙ get_or-append_right first later (i - t) 0
            ∙ next.bytes (i - t) (omega arith)
            ∙ ap (λ o. get_or (content (o / unit_size bpc k)) (o % unit_size bpc k) 0) back
      ];
    }

  pub compressed_loop-IsSlice :
      (fuel offset n : ℕ)
      → n ≤ fuel
      → offset + n < 2 ^ 64
      → AreUnits (offset + n)
      → IsSlice offset n (compressed_loop io fuel bpc d k runs offset n)
  unfolding compressed_loop
  compressed_loop-IsSlice zero offset n h fits w = record {
    whole = omega arith;
    bytes = λ i lt. absurd (omega arith);
  }
  compressed_loop-IsSlice (suc fuel) offset n h fits w = elim (Bool-cases (n == 0)) [
    | inl empty ↦
        rw (compressed_loop, empty)
          (record { whole = ground (arith, empty); bytes = λ i lt. absurd (ground (arith, empty)) })
    | inr some_left ↦
        let m : ℕ = unit_size bpc k in
        let inner : ℕ = offset % m in
        let left : 0 < n = ground (arith, some_left) in
        let t : ℕ = min (m - inner) n in
        let short : inner < m = mod-lt offset {m = m} w.filled in
        let (e, sized) = w.units (offset / m) (omega (arith, div-add-mod offset m)) in
        let wrap : (offset + t) % 2 ^ 64 ≡ offset + t =
          mod-eq_of_lt {n = offset + t} {m = 2 ^ 64} (omega arith) in
        let stop : offset + t + (n - t) ≡ offset + n = omega arith in
        let next : IsSlice (offset + t) (n - t)
            (compressed_loop io fuel bpc d k runs (offset + t) (n - t)) =
          compressed_loop-IsSlice fuel (offset + t) (n - t) (omega arith) (rw stop fits)
            (rw stop w) in
        rw (compressed_loop, some_left, e, wrap)
          (IsSlice-step offset n t (compressed_loop io fuel bpc d k runs (offset + t) (n - t))
            w.filled (omega arith) (omega arith) sized next)
  ]
