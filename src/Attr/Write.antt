-- ===== src/Attr/Write.antt =====
-- What NtfsEfiWriteAttr does to the disk.
use ntfs_efi.Prelude.{
  ℕ, zero, suc, ◌+◌, ◌-◌, ◌*◌, ◌%◌, ◌^◌, ◌<◌, ◌≤◌, ◌≡◌, ◌≢◌, refl, ap, ap₂, sym, ◌∙◌, false, none,
  some, List, [], ◌∷◌, length, get_or, take, drop, ltb, ◌==◌, arith, Bool-cases, inl, inr, dec_lt,
  min, length-take, length-drop, get_or-take, get_or-drop, eqb_true, eqb_false, subst,
}
use ntfs_efi.Disk.{DiskIo, DiskLaws}
use ntfs_efi.Runlist.{NtfsRunEntry, sparse_lbn}
use ntfs_efi.Attr.{run_bytes, no_entry, scan_runs, disk_offset, run_offset, take_bytes, write_loop}
use ntfs_efi.Attr.Extents.{
  extent, start_of, disk_pos, Holds, start_of-le, disk_pos-Holds, scan_runs_found,
}
use ntfs_efi.Attr.Content.{IsReadable, on_disk_run, Holds-add}

some_injective : {a b : ℕ} → some a ≡ some b → a ≡ b
some_injective e = cc

pub disk_pos_past :
    (bpc : ℕ) (runs : List NtfsRunEntry) (o : ℕ) → extent bpc runs ≤ o → disk_pos bpc runs o ≡ none
disk_pos_past bpc [] o h = refl
disk_pos_past bpc (r ∷ rs) o h =
    let big : ltb o (r.len * bpc) ≡ false = ground arith in
    rw big (disk_pos_past bpc rs (o - r.len * bpc) (omega arith))

module _ {io : DiskIo} {size : ℕ} (laws : DiskLaws io size) (bpc : ℕ)
    (runs : List NtfsRunEntry) where
  -- The bytes of the window are on the disk, each at a position of its own.
  pub record IsWindow (offset n : ℕ) : Type 0 where
    pub mapped : (o : ℕ) → offset ≤ o → o < offset + n → disk_pos bpc runs o ≢ none
    pub apart :
        (o o' a : ℕ)
        → offset ≤ o
        → o < offset + n
        → offset ≤ o'
        → o' < offset + n
        → disk_pos bpc runs o ≡ some a
        → disk_pos bpc runs o' ≡ some a
        → o ≡ o'

  -- From the disk d to the disk e the bytes p were written at the offset, and nothing else.
  pub record Written (d e : io.Disk) (offset : ℕ) (p : List ℕ) : Type 0 where
    pub new :
        (o a : ℕ)
        → offset ≤ o
        → o < offset + length p
        → disk_pos bpc runs o ≡ some a
        → laws.byte_at e a ≡ get_or p (o - offset) 0
    pub old :
        (a : ℕ)
        → ((o : ℕ) → offset ≤ o → o < offset + length p → disk_pos bpc runs o ≢ some a)
        → laws.byte_at e a ≡ laws.byte_at d a

  -- The part of a window that is left after a round.
  IsWindow-rest : (offset n m : ℕ) → m ≤ n → IsWindow offset n → IsWindow (offset + m) (n - m)
  IsWindow-rest offset n m h w = record {
    mapped = λ o lo hi. w.mapped o (omega arith) (omega arith);
    apart = λ o o' a lo hi lo' hi'.
        w.apart o o' a (omega arith) (omega arith) (omega arith) (omega arith);
  }

  -- One round, which writes m bytes to the disk at `base`.
  Written-step :
      (d e : io.Disk) (offset base m : ℕ) (p : List ℕ)
      → IsWindow offset (length p)
      → m ≤ length p
      → base + m ≤ size
      → ((k : ℕ) → k < m → disk_pos bpc runs (offset + k) ≡ some (base + k))
      → Written (io.write_disk d base (take m p)).1 e (offset + m) (drop m p)
      → Written d e offset p
  Written-step d e offset base m p w le fits at_base r =
      let lt : length (take m p) ≡ m = omega (arith, length-take m p) in
      let ld : length (drop m p) ≡ length p - m = length-drop m p in
      let inside : base + length (take m p) ≤ size = omega (arith, lt, fits) in
      record {
        new = λ o a lo hi q. elim (dec_lt o (offset + m)) [
          | yes now ↦
              let o_eq : offset + (o - offset) ≡ o = omega arith in
              let here : disk_pos bpc runs o ≡ some (base + (o - offset)) =
                ap (disk_pos bpc runs) (sym o_eq) ∙ at_base (o - offset) (omega arith) in
              let a_eq : a ≡ base + (o - offset) = some_injective (sym q ∙ here) in
              let k_eq : a - base ≡ o - offset = omega arith in
              r.old a (λ o' lo' hi' q'.
                absurd (omega (arith, w.apart o o' a lo hi (omega arith) (omega (arith, ld)) q q')))
              ∙ laws.write_effect d base (take m p) a inside
              ∙ rw k_eq (ground (arith, lt, get_or-take m (o - offset) p 0 (omega arith)))
          | no later ↦
              let k_eq : m + (o - (offset + m)) ≡ o - offset = omega arith in
              r.new o a (omega arith) (omega (arith, ld)) q
              ∙ get_or-drop m (o - (offset + m)) p 0
              ∙ ap (λ k. get_or p k 0) k_eq
        ];
        old = λ a out.
            r.old a (λ o lo hi. out o (omega arith) (omega (arith, ld)))
            ∙ laws.write_effect d base (take m p) a inside
            ∙ elim (dec_lt a base) [
              | yes below ↦ ground arith
              | no from ↦ elim (dec_lt a (base + m)) [
                | yes hit ↦ absurd (
                    out (offset + (a - base)) (omega arith) (omega arith)
                      (at_base (a - base) (omega arith) ∙ ap some (omega arith)))
                | no above ↦ ground (arith, lt)
              ]
            ];
      }

  Written-none : (d : io.Disk) (offset : ℕ) (p : List ℕ) → length p ≡ 0 → Written d d offset p
  Written-none d offset p h = record {
    new = λ o a lo hi q. absurd (omega arith);
    old = λ a out. refl;
  }

  -- A round that has found its run.
  module _ (w : IsReadable bpc size runs) (i offset : ℕ) (p : List ℕ) (h : Holds bpc runs i offset)
      (win : IsWindow offset (length p)) (fits : offset + length p < 2 ^ 64)
      (some_left : 0 < length p) where
    abbrev run : NtfsRunEntry
    run = get_or runs i no_entry

    abbrev inner : ℕ
    inner = run_offset offset (start_of bpc runs i)

    abbrev taken : ℕ
    taken = take_bytes (run_bytes bpc run) inner (length p)

    inner_eq : inner ≡ offset - start_of bpc runs i
    unfolding run_offset
    inner_eq = omega (arith, h.from_start, fits)

    taken_eq : taken ≡ min (run.len * bpc - (offset - start_of bpc runs i)) (length p)
    unfolding take_bytes run_bytes
    taken_eq = omega (arith, inner_eq, start_of-le bpc runs i h.inside, w.small)

    taken_fits :
        (0 < taken) × (taken ≤ length p) × (offset + taken ≤ start_of bpc runs i + run.len * bpc)
    taken_fits = (
      omega (arith, taken_eq, h.from_start, h.before_end),
      omega (arith, taken_eq),
      omega (arith, taken_eq, h.from_start, h.before_end),
    )

    run_real : run.lbn ≢ sparse_lbn
    run_real hole =
        win.mapped offset (omega arith) (omega arith)
          (disk_pos-Holds bpc runs i offset h ∙ rw (eqb_true run.lbn sparse_lbn hole) refl)

    on_medium : run.lbn * bpc + run.len * bpc ≤ size
    on_medium = omega (arith, on_disk_run bpc size runs i w.on_disk h.inside, run_real)

    place_eq : disk_offset bpc run inner ≡ run.lbn * bpc + (offset - start_of bpc runs i)
    unfolding disk_offset
    place_eq = omega (arith, inner_eq, on_medium, w.medium, h.from_start, h.before_end)

    place_of :
        (k : ℕ) → k < taken → disk_pos bpc runs (offset + k) ≡ some (disk_offset bpc run inner + k)
    place_of k lt =
        disk_pos-Holds bpc runs i (offset + k) (Holds-add k h (omega (arith, taken_fits)))
        ∙ rw (eqb_false run.lbn sparse_lbn run_real)
            (ap some (omega (arith, place_eq, h.from_start)))

    place_fits : disk_offset bpc run inner + taken ≤ size
    place_fits = omega (arith, place_eq, taken_fits, on_medium, h.from_start, h.before_end)

  pub write_loop-Written :
      (w : IsReadable bpc size runs) (fuel : ℕ) (d : io.Disk) (offset : ℕ) (p : List ℕ)
      (written : ℕ)
      → length p ≤ fuel
      → offset + length p < 2 ^ 64
      → IsWindow offset (length p)
      → (e : io.Disk) × (write_loop io fuel bpc runs d offset p written ≡ (written + length p, e))
        × Written d e offset p
  unfolding write_loop
  write_loop-Written w zero d offset p written f fits win =
      (d, ap (λ n. (n, d)) (omega arith), Written-none d offset p (omega arith))
  write_loop-Written w (suc fuel) d offset p written f fits win =
      elim (Bool-cases (length p == 0)) [
        | inl done ↦
            let z : length p ≡ 0 = ground arith in
            (d, rw (write_loop, done) (ap (λ n. (n, d)) (omega arith)), Written-none d offset p z)
        | inr more ↦
            elim (scan_runs_found bpc runs 0 0 offset (omega (arith, w.small)) (omega arith)) [
              | inl (miss, past) ↦ absurd (
                  win.mapped offset (omega arith) (ground arith)
                    (disk_pos_past bpc runs offset (omega arith)))
              | inr (i, found, h0) ↦
                  let z : (offset - 0 ≡ offset)
                      × (0 + i ≡ i)
                      × (0 + start_of bpc runs i ≡ start_of bpc runs i) =
                    (omega arith, omega arith, omega arith) in
                  let found' : scan_runs bpc runs 0 0 offset ≡ some (i, start_of bpc runs i) =
                    found ∙ ap₂ (λ (x y : ℕ). some (x, y)) z.1 z.2 in
                  let h : Holds bpc runs i offset = rw z.0 at h0 in
                  let left : 0 < length p = ground arith in
                  let n : ℕ = taken w i offset p h win fits left in
                  let tf = taken_fits w i offset p h win fits left in
                  let pf = place_fits w i offset p h win fits left in
                  let a : ℕ =
                    disk_offset bpc (get_or runs i no_entry)
                      (run_offset offset (start_of bpc runs i)) in
                  let o2 : (offset + n) % 2 ^ 64 ≡ offset + n = omega (arith, tf, fits) in
                  let ld : length (drop n p) ≡ length p - n = length-drop n p in
                  let lt : length (take n p) ≡ n = omega (arith, length-take n p, tf) in
                  let (e, q, wr) =
                    write_loop-Written w fuel (io.write_disk d a (take n p)).1
                      ((offset + n) % 2 ^ 64) (drop n p) (written + n) (omega (arith, ld, tf, f))
                      (omega (arith, o2, ld, tf, fits))
                      (rw (o2, ld) (IsWindow-rest offset (length p) n tf.1 win)) in
                  let real =
                    eqb_false (get_or runs i no_entry).lbn sparse_lbn
                      (run_real w i offset p h win fits left) in
                  let done = laws.write_inside d a (take n p) (omega (arith, lt, pf)) in
                  (
                    e,
                    rw (write_loop, more, found', real, done)
                        (q ∙ ap (λ k. (k, e)) (omega (arith, ld, tf))),
                    Written-step d e offset a n p win tf.1 pf
                        (place_of w i offset p h win fits left)
                        (subst (λ (x : ℕ). Written (io.write_disk d a (take n p)).1 e x (drop n p))
                          o2 wr),
                  )
            ]
      ]
