-- ===== src/Attr/Content.antt =====
-- The bytes of a non-resident attribute: what stands at the place of each, and a read of a part of a run.
use ntfs_efi.Prelude.{
  ℕ, zero, suc, ◌+◌, ◌-◌, ◌*◌, ◌%◌, ◌^◌, ◌<◌, ◌≤◌, ◌≡◌, refl, ap, sym, ◌∙◌, true, false, Option,
  none, some, List, [], ◌∷◌, ◌++◌, length, get_or, replicate, ◌==◌, arith, ◌⊎◌, dec_lt,
  length-append, length-replicate, get_or-append_left, get_or-append_right, get_or-replicate,
  ℕ_discrete, eqb_true, eqb_false,
}
use ntfs_efi.Disk.{DiskIo, DiskLaws}
use ntfs_efi.Runlist.{NtfsRunEntry, sparse_lbn}
use ntfs_efi.Attr.{no_entry, disk_offset, read_run}
use ntfs_efi.Attr.Extents.{extent, start_of, disk_pos, Holds, disk_pos-Holds}

-- Every run that is no hole lies on the medium.
abbrev pub IsOnDisk : ℕ → ℕ → List NtfsRunEntry → Type 0
IsOnDisk bpc size [] = Unit {0}
IsOnDisk bpc size (r ∷ rs) =
    ((r.lbn ≡ sparse_lbn) ⊎ (r.lbn * bpc + r.len * bpc ≤ size)) × IsOnDisk bpc size rs

-- A run list whose runs lie on a medium and whose bytes a UINT64 can number.
pub record IsReadable (bpc size : ℕ) (runs : List NtfsRunEntry) : Type 0 where
  pub on_disk : IsOnDisk bpc size runs
  pub small : extent bpc runs < 2 ^ 64
  pub medium : size < 2 ^ 64

pub on_disk_run :
    (bpc size : ℕ) (runs : List NtfsRunEntry) (i : ℕ)
    → IsOnDisk bpc size runs
    → i < length runs
    → ((get_or runs i no_entry).lbn ≡ sparse_lbn)
      ⊎ ((get_or runs i no_entry).lbn * bpc + (get_or runs i no_entry).len * bpc ≤ size)
on_disk_run bpc size [] i w h = absurd (omega arith)
on_disk_run bpc size (r ∷ rs) zero w h = w.0
on_disk_run bpc size (r ∷ rs) (suc i) w h = on_disk_run bpc size rs i w.1 (omega arith)

pub Holds-add :
    {bpc i o : ℕ} {runs : List NtfsRunEntry} (k : ℕ)
    → Holds bpc runs i o
    → o + k < start_of bpc runs i + (get_or runs i no_entry).len * bpc
    → Holds bpc runs i (o + k)
Holds-add k h lt = record {
  inside = h.inside;
  from_start = omega (arith, h.from_start);
  before_end = lt;
}

module _ {io : DiskIo} {size : ℕ} (laws : DiskLaws io size) (bpc : ℕ) (d : io.Disk) where
  -- A byte of the attribute: what stands on the disk, or 0 in a hole.
  abbrev pub byte_from : Option ℕ → ℕ
  byte_from none = 0
  byte_from (some a) = laws.byte_at d a

  abbrev pub attr_byte : List NtfsRunEntry → ℕ → ℕ
  attr_byte runs o = byte_from (disk_pos bpc runs o)

  -- What was read of a part of the attribute.
  pub record IsRead (runs : List NtfsRunEntry) (offset : ℕ) (p : List ℕ) : Type 0 where
    pub bytes : (i : ℕ) → i < length p → get_or p i 0 ≡ attr_byte runs (offset + i)

  module _ (runs : List NtfsRunEntry) (w : IsReadable bpc size runs) where
    -- A part of a run.
    pub run-IsRead :
        (i o n : ℕ)
        → Holds bpc runs i o
        → o + n ≤ start_of bpc runs i + (get_or runs i no_entry).len * bpc
        → (p : List ℕ) × (read_run io bpc d (get_or runs i no_entry) (o - start_of bpc runs i) n
            ≡ some p)
          × (length p ≡ n)
          × IsRead runs o p
    unfolding read_run disk_offset
    run-IsRead i o n h le =
        let r : NtfsRunEntry = get_or runs i no_entry in
        elim (ℕ_discrete r.lbn sparse_lbn) [
          | yes hole ↦
              let t : (r.lbn == sparse_lbn) ≡ true = eqb_true r.lbn sparse_lbn hole in
              (
                replicate n 0,
                rw t refl,
                length-replicate {A = ℕ} n 0,
                record {
                  bytes = λ k lt.
                      rw
                        (
                          disk_pos-Holds bpc runs i (o + k)
                              (Holds-add k h (omega (arith, le, lt, length-replicate {A = ℕ} n 0))),
                          t,
                        )
                        (get_or-replicate n k 0);
                },
              )
          | no real ↦
              let t : (r.lbn == sparse_lbn) ≡ false = eqb_false r.lbn sparse_lbn real in
              let on : r.lbn * bpc + r.len * bpc ≤ size =
                omega (arith, on_disk_run bpc size runs i w.on_disk h.inside) in
              let place : (r.lbn * bpc + (o - start_of bpc runs i)) % 2 ^ 64
                  ≡ r.lbn * bpc + (o - start_of bpc runs i) =
                omega (arith, w.medium, h.before_end, h.from_start, on) in
              let (p, e, n_read, bytes) =
                laws.read_inside d (r.lbn * bpc + (o - start_of bpc runs i)) n
                  (omega (arith, on, le, h.from_start)) in
              (
                p,
                rw t (ap (λ (a : ℕ). io.read_disk d a n) place ∙ e),
                n_read,
                record {
                  bytes = λ k lt.
                      let here : r.lbn * bpc + (o - start_of bpc runs i) + k
                          ≡ r.lbn * bpc + (o + k - start_of bpc runs i) =
                        omega (arith, h.from_start) in
                      rw
                        (
                          disk_pos-Holds bpc runs i (o + k)
                              (Holds-add k h (omega (arith, le, lt, n_read))),
                          t,
                          ← here,
                        )
                        (bytes k (omega (arith, lt, n_read)));
                },
              )
        ]

    -- Two parts, one behind the other.
    pub IsRead-append :
        (o : ℕ) (p q : List ℕ)
        → IsRead runs o p
        → IsRead runs (o + length p) q
        → IsRead runs o (p ++ q)
    IsRead-append o p q a b = record {
      bytes = λ i lt. elim (dec_lt i (length p)) [
        | yes h ↦ get_or-append_left p q i 0 h ∙ a.bytes i h
        | no h ↦
            let e : length p + (i - length p) ≡ i = omega arith in
            let f : o + length p + (i - length p) ≡ o + i = omega arith in
            ap (λ t. get_or (p ++ q) t 0) (sym e)
            ∙ get_or-append_right p q (i - length p) 0
            ∙ b.bytes (i - length p) (omega (arith, lt, length-append p q))
            ∙ ap (attr_byte runs) f
      ];
    }
