-- ===== src/Attr/RoundTrip.antt =====
-- A write of an attribute, and a read after it.
use ntfs_efi.Prelude.{
  ℕ, ◌+◌, ◌-◌, ◌^◌, ◌<◌, ◌≤◌, ◌≡◌, ap, ◌∙◌, true, List, length, get_or, arith, Option-cases, inl,
  inr, eq_of_get_or, dec_lt,
}
use ntfs_efi.Disk.{DiskIo, DiskLaws}
use ntfs_efi.Attr.{AttrCtx, read_attr, write_attr}
use ntfs_efi.Attr.Extents.{extent, disk_pos}
use ntfs_efi.Attr.Locate.{IsCached}
use ntfs_efi.Attr.Content.{IsReadable, attr_byte}
use ntfs_efi.Attr.Read.{ReadDone, read_attr-ReadDone}
use ntfs_efi.Attr.Write.{IsWindow, Written, write_loop-Written, disk_pos_past}

module _ {io : DiskIo} {size : ℕ} (laws : DiskLaws io size) (bpc : ℕ) (d : io.Disk) (c : AttrCtx)
    (offset : ℕ) (p : List ℕ) (w : IsReadable bpc size c.runs)
    (nonresident : c.is_non_resident ≡ true) (fits : offset + length p < 2 ^ 64)
    (win : IsWindow laws bpc c.runs offset (length p)) where
  -- For a non-resident attribute whose runs lie on the medium, the medium and the runs being shorter than
  -- 2 ^ 64 bytes: a write that ends below 2 ^ 64 and whose window has no hole and maps no two bytes to one
  -- place succeeds in full; afterwards the places of the window hold the new bytes, and every other byte
  -- of the medium is as it was.
  pub write_attr-Written :
      (e : io.Disk) × (write_attr io bpc d c offset p ≡ (length p, e))
      × Written laws bpc c.runs d e offset p
  unfolding write_attr
  write_attr-Written =
      let (e, q, wr) =
        write_loop-Written laws bpc c.runs w (length p) d offset p 0 (omega arith) fits win in
      (e, simp nonresident (q ∙ ap (λ n. (n, e)) (omega arith)), wr)

  window_inside : length p ≤ extent bpc c.runs - offset
  window_inside = elim (dec_lt 0 (length p)) [
    | yes some_left ↦ elim (dec_lt (offset + length p - 1) (extent bpc c.runs)) [
      | yes h ↦ omega arith
      | no h ↦ absurd (
          win.mapped (offset + length p - 1) (omega arith) (omega arith)
            (disk_pos_past bpc c.runs (offset + length p - 1) (omega arith)))
    ]
    | no empty ↦ omega arith
  ]

  new_byte :
      (e : io.Disk)
      → Written laws bpc c.runs d e offset p
      → (i : ℕ) → i < length p
      → attr_byte laws bpc e c.runs (offset + i) ≡ get_or p i 0
  new_byte e wr i lt = elim (Option-cases (disk_pos bpc c.runs (offset + i))) [
    | inl hole ↦ absurd (win.mapped (offset + i) (omega arith) (omega arith) hole)
    | inr (a, at_a) ↦
        let j : offset + i - offset ≡ i = omega arith in
        rw at_a (wr.new (offset + i) a (omega arith) (omega arith) at_a ∙ ap (λ t. get_or p t 0) j)
  ]

  -- For a non-resident attribute whose runs lie on the medium, the medium and the runs being shorter than
  -- 2 ^ 64 bytes, and a write that ends below 2 ^ 64 and whose window has no hole and maps no two bytes to
  -- one place: a read of the bytes that were just written gives them back, from any position in the cache
  -- of the context that is the start of its run.
  pub read_attr-write_attr :
      IsCached bpc c
      → (read_attr io bpc (write_attr io bpc d c offset p).1 c offset (length p)).0 ≡ p
  read_attr-write_attr k =
      let (e, q, wr) = write_attr-Written in
      let out : List ℕ × AttrCtx = read_attr io bpc e c offset (length p) in
      let r : ReadDone laws bpc e c.runs w offset (length p) out =
        read_attr-ReadDone laws bpc e c offset (length p) w nonresident fits k in
      let n : length out.0 ≡ length p = omega (arith, r.amount, window_inside) in
      ap (λ (x : ℕ × io.Disk). (read_attr io bpc x.1 c offset (length p)).0) q
      ∙ eq_of_get_or out.0 p n
          (λ i lt. r.content.bytes i lt ∙ new_byte e wr i (omega (arith, lt, n)))
