-- ===== src/Attr/Read.antt =====
-- The bytes that NtfsEfiReadAttr gives for a non-resident attribute.
use ntfs_efi.Prelude.{
  ℕ, zero, suc, ◌+◌, ◌-◌, ◌*◌, ◌%◌, ◌^◌, ◌<◌, ◌≤◌, ◌≡◌, refl, ap, ap₂, sym, ◌∙◌, true, false, some,
  List, [], length, get_or, leb, ◌==◌, arith, Bool-cases, inl, inr, ◌⊎◌, min, subst, length-append,
}
use ntfs_efi.Disk.{DiskIo, DiskLaws}
use ntfs_efi.Runlist.{NtfsRunEntry}
use ntfs_efi.Attr.{
  AttrCtx, run_bytes, no_entry, cached_run, locate, advance, run_offset, take_bytes, prepend_read,
  read_run, read_loop, read_attr,
}
use ntfs_efi.Attr.Extents.{extent, start_of, Holds, start_of-le}
use ntfs_efi.Attr.Locate.{IsCached, Located, locate-Located, advance-IsCached, advance_runs}
use ntfs_efi.Attr.Content.{IsReadable, IsRead, run-IsRead, IsRead-append}

module _ {io : DiskIo} {size : ℕ} (laws : DiskLaws io size) (bpc : ℕ) (d : io.Disk) where
  module _ (runs : List NtfsRunEntry) (w : IsReadable bpc size runs) where
    -- What a read of `n` bytes at an offset gives.
    pub record ReadDone (offset n : ℕ) (out : List ℕ × AttrCtx) : Type 0 where
      pub content : IsRead laws bpc d runs offset out.0
      pub amount : length out.0 ≡ min n (extent bpc runs - offset)
      pub same_runs : out.1.runs ≡ runs
      pub cached : IsCached bpc out.1

    nothing_read :
        (offset n : ℕ) (c : AttrCtx)
        → (n ≡ 0) ⊎ (extent bpc runs ≤ offset)
        → c.runs ≡ runs
        → IsCached bpc c
        → ReadDone offset n ([], c)
    nothing_read offset n c e same k = record {
      content = record { bytes = λ i lt. absurd (omega arith) };
      amount = omega arith;
      same_runs = same;
      cached = k;
    }

    prepend-ReadDone :
        (offset n : ℕ) (p : List ℕ) (out : List ℕ × AttrCtx)
        → length p ≤ n
        → offset + length p ≤ extent bpc runs
        → IsRead laws bpc d runs offset p
        → ReadDone (offset + length p) (n - length p) out
        → ReadDone offset n (prepend_read p out)
    unfolding prepend_read
    prepend-ReadDone offset n p (q, c) le inside a r = record {
      content = IsRead-append laws bpc d runs w offset p q a r.content;
      amount = omega (arith, length-append p q, r.amount);
      same_runs = r.same_runs;
      cached = r.cached;
    }

    -- A round that has found its run: what it takes, and what is read.
    module _ (t : AttrCtx) (same : t.runs ≡ runs) (offset n : ℕ) (fits : offset + n < 2 ^ 64)
        (h : Holds bpc runs t.cache_idx offset)
        (e : t.cache_offset ≡ start_of bpc runs t.cache_idx) where
      abbrev inner : ℕ
      inner = run_offset offset t.cache_offset

      abbrev taken : ℕ
      taken = take_bytes (run_bytes bpc (cached_run t)) inner n

      inner_eq : inner ≡ offset - start_of bpc runs t.cache_idx
      unfolding run_offset
      inner_eq = omega (arith, h.from_start, fits, e)

      run_eq : cached_run t ≡ get_or runs t.cache_idx no_entry
      unfolding cached_run
      run_eq = ap (λ rs. get_or rs t.cache_idx no_entry) same

      bytes_eq : run_bytes bpc (cached_run t) ≡ (get_or runs t.cache_idx no_entry).len * bpc
      unfolding run_bytes
      bytes_eq =
          ap (λ (r : NtfsRunEntry). r.len * bpc % 2 ^ 64) run_eq
          ∙ omega (arith, start_of-le bpc runs t.cache_idx h.inside, w.small)

      taken_eq :
          taken
          ≡ min
              ((get_or runs t.cache_idx no_entry).len * bpc
                - (offset - start_of bpc runs t.cache_idx))
              n
      unfolding take_bytes
      taken_eq = omega (
        arith,
        bytes_eq,
        inner_eq,
        h.from_start,
        h.before_end,
        fits,
        start_of-le bpc runs t.cache_idx h.inside,
        w.small,
      )

      taken_fits :
          (taken ≤ n)
          × (offset + taken
              ≤ start_of bpc runs t.cache_idx + (get_or runs t.cache_idx no_entry).len * bpc)
          × (0 < n → 0 < taken)
      taken_fits = (
        omega (arith, taken_eq),
        omega (arith, taken_eq, h.from_start, h.before_end),
        λ pos. omega (arith, taken_eq, h.from_start, h.before_end),
      )

      round-IsRead :
          (p : List ℕ) × (read_run io bpc d (cached_run t) inner taken ≡ some p)
          × (length p ≡ taken)
          × IsRead laws bpc d runs offset p
      round-IsRead =
          let (p, q, l, r) = run-IsRead laws bpc d runs w t.cache_idx offset taken h taken_fits.1 in
          (
            p,
            ap₂ (λ (x : NtfsRunEntry) (y : ℕ). read_run io bpc d x y taken) run_eq inner_eq ∙ q,
            l,
            r,
          )

    moved :
        (offset n m l : ℕ) (out : List ℕ × AttrCtx)
        → l ≡ m
        → offset + m < 2 ^ 64
        → ReadDone ((offset + m) % 2 ^ 64) (n - m) out
        → ReadDone (offset + l) (n - l) out
    moved offset n m l out e fits r =
        let o : (offset + m) % 2 ^ 64 ≡ offset + l = omega arith in
        subst (λ (x : ℕ). ReadDone x (n - l) out) o
          (subst (λ (y : ℕ). ReadDone ((offset + m) % 2 ^ 64) (n - y) out) (sym e) r)

    read_loop-ReadDone :
        (fuel : ℕ) (c : AttrCtx) (offset n : ℕ)
        → n ≤ fuel
        → offset + n < 2 ^ 64
        → c.runs ≡ runs
        → IsCached bpc c
        → ReadDone offset n (read_loop io fuel bpc d c offset n)
    unfolding read_loop
    read_loop-ReadDone zero c offset n f fits same k = nothing_read offset n c (omega arith) same k
    read_loop-ReadDone (suc fuel) c offset n f fits same k = elim (Bool-cases (n == 0)) [
      | inl done ↦ rw (read_loop, done) (nothing_read offset n c (ground arith) same k)
      | inr more ↦
          let t : AttrCtx = locate bpc c offset in
          let l : Located bpc c t offset = locate-Located bpc c offset (rw same w.small) k in
          let same_t : t.runs ≡ runs = l.same_runs ∙ same in
          elim l.outcome [
            | inl (out, past) ↦
                let stop : leb (length t.runs) t.cache_idx ≡ true =
                  ground (arith, out, ap length l.same_runs) in
                rw (read_loop, more, stop)
                  (nothing_read offset n t (inr (rw (← same) past)) same_t
                    (λ lt. absurd (omega (arith, out, lt, ap length l.same_runs))))
            | inr (h0, e0) ↦
                let h : Holds bpc runs t.cache_idx offset = rw (← same) h0 in
                let e : t.cache_offset ≡ start_of bpc runs t.cache_idx = rw (← same) e0 in
                let go_on : leb (length t.runs) t.cache_idx ≡ false =
                  ground (arith, h.inside, ap length same_t) in
                let (p, q, lp, r) = round-IsRead t same_t offset n fits h e in
                let tf = taken_fits t same_t offset n fits h e in
                let k2 =
                  advance-IsCached bpc t (inner t same_t offset n fits h e)
                    (taken t same_t offset n fits h e) (rw same_t w.small)
                    (omega (arith, h.inside, ap length same_t)) (e ∙ rw same_t refl) in
                rw (read_loop, more, go_on, q)
                  (prepend-ReadDone offset n p _ (omega (arith, lp, tf.0))
                    (omega (arith, lp, tf.1, start_of-le bpc runs t.cache_idx h.inside)) r
                    (moved offset n (taken t same_t offset n fits h e) (length p) _ lp
                      (omega (arith, tf.0, fits))
                      (read_loop-ReadDone fuel
                        (advance bpc t (inner t same_t offset n fits h e)
                          (taken t same_t offset n fits h e))
                        ((offset + taken t same_t offset n fits h e) % 2 ^ 64)
                        (n - taken t same_t offset n fits h e)
                        (omega (arith, f, tf.2 (ground arith))) (omega (arith, tf.0, fits))
                        (advance_runs bpc t (inner t same_t offset n fits h e)
                            (taken t same_t offset n fits h e)
                          ∙ same_t)
                        k2)))
          ]
    ]

-- For a non-resident attribute whose runs lie on the medium, the medium and the runs being shorter than
-- 2 ^ 64 bytes, from any position in the cache that is the start of its run: a read that ends below 2 ^ 64
-- gives the bytes that the runs map there, zeros in holes, exactly as many as asked for
-- or as are left up to the end of the runs; the cache holds a position of its run again.
pub read_attr-ReadDone :
    {io : DiskIo} {size : ℕ} (laws : DiskLaws io size) (bpc : ℕ) (d : io.Disk) (c : AttrCtx)
    (offset n : ℕ)
    → (w : IsReadable bpc size c.runs) → c.is_non_resident ≡ true
    → offset + n < 2 ^ 64
    → IsCached bpc c
    → ReadDone laws bpc d c.runs w offset n (read_attr io bpc d c offset n)
unfolding read_attr
read_attr-ReadDone laws bpc d c offset n w nonresident fits k =
    simp nonresident (read_loop-ReadDone laws bpc d c.runs w n c offset n (omega arith) fits refl k)
