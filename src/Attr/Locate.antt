-- ===== src/Attr/Locate.antt =====
-- The cache of the last position: whatever it holds, a round of NtfsEfiReadAttr reads from the run
-- that holds the offset.
use ntfs_efi.Prelude.{
  ℕ, zero, suc, ◌+◌, ◌-◌, ◌*◌, ◌%◌, ◌^◌, ◌<◌, ◌≤◌, ◌≡◌, refl, sym, ◌∙◌, Bool, true, false, ◌||◌,
  none, some, length, get_or, ltb, leb, ◌==◌, arith, Bool-cases, inl, inr, ◌⊎◌, dec_lt,
}
use ntfs_efi.Attr.{
  AttrCtx, run_bytes, no_entry, cached_run, drop_stale, seek_forward, scan_runs, set_cache, rescan,
  locate, advance,
}
use ntfs_efi.Attr.Extents.{extent, start_of, Holds, start_of-le, start_of_next, scan_runs_found}

-- A cached position, if there is one, is the start of its run.
abbrev pub IsCached : ℕ → AttrCtx → Type 0
IsCached bpc c = c.cache_idx < length c.runs → c.cache_offset ≡ start_of bpc c.runs c.cache_idx

-- The outcome of the search for an offset: past the end, or the run that holds it.
pub record Located (bpc : ℕ) (c t : AttrCtx) (o : ℕ) : Type 0 where
  pub same_runs : t.runs ≡ c.runs
  pub outcome :
      ((length c.runs ≤ t.cache_idx) × (extent bpc c.runs ≤ o))
      ⊎ (Holds bpc c.runs t.cache_idx o × (t.cache_offset ≡ start_of bpc c.runs t.cache_idx))

module _ (bpc : ℕ) (c : AttrCtx) (o : ℕ) (small : extent bpc c.runs < 2 ^ 64) where
  seek_stays_out : (fuel : ℕ) → length c.runs ≤ c.cache_idx → seek_forward fuel bpc c o ≡ c
  unfolding seek_forward
  seek_stays_out zero h = refl
  seek_stays_out (suc fuel) h =
      let out : ltb c.cache_idx (length c.runs) ≡ false = ground arith in rw out refl

  -- The end of the cached run, with no wrap-around.
  cached_end :
      c.cache_idx < length c.runs
      → c.cache_offset ≡ start_of bpc c.runs c.cache_idx
      → (c.cache_offset + run_bytes bpc (cached_run c)) % 2 ^ 64
        ≡ start_of bpc c.runs c.cache_idx + (get_or c.runs c.cache_idx no_entry).len * bpc
  unfolding run_bytes cached_run
  cached_end h e = omega (arith, start_of-le bpc c.runs c.cache_idx h)

  seek_stays_in :
      (fuel : ℕ)
      → Holds bpc c.runs c.cache_idx o
      → c.cache_offset ≡ start_of bpc c.runs c.cache_idx
      → seek_forward fuel bpc c o ≡ c
  unfolding seek_forward
  seek_stays_in zero h e = refl
  seek_stays_in (suc fuel) h e =
      let inside : ltb c.cache_idx (length c.runs) ≡ true = ground (arith, h.inside) in
      let here : ltb o ((c.cache_offset + run_bytes bpc (cached_run c)) % 2 ^ 64) ≡ true =
        ground (arith, cached_end h.inside e, h.before_end) in
      rw (inside, here) refl

  set_cache-Located :
      length c.runs ≤ c.cache_idx
      → ((scan_runs bpc c.runs 0 0 o ≡ none) × (0 + extent bpc c.runs ≤ o))
        ⊎ ((j : ℕ) × (scan_runs bpc c.runs 0 0 o ≡ some (0 + j, 0 + start_of bpc c.runs j))
            × Holds bpc c.runs j (o - 0))
      → Located bpc c (set_cache c (scan_runs bpc c.runs 0 0 o)) o
  unfolding set_cache
  set_cache-Located h (inl (n, past)) =
      rw n (record { same_runs = refl; outcome = inl (h, omega arith) })
  set_cache-Located h (inr (j, e, w)) =
      let z : (0 + j ≡ j) × (o - 0 ≡ o) = (omega arith, omega arith) in
      rw e (record { same_runs = refl; outcome = inr (rw z.0 (rw z.1 at w), rw z.0 (omega arith)) })

  rescan-Located : length c.runs ≤ c.cache_idx → Located bpc c (rescan bpc c o) o
  unfolding rescan
  rescan-Located h =
      let out : leb (length c.runs) c.cache_idx ≡ true = ground arith in
      rw out (set_cache-Located h (scan_runs_found bpc c.runs 0 0 o (omega arith) (omega arith)))

  rescan_in : c.cache_idx < length c.runs → rescan bpc c o ≡ c
  unfolding rescan
  rescan_in h =
      let inside : leb (length c.runs) c.cache_idx ≡ false = ground arith in rw inside refl

  -- With no position in the cache the runs are searched.
  search-Located :
      length c.runs ≤ c.cache_idx
      → Located bpc c (rescan bpc (seek_forward (length c.runs) bpc c o) o) o
  search-Located h = rw (seek_stays_out (length c.runs) h) (rescan-Located h)

  -- A position that holds the offset is kept.
  hit-Located :
      Holds bpc c.runs c.cache_idx o
      → c.cache_offset ≡ start_of bpc c.runs c.cache_idx
      → Located bpc c (rescan bpc (seek_forward (length c.runs) bpc c o) o) o
  hit-Located h e =
      rw (seek_stays_in (length c.runs) h e, rescan_in h.inside)
        (record { same_runs = refl; outcome = inr (h, e) })

-- Whatever the cache holds, the run that holds the offset is found, or the offset is past the end.
pub locate-Located :
    (bpc : ℕ) (c : AttrCtx) (o : ℕ)
    → extent bpc c.runs < 2 ^ 64
    → IsCached bpc c
    → Located bpc c (locate bpc c o) o
unfolding locate drop_stale
locate-Located bpc c o small k = elim (dec_lt c.cache_idx (length c.runs)) [
  | no out ↦
      let t : ltb c.cache_idx (length c.runs) ≡ false = ground arith in
      rw t (search-Located bpc c o small (omega arith))
  | yes inside ↦
      let t : ltb c.cache_idx (length c.runs) ≡ true = ground arith in
      let stale : Bool =
        ltb o c.cache_offset || leb ((c.cache_offset + run_bytes bpc (cached_run c)) % 2 ^ 64) o in
      elim (Bool-cases stale) [
        | inl bad ↦
            rw (t, bad)
              (search_again
                (search-Located bpc (record c { cache_idx = length c.runs }) o small (omega arith)))
        | inr good ↦
            rw (t, good)
              (hit-Located bpc c o small
                (record {
                  inside = inside;
                  from_start = ground (arith, k inside);
                  before_end = ground (arith, cached_end bpc c o small inside (k inside));
                })
                (k inside))
      ]
]
  where
    search_again :
        {t : AttrCtx} → Located bpc (record c { cache_idx = length c.runs }) t o → Located bpc c t o
    search_again l = record { same_runs = l.same_runs; outcome = l.outcome }

-- After a round the position is that of its run again.
pub advance-IsCached :
    (bpc : ℕ) (c : AttrCtx) (inner n : ℕ)
    → extent bpc c.runs < 2 ^ 64
    → c.cache_idx < length c.runs
    → c.cache_offset ≡ start_of bpc c.runs c.cache_idx
    → IsCached bpc (advance bpc c inner n)
unfolding advance
advance-IsCached bpc c inner n small h e =
    elim (Bool-cases (inner + n == run_bytes bpc (cached_run c))) [
      | inl end ↦
          rw end
            (λ next. cached_end bpc c 0 small h e ∙ sym (start_of_next bpc c.runs c.cache_idx h))
      | inr more ↦ rw more (λ next. e)
    ]

pub advance_runs : (bpc : ℕ) (c : AttrCtx) (inner n : ℕ) → (advance bpc c inner n).runs ≡ c.runs
unfolding advance
advance_runs bpc c inner n = ground arith
