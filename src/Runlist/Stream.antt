-- ===== src/Runlist/Stream.antt =====
-- A run list that is encoded, terminated and decoded again.
use ntfs_efi.Prelude.{
  ℕ, zero, suc, ◌+◌, ◌-◌, ◌*◌, ◌%◌, ◌^◌, ◌<◌, ◌≤◌, ◌≡◌, refl, ◌∙◌, false, some, List, [], ◌∷◌, ◌++◌,
  append_assoc, length, arith, ◌==◌, bit_or,
}
use ntfs_efi.Prelude.Bits.{bit_or_high}
use ntfs_efi.Prelude.Status.{ok}
use ntfs_efi.Runlist.{
  NtfsRunEntry, RunEntry, decoded, sparse_lbn, encode_run_entry, decode_run_entry, build_loop,
  run_of, next_lcn, prepend, encode_runs, len_bytes_of, off_bytes_of,
}
use ntfs_efi.Runlist.RoundTrip.{entry, decode-encode_run_entry}
use ntfs_efi.Runlist.Sizes.{len_bytes_of_lem, off_bytes_of_lem}

-- Real runs, each at a UINT64 cluster and of a length below 2 ^ 63, whose VBNs follow one another
-- from `vbn` on.
abbrev pub IsRunList : ℕ → List NtfsRunEntry → Type 0
IsRunList vbn [] = Unit {0}
IsRunList vbn (r ∷ rs) =
    (r.vbn ≡ vbn) × (r.lbn < sparse_lbn) × (r.len < 2 ^ 63) × IsRunList ((vbn + r.len) % 2 ^ 64) rs

-- The header byte of an encoded entry is no terminator.
header_nonzero :
    (len delta : ℕ)
    → len < 2 ^ 63
    → delta < 2 ^ 64
    → (bit_or (len_bytes_of len) (off_bytes_of delta * 16) % 256 == 0) ≡ false
header_nonzero len delta hl hd =
    let (m_low, m_high, m_fits) = len_bytes_of_lem len hl in
    let (k_low, k_high, k_fits) = off_bytes_of_lem delta hd in
    ground (arith, bit_or_high 4 (len_bytes_of len) (off_bytes_of delta))

-- One round of the loop of NtfsBuildRunList on an entry that decodes.
pub build_loop_decoded :
    (slots h lcn vbn : ℕ) (p : List ℕ) (e : RunEntry)
    → (h == 0) ≡ false
    → decode_run_entry (h ∷ p) ≡ decoded e
    → build_loop (suc slots) (h ∷ p) lcn vbn
      ≡ prepend
          (run_of e (next_lcn e lcn) vbn)
          (build_loop slots e.next (next_lcn e lcn) ((vbn + e.run_length) % 2 ^ 64))
unfolding build_loop
build_loop_decoded slots h lcn vbn p e nz d = rw (build_loop, nz, d)

build_loop_encoded :
    (slots len delta lcn vbn : ℕ) (rest : List ℕ)
    → len < 2 ^ 63
    → delta < 2 ^ 64
    → build_loop (suc slots) (encode_run_entry len delta ++ rest) lcn vbn
      ≡ prepend
          (record { vbn = vbn; lbn = (lcn + delta) % 2 ^ 64; len = len })
          (build_loop slots rest ((lcn + delta) % 2 ^ 64) ((vbn + len) % 2 ^ 64))
unfolding encode_run_entry run_of next_lcn
build_loop_encoded slots len delta lcn vbn rest hl hd =
    build_loop_decoded slots _ lcn vbn _ (entry len delta rest) (header_nonzero len delta hl hd)
      (decode-encode_run_entry len delta rest hl hd)

-- Moving from one LCN to the next by the wrapped difference.
lcn_moves :
    (prev lbn : ℕ)
    → prev < 2 ^ 64
    → lbn < 2 ^ 64
    → (prev + (lbn + 2 ^ 64 - prev) % 2 ^ 64) % 2 ^ 64 ≡ lbn
lcn_moves prev lbn hp hl = omega arith

-- Encoding a list of real, gapless runs from an INT64 cluster on never fails, and the loop of
-- NtfsBuildRunList reads the list back from the encoded bytes, whatever stands behind the terminator,
-- where its table has room for all runs.
pub build_loop-encode_runs :
    (rs : List NtfsRunEntry) (slots prev vbn : ℕ) (rest : List ℕ)
    → IsRunList vbn rs
    → prev < 2 ^ 64
    → length rs ≤ slots
    → (l : List ℕ) × (encode_runs rs prev ≡ some l)
      × (build_loop slots (l ++ rest) prev vbn ≡ ok rs)
unfolding encode_runs
build_loop-encode_runs [] zero prev vbn rest h hp hs = (0 ∷ [], refl, unfold build_loop in refl)
build_loop-encode_runs [] (suc slots) prev vbn rest h hp hs =
    (0 ∷ [], refl, unfold build_loop in refl)
build_loop-encode_runs (r ∷ rs) zero prev vbn rest h hp hs = absurd (omega arith)
build_loop-encode_runs (r ∷ rs) (suc slots) prev vbn rest (hv, hl, hn, ht) hp hs =
    let (l, e, b) =
      build_loop-encode_runs rs slots r.lbn ((vbn + r.len) % 2 ^ 64) rest ht (omega arith)
        (omega arith) in
    let real : (r.lbn == sparse_lbn) ≡ false = ground arith in
    let moved : (prev + (r.lbn + 2 ^ 64 - prev) % 2 ^ 64) % 2 ^ 64 ≡ r.lbn =
      lcn_moves prev r.lbn hp (omega arith) in
    (
      encode_run_entry r.len ((r.lbn + 2 ^ 64 - prev) % 2 ^ 64) ++ l,
      rw (real, e),
      rw append_assoc (
          build_loop_encoded slots r.len _ prev vbn (l ++ rest) hn (omega arith)
          ∙ rw (moved, b, ← hv) (unfold prepend in refl)),
    )
