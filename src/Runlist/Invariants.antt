-- ===== src/Runlist/Invariants.antt =====
-- The decoding routines of src/ntfs_runlist.c on any stream, well formed or not.
use ntfs_efi.Prelude.{
  ℕ, zero, suc, ◌+◌, ◌-◌, ◌/◌, ◌%◌, ◌^◌, ◌<◌, ◌≤◌, ◌≡◌, ◌≢◌, refl, sym, subst, ◌∙◌, true, false,
  some, List, [], ◌∷◌, drop, take, length, length-drop, length-take, arith, ◌==◌, ltb, ◌||◌, inl,
  inr, Bool-cases, ◌⊎◌,
}
use ntfs_efi.Prelude.Status.{Result, ok, err, volume_corrupted, read_fault}
use ntfs_efi.Runlist.Reads.{decode_fields_next}
use ntfs_efi.Runlist.Stream.{build_loop_decoded}
use ntfs_efi.Runlist.{
  NtfsRunEntry, NtfsAttrRecord, RunEntry, null, decoded, decode_run_entry, build_loop,
  build_run_list, stream, stream_ok, run_of, next_lcn, prepend, size_loop, mapping_pairs_size,
}

-- On a stream with a byte left NtfsDecodeRunEntry never reads at RunEnd or behind. It returns NULL only
-- where the header announces a field of more than 8 bytes, or more bytes than are left before RunEnd;
-- otherwise it takes the header and the bytes that it announces, at most 16 and all before RunEnd.
pub decode_run_entry_bounds :
    (h : ℕ) (p : List ℕ)
    → ((decode_run_entry (h ∷ p) ≡ null)
        × ((8 < h % 16) ⊎ ((8 < h / 16 % 16) ⊎ (length p < h % 16 + h / 16 % 16))))
      ⊎ ((e : RunEntry) × (decode_run_entry (h ∷ p) ≡ decoded e)
          × (e.next ≡ drop (h % 16 + h / 16 % 16) p)
          × (h % 16 + h / 16 % 16 ≤ length p)
          × (h % 16 + h / 16 % 16 ≤ 16))
unfolding decode_run_entry
decode_run_entry_bounds h p = elim (Bool-cases (ltb 8 (h % 16) || ltb 8 (h / 16 % 16))) [
  | inl wide ↦ inl (rw wide refl, ground arith)
  | inr narrow ↦ elim (Bool-cases (ltb (length p) (h % 16 + h / 16 % 16))) [
    | inl short ↦ inl (rw (narrow, short) refl, inr (inr (ground arith)))
    | inr inside ↦
        let (e, d, n) = decode_fields_next (h % 16) (h / 16 % 16) p (ground arith) in
        inr (e, rw (narrow, inside) d, n, ground arith, ground arith)
  ]
]

-- The VBNs of the runs follow one another from `vbn` on.
abbrev pub IsGapless : ℕ → List NtfsRunEntry → Type 0
IsGapless vbn [] = Unit {0}
IsGapless vbn (r ∷ rs) = (r.vbn ≡ vbn) × IsGapless ((vbn + r.len) % 2 ^ 64) rs

prepend-ok :
    (r : NtfsRunEntry) (x : Result (List NtfsRunEntry)) {rs : List NtfsRunEntry}
    → prepend r x ≡ ok rs
    → (l : List NtfsRunEntry) × (x ≡ ok l) × (r ∷ l ≡ rs)
unfolding prepend
prepend-ok r (ok l) h = (l, refl, ground arith)
prepend-ok r (err s) h = cc

build_loop-nil :
    (slots h : ℕ) (p : List ℕ) (lcn vbn : ℕ)
    → (h == 0) ≡ true
    → build_loop slots (h ∷ p) lcn vbn ≡ ok []
unfolding build_loop
build_loop-nil zero h p lcn vbn e = rw e
build_loop-nil (suc slots) h p lcn vbn e = rw (build_loop, e)

build_loop_corrupted :
    (slots h : ℕ) (p : List ℕ) (lcn vbn : ℕ)
    → (h == 0) ≡ false
    → decode_run_entry (h ∷ p) ≡ null
    → build_loop (suc slots) (h ∷ p) lcn vbn ≡ err volume_corrupted
unfolding build_loop
build_loop_corrupted slots h p lcn vbn e d = rw (build_loop, e, d)

abbrev Built : ℕ → ℕ → List NtfsRunEntry → Type 0
Built slots vbn rs = IsGapless vbn rs × (length rs ≤ slots)

Built-nil : (slots vbn : ℕ) (rs : List NtfsRunEntry) → ok [] ≡ ok rs → Built slots vbn rs
Built-nil slots vbn [] e = (tt, omega arith)
Built-nil slots vbn (r ∷ rs) e = cc

Built-run_of :
    (slots vbn lcn : ℕ) (e : RunEntry) (l : List NtfsRunEntry)
    → Built slots ((vbn + e.run_length) % 2 ^ 64) l
    → Built (suc slots) vbn (run_of e lcn vbn ∷ l)
unfolding run_of
Built-run_of slots vbn lcn e l (g, n) = ((refl, g), omega arith)

build_loop-Built :
    (slots : ℕ) (p : List ℕ) (lcn vbn : ℕ) (rs : List NtfsRunEntry)
    → build_loop slots p lcn vbn ≡ ok rs
    → Built slots vbn rs
build_loop-Built zero [] lcn vbn rs b = Built-nil 0 vbn rs (unfold build_loop in b)
build_loop-Built (suc slots) [] lcn vbn rs b = Built-nil _ vbn rs (unfold build_loop in b)
build_loop-Built zero (h ∷ p) lcn vbn rs b = elim (Bool-cases (h == 0)) [
  | inl z ↦ Built-nil 0 vbn rs (sym (build_loop-nil 0 h p lcn vbn z) ∙ b)
  | inr nz ↦ unfold build_loop in ground arith
]
build_loop-Built (suc slots) (h ∷ p) lcn vbn rs b = elim (Bool-cases (h == 0)) [
  | inl z ↦ Built-nil _ vbn rs (sym (build_loop-nil (suc slots) h p lcn vbn z) ∙ b)
  | inr nz ↦ elim (decode_run_entry_bounds h p) [
    | inl (d, why) ↦ cc (build_loop_corrupted slots h p lcn vbn nz d)
    | inr (e, d, next, inside, small) ↦
        let (l, x, c) = prepend-ok _ _ (sym (build_loop_decoded slots h lcn vbn p e nz d) ∙ b) in
        subst (λ t. Built (suc slots) vbn t) c
          (Built-run_of slots vbn (next_lcn e lcn) e l
            (build_loop-Built slots e.next (next_lcn e lcn) ((vbn + e.run_length) % 2 ^ 64) l x))
  ]
]

prepend-fault :
    (r : NtfsRunEntry) (x : Result (List NtfsRunEntry))
    → prepend r x ≡ err read_fault
    → x ≡ err read_fault
unfolding prepend
prepend-fault r (ok l) h = cc
prepend-fault r (err s) h = h

-- The loop of NtfsBuildRunList reads no byte at RunEnd or behind.
pub build_loop_inside :
    (slots : ℕ) (p : List ℕ) (lcn vbn : ℕ) → build_loop slots p lcn vbn ≢ err read_fault
build_loop_inside zero [] lcn vbn b = unfold build_loop in cc
build_loop_inside (suc slots) [] lcn vbn b = unfold build_loop in cc
build_loop_inside zero (h ∷ p) lcn vbn b = unfold build_loop in ground arith
build_loop_inside (suc slots) (h ∷ p) lcn vbn b = elim (Bool-cases (h == 0)) [
  | inl z ↦ cc (build_loop-nil (suc slots) h p lcn vbn z)
  | inr nz ↦ elim (decode_run_entry_bounds h p) [
    | inl (d, why) ↦ cc (build_loop_corrupted slots h p lcn vbn nz d)
    | inr (e, d, next, inside, small) ↦
        build_loop_inside slots e.next (next_lcn e lcn) ((vbn + e.run_length) % 2 ^ 64)
          (prepend-fault _ _ (sym (build_loop_decoded slots h lcn vbn p e nz d) ∙ b))
  ]
]

-- A run list that NtfsBuildRunList returns has at most MaxRuns runs, and its runs map the virtual
-- clusters from LowestVCN on without a gap.
pub build_run_list-IsGapless :
    (a : NtfsAttrRecord) (max_runs : ℕ) (rs : List NtfsRunEntry)
    → build_run_list a max_runs ≡ ok rs
    → IsGapless (a.lowest_vcn % 2 ^ 64) rs × (length rs ≤ max_runs)
unfolding build_run_list
build_run_list-IsGapless a max_runs rs b = elim (Bool-cases (stream_ok a)) [
  | inl good ↦ build_loop-Built max_runs (stream a) 0 _ rs (rw good at b)
  | inr bad ↦ cc (bad)
]

-- The loop of NtfsMappingPairsSize ends on every stream, and answers 0 or a position inside it that
-- follows a terminator.
size_loop_bounds :
    (fuel : ℕ) (p : List ℕ) (pos : ℕ)
    → length p ≤ fuel
    → (n : ℕ) × (size_loop fuel p pos ≡ some n) × ((n ≡ 0) ⊎ ((pos < n) × (n ≤ pos + length p)))
unfolding size_loop
size_loop_bounds zero [] pos h = (0, refl, inl refl)
size_loop_bounds (suc fuel) [] pos h = (0, refl, inl refl)
size_loop_bounds zero (b ∷ p) pos h = absurd (omega arith)
size_loop_bounds (suc fuel) (b ∷ p) pos h =
    let (n, e, w) =
      size_loop_bounds fuel (drop (b % 16 + b / 16 % 16) p) (pos + (1 + b % 16 + b / 16 % 16))
        (omega (arith, length-drop (b % 16 + b / 16 % 16) p)) in
    elim (Bool-cases (b == 0)) [
      | inl z ↦ (pos + 1, rw z, inr (omega arith))
      | inr nz ↦ elim (Bool-cases (ltb 8 (b % 16) || ltb 8 (b / 16 % 16))) [
        | inl bad ↦ (0, rw (nz, bad), inl refl)
        | inr good ↦ (n, rw (nz, good) e, ground (arith, length-drop (b % 16 + b / 16 % 16) p))
      ]
    ]

length-stream : (a : NtfsAttrRecord) → length (stream a) ≤ a.record_length - a.mapping_pairs_offset
unfolding stream
length-stream a = omega (
  arith,
  length-drop a.mapping_pairs_offset (take a.record_length a.bytes),
  length-take a.record_length a.bytes,
)

-- NtfsMappingPairsSize returns on every record, and what it returns is 0 or a positive number of
-- bytes that, from MappingPairsOffset on, lie inside the record's own length.
pub mapping_pairs_size_bounds :
    (a : NtfsAttrRecord)
    → (n : ℕ) × (mapping_pairs_size a ≡ some n)
      × ((n ≡ 0) ⊎ ((0 < n) × (a.mapping_pairs_offset + n ≤ a.record_length)))
unfolding mapping_pairs_size
mapping_pairs_size_bounds a = elim (Bool-cases (stream_ok a)) [
  | inl good ↦
      let (n, e, w) = size_loop_bounds (length (stream a)) (stream a) 0 (omega arith) in
      (n, rw good e, ground (arith, length-stream a))
  | inr bad ↦ (0, rw bad, inl refl)
]
