-- ===== src/Runlist/Runs.antt =====
-- Concrete streams, and the theorems at concrete inputs.
use ntfs_efi.Prelude.{
  ◌≡◌, refl, some, true, false, List, [], ◌∷◌, ◌++◌, ◌^◌, ◌-◌, ◌+◌, ◌<◌, ◌≤◌, ◌%◌, ◌/◌, ◌⊎◌, ℕ,
  arith, length, drop,
}
use ntfs_efi.Prelude.Status.{ok}
use ntfs_efi.Runlist.{
  NtfsRunEntry, NtfsAttrRecord, RunEntry, null, decoded, read_bytes, sign_extend, add_top_byte,
  decode_offset, decode_fields, decode_run_entry, run_of, next_lcn, prepend, build_loop, stream_ok,
  stream, build_run_list, size_loop, mapping_pairs_size, encode_run_entry, encode_runs,
}
use ntfs_efi.Runlist.RoundTrip.{entry, decode-encode_run_entry}
use ntfs_efi.Runlist.Stream.{IsRunList, build_loop-encode_runs}
use ntfs_efi.Runlist.Invariants.{
  IsGapless, build_run_list-IsGapless, mapping_pairs_size_bounds, decode_run_entry_bounds,
}

methods : Unit {0}
unfolding read_bytes sign_extend add_top_byte decode_offset decode_fields decode_run_entry run_of
    next_lcn prepend build_loop stream_ok stream build_run_list size_loop mapping_pairs_size
methods = tt

-- 147 clusters at 300 and 20 at 299, and a zero for the end: after 24 bytes of header.
abbrev second_pair : List ℕ
second_pair = 0x11 ∷ 20 ∷ 0xff ∷ 0 ∷ []

abbrev after_header : List ℕ
after_header = 0x93 ∷ 0 ∷ 0x2c ∷ 1 ∷ second_pair

abbrev pairs : List ℕ
pairs = 0x22 ∷ after_header

abbrev sample : NtfsAttrRecord
sample = record {
  is_non_resident = true;
  record_length = 33;
  lowest_vcn = 5;
  mapping_pairs_offset = 24;
  bytes =
      (0 ∷ 0 ∷ 0 ∷ 0 ∷ 0 ∷ 0 ∷ 0 ∷ 0 ∷ 0 ∷ 0 ∷ 0 ∷ 0 ∷ 0 ∷ 0 ∷ 0 ∷ 0 ∷ 0 ∷ 0 ∷ 0 ∷ 0 ∷ 0 ∷ 0 ∷ 0 ∷ 0
        ∷ [])
      ++ pairs;
}

abbrev runs : List NtfsRunEntry
runs = record { vbn = 5; lbn = 300; len = 147 } ∷ record { vbn = 152; lbn = 299; len = 20 } ∷ []

decodes : build_run_list sample 4 ≡ ok runs
unfolding methods
decodes = refl

sizes : mapping_pairs_size sample ≡ some 9
unfolding methods
sizes = refl

first_entry :
    decode_run_entry pairs
    ≡ decoded record { offset = 300; run_length = 147; is_sparse = false; next = second_pair }
unfolding methods
first_entry = refl

decode-encode_run_entry_example :
    decode_run_entry (encode_run_entry 147 (2 ^ 64 - 1) ++ 0 ∷ [])
    ≡ decoded (entry 147 (2 ^ 64 - 1) (0 ∷ []))
decode-encode_run_entry_example =
    decode-encode_run_entry 147 (2 ^ 64 - 1) (0 ∷ []) (omega arith) (omega arith)

runs-IsRunList : IsRunList 5 runs
runs-IsRunList = (refl, omega arith, omega arith, (refl, omega arith, omega arith, tt))

build_loop-encode_runs_example :
    (l : List ℕ) × (encode_runs runs 0 ≡ some l) × (build_loop 2 (l ++ 9 ∷ []) 0 5 ≡ ok runs)
build_loop-encode_runs_example =
    build_loop-encode_runs runs 2 0 5 (9 ∷ []) runs-IsRunList (omega arith) (omega arith)

build_run_list-IsGapless_example : IsGapless (5 % 2 ^ 64) runs × (length runs ≤ 4)
build_run_list-IsGapless_example = build_run_list-IsGapless sample 4 runs decodes

mapping_pairs_size_bounds_example :
    (n : ℕ) × (mapping_pairs_size sample ≡ some n) × ((n ≡ 0) ⊎ ((0 < n) × (24 + n ≤ 33)))
mapping_pairs_size_bounds_example = mapping_pairs_size_bounds sample

decode_run_entry_bounds_example :
    ((decode_run_entry pairs ≡ null)
      × ((8 < 0x22 % 16)
          ⊎ ((8 < 0x22 / 16 % 16) ⊎ (length after_header < 0x22 % 16 + 0x22 / 16 % 16))))
    ⊎ ((e : RunEntry) × (decode_run_entry pairs ≡ decoded e)
        × (e.next ≡ drop (0x22 % 16 + 0x22 / 16 % 16) after_header)
        × (0x22 % 16 + 0x22 / 16 % 16 ≤ length after_header)
        × (0x22 % 16 + 0x22 / 16 % 16 ≤ 16))
decode_run_entry_bounds_example = decode_run_entry_bounds 0x22 after_header
