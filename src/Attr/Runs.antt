-- ===== src/Attr/Runs.antt =====
-- A fragmented attribute on a medium of bytes, read and written.
use ntfs_efi.Prelude.{ℕ, ◌≡◌, refl, true, List, [], ◌∷◌, arith, inl, inr}
use ntfs_efi.Runlist.{sparse_lbn}
use ntfs_efi.Attr.{AttrCtx, read_attr, write_attr}
use ntfs_efi.Attr.Memory.{memory, memory-DiskLaws}
use ntfs_efi.Attr.Locate.{IsCached}
use ntfs_efi.Attr.Content.{IsReadable}
use ntfs_efi.Attr.Read.{ReadDone, read_attr-ReadDone}
use ntfs_efi.Attr.Write.{IsWindow, Written}
use ntfs_efi.Attr.RoundTrip.{write_attr-Written, read_attr-write_attr}

-- Clusters of 4 bytes: two at 10, a hole of one, one at 5.
abbrev sample : AttrCtx
sample = record {
  is_non_resident = true;
  value = [];
  runs =
      record { vbn = 0; lbn = 10; len = 2 }
      ∷ record { vbn = 2; lbn = sparse_lbn; len = 1 }
      ∷ record { vbn = 3; lbn = 5; len = 1 }
      ∷ [];
  cache_idx = 2;
  cache_offset = 12;
}

abbrev sample_disk : ℕ → ℕ
sample_disk k = k

sample-IsReadable : IsReadable 4 100 sample.runs
sample-IsReadable = record {
  on_disk = (inr (omega arith), (inl refl, (inr (omega arith), tt)));
  small = omega arith;
  medium = omega arith;
}

sample-IsCached : IsCached 4 sample
sample-IsCached h = refl

read_attr-ReadDone_example :
    ReadDone
      (memory-DiskLaws 100)
      4
      sample_disk
      sample.runs
      sample-IsReadable
      6
      9
      (read_attr memory 4 sample_disk sample 6 9)
read_attr-ReadDone_example =
    read_attr-ReadDone (memory-DiskLaws 100) 4 sample_disk sample 6 9 sample-IsReadable refl
      (omega arith) sample-IsCached

-- One cluster at 10 and one at 5; four bytes across the border.
abbrev split : AttrCtx
split = record {
  is_non_resident = true;
  value = [];
  runs = record { vbn = 0; lbn = 10; len = 1 } ∷ record { vbn = 1; lbn = 5; len = 1 } ∷ [];
  cache_idx = 2;
  cache_offset = 0;
}

split-IsReadable : IsReadable 4 100 split.runs
split-IsReadable = record {
  on_disk = (inr (omega arith), (inr (omega arith), tt));
  small = omega arith;
  medium = omega arith;
}

split-IsCached : IsCached 4 split
split-IsCached h = absurd (omega arith)

abbrev new_bytes : List ℕ
new_bytes = 201 ∷ 202 ∷ 203 ∷ 204 ∷ []

split-IsWindow : IsWindow (memory-DiskLaws 100) 4 split.runs 2 4
split-IsWindow = record {
  mapped = λ o lo hi e. ground arith;
  apart = λ o o' a lo hi lo' hi' p q. ground arith;
}

write_attr-Written_example :
    (e : ℕ → ℕ) × (write_attr memory 4 sample_disk split 2 new_bytes ≡ (4, e))
    × Written (memory-DiskLaws 100) 4 split.runs sample_disk e 2 new_bytes
write_attr-Written_example =
    write_attr-Written (memory-DiskLaws 100) 4 sample_disk split 2 new_bytes split-IsReadable refl
      (omega arith) split-IsWindow

read_attr-write_attr_example :
    (read_attr memory 4 (write_attr memory 4 sample_disk split 2 new_bytes).1 split 2 4).0
    ≡ new_bytes
read_attr-write_attr_example =
    read_attr-write_attr (memory-DiskLaws 100) 4 sample_disk split 2 new_bytes split-IsReadable refl
      (omega arith) split-IsWindow split-IsCached
