-- ===== src/Search/Runs.antt =====
-- A needle across three reads.
use ntfs_efi.Prelude.{ℕ, ◌≡◌, ◌↔◌, refl, true, false, List, [], ◌∷◌, arith}
use ntfs_efi.Prelude.Status.{ok, err, device_error}
use ntfs_efi.Search.{
  viewer_upper, same_bytes, find_bytes_loop, find_bytes, carried, outcome, search_loop,
  search_file_contains,
}
use ntfs_efi.Search.Occurs.{Occurs}
use ntfs_efi.Search.Chunks.{content, good_reads, search_file_contains-Occurs}

-- "xxA", "B" and "c"
abbrev pieces : List (List ℕ)
pieces = (120 ∷ 120 ∷ 65 ∷ []) ∷ (66 ∷ []) ∷ (99 ∷ []) ∷ []

abbrev abc : List ℕ
abc = 97 ∷ 98 ∷ 99 ∷ []

finds_across : search_file_contains abc (good_reads pieces) ≡ outcome true false
unfolding viewer_upper same_bytes find_bytes_loop find_bytes carried search_loop
    search_file_contains
finds_across = refl

read_fails : search_file_contains abc (ok (97 ∷ []) ∷ err device_error ∷ []) ≡ outcome false true
unfolding viewer_upper same_bytes find_bytes_loop find_bytes carried search_loop
    search_file_contains
read_fails = refl

search_file_contains-Occurs_example :
    ((search_file_contains abc (good_reads pieces)).found ≡ true) ↔ Occurs abc (content pieces)
search_file_contains-Occurs_example =
    search_file_contains-Occurs abc pieces (omega arith)
      (omega arith, (omega arith, (omega arith, tt)))
