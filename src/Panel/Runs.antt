-- ===== src/Panel/Runs.antt =====
-- Masks and two small panels.
use ntfs_efi.Prelude.{ℕ, ◌+◌, ◌≡◌, ◌≢◌, ◌↔◌, refl, true, false, List, [], ◌∷◌, arith}
use ntfs_efi.Prelude.Int.{pos, negsuc}
use ntfs_efi.Time.{zero_time}
use ntfs_efi.Panel.{
  FsFileItem, Panel, upcase_char, same_text, same_time, find_by_name, differs, is_usable_item,
  mark_item, mark_against, compare_select, match_suffixes, match_loop, match_mask, has_prefix,
  contains_loop, contains_text, count_selected, find_range, search_start, find_wrapped,
  select_found, find_next, select_loop, select_by_mask,
}
use ntfs_efi.Panel.Mask.{Matches, match_mask-Matches}
use ntfs_efi.Panel.Compare.{AreDistinct}
use ntfs_efi.Panel.Marks.{AreMarked, compare_select-AreMarked}

abbrev file_item : List ℕ → ℕ → FsFileItem
file_item name size = record {
  name = name;
  size = size;
  is_directory = false;
  modification_time = zero_time;
  selected = true;
}

-- "..", "Ab.c" of 5 bytes and "x"
abbrev left : Panel
left = record {
  files =
      file_item (46 ∷ 46 ∷ []) 0
      ∷ file_item (65 ∷ 98 ∷ 46 ∷ 99 ∷ []) 5
      ∷ file_item (120 ∷ []) 1
      ∷ [];
  selected_index = pos 1;
}

-- "Ab.c" of 7 bytes and "x"
abbrev right : Panel
right = record {
  files = file_item (65 ∷ 98 ∷ 46 ∷ 99 ∷ []) 7 ∷ file_item (120 ∷ []) 1 ∷ [];
  selected_index = negsuc 0;
}

methods : Unit {0}
unfolding upcase_char same_text same_time find_by_name differs is_usable_item mark_item mark_against
    compare_select match_suffixes match_loop match_mask has_prefix contains_loop contains_text
    count_selected find_range search_start find_wrapped select_found find_next select_loop
    select_by_mask
methods = tt

-- "*.?" and "a**C", case aside
matches_star : match_mask (65 ∷ 98 ∷ 46 ∷ 99 ∷ []) (42 ∷ 46 ∷ 63 ∷ []) ≡ true
unfolding methods
matches_star = refl

matches_stars : match_mask (65 ∷ 98 ∷ 46 ∷ 99 ∷ []) (97 ∷ 42 ∷ 42 ∷ 67 ∷ []) ≡ true
unfolding methods
matches_stars = refl

-- The search wraps to an file_item in front of the current one.
wraps : find_next (record left { selected_index = pos 2 }) (66 ∷ []) true ≡ (true, left)
unfolding methods
wraps = refl

selects : (select_by_mask left.files (42 ∷ []) false).1 ≡ 2
unfolding methods
selects = refl

left-AreDistinct : AreDistinct left.files
left-AreDistinct a b p q e = ground (arith, p, q, e)

right-AreDistinct : AreDistinct right.files
right-AreDistinct a b p q e = ground (arith, p, q, e)

match_mask-Matches_example : (match_mask (65 ∷ 98 ∷ 46 ∷ 99 ∷ []) (42 ∷ 46 ∷ 63 ∷ []) ≡ true) ↔ (
    (◌≢◌ {A = List ℕ} (42 ∷ 46 ∷ 63 ∷ []) [])
    × Matches (42 ∷ 46 ∷ 63 ∷ []) (65 ∷ 98 ∷ 46 ∷ 99 ∷ []))
match_mask-Matches_example = match_mask-Matches (65 ∷ 98 ∷ 46 ∷ 99 ∷ []) (42 ∷ 46 ∷ 63 ∷ [])

compare_select-AreMarked_example :
    AreMarked right.files left.files (compare_select left right).0.0.files
    × AreMarked left.files right.files (compare_select left right).0.1.files
    × ((compare_select left right).0.0.selected_index ≡ left.selected_index)
    × ((compare_select left right).0.1.selected_index ≡ right.selected_index)
    × ((compare_select left right).1
        ≡ count_selected (compare_select left right).0.0.files
          + count_selected (compare_select left right).0.1.files)
compare_select-AreMarked_example =
    compare_select-AreMarked left right left-AreDistinct right-AreDistinct
