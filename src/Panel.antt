-- ===== src/Panel.antt =====
-- ec/PanelOps.c: selection, wildcard masks and quick search of a panel. A name is the list of its characters
-- in front of the terminator; a panel that has no Files has an empty list of them. StrCmp gives 0 for equal
-- names and for no others.
pub mod Mask
pub mod Compare
pub mod Marks
mod Runs
use ntfs_efi.Prelude.{
  ℕ, zero, suc, ◌+◌, ◌-◌, ◌*◌, min, Bool, true, false, not, ◌&&◌, ◌||◌, Option, none, some, List,
  [], ◌∷◌, length, get_elem?, ltb, leb, ◌==◌, if◌then◌else◌,
}
use ntfs_efi.Prelude.Int.{ℤ, pos, negsuc}
use ntfs_efi.Time.{EfiTime}

pub upcase_char : ℕ → ℕ
upcase_char ch = if leb 97 ch && leb ch 122 then ch - 32 else ch

abbrev pub is_empty : List ℕ → Bool
is_empty [] = true
is_empty (c ∷ l) = false

-- StrCmp (a, b) == 0
pub same_text : List ℕ → List ℕ → Bool
same_text [] [] = true
same_text [] (d ∷ b) = false
same_text (c ∷ a) [] = false
same_text (c ∷ a) (d ∷ b) = c == d && same_text a b

-- The fields of FS_FILE_ITEM that this file reads.
pub record FsFileItem : Type 0 where
  pub name : List ℕ
  pub size : ℕ
  pub is_directory : Bool
  pub modification_time : EfiTime
  pub selected : Bool

pub record Panel : Type 0 where
  pub files : List FsFileItem
  pub selected_index : ℤ

-- PanelOpsSameTime
pub same_time : EfiTime → EfiTime → Bool
same_time a b =
    a.year == b.year
    && (a.month == b.month
        && (a.day == b.day && (a.hour == b.hour && (a.minute == b.minute && a.second == b.second))))

-- PanelOpsFindByName
pub find_by_name : List FsFileItem → List ℕ → Option FsFileItem
find_by_name [] name = none
find_by_name (x ∷ l) name =
    let later = find_by_name l name in if same_text x.name name then some x else later

-- PanelOpsDiffers
pub differs : FsFileItem → Option FsFileItem → Bool
differs a none = true
differs a (some b) =
    if a.is_directory
    then not b.is_directory
    else b.is_directory
      || (not (a.size == b.size) || not (same_time a.modification_time b.modification_time))

-- PanelOpsIsUsableItem
pub is_usable_item : FsFileItem → Bool
is_usable_item x = not (same_text x.name (46 ∷ 46 ∷ []))

pub mark_item : FsFileItem → List FsFileItem → FsFileItem
mark_item x other = record x {
  selected = is_usable_item x && differs x (find_by_name other x.name);
}

abbrev pub count_if : Bool → ℕ → ℕ
count_if true n = n + 1
count_if false n = n

-- PanelOpsMarkAgainst: the items and the number of those marked.
pub mark_against : List FsFileItem → List FsFileItem → List FsFileItem × ℕ
mark_against [] other = ([], 0)
mark_against (x ∷ l) other =
    let rest = mark_against l other in
    let y = mark_item x other in (y ∷ rest.0, count_if y.selected rest.1)

-- PanelOpsCompareSelect, of two panels.
pub compare_select : Panel → Panel → (Panel × Panel) × ℕ
compare_select left right =
    let (marked_left, n) = mark_against left.files right.files in
    let (marked_right, m) = mark_against right.files marked_left in
    ((record left { files = marked_left }, record right { files = marked_right }), n + m)

-- The inner loop of PanelOpsMatchMask over the rests of the name.
pub match_suffixes : (List ℕ → Bool) → List ℕ → Bool
match_suffixes matches [] = matches []
match_suffixes matches (c ∷ name) =
    let later = match_suffixes matches name in if matches (c ∷ name) then true else later

-- The outer loop of PanelOpsMatchMask. A call of PanelOpsMatchMask from it has a mask that is not empty, and
-- runs the loop.
pub match_loop : List ℕ → List ℕ → Bool
match_loop name [] = is_empty name
match_loop name (m ∷ mask) = elim (m == 42) [
  | true ↦ is_empty mask || match_suffixes (λ rest. match_loop rest mask) name
  | false ↦ elim name [
    | [] ↦ false
    | c ∷ rest ↦
        if not (m == 63) && not (upcase_char m == upcase_char c)
        then false
        else match_loop rest mask
  ]
]

-- PanelOpsMatchMask
pub match_mask : List ℕ → List ℕ → Bool
match_mask name mask = if is_empty mask then false else match_loop name mask

-- A pattern at the start of a name, case aside.
pub has_prefix : List ℕ → List ℕ → Bool
has_prefix name [] = true
has_prefix [] (p ∷ prefix) = false
has_prefix (c ∷ name) (p ∷ prefix) = upcase_char c == upcase_char p && has_prefix name prefix

contains_loop : List ℕ → List ℕ → Bool
contains_loop [] pattern = false
contains_loop (c ∷ name) pattern = has_prefix (c ∷ name) pattern || contains_loop name pattern

-- ContainsText
pub contains_text : List ℕ → List ℕ → Bool
contains_text name pattern = if is_empty pattern then false else contains_loop name pattern

-- StartsWithText
pub starts_with_text : List ℕ → List ℕ → Bool
starts_with_text name prefix = if is_empty prefix then false else has_prefix name prefix

-- PanelOpsCountSelected
pub count_selected : List FsFileItem → ℕ
count_selected [] = 0
count_selected (x ∷ l) = count_if (x.selected && is_usable_item x) (count_selected l)

-- PanelOpsClearSelection
pub clear_selection : List FsFileItem → List FsFileItem
clear_selection [] = []
clear_selection (x ∷ l) = record x { selected = false } ∷ clear_selection l

-- PanelOpsInvertSelection
pub invert_selection : List FsFileItem → List FsFileItem × ℕ
invert_selection [] = ([], 0)
invert_selection (x ∷ l) =
    let rest = invert_selection l in
    if is_usable_item x
    then (record x { selected = not x.selected } ∷ rest.0, rest.1 + 1)
    else (x ∷ rest.0, rest.1)

select_loop : List FsFileItem → List ℕ → Bool → List FsFileItem × ℕ
select_loop [] mask select = ([], 0)
select_loop (x ∷ l) mask select =
    let rest = select_loop l mask select in
    if is_usable_item x && match_mask x.name mask
    then (record x { selected = select } ∷ rest.0, rest.1 + 1)
    else (x ∷ rest.0, rest.1)

-- PanelOpsSelectByMask
pub select_by_mask : List FsFileItem → List ℕ → Bool → List FsFileItem × ℕ
select_by_mask files mask select =
    if is_empty mask then (files, 0) else select_loop files mask select

-- n places of the list from begin on: the first whose item is usable and passes the test.
pub find_range : (List ℕ → Bool) → List FsFileItem → ℕ → ℕ → Option ℕ
find_range test files begin zero = none
find_range test files begin (suc n) = elim (get_elem? files begin) [
  | none ↦ none
  | some x ↦
      if is_usable_item x && test x.name then some begin else find_range test files (begin + 1) n
]

pub search_start : ℤ → Bool → ℕ
search_start (pos n) start_after_current = count_if start_after_current n
search_start (negsuc n) start_after_current = 0

-- The two passes of PanelOpsFindNext and PanelOpsFindPrefixNext.
pub find_wrapped : (List ℕ → Bool) → Panel → Bool → Option ℕ
find_wrapped test p start_after_current =
    let start = min (search_start p.selected_index start_after_current) (length p.files) in
    elim (find_range test p.files start (length p.files - start)) [
      | some i ↦ some i
      | none ↦ find_range test p.files 0 start
    ]

pub select_found : Panel → Option ℕ → Bool × Panel
select_found p none = (false, p)
select_found p (some i) = (true, record p { selected_index = pos i })

-- PanelOpsFindNext
pub find_next : Panel → List ℕ → Bool → Bool × Panel
find_next p pattern start_after_current =
    if length p.files == 0 || is_empty pattern
    then (false, p)
    else select_found p (find_wrapped (λ name. contains_text name pattern) p start_after_current)

-- PanelOpsFindPrefixNext
pub find_prefix_next : Panel → List ℕ → Bool → Bool × Panel
find_prefix_next p prefix start_after_current =
    if length p.files == 0 || is_empty prefix
    then (false, p)
    else select_found p (find_wrapped (λ name. starts_with_text name prefix) p start_after_current)
