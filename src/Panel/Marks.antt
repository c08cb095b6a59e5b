-- ===== src/Panel/Marks.antt =====
-- The items of both panels after PanelOpsCompareSelect.
use ntfs_efi.Prelude.{
  ℕ, ◌+◌, ◌≡◌, ◌≢◌, ◌↔◌, refl, sym, ap, ap₂, Bool, true, false, ◌&&◌, some, List, [], ◌∷◌, arith,
  Bool-cases, inl, inr,
}
use ntfs_efi.Panel.{
  FsFileItem, Panel, same_text, find_by_name, differs, is_usable_item, count_selected, mark_item,
  count_if, mark_against, compare_select,
}
use ntfs_efi.Panel.Compare.{AreDistinct, IsApart, same_text_iff, IsApart-sound, IsApart-complete}

-- The item with its mark: it is not the parent entry, and nothing on the other side is the same.
pub record IsMarked (other : List FsFileItem) (x y : FsFileItem) : Type 0 where
  pub kept : y ≡ record x { selected = y.selected }
  pub chosen : (y.selected ≡ true) ↔ ((x.name ≢ 46 ∷ 46 ∷ []) × IsApart x other)

abbrev pub AreMarked : List FsFileItem → List FsFileItem → List FsFileItem → Type 0
AreMarked other [] [] = Unit {0}
AreMarked other [] (y ∷ m) = ⊥
AreMarked other (x ∷ l) [] = ⊥
AreMarked other (x ∷ l) (y ∷ m) = IsMarked other x y × AreMarked other l m

is_usable_iff : (x : FsFileItem) → (is_usable_item x ≡ true) ↔ (x.name ≢ 46 ∷ 46 ∷ [])
unfolding is_usable_item
is_usable_iff x = (
  λ h. λ e. cc (h, (same_text_iff x.name (46 ∷ 46 ∷ [])).1 e),
  λ n. elim (Bool-cases (same_text x.name (46 ∷ 46 ∷ []))) [
    | inl same ↦ absurd (n ((same_text_iff x.name (46 ∷ 46 ∷ [])).0 same))
    | inr apart ↦ rw apart refl
  ],
)

both : (a b : Bool) → (a && b) ≡ true → (a ≡ true) × (b ≡ true)
both true b h = (refl, h)
both false b h = cc

module _ (other : List FsFileItem) (u : AreDistinct other) where
  mark_item-IsMarked : (x : FsFileItem) → IsMarked other x (mark_item x other)
  unfolding mark_item
  mark_item-IsMarked x = record {
    kept = refl;
    chosen = (
      λ h.
          let (p, q) = both (is_usable_item x) (differs x (find_by_name other x.name)) h in
          ((is_usable_iff x).0 p, IsApart-sound x other u q),
      λ (n, w). rw ((is_usable_iff x).1 n) (IsApart-complete x other w),
    );
  }

  mark_against-AreMarked : (l : List FsFileItem) → AreMarked other l (mark_against l other).0
  unfolding mark_against
  mark_against-AreMarked [] = tt
  mark_against-AreMarked (x ∷ l) = (mark_item-IsMarked x, mark_against-AreMarked l)

mark_item_usable :
    (x : FsFileItem) (other : List FsFileItem)
    → ((mark_item x other).selected && is_usable_item (mark_item x other))
      ≡ (mark_item x other).selected
unfolding mark_item is_usable_item
mark_item_usable x other = ground arith

count_selected-mark_against :
    (l other : List FsFileItem) → count_selected (mark_against l other).0 ≡ (mark_against l other).1
unfolding count_selected mark_against
count_selected-mark_against [] other = refl
count_selected-mark_against (x ∷ l) other =
    rw (mark_item_usable x other)
      (ap (count_if (mark_item x other).selected) (count_selected-mark_against l other))

-- The marks of one panel say nothing of the other.
differs_mark :
    (a x : FsFileItem) (other : List FsFileItem)
    → differs a (some (mark_item x other)) ≡ differs a (some x)
unfolding differs mark_item
differs_mark a x other = refl

differs-mark_against :
    (a : FsFileItem) (l other : List FsFileItem) (name : List ℕ)
    → differs a (find_by_name (mark_against l other).0 name) ≡ differs a (find_by_name l name)
unfolding find_by_name mark_against mark_item
differs-mark_against a [] other name = refl
differs-mark_against a (x ∷ l) other name = elim (Bool-cases (same_text x.name name)) [
  | inl here ↦ rw here (differs_mark a x other)
  | inr away ↦ rw away (differs-mark_against a l other name)
]

mark_again :
    (l m other : List FsFileItem) → mark_against m (mark_against l other).0 ≡ mark_against m l
unfolding mark_against mark_item
mark_again l [] other = refl
mark_again l (y ∷ m) other = rw (differs-mark_against y l other y.name, mark_again l m other) refl

-- For two panels in which no name stands twice, PanelOpsCompareSelect changes nothing but the marks; an item
-- is marked exactly if it is not the parent entry and the other panel has no item of its name that is the
-- same: both directories, or two files of one size and one time to the second. The result is the number
-- of the items that PanelOpsCountSelected then finds in the two panels.
pub compare_select-AreMarked :
    (left right : Panel)
    → AreDistinct left.files
    → AreDistinct right.files
    → AreMarked right.files left.files (compare_select left right).0.0.files
      × AreMarked left.files right.files (compare_select left right).0.1.files
      × ((compare_select left right).0.0.selected_index ≡ left.selected_index)
      × ((compare_select left right).0.1.selected_index ≡ right.selected_index)
      × ((compare_select left right).1
          ≡ count_selected (compare_select left right).0.0.files
            + count_selected (compare_select left right).0.1.files)
unfolding compare_select
compare_select-AreMarked left right u v = (
  mark_against-AreMarked right.files v left.files,
  rw (mark_again left.files right.files right.files)
      (mark_against-AreMarked left.files u right.files),
  refl,
  refl,
  ap₂ ◌+◌ (sym (count_selected-mark_against left.files right.files))
      (sym (count_selected-mark_against right.files _)),
)
