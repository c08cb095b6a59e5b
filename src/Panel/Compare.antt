-- ===== src/Panel/Compare.antt =====
-- What PanelOpsCompareSelect marks.
use ntfs_efi.Prelude.{
  ℕ, ◌≡◌, ◌↔◌, refl, sym, ap, ◌∙◌, true, false, none, some, List, [], ◌∷◌, arith, Bool-cases, ◌⊎◌,
  Option-cases, inl, inr,
}
use ntfs_efi.Time.{EfiTime}
use ntfs_efi.Panel.{FsFileItem, same_text, same_time, find_by_name, differs}

-- The same instant, to the second.
pub record IsSameTime (a b : EfiTime) : Type 0 where
  pub same_year : a.year ≡ b.year
  pub same_month : a.month ≡ b.month
  pub same_day : a.day ≡ b.day
  pub same_hour : a.hour ≡ b.hour
  pub same_minute : a.minute ≡ b.minute
  pub same_second : a.second ≡ b.second

-- Two items of one name count as the same: two directories, or two files of one size and one time to the second.
pub record IsSame (a b : FsFileItem) : Type 0 where
  pub kind : a.is_directory ≡ b.is_directory
  pub contents :
      (a.is_directory ≡ true)
      ⊎ ((a.size ≡ b.size) × IsSameTime a.modification_time b.modification_time)

abbrev pub Stands : FsFileItem → List FsFileItem → Type 0
Stands b [] = ⊥
Stands b (x ∷ l) = (b ≡ x) ⊎ Stands b l

-- Two items with one name are one.
abbrev pub AreDistinct : List FsFileItem → Type 0
AreDistinct l = (a b : FsFileItem) → Stands a l → Stands b l → a.name ≡ b.name → a ≡ b

-- No item of the other panel has the name and counts as the same.
abbrev pub IsApart : FsFileItem → List FsFileItem → Type 0
IsApart a other = (b : FsFileItem) → Stands b other → b.name ≡ a.name → IsSame a b → ⊥

pub same_text_iff : (a b : List ℕ) → (same_text a b ≡ true) ↔ (a ≡ b)
unfolding same_text
same_text_iff [] [] = (λ h. refl, λ h. refl)
same_text_iff [] (d ∷ b) = (λ h. cc, λ h. cc)
same_text_iff (c ∷ a) [] = (λ h. cc, λ h. cc)
same_text_iff (c ∷ a) (d ∷ b) =
    (λ h. ground (arith, (same_text_iff a b).0), λ h. ground (arith, (same_text_iff a b).1))

same_time_iff : (a b : EfiTime) → (same_time a b ≡ true) ↔ IsSameTime a b
unfolding same_time
same_time_iff a b = (
  λ h. record {
    same_year = ground arith;
    same_month = ground arith;
    same_day = ground arith;
    same_hour = ground arith;
    same_minute = ground arith;
    same_second = ground arith;
  },
  λ w.
      ground
        (arith, w.same_year, w.same_month, w.same_day, w.same_hour, w.same_minute, w.same_second),
)

differs_sound : (a b : FsFileItem) → differs a (some b) ≡ true → IsSame a b → ⊥
unfolding differs
differs_sound a b h w =
    ground (arith, w.kind, w.contents, (same_time_iff a.modification_time b.modification_time).1)

differs_complete : (a b : FsFileItem) → differs a (some b) ≡ false → IsSame a b
unfolding differs
differs_complete a b h = elim (Bool-cases a.is_directory) [
  | inl folder ↦ record { kind = ground arith; contents = inl folder }
  | inr file ↦ record {
    kind = ground arith;
    contents =
        inr
          (ground arith, (same_time_iff a.modification_time b.modification_time).0 (ground arith));
  }
]

find_by_name_sound :
    (l : List FsFileItem) (name : List ℕ) (b : FsFileItem)
    → find_by_name l name ≡ some b
    → Stands b l × (b.name ≡ name)
unfolding find_by_name
find_by_name_sound [] name b h = cc
find_by_name_sound (x ∷ l) name b h = elim (Bool-cases (same_text x.name name)) [
  | inl here ↦
      let e : b ≡ x = cc (rw here at h) in
      (inl e, ap (λ y. y.name) e ∙ (same_text_iff x.name name).0 here)
  | inr away ↦ let (s, e) = find_by_name_sound l name b (rw away at h) in (inr s, e)
]

find_by_name_complete :
    (l : List FsFileItem) (name : List ℕ) (b : FsFileItem)
    → find_by_name l name ≡ none
    → Stands b l
    → b.name ≡ name
    → ⊥
unfolding find_by_name
find_by_name_complete [] name b h s e = elim s [ ]
find_by_name_complete (x ∷ l) name b h s e = elim (Bool-cases (same_text x.name name)) [
  | inl here ↦ cc (rw here at h)
  | inr away ↦ elim s [
    | inl same ↦ cc (away, (same_text_iff x.name name).1 (sym (ap (λ y. y.name) same) ∙ e))
    | inr below ↦ find_by_name_complete l name b (rw away at h) below e
  ]
]

module _ (a : FsFileItem) (other : List FsFileItem) where
  pub IsApart-sound :
      AreDistinct other → differs a (find_by_name other a.name) ≡ true → IsApart a other
  IsApart-sound u h b s e w = elim (Option-cases (find_by_name other a.name)) [
    | inl missing ↦ find_by_name_complete other a.name b missing s e
    | inr (c, found) ↦
        let (t, n) = find_by_name_sound other a.name c found in
        let same : c ≡ b = u c b t s (n ∙ sym e) in differs_sound a b (rw (found, same) at h) w
  ]

  pub IsApart-complete : IsApart a other → differs a (find_by_name other a.name) ≡ true
  IsApart-complete w = elim (Option-cases (find_by_name other a.name)) [
    | inl missing ↦ rw missing (unfold differs in refl)
    | inr (c, found) ↦
        let (t, n) = find_by_name_sound other a.name c found in
        elim (Bool-cases (differs a (some c))) [
          | inl yes_differs ↦ rw found yes_differs
          | inr alike ↦ absurd (w c t n (differs_complete a c alike))
        ]
  ]
