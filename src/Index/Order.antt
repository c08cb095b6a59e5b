-- ===== src/Index/Order.antt =====
-- The order of NtfsEfiCompareNames.
use Prim.Native.Nat.{Ordering}
use ntfs_efi.Prelude.{ℕ, ◌≡◌, refl, Bool, List, [], ◌∷◌, arith}
use ntfs_efi.Index.{compare_names}

abbrev pub opposite : Ordering → Ordering
opposite Ordering.lt = Ordering.gt
opposite Ordering.eq = Ordering.eq
opposite Ordering.gt = Ordering.lt

module _ (cs : Bool) (upcase : List ℕ) where
  abbrev cmp : List ℕ → List ℕ → Ordering
  cmp = compare_names cs upcase

  pub compare_names_flip : (l m : List ℕ) → cmp l m ≡ opposite (cmp m l)
  unfolding compare_names
  compare_names_flip [] [] = refl
  compare_names_flip [] (b ∷ m) = refl
  compare_names_flip (a ∷ l) [] = refl
  compare_names_flip (a ∷ l) (b ∷ m) = ground (arith, compare_names_flip l m)

  pub compare_names_trans :
      (l m n : List ℕ) → cmp l m ≡ Ordering.lt → cmp m n ≡ Ordering.lt → cmp l n ≡ Ordering.lt
  unfolding compare_names
  compare_names_trans [] [] n p q = cc
  compare_names_trans [] (b ∷ m) [] p q = cc
  compare_names_trans [] (b ∷ m) (c ∷ n) p q = refl
  compare_names_trans (a ∷ l) [] n p q = cc
  compare_names_trans (a ∷ l) (b ∷ m) [] p q = cc
  compare_names_trans (a ∷ l) (b ∷ m) (c ∷ n) p q = ground (arith, compare_names_trans l m n)

  -- Names that compare as equal compare alike with any other.
  pub compare_names_same : (l m n : List ℕ) → cmp l m ≡ Ordering.eq → cmp l n ≡ cmp m n
  unfolding compare_names
  compare_names_same [] [] n p = refl
  compare_names_same [] (b ∷ m) n p = cc
  compare_names_same (a ∷ l) [] n p = cc
  compare_names_same (a ∷ l) (b ∷ m) [] p = refl
  compare_names_same (a ∷ l) (b ∷ m) (c ∷ n) p = ground (arith, compare_names_same l m n)
