-- ===== src/Index/Sorted.antt =====
-- The first name of a sorted list that a search asks for.
use Prim.Native.Nat.{Ordering}
use ntfs_efi.Prelude.{
  ℕ, ◌≡◌, refl, ap, ◌∙◌, Bool, true, false, Option, none, some, List, [], ◌∷◌, ◌++◌, arith, ◌⊎◌,
  inl, inr,
}
use ntfs_efi.Index.{compare_names, is_real}
use ntfs_efi.Index.Order.{opposite, compare_names_flip, compare_names_trans, compare_names_same}
use ntfs_efi.Index.Tree.{Key}

module _ (cs : Bool) (upcase : List ℕ) where
  -- The entry that answers a search: a user file whose name compares as equal.
  abbrev pub find_key : List ℕ → List Key → Option ℕ
  find_key name [] = none
  find_key name (k ∷ l) =
      let later = find_key name l in
      elim (compare_names cs upcase name k.name) [
        | Ordering.lt ↦ later
        | Ordering.eq ↦ elim (is_real k.mft) [ true ↦ some k.mft | false ↦ later ]
        | Ordering.gt ↦ later
      ]

  abbrev pub AllAfter : Key → List Key → Type 0
  AllAfter k [] = Unit {0}
  AllAfter k (x ∷ l) = (compare_names cs upcase k.name x.name ≡ Ordering.lt) × AllAfter k l

  abbrev pub IsSorted : List Key → Type 0
  IsSorted [] = Unit {0}
  IsSorted (k ∷ l) = AllAfter k l × IsSorted l

  abbrev pub AllBefore : List Key → Key → Type 0
  AllBefore [] k = Unit {0}
  AllBefore (x ∷ l) k = (compare_names cs upcase x.name k.name ≡ Ordering.lt) × AllBefore l k

  AllAfter-left : (k : Key) (l m : List Key) → AllAfter k (l ++ m) → AllAfter k l
  AllAfter-left k [] m h = tt
  AllAfter-left k (x ∷ l) m (h, hs) = (h, AllAfter-left k l m hs)

  AllAfter-head :
      (k x : Key) (l m : List Key)
      → AllAfter k (l ++ x ∷ m)
      → compare_names cs upcase k.name x.name ≡ Ordering.lt
  AllAfter-head k x [] m h = h.0
  AllAfter-head k x (y ∷ l) m h = AllAfter-head k x l m h.1

  pub IsSorted-left : (l m : List Key) → IsSorted (l ++ m) → IsSorted l
  IsSorted-left [] m h = tt
  IsSorted-left (x ∷ l) m (h, hs) = (AllAfter-left x l m h, IsSorted-left l m hs)

  pub IsSorted-right : (l m : List Key) → IsSorted (l ++ m) → IsSorted m
  IsSorted-right [] m h = h
  IsSorted-right (x ∷ l) m h = IsSorted-right l m h.1

  pub IsSorted-AllBefore :
      (l : List Key) (k : Key) (m : List Key) → IsSorted (l ++ k ∷ m) → AllBefore l k
  IsSorted-AllBefore [] k m h = tt
  IsSorted-AllBefore (x ∷ l) k m (h, hs) = (AllAfter-head x k l m h, IsSorted-AllBefore l k m hs)

  -- A search passes a part of the list that does not answer it.
  pub find_key-append_right :
      (name : List ℕ) (l m : List Key)
      → find_key name l ≡ none
      → find_key name (l ++ m) ≡ find_key name m
  find_key-append_right name [] m h = refl
  find_key-append_right name (k ∷ l) m h = ground (arith, h, find_key-append_right name l m)

  pub find_key-append_left :
      (name : List ℕ) (l m : List Key)
      → find_key name m ≡ none
      → find_key name (l ++ m) ≡ find_key name l
  find_key-append_left name [] m h = h
  find_key-append_left name (k ∷ l) m h = ground (arith, find_key-append_left name l m h)

  -- Nothing behind a name that is greater.
  pub find_key-AllAfter :
      (name : List ℕ) (k : Key) (l : List Key)
      → compare_names cs upcase name k.name ≡ Ordering.lt
      → AllAfter k l
      → find_key name l ≡ none
  find_key-AllAfter name k [] p h = refl
  find_key-AllAfter name k (x ∷ l) p (h, hs) =
      rw (find_key, compare_names_trans cs upcase name k.name x.name p h)
        (find_key-AllAfter name k l p hs)

  -- Nothing in front of a name that is not greater.
  greater :
      (name : List ℕ) (k x : Key)
      → (compare_names cs upcase name k.name ≡ Ordering.gt)
        ⊎ (compare_names cs upcase name k.name ≡ Ordering.eq)
      → compare_names cs upcase x.name k.name ≡ Ordering.lt
      → compare_names cs upcase name x.name ≡ Ordering.gt
  greater name k x (inl p) h =
      let q : compare_names cs upcase k.name name ≡ Ordering.lt =
        compare_names_flip cs upcase k.name name ∙ ap opposite p in
      compare_names_flip cs upcase name x.name
      ∙ ap opposite (compare_names_trans cs upcase x.name k.name name h q)
  greater name k x (inr p) h =
      compare_names_same cs upcase name k.name x.name p
      ∙ compare_names_flip cs upcase k.name x.name
      ∙ ap opposite h

  pub find_key-AllBefore :
      (name : List ℕ) (k : Key) (l : List Key)
      → (compare_names cs upcase name k.name ≡ Ordering.gt)
        ⊎ (compare_names cs upcase name k.name ≡ Ordering.eq)
      → AllBefore l k
      → find_key name l ≡ none
  find_key-AllBefore name k [] p h = refl
  find_key-AllBefore name k (x ∷ l) p (h, hs) =
      rw (find_key, greater name k x p h) (find_key-AllBefore name k l p hs)
