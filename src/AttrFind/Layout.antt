-- ===== src/AttrFind/Layout.antt =====
-- Attribute records one after another, as the walk of NtfsEfiFindAttrInRecord meets them.
use ntfs_efi.Prelude.{
  ℕ, zero, suc, ◌+◌, ◌*◌, ◌≤◌, ◌≡◌, refl, ap, ap₂, ◌∙◌, Bool, true, false, not, ◌&&◌, ◌||◌, Option,
  none, some, List, [], ◌∷◌, ◌++◌, length, take, drop, arith, ltb, leb, ◌==◌, if◌then◌else◌,
  Bool-cases, Option-cases, inl, inr, length-append, get_or-append_left, ==_iff,
}
use ntfs_efi.Usa.{read16}
use ntfs_efi.Mft.{read32, attribute_offset}
use ntfs_efi.Runlist.{ntfs_attr_min_header}
use ntfs_efi.Attr.{AttrCtx}
use ntfs_efi.AttrFind.{
  read_chars, attr_type, attr_length, attr_name_length, attr_name_offset, attribute_end,
  prepare_attr_ctx, attr_fits, attr_matches, Found, try_attr, find_loop, attr_area,
  find_attr_in_record,
}

-- The bytes of one attribute record: its length is its own, its name is inside, and it is not the end mark.
pub record IsImage (x : List ℕ) : Type 0 where
  pub header : ntfs_attr_min_header ≤ length x
  pub filled : attr_length x ≡ length x
  pub goes_on : (attr_type x == attribute_end) ≡ false
  pub named :
      (attr_name_length x == 0 || leb (attr_name_offset x + attr_name_length x * 2) (attr_length x))
      ≡ true

abbrev pub AreImages : List (List ℕ) → Type 0
AreImages [] = Unit {0}
AreImages (x ∷ xs) = IsImage x × AreImages xs

abbrev pub joined : List (List ℕ) → List ℕ → List ℕ
joined [] tail = tail
joined (x ∷ xs) tail = x ++ joined xs tail

-- No attribute follows: the end mark, or fewer bytes than a header has.
abbrev pub closes : List ℕ → Bool
closes tail = ltb (length tail) ntfs_attr_min_header || attr_type tail == attribute_end

-- The first of the records with the type and the name of which a context can be prepared.
pub first_attr : ℕ → List ℕ → List (List ℕ) → ℕ → Option Found
first_attr type name [] o = none
first_attr type name (x ∷ xs) o =
    elim (if attr_matches type name x then prepare_attr_ctx x else none) [
      | some c ↦ some (record { image = x; ctx = c; offset = o })
      | none ↦ first_attr type name xs (o + length x)
    ]

module _ (x rest : List ℕ) where
  pub read16-append : (o : ℕ) → o + 2 ≤ length x → read16 (x ++ rest) o ≡ read16 x o
  unfolding read16
  read16-append o h =
      ap₂ (λ a b. a + b * 256) (get_or-append_left x rest o 0 (omega arith))
        (get_or-append_left x rest (o + 1) 0 (omega arith))

  pub read32-append : (o : ℕ) → o + 4 ≤ length x → read32 (x ++ rest) o ≡ read32 x o
  unfolding read32
  read32-append o h =
      ap₂ (λ a b. a + b * 65536) (read16-append o (omega arith))
        (read16-append (o + 2) (omega arith))

  pub read_chars-append :
      (n o : ℕ) → o + n * 2 ≤ length x → read_chars n (x ++ rest) o ≡ read_chars n x o
  unfolding read_chars
  read_chars-append zero o h = refl
  read_chars-append (suc n) o h =
      ap₂ (λ a l. a ∷ l) (read16-append o (omega arith)) (read_chars-append n (o + 2) (omega arith))

pub take-append : (x rest : List ℕ) → take (length x) (x ++ rest) ≡ x
take-append [] rest = refl
take-append (a ∷ x) rest = ap (λ l. a ∷ l) (take-append x rest)

pub drop-append : (x rest : List ℕ) → drop (length x) (x ++ rest) ≡ rest
drop-append [] rest = refl
drop-append (a ∷ x) rest = drop-append x rest

module _ (x rest : List ℕ) (w : IsImage x) where
  type_ahead : attr_type (x ++ rest) ≡ attr_type x
  unfolding attr_type
  type_ahead = read32-append x rest 0 (omega (arith, w.header))

  length_ahead : attr_length (x ++ rest) ≡ length x
  unfolding attr_length
  length_ahead = read32-append x rest 4 (omega (arith, w.header)) ∙ w.filled

  name_length_ahead : attr_name_length (x ++ rest) ≡ attr_name_length x
  unfolding attr_name_length
  name_length_ahead = get_or-append_left x rest 9 0 (omega (arith, w.header))

  name_offset_ahead : attr_name_offset (x ++ rest) ≡ attr_name_offset x
  unfolding attr_name_offset
  name_offset_ahead = read16-append x rest 10 (omega (arith, w.header))

  attr_fits_ahead : attr_fits (x ++ rest) ≡ true
  unfolding attr_fits
  attr_fits_ahead =
      let long : leb ntfs_attr_min_header (length x) ≡ true = ground (arith, w.header) in
      let inside : leb (length x) (length (x ++ rest)) ≡ true =
        ground (arith, length-append x rest) in
      rw (length_ahead, name_length_ahead, name_offset_ahead, long, inside)
        (rw w.filled at (w.named))

  name_ahead :
      (name : List ℕ)
      → attr_name_length x ≡ length name
      → read_chars (length name) (x ++ rest) (attr_name_offset x)
        ≡ read_chars (length name) x (attr_name_offset x)
  name_ahead [] e = unfold read_chars in refl
  name_ahead (c ∷ name) e =
      read_chars-append x rest (length (c ∷ name)) (attr_name_offset x)
        (ground (arith, w.named, w.filled))

  pub attr_matches_ahead :
      (type : ℕ) (name : List ℕ) → attr_matches type name (x ++ rest) ≡ attr_matches type name x
  unfolding attr_matches
  attr_matches_ahead type name = elim (Bool-cases (attr_name_length x == length name)) [
    | inl same ↦
        rw (type_ahead, name_length_ahead, name_offset_ahead, name_ahead name ((==_iff _ _).0 same))
          refl
    | inr other ↦ rw (type_ahead, name_length_ahead, other) refl
  ]

  go_on :
      (leb ntfs_attr_min_header (length (x ++ rest))
        && (not (attr_type (x ++ rest) == attribute_end) && attr_fits (x ++ rest)))
      ≡ true
  go_on =
      let long : leb ntfs_attr_min_header (length (x ++ rest)) ≡ true =
        ground (arith, w.header, length-append x rest) in
      rw (long, type_ahead, w.goes_on, attr_fits_ahead) refl

  pub image_ahead : take (attr_length (x ++ rest)) (x ++ rest) ≡ x
  image_ahead = rw length_ahead (take-append x rest)

  rest_ahead : drop (attr_length (x ++ rest)) (x ++ rest) ≡ rest
  rest_ahead = rw length_ahead (drop-append x rest)

  -- The attribute asked for.
  pub try_attr_ahead :
      (type : ℕ) (name : List ℕ) (o : ℕ) (c : AttrCtx)
      → attr_matches type name x ≡ true
      → prepare_attr_ctx x ≡ some c
      → try_attr type name (x ++ rest) o ≡ some (record { image = x; ctx = c; offset = o })
  unfolding try_attr
  try_attr_ahead type name o c same good =
      rw (attr_matches_ahead type name, same, image_ahead, good)
        (ap (λ y. some (record { image = y; ctx = c; offset = o })) image_ahead)

-- The walk from the first of some records that lie one after another.
find_loop-first_attr :
    (fuel type : ℕ) (name : List ℕ) (xs : List (List ℕ)) (tail : List ℕ) (o : ℕ)
    → AreImages xs
    → closes tail ≡ true
    → length (joined xs tail) ≤ fuel
    → find_loop fuel type name (joined xs tail) o ≡ first_attr type name xs o
unfolding find_loop first_attr
find_loop-first_attr zero type name [] tail o w end h = refl
find_loop-first_attr zero type name (x ∷ xs) tail o (w, ws) end h =
    absurd (omega (arith, w.header, length-append x (joined xs tail)))
find_loop-first_attr (suc fuel) type name [] tail o w end h =
    let stop : (leb ntfs_attr_min_header (length tail)
          && (not (attr_type tail == attribute_end) && attr_fits tail))
        ≡ false =
      ground arith in
    rw (find_loop, stop) refl
find_loop-first_attr (suc fuel) type name (x ∷ xs) tail o (w, ws) end h =
    let ih =
      find_loop-first_attr fuel type name xs tail (o + length x) ws end
        (omega (arith, w.header, length-append x (joined xs tail))) in
    elim (Bool-cases (attr_matches type name x)) [
      | inr other ↦
          let skip : try_attr type name (x ++ joined xs tail) o ≡ none =
            unfold try_attr in rw (attr_matches_ahead x (joined xs tail) w type name, other) refl in
          rw
            (
              find_loop,
              go_on x (joined xs tail) w,
              skip,
              rest_ahead x (joined xs tail) w,
              length_ahead x (joined xs tail) w,
              first_attr,
              other,
            )
            ih
      | inl same ↦ elim (Option-cases (prepare_attr_ctx x)) [
        | inl bad ↦
            let skip : try_attr type name (x ++ joined xs tail) o ≡ none =
              unfold try_attr in
              rw
                (
                  attr_matches_ahead x (joined xs tail) w type name,
                  same,
                  image_ahead x (joined xs tail) w,
                  bad,
                )
                refl in
            rw
              (
                find_loop,
                go_on x (joined xs tail) w,
                skip,
                rest_ahead x (joined xs tail) w,
                length_ahead x (joined xs tail) w,
                first_attr,
                same,
                bad,
              )
              ih
        | inr (c, good) ↦
            let hit : try_attr type name (x ++ joined xs tail) o
                ≡ some (record { image = x; ctx = c; offset = o }) =
              try_attr_ahead x (joined xs tail) w type name o c same good in
            rw (find_loop, go_on x (joined xs tail) w, hit, first_attr, same, good) refl
      ]
    ]

-- A record in use whose attributes lie one after another, each as long as it says and with its name inside,
-- up to the end mark or to fewer bytes than a header: NtfsEfiFindAttrInRecord gives the first of them with
-- the type and the name of which a context can be prepared, with its bytes and its offset in the record,
-- and nothing when there is none.
pub find_attr_in_record-first_attr :
    (rec : List ℕ) (type : ℕ) (name : List ℕ) (xs : List (List ℕ)) (tail : List ℕ)
    → attr_area rec ≡ joined xs tail
    → AreImages xs
    → closes tail ≡ true
    → find_attr_in_record rec type name ≡ first_attr type name xs (attribute_offset rec)
unfolding find_attr_in_record
find_attr_in_record-first_attr rec type name xs tail e w end = rw e (
    find_loop-first_attr (length (joined xs tail)) type name xs tail (attribute_offset rec) w end
      (omega arith))
