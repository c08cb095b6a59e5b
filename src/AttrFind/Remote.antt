-- ===== src/AttrFind/Remote.antt =====
-- The items of an $ATTRIBUTE_LIST one after another, as NtfsEfiFindAttribute follows them.
use ntfs_efi.Prelude.{
  ℕ, zero, suc, ◌+◌, ◌*◌, ◌%◌, ◌^◌, ◌≤◌, ◌≡◌, refl, sym, ap, ap₂, ◌∙◌, Bool, true, false, not, ◌&&◌,
  ◌||◌, Option, none, some, List, [], ◌∷◌, ◌++◌, length, get_or, arith, ltb, leb, ◌==◌, Bool-cases,
  Option-cases, inl, inr, length-append, get_or-append_left, ==_iff,
}
use ntfs_efi.Disk.{DiskIo}
use ntfs_efi.Mft.{read32, read64}
use ntfs_efi.Attr.{read_attr}
use ntfs_efi.AttrFind.{
  attribute_end, attribute_attribute_list, Found, find_attr_in_record, attr_data_length,
  list_item_size, item_length, item_matches, item_mft_index, find_remote, list_loop, follow_list,
  find_attribute,
}
use ntfs_efi.AttrFind.Layout.{joined, read16-append, read32-append, read_chars-append, drop-append}

-- The bytes of one item: its length is its own, its name is inside, and it is not the end mark.
pub record IsItem (x : List ℕ) : Type 0 where
  pub header : list_item_size ≤ length x
  pub filled : item_length x ≡ length x
  pub goes_on : (read32 x 0 == attribute_end) ≡ false
  pub named : get_or x 7 0 + get_or x 6 0 * 2 ≤ length x

abbrev pub AreItems : List (List ℕ) → Type 0
AreItems [] = Unit {0}
AreItems (x ∷ xs) = IsItem x × AreItems xs

abbrev pub list_closes : List ℕ → Bool
list_closes tail = ltb (length tail) list_item_size || read32 tail 0 == attribute_end

-- The attribute in the first of the records named by matching items that has it.
pub first_remote : (ℕ → Option (List ℕ)) → ℕ → List ℕ → List (List ℕ) → Option Found
first_remote read_record type name [] = none
first_remote read_record type name (x ∷ xs) = elim (find_remote read_record type name x) [
  | some f ↦ some f
  | none ↦ first_remote read_record type name xs
]

module _ (x rest : List ℕ) (w : IsItem x) where
  item_length_ahead : item_length (x ++ rest) ≡ length x
  unfolding item_length
  item_length_ahead = read16-append x rest 4 (omega (arith, w.header)) ∙ w.filled

  item_type_ahead : read32 (x ++ rest) 0 ≡ read32 x 0
  item_type_ahead = read32-append x rest 0 (omega (arith, w.header))

  item_name_length : get_or (x ++ rest) 6 0 ≡ get_or x 6 0
  item_name_length = get_or-append_left x rest 6 0 (omega (arith, w.header))

  item_name_offset : get_or (x ++ rest) 7 0 ≡ get_or x 7 0
  item_name_offset = get_or-append_left x rest 7 0 (omega (arith, w.header))

  item_mft_index_ahead : item_mft_index (x ++ rest) ≡ item_mft_index x
  unfolding item_mft_index read64
  item_mft_index_ahead =
      ap₂ (λ a b. (a + b * 2 ^ 32) % 2 ^ 48) (read32-append x rest 16 (omega (arith, w.header)))
        (read32-append x rest 20 (omega (arith, w.header)))

  item_matches_ahead :
      (type : ℕ) (name : List ℕ) → item_matches type name (x ++ rest) ≡ item_matches type name x
  unfolding item_matches
  item_matches_ahead type name = elim (Bool-cases (get_or x 6 0 == length name)) [
    | inr other ↦ rw (item_type_ahead, item_name_length, other) refl
    | inl same ↦
        let e = (==_iff _ _).0 same in
        let inside : leb (get_or x 7 0 + length name * 2) (length x) ≡ true =
          ground (arith, w.named, e) in
        let ahead : leb (get_or x 7 0 + length name * 2) (length (x ++ rest)) ≡ true =
          ground (arith, w.named, e, length-append x rest) in
        let chars =
          read_chars-append x rest (length name) (get_or x 7 0) (omega (arith, w.named, e)) in
        rw (item_type_ahead, item_name_length, item_name_offset, inside, ahead, chars) refl
  ]

  find_remote_ahead :
      (read_record : ℕ → Option (List ℕ)) (type : ℕ) (name : List ℕ)
      → find_remote read_record type name (x ++ rest) ≡ find_remote read_record type name x
  unfolding find_remote
  find_remote_ahead read_record type name =
      rw (item_matches_ahead type name, item_mft_index_ahead) refl

  list_goes_on :
      (leb list_item_size (length (x ++ rest))
        && (not (read32 (x ++ rest) 0 == attribute_end)
            && (leb list_item_size (item_length (x ++ rest))
                && leb (item_length (x ++ rest)) (length (x ++ rest)))))
      ≡ true
  list_goes_on =
      let long : leb list_item_size (length (x ++ rest)) ≡ true =
        ground (arith, w.header, length-append x rest) in
      let own : leb list_item_size (length x) ≡ true = ground (arith, w.header) in
      let inside : leb (length x) (length (x ++ rest)) ≡ true =
        ground (arith, length-append x rest) in
      rw (long, item_type_ahead, w.goes_on, item_length_ahead, own, inside) refl

list_loop-first_remote :
    (fuel : ℕ) (read_record : ℕ → Option (List ℕ)) (type : ℕ) (name : List ℕ) (xs : List (List ℕ))
    (tail : List ℕ)
    → AreItems xs
    → list_closes tail ≡ true
    → length (joined xs tail) ≤ fuel
    → list_loop fuel read_record type name (joined xs tail) ≡ first_remote read_record type name xs
unfolding list_loop first_remote
list_loop-first_remote zero read_record type name [] tail w end h = refl
list_loop-first_remote zero read_record type name (x ∷ xs) tail (w, ws) end h =
    absurd (omega (arith, w.header, length-append x (joined xs tail)))
list_loop-first_remote (suc fuel) read_record type name [] tail w end h =
    let stop : (leb list_item_size (length tail)
          && (not (read32 tail 0 == attribute_end)
              && (leb list_item_size (item_length tail) && leb (item_length tail) (length tail))))
        ≡ false =
      ground arith in
    rw (list_loop, stop) refl
list_loop-first_remote (suc fuel) read_record type name (x ∷ xs) tail (w, ws) end h =
    let ih =
      list_loop-first_remote fuel read_record type name xs tail ws end
        (omega (arith, w.header, length-append x (joined xs tail))) in
    let go = list_goes_on x (joined xs tail) w in
    let here = find_remote_ahead x (joined xs tail) w read_record type name in
    elim (Option-cases (find_remote read_record type name x)) [
      | inr (f, hit) ↦ rw (list_loop, go, here, first_remote, hit) refl
      | inl miss ↦
          rw
            (
              list_loop,
              go,
              here,
              first_remote,
              miss,
              item_length_ahead x (joined xs tail) w,
              drop-append x (joined xs tail),
            )
            ih
    ]

module _ (io : DiskIo) (bpc : ℕ) (d : io.Disk) (read_record : ℕ → Option (List ℕ)) (rec : List ℕ)
    (type : ℕ) (name : List ℕ) where
  -- An attribute that is not in the base record, whose list has 32 bytes to 1 MiB and can be read in full, with
  -- items one after another, each as long as it says and with its name inside, up to the end mark or to fewer
  -- bytes than an item: NtfsEfiFindAttribute gives the attribute as NtfsEfiFindAttrInRecord finds it in the
  -- first record that an item of the type and the name refers to, can be read, and has it; or nothing.
  pub find_attribute-first_remote :
      (list : Found) (xs : List (List ℕ)) (tail : List ℕ)
      → find_attr_in_record rec type name ≡ none
      → find_attr_in_record rec attribute_attribute_list [] ≡ some list
      → (read_attr io bpc d list.ctx 0 (attr_data_length list.image)).0 ≡ joined xs tail
      → length (joined xs tail) ≡ attr_data_length list.image
      → list_item_size ≤ attr_data_length list.image
      → attr_data_length list.image ≤ 1024 * 1024
      → AreItems xs
      → list_closes tail ≡ true
      → find_attribute io bpc d read_record rec type name ≡ first_remote read_record type name xs
  unfolding find_attribute follow_list
  find_attribute-first_remote list xs tail away found items n low high w end =
      let long : leb list_item_size (attr_data_length list.image) ≡ true = ground arith in
      let short : leb (attr_data_length list.image) (1024 * 1024) ≡ true = ground arith in
      let full : (length (joined xs tail) == attr_data_length list.image) ≡ true =
        (==_iff _ _).1 n in
      rw (find_attribute, away, found, follow_list, items, long, short, full)
        (ap (λ k. list_loop k read_record type name (joined xs tail)) (sym n)
          ∙ list_loop-first_remote (length (joined xs tail)) read_record type name xs tail w end
              (omega arith))
