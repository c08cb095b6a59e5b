-- ===== src/AttrFind/Sound.antt =====
-- What NtfsEfiFindAttrInRecord can give, of any bytes.
use ntfs_efi.Prelude.{
  ℕ, zero, suc, ◌+◌, ◌≤◌, ◌≡◌, refl, sym, ap, ◌∙◌, true, false, not, ◌&&◌, none, some, List, ◌++◌,
  length, take, drop, arith, leb, ◌==◌, Bool-cases, Option-cases, dec_lt, inl, inr, length-append,
  get_or-append_left, take-append-drop, drop-drop, length-take, length-drop,
}
use ntfs_efi.Mft.{attribute_offset, bytes_in_use}
use ntfs_efi.Runlist.{ntfs_attr_min_header}
use ntfs_efi.Attr.{AttrCtx}
use ntfs_efi.AttrFind.{
  attr_type, attr_length, is_non_resident, attr_name_length, attr_name_offset, value_length,
  value_offset, attribute_end, resident_ctx, prepare_attr_ctx, attr_fits, attr_matches, Found,
  try_attr, find_loop, attr_area, find_attr_in_record,
}
use ntfs_efi.AttrFind.Layout.{
  IsImage, read16-append, read32-append, attr_matches_ahead, try_attr_ahead, image_ahead,
  take-append,
}

-- An attribute record of the bytes in use, and a context made of it.
pub record IsFound (first type : ℕ) (name : List ℕ) (used : List ℕ) (f : Found) : Type 0 where
  pub after : first ≤ f.offset
  pub whole : IsImage f.image
  pub matched : attr_matches type name f.image ≡ true
  pub ready : prepare_attr_ctx f.image ≡ some f.ctx
  pub copied : f.image ≡ take (length f.image) (drop f.offset used)
  pub inside : f.offset + length f.image ≤ length used

-- The bytes that a checked attribute record says it has.
front_IsImage :
    (x rest : List ℕ)
    → attr_length (x ++ rest) ≡ length x
    → (attr_type (x ++ rest) == attribute_end) ≡ false
    → attr_fits (x ++ rest) ≡ true
    → IsImage x
unfolding attr_fits attr_length attr_type attr_name_length attr_name_offset
front_IsImage x rest filled more fits =
    let header : ntfs_attr_min_header ≤ length x = ground arith in
    let t = read32-append x rest 0 (omega arith) in
    let l = read32-append x rest 4 (omega arith) in
    let n = get_or-append_left x rest 9 0 (omega arith) in
    let o = read16-append x rest 10 (omega arith) in
    record {
      header = header;
      filled = sym l ∙ filled;
      goes_on = rw t at more;
      named = ground (arith, t, l, n, o);
    }

front-IsFound :
    (first type : ℕ) (name used x rest : List ℕ) (o : ℕ) (f : Found)
    → first ≤ o
    → x ++ rest ≡ drop o used
    → o ≤ length used
    → IsImage x
    → try_attr type name (x ++ rest) o ≡ some f
    → IsFound first type name used f
front-IsFound first type name used x rest o f below at low w h =
    elim (Bool-cases (attr_matches type name x)) [
      | inr other ↦
          let skip : try_attr type name (x ++ rest) o ≡ none =
            unfold try_attr in rw (attr_matches_ahead x rest w type name, other) refl in
          cc
      | inl same ↦ elim (Option-cases (prepare_attr_ctx x)) [
        | inl bad ↦
            let skip : try_attr type name (x ++ rest) o ≡ none =
              unfold try_attr in
              rw (attr_matches_ahead x rest w type name, same, image_ahead x rest w, bad) refl in
            cc
        | inr (c, good) ↦
            let hit = try_attr_ahead x rest w type name o c same good in
            let found : f ≡ record { image = x; ctx = c; offset = o } = cc in
            rw found (record {
              after = below;
              whole = w;
              matched = same;
              ready = good;
              copied = rw (← at) (sym (take-append x rest));
              inside = omega (arith, ap length at, length-append x rest, length-drop o used);
            })
      ]
    ]

-- The bytes of a checked attribute record at a pointer.
checked_IsImage :
    (p : List ℕ)
    → (attr_type p == attribute_end) ≡ false
    → attr_fits p ≡ true
    → attr_length p ≤ length p
    → IsImage (take (attr_length p) p)
checked_IsImage p more fits long =
    let e = take-append-drop (attr_length p) p in
    let n : attr_length p ≡ length (take (attr_length p) p) =
      omega (arith, length-take (attr_length p) p) in
    front_IsImage (take (attr_length p) p) (drop (attr_length p) p) (rw e n) (rw e more) (rw e fits)

attr_fits-length : (p : List ℕ) → attr_fits p ≡ true → attr_length p ≤ length p
unfolding attr_fits
attr_fits-length p h = ground arith

find_loop-IsFound :
    (fuel first type : ℕ) (name used p : List ℕ) (o : ℕ) (f : Found)
    → first ≤ o
    → p ≡ drop o used
    → o ≤ length used
    → find_loop fuel type name p o ≡ some f
    → IsFound first type name used f
unfolding find_loop
find_loop-IsFound zero first type name used p o f below at low h = cc
find_loop-IsFound (suc fuel) first type name used p o f below at low h =
    elim (Bool-cases (
      leb ntfs_attr_min_header (length p) && (not (attr_type p == attribute_end) && attr_fits p))) [
        | inr stop ↦ cc (rw (find_loop, stop) at h)
        | inl go ↦
            let more : (attr_type p == attribute_end) ≡ false = ground arith in
            let fits : attr_fits p ≡ true = ground arith in
            let n = attr_fits-length p fits in
            elim (Option-cases (try_attr type name p o)) [
              | inr (g, hit) ↦
                  let same : some g ≡ some f = rw (find_loop, go, hit) at h in
                  let e = take-append-drop (attr_length p) p in
                  front-IsFound first type name used (take (attr_length p) p)
                    (drop (attr_length p) p) o f below (e ∙ at) low (checked_IsImage p more fits n)
                    (rw e (hit ∙ same))
              | inl miss ↦
                  find_loop-IsFound fuel first type name used (drop (attr_length p) p)
                    (o + attr_length p) f (omega arith)
                    (ap (drop (attr_length p)) at ∙ drop-drop o (attr_length p) used)
                    (omega (arith, n, ap length at, length-drop o used))
                    (rw (find_loop, go, miss) at h)
            ]
      ]

-- A resident value is as long as its header says.
length-resident_ctx :
    (x : List ℕ) (c : AttrCtx)
    → attr_length x ≡ length x
    → prepare_attr_ctx x ≡ some c
    → is_non_resident x ≡ false
    → (c.is_non_resident ≡ false) × (length c.value ≡ value_length x)
unfolding prepare_attr_ctx resident_ctx
length-resident_ctx x c filled h resident =
    ground (
      arith,
      length-take (value_length x) (drop (value_offset x) x),
      length-drop (value_offset x) x,
    )

-- Whatever the bytes of the record are, what NtfsEfiFindAttrInRecord gives lies in the bytes in use, not in
-- front of the first attribute; it has the type and the name asked for, its length is its own, its name is
-- inside it, the context is made of it, and if it is resident, its value has as many bytes as its header says.
pub find_attr_in_record-IsFound :
    (rec : List ℕ) (type : ℕ) (name : List ℕ) (f : Found)
    → find_attr_in_record rec type name ≡ some f
    → IsFound (attribute_offset rec) type name (take (bytes_in_use rec) rec) f
      × (is_non_resident f.image ≡ false → length f.ctx.value ≡ value_length f.image)
unfolding find_attr_in_record attr_area
find_attr_in_record-IsFound rec type name f h =
    elim (dec_lt (length (take (bytes_in_use rec) rec)) (attribute_offset rec)) [
      | yes past ↦
          let empty : length (drop (attribute_offset rec) (take (bytes_in_use rec) rec)) ≡ 0 =
            omega (arith, length-drop (attribute_offset rec) (take (bytes_in_use rec) rec)) in
          let none_here : find_loop
                (length (drop (attribute_offset rec) (take (bytes_in_use rec) rec))) type name
                (drop (attribute_offset rec) (take (bytes_in_use rec) rec)) (attribute_offset rec)
              ≡ none =
            unfold find_loop in rw empty refl in
          cc
      | no within ↦
          let w =
            find_loop-IsFound _ (attribute_offset rec) type name (take (bytes_in_use rec) rec) _
              (attribute_offset rec) f (omega arith) refl (omega arith) h in
          (w, λ r. (length-resident_ctx f.image f.ctx w.whole.filled w.ready r).1)
    ]
