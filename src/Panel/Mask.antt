-- ===== src/Panel/Mask.antt =====
-- PanelOpsMatchMask against the masks' meaning.
use ntfs_efi.Prelude.{
  ℕ, ◌≡◌, ◌↔◌, refl, sym, ap, Bool, true, false, not, ◌&&◌, List, [], ◌∷◌, ◌++◌, arith, ◌==◌,
  Bool-cases, ◌⊎◌, inl, inr, ==_iff, append-nil, ◌≢◌,
}
use ntfs_efi.Panel.{upcase_char, is_empty, match_suffixes, match_loop, match_mask}

-- A star stands for any characters, a question mark for any one, and another character for itself in either case.
pub Matches : List ℕ → List ℕ → Type 0
Matches [] name = name ≡ []
Matches (m ∷ mask) name = elim (m == 42) [
  | true ↦ (front : List ℕ) × (rest : List ℕ) × (name ≡ front ++ rest) × Matches mask rest
  | false ↦
      (c : ℕ) × (rest : List ℕ) × (name ≡ c ∷ rest)
      × ((m ≡ 63) ⊎ (upcase_char m ≡ upcase_char c))
      × Matches mask rest
]

-- Some rest of the name passes the test.
abbrev HasSuffix : (List ℕ → Bool) → List ℕ → Type 0
HasSuffix test name =
    (front : List ℕ) × (rest : List ℕ) × (name ≡ front ++ rest) × (test rest ≡ true)

suffixes-HasSuffix :
    (test : List ℕ → Bool) (name : List ℕ) → match_suffixes test name ≡ true → HasSuffix test name
unfolding match_suffixes
suffixes-HasSuffix test [] h = ([], [], refl, h)
suffixes-HasSuffix test (c ∷ name) h = elim (Bool-cases (test (c ∷ name))) [
  | inl here ↦ ([], c ∷ name, refl, here)
  | inr later ↦
      let (front, rest, e, t) = suffixes-HasSuffix test name (rw later at h) in
      (c ∷ front, rest, ap (λ l. c ∷ l) e, t)
]

suffixes_here :
    (test : List ℕ → Bool) (name : List ℕ) → test name ≡ true → match_suffixes test name ≡ true
unfolding match_suffixes
suffixes_here test [] h = h
suffixes_here test (c ∷ name) h = rw h refl

suffixes_found :
    (test : List ℕ → Bool) (front rest : List ℕ)
    → test rest ≡ true
    → match_suffixes test (front ++ rest) ≡ true
unfolding match_suffixes
suffixes_found test [] rest h = suffixes_here test rest h
suffixes_found test (c ∷ front) rest h = ground (arith, suffixes_found test front rest h)

is_empty_iff : (name : List ℕ) → (is_empty name ≡ true) ↔ (name ≡ [])
is_empty_iff [] = (λ h. refl, λ h. refl)
is_empty_iff (c ∷ name) = (λ h. cc, λ h. cc)

-- The test of one character of the mask.
one_char :
    (m c : ℕ)
    → (not (m == 63) && not (upcase_char m == upcase_char c)) ≡ false
    → (m ≡ 63) ⊎ (upcase_char m ≡ upcase_char c)
one_char m c h = elim (Bool-cases (m == 63)) [
  | inl any ↦ inl ((==_iff m 63).0 any)
  | inr char ↦ inr ((==_iff _ _).0 (ground (arith, h, char)))
]

one_char_passes :
    (m c : ℕ)
    → (m ≡ 63) ⊎ (upcase_char m ≡ upcase_char c)
    → (not (m == 63) && not (upcase_char m == upcase_char c)) ≡ false
one_char_passes m c (inl any) = rw ((==_iff m 63).1 any) refl
one_char_passes m c (inr char) =
    rw ((==_iff (upcase_char m) (upcase_char c)).1 char)
      (elim (Bool-cases (m == 63)) [ inl a ↦ rw a refl | inr b ↦ rw b refl ])

sound_char :
    (m : ℕ) (mask name : List ℕ)
    → (m == 42) ≡ false
    → ((rest : List ℕ) → match_loop rest mask ≡ true → Matches mask rest)
    → match_loop name (m ∷ mask) ≡ true
    → Matches (m ∷ mask) name
unfolding match_loop Matches
sound_char m mask [] char ih h = cc (rw (match_loop, char) at h)
sound_char m mask (c ∷ rest) char ih h =
    elim (Bool-cases (not (m == 63) && not (upcase_char m == upcase_char c))) [
      | inl apart ↦ cc (rw (match_loop, char, apart) at h)
      | inr same ↦
          rw (Matches, char)
            (c, rest, refl, one_char m c same, ih rest (rw (match_loop, char, same) at h))
    ]

sound : (mask name : List ℕ) → match_loop name mask ≡ true → Matches mask name
unfolding match_loop Matches
sound [] name h = (is_empty_iff name).0 h
sound (m ∷ mask) name h = elim (Bool-cases (m == 42)) [
  | inl star ↦ elim (Bool-cases (is_empty mask)) [
    | inl last ↦
        rw (Matches, star)
          (
            name,
            [],
            sym (append-nil name),
            sound mask [] (rw (match_loop, (is_empty_iff mask).0 last) refl),
          )
    | inr more ↦
        let (front, rest, e, t) =
          suffixes-HasSuffix (λ rest. match_loop rest mask) name
            (rw (match_loop, star, more) at h) in
        rw (Matches, star) (front, rest, e, sound mask rest t)
  ]
  | inr char ↦ sound_char m mask name char (sound mask) h
]

complete : (mask name : List ℕ) → Matches mask name → match_loop name mask ≡ true
unfolding match_loop Matches
complete [] name h = (is_empty_iff name).1 h
complete (m ∷ mask) name h = elim (Bool-cases (m == 42)) [
  | inl star ↦
      let (front, rest, e, w) = rw (Matches, star) at h in
      elim (Bool-cases (is_empty mask)) [
        | inl last ↦ rw (match_loop, star, last) refl
        | inr more ↦
            rw (match_loop, star, more, e)
              (suffixes_found (λ rest. match_loop rest mask) front rest (complete mask rest w))
      ]
  | inr char ↦
      let (c, rest, e, pass, w) = rw (Matches, char) at h in
      rw (match_loop, char, e, one_char_passes m c pass) (complete mask rest w)
]

-- PanelOpsMatchMask says yes exactly if the mask is not empty and matches the name: a star stands for any
-- number of characters, a question mark for one, and every other character for itself, case aside.
pub match_mask-Matches :
    (name mask : List ℕ) → (match_mask name mask ≡ true) ↔ ((mask ≢ []) × Matches mask name)
unfolding match_mask
match_mask-Matches name [] = (λ h. cc, λ (n, w). absurd (n refl))
match_mask-Matches name (m ∷ mask) =
    (λ h. (λ e. cc, sound (m ∷ mask) name h), λ (n, w). complete (m ∷ mask) name w)
