-- ===== src/Lznt1/Format.antt =====
-- The choice of the bit split, and the copy of a match.
use ntfs_efi.Prelude.{
  ℕ, zero, suc, ◌+◌, ◌-◌, ◌<◌, ◌≤◌, ◌≡◌, refl, ap, sym, ◌∙◌, true, false, some, List, [], ◌∷◌, ◌++◌,
  length, get_or, drop, length-append, length-drop, get_or-append_left, get_or-append_right, ltb,
  arith, Bool-cases, inl, inr, dec_lt,
}
use ntfs_efi.Lznt1.{max_displacement, raise_format, copy_match}

-- The last entry of a table.
abbrev LastIs : List ℕ → ℕ → Type 0
LastIs [] m = ⊥
LastIs (x ∷ []) m = x ≡ m
LastIs (x ∷ y ∷ l) m = LastIs (y ∷ l) m

drop-LastIs : (l : List ℕ) (k m : ℕ) → k < length l → LastIs l m → LastIs (drop k l) m
drop-LastIs [] k m h w = absurd (omega arith)
drop-LastIs (x ∷ l) zero m h w = w
drop-LastIs (x ∷ []) (suc k) m h w = absurd (omega arith)
drop-LastIs (x ∷ y ∷ l) (suc k) m h w = drop-LastIs (y ∷ l) k m (omega arith) w

raise_format-some :
    (table : List ℕ) (b n m : ℕ)
    → LastIs table m
    → n ≤ m
    → (f : ℕ) × (raise_format table b n ≡ some f) × (b ≤ f) × (f < b + length table)
unfolding raise_format
raise_format-some [] b n m w h = elim w [ ]
raise_format-some (x ∷ []) b n m w h =
    let here : ltb x n ≡ false = ground arith in (b, rw here refl, omega arith, omega arith)
raise_format-some (x ∷ y ∷ l) b n m w h = elim (Bool-cases (ltb x n)) [
  | inl more ↦
      let (f, e, lo, hi) = raise_format-some (y ∷ l) (b + 1) n m w h in
      (f, rw more e, omega arith, omega arith)
  | inr here ↦ (b, rw here refl, omega arith, omega arith)
]

-- Up to 4096 bytes of output the table has an entry, from every format on.
pub raise_format_lem :
    (format n : ℕ)
    → format < 9
    → n ≤ 4096
    → (f : ℕ) × (raise_format (drop format max_displacement) format n ≡ some f) × (f < 9)
unfolding max_displacement
raise_format_lem format n h le =
    let (f, e, lo, hi) =
      raise_format-some (drop format max_displacement) format n 4096
        (drop-LastIs max_displacement format 4096 h refl) le in
    (f, e, omega (arith, hi, length-drop format max_displacement))

-- The search goes on where an earlier one, after less output, has stopped.
raise_format_resumed :
    (table : List ℕ) (b n n' f : ℕ)
    → raise_format table b n ≡ some f
    → n ≤ n'
    → (b ≤ f) × (raise_format (drop (f - b) table) f n' ≡ raise_format table b n')
unfolding raise_format
raise_format_resumed [] b n n' f e h = cc
raise_format_resumed (x ∷ l) b n n' f e h = elim (Bool-cases (ltb x n)) [
  | inl more ↦
      let (lo, q) = raise_format_resumed l (b + 1) n n' f (rw more at e) h in
      let more' : ltb x n' ≡ true = ground (arith, more) in
      let k : f - b ≡ suc (f - (b + 1)) = omega arith in (omega arith, rw (k, more') q)
  | inr here ↦
      let same : b ≡ f = ground (arith, here, e) in
      let k : f - b ≡ 0 = omega arith in (omega arith, rw (k, same) refl)
]

pub raise_format_from :
    (n n' f : ℕ)
    → raise_format max_displacement 0 n ≡ some f
    → n ≤ n'
    → raise_format (drop f max_displacement) f n' ≡ raise_format max_displacement 0 n'
raise_format_from n n' f e h =
    let k : f - 0 ≡ f = omega arith in
    ap (λ t. raise_format (drop t max_displacement) f n') (sym k)
    ∙ (raise_format_resumed max_displacement 0 n n' f e h).1

pub length-copy_match :
    (n displacement : ℕ) (out : List ℕ) → length (copy_match n displacement out) ≡ length out + n
unfolding copy_match
length-copy_match zero displacement out = omega arith
length-copy_match (suc n) displacement out =
    let v : ℕ = get_or out (length out - displacement) 0 in
    omega (arith, length-copy_match n displacement (out ++ v ∷ []), length-append out (v ∷ []))

-- What was written stays.
pub copy_match_kept :
    (n displacement : ℕ) (out : List ℕ) (k : ℕ)
    → k < length out
    → get_or (copy_match n displacement out) k 0 ≡ get_or out k 0
unfolding copy_match
copy_match_kept zero displacement out k h = refl
copy_match_kept (suc n) displacement out k h =
    let v : ℕ = get_or out (length out - displacement) 0 in
    copy_match_kept n displacement (out ++ v ∷ []) k (omega (arith, length-append out (v ∷ [])))
    ∙ get_or-append_left out (v ∷ []) k 0 h

-- A match repeats the output: each byte of it is the one that stands `displacement` before it, also
-- where the match overlaps itself.
pub copy_match_lem :
    (n displacement : ℕ) (out : List ℕ) (k : ℕ)
    → 1 ≤ displacement
    → displacement ≤ length out
    → length out ≤ k
    → k < length out + n
    → get_or (copy_match n displacement out) k 0
      ≡ get_or (copy_match n displacement out) (k - displacement) 0
unfolding copy_match
copy_match_lem zero displacement out k one back lo hi = absurd (omega arith)
copy_match_lem (suc n) displacement out k one back lo hi =
    let v : ℕ = get_or out (length out - displacement) 0 in
    let longer : length (out ++ v ∷ []) ≡ length out + 1 = length-append out (v ∷ []) in
    elim (dec_lt (length out) k) [
      | yes later ↦
          copy_match_lem n displacement (out ++ v ∷ []) k one (omega arith) (omega arith)
            (omega arith)
      | no first ↦
          let e : k ≡ length out + 0 = omega arith in
          copy_match_kept n displacement (out ++ v ∷ []) k (omega arith)
          ∙ (ap (λ t. get_or (out ++ v ∷ []) t 0) e ∙ get_or-append_right out (v ∷ []) 0 0)
          ∙ sym (
              copy_match_kept n displacement (out ++ v ∷ []) (k - displacement) (omega arith)
              ∙ get_or-append_left out (v ∷ []) (k - displacement) 0 (omega arith)
              ∙ ap (λ t. get_or out t 0) (omega arith))
    ]
