-- ===== src/Search/Occurs.antt =====
-- ViewerFindBytes against the meaning of an occurrence.
use ntfs_efi.Prelude.{
  ℕ, ◌+◌, ◌<◌, ◌≡◌, ◌≢◌, refl, ap, ap₂, true, false, ◌||◌, none, some, List, [], ◌∷◌, ◌++◌, map,
  length, arith, ltb, ◌==◌, Bool-cases, inl, inr, ==_iff, length-append, length-map,
}
use ntfs_efi.Search.{viewer_upper, same_bytes, find_bytes_loop, find_bytes}

-- A piece of the bytes is the needle, case aside.
pub record Occurs (needle bytes : List ℕ) : Type 0 where
  pub front : List ℕ
  pub middle : List ℕ
  pub back : List ℕ
  pub joined : bytes ≡ front ++ (middle ++ back)
  pub alike : map viewer_upper middle ≡ map viewer_upper needle

pub middle_length : (a b : List ℕ) → map viewer_upper a ≡ map viewer_upper b → length a ≡ length b
middle_length a b e =
    omega (arith, length-map a viewer_upper, length-map b viewer_upper, ap length e)

same_bytes_sound :
    (needle rest : List ℕ)
    → same_bytes needle rest ≡ true
    → (middle : List ℕ) × (back : List ℕ) × (rest ≡ middle ++ back)
      × (map viewer_upper middle ≡ map viewer_upper needle)
unfolding same_bytes
same_bytes_sound [] rest h = ([], rest, refl, refl)
same_bytes_sound (n ∷ needle) [] h = cc
same_bytes_sound (n ∷ needle) (b ∷ rest) h = elim (Bool-cases (viewer_upper b == viewer_upper n)) [
  | inr other ↦ cc (rw other at h)
  | inl same ↦
      let (m, k, e, a) = same_bytes_sound needle rest (rw same at h) in
      (
        b ∷ m,
        k,
        ap (λ l. b ∷ l) e,
        ap₂ (λ x l. x ∷ l) ((==_iff (viewer_upper b) (viewer_upper n)).0 same) a,
      )
]

same_bytes_complete :
    (needle middle back : List ℕ)
    → map viewer_upper middle ≡ map viewer_upper needle
    → same_bytes needle (middle ++ back) ≡ true
unfolding same_bytes
same_bytes_complete [] middle back e = refl
same_bytes_complete (n ∷ needle) [] back e = cc
same_bytes_complete (n ∷ needle) (b ∷ middle) back e =
    let head : viewer_upper b ≡ viewer_upper n = cc in
    let tail : map viewer_upper middle ≡ map viewer_upper needle = cc in
    rw ((==_iff (viewer_upper b) (viewer_upper n)).1 head)
      (same_bytes_complete needle middle back tail)

find_bytes_loop_sound :
    (needle bytes : List ℕ) (i k : ℕ)
    → find_bytes_loop needle bytes i ≡ some k
    → 0 < length needle
    → Occurs needle bytes
unfolding find_bytes_loop
find_bytes_loop_sound needle [] i k h n = ground arith
find_bytes_loop_sound needle (b ∷ rest) i k h n =
    elim (Bool-cases (ltb (length (b ∷ rest)) (length needle))) [
      | inl short ↦ cc (rw short at h)
      | inr long ↦ elim (Bool-cases (same_bytes needle (b ∷ rest))) [
        | inl here ↦
            let (m, k, e, a) = same_bytes_sound needle (b ∷ rest) here in
            record { front = []; middle = m; back = k; joined = e; alike = a }
        | inr away ↦
            let w = find_bytes_loop_sound needle rest (i + 1) k (rw (long, away) at h) n in
            record {
              front = b ∷ w.front;
              middle = w.middle;
              back = w.back;
              joined = ap (λ l. b ∷ l) w.joined;
              alike = w.alike;
            }
      ]
    ]

find_bytes_loop_complete :
    (needle front middle back : List ℕ) (i : ℕ)
    → map viewer_upper middle ≡ map viewer_upper needle
    → 0 < length needle
    → find_bytes_loop needle (front ++ (middle ++ back)) i ≢ none
unfolding find_bytes_loop
find_bytes_loop_complete needle [] [] back i e n = absurd (omega (arith, middle_length [] needle e))
find_bytes_loop_complete needle [] (b ∷ middle) back i e n =
    let long : ltb (length (b ∷ middle ++ back)) (length needle) ≡ false =
      ground (arith, middle_length (b ∷ middle) needle e, length-append middle back) in
    rw (long, same_bytes_complete needle (b ∷ middle) back e) (λ h. cc)
find_bytes_loop_complete needle (a ∷ front) middle back i e n =
    let long : ltb (length (a ∷ front ++ (middle ++ back))) (length needle) ≡ false = ground (
      arith,
      middle_length middle needle e,
      length-append front (middle ++ back),
      length-append middle back,
    ) in
    elim (Bool-cases (same_bytes needle (a ∷ front ++ (middle ++ back)))) [
      | inl here ↦ rw (long, here) (λ h. cc)
      | inr away ↦ rw (long, away) (find_bytes_loop_complete needle front middle back (i + 1) e n)
    ]

pub find_bytes_sound :
    (bytes needle : List ℕ) (k : ℕ) → find_bytes bytes needle 0 ≡ some k → Occurs needle bytes
unfolding find_bytes
find_bytes_sound bytes needle k h =
    elim (Bool-cases (length needle == 0 || ltb (length bytes) (length needle))) [
      | inl bad ↦ cc (rw bad at h)
      | inr good ↦ find_bytes_loop_sound needle bytes 0 k (rw good at h) (ground arith)
    ]

pub find_bytes_complete :
    (bytes needle : List ℕ)
    → 0 < length needle
    → find_bytes bytes needle 0 ≡ none
    → Occurs needle bytes
    → ⊥
unfolding find_bytes
find_bytes_complete bytes needle n h w =
    let total = length-append w.front (w.middle ++ w.back) in
    let inner = length-append w.middle w.back in
    let size = middle_length w.middle needle w.alike in
    let fits : (length needle == 0 || ltb (length bytes) (length needle)) ≡ false =
      ground (arith, ap length w.joined, total, inner, size) in
    find_bytes_loop_complete needle w.front w.middle w.back 0 w.alike n
      (rw w.joined at (rw fits at h))
