-- ===== src/Checksum/Buffer.antt =====
-- The block of a SHA-256 context as the bytes that are in use, followed by others.
use ntfs_efi.Prelude.{
  ℕ, zero, suc, ◌+◌, ◌-◌, ◌*◌, ◌/◌, ◌%◌, ◌^◌, ◌<◌, ◌≤◌, ◌≡◌, refl, ap, sym, ◌∙◌, List, [], ◌∷◌,
  ◌++◌, length, take, drop, set, replicate, length-set, length-append, length-take, length-drop,
  append_assoc, append-nil, arith,
}
use ntfs_efi.Checksum.{copy_mem, zero_fill, store_length}

pub take_left : (n : ℕ) (a b : List ℕ) → length a ≡ n → take n (a ++ b) ≡ a
take_left zero [] b h = refl
take_left zero (x ∷ a) b h = absurd (omega arith)
take_left (suc n) [] b h = absurd (omega arith)
take_left (suc n) (x ∷ a) b h = ap (λ t. x ∷ t) (take_left n a b (omega arith))

pub drop_left : (n : ℕ) (a b : List ℕ) → length a ≡ n → drop n (a ++ b) ≡ b
drop_left zero [] b h = refl
drop_left zero (x ∷ a) b h = absurd (omega arith)
drop_left (suc n) [] b h = absurd (omega arith)
drop_left (suc n) (x ∷ a) b h = drop_left n a b (omega arith)

pub take_all : (n : ℕ) (a : List ℕ) → length a ≤ n → take n a ≡ a
take_all zero [] h = refl
take_all zero (x ∷ a) h = absurd (omega arith)
take_all (suc n) [] h = refl
take_all (suc n) (x ∷ a) h = ap (λ t. x ∷ t) (take_all n a (omega arith))

-- A store at the first free byte.
pub take-set_next :
    (n : ℕ) (a : List ℕ) (v : ℕ) → n < length a → take (suc n) (set a n v) ≡ take n a ++ v ∷ []
take-set_next zero [] v h = absurd (omega arith)
take-set_next zero (x ∷ a) v h = refl
take-set_next (suc n) [] v h = absurd (omega arith)
take-set_next (suc n) (x ∷ a) v h = ap (λ t. x ∷ t) (take-set_next n a v (omega arith))

-- CopyMem to the first free byte.
pub take-copy_mem :
    (block : List ℕ) (used : ℕ) (p : List ℕ)
    → used + length p ≤ length block
    → take (used + length p) (copy_mem block used p) ≡ take used block ++ p
unfolding copy_mem
take-copy_mem block used p h =
    let n : length (take used block ++ p) ≡ used + length p =
      omega (arith, length-append (take used block) p, length-take used block) in
    ap (take (used + length p)) (sym (append_assoc (take used block) p _))
    ∙ take_left (used + length p) (take used block ++ p) _ n

pub length-copy_mem :
    (block : List ℕ) (used : ℕ) (p : List ℕ)
    → used + length p ≤ length block
    → length (copy_mem block used p) ≡ length block
unfolding copy_mem
length-copy_mem block used p h = omega (
  arith,
  length-append (take used block) (p ++ drop (used + length p) block),
  length-append p (drop (used + length p) block),
  length-take used block,
  length-drop (used + length p) block,
)

pub length-zero_fill :
    (n used : ℕ) (block : List ℕ) → length (zero_fill n used block) ≡ length block
unfolding zero_fill
length-zero_fill zero used block = refl
length-zero_fill (suc n) used block =
    length-zero_fill n (used + 1) (set block used 0) ∙ length-set block used 0

pub take-zero_fill :
    (n used : ℕ) (block : List ℕ)
    → used + n ≤ length block
    → take (used + n) (zero_fill n used block) ≡ take used block ++ replicate n 0
unfolding zero_fill
take-zero_fill zero used block h =
    let e : used + 0 ≡ used = omega arith in rw (e, append-nil (take used block)) refl
take-zero_fill (suc n) used block h =
    let e : used + suc n ≡ used + 1 + n = omega arith in
    let s : used + 1 ≡ suc used = omega arith in
    rw e (
      take-zero_fill n (used + 1) (set block used 0) (omega (arith, length-set block used 0))
      ∙ rw (s, take-set_next used block 0 (omega arith))
          (append_assoc (take used block) (0 ∷ []) (replicate n 0)))

-- The eight bytes of a length, most significant first, from round i on.
abbrev pub length_bytes : ℕ → ℕ → ℕ → List ℕ
length_bytes zero i bits = []
length_bytes (suc n) i bits = bits / 2 ^ (56 - i * 8) % 256 ∷ length_bytes n (i + 1) bits

pub take-store_length :
    (n i bits : ℕ) (block : List ℕ)
    → 56 + i + n ≤ length block
    → take (56 + i + n) (store_length n i bits block) ≡ take (56 + i) block ++ length_bytes n i bits
unfolding store_length
take-store_length zero i bits block h =
    let e : 56 + i + 0 ≡ 56 + i = omega arith in rw (e, append-nil (take (56 + i) block)) refl
take-store_length (suc n) i bits block h =
    let v : ℕ = bits / 2 ^ (56 - i * 8) % 256 in
    let e : 56 + i + suc n ≡ 56 + (i + 1) + n = omega arith in
    let s : 56 + (i + 1) ≡ suc (56 + i) = omega arith in
    rw e (
      take-store_length n (i + 1) bits (set block (56 + i) v)
        (omega (arith, length-set block (56 + i) v))
      ∙ rw (s, take-set_next (56 + i) block v (omega arith))
          (append_assoc (take (56 + i) block) (v ∷ []) (length_bytes n (i + 1) bits)))

pub length-store_length :
    (n i bits : ℕ) (block : List ℕ) → length (store_length n i bits block) ≡ length block
unfolding store_length
length-store_length zero i bits block = refl
length-store_length (suc n) i bits block =
    length-store_length n (i + 1) bits _ ∙ length-set block (56 + i) _
