-- ===== src/Allocator/Marks.antt =====
-- Setting and clearing bits of a bitmap.
use ntfs_efi.Prelude.{
  ℕ, zero, suc, ◌+◌, ◌-◌, ◌*◌, ◌/◌, ◌%◌, ◌^◌, ◌<◌, ◌≤◌, ◌≡◌, refl, sym, ap, ◌∙◌, bit_and, bit_or,
  Bool, true, false, ◌&&◌, List, length, length-set, get_or, set, ◌==◌, arith, if◌then◌else◌,
  ℕ_discrete, ltb, leb, ltb→lt, get_or-set_self, get_or-set_ne, IsBytes, byte_range, eqb_true,
  eqb_false, set-IsBytes,
}
use ntfs_efi.Bitmap.{is_used}
use ntfs_efi.Allocator.{set_bit, clear_bit, set_bits, clear_bits}

below : ℕ → (ℕ → Bool) → Bool
below zero p = true
below (suc n) p = p n && below n p

below_sound : (n : ℕ) (p : ℕ → Bool) (x : ℕ) → below n p ≡ true → x < n → p x ≡ true
unfolding below
below_sound zero p x h lt = absurd (omega arith)
below_sound (suc n) p x h lt = ground (arith, below_sound n p x)

bool_eq : Bool → Bool → Bool
bool_eq true b = b
bool_eq false true = false
bool_eq false false = true

bool_eq→eq : (a b : Bool) → bool_eq a b ≡ true → a ≡ b
unfolding bool_eq
bool_eq→eq true b h = sym h
bool_eq→eq false true h = cc
bool_eq→eq false false h = refl

abbrev bit_of : ℕ → ℕ → Bool
bit_of b j = b / 2 ^ j % 2 == 1

abbrev or_table : ℕ → ℕ → ℕ → Bool
or_table b k j = bool_eq (bit_of (bit_or b (2 ^ k)) j) (if k == j then true else bit_of b j)

abbrev and_table : ℕ → ℕ → ℕ → Bool
and_table b k j =
    bool_eq (bit_of (bit_and b (255 - 2 ^ k)) j) (if k == j then false else bit_of b j)

or_checked : below 256 (λ b. below 8 (λ k. below 8 (λ j. or_table b k j))) ≡ true
unfolding below bool_eq
or_checked = refl

and_checked : below 256 (λ b. below 8 (λ k. below 8 (λ j. and_table b k j))) ≡ true
unfolding below bool_eq
and_checked = refl

or_byte :
    (b k j : ℕ)
    → b < 256
    → k < 8
    → j < 8
    → bit_of (bit_or b (2 ^ k)) j ≡ (if k == j then true else bit_of b j)
or_byte b k j hb hk hj = bool_eq→eq _ _ (
    below_sound 8 (λ i. or_table b k i) j
      (below_sound 8 (λ i. below 8 (λ m. or_table b i m)) k
        (below_sound 256 (λ c. below 8 (λ i. below 8 (λ m. or_table c i m))) b or_checked hb) hk)
      hj)

and_byte :
    (b k j : ℕ)
    → b < 256
    → k < 8
    → j < 8
    → bit_of (bit_and b (255 - 2 ^ k)) j ≡ (if k == j then false else bit_of b j)
and_byte b k j hb hk hj = bool_eq→eq _ _ (
    below_sound 8 (λ i. and_table b k i) j
      (below_sound 8 (λ i. below 8 (λ m. and_table b i m)) k
        (below_sound 256 (λ c. below 8 (λ i. below 8 (λ m. and_table c i m))) b and_checked hb) hk)
      hj)

same_byte :
    (buf : List ℕ) (i j : ℕ) (v : Bool)
    → i / 8 ≡ j / 8
    → (if i % 8 == j % 8 then v else bit_of (get_or buf (i / 8) 0) (j % 8))
      ≡ (if i == j then v else bit_of (get_or buf (j / 8) 0) (j % 8))
same_byte buf i j v same = elim (ℕ_discrete i j) [
  | yes e ↦ rw (eqb_true i j e, eqb_true (i % 8) (j % 8) (omega arith))
  | no n ↦ rw (eqb_false i j n, eqb_false (i % 8) (j % 8) (omega arith), same)
]

-- A write of one byte, seen through the bits: `new` is what becomes of the bits of that byte.
written_bit :
    (buf : List ℕ) (i j b : ℕ) (v : Bool)
    → i / 8 < length buf
    → ((m : ℕ) → m < 8 → bit_of b m ≡ (if i % 8 == m then v else bit_of (get_or buf (i / 8) 0) m))
    → is_used (set buf (i / 8) b) j ≡ (if i == j then v else is_used buf j)
unfolding is_used
written_bit buf i j b v h new = elim (ℕ_discrete (i / 8) (j / 8)) [
  | yes same ↦
      ap (λ x. bit_of x (j % 8))
        (ap (λ k. get_or (set buf (i / 8) b) k 0) (sym same) ∙ get_or-set_self buf (i / 8) b 0 h)
      ∙ new (j % 8) (omega arith)
      ∙ same_byte buf i j v same
  | no other ↦
      ap (λ x. bit_of x (j % 8)) (get_or-set_ne buf (i / 8) (j / 8) b 0 other)
      ∙ rw (eqb_false i j (omega arith))
]

module _ (buf : List ℕ) (ok : IsBytes buf) (i j : ℕ) (h : i / 8 < length buf) where
  pub is_used-set_bit : is_used (set_bit buf i) j ≡ (if i == j then true else is_used buf j)
  unfolding set_bit
  is_used-set_bit =
      written_bit buf i j _ true h
        λ m hm. or_byte _ (i % 8) m (byte_range buf (i / 8) ok) (omega arith) hm

  pub is_used-clear_bit : is_used (clear_bit buf i) j ≡ (if i == j then false else is_used buf j)
  unfolding clear_bit
  is_used-clear_bit =
      written_bit buf i j _ false h
        λ m hm. and_byte _ (i % 8) m (byte_range buf (i / 8) ok) (omega arith) hm

or_small : (b k : ℕ) → b < 256 → k < 8 → bit_or b (2 ^ k) < 256
or_small b k hb hk = ltb→lt _ _ (
    below_sound 8 (λ i. ltb (bit_or b (2 ^ i)) 256) k
      (below_sound 256 (λ c. below 8 (λ i. ltb (bit_or c (2 ^ i)) 256)) b checked hb) hk)
  where
    checked : below 256 (λ c. below 8 (λ i. ltb (bit_or c (2 ^ i)) 256)) ≡ true
    checked = unfold below in refl

and_small : (b k : ℕ) → b < 256 → k < 8 → bit_and b (255 - 2 ^ k) < 256
and_small b k hb hk = ltb→lt _ _ (
    below_sound 8 (λ i. ltb (bit_and b (255 - 2 ^ i)) 256) k
      (below_sound 256 (λ c. below 8 (λ i. ltb (bit_and c (255 - 2 ^ i)) 256)) b checked hb) hk)
  where
    checked : below 256 (λ c. below 8 (λ i. ltb (bit_and c (255 - 2 ^ i)) 256)) ≡ true
    checked = unfold below in refl

-- A buffer of bytes of a given length.
pub record IsBuffer (size : ℕ) (buf : List ℕ) : Type 0 where
  pub bytes : IsBytes buf
  pub sized : length buf ≡ size

pub set_bit-IsBuffer :
    (size : ℕ) (buf : List ℕ) (i : ℕ) → IsBuffer size buf → IsBuffer size (set_bit buf i)
unfolding set_bit
set_bit-IsBuffer size buf i b = record {
  bytes =
      set-IsBytes buf (i / 8) _ (or_small _ (i % 8) (byte_range buf (i / 8) b.bytes) (omega arith))
        b.bytes;
  sized = length-set buf (i / 8) _ ∙ b.sized;
}

pub clear_bit-IsBuffer :
    (size : ℕ) (buf : List ℕ) (i : ℕ) → IsBuffer size buf → IsBuffer size (clear_bit buf i)
unfolding clear_bit
clear_bit-IsBuffer size buf i b = record {
  bytes =
      set-IsBytes buf (i / 8) _ (and_small _ (i % 8) (byte_range buf (i / 8) b.bytes) (omega arith))
        b.bytes;
  sized = length-set buf (i / 8) _ ∙ b.sized;
}

-- `s ≤ j < s + n`
abbrev pub in_run : ℕ → ℕ → ℕ → Bool
in_run s n j = leb s j && ltb j (s + n)

pub is_used-set_bits :
    (n s size j : ℕ) (buf : List ℕ)
    → IsBuffer size buf
    → s + n ≤ size * 8
    → is_used (set_bits n s buf) j ≡ (if in_run s n j then true else is_used buf j)
unfolding set_bits
is_used-set_bits zero s size j buf b h = ground arith
is_used-set_bits (suc n) s size j buf b h = ground (
  arith,
  is_used-set_bits n (s + 1) size j (set_bit buf s) (set_bit-IsBuffer size buf s b) (omega arith),
  is_used-set_bit buf b.bytes s j (omega (arith, b.sized)),
)

pub is_used-clear_bits :
    (n s size j : ℕ) (buf : List ℕ)
    → IsBuffer size buf
    → s + n ≤ size * 8
    → is_used (clear_bits n s buf) j ≡ (if in_run s n j then false else is_used buf j)
unfolding clear_bits
is_used-clear_bits zero s size j buf b h = ground arith
is_used-clear_bits (suc n) s size j buf b h = ground (
  arith,
  is_used-clear_bits n (s + 1) size j (clear_bit buf s) (clear_bit-IsBuffer size buf s b)
      (omega arith),
  is_used-clear_bit buf b.bytes s j (omega (arith, b.sized)),
)

pub set_bits-IsBuffer :
    (n s size : ℕ) (buf : List ℕ) → IsBuffer size buf → IsBuffer size (set_bits n s buf)
unfolding set_bits
set_bits-IsBuffer zero s size buf b = b
set_bits-IsBuffer (suc n) s size buf b =
    set_bits-IsBuffer n (s + 1) size (set_bit buf s) (set_bit-IsBuffer size buf s b)
