-- ===== src/Bitmap/Skip.antt =====
-- The bits that the fast skip passes.
use ntfs_efi.Prelude.{
  ℕ, zero, suc, ◌+◌, ◌-◌, ◌/◌, ◌%◌, ◌^◌, ◌<◌, ◌≤◌, ◌≡◌, refl, sym, subst, leb→le, Bool, true, ◌&&◌,
  List, get_or, leb, ◌==◌, arith, Bool-cases, inl, inr, dec_lt,
}
use ntfs_efi.Bitmap.{is_used, is_full_byte, is_full_word, skip_words, skip_bytes, skip_full}

-- The bits from s up to e are all used.
abbrev pub UsedIn : List ℕ → ℕ → ℕ → Type 0
UsedIn buf s e = (i : ℕ) → s ≤ i → i < e → is_used buf i ≡ true

ones : (k : ℕ) → k < 8 → (255 / 2 ^ k % 2 == 1) ≡ true
ones zero h = refl
ones (suc zero) h = refl
ones (suc (suc zero)) h = refl
ones (suc (suc (suc zero))) h = refl
ones (suc (suc (suc (suc zero)))) h = refl
ones (suc (suc (suc (suc (suc zero))))) h = refl
ones (suc (suc (suc (suc (suc (suc zero)))))) h = refl
ones (suc (suc (suc (suc (suc (suc (suc zero))))))) h = refl
ones (suc (suc (suc (suc (suc (suc (suc (suc k)))))))) h = absurd (omega arith)

both : (a b : Bool) → (a && b) ≡ true → (a ≡ true) × (b ≡ true)
both a b h = ground arith

full_byte_used : (buf : List ℕ) (i : ℕ) → is_full_byte buf (i / 8) ≡ true → is_used buf i ≡ true
unfolding is_used is_full_byte
full_byte_used buf i h =
    let e : get_or buf (i / 8) 0 ≡ 0xff = ground arith in rw e (ones (i % 8) (omega arith))

byte_UsedIn :
    (buf : List ℕ) (bit : ℕ)
    → bit % 8 ≡ 0
    → is_full_byte buf (bit / 8) ≡ true
    → UsedIn buf bit (bit + 8)
byte_UsedIn buf bit h f i lo hi =
    let e : i / 8 ≡ bit / 8 = omega arith in full_byte_used buf i (rw e f)

pub UsedIn-join : (buf : List ℕ) (a b c : ℕ) → UsedIn buf a b → UsedIn buf b c → UsedIn buf a c
UsedIn-join buf a b c p q i lo hi = elim (dec_lt i b) [
  | yes h ↦ p i lo h
  | no h ↦ q i (omega arith) hi
]

byte_of_word :
    (buf : List ℕ) (bit j : ℕ)
    → j < 8
    → is_full_word buf bit ≡ true
    → is_full_byte buf (bit / 8 + j) ≡ true
unfolding is_full_word
byte_of_word buf bit zero h f = let e : bit / 8 + 0 ≡ bit / 8 = omega arith in rw e (ground arith)
byte_of_word buf bit (suc zero) h f = ground arith
byte_of_word buf bit (suc (suc zero)) h f = ground arith
byte_of_word buf bit (suc (suc (suc zero))) h f = ground arith
byte_of_word buf bit (suc (suc (suc (suc zero)))) h f = ground arith
byte_of_word buf bit (suc (suc (suc (suc (suc zero))))) h f = ground arith
byte_of_word buf bit (suc (suc (suc (suc (suc (suc zero)))))) h f = ground arith
byte_of_word buf bit (suc (suc (suc (suc (suc (suc (suc zero))))))) h f = ground arith
byte_of_word buf bit (suc (suc (suc (suc (suc (suc (suc (suc k)))))))) h f = absurd (omega arith)

word_UsedIn :
    (buf : List ℕ) (bit : ℕ) → bit % 8 ≡ 0 → is_full_word buf bit ≡ true → UsedIn buf bit (bit + 64)
word_UsedIn buf bit h f i lo hi =
    let e : i / 8 ≡ bit / 8 + (i / 8 - bit / 8) = omega arith in
    full_byte_used buf i (
      subst (λ k. is_full_byte buf k ≡ true) (sym e)
        (byte_of_word buf bit (i / 8 - bit / 8) (omega arith) f))

-- What a skip from `bit` to `b` does, up to the limit.
pub record Skipped (buf : List ℕ) (to_bit bit b : ℕ) : Type 0 where
  pub forward : bit ≤ b
  pub within : bit ≤ to_bit → b ≤ to_bit
  pub aligned : b % 8 ≡ 0
  pub used : UsedIn buf bit b

stays : (buf : List ℕ) (to_bit bit : ℕ) → bit % 8 ≡ 0 → Skipped buf to_bit bit bit
stays buf to_bit bit h = record {
  forward = omega arith;
  within = λ p. p;
  aligned = h;
  used = λ i lo hi. absurd (omega arith);
}

Skipped-join :
    (buf : List ℕ) (to_bit a b c : ℕ)
    → Skipped buf to_bit a b
    → Skipped buf to_bit b c
    → Skipped buf to_bit a c
Skipped-join buf to_bit a b c p q = record {
  forward = omega (arith, p.forward, q.forward);
  within = λ h. q.within (p.within h);
  aligned = q.aligned;
  used = UsedIn-join buf a b c p.used q.used;
}

one_round :
    (buf : List ℕ) (to_bit bit n : ℕ)
    → bit % 8 ≡ 0
    → n % 8 ≡ 0
    → leb (bit + n) to_bit ≡ true
    → UsedIn buf bit (bit + n)
    → Skipped buf to_bit bit (bit + n)
one_round buf to_bit bit n h hn le u = record {
  forward = omega arith;
  within = λ p. leb→le (bit + n) to_bit le;
  aligned = omega arith;
  used = u;
}

skip_bytes-Skipped :
    (fuel : ℕ) (buf : List ℕ) (to_bit bit : ℕ)
    → bit % 8 ≡ 0
    → Skipped buf to_bit bit (skip_bytes fuel buf to_bit bit)
unfolding skip_bytes
skip_bytes-Skipped zero buf to_bit bit h = stays buf to_bit bit h
skip_bytes-Skipped (suc fuel) buf to_bit bit h =
    elim (Bool-cases (leb (bit + 8) to_bit && is_full_byte buf (bit / 8))) [
      | inl go ↦
          let (le, full) = both _ _ go in
          rw go (
            Skipped-join buf to_bit bit (bit + 8) _
              (one_round buf to_bit bit 8 h refl le (byte_UsedIn buf bit h full))
              (skip_bytes-Skipped fuel buf to_bit (bit + 8) (omega arith)))
      | inr stop ↦ rw stop (stays buf to_bit bit h)
    ]

skip_words-Skipped :
    (fuel : ℕ) (buf : List ℕ) (to_bit bit : ℕ)
    → bit % 8 ≡ 0
    → Skipped buf to_bit bit (skip_words fuel buf to_bit bit)
unfolding skip_words
skip_words-Skipped zero buf to_bit bit h = stays buf to_bit bit h
skip_words-Skipped (suc fuel) buf to_bit bit h =
    elim (Bool-cases (leb (bit + 64) to_bit && is_full_word buf bit)) [
      | inl go ↦
          let (le, full) = both _ _ go in
          rw go (
            Skipped-join buf to_bit bit (bit + 64) _
              (one_round buf to_bit bit 64 h refl le (word_UsedIn buf bit h full))
              (skip_words-Skipped fuel buf to_bit (bit + 64) (omega arith)))
      | inr stop ↦ rw stop (stays buf to_bit bit h)
    ]

-- From a byte boundary the skip passes used bits only, and stays within the limit.
pub skip_full-Skipped :
    (buf : List ℕ) (to_bit bit : ℕ)
    → bit % 8 ≡ 0
    → Skipped buf to_bit bit (skip_full buf to_bit bit)
unfolding skip_full
skip_full-Skipped buf to_bit bit h =
    let w = skip_words-Skipped to_bit buf to_bit bit h in
    Skipped-join buf to_bit bit _ _ w (skip_bytes-Skipped to_bit buf to_bit _ w.aligned)
