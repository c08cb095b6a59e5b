-- ===== src/Usa/Words.antt =====
-- USHORT reads and writes in a buffer of bytes.
use ntfs_efi.Prelude.{
  ℕ, ◌+◌, ◌/◌, ◌%◌, ◌<◌, ◌≡◌, ◌≢◌, ◌∙◌, List, length, length-set, get_or, set, arith,
  get_or-set_self, get_or-set_ne, IsBytes, byte_range, set-IsBytes,
}
use ntfs_efi.Usa.{read16, write16}

-- The buffer of a record.
pub record IsRecord (size : ℕ) (buf : List ℕ) : Type 0 where
  pub bytes : IsBytes buf
  pub sized : length buf ≡ size

pub write16-IsRecord :
    (size : ℕ) (buf : List ℕ) (o v : ℕ) → IsRecord size buf → IsRecord size (write16 buf o v)
unfolding write16
write16-IsRecord size buf o v r = record {
  bytes =
      set-IsBytes (set buf o (v % 256)) (o + 1) _ (omega arith)
        (set-IsBytes buf o _ (omega arith) r.bytes);
  sized = length-set (set buf o (v % 256)) (o + 1) _ ∙ length-set buf o _ ∙ r.sized;
}

pub read16-lt : (size : ℕ) (buf : List ℕ) (o : ℕ) → IsRecord size buf → read16 buf o < 65536
unfolding read16
read16-lt size buf o r = omega (arith, byte_range buf o r.bytes, byte_range buf (o + 1) r.bytes)

pub read16-write16_self :
    (buf : List ℕ) (o v : ℕ) → v < 65536 → o + 1 < length buf → read16 (write16 buf o v) o ≡ v
unfolding read16 write16
read16-write16_self buf o v h fits = omega (
  arith,
  get_or-set_ne (set buf o (v % 256)) (o + 1) o (v / 256 % 256) 0 (omega arith),
  get_or-set_self buf o (v % 256) 0 (omega arith),
  get_or-set_self (set buf o (v % 256)) (o + 1) (v / 256 % 256) 0
      (omega (arith, length-set buf o (v % 256))),
)

pub get_or-write16_ne :
    (buf : List ℕ) (o v k : ℕ) → k ≢ o → k ≢ o + 1 → get_or (write16 buf o v) k 0 ≡ get_or buf k 0
unfolding write16
get_or-write16_ne buf o v k a b =
    get_or-set_ne (set buf o (v % 256)) (o + 1) k _ 0 (omega arith)
    ∙ get_or-set_ne buf o k _ 0 (omega arith)

-- Words that do not overlap.
pub read16-write16_ne :
    (buf : List ℕ) (o v p : ℕ)
    → p ≢ o
    → p ≢ o + 1
    → p + 1 ≢ o
    → read16 (write16 buf o v) p ≡ read16 buf p
unfolding read16
read16-write16_ne buf o v p a b c =
    omega
      (arith, get_or-write16_ne buf o v p a b, get_or-write16_ne buf o v (p + 1) c (omega arith))
