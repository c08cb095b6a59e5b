-- ===== src/Lznt1/Tokens.antt =====
-- The token format of a chunk, written as an encoder.
use native.Mathlib.Nat.{
  add-mul-div_left, add-mul-mod_self_left, div-eq_of_lt, mod-eq_of_lt, two-pow-succ,
}
use ntfs_efi.Prelude.{
  ℕ, zero, suc, ◌+◌, ◌-◌, ◌*◌, ◌/◌, ◌%◌, ◌^◌, ◌<◌, ◌≤◌, ◌≡◌, refl, Bool, true, false, some, List,
  [], ◌∷◌, ◌++◌, length, ltb, if◌then◌else◌, arith,
}
use ntfs_efi.Lznt1.{
  max_displacement, raise_format, copy_match, length_bits, get_length, get_displacement,
  clip_length, copy_token, literal_byte, item,
}

pub data Token : Type 0 where
  literal : ℕ → Token
  match_of : ℕ → ℕ → Token

-- The bytes after a token: a match of a length and a displacement repeats the output.
unfoldable pub expand : List ℕ → Token → List ℕ
expand out (literal b) = out ++ b ∷ []
expand out (match_of len displacement) = copy_match len displacement out

unfoldable pub expand_all : List ℕ → List Token → List ℕ
expand_all out [] = out
expand_all out (t ∷ ts) = expand_all (expand out t) ts

-- The bits of a copy token's displacement after n bytes of output: as many as reach back over all of
-- them, and 4 at least. They are the high bits of the token; the length has the rest of the 16.
unfoldable pub displacement_bits : ℕ → ℕ
displacement_bits n =
    if ltb 16 n
    then (if ltb 32 n
        then (if ltb 64 n
            then (if ltb 128 n
                then (if ltb 256 n
                    then (if ltb 512 n
                        then (if ltb 1024 n then (if ltb 2048 n then 12 else 11) else 10)
                        else 9)
                    else 8)
                else 7)
            else 6)
        else 5)
    else 4

-- The index of the decoder's format that n bytes of output call for.
unfoldable pub format_at : ℕ → ℕ
format_at n = displacement_bits n - 4

pub raise_format-format_at :
    (n : ℕ) → n ≤ 4096 → raise_format max_displacement 0 n ≡ some (format_at n)
unfolding raise_format max_displacement format_at displacement_bits
raise_format-format_at n h = ground arith

-- The displacements of a token reach the first byte of a chunk.
pub displacement_room : (n : ℕ) → n ≤ 4096 → n ≤ 2 ^ displacement_bits n
unfolding displacement_bits
displacement_room n h = ground arith

-- The decoder's split of a token is that of the format.
length_bits-format_at : (n : ℕ) → length_bits (format_at n) ≡ 16 - displacement_bits n
unfolding length_bits format_at displacement_bits
length_bits-format_at n = ground arith

-- The 16 bits of a copy token after n bytes of output.
unfoldable pub token_value : ℕ → ℕ → ℕ → ℕ
token_value n len displacement = (len - 3) + 2 ^ (16 - displacement_bits n) * (displacement - 1)

unfoldable pub token_bytes : ℕ → Token → List ℕ
token_bytes n (literal b) = b ∷ []
token_bytes n (match_of len displacement) =
    token_value n len displacement % 256 ∷ token_value n len displacement / 256 ∷ []

unfoldable pub is_match : Token → Bool
is_match (literal b) = false
is_match (match_of len displacement) = true

-- The flags of up to k tokens, the first in the lowest bit.
unfoldable pub flag_byte : ℕ → List Token → ℕ
flag_byte zero ts = 0
flag_byte (suc k) [] = 0
flag_byte (suc k) (t ∷ ts) = (if is_match t then 1 else 0) + 2 * flag_byte k ts

-- The bytes of the tokens that follow `out`, where the last flag byte has k bits left.
unfoldable pub encode_from : ℕ → List ℕ → List Token → List ℕ
encode_from k out [] = []
encode_from zero out (t ∷ ts) =
    flag_byte 8 (t ∷ ts) ∷ token_bytes (length out) t ++ encode_from 7 (expand out t) ts
encode_from (suc k) out (t ∷ ts) = token_bytes (length out) t ++ encode_from k (expand out t) ts

unfoldable pub encode_chunk : List Token → List ℕ
encode_chunk ts = encode_from 0 [] ts

-- The tokens that the format can express after `out`, with a decoded size of at most `cap`.
abbrev pub IsToken : ℕ → List ℕ → Token → Type 0
IsToken cap out (literal b) = (b < 256) × (length out + 1 ≤ cap)
IsToken cap out (match_of len displacement) =
    (1 ≤ displacement)
    × (displacement ≤ length out)
    × (3 ≤ len)
    × (len < 2 ^ (16 - displacement_bits (length out)) + 3)
    × (length out + len ≤ cap)

abbrev pub AreTokens : ℕ → List ℕ → List Token → Type 0
AreTokens cap out [] = Unit {0}
AreTokens cap out (t ∷ ts) = IsToken cap out t × AreTokens cap (expand out t) ts

pub pow2_pos : (k : ℕ) → 0 < 2 ^ k
pow2_pos zero = omega arith
pow2_pos (suc k) = omega (arith, pow2_pos k, two-pow-succ k)

module _ (n len displacement : ℕ) (long : 3 ≤ len)
    (fits : len < 2 ^ (16 - displacement_bits n) + 3) where
  get_length-token_value : get_length (format_at n) (token_value n len displacement) ≡ len
  unfolding get_length token_value
  get_length-token_value = rw (length_bits-format_at n) (
      omega (
        arith,
        add-mul-mod_self_left (len - 3) (2 ^ (16 - displacement_bits n)) (displacement - 1),
        mod-eq_of_lt {n = len - 3} {m = 2 ^ (16 - displacement_bits n)} (omega arith),
      ))

  get_displacement-token_value :
      1 ≤ displacement
      → get_displacement (format_at n) (token_value n len displacement) ≡ displacement
  unfolding get_displacement token_value
  get_displacement-token_value one = rw (length_bits-format_at n) (
      omega (
        arith,
        add-mul-div_left (len - 3) (displacement - 1) {y = 2 ^ (16 - displacement_bits n)}
            (pow2_pos (16 - displacement_bits n)),
        div-eq_of_lt {n = len - 3} {m = 2 ^ (16 - displacement_bits n)} (omega arith),
      ))

clip_length_whole : (cap n len : ℕ) → n + len ≤ cap → clip_length cap n len ≡ len
unfolding clip_length
clip_length_whole cap n len h = ground arith

-- A copy token of the format is read back as its match.
pub item-token_bytes :
    (cap : ℕ) (out rest : List ℕ) (t : Token)
    → IsToken cap out t
    → item cap (is_match t) (format_at (length out)) out (token_bytes (length out) t ++ rest)
      ≡ some (expand out t, rest)
unfolding item literal_byte token_bytes is_match copy_token expand
item-token_bytes cap out rest (literal b) h = refl
item-token_bytes cap out rest (match_of len displacement) (one, back, long, fits, room) =
    let v : ℕ = token_value (length out) len displacement in
    let word : v % 256 + v / 256 * 256 ≡ v = omega arith in
    let inside : ltb (length out) displacement ≡ false = ground arith in
    let whole : clip_length cap (length out) len ≡ len =
      clip_length_whole cap (length out) len room in
    simp (
      word,
      get_length-token_value (length out) len displacement long fits,
      get_displacement-token_value (length out) len displacement long fits one,
      whole,
      inside,
    )
