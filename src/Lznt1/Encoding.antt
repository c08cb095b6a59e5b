-- ===== src/Lznt1/Encoding.antt =====
-- The bytes of the encoder are bytes.
use native.Mathlib.Nat.{two-pow-succ, mul-suc, mul-le-mul_left}
use ntfs_efi.Prelude.{
  ℕ, zero, suc, ◌+◌, ◌-◌, ◌*◌, ◌^◌, ◌<◌, ◌≤◌, ◌≡◌, ap, sym, ◌∙◌, List, [], ◌∷◌, ◌++◌, length, arith,
  IsBytes, Bool-cases, inl, inr,
}
use ntfs_efi.Lznt1.Tokens.{
  Token, literal, match_of, expand, displacement_bits, displacement_room, token_value, token_bytes,
  is_match, flag_byte, encode_from, encode_chunk, IsToken, AreTokens,
}

append-IsBytes : (l m : List ℕ) → IsBytes l → IsBytes m → IsBytes (l ++ m)
append-IsBytes [] m h g = g
append-IsBytes (b ∷ l) m h g = (h.0, append-IsBytes l m h.1 g)

flag_byte_small : (k : ℕ) (ts : List Token) → flag_byte k ts < 2 ^ k
unfolding flag_byte
flag_byte_small zero ts = omega arith
flag_byte_small (suc k) [] = omega (arith, flag_byte_small k [], two-pow-succ k)
flag_byte_small (suc k) (t ∷ ts) = elim (Bool-cases (is_match t)) [
  | inl set ↦ rw set (omega (arith, flag_byte_small k ts, two-pow-succ k))
  | inr clear ↦ rw clear (omega (arith, flag_byte_small k ts, two-pow-succ k))
]

bits_split : (n : ℕ) → 2 ^ (16 - displacement_bits n) * 2 ^ displacement_bits n ≡ 65536
unfolding displacement_bits
bits_split n = ground arith

-- A copy token has 16 bits.
token_value_small :
    (out : List ℕ) (len displacement : ℕ)
    → length out ≤ 4096
    → 1 ≤ displacement
    → displacement ≤ length out
    → 3 ≤ len
    → len < 2 ^ (16 - displacement_bits (length out)) + 3
    → token_value (length out) len displacement < 65536
unfolding token_value
token_value_small out len displacement small one back long fits =
    let p : ℕ = 2 ^ (16 - displacement_bits (length out)) in
    let q : ℕ = 2 ^ displacement_bits (length out) in
    let area : p * q ≡ 65536 = bits_split (length out) in
    let most : p * displacement ≤ p * q =
      mul-le-mul_left p (omega (arith, displacement_room (length out) small)) in
    let whole : suc (displacement - 1) ≡ displacement = omega arith in
    let last : p * (displacement - 1) + p ≡ p * displacement =
      sym (mul-suc p (displacement - 1)) ∙ ap (λ x. p * x) whole in
    omega arith

token_bytes-IsBytes :
    (cap : ℕ) (out : List ℕ) (t : Token)
    → cap ≤ 4096
    → IsToken cap out t
    → IsBytes (token_bytes (length out) t)
unfolding token_bytes
token_bytes-IsBytes cap out (literal b) small h = (h.0, tt)
token_bytes-IsBytes cap out (match_of len displacement) small (one, back, long, fits, room) = (
  omega arith,
  (omega (arith, token_value_small out len displacement (omega arith) one back long fits), tt),
)

encode_from-IsBytes :
    (k cap : ℕ) (out : List ℕ) (ts : List Token)
    → cap ≤ 4096
    → AreTokens cap out ts
    → IsBytes (encode_from k out ts)
unfolding encode_from
encode_from-IsBytes k cap out [] small h = tt
encode_from-IsBytes zero cap out (t ∷ ts) small h = (
  flag_byte_small 8 (t ∷ ts),
  append-IsBytes (token_bytes (length out) t) (encode_from 7 (expand out t) ts)
      (token_bytes-IsBytes cap out t small h.0)
      (encode_from-IsBytes 7 cap (expand out t) ts small h.1),
)
encode_from-IsBytes (suc k) cap out (t ∷ ts) small h =
    append-IsBytes (token_bytes (length out) t) (encode_from k (expand out t) ts)
      (token_bytes-IsBytes cap out t small h.0)
      (encode_from-IsBytes k cap (expand out t) ts small h.1)

pub encode_chunk-IsBytes :
    (cap : ℕ) (ts : List Token) → cap ≤ 4096 → AreTokens cap [] ts → IsBytes (encode_chunk ts)
unfolding encode_chunk
encode_chunk-IsBytes cap ts small h = encode_from-IsBytes 0 cap [] ts small h
