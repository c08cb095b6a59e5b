-- ===== src/Lznt1/Decode.antt =====
-- The decoder of a chunk on the tokens of the format.
use native.Mathlib.Nat.{div-div-eq-div-mul, two-pow-succ}
use ntfs_efi.Prelude.{
  ℕ, zero, suc, ◌+◌, ◌-◌, ◌*◌, ◌/◌, ◌%◌, ◌^◌, ◌<◌, ◌≤◌, ◌≡◌, refl, ap, sym, ◌∙◌, false, Option,
  none, some, List, [], ◌∷◌, ◌++◌, length, drop, leb, ◌==◌, arith, length-append, Bool-cases,
  Option-cases, inl, inr,
}
use ntfs_efi.Lznt1.{
  Decoded, done, max_displacement, raise_format, item, flag_set, next_flags, refill, chunk_loop,
  decompress_chunk,
}
use ntfs_efi.Lznt1.Format.{length-copy_match, raise_format_from}
use ntfs_efi.Lznt1.Tokens.{
  Token, literal, match_of, expand, expand_all, format_at, raise_format-format_at, token_bytes,
  is_match, flag_byte, encode_from, encode_chunk, IsToken, AreTokens, item-token_bytes,
}

-- The loop after an item, for the flags that follow.
abbrev resume : ℕ → ℕ → ℕ → List ℕ → Option (ℕ × ℕ × List ℕ) → Decoded
resume fuel cap f out none = done out
resume fuel cap f out (some (flags, bit, inp)) = chunk_loop fuel cap flags bit f out inp

chunk_loop_step :
    (fuel cap flags bit format f b : ℕ) (out inp out' rest : List ℕ)
    → length out < cap
    → raise_format (drop format max_displacement) format (length out) ≡ some f
    → item cap (flag_set flags bit) f out (b ∷ inp) ≡ some (out', rest)
    → chunk_loop (suc fuel) cap flags bit format out (b ∷ inp)
      ≡ resume fuel cap f out' (next_flags flags bit rest)
unfolding chunk_loop
chunk_loop_step fuel cap flags bit format f b out inp out' rest room e good =
    let unfilled : leb cap (length out) ≡ false = ground arith in
    elim (Option-cases (next_flags flags bit rest)) [
      | inl end ↦ rw (chunk_loop, unfilled, e, good, end) refl
      | inr (next, more) ↦ rw (chunk_loop, unfilled, e, good, more) refl
    ]

token_step :
    (fuel cap flags bit format : ℕ) (out rest : List ℕ) (t : Token)
    → IsToken cap out t
    → cap ≤ 4096
    → raise_format (drop format max_displacement) format (length out)
      ≡ some (format_at (length out))
    → flag_set flags bit ≡ is_match t
    → chunk_loop (suc fuel) cap flags bit format out (token_bytes (length out) t ++ rest)
      ≡ resume fuel cap (format_at (length out)) (expand out t) (next_flags flags bit rest)
unfolding token_bytes
token_step fuel cap flags bit format out rest (literal b) h small e flag =
    chunk_loop_step fuel cap flags bit format (format_at (length out)) b out rest
      (expand out (literal b)) rest (omega (arith, h.1)) e
      (rw flag (item-token_bytes cap out rest (literal b) h))
token_step fuel cap flags bit format out rest (match_of len d) h small e flag =
    let (one, back, long, fits, room) = h in
    chunk_loop_step fuel cap flags bit format (format_at (length out)) _ out _
      (expand out (match_of len d)) rest (omega arith) e
      (rw flag (item-token_bytes cap out rest (match_of len d) h))

-- Each token makes the output longer.
length-expand :
    (cap : ℕ) (out : List ℕ) (t : Token) → IsToken cap out t → length out ≤ length (expand out t)
unfolding expand
length-expand cap out (literal b) h = omega (arith, length-append out (b ∷ []))
length-expand cap out (match_of len d) h = omega (arith, length-copy_match len d out)

pub expand-Fits : (cap : ℕ) (out : List ℕ) (t : Token) → IsToken cap out t → length out < cap
expand-Fits cap out (literal b) h = omega (arith, h.1)
expand-Fits cap out (match_of len d) (one, back, long, fits, room) = omega arith

length-token_bytes : (f : ℕ) (t : Token) → 1 ≤ length (token_bytes f t)
unfolding token_bytes
length-token_bytes f (literal b) = omega arith
length-token_bytes f (match_of len d) = omega arith

pub pow2-suc : (k : ℕ) → 2 ^ (k + 1) ≡ 2 ^ k * 2
pow2-suc k = let e : k + 1 ≡ suc k = omega arith in rw e (omega (arith, two-pow-succ k))

-- One flag is used, the others move down.
flag_first :
    (k flags bit : ℕ) (t : Token) (ts : List Token)
    → flags / 2 ^ bit ≡ flag_byte (suc k) (t ∷ ts)
    → (flag_set flags bit ≡ is_match t) × (flags / 2 ^ (bit + 1) ≡ flag_byte k ts)
unfolding flag_byte flag_set
flag_first k flags bit t ts e =
    let down : flags / 2 ^ (bit + 1) ≡ flags / 2 ^ bit / 2 =
      ap (λ p. flags / p) (pow2-suc bit) ∙ sym (div-div-eq-div-mul flags (2 ^ bit) 2) in
    elim (Bool-cases (is_match t)) [
      | inl set ↦ (ground arith, ground arith)
      | inr clear ↦ (ground arith, ground arith)
    ]

same_group :
    (k flags : ℕ) (inp : List ℕ) → k < 7 → next_flags flags (6 - k) inp ≡ some (flags, 7 - k, inp)
unfolding next_flags
same_group k flags inp h =
    let e : (6 - k + 1) % 8 ≡ 7 - k = omega arith in
    let more : (7 - k == 0) ≡ false = ground arith in rw (e, more) refl

-- The search for the format of more output may start at `format`.
abbrev Reaches : ℕ → ℕ → Type 0
Reaches format n =
    (n' : ℕ)
    → n ≤ n'
    → raise_format (drop format max_displacement) format n' ≡ raise_format max_displacement 0 n'

expand-Reaches :
    (cap : ℕ) (out : List ℕ) (t : Token)
    → cap ≤ 4096
    → IsToken cap out t
    → Reaches (format_at (length out)) (length (expand out t))
expand-Reaches cap out t small h n le =
    raise_format_from (length out) n (format_at (length out))
      (raise_format-format_at (length out) (omega (arith, expand-Fits cap out t h)))
      (omega (arith, length-expand cap out t h))

after_token :
    (fuel k cap flags bit format : ℕ) (out : List ℕ) (t : Token) (ts : List Token)
    → IsToken cap out t
    → cap ≤ 4096
    → Reaches format (length out)
    → flag_set flags bit ≡ is_match t
    → chunk_loop (suc fuel) cap flags bit format out (encode_from (suc k) out (t ∷ ts))
      ≡ resume fuel cap
          (format_at (length out))
          (expand out t)
          (next_flags flags bit (encode_from k (expand out t) ts))
unfolding encode_from
after_token fuel k cap flags bit format out t ts h small from flag =
    token_step fuel cap flags bit format out (encode_from k (expand out t) ts) t h small
      (from (length out) (omega arith)
        ∙ raise_format-format_at (length out) (omega (arith, expand-Fits cap out t h)))
      flag

length-encode_from :
    (k : ℕ) (out : List ℕ) (t : Token) (ts : List Token)
    → length (encode_from k (expand out t) ts) < length (encode_from (suc k) out (t ∷ ts))
unfolding encode_from
length-encode_from k out t ts = omega (
  arith,
  length-append (token_bytes (length out) t) (encode_from k (expand out t) ts),
  length-token_bytes (length out) t,
)

chunk_loop-nil :
    (fuel cap flags bit format : ℕ) (out : List ℕ)
    → chunk_loop fuel cap flags bit format out [] ≡ done out
unfolding chunk_loop
chunk_loop-nil zero cap flags bit format out = refl
chunk_loop-nil (suc fuel) cap flags bit format out = refl

decode_items :
    (fuel k cap flags format : ℕ) (out : List ℕ) (ts : List Token)
    → k < 8
    → cap ≤ 4096
    → AreTokens cap out ts
    → flags / 2 ^ (7 - k) ≡ flag_byte (suc k) ts
    → Reaches format (length out)
    → length (encode_from (suc k) out ts) ≤ fuel
    → chunk_loop fuel cap flags (7 - k) format out (encode_from (suc k) out ts)
      ≡ done (expand_all out ts)
unfolding encode_from expand_all next_flags refill
decode_items fuel k cap flags format out [] hk small h e from enough =
    chunk_loop-nil fuel cap flags (7 - k) format out
decode_items zero k cap flags format out (t ∷ ts) hk small h e from enough =
    absurd (omega (arith, enough, length-encode_from k out t ts))
decode_items (suc fuel) zero cap flags format out (t ∷ []) hk small (h, hs) e from enough =
    after_token fuel 0 cap flags 7 format out t [] h small from (flag_first 0 flags 7 t [] e).0
decode_items (suc fuel) zero cap flags format out (t ∷ u ∷ ts) hk small (h, hs) e from enough =
    after_token fuel 0 cap flags 7 format out t (u ∷ ts) h small from
      (flag_first 0 flags 7 t (u ∷ ts) e).0
    ∙ decode_items fuel 7 cap (flag_byte 8 (u ∷ ts)) (format_at (length out)) (expand out t)
        (u ∷ ts) (omega arith) small hs (omega arith) (expand-Reaches cap out t small h)
        (omega (arith, enough, length-encode_from 0 out t (u ∷ ts)))
decode_items (suc fuel) (suc k) cap flags format out (t ∷ ts) hk small (h, hs) e from enough =
    let b : 7 - suc k ≡ 6 - k = omega arith in
    let up : 6 - k + 1 ≡ 7 - k = omega arith in
    let (first, later) = flag_first (suc k) flags (6 - k) t ts (rw b at e) in
    rw b (
      after_token fuel (suc k) cap flags (6 - k) format out t ts h small from first
      ∙ rw (same_group k flags (encode_from (suc k) (expand out t) ts) (omega arith)) (
          decode_items fuel k cap flags (format_at (length out)) (expand out t) ts (omega arith)
            small hs (rw up at later) (expand-Reaches cap out t small h)
            (omega (arith, enough, length-encode_from (suc k) out t ts))))

pub decode_chunk :
    (cap : ℕ) (ts : List Token)
    → cap ≤ 4096
    → AreTokens cap [] ts
    → decompress_chunk cap (encode_chunk ts) ≡ done (expand_all [] ts)
unfolding decompress_chunk encode_chunk encode_from expand_all
decode_chunk cap [] small h = refl
decode_chunk cap (t ∷ ts) small h =
    decode_items (length (encode_from 8 [] (t ∷ ts))) 7 cap (flag_byte 8 (t ∷ ts)) 0 [] (t ∷ ts)
      (omega arith) small h (omega arith) (λ n le. refl) (omega arith)
