-- ===== src/Lznt1/Bounds.antt =====
-- The output bound of the decoder on any input.
use ntfs_efi.Prelude.{
  ℕ, zero, suc, ◌+◌, ◌-◌, ◌*◌, ◌/◌, ◌%◌, ◌^◌, ◌<◌, ◌≤◌, ◌≡◌, refl, Bool, true, false, ◌||◌, some,
  List, [], ◌∷◌, ◌++◌, length, take, drop, replicate, length-append, length-take, length-replicate,
  ltb, leb, ◌==◌, if◌then◌else◌, arith, Bool-cases, Option-cases, ◌⊎◌, inl, inr,
}
use ntfs_efi.Lznt1.{
  Decoded, done, compromised, fault, clip_length, flag_set, copy_token, literal_byte, item,
  next_flags, chunk_loop, decompress_chunk, get_length, get_displacement,
  max_uncompressed_chunk_size, chunk_header, chunk_size, chunk_cap, stored_chunk, one_chunk,
  zero_gap, buffer_loop, decompress_buffer,
}
use ntfs_efi.Lznt1.Format.{raise_format_lem, length-copy_match}

-- No read outside the table of displacements, and at most `cap` bytes of output.
abbrev pub Fits : ℕ → Decoded → Type 0
Fits cap (done out) = length out ≤ cap
Fits cap (compromised out) = length out ≤ cap
Fits cap fault = ⊥

copy_token_fits :
    (cap format : ℕ) (out inp out' rest : List ℕ)
    → length out < cap
    → copy_token cap format out inp ≡ some (out', rest)
    → length out' ≤ cap
unfolding copy_token clip_length
copy_token_fits cap format out [] out' rest h e = cc
copy_token_fits cap format out (b ∷ []) out' rest h e = cc
copy_token_fits cap format out (b ∷ c ∷ inp) out' rest h e = ground (
  arith,
  length-copy_match
      (if leb cap (length out + get_length format (b + c * 256))
        then cap - length out
        else get_length format (b + c * 256))
      (get_displacement format (b + c * 256)) out,
)

item_fits :
    (cap : ℕ) (flag : Bool) (format : ℕ) (out inp out' rest : List ℕ)
    → length out < cap
    → item cap flag format out inp ≡ some (out', rest)
    → length out' ≤ cap
unfolding item literal_byte
item_fits cap true format out inp out' rest h e = copy_token_fits cap format out inp out' rest h e
item_fits cap false format out [] out' rest h e = cc
item_fits cap false format out (b ∷ inp) out' rest h e = ground (arith, length-append out (b ∷ []))

chunk_loop-Fits :
    (fuel cap flags bit format : ℕ) (out inp : List ℕ)
    → cap ≤ 4096
    → format < 9
    → length out ≤ cap
    → Fits cap (chunk_loop fuel cap flags bit format out inp)
unfolding chunk_loop
chunk_loop-Fits zero cap flags bit format out inp small f h = h
chunk_loop-Fits (suc fuel) cap flags bit format out [] small f h = h
chunk_loop-Fits (suc fuel) cap flags bit format out (b ∷ inp) small f h =
    elim (Bool-cases (leb cap (length out))) [
      | inl full ↦ rw (chunk_loop, full) h
      | inr room ↦
          let (g, e, g_low) = raise_format_lem format (length out) f (omega arith) in
          elim (Option-cases (item cap (flag_set flags bit) g out (b ∷ inp))) [
            | inl bad ↦ rw (chunk_loop, room, e, bad) h
            | inr ((out', rest), good) ↦
                let h' : length out' ≤ cap =
                  item_fits cap (flag_set flags bit) g out (b ∷ inp) out' rest (ground arith)
                    good in
                elim (Option-cases (next_flags flags bit rest)) [
                  | inl end ↦ rw (chunk_loop, room, e, good, end) h'
                  | inr ((flags', bit', rest'), next) ↦
                      rw (chunk_loop, room, e, good, next)
                        (chunk_loop-Fits fuel cap flags' bit' g out' rest' small g_low h')
                ]
          ]
    ]

-- Whatever the compressed bytes are, the decoder of a chunk, for an output buffer of at most 4096 bytes,
-- ends without a read outside its table and writes no byte past the end of the buffer.
pub decompress_chunk-Fits :
    (cap : ℕ) (inp : List ℕ) → cap ≤ 4096 → Fits cap (decompress_chunk cap inp)
unfolding decompress_chunk
decompress_chunk-Fits cap [] small = omega arith
decompress_chunk-Fits cap (flags ∷ inp) small =
    chunk_loop-Fits (length inp) cap flags 0 0 [] inp small (omega arith) (omega arith)

cap_small : (cap n : ℕ) → (chunk_cap cap n ≤ 4096)
unfolding chunk_cap
cap_small cap n = omega arith

one_chunk-Fits :
    (cap header : ℕ) (out p : List ℕ)
    → Fits (chunk_cap cap (length out)) (one_chunk cap header out p)
unfolding one_chunk stored_chunk
one_chunk-Fits cap header out p = elim (Bool-cases (ltb (length p) (chunk_size header))) [
  | inl short ↦ rw short (omega arith)
  | inr whole ↦ elim (Bool-cases (header / 2 ^ 15 % 2 == 1)) [
    | inl packed ↦
        rw (whole, packed)
          (decompress_chunk-Fits (chunk_cap cap (length out))
            (take (chunk_size header - 2) (drop 2 p)) (cap_small cap (length out)))
    | inr stored ↦ elim (Bool-cases (ltb (length p) (2 + chunk_cap cap (length out)))) [
      | inl bad ↦ rw (whole, stored, bad) (omega arith)
      | inr good ↦
          rw (whole, stored, good)
            (omega (arith, length-take (chunk_cap cap (length out)) (drop 2 p)))
    ]
  ]
]

Decoded-cases :
    (d : Decoded)
    → ((q : List ℕ) × (d ≡ done q)) ⊎ ((q : List ℕ) × (d ≡ compromised q)) ⊎ (d ≡ fault)
Decoded-cases (done q) = inl (q, refl)
Decoded-cases (compromised q) = inr (inl (q, refl))
Decoded-cases fault = inr (inr refl)

-- The zeros behind a short chunk do not fill the buffer.
zero_gap-Fits :
    (cap n : ℕ) (out out' : List ℕ)
    → length out ≤ cap
    → zero_gap cap n out ≡ some out'
    → length out' ≤ cap
unfolding zero_gap
zero_gap-Fits cap n out out' h e = ground (
  arith,
  length-append out (replicate (max_uncompressed_chunk_size - n) 0),
  length-replicate {A = ℕ} (max_uncompressed_chunk_size - n) 0,
)

chunk_room :
    (cap header : ℕ) (out p q : List ℕ)
    → length out ≤ cap
    → Fits (chunk_cap cap (length out)) (done q)
    → length (out ++ q) ≤ cap
unfolding chunk_cap
chunk_room cap header out p q h f = omega (arith, f, length-append out q)

buffer_loop-Fits :
    (fuel cap : ℕ) (out p : List ℕ) → length out ≤ cap → Fits cap (buffer_loop fuel cap out p)
unfolding buffer_loop
buffer_loop-Fits zero cap out p h = h
buffer_loop-Fits (suc fuel) cap out p h =
    elim (Decoded-cases (one_chunk cap (chunk_header p) out p)) [
      | inl (q, good) ↦
          let f : Fits (chunk_cap cap (length out)) (done q) =
            rw good at (one_chunk-Fits cap (chunk_header p) out p) in
          let h' : length (out ++ q) ≤ cap = chunk_room cap (chunk_header p) out p q h f in
          let rest : List ℕ = drop (chunk_size (chunk_header p)) p in
          elim (Bool-cases (length (out ++ q) == cap || ltb (length rest) 2)) [
            | inl end ↦ rw (buffer_loop, good, end) h'
            | inr more ↦ elim (Bool-cases (chunk_header rest == 0)) [
              | inl sentinel ↦ rw (buffer_loop, good, more, sentinel) h'
              | inr next ↦ elim (Option-cases (zero_gap cap (length q) (out ++ q))) [
                | inl full ↦ rw (buffer_loop, good, more, next, full) h'
                | inr (out', gap) ↦
                    rw (buffer_loop, good, more, next, gap)
                      (buffer_loop-Fits fuel cap out' rest
                        (zero_gap-Fits cap (length q) (out ++ q) out' h' gap))
              ]
            ]
          ]
      | inr (inl (q, bad)) ↦
          let f : Fits (chunk_cap cap (length out)) (compromised q) =
            rw bad at (one_chunk-Fits cap (chunk_header p) out p) in
          rw (buffer_loop, bad) (chunk_room cap (chunk_header p) out p q h f)
      | inr (inr bad) ↦ absurd (rw bad at (one_chunk-Fits cap (chunk_header p) out p))
    ]

-- Whatever the compressed bytes are and however large the output buffer is, the decoder of a compression
-- unit ends without a read outside the table of displacements and without a byte written past the end of
-- the output buffer, on success and on an error alike.
pub decompress_buffer-Fits : (cap : ℕ) (p : List ℕ) → Fits cap (decompress_buffer cap p)
unfolding decompress_buffer
decompress_buffer-Fits cap p = elim (Bool-cases (ltb (length p) 2)) [
  | inl short ↦ rw short (omega arith)
  | inr whole ↦ rw whole (buffer_loop-Fits (length p) cap [] p (omega arith))
]
