-- ===== src/Search/Chunks.antt =====
-- A search in pieces against a search in the whole.
use ntfs_efi.Prelude.{
  ℕ, ◌+◌, ◌-◌, ◌≤◌, ◌<◌, ◌≡◌, ◌↔◌, refl, sym, ap, ap₂, ◌∙◌, true, false, List, [], ◌∷◌, ◌++◌,
  length, take, drop, arith, ◌==◌, Option-cases, ◌⊎◌, inl, inr, length-append, length-take,
  length-drop, take-append-drop, append_assoc, append-nil, dec_lt,
}
use ntfs_efi.Prelude.Status.{Result, ok}
use ntfs_efi.Search.{find_bytes, carried, search_loop, search_file_contains}
use ntfs_efi.Search.Occurs.{Occurs, middle_length, find_bytes_sound, find_bytes_complete}

-- The content of a file that is read in these pieces, and the results of the reads.
abbrev pub content : List (List ℕ) → List ℕ
content [] = []
content (p ∷ ps) = p ++ content ps

abbrev pub good_reads : List (List ℕ) → List (Result (List ℕ))
good_reads [] = []
good_reads (p ∷ ps) = ok p ∷ good_reads ps

abbrev pub AreFilled : List (List ℕ) → Type 0
AreFilled [] = Unit {0}
AreFilled (p ∷ ps) = (0 < length p) × AreFilled ps

-- Two ways to cut a list, of which the second is cut later.
split_later :
    (a b c d : List ℕ)
    → a ++ b ≡ c ++ d
    → length a ≤ length c
    → (m : List ℕ) × (c ≡ a ++ m) × (b ≡ m ++ d)
split_later [] b c d e h = (c, refl, e)
split_later (x ∷ a) b [] d e h = absurd (omega arith)
split_later (x ∷ a) b (y ∷ c) d e h =
    let (m, p, q) = split_later a b c d (cc) (omega arith) in
    let same : x ≡ y = cc in (m, ap₂ (λ z l. z ∷ l) (sym same) p, q)

append-Occurs : (needle front bytes : List ℕ) → Occurs needle bytes → Occurs needle (front ++ bytes)
append-Occurs needle front bytes w = record {
  front = front ++ w.front;
  middle = w.middle;
  back = w.back;
  joined = ap (λ l. front ++ l) w.joined ∙ sym (append_assoc front w.front (w.middle ++ w.back));
  alike = w.alike;
}

Occurs-append : (needle bytes back : List ℕ) → Occurs needle bytes → Occurs needle (bytes ++ back)
Occurs-append needle bytes back w = record {
  front = w.front;
  middle = w.middle;
  back = w.back ++ back;
  joined =
      ap (λ l. l ++ back) w.joined
      ∙ append_assoc w.front (w.middle ++ w.back) back
      ∙ ap (λ l. w.front ++ l) (append_assoc w.middle w.back back);
  alike = w.alike;
}

-- An occurrence in what was read and the next piece, where there is none in what was read: it lies in what is
-- carried over and the next piece.
straddle :
    (needle gone carry piece : List ℕ)
    → (Occurs needle (gone ++ carry) → ⊥)
    → (length gone ≡ 0) ⊎ (length needle ≤ length carry + 1)
    → Occurs needle ((gone ++ carry) ++ piece)
    → Occurs needle (carry ++ piece)
straddle needle gone carry piece fresh long w = elim (dec_lt (length w.front) (length gone)) [
  | yes early ↦
      let size = middle_length w.middle needle w.alike in
      let e : (w.front ++ w.middle) ++ w.back ≡ (gone ++ carry) ++ piece =
        append_assoc w.front w.middle w.back ∙ sym w.joined in
      let (m, p, q) =
        split_later (w.front ++ w.middle) w.back (gone ++ carry) piece e
          (omega (arith, long, length-append w.front w.middle, length-append gone carry)) in
      absurd (
        fresh (record {
          front = w.front;
          middle = w.middle;
          back = m;
          joined = p ∙ append_assoc w.front w.middle m;
          alike = w.alike;
        }))
  | no late ↦
      let (m, p, q) =
        split_later gone (carry ++ piece) w.front (w.middle ++ w.back)
          (sym (append_assoc gone carry piece) ∙ w.joined) (omega arith) in
      record { front = m; middle = w.middle; back = w.back; joined = q; alike = w.alike }
]

-- What is carried over has one byte less than the needle, or is all that was read.
kept_length :
    (needle gone carry piece : List ℕ)
    → (length gone ≡ 0) ⊎ (length needle ≤ length carry + 1)
    → (length (gone ++ take (length (carry ++ piece) - (length needle - 1)) (carry ++ piece)) ≡ 0)
      ⊎ (length needle
          ≤ length (drop (length (carry ++ piece) - (length needle - 1)) (carry ++ piece)) + 1)
kept_length needle gone carry piece long =
    let k = length (carry ++ piece) - (length needle - 1) in
    elim (dec_lt (length (drop k (carry ++ piece)) + 1) (length needle)) [
      | yes short ↦ inl (
          omega (
            arith,
            long,
            length-append gone (take k (carry ++ piece)),
            length-append carry piece,
            length-take k (carry ++ piece),
            length-drop k (carry ++ piece),
          ))
      | no full ↦ inr (omega arith)
    ]

nowhere : (needle : List ℕ) → 0 < length needle → Occurs needle [] → ⊥
nowhere needle n w = omega (
  arith,
  ap length w.joined,
  length-append w.front (w.middle ++ w.back),
  length-append w.middle w.back,
  middle_length w.middle needle w.alike,
)

-- What the loop keeps: the bytes that were read, in which there is no occurrence, end with what is carried over.
search_loop-Occurs :
    (needle gone carry : List ℕ) (ps : List (List ℕ))
    → 0 < length needle
    → AreFilled ps
    → (Occurs needle (gone ++ carry) → ⊥)
    → (length gone ≡ 0) ⊎ (length needle ≤ length carry + 1)
    → ((search_loop needle carry (good_reads ps)).found ≡ true)
      ↔ Occurs needle ((gone ++ carry) ++ content ps)
unfolding search_loop carried
search_loop-Occurs needle gone carry [] n f fresh long =
    (λ h. cc, λ w. absurd (fresh (rw (append-nil (gone ++ carry)) at w)))
search_loop-Occurs needle gone carry (p ∷ ps) n (filled, fs) fresh long =
    let some_bytes : (length p == 0) ≡ false = ground arith in
    let regroup = append_assoc (gone ++ carry) p (content ps) in
    elim (Option-cases (find_bytes (carry ++ p) needle 0)) [
      | inr (k, hit) ↦ (
        λ h. rw (← regroup) (
            Occurs-append needle ((gone ++ carry) ++ p) (content ps) (
              rw (append_assoc gone carry p) (
                append-Occurs needle gone (carry ++ p)
                  (find_bytes_sound (carry ++ p) needle k hit)))),
        λ w. rw (search_loop, some_bytes, hit) refl,
      )
      | inl miss ↦
          let k = length (carry ++ p) - (length needle - 1) in
          let read : (gone ++ take k (carry ++ p)) ++ drop k (carry ++ p) ≡ (gone ++ carry) ++ p =
            append_assoc gone (take k (carry ++ p)) (drop k (carry ++ p))
            ∙ ap (λ l. gone ++ l) (take-append-drop k (carry ++ p))
            ∙ sym (append_assoc gone carry p) in
          let longer : (length (gone ++ take k (carry ++ p)) ≡ 0)
              ⊎ (length needle ≤ length (drop k (carry ++ p)) + 1) =
            kept_length needle gone carry p long in
          let (sound, complete) =
            search_loop-Occurs needle (gone ++ take k (carry ++ p)) (drop k (carry ++ p)) ps n fs
              (λ w.
                find_bytes_complete (carry ++ p) needle n miss
                  (straddle needle gone carry p fresh long (rw read at w)))
              longer in
          (
            λ h.
                rw (← regroup)
                  (rw read at (sound (rw (search_loop, some_bytes, miss, carried) at h))),
            λ w.
                rw (search_loop, some_bytes, miss, carried)
                  (complete (rw read (rw (← regroup) at w))),
          )
    ]

-- For a needle that is not empty and a file that is read without an error, in pieces of any sizes but 0:
-- SearchFileContains says that it is found exactly if the whole content has it, case aside, also where it
-- lies across the pieces.
pub search_file_contains-Occurs :
    (needle : List ℕ) (ps : List (List ℕ))
    → 0 < length needle
    → AreFilled ps
    → ((search_file_contains needle (good_reads ps)).found ≡ true) ↔ Occurs needle (content ps)
unfolding search_file_contains
search_file_contains-Occurs needle ps n f =
    search_loop-Occurs needle [] [] ps n f (nowhere needle n) (inl refl)
