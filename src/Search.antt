-- ===== src/Search.antt =====
-- ec/Search.c: SearchFileContains, with ViewerFindBytes of ec/Viewer.c. The reads of the file are the list of
-- their results; a read that gives no bytes, or the end of the list, is the end of the file. The bytes in
-- front of the buffer that are carried over are a list.
pub mod Occurs
pub mod Chunks
mod Runs
use ntfs_efi.Prelude.{
  ℕ, zero, suc, ◌+◌, ◌-◌, Bool, true, false, ◌&&◌, ◌||◌, Option, none, some, List, [], ◌∷◌, ◌++◌,
  length, drop, ltb, leb, ◌==◌, if◌then◌else◌,
}
use ntfs_efi.Prelude.Status.{Result, ok, err}

pub viewer_upper : ℕ → ℕ
viewer_upper b = if leb 97 b && leb b 122 then b - 32 else b

-- The comparison of ViewerFindBytes at one place.
pub same_bytes : List ℕ → List ℕ → Bool
same_bytes [] rest = true
same_bytes (n ∷ needle) [] = false
same_bytes (n ∷ needle) (b ∷ rest) = viewer_upper b == viewer_upper n && same_bytes needle rest

-- The loop of ViewerFindBytes, from place i on.
pub find_bytes_loop : List ℕ → List ℕ → ℕ → Option ℕ
find_bytes_loop needle [] i = if length needle == 0 then some i else none
find_bytes_loop needle (b ∷ rest) i =
    let later = find_bytes_loop needle rest (i + 1) in
    if ltb (length (b ∷ rest)) (length needle)
    then none
    else if same_bytes needle (b ∷ rest)
    then some i
    else later

-- ViewerFindBytes
pub find_bytes : List ℕ → List ℕ → ℕ → Option ℕ
find_bytes bytes needle from =
    if length needle == 0 || ltb (length bytes) (length needle)
    then none
    else find_bytes_loop needle (drop from bytes) from

-- The bytes that are carried over to the next read.
pub carried : List ℕ → List ℕ → List ℕ
carried needle filled = drop (length filled - (length needle - 1)) filled

-- The results of SearchFileContains: the needle was found, and *ReadFailed.
pub record SearchOutcome : Type 0 where
  pub found : Bool
  pub read_failed : Bool

abbrev pub outcome : Bool → Bool → SearchOutcome
outcome f r = record { found = f; read_failed = r }

-- The loop of SearchFileContains.
pub search_loop : List ℕ → List ℕ → List (Result (List ℕ)) → SearchOutcome
search_loop needle carry [] = outcome false false
search_loop needle carry (err e ∷ reads) = outcome false true
search_loop needle carry (ok piece ∷ reads) =
    let rest = search_loop needle (carried needle (carry ++ piece)) reads in
    if length piece == 0
    then outcome false false
    else elim (find_bytes (carry ++ piece) needle 0) [ some i ↦ outcome true false | none ↦ rest ]

-- SearchFileContains, from the point where the file is open.
pub search_file_contains : List ℕ → List (Result (List ℕ)) → SearchOutcome
search_file_contains needle reads = search_loop needle [] reads
