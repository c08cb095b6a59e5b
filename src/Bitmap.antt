-- ===== src/Bitmap.antt =====
-- src/ntfs_bitmap.c: the scans of $Bitmap and of the $MFT bitmap. A bitmap buffer is the list of its
-- bytes; bit b is bit b % 8 of byte b / 8, and 1 is allocated.
pub mod Skip
pub mod Scanned
pub mod Scan
pub mod FirstFree
mod Runs
use ntfs_efi.Prelude.{
  ℕ, zero, suc, ◌+◌, ◌-◌, ◌*◌, ◌/◌, ◌%◌, ◌^◌, ◌<◌, Bool, true, false, ◌&&◌, Option, none, some,
  List, length, get_or, ltb, leb, ◌==◌, if◌then◌else◌,
}

-- `(BmBuf[Bit / 8] >> (Bit % 8)) & 1`
unfoldable pub is_used : List ℕ → ℕ → Bool
is_used buf bit = get_or buf (bit / 8) 0 / 2 ^ (bit % 8) % 2 == 1

unfoldable pub is_full_byte : List ℕ → ℕ → Bool
is_full_byte buf k = get_or buf k 0 == 0xff

-- Eight bytes in a row from the one that holds the bit.
unfoldable pub is_full_word : List ℕ → ℕ → Bool
is_full_word buf bit =
    is_full_byte buf (bit / 8)
    && (is_full_byte buf (bit / 8 + 1)
        && (is_full_byte buf (bit / 8 + 2)
            && (is_full_byte buf (bit / 8 + 3)
                && (is_full_byte buf (bit / 8 + 4)
                    && (is_full_byte buf (bit / 8 + 5)
                        && (is_full_byte buf (bit / 8 + 6) && is_full_byte buf (bit / 8 + 7)))))))

-- `while (Bit + 64 <= ToBit && <word of ones>) Bit += 64;` on fuel
unfoldable pub skip_words : ℕ → List ℕ → ℕ → ℕ → ℕ
skip_words zero buf to_bit bit = bit
skip_words (suc fuel) buf to_bit bit =
    let next = skip_words fuel buf to_bit (bit + 64) in
    if leb (bit + 64) to_bit && is_full_word buf bit then next else bit

-- `while (Bit + 8 <= ToBit && BmBuf[Bit / 8] == 0xFF) Bit += 8;` on fuel
unfoldable pub skip_bytes : ℕ → List ℕ → ℕ → ℕ → ℕ
skip_bytes zero buf to_bit bit = bit
skip_bytes (suc fuel) buf to_bit bit =
    let next = skip_bytes fuel buf to_bit (bit + 8) in
    if leb (bit + 8) to_bit && is_full_byte buf (bit / 8) then next else bit

-- Both loops, one after the other. A round of either passes at least 8 bits.
unfoldable pub skip_full : List ℕ → ℕ → ℕ → ℕ
skip_full buf to_bit bit = skip_bytes to_bit buf to_bit (skip_words to_bit buf to_bit bit)

-- `(UINT64)-1`: no run is open.
abbrev pub no_run : ℕ
no_run = 2 ^ 64 - 1

-- The variables of NtfsScanBitmapRange.
pub record ScanState : Type 0 where
  pub bit : ℕ
  pub run_start : ℕ
  pub run_len : ℕ
  pub best_start : ℕ
  pub best_len : ℕ

-- The bit at hand is free: it extends the run.
unfoldable pub extend_run : ScanState → ScanState
extend_run s = record s {
  run_start = if s.run_start == no_run then s.bit else s.run_start;
  run_len = s.run_len + 1;
}

-- `if (RunLen > BestLen) { BestStart = RunStart; BestLen = RunLen; }`
unfoldable pub keep_best : ScanState → ScanState
keep_best s =
    if ltb s.best_len s.run_len
    then record s { best_start = s.run_start; best_len = s.run_len }
    else s

-- A used bit ends the run.
unfoldable pub end_run : ScanState → ScanState
end_run s = record (keep_best s) { run_start = no_run; run_len = 0; bit = s.bit + 1 }

-- The run is long enough: it is the best, and the loop breaks.
unfoldable pub take_run : ScanState → ScanState
take_run s = record s { best_start = s.run_start; best_len = s.run_len }

unfoldable pub advance : ScanState → ScanState
advance s = record s { bit = s.bit + 1 }

-- The fast skip at the head of the loop's body.
unfoldable pub skip_step : List ℕ → ℕ → ScanState → ScanState
skip_step buf to_bit s =
    if s.run_len == 0 && s.bit % 8 == 0 then record s { bit = skip_full buf to_bit s.bit } else s

-- The loop of NtfsScanBitmapRange. Each round passes a bit, so ToBit - FromBit rounds are enough.

unfoldable pub scan_loop : ℕ → List ℕ → ℕ → ℕ → ScanState → ScanState
scan_loop zero buf to_bit needed s = s
scan_loop (suc fuel) buf to_bit needed s =
    let t = skip_step buf to_bit s in
    let e = extend_run t in
    let after_free = scan_loop fuel buf to_bit needed (advance e) in
    let after_used = scan_loop fuel buf to_bit needed (end_run t) in
    if leb to_bit s.bit
    then s
    else if leb to_bit t.bit
    then t
    else if is_used buf t.bit
    then after_used
    else if leb needed e.run_len
    then take_run e
    else after_free

abbrev pub start_scan : ℕ → ScanState
start_scan from_bit = record {
  bit = from_bit;
  run_start = no_run;
  run_len = 0;
  best_start = 0;
  best_len = 0;
}

-- *OutStart and *OutLen.
unfoldable pub scan_result : ScanState → ℕ × ℕ
scan_result s = (if s.best_len == 0 then 0 else s.best_start, s.best_len)

-- NtfsScanBitmapRange
unfoldable pub scan_bitmap_range : List ℕ → ℕ → ℕ → ℕ → ℕ × ℕ
scan_bitmap_range buf from_bit to_bit needed =
    scan_result (keep_best (scan_loop (to_bit - from_bit) buf to_bit needed (start_scan from_bit)))

abbrev pub first_user_file : ℕ
first_user_file = 16

-- The skip of NtfsFirstFreeBit, at byte boundaries.
pub skip_aligned : List ℕ → ℕ → ℕ → ℕ
skip_aligned buf limit bit = if bit % 8 == 0 then skip_full buf limit bit else bit

-- The loop of NtfsFirstFreeBit; `none` is FALSE.
pub first_free_loop : ℕ → List ℕ → ℕ → ℕ → Option ℕ
first_free_loop zero buf limit bit = none
first_free_loop (suc fuel) buf limit bit =
    let b = skip_aligned buf limit bit in
    let later = first_free_loop fuel buf limit (b + 1) in
    if leb limit bit
    then none
    else if leb limit b
    then none
    else if is_used buf b
    then later
    else some b

-- NtfsFirstFreeBit
pub first_free_bit : List ℕ → ℕ → Option ℕ
first_free_bit buf limit = first_free_loop (limit - first_user_file) buf limit first_user_file
