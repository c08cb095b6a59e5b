-- ===== src/Time.antt =====
-- src/ntfs_time.c: NTFS time stamps (100 ns ticks since 1601) to EFI_TIME, and back.
-- UINT64 and UINT32 values are numbers with their wrap-around written out; the INT64 arithmetic of
-- the way back is on ℤ, since no INT64 operation there can overflow.
pub mod Calendar
pub mod Civil
pub mod RoundTrip
mod Runs
use mathlib.Core.Logic.{dite}
use mathlib.Core.WellFounded.{Acc}
use ntfs_efi.Prelude.{
  ℕ, zero, suc, ◌+◌, ◌-◌, ◌*◌, ◌/◌, ◌%◌, ◌^◌, ◌<◌, ◌≤◌, ◌≡◌, Bool, Option, none, some, List, [],
  ◌∷◌, ◌&&◌, ◌||◌, not, ltb, leb, ◌==◌, if◌then◌else◌, arith, dec_lt,
}
use ntfs_efi.Prelude.Order.{lt_wf}
use ntfs_efi.Prelude.Int.{ℤ, pos, negsuc, ◌+ℤ◌, ◌-ℤ◌, div_ℤ, mul_ℤ, is_neg, to_u64}

-- EFI_TIME without its two padding bytes.
pub record EfiTime : Type 0 where
  pub year : ℕ
  pub month : ℕ
  pub day : ℕ
  pub hour : ℕ
  pub minute : ℕ
  pub second : ℕ
  pub nanosecond : ℕ
  pub time_zone : ℕ
  pub daylight : ℕ

-- What ZeroMem leaves.
abbrev pub zero_time : EfiTime
zero_time = record {
  year = 0;
  month = 0;
  day = 0;
  hour = 0;
  minute = 0;
  second = 0;
  nanosecond = 0;
  time_zone = 0;
  daylight = 0;
}

abbrev pub epoch_delta : ℕ
epoch_delta = 116444736000000000

-- EFI_UNSPECIFIED_TIMEZONE
abbrev pub unspecified_timezone : ℕ
unspecified_timezone = 0x7ff

pub is_leap : ℕ → Bool
is_leap year = (year % 4 == 0 && not (year % 100 == 0)) || year % 400 == 0

pub days_in_year : ℕ → ℕ
unfolding is_leap
days_in_year year = if is_leap year then 366 else 365

days_in_year_pos : (year : ℕ) → 0 < days_in_year year
unfolding days_in_year
days_in_year_pos year = ground arith

year_shrinks : (days year : ℕ) → ¬ (days < days_in_year year) → days - days_in_year year < days
year_shrinks days year h = omega (arith, days_in_year_pos year)

-- The loop over the years: the days left and the year reached.
pub year_loop : (days year : ℕ) → Acc ◌<◌ days → ℕ × ℕ
unfolding dec_lt
year_loop days year (Acc.intro _ smaller) =
    dite (dec_lt days (days_in_year year)) (λ _. (days, year))
      λ more.
        year_loop (days - days_in_year year) ((year + 1) % 2 ^ 32)
          (smaller _ (year_shrinks days year more))

-- DPM after `DPM[1] = Leap ? 29 : 28`.
pub days_per_month : Bool → List ℕ
days_per_month leap =
    31 ∷ (if leap then 29 else 28) ∷ 31 ∷ 30 ∷ 31 ∷ 30 ∷ 31 ∷ 31 ∷ 30 ∷ 31 ∷ 30 ∷ 31 ∷ []

-- The loop over the months, along what is left of DPM; `none` is a read past its end.
pub month_loop : List ℕ → ℕ → ℕ → Option (ℕ × ℕ)
month_loop [] days month = none
month_loop (dim ∷ dpm) days month =
    let later = month_loop dpm (days - dim) (month + 1) in
    if ltb days dim then some (days, month) else later

-- The stores into *EfiTime at the end, with their casts.
pub store_time : ℕ → ℕ → ℕ → Option (ℕ × ℕ) → Option EfiTime
store_time rem unix_sec year none = none
store_time rem unix_sec year (some (days, month)) = some record {
  year = year % 2 ^ 16;
  month = (month + 1) % 2 ^ 8;
  day = (days + 1) % 2 ^ 8;
  hour = unix_sec / 60 / 60 % 24 % 2 ^ 8;
  minute = unix_sec / 60 % 60 % 2 ^ 8;
  second = unix_sec % 60 % 2 ^ 8;
  nanosecond = rem % 10000000 * 100 % 2 ^ 32;
  time_zone = unspecified_timezone;
  daylight = 0;
}

pub convert_ticks : ℕ → Option EfiTime
unfolding store_time month_loop days_per_month year_loop days_in_year lt_wf
convert_ticks rem =
    let unix_sec = rem / 10000000 in
    let start = unix_sec / 60 / 60 / 24 % 2 ^ 32 in
    let (days, year) = year_loop start 1970 (lt_wf.apply start) in
    store_time rem unix_sec year (month_loop (days_per_month (is_leap year)) days 0)

-- NtfsEfiConvertTime; `none` would be a read outside DPM.
pub convert_time : ℕ → Option EfiTime
unfolding convert_ticks
convert_time ntfs_time =
    if ltb ntfs_time epoch_delta then some zero_time else convert_ticks (ntfs_time - epoch_delta)

-- Era, Yoe, Doy, Doe and DaysSinceEpoch, from Y after its correction and the shifted month.
pub count_days : ℤ → ℤ → ℕ → ℤ
count_days y mp d =
    let era = div_ℤ (if is_neg y then y -ℤ pos 399 else y) 400 in
    let yoe = y -ℤ mul_ℤ 400 era in
    let doy = div_ℤ (mul_ℤ 153 mp +ℤ pos 2) 5 +ℤ pos d -ℤ pos 1 in
    let doe = mul_ℤ 365 yoe +ℤ div_ℤ yoe 4 -ℤ div_ℤ yoe 100 +ℤ doy in
    mul_ℤ 146097 era +ℤ doe -ℤ pos 719468

-- The days from 1970-01-01 by the closed formula, for any field values.
pub days_since_epoch : ℕ → ℕ → ℕ → ℤ
days_since_epoch year m d =
    count_days (pos year -ℤ pos (if leb m 2 then 1 else 0))
      (if ltb 2 m then pos m -ℤ pos 3 else pos m +ℤ pos 9) d

-- NtfsEfiConvertTimeToNtfs
pub convert_time_to_ntfs : EfiTime → ℕ
unfolding days_since_epoch count_days
convert_time_to_ntfs t =
    let unix_sec =
      (to_u64 (days_since_epoch t.year t.month t.day) * 86400
        + t.hour * 3600
        + t.minute * 60
        + t.second)
      % 2 ^ 64 in
    (unix_sec * 10000000 + t.nanosecond / 100 + epoch_delta) % 2 ^ 64
