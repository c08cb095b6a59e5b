-- ===== src/Time/Civil.antt =====
-- The month loop, and the closed formula of NtfsEfiConvertTimeToNtfs on the dates that it returns.
use ntfs_efi.Prelude.{
  ℕ, zero, suc, ◌+◌, ◌-◌, ◌*◌, ◌/◌, ◌<◌, ◌≤◌, ◌≡◌, Bool, none, some, leb, if◌then◌else◌, arith,
  false, ◌≢◌, ap, ◌∙◌, lt→ltb, get_or,
}
use ntfs_efi.Prelude.Int.{pos, ◌-ℤ◌, pos-add, pos-sub, mul-pos, div-pos}
use ntfs_efi.Time.{is_leap, days_in_year, month_loop, days_per_month, count_days, days_since_epoch}
use ntfs_efi.Time.Calendar.{days_before_year}

-- The days of a year before its month of index m, from 0.
abbrev pub days_before_month : Bool → ℕ → ℕ
days_before_month leap m =
    if leb m 1 then 31 * m else (153 * (m - 2) + 2) / 5 + (if leap then 60 else 59)

pub month_loop_lem :
    (leap : Bool) (days d m : ℕ)
    → month_loop (days_per_month leap) days 0 ≡ some (d, m)
    → (m < 12)
      × (d < 31)
      × (d < get_or (days_per_month leap) m 0)
      × (days_before_month leap m + d ≡ days)
unfolding month_loop days_per_month
month_loop_lem leap days d m h = ground arith

pub month_loop-ne-none :
    (year days : ℕ)
    → days < days_in_year year
    → month_loop (days_per_month (is_leap year)) days 0 ≢ none
unfolding month_loop days_per_month days_in_year
month_loop-ne-none year days h = ground arith

ruleset nonneg = (pos-add, mul-pos, div-pos)

-- A year splits into 400-year eras without a remainder of leap days.
eras :
    (y : ℕ)
    → 146097 * (y / 400)
        + (365 * (y - 400 * (y / 400)) + (y - 400 * (y / 400)) / 4 - (y - 400 * (y / 400)) / 100)
      ≡ 365 * y + y / 4 - y / 100 + y / 400
eras y = omega arith

count_days_lem :
    (y mp d : ℕ)
    → 1969 ≤ y
    → 719468 ≤ 365 * y + y / 4 - y / 100 + y / 400 + (153 * mp + 2) / 5 + d
    → count_days (pos y) (pos mp) (d + 1)
      ≡ pos (365 * y + y / 4 - y / 100 + y / 400 + (153 * mp + 2) / 5 + d - 719468)
unfolding count_days
count_days_lem y mp d h k =
    simp (nonneg, yoe, doy)
      (simp (nonneg, pos-sub (365 * r + r / 4) (r / 100) (omega arith))
        (pos-sub _ 719468 (omega (arith, eras y)) ∙ ap pos (omega (arith, eras y))))
  where
    r : ℕ
    r = y - 400 * (y / 400)

    yoe : pos y -ℤ pos (400 * (y / 400)) ≡ pos (y - 400 * (y / 400))
    yoe = pos-sub y (400 * (y / 400)) (omega arith)

    doy : pos ((153 * mp + 2) / 5 + (d + 1)) -ℤ pos 1 ≡ pos ((153 * mp + 2) / 5 + d)
    doy = pos-sub _ 1 (omega arith) ∙ ap pos (omega arith)

-- A year's leap day, by the difference of the closed counts.
leap_day_count :
    (year : ℕ)
    → 1970 ≤ year
    → 365 * (year - 1)
        + (year - 1) / 4
        + (year - 1) / 400
        - (year - 1) / 100
        + (if is_leap year then 60 else 59)
        + 306
      ≡ 365 * year + year / 4 - year / 100 + year / 400
unfolding is_leap
leap_day_count year h = ground arith

-- For a year from 1970 on, the month of index m below 12 and the day of index d, the closed formula
-- gives the days of the years before, of the months before, and d, less the 719162 days up to 1970.
pub days_since_epoch_lem :
    (year m d : ℕ)
    → 1970 ≤ year
    → m < 12
    → days_since_epoch year (m + 1) (d + 1)
      ≡ pos (days_before_year year + days_before_month (is_leap year) m + d - 719162)
unfolding days_since_epoch
days_since_epoch_lem year zero d hy hm =
    simp (pos-sub year 1 (omega arith), pos-add)
      (count_days_lem (year - 1) 10 d (omega arith) (omega arith) ∙ ap pos (omega arith))
days_since_epoch_lem year (suc zero) d hy hm =
    simp (pos-sub year 1 (omega arith), pos-add)
      (count_days_lem (year - 1) 11 d (omega arith) (omega arith) ∙ ap pos (omega arith))
days_since_epoch_lem year (suc (suc m)) d hy hm =
    rw (lt→ltb 2 (suc (suc m) + 1) (omega arith), late)
      (simp (pos-sub year 0 (omega arith), pos-sub (suc (suc m) + 1) 3 (omega arith))
        (count_days_lem (year - 0) (suc (suc m) + 1 - 3) d (omega arith) (omega arith)
          ∙ ap pos (ground (arith, leap_day_count year hy))))
  where
    late : leb (suc (suc m) + 1) 2 ≡ false
    late = ground arith
