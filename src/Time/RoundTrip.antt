-- ===== src/Time/RoundTrip.antt =====
-- NtfsEfiConvertTimeToNtfs after NtfsEfiConvertTime.
use ntfs_efi.Prelude.{
  ℕ, ◌+◌, ◌-◌, ◌*◌, ◌/◌, ◌%◌, ◌^◌, ◌<◌, ◌≤◌, ◌≡◌, some, get_or, arith, ap, ◌∙◌, inl, inr,
  Option-cases,
}
use ntfs_efi.Prelude.Order.{lt_wf}
use ntfs_efi.Prelude.Int.{pos, to_u64}
use ntfs_efi.Time.{
  EfiTime, epoch_delta, is_leap, days_per_month, year_loop, month_loop, store_time, convert_ticks,
  convert_time, convert_time_to_ntfs, days_since_epoch,
}
use ntfs_efi.Time.Calendar.{YearFound, year_loop-YearFound, days_before_year}
use ntfs_efi.Time.Civil.{
  days_before_month, month_loop_lem, month_loop-ne-none, days_since_epoch_lem,
}

-- A date of the calendar from 1970 on with a time of day.
pub record IsCalendar (t : EfiTime) : Type 0 where
  pub from_epoch : 1970 ≤ t.year
  pub month_low : 1 ≤ t.month
  pub month_high : t.month ≤ 12
  pub day_low : 1 ≤ t.day
  pub day_high : t.day ≤ get_or (days_per_month (is_leap t.year)) (t.month - 1) 0
  pub hour_high : t.hour < 24
  pub minute_high : t.minute < 60
  pub second_high : t.second < 60
  pub nanosecond_high : t.nanosecond < 1000000000

-- The date that the two loops reach.
record DateFound (rem year m d : ℕ) : Type 0 where
  result : convert_ticks rem ≡ store_time rem (rem / 10000000) year (some (d, m))
  from_epoch : 1970 ≤ year
  year_high : year < 2 ^ 16
  month_high : m < 12
  day_small : d < 31
  day_high : d < get_or (days_per_month (is_leap year)) m 0
  same_day :
      days_before_year year + days_before_month (is_leap year) m + d
      ≡ 719162 + rem / 10000000 / 60 / 60 / 24

date_found : (rem : ℕ) → rem < 2 ^ 64 → (year : ℕ) × (m : ℕ) × (d : ℕ) × DateFound rem year m d
unfolding convert_ticks
date_found rem h = elim (Option-cases (month_loop (days_per_month (is_leap y)) l 0)) [
  | inl e ↦ absurd (month_loop-ne-none y l f.within e)
  | inr ((d, m), e) ↦
      let g = month_loop_lem (is_leap y) l d m e in
      (
        y,
        m,
        d,
        record {
          result = ap (store_time rem (rem / 10000000) y) e;
          from_epoch = f.later;
          year_high = omega (arith, f.bounded);
          month_high = g.0;
          day_small = g.1;
          day_high = g.2;
          same_day = omega (arith, f.same_day, g.3);
        },
      )
]
  where
    start : ℕ
    start = rem / 10000000 / 60 / 60 / 24 % 2 ^ 32

    y : ℕ
    y = (year_loop start 1970 (lt_wf.apply start)).1

    l : ℕ
    l = (year_loop start 1970 (lt_wf.apply start)).0

    f : YearFound start 1970 l y
    f = year_loop-YearFound start 1970 (lt_wf.apply start) (omega arith) (omega arith)

-- The EFI_TIME that is stored for a date.
abbrev stored : (rem year m d : ℕ) → EfiTime
stored rem year m d = record {
  year = year;
  month = m + 1;
  day = d + 1;
  hour = rem / 10000000 / 60 / 60 % 24;
  minute = rem / 10000000 / 60 % 60;
  second = rem / 10000000 % 60;
  nanosecond = rem % 10000000 * 100;
  time_zone = 0x7ff;
  daylight = 0;
}

store_time_lem :
    (rem year m d : ℕ)
    → year < 2 ^ 16
    → m < 12
    → d < 31
    → store_time rem (rem / 10000000) year (some (d, m)) ≡ some (stored rem year m d)
unfolding store_time
store_time_lem rem year m d hy hm hd = ground arith

to_ntfs_stored :
    (rem year m d days : ℕ)
    → rem + epoch_delta < 2 ^ 64
    → days ≡ rem / 10000000 / 60 / 60 / 24
    → days_since_epoch year (m + 1) (d + 1) ≡ pos days
    → convert_time_to_ntfs (stored rem year m d) ≡ rem + epoch_delta
unfolding convert_time_to_ntfs to_u64
to_ntfs_stored rem year m d days fits hd e = rw e (omega arith)

module _ {rem year m d : ℕ} (f : DateFound rem year m d) (fits : rem + epoch_delta < 2 ^ 64) where
  stored-IsCalendar : IsCalendar (stored rem year m d)
  stored-IsCalendar = record {
    from_epoch = f.from_epoch;
    month_low = omega arith;
    month_high = omega (arith, f.month_high);
    day_low = omega arith;
    day_high = rw add_one_sub (omega (arith, f.day_high));
    hour_high = omega arith;
    minute_high = omega arith;
    second_high = omega arith;
    nanosecond_high = omega arith;
  }
    where
      add_one_sub : m + 1 - 1 ≡ m
      add_one_sub = omega arith

  convert_ticks-stored : convert_ticks rem ≡ some (stored rem year m d)
  convert_ticks-stored = f.result ∙ store_time_lem rem year m d f.year_high f.month_high f.day_small

  to_ntfs_back : convert_time_to_ntfs (stored rem year m d) ≡ rem + epoch_delta
  to_ntfs_back =
      to_ntfs_stored rem year m d _ fits (omega (arith, f.same_day))
        (days_since_epoch_lem year m d f.from_epoch f.month_high)

convert_time_late : (t : ℕ) → epoch_delta ≤ t → convert_time t ≡ convert_ticks (t - epoch_delta)
unfolding convert_time
convert_time_late t h = ground arith

-- Every time stamp from 1970-01-01 on (any UINT64) converts to an EFI_TIME that is a date of the
-- calendar with a time of day, and NtfsEfiConvertTimeToNtfs of it is the time stamp again.
pub convert_time_round_trip :
    (t : ℕ)
    → epoch_delta ≤ t
    → t < 2 ^ 64
    → (e : EfiTime) × (convert_time t ≡ some e) × IsCalendar e × (convert_time_to_ntfs e ≡ t)
convert_time_round_trip t h fits =
    let (year, m, d, f) = date_found (t - epoch_delta) (omega arith) in
    let big : t - epoch_delta + epoch_delta < 2 ^ 64 = omega arith in
    (
      stored (t - epoch_delta) year m d,
      convert_time_late t h ∙ convert_ticks-stored f big,
      stored-IsCalendar f big,
      to_ntfs_back f big ∙ omega arith,
    )
