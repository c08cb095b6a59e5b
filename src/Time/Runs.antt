-- ===== src/Time/Runs.antt =====
-- Concrete time stamps, and the theorems at concrete inputs.
use ntfs_efi.Prelude.{◌≡◌, refl, some, ◌+◌, ◌-◌, arith}
use ntfs_efi.Prelude.Int.{pos, ◌+ℤ◌, ◌-ℤ◌, mul_ℤ, div_ℤ, to_u64}
use ntfs_efi.Time.{EfiTime, is_leap, convert_time, convert_time_to_ntfs, days_since_epoch}
use ntfs_efi.Time.Calendar.{days_before_year}
use ntfs_efi.Time.Civil.{days_before_month, days_since_epoch_lem}
use ntfs_efi.Time.RoundTrip.{IsCalendar, convert_time_round_trip}

-- 2024-02-29 12:34:56.7891234
abbrev leap_day : EfiTime
leap_day = record {
  year = 2024;
  month = 2;
  day = 29;
  hour = 12;
  minute = 34;
  second = 56;
  nanosecond = 789123400;
  time_zone = 0x7ff;
  daylight = 0;
}

to_ticks : convert_time_to_ntfs leap_day ≡ 133536836967891234
unfolding convert_time_to_ntfs ◌+ℤ◌ ◌-ℤ◌ mul_ℤ div_ℤ to_u64
to_ticks = refl

from_ticks : convert_time 133536836967891234 ≡ some leap_day
unfolding convert_time
from_ticks = refl

convert_time_round_trip_example :
    (e : EfiTime) × (convert_time 133536836967891234 ≡ some e)
    × IsCalendar e
    × (convert_time_to_ntfs e ≡ 133536836967891234)
convert_time_round_trip_example =
    convert_time_round_trip 133536836967891234 (omega arith) (omega arith)

days_since_epoch_lem_example :
    days_since_epoch 2024 2 29
    ≡ pos (days_before_year 2024 + days_before_month (is_leap 2024) 1 + 28 - 719162)
days_since_epoch_lem_example = days_since_epoch_lem 2024 1 28 (omega arith) (omega arith)
