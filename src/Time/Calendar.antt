-- ===== src/Time/Calendar.antt =====
-- The two loops of NtfsEfiConvertTime against a closed count of days.
use mathlib.Core.WellFounded.{Acc}
use ntfs_efi.Prelude.{
  ℕ, zero, suc, ◌+◌, ◌-◌, ◌*◌, ◌/◌, ◌%◌, ◌^◌, ◌<◌, ◌≤◌, ◌≡◌, arith, dec_lt, refl,
}
use ntfs_efi.Time.{days_in_year, year_loop, year_shrinks}

-- The days before January 1 of a year, from year 1 on.
abbrev pub days_before_year : ℕ → ℕ
days_before_year y = 365 * (y - 1) + (y - 1) / 4 + (y - 1) / 400 - (y - 1) / 100

pub days_before_year_step :
    (y : ℕ) → 1 ≤ y → days_before_year (y + 1) ≡ days_before_year y + days_in_year y
unfolding days_in_year
days_before_year_step y h = ground arith

pub days_in_year-ge : (y : ℕ) → 365 ≤ days_in_year y
unfolding days_in_year
days_in_year-ge y = ground arith

-- What the loop over the years returns.
pub record YearFound (days year left found : ℕ) : Type 0 where
  pub within : left < days_in_year found
  pub same_day : days_before_year found + left ≡ days_before_year year + days
  pub later : year ≤ found
  pub bounded : 365 * found + left ≤ 365 * year + days

year_loop_stop :
    (days year : ℕ) (w : Acc ◌<◌ days)
    → days < days_in_year year
    → year_loop days year w ≡ (days, year)
unfolding year_loop
year_loop_stop days year (Acc.intro _ smaller) p = grind arith

year_loop_next :
    (days year : ℕ) (w : Acc ◌<◌ days)
    → ¬ (days < days_in_year year)
    → (v : Acc ◌<◌ (days - days_in_year year)) × (year_loop days year w
        ≡ year_loop (days - days_in_year year) ((year + 1) % 2 ^ 32) v)
unfolding year_loop
year_loop_next days year (Acc.intro _ smaller) p =
    (smaller _ (year_shrinks days year p), grind arith)

YearFound-next :
    (days year left found : ℕ)
    → 1 ≤ year
    → 365 * year + days < 2 ^ 32
    → ¬ (days < days_in_year year)
    → YearFound (days - days_in_year year) ((year + 1) % 2 ^ 32) left found
    → YearFound days year left found
YearFound-next days year left found h b p f =
    let e : (year + 1) % 2 ^ 32 ≡ year + 1 = omega (arith, days_in_year-ge year) in
    let g : YearFound (days - days_in_year year) (year + 1) left found = rw e at f in
    record {
      within = g.within;
      same_day = omega (arith, g.same_day, days_before_year_step year h);
      later = omega (arith, g.later);
      bounded = omega (arith, g.bounded, days_in_year-ge year);
    }

found_below :
    (n days year : ℕ) (w : Acc ◌<◌ days)
    → days < n
    → 1 ≤ year
    → 365 * year + days < 2 ^ 32
    → YearFound days year (year_loop days year w).0 (year_loop days year w).1
found_below zero days year w lt h b = absurd (omega arith)
found_below (suc n) days year w lt h b = elim (dec_lt days (days_in_year year)) [
  | yes p ↦
      rw (year_loop_stop days year w p)
        (record { within = p; same_day = refl; later = omega arith; bounded = omega arith })
  | no p ↦
      let (v, e) = year_loop_next days year w p in
      rw e (
        YearFound-next days year _ _ h b p (
          found_below n (days - days_in_year year) ((year + 1) % 2 ^ 32) v
            (omega (arith, days_in_year-ge year)) (omega (arith, days_in_year-ge year))
            (omega (arith, days_in_year-ge year))))
]

pub year_loop-YearFound :
    (days year : ℕ) (w : Acc ◌<◌ days)
    → 1 ≤ year
    → 365 * year + days < 2 ^ 32
    → YearFound days year (year_loop days year w).0 (year_loop days year w).1
year_loop-YearFound days year w = found_below (suc days) days year w (omega arith)
