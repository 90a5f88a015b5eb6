-- ===== src/Time/Table.antt =====
-- kernel/systime.c, kernel/sysclk.c: the table of month starts, and the year that a count of days is found in.
use burdah_dos_system.Base.{
  ℕ, zero, suc, ◌+◌, ◌-◌, ◌*◌, ◌/◌, ◌%◌, ◌≤◌, ◌<◌, ◌≡◌, refl, ap, ◌⊎◌, inl, inr, Bool, true, false,
  not, ◌||◌, Bool-cases, some, List, ltb, leb, ◌==◌, if◌then◌else◌, arith, passes_under,
  passes_under-at,
}
use burdah_dos_system.Time.Calendar.{
  at, is_leap_year_monthdays, days_from_year_month_day, year_loop, common_days, leap_days,
}
use burdah_dos_system.Time.Clock.{year_fuel}
use burdah_dos_system.Time.Clock.Calls.{DosDate, invalid_date}

-- The days before a year.
abbrev days_before : ℕ → ℕ
days_before y = (y - 1980) * 365 + (y - 1980 + 3) / 4

abbrev year_length : ℕ → ℕ
year_length y = at (is_leap_year_monthdays y) 12

pub monthdays-cases :
    (y : ℕ) → (is_leap_year_monthdays y ≡ common_days) ⊎ (is_leap_year_monthdays y ≡ leap_days)
unfolding is_leap_year_monthdays
monthdays-cases y = elim (Bool-cases (not (y % 4 == 0) || y == 2100)) [
  | inl h ↦ inl (rw h)
  | inr h ↦ inr (rw h)
]

days_before-suc :
    (y : ℕ) → 1980 ≤ y → y ≤ 2099 → days_before (suc y) ≡ days_before y + year_length y
unfolding is_leap_year_monthdays
days_before-suc y a b = ground arith

year_loop_step :
    (f y c : ℕ)
    → year_loop (suc f) y c
      ≡ (if leb (year_length y) c then year_loop f (suc y) (c - year_length y) else some (y, c))
unfolding year_loop
year_loop_step f y c = refl

year_loop-days_before :
    (f y k last c r : ℕ)
    → 1980 ≤ y
    → y + k ≡ last
    → last ≤ 2099
    → k < f
    → c + days_before y ≡ days_before last + r
    → r < year_length last
    → year_loop f y c ≡ some (last, r)
year_loop-days_before zero y k last c r a s b d e h = absurd (omega arith)
year_loop-days_before (suc f) y zero last c r a s b d e h =
    let same : y ≡ last = omega arith in
    let day : c ≡ r = omega (arith, ap days_before same) in
    rw (same, day, year_loop_step f last r) (ground arith)
year_loop-days_before (suc f) y (suc k) last c r a s b d e h =
    let m = days_before-suc y a (omega arith) in
    let rest =
      year_loop-days_before f (suc y) k last (c - year_length y) r (omega arith) (omega arith) b
        (omega arith) (omega arith) h in
    ground (arith, year_loop_step f y c)

-- The days before a month do not decrease.
abbrev sorted_at : List ℕ → ℕ → ℕ → Bool
sorted_at pdays i j = ltb j i || leb (at pdays i) (at pdays j)

abbrev pub IsSorted : List ℕ → Type 0
IsSorted pdays = passes_under 13 (λ i. passes_under 13 (sorted_at pdays i)) ≡ true

pub monthdays-IsSorted : (y : ℕ) → IsSorted (is_leap_year_monthdays y)
unfolding passes_under
monthdays-IsSorted y = elim (monthdays-cases y) [ inl h ↦ rw h refl | inr h ↦ rw h refl ]

pub sorted_le :
    (pdays : List ℕ) (i j : ℕ) → IsSorted pdays → i ≤ j → j < 13 → at pdays i ≤ at pdays j
sorted_le pdays i j s h b =
    let row = passes_under-at 13 (λ i. passes_under 13 (sorted_at pdays i)) i s (omega arith) in
    let cell = passes_under-at 13 (sorted_at pdays i) j row b in ground arith

-- A date that DosSetDate takes.
abbrev pub IsDate : DosDate → Type 0
IsDate dd = invalid_date dd ≡ false

day_in_year :
    (y m d : ℕ)
    → 1980 ≤ y
    → y ≤ 2099
    → 1 ≤ m
    → m ≤ 12
    → 1 ≤ d
    → d ≤ at (is_leap_year_monthdays y) m - at (is_leap_year_monthdays y) (m - 1)
    → days_from_year_month_day y m d
      ≡ days_before y + (at (is_leap_year_monthdays y) (m - 1) + d - 1)
unfolding days_from_year_month_day
day_in_year y m d a b c e f g =
    let le = sorted_le (is_leap_year_monthdays y) m 12 (monthdays-IsSorted y) e (omega arith) in
    let len : year_length y ≤ 366 = elim (monthdays-cases y) [
      | inl h ↦ rw h (omega arith)
      | inr h ↦ rw h (omega arith)
    ] in
    ground arith

pub found_year :
    (y m d : ℕ)
    → 1980 ≤ y
    → y ≤ 2099
    → 1 ≤ m
    → m ≤ 12
    → 1 ≤ d
    → d ≤ at (is_leap_year_monthdays y) m - at (is_leap_year_monthdays y) (m - 1)
    → year_loop year_fuel 1980 (days_from_year_month_day y m d)
      ≡ some (y, at (is_leap_year_monthdays y) (m - 1) + d - 1)
found_year y m d a b c e f g =
    let le = sorted_le (is_leap_year_monthdays y) m 12 (monthdays-IsSorted y) e (omega arith) in
    year_loop-days_before year_fuel 1980 (y - 1980) y (days_from_year_month_day y m d)
      (at (is_leap_year_monthdays y) (m - 1) + d - 1) (omega arith) (omega arith) b (omega arith)
      (omega (arith, day_in_year y m d a b c e f g)) (omega arith)

abbrev short_month : List ℕ → ℕ → Bool
short_month pdays i = leb (at pdays (i + 1) - at pdays i) 31

short_common : passes_under 12 (short_month common_days) ≡ true
unfolding passes_under
short_common = refl

short_leap : passes_under 12 (short_month leap_days) ≡ true
unfolding passes_under
short_leap = refl

pub month_length :
    (y m : ℕ)
    → 1 ≤ m
    → m ≤ 12
    → at (is_leap_year_monthdays y) m - at (is_leap_year_monthdays y) (m - 1) ≤ 31
month_length y m a b =
    let short =
      passes_under-at 12 (short_month (is_leap_year_monthdays y)) (m - 1)
        (elim (monthdays-cases y) [ inl h ↦ rw h short_common | inr h ↦ rw h short_leap ])
        (omega arith) in
    let again : m - 1 + 1 ≡ m = omega arith in
    ground (arith, ap (at (is_leap_year_monthdays y)) again)

pub record IsIn (dd : DosDate) : Type 0 where
  pub year_low : 1980 ≤ dd.year
  pub year_high : dd.year ≤ 2099
  pub month_low : 1 ≤ dd.month
  pub month_high : dd.month ≤ 12
  pub day_low : 1 ≤ dd.monthday
  pub day_high :
      dd.monthday
      ≤ at (is_leap_year_monthdays dd.year) dd.month
        - at (is_leap_year_monthdays dd.year) (dd.month - 1)

pub IsDate-IsIn : (dd : DosDate) → IsDate dd → IsIn dd
unfolding invalid_date
IsDate-IsIn dd h = record {
  year_low = ground arith;
  year_high = ground arith;
  month_low = ground arith;
  month_high = ground arith;
  day_low = ground arith;
  day_high = ground arith;
}
