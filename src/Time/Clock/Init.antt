-- ===== src/Time/Clock/Init.antt =====
-- kernel/initclk.c: setting the clock at start-up from what the BIOS reads from the chip. The answers
-- of INT 1Ah are arguments; INT 21h is DosSetDate and DosSetTime, whose results are not looked at.
use burdah_dos_system.Base.{
  ℕ, ◌+◌, ◌*◌, ◌/◌, ◌%◌, ◌≡◌, ◌&&◌, ◌≤◌, Option, none, some, ltb, leb, if◌then◌else◌, arith, get_or,
}
use burdah_dos_system.Time.Clock.{day_to_bcd, byte_to_bcd}
use burdah_dos_system.Time.Clock.Calls.{DosDate, DosTime, Timer, dos_set_date, dos_set_time}
use burdah_dos_system.Time.Table.{IsDate, IsDate-IsIn, month_length}

-- CH, CL and DH of INT 1Ah, AH=2.
pub record BiosTime : Type 0 where
  pub bcd_hours : ℕ
  pub bcd_minutes : ℕ
  pub bcd_seconds : ℕ

-- CH, CL, DH and DL of INT 1Ah, AH=4.
pub record BiosDate : Type 0 where
  pub bcd_century : ℕ
  pub bcd_year : ℕ
  pub bcd_month : ℕ
  pub bcd_day : ℕ

unfoldable pub init_bcd_to_byte : ℕ → ℕ
init_bcd_to_byte x = x / 16 % 16 * 10 + x % 16

unfoldable pub init_date : BiosDate → DosDate
unfolding init_bcd_to_byte
init_date r =
    let y = 100 * init_bcd_to_byte r.bcd_century + init_bcd_to_byte r.bcd_year in
    record {
      year = if leb 1900 y && ltb y 1980 then y + 100 else y;
      month = init_bcd_to_byte r.bcd_month;
      monthday = init_bcd_to_byte r.bcd_day;
    }

unfoldable pub init_time : BiosTime → DosTime
unfolding init_bcd_to_byte
init_time r = record {
  hour = init_bcd_to_byte r.bcd_hours;
  minute = init_bcd_to_byte r.bcd_minutes;
  second = init_bcd_to_byte r.bcd_seconds;
  hundredth = 0;
}

unfoldable pub init_clk_driver : BiosTime → BiosDate → Timer → Option Timer
unfolding init_date init_time dos_set_date dos_set_time
init_clk_driver time date t = elim (dos_set_date (init_date date) t) [
  | none ↦ none
  | some (_, t1) ↦ elim (dos_set_time (init_time time) t1) [ none ↦ none | some (_, t2) ↦ some t2 ]
]

-- The date that the BIOS reads from a chip that holds the four bytes of the driver.
abbrev pub chip_date : DosDate → BiosDate
chip_date dd =
    let bytes = day_to_bcd dd.month dd.monthday dd.year in
    record {
      bcd_century = get_or bytes 3 0;
      bcd_year = get_or bytes 2 0;
      bcd_month = get_or bytes 1 0;
      bcd_day = get_or bytes 0 0;
    }

bcd-digits : (x : ℕ) → x ≤ 99 → init_bcd_to_byte (byte_to_bcd x) ≡ x
unfolding init_bcd_to_byte byte_to_bcd
bcd-digits x h = omega arith

year_kept :
    (y : ℕ)
    → 1980 ≤ y
    → y ≤ 2099
    → (if leb 1900 (100 * (y / 100) + y % 100) && ltb (100 * (y / 100) + y % 100) 1980
        then 100 * (y / 100) + y % 100 + 100
        else 100 * (y / 100) + y % 100)
      ≡ y
year_kept y a b = ground arith

-- The date that start-up works out from a chip that was set to a valid date is that date.
pub init_date-day_to_bcd : (dd : DosDate) → IsDate dd → init_date (chip_date dd) ≡ dd
unfolding init_date day_to_bcd
init_date-day_to_bcd dd h =
    let i = IsDate-IsIn dd h in
    let short = month_length dd.year dd.month i.month_low i.month_high in
    ground (
      arith,
      bcd-digits (dd.year / 100) (omega (arith, i.year_high)),
      bcd-digits (dd.year % 100) (omega arith),
      bcd-digits dd.month (omega (arith, i.month_high)),
      bcd-digits dd.monthday (omega (arith, i.day_high, short)),
      year_kept dd.year i.year_low i.year_high,
    )
