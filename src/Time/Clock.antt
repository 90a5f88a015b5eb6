-- ===== src/Time/Clock.antt =====
-- kernel/sysclk.c, kernel/systime.c: the clock driver, and the calls that read and set the date and
-- the time through it. The tick counter and the clock chip, which the assembly of drivers/ reads and
-- writes, are the fields `pc_ticks` and `at_clock`.
pub mod Calls
pub mod Init
use burdah_dos_system.Base.{
  ℕ, zero, suc, ◌+◌, ◌-◌, ◌*◌, ◌/◌, ◌%◌, ◌^◌, Bool, not, ◌||◌, true, false, Option, none, some, ltb,
  leb, ◌==◌, if◌then◌else◌, List, [], ◌∷◌,
}
use burdah_dos_system.Time.Calendar.{word, at, is_leap_year_monthdays, year_loop, driver_month_loop}

-- `struct ClockRecord`
pub record ClockRecord : Type 0 where
  pub clk_days : ℕ
  pub clk_minutes : ℕ
  pub clk_hours : ℕ
  pub clk_hundredths : ℕ
  pub clk_seconds : ℕ

-- What WriteATClock sends to the chip.
pub record AtClock : Type 0 where
  pub bcd_days : List ℕ
  pub bcd_hours : ℕ
  pub bcd_minutes : ℕ
  pub bcd_seconds : ℕ

pub record Clock : Type 0 where
  pub days_since_epoch : ℕ
  pub pc_ticks : ℕ
  pub at_clock : AtClock

-- The commands of a request that the driver tells apart.
pub data Command : Type 0 where
  c_init c_input c_output c_iflush c_oflush other : Command

-- `S_DONE`, and `failure(E_LENGTH)` and `failure(E_FAILURE)`, which set `S_ERROR`.
pub data DriverStatus : Type 0 where
  s_done e_length e_failure : DriverStatus

abbrev pub dword : ℕ
dword = 0x100000000

-- The operands of `|` share no bit.
unfoldable pub byte_to_bcd : ℕ → ℕ
byte_to_bcd x = (x / 10 * 16 + x % 10) % 256

unfoldable pub day_to_bcd : ℕ → ℕ → ℕ → List ℕ
unfolding byte_to_bcd
day_to_bcd mon day yr =
    byte_to_bcd day ∷ byte_to_bcd mon ∷ byte_to_bcd (yr % 100) ∷ byte_to_bcd (yr / 100) ∷ []

-- Quotient and remainder of an `int` by a positive constant: they round towards 0.
unfoldable pub int_quotient : ℕ → ℕ → ℕ
int_quotient a b = if ltb a 0x8000 then a / b else word - (word - a) / b

unfoldable pub int_remainder : ℕ → ℕ → ℕ
int_remainder a b = if ltb a 0x8000 then a % b else word - (word - a) % b

-- Ticks of the counter to hundredths of a second.
unfoldable pub hundredths_of_ticks : ℕ → ℕ
hundredths_of_ticks pc =
    let ticks = 5 * pc % dword in
    (ticks / 59659 * word % dword + ticks % 59659 * word % dword / 59659) % dword

-- Hundredths of a second to ticks of the counter.
unfoldable pub ticks_of_hundredths : ℕ → ℕ
ticks_of_hundredths hs = (hs / word * 59659 % dword + hs % word * 59659 % dword / word) % dword / 5

-- `C_INPUT`: the record that the driver hands out. `ReadPCClock`, which is assembly, also adds the count
-- of midnights that the BIOS reports to `DaysSinceEpoch`; that count is taken to be 0 here.
unfoldable pub read_record : Clock → ClockRecord
unfolding hundredths_of_ticks int_quotient int_remainder
read_record k =
    let ticks = hundredths_of_ticks k.pc_ticks in
    let whole = ticks / 6000 % word in
    let part = ticks % 6000 in
    record {
      clk_hours = int_quotient whole 60 % 256;
      clk_minutes = int_remainder whole 60 % 256;
      clk_seconds = int_quotient part 100 % 256;
      clk_hundredths = int_remainder part 100 % 256;
      clk_days = k.days_since_epoch;
    }

-- More years than the days of a `UWORD` fill.
abbrev pub year_fuel : ℕ
year_fuel = 200

-- The year, month and day that the driver finds for a count of days.
unfoldable pub driver_date : ℕ → Option (ℕ × ℕ × ℕ)
unfolding year_loop driver_month_loop is_leap_year_monthdays
driver_date days = elim (year_loop year_fuel 1980 days) [
  | none ↦ none
  | some (year, day) ↦
      let found = driver_month_loop 12 (is_leap_year_monthdays year) 1 day in
      some (year, found.0, found.1)
]

-- `C_OUTPUT`: the counter, the count of days and the chip are set.
unfoldable pub write_record : Clock → ClockRecord → Option Clock
unfolding ticks_of_hundredths driver_date byte_to_bcd day_to_bcd
write_record k clk =
    let hs =
      (6000 * (60 * clk.clk_hours + clk.clk_minutes) + (100 * clk.clk_seconds + clk.clk_hundredths))
      % dword in
    elim (driver_date clk.clk_days) [
      | none ↦ none
      | some (year, month, day) ↦ some (record {
        days_since_epoch = clk.clk_days;
        pc_ticks = ticks_of_hundredths hs;
        at_clock = record {
          bcd_days = day_to_bcd month day year;
          bcd_hours = byte_to_bcd clk.clk_hours;
          bcd_minutes = byte_to_bcd clk.clk_minutes;
          bcd_seconds = byte_to_bcd clk.clk_seconds;
        };
      })
    ]

-- `sizeof(struct ClockRecord)`
abbrev pub record_size : ℕ
record_size = 6

-- The driver: the command, the bytes asked for and the record of the request; `none` means that the
-- fuel ran out.
unfoldable pub clk_driver :
    Command → ℕ → ClockRecord → Clock → Option (DriverStatus × ClockRecord × Clock)
unfolding read_record write_record
clk_driver c_init count r k = some (s_done, r, k)
clk_driver c_input count r k =
    if not (count == record_size) then some (e_length, r, k) else some (s_done, read_record k, k)
clk_driver c_output count r k =
    if not (count == record_size)
    then some (e_length, r, k)
    else elim (write_record k r) [ none ↦ none | some k1 ↦ some (s_done, r, k1) ]
clk_driver c_iflush count r k = some (s_done, r, k)
clk_driver c_oflush count r k = some (s_done, r, k)
clk_driver other count r k = some (e_failure, r, k)
