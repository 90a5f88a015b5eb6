-- ===== src/Time/Tests.antt =====
-- Runs of the clock.
use burdah_dos_system.Base.{◌+◌, ◌%◌, ◌≡◌, refl, some, []}
use burdah_dos_system.Time.Calendar.{days_from_year_month_day}
use burdah_dos_system.Time.Clock.{driver_date, day_to_bcd}
use burdah_dos_system.Time.Clock.Calls.{
  date_of, DosDate, Timer, Outcome, invalid_date, dos_set_date, dos_get_date,
}
use burdah_dos_system.Time.Table.{IsDate}
use burdah_dos_system.Time.Clock.Init.{init_date, chip_date, init_date-day_to_bcd}
use burdah_dos_system.Time.SetGet.{dos_set_date-dos_get_date}

leap_day : days_from_year_month_day 2024 2 29 ≡ 16130
unfolding days_from_year_month_day
leap_day = refl

back : date_of 16130 ≡ some (record { year = 2024; month = 2; monthday = 29 })
unfolding date_of
back = refl

driver_back : driver_date 16130 ≡ some (2024, 2, 29)
unfolding driver_date
driver_back = refl

abbrev timer : Timer
timer = record {
  clk_record = record {
    clk_days = 0;
    clk_minutes = 0;
    clk_hours = 0;
    clk_hundredths = 0;
    clk_seconds = 0;
  };
  clock = record {
    days_since_epoch = 1;
    pc_ticks = 0x10000;
    at_clock = record { bcd_days = []; bcd_hours = 0; bcd_minutes = 0; bcd_seconds = 0 };
  };
}

abbrev leap_date : DosDate
leap_date = record { year = 2024; month = 2; monthday = 29 }

leap_date-IsDate : IsDate leap_date
unfolding invalid_date
leap_date-IsDate = refl

dos_set_date-dos_get_date_example :
    (t1 : Timer) × (dos_set_date leap_date timer ≡ some (Outcome.success, t1))
    × (t1.clock.days_since_epoch ≡ days_from_year_month_day 2024 2 29)
    × (t1.clock.at_clock.bcd_days ≡ day_to_bcd 2 29 2024)
    × (t2 : Timer) × (dos_get_date t1 leap_date
        ≡ some ((days_from_year_month_day 2024 2 29 + 2) % 7, leap_date, t2))
dos_set_date-dos_get_date_example =
    dos_set_date-dos_get_date leap_date leap_date timer leap_date-IsDate

init_date-day_to_bcd_example : init_date (chip_date leap_date) ≡ leap_date
init_date-day_to_bcd_example = init_date-day_to_bcd leap_date leap_date-IsDate
