-- ===== src/Time/Clock/Calls.antt =====
-- kernel/systime.c: DosGetTime, DosSetTime, DosGetDate and DosSetDate over the clock driver.
-- ExecuteClockDriverRequest asks for a whole record, so the driver never reports an error and the
-- retry of BinaryCharIO does not come into play; a fuel of `none` is passed on.
use burdah_dos_system.Base.{ℕ, ◌+◌, ◌-◌, ◌%◌, Bool, ◌||◌, Option, none, some, ltb, if◌then◌else◌}
use burdah_dos_system.Time.Calendar.{
  at, is_leap_year_monthdays, days_from_year_month_day, year_loop, month_loop,
}
use burdah_dos_system.Time.Clock.{
  ClockRecord, Clock, Command, DriverStatus, clk_driver, year_fuel, record_size,
}
use Command.{c_input, c_output}
use DriverStatus.{s_done, e_length, e_failure}

-- `struct dostime`
pub record DosTime : Type 0 where
  pub hour : ℕ
  pub minute : ℕ
  pub second : ℕ
  pub hundredth : ℕ

-- `struct dosdate`
pub record DosDate : Type 0 where
  pub year : ℕ
  pub month : ℕ
  pub monthday : ℕ

-- The results of the setters; `char_failed` is what `char_error` answers.
pub data Outcome : Type 0 where
  success de_invlddata char_failed : Outcome

-- `ClkRecord` and the driver's state.
pub record Timer : Type 0 where
  pub clk_record : ClockRecord
  pub clock : Clock

unfoldable pub failed : DriverStatus → Bool
failed s_done = Bool.false
failed e_length = Bool.true
failed e_failure = Bool.true

unfoldable pub execute_clock_driver_request : Command → Timer → Option (Bool × Timer)
unfolding clk_driver failed
execute_clock_driver_request command t =
    elim (clk_driver command record_size t.clk_record t.clock) [
      | none ↦ none
      | some (status, r, k) ↦ some (failed status, record { clk_record = r; clock = k })
    ]

unfoldable pub dos_get_time : Timer → DosTime → Option (DosTime × Timer)
unfolding execute_clock_driver_request
dos_get_time t dt = elim (execute_clock_driver_request c_input t) [
  | none ↦ none
  | some (error, t1) ↦
      if error
      then some (dt, t1)
      else some (
        record {
          hour = t1.clk_record.clk_hours;
          minute = t1.clk_record.clk_minutes;
          second = t1.clk_record.clk_seconds;
          hundredth = t1.clk_record.clk_hundredths;
        },
        t1,
      )
]

-- The clock is asked to take over `ClkRecord`, as `change` leaves it after it has been read.
unfoldable pub update_clock : (ClockRecord → ClockRecord) → Timer → Option (Outcome × Timer)
unfolding execute_clock_driver_request
update_clock change t = elim (execute_clock_driver_request c_input t) [
  | none ↦ none
  | some (_, t1) ↦
      elim (execute_clock_driver_request c_output
        (record t1 { clk_record = change t1.clk_record })) [
          | none ↦ none
          | some (error, t2) ↦ some (if error then Outcome.char_failed else Outcome.success, t2)
        ]
]

unfoldable pub invalid_time : DosTime → Bool
invalid_time dt = ltb 23 dt.hour || ltb 59 dt.minute || ltb 59 dt.second || ltb 99 dt.hundredth

unfoldable pub dos_set_time : DosTime → Timer → Option (Outcome × Timer)
unfolding update_clock invalid_time
dos_set_time dt t =
    if invalid_time dt
    then some (Outcome.de_invlddata, t)
    else update_clock
        (λ r. record r {
          clk_hours = dt.hour;
          clk_minutes = dt.minute;
          clk_seconds = dt.second;
          clk_hundredths = dt.hundredth;
        })
        t

-- The date of a count of days.
unfoldable pub date_of : ℕ → Option DosDate
unfolding year_loop month_loop is_leap_year_monthdays
date_of days = elim (year_loop year_fuel 1980 days) [
  | none ↦ none
  | some (y, c) ↦
      let pdays = is_leap_year_monthdays y in
      elim (month_loop 12 pdays 1 c) [
        | none ↦ none
        | some m ↦
            some (record { year = y; month = m; monthday = (c - at pdays (m - 1) + 1) % 256 })
      ]
]

-- The day of the week, the date and the state.
unfoldable pub dos_get_date : Timer → DosDate → Option (ℕ × DosDate × Timer)
unfolding execute_clock_driver_request date_of
dos_get_date t dd = elim (execute_clock_driver_request c_input t) [
  | none ↦ none
  | some (error, t1) ↦ if error then some (0, dd, t1) else elim (date_of t1.clk_record.clk_days) [
    | none ↦ none
    | some found ↦ some ((t1.clk_record.clk_days + 2) % 7, found, t1)
  ]
]

unfoldable pub invalid_date : DosDate → Bool
unfolding is_leap_year_monthdays
invalid_date dd =
    let pdays = is_leap_year_monthdays dd.year in
    ltb dd.year 1980
    || ltb 2099 dd.year
    || ltb dd.month 1
    || ltb 12 dd.month
    || ltb dd.monthday 1
    || ltb (at pdays dd.month - at pdays (dd.month - 1)) dd.monthday

unfoldable pub dos_set_date : DosDate → Timer → Option (Outcome × Timer)
unfolding update_clock invalid_date days_from_year_month_day
dos_set_date dd t =
    if invalid_date dd
    then some (Outcome.de_invlddata, t)
    else update_clock
        (λ r. record r { clk_days = days_from_year_month_day dd.year dd.month dd.monthday }) t
