-- ===== src/Time/SetGet.antt =====
-- kernel/systime.c, kernel/sysclk.c: what the calls that set the clock leave behind.
use burdah_dos_system.Base.{ℕ, ◌+◌, ◌%◌, ◌≡◌, refl, ap, ◌∙◌, some}
use burdah_dos_system.Time.Calendar.{days_from_year_month_day}
use burdah_dos_system.Time.Table.{IsDate}
use burdah_dos_system.Time.RoundTrip.{
  date_of-days_from_year_month_day, driver_date-days_from_year_month_day,
}
use burdah_dos_system.Time.Clock.{
  ClockRecord, Clock, driver_date, read_record, write_record, day_to_bcd,
}
use burdah_dos_system.Time.Clock.Calls.{
  DosDate, Timer, Outcome, update_clock, date_of, dos_get_date, dos_set_date,
}

write_record-done :
    (k : Clock) (r : ClockRecord) (y m d : ℕ)
    → driver_date r.clk_days ≡ some (y, m, d)
    → (k1 : Clock) × (write_record k r ≡ some k1)
      × (k1.days_since_epoch ≡ r.clk_days)
      × (k1.at_clock.bcd_days ≡ day_to_bcd m d y)
unfolding write_record
write_record-done k r y m d h = rw (h, write_record) (_, refl, refl, refl)

update_clock-done :
    (change : ClockRecord → ClockRecord) (t : Timer) (k1 : Clock)
    → write_record t.clock (change (read_record t.clock)) ≡ some k1
    → update_clock change t
      ≡ some (Outcome.success, record { clk_record = change (read_record t.clock); clock = k1 })
unfolding update_clock
update_clock-done change t k1 h = rw (h, update_clock) refl

dos_get_date-found :
    (t : Timer) (before dd : DosDate)
    → date_of t.clock.days_since_epoch ≡ some dd
    → dos_get_date t before
      ≡ some ((t.clock.days_since_epoch + 2) % 7, dd, record t { clk_record = read_record t.clock })
unfolding dos_get_date read_record
dos_get_date-found t before dd h = rw (h, dos_get_date) refl

dos_set_date-valid :
    (dd : DosDate) (t : Timer)
    → IsDate dd
    → dos_set_date dd t
      ≡ update_clock
          (λ r. record r { clk_days = days_from_year_month_day dd.year dd.month dd.monthday })
          t
unfolding dos_set_date
dos_set_date-valid dd t h = rw h refl

-- A valid date is taken: DosSetDate succeeds, the driver holds the date's count of days and its chip
-- the date in BCD; DosGetDate then answers that date, with the day of the week that the count gives.
pub dos_set_date-dos_get_date :
    (dd before : DosDate) (t : Timer)
    → IsDate dd
    → (t1 : Timer) × (dos_set_date dd t ≡ some (Outcome.success, t1))
      × (t1.clock.days_since_epoch ≡ days_from_year_month_day dd.year dd.month dd.monthday)
      × (t1.clock.at_clock.bcd_days ≡ day_to_bcd dd.month dd.monthday dd.year)
      × (t2 : Timer) × (dos_get_date t1 before
          ≡ some ((days_from_year_month_day dd.year dd.month dd.monthday + 2) % 7, dd, t2))
dos_set_date-dos_get_date dd before t h =
    let days = days_from_year_month_day dd.year dd.month dd.monthday in
    let change : ClockRecord → ClockRecord = λ r. record r { clk_days = days } in
    let (k1, wrote, kept, chip) =
      write_record-done t.clock (change (read_record t.clock)) dd.year dd.month dd.monthday
        (driver_date-days_from_year_month_day dd h) in
    let t1 : Timer = record { clk_record = change (read_record t.clock); clock = k1 } in
    let found : date_of k1.days_since_epoch ≡ some dd =
      rw kept (date_of-days_from_year_month_day dd h) in
    (
      t1,
      dos_set_date-valid dd t h ∙ update_clock-done change t k1 wrote,
      kept,
      chip,
      record t1 { clk_record = read_record k1 },
      dos_get_date-found t1 before dd found
          ∙ ap (λ n. some ((n + 2) % 7, dd, record t1 { clk_record = read_record k1 })) kept,
    )
