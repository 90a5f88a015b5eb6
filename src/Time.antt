-- ===== src/Time.antt =====
-- kernel/systime.c, kernel/sysclk.c and kernel/initclk.c: the calendar, the clock driver, and the calls that read and
-- set the date and the time. `UWORD`s and `unsigned`s have 16 bits, `ticks_t` has 32.
pub mod Calendar
pub mod Clock
pub mod Table
pub mod RoundTrip
pub mod SetGet
mod Tests
