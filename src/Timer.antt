-- ===== src/Timer.antt =====
-- platform/os/linux/base/os_timer.c: a stop watch on the monotonic clock.
pub mod Elapsed
use multi_task_app.Prelude.{ℕ, ◌+◌, ◌-◌, ◌*◌, ◌/◌, ◌%◌, Option, none, some}

-- struct timespec as clock_gettime fills it in.
pub record Timespec : Type 0 where
  pub tv_sec : ℕ
  pub tv_nsec : ℕ

pub record Timer : Type 0 where
  pub start : ℕ
  pub end : ℕ

abbrev pub second : ℕ
second = 1000000

-- The microseconds of a clock that fits a long long, as that of a machine does for 290000 years.
unfoldable pub get_monotonic_time : Timespec → ℕ
get_monotonic_time ts = ts.tv_sec * second + ts.tv_nsec / 1000

-- The functions take `none` for NULL, and what the clock says during the call.
unfoldable pub os_timer_start : Timespec → Option Timer → Option Timer
unfolding get_monotonic_time
os_timer_start now none = none
os_timer_start now (some timer) = some (record { start = get_monotonic_time now; end = 0 })

-- The result and the timer. The clock is monotonic: `elapsed` is not negative after a start.
unfoldable pub os_timer_stop : Timespec → Option Timer → ℕ × Option Timer
unfolding get_monotonic_time
os_timer_stop now none = (0, none)
os_timer_stop now (some timer) =
    let end = get_monotonic_time now in
    ((end - timer.start) % second, some (record timer { end = end }))
