-- ===== src/Timer/Elapsed.antt =====
-- What a stop watch of os_timer.c shows.
use multi_task_app.Prelude.{ℕ, ◌+◌, ◌-◌, ◌≤◌, ◌<◌, ◌≡◌, some, arith}
use multi_task_app.Timer.{
  Timespec, Timer, second, get_monotonic_time, os_timer_start, os_timer_stop,
}

-- A clock that is some seconds further.
abbrev pub later : ℕ → Timespec → Timespec
later seconds ts = record ts { tv_sec = ts.tv_sec + seconds }

-- os_timer_stop returns the microseconds since os_timer_start if they are less than a second, and
-- loses the whole seconds of a longer time: it returns as much if the call comes any number of
-- seconds later. The clock must not have gone back.
pub os_timer_stop-os_timer_start :
    (t u : Timespec) (timer : Timer) (seconds : ℕ)
    → get_monotonic_time t ≤ get_monotonic_time u
    → get_monotonic_time u - get_monotonic_time t < second
    → (os_timer_stop (later seconds u) (os_timer_start t (some timer))).0
      ≡ get_monotonic_time u - get_monotonic_time t
unfolding os_timer_stop os_timer_start get_monotonic_time
os_timer_stop-os_timer_start t u timer seconds h short = omega (arith, h, short)
