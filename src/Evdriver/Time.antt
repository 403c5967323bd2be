-- ===== src/Evdriver/Time.antt =====
-- Times in os_evdriver.c.
use multi_task_app.Prelude.{ℕ, ◌+◌, ◌*◌, ◌<◌, ◌≡◌, ◌==◌, Bool-cases, inl, inr, arith}
use multi_task_app.Evdriver.{msec2tspec}

-- msec2tspec keeps the time exactly, and its nanoseconds are less than a second, as
-- timerfd_settime wants them.
pub msec2tspec_exact :
    (msec : ℕ)
    → ((msec2tspec msec).tv_sec * 1000000000 + (msec2tspec msec).tv_nsec ≡ msec * 1000000)
      × ((msec2tspec msec).tv_nsec < 1000000000)
unfolding msec2tspec
msec2tspec_exact msec = elim (Bool-cases (msec == 0)) [
  | inl e ↦ rw e ((ground (arith, e)), omega arith)
  | inr e ↦ rw e (omega arith)
]
