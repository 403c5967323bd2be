-- ===== src/Tests/Sources.antt =====
-- Tests of Glib.antt and its children.
use multi_task_app.Prelude.{◌≡◌, true, none, some, [], ◌∷◌, ◌++◌, arith}
use multi_task_app.Mm.{Sys}
use multi_task_app.Evdriver.{timer}
use multi_task_app.Glib.Evdriver.{Loop, returns, fault, timer_size, dispatch, os_evdriver_add}
use multi_task_app.Glib.Timers.{timer_source, periodic_timer_faults}
use multi_task_app.Tests.World.{allocator, five}

abbrev idle : Loop Sys
idle = record { sources = []; words = λ p. none; store = five }

-- The callback at 300, with 400 for its user data, on the context at 200.
periodic_timer_faults_example :
    let (p, t) = allocator.malloc timer_size five in
    let s = timer_source allocator 200 10 p in
    let (node, l1) = os_evdriver_add allocator 0 200 (timer 5 10) 300 400 idle in
    (node ≡ 200)
    × (l1.sources ≡ [] ++ s ∷ [])
    × (l2 : Loop Sys) × (dispatch allocator s l1 ≡ returns (some (300, 200, 400)) true l2)
    × (dispatch allocator s l2 ≡ fault)
periodic_timer_faults_example =
    periodic_timer_faults allocator 0 200 5 10 300 400 idle (omega arith) (omega arith)
      (omega arith)
