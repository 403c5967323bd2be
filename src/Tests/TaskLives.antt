-- ===== src/Tests/TaskLives.antt =====
-- Tests of the life of a task.
use multi_task_app.Prelude.{ℕ, ◌≡◌, ◌≢◌, refl, true, some, none, [], ◌∷◌, occurrences, arith}
use multi_task_app.Mm.{Sys, take_user}
use multi_task_app.Task.{Task, MmNode, os_task_aq_get, os_task_aq_self}
use multi_task_app.AsyncQueue.Fifo.{held}
use multi_task_app.AsyncQueue.Lifetime.{made}
use multi_task_app.Msg.{Msg, Net}
use multi_task_app.Task.Life.{Params, task_size, os_task_create, os_task_exit}
use multi_task_app.Task.Spawned.{task_create_reachable}
use multi_task_app.Task.Ended.{exit_gives_back}
use multi_task_app.Prelude.{◌-◌, map, ◌++◌}
use multi_task_app.Tests.World.{allocator, c_library, five, task}

abbrev nothing : Msg
nothing = record { src = none; dst = ""; priority = 0; bytes = [] }

abbrev net : Net Sys
net = record {
  tasks = task "main" 20 0 ∷ [];
  queues = λ p. none;
  msgs = λ p. nothing;
  buffers = λ p. [];
  store = five;
}

abbrev params : Params
params = record { name = "worker"; stack_size = 0; priority = 0; func = 400; arg = 0 }

abbrev with_task : Sys
with_task = record five { user = 6 ∷ five.user }

allocated : c_library.libc_malloc task_size net.store ≡ some (6, with_task)
unfolding take_user
allocated = refl

task_create_reachable_example :
    let (r, n') = os_task_create allocator c_library true params net in
    let q = os_task_aq_get "worker" n'.tasks in
    (r ≡ 6)
    × (map (λ t. t.self) n'.tasks ≡ map (λ t. t.self) net.tasks ++ 6 ∷ [])
    × (q ≢ 0)
    × (held (n'.queues q) ≡ some [])
    × (os_task_aq_self 20 n'.tasks ≡ os_task_aq_self 20 net.tasks)
task_create_reachable_example =
    task_create_reachable allocator c_library params net 6 with_task 20 allocated (refl, tt)
      (omega arith)

-- A block that the task allocated is traced at it, by the entry at 9; another task comes behind.
abbrev traced : MmNode
traced = record {
  self = 9;
  os_task_name = some "worker";
  pid = 31;
  tid = 30;
  func = "work";
  line = 4;
  size = 16;
  addr = 10;
}

abbrev ending : Task
ending = record (task "worker" 30 7) { head = traced ∷ [] }

abbrev last : Task
last = record (task "last" 40 0) { self = 50 }

abbrev working : Net Sys
working = record net {
  tasks = ending ∷ last ∷ [];
  queues = λ p. some (made allocator 7 8);
  store = record five { user = 7 ∷ 8 ∷ 9 ∷ 10 ∷ ending.self ∷ [] };
}

exit_gives_back_example :
    let n' = os_task_exit allocator c_library ending.self working in
    (n'.tasks ≡ last ∷ [])
    × ((a : ℕ)
        → occurrences a n'.store.user
          ≡ occurrences a working.store.user - occurrences a (8 ∷ 7 ∷ 9 ∷ ending.self ∷ []))
exit_gives_back_example =
    exit_gives_back allocator c_library working ending [] (last ∷ []) 8 refl tt (omega arith)
      (omega arith) refl
