-- ===== src/Tests/Tasks.antt =====
-- Tests of Task.antt and its children.
use multi_task_app.Prelude.{◌≡◌, refl, some, List, [], ◌∷◌}
use multi_task_app.Task.{Task, os_task_aq_get, find, os_task_name_get_from_pid}
use multi_task_app.Tests.World.{task}

abbrev tasks : List Task
tasks = task "main" 10 0 ∷ task "consumer1" 11 70 ∷ task "consumer1" 12 80 ∷ []

first_queue :
    (os_task_aq_get "consumer1" tasks ≡ 70)
    × (os_task_name_get_from_pid 12 tasks ≡ some "consumer1")
unfolding os_task_aq_get os_task_name_get_from_pid find
first_queue = (refl, refl)
