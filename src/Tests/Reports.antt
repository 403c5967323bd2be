-- ===== src/Tests/Reports.antt =====
-- Tests of the samples that report the memory in use.
use multi_task_app.Prelude.{ℕ, ◌+◌, ◌≡◌, refl, true, length, map, some, List, [], ◌∷◌}
use multi_task_app.Task.{MmNode}
use multi_task_app.Mm.{Sys, as_built, os_mm_show2}
use multi_task_app.Mm.Leak.{Request, mallocs, frees, malloc_count, serve}
use multi_task_app.Sockets.{Process, inaddr_broadcast, Sent}
use multi_task_app.Sockets.Broadcast.{
  Broadcast, Answers, broadcast_type_server, os_broadcast_create,
}
use multi_task_app.Sample.Reports.{mm_broadcast_round}
use multi_task_app.Sample.Reported.{mm_broadcast_round-serve}
use multi_task_app.Tests.World.{libc, libc-NeverNull, main_thread, no_memory, allocator, five}

abbrev requests : List Request
requests = mallocs main_thread "f" 3 16 ∷ frees main_thread 1 ∷ mallocs main_thread "f" 4 8 ∷ []

abbrev granted : Answers
granted = record { socket = some 4; setsockopt = true; bind = true }

abbrev process : Process Sys
process = record { opened = []; store = five }

-- A row of one letter and the size.
abbrev text : MmNode → List ℕ
text n = 109 ∷ n.size ∷ []

mm_broadcast_round-serve_example :
    (b : Broadcast) × ((os_broadcast_create allocator granted broadcast_type_server 6666 process).0
      ≡ some b)
    × (t : Sys) × (serve libc as_built requests (some no_memory) ≡ some t)
    × (sent : List Sent) × (mm_broadcast_round text (some b) t ≡ some sent)
    × (sent
        ≡ map
            (λ row. record {
              socket = 4;
              to = record { sin_addr = inaddr_broadcast; sin_port = 6666 };
              bytes = row;
            })
            (os_mm_show2 text true t).0)
    × (length sent ≡ length no_memory.os_mm_list + malloc_count requests)
mm_broadcast_round-serve_example =
    mm_broadcast_round-serve allocator libc requests no_memory text granted 6666 4 process
      libc-NeverNull refl refl
