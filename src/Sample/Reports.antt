-- ===== src/Sample/Reports.antt =====
-- sample/mm_broadcast.c, task_broadcast.c, task_multicast.c and task_json.c: programs that report
-- the memory in use, a round of the loop of main at a time.
use multi_task_app.Prelude.{ℕ, true, Option, none, some, List, [], ◌∷◌}
use multi_task_app.Alloc.{Allocator}
use multi_task_app.Task.{MmNode}
use multi_task_app.Mm.{Sys, os_mm_show2}
use multi_task_app.Monitor.{os_task_mm_json_get}
use multi_task_app.Msg.{Status, success, failure}
use multi_task_app.Sockets.{Sent}
use multi_task_app.Sockets.Broadcast.{Broadcast, os_broadcast_send}
use multi_task_app.Sockets.Multicast.{Multicast, os_multicast_send}
use multi_task_app.Sample.{Pointers, free_in_round}

-- A datagram and those that follow it: the assert of the send function stops the process, `none`.
unfoldable pub followed : Option Sent → Option (List Sent) → Option (List Sent)
followed none rest = none
followed (some d) none = none
followed (some d) (some rest) = some (d ∷ rest)

-- __mm_broadcast with what g_b points to.
unfoldable pub mm_broadcast : Option Broadcast → List ℕ → Option Sent
mm_broadcast g_b s = os_broadcast_send g_b s

-- The calls of __mm_broadcast that os_mm_show2 makes.
unfoldable pub broadcast_all : Option Broadcast → List (List ℕ) → Option (List Sent)
unfolding followed mm_broadcast
broadcast_all g_b [] = some []
broadcast_all g_b (s ∷ rows) = followed (mm_broadcast g_b s) (broadcast_all g_b rows)

-- A round of mm_broadcast.c: `text` is what the format makes of an entry.
unfoldable pub mm_broadcast_round : (MmNode → List ℕ) → Option Broadcast → Sys → Option (List Sent)
unfolding broadcast_all
mm_broadcast_round text g_b s = broadcast_all g_b (os_mm_show2 text true s).1

-- The send of a round that has a text.
sent_json : (List ℕ → Option Sent) → Status × Option (List ℕ) → Option (List Sent)
unfolding followed
sent_json send (failure, pjson) = some []
sent_json send (success, none) = none
sent_json send (success, some text) = followed (send text) (some [])

-- A round of task_broadcast.c and of task_multicast.c; `pjson` is what it holds before.
unfoldable pub task_broadcast_round : Option Broadcast → Option (List ℕ) → Option (List Sent)
unfolding sent_json os_task_mm_json_get
task_broadcast_round b pjson = sent_json (os_broadcast_send b) (os_task_mm_json_get pjson)

unfoldable pub task_multicast_round : Option Multicast → Option (List ℕ) → Option (List Sent)
unfolding sent_json os_task_mm_json_get
task_multicast_round m pjson = sent_json (os_multicast_send m) (os_task_mm_json_get pjson)

module _ (m : Allocator) where
  open m use {Store, free}

  -- What a round of task_json.c logs, if it has a text; the text is freed. Then a round goes on as
  -- in sample.c. `at` is the address of the text.
  logged_json : ℕ → Status × Option (List ℕ) → Store → Option (List ℕ) × Store
  logged_json at (failure, pjson) s = (none, s)
  logged_json at (success, none) s = (none, s)
  logged_json at (success, some text) s = (some text, free at s)

  unfoldable pub task_json_round :
      ℕ → ℕ → Option (List ℕ) → Pointers → Store → Option (List ℕ) × Pointers × Store
  unfolding logged_json free_in_round os_task_mm_json_get
  task_json_round at cnt pjson ps s =
      let (line, s') = logged_json at (os_task_mm_json_get pjson) s in
      let (ps', s'') = free_in_round m cnt ps s' in (line, ps', s'')
