-- ===== src/Tests/Queues.antt =====
-- Tests of Queue.antt and its children.
use multi_task_app.Prelude.{
  ℕ, ◌+◌, ◌≤◌, ◌≡◌, refl, ◌==◌, bit, occurrences, some, List, [], ◌∷◌, arith,
}
use multi_task_app.Queue.{Queue, addrs, items, os_queue_free, os_queue_empty, os_queue_length}
use multi_task_app.Queue.Ops.{
  Op, push_tail, push_head, pop_tail, pop_head, contents?, spec_call, spec_run, run,
}
use multi_task_app.Queue.Refine.{run-refines}
use multi_task_app.Queue.Memory.{owned, non_null, IsBacked, run-blocks, os_queue_free_leaks_nodes}
use multi_task_app.Prelude.{◌↔◌}
use multi_task_app.Queue.View.{Alike, pops, calls_show_items}
use multi_task_app.Tests.World.{no_memory, allocator, five}

abbrev empty : Queue
empty = record { addr = 5; nodes = [] }

abbrev calls : List Op
calls = push_tail 1 ∷ push_tail 2 ∷ push_head 3 ∷ pop_tail ∷ pop_head ∷ pop_head ∷ pop_head ∷ []

results : (spec_run calls []).0 ≡ 0 ∷ 0 ∷ 0 ∷ 2 ∷ 3 ∷ 1 ∷ 0 ∷ []
unfolding spec_run spec_call
results = refl

lengths : (os_queue_empty (some empty) ≡ 1) × (os_queue_length empty ≡ 0)
unfolding os_queue_empty os_queue_length
lengths = (refl, refl)

run-refines_example :
    ((run allocator calls (some empty) five).0 ≡ (spec_run calls []).0)
    × (contents? (run allocator calls (some empty) five).1 ≡ some (spec_run calls []).1)
run-refines_example = run-refines allocator calls (some empty) [] five refl

empty-IsBacked : IsBacked allocator (some empty) five
empty-IsBacked = record { live = λ a. omega arith; nonnull = refl }

run-blocks_example :
    ((a : ℕ)
      → occurrences a (run allocator calls (some empty) five).2.user
          + occurrences a (owned (some empty))
        ≡ occurrences a five.user + occurrences a (owned (run allocator calls (some empty) five).1))
    × IsBacked allocator
        (run allocator calls (some empty) five).1
        (run allocator calls (some empty) five).2
run-blocks_example = run-blocks allocator calls (some empty) five empty-IsBacked

abbrev full : Queue
full = record {
  addr = 5;
  nodes = record { addr = 6; item = 8 } ∷ record { addr = 7; item = 0 } ∷ [];
}

os_queue_free_leaks_nodes_example :
    let s = record no_memory { user = 5 ∷ 6 ∷ 7 ∷ 8 ∷ [] } in
    (occurrences 6 (os_queue_free allocator (some full) s).user
        + occurrences 6 (non_null (items full.nodes))
        + bit (full.addr == 6)
      ≡ occurrences 6 s.user)
    × (occurrences 6 (addrs full.nodes)
        ≤ occurrences 6 (os_queue_free allocator (some full) s).user)
os_queue_free_leaks_nodes_example =
    os_queue_free_leaks_nodes allocator full (record no_memory { user = 5 ∷ 6 ∷ 7 ∷ 8 ∷ [] })
      (omega arith) (λ a. omega arith) 6

-- The same items at other addresses.
abbrev here : Queue
here = record {
  addr = 5;
  nodes = record { addr = 6; item = 3 } ∷ record { addr = 7; item = 1 } ∷ [];
}

abbrev there : Queue
there = record {
  addr = 9;
  nodes = record { addr = 2; item = 3 } ∷ record { addr = 4; item = 1 } ∷ [];
}

calls_show_items_example :
    ((run allocator (pops (os_queue_length here)) (some here) no_memory).0 ≡ 3 ∷ 1 ∷ [])
    × (Alike allocator here there ↔ (items here.nodes ≡ items there.nodes))
calls_show_items_example = calls_show_items allocator no_memory here there
