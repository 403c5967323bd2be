-- ===== src/Queue/Ops.antt =====
-- Sequences of calls on a queue of os_queue.c, and the double-ended queue that they should be.
use multi_task_app.Prelude.{
  ℕ, Option, none, some, List, [], ◌∷◌, ◌++◌, head_or, last_or, drop_first, drop_last,
}
use multi_task_app.Alloc.{Allocator}
use multi_task_app.Queue.{
  Queue, items, os_queue_push_tail, os_queue_push_head, os_queue_pop_tail, os_queue_pop_head,
}

pub data Op : Type 0 where
  push_tail push_head : ℕ → Op
  pop_tail pop_head : Op

-- The contents of a queue, first to last.
abbrev pub contents? : Option Queue → Option (List ℕ)
contents? none = none
contents? (some q) = some (items q.nodes)

-- The double-ended queue, as a list: a call's result (NULL for a push) and the list after it.
unfoldable pub spec_call : Op → List ℕ → ℕ × List ℕ
spec_call (push_tail d) xs = (0, xs ++ d ∷ [])
spec_call (push_head d) xs = (0, d ∷ xs)
spec_call pop_tail xs = (last_or 0 xs, drop_last xs)
spec_call pop_head xs = (head_or 0 xs, drop_first xs)

unfoldable pub spec_run : List Op → List ℕ → List ℕ × List ℕ
spec_run [] xs = ([], xs)
spec_run (o ∷ os) xs = let (r, ys) = spec_call o xs in let (rs, zs) = spec_run os ys in (r ∷ rs, zs)

module _ (m : Allocator) where
  open m use {Store}

  unfoldable pub call : Op → Option Queue → Store → ℕ × Option Queue × Store
  call (push_tail d) q s = let (q', t) = os_queue_push_tail m q d s in (0, q', t)
  call (push_head d) q s = let (q', t) = os_queue_push_head m q d s in (0, q', t)
  call pop_tail q s = os_queue_pop_tail m q s
  call pop_head q s = os_queue_pop_head m q s

  unfoldable pub run : List Op → Option Queue → Store → List ℕ × Option Queue × Store
  run [] q s = ([], q, s)
  run (o ∷ os) q s =
      let (r, q', t) = call o q s in let (rs, q'', u) = run os q' t in (r ∷ rs, q'', u)
