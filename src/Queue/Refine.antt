-- ===== src/Queue/Refine.antt =====
-- The calls of os_queue.c refine the double-ended queue.
use multi_task_app.Prelude.{ℕ, ◌≡◌, refl, ap, Option, none, some, List, [], ◌∷◌, last_or, drop_last}
use mathlib.Core.Path.{ap₂}
use mathlib.Core.List.{map-append}
use multi_task_app.Alloc.{Allocator, malloc_check}
use multi_task_app.Queue.{
  Queue, Node, queue_size, items, os_queue_push_tail, os_queue_push_head, os_queue_pop_tail,
  os_queue_pop_head,
}
use multi_task_app.Queue.Ops.{
  Op, push_tail, push_head, pop_tail, pop_head, contents?, spec_call, spec_run, call, run,
}

items-drop_last : (ns : List Node) → items (drop_last ns) ≡ drop_last (items ns)
items-drop_last [] = refl
items-drop_last (n ∷ []) = refl
items-drop_last (n ∷ k ∷ ns) = ap (◌∷◌ n.item) (items-drop_last (k ∷ ns))

item-last_or : (n : Node) (ns : List Node) → (last_or n ns).item ≡ last_or n.item (items ns)
item-last_or n [] = refl
item-last_or n (k ∷ ns) = item-last_or k ns

module _ (m : Allocator) where
  open m use {Store}

  call-refines :
      (o : Op) (q : Queue) (ns : List Node) (s : Store)
      → let (r, q', t) = call m o (some (record q { nodes = ns })) s in
        let (v, xs) = spec_call o (items ns) in (r ≡ v) × (contents? q' ≡ some xs)
  unfolding call spec_call os_queue_push_tail os_queue_push_head os_queue_pop_tail os_queue_pop_head
  call-refines (push_tail d) q ns s =
      rw (malloc_check m queue_size s) (refl, ap some (map-append _ ns _))
  call-refines (push_head d) q ns s = rw (malloc_check m queue_size s) (refl, refl)
  call-refines pop_tail q [] s = (refl, refl)
  call-refines pop_tail q (n ∷ ns) s = (item-last_or n ns, ap some (items-drop_last (n ∷ ns)))
  call-refines pop_head q [] s = (refl, refl)
  call-refines pop_head q (n ∷ ns) s = (refl, refl)

  pub call-refines_of :
      (o : Op) (q : Option Queue) (xs : List ℕ) (s : Store)
      → contents? q ≡ some xs
      → ((call m o q s).0 ≡ (spec_call o xs).0)
        × (contents? (call m o q s).1 ≡ some (spec_call o xs).1)
  call-refines_of o none xs s h = cc
  call-refines_of o (some q) xs s h =
      let e : items q.nodes ≡ xs = cc in rw (← e) (call-refines o q q.nodes s)

  -- Any sequence of calls on a queue returns what the double-ended queue with the same contents
  -- returns, and leaves the queue with the contents that the double-ended queue ends with.
  pub run-refines :
      (os : List Op) (q : Option Queue) (xs : List ℕ) (s : Store)
      → contents? q ≡ some xs
      → ((run m os q s).0 ≡ (spec_run os xs).0)
        × (contents? (run m os q s).1 ≡ some (spec_run os xs).1)
  unfolding run spec_run
  run-refines [] q xs s h = (refl, h)
  run-refines (o ∷ os) q xs s h =
      let (e, h') = call-refines_of o q xs s h in
      let (es, hs) = run-refines os (call m o q s).1 (spec_call o xs).1 (call m o q s).2 h' in
      (ap₂ ◌∷◌ e es, hs)
