-- ===== src/Task/Ended.antt =====
-- What is left of a task when its thread has ended, in os_task.c.
use multi_task_app.Prelude.{
  ℕ, ◌-◌, ◌≡◌, ◌≢◌, refl, ◌==◌, bit, true, false, some, List, [], ◌∷◌, ◌++◌, ap, ◌∙◌, map,
  occurrences, occurrences-append, arith,
}
use multi_task_app.Alloc.{Allocator, Libc}
use multi_task_app.Task.{Task, MmNode, find}
use multi_task_app.Task.Lookup.{find_first}
use multi_task_app.AsyncQueue.Lifetime.{made, free_made}
use multi_task_app.Msg.{Net}
use multi_task_app.Task.Life.{delist, free_queue, os_task_exit, free_traces}
use multi_task_app.Task.Spawned.{NoTaskAt, free_queue-tasks}

delist_at :
    (t : Task) (before after : List Task)
    → NoTaskAt t.self before
    → delist t.self (before ++ t ∷ after) ≡ before ++ after
unfolding delist
delist_at t [] after h = ground arith
delist_at t (u ∷ before) after h = rw (h.0, delist_at t before after h.1) refl

module _ (m : Allocator) (l : Libc m) where
  open m use {Store, blocks, malloc}

  pub free_queue_at :
      (x : Net Store) (p p' a : ℕ)
      → p ≢ 0
      → p' ≢ 0
      → x.queues p ≡ some (made m p p')
      → blocks (free_queue m l p x).store a ≡ blocks x.store a - bit (p' == a) - bit (p == a)
  unfolding free_queue
  free_queue_at x p p' a h h' e =
      let nonnull : (p == 0) ≡ false = ground (arith, h) in
      rw (nonnull, e) (free_made m p p' x.store a h h')

  free_traces-blocks :
      (ns : List MmNode) (s : Store) (a : ℕ)
      → blocks (free_traces m l ns s) a ≡ blocks s a - occurrences a (map (λ n. n.self) ns)
  unfolding free_traces
  free_traces-blocks [] s a = omega arith
  free_traces-blocks (n ∷ ns) s a =
      omega (arith, free_traces-blocks ns (l.libc_free n.self s) a, l.libc_free_blocks n.self s a)

  -- The end of a task gives back what is its own and no more: os_task_exit of a task that stands
  -- anywhere in the list takes it out and leaves the others in order, and of the live blocks it
  -- frees those of its empty queue, one for each entry that was traced at the task, and the task's
  -- own. The blocks that the entries are about stay, and so do those of other tasks.
  pub exit_gives_back :
      (n : Net Store) (t : Task) (before after : List Task) (inner : ℕ)
      → n.tasks ≡ before ++ t ∷ after
      → NoTaskAt t.self before
      → t.q ≢ 0
      → inner ≢ 0
      → n.queues t.q ≡ some (made m t.q inner)
      → let n' = os_task_exit m l t.self n in
        (n'.tasks ≡ before ++ after)
        × ((a : ℕ)
            → blocks n'.store a
              ≡ blocks n.store a
                - occurrences a (inner ∷ t.q ∷ map (λ mnode. mnode.self) t.head ++ t.self ∷ []))
  unfolding os_task_exit
  exit_gives_back n t before after inner e h hq hi queue =
      let here : (t.self == t.self) ≡ true = ground arith in
      let found =
        ap (find (λ u. t.self == u.self)) e
        ∙ find_first (λ u. t.self == u.self) before after t h here in
      let n1 = free_queue m l t.q n in
      let s = free_traces m l t.head n1.store in
      rw found (
        ap (delist t.self) (free_queue-tasks m l t.q n ∙ e) ∙ delist_at t before after h,
        λ a. omega (
          arith,
          l.libc_free_blocks t.self s a,
          free_traces-blocks t.head n1.store a,
          free_queue_at n t.q inner a hq hi queue,
          occurrences-append a (map (λ mnode. mnode.self) t.head) (t.self ∷ []),
        ),
      )
