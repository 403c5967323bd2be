-- ===== src/Threadpool/Order.antt =====
-- The tasks of a pool are taken in order and called once each, under every schedule.
use multi_task_app.Prelude.{
  ℕ, ◌+◌, ◌≡◌, Bool, refl, sym, ◌∙◌, ◌==◌, Bool-cases, inl, inr, map, some, List, [], ◌∷◌, ◌++◌,
  occurrences, arith,
}
use multi_task_app.Alloc.{LibcFresh, Allocator, Libc}
use multi_task_app.AsyncQueue.System.{woken_of}
use multi_task_app.AsyncQueue.Fifo.{held, wake-held, pop_wait-held}
use multi_task_app.Threadpool.{PoolTask, Work}
use multi_task_app.Threadpool.System.{
  Event, adds, waits, wakes, takes, calls, frees, System, step, run,
}
use multi_task_app.Threadpool.Backed.{AddsCallable, count, in_hands, Backed, Backed-live}
use multi_task_app.Threadpool.Running.{
  IsRunning, requeued, waiting-Backed, woken-Backed, add-IsRunning,
}
use multi_task_app.Threadpool.Worked.{took, take-IsRunning, call-IsRunning, free-IsRunning}

module _ (m : Allocator) (l : Libc m) (size : ℕ) where
  open m use {Store, blocks}

  run-IsRunning :
      (es : List Event) (x : System Store) (xs : List ℕ) (js : List PoolTask)
      → LibcFresh m l
      → AddsCallable es
      → IsRunning m l size x xs js
      → (ys : List ℕ) × (ks : List PoolTask) × IsRunning m l size (run m l size es x) ys ks
  unfolding run step
  run-IsRunning [] x xs js fresh h v = (xs, js, v)
  run-IsRunning (adds t task ∷ es) x xs js fresh h v =
      let (ys, ks, w) = add-IsRunning m l size t task x xs js fresh h.0 v in
      run-IsRunning es (step m l size (adds t task) x) ys ks fresh h.1 w
  run-IsRunning (waits u ∷ es) x xs js fresh h v =
      let (b, o) = waiting-Backed m l size u x.work.queue x.work.store v.backed in
      run-IsRunning es (step m l size (waits u) x) xs js fresh h
        (requeued m l size x xs js _ (pop_wait-held u x.work.queue) b o v)
  run-IsRunning (wakes u ∷ es) x xs js fresh h v =
      let (b, o) = woken-Backed m l size u x.work.queue x.work.store v.backed in
      run-IsRunning es (step m l size (wakes u) x) xs js fresh h
        (requeued m l size x xs js _ (wake-held u x.work.queue) b o v)
  run-IsRunning (takes u ∷ es) x xs js fresh h v =
      elim (Bool-cases (occurrences u (woken_of x.work.queue) == 0)) [
        | inl e ↦ rw e (run-IsRunning es x xs js fresh h v)
        | inr e ↦
            let (ys, ks, w) = take-IsRunning m l size u x xs js v in
            rw e (run-IsRunning es (took m l size u x) ys ks fresh h w)
      ]
  run-IsRunning (calls u ∷ es) x xs js fresh h v =
      run-IsRunning es (step m l size (calls u) x) xs js fresh h
        (call-IsRunning m l size u x xs js v)
  run-IsRunning (frees u ∷ es) x xs js fresh h v =
      run-IsRunning es (step m l size (frees u) x) xs js fresh h
        (free-IsRunning m l size u x xs js v)

  -- No task has come yet.
  abbrev pub idle : Work Store → System Store
  idle w = record { work = w; added = []; taken = []; called = []; holding = []; calling = [] }

  -- A pool takes its tasks in order, and calls each once, under every schedule of the threads that
  -- add and the workers, in which a worker's pop, its call and its free are steps of their own: from
  -- a pool whose queue is empty and whose blocks are live, with tasks that have a function each, the
  -- tasks that os_threadpool_add took on are those that workers took from the queue, in order,
  -- followed by those whose blocks the queue still holds; and each of the taken tasks, with its
  -- argument, is among the calls as often as it was taken, but for those that workers hold and have
  -- not called yet. malloc must not give an address where a block is live. The calls of different
  -- workers may come in another order than their tasks.
  pub tasks_taken_in_order :
      (es : List Event) (w : Work Store)
      → LibcFresh m l
      → AddsCallable es
      → held w.queue ≡ some []
      → Backed m w.queue w.store
      → let end = run m l size es (idle w) in
        (ys : List ℕ) × (held end.work.queue ≡ some ys)
        × (end.added ≡ end.taken ++ map end.work.tasks ys)
        × ((f : PoolTask → Bool)
            → count f end.taken
              ≡ count f end.called + count f (map end.work.tasks (in_hands end.holding)))
  tasks_taken_in_order es w fresh h e b =
      let (ys, ks, v) = run-IsRunning es (idle w) [] [] fresh h (record {
        holds = e;
        tasks = refl;
        order = refl;
        counts = λ f. omega arith;
        nonnull = tt;
        callable = tt;
        backed = b;
        live = λ a. omega (arith, Backed-live m w.queue w.store b a);
      }) in
      let end = run m l size es (idle w) in
      (ys, v.holds, v.order ∙ (λ i. end.taken ++ sym v.tasks i), v.counts)
