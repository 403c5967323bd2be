-- ===== src/Threadpool/Worked.antt =====
-- What the steps of a worker do to the state of a pool.
use multi_task_app.Prelude.{
  ℕ, ◌+◌, ◌≡◌, ◌≢◌, refl, sym, ap, ◌∙◌, ◌⊎◌, ◌==◌, bit, false, inl, inr, map, none, some, List, [],
  ◌∷◌, ◌++◌, append_assoc, head_or, drop_first, occurrences, arith,
}
use multi_task_app.Alloc.{Allocator, Libc}
use multi_task_app.AsyncQueue.{os_async_queue_pop_resume}
use multi_task_app.AsyncQueue.Fifo.{AllNonNull, pop-held}
use multi_task_app.Threadpool.{PoolTask, Work, worker_pop, worker_call, worker_free}
use multi_task_app.Threadpool.System.{
  calls, frees, System, note_taken, note_called, note_freed, step,
}
use multi_task_app.Threadpool.Running.{IsRunning, rebased}
use multi_task_app.Threadpool.Backed.{
  count-append, part_cases, count-map, in_hands, AllCallable, pop-Backed,
}

module _ (m : Allocator) (l : Libc m) (size : ℕ) where
  open m use {Store, blocks}

  -- What is called for the address `r` that a worker took.
  worker_call_cases :
      (xs : List ℕ) (js : List PoolTask) (w : Work Store) (r : ℕ)
      → r ≡ head_or 0 xs
      → map w.tasks xs ≡ js
      → AllNonNull xs
      → AllCallable js
      → ((xs ≡ []) × (js ≡ []) × (worker_call m l r w ≡ none))
        ⊎ ((ys : List ℕ) × (ks : List PoolTask) × (xs ≡ r ∷ ys)
            × (js ≡ w.tasks r ∷ ks)
            × (map w.tasks ys ≡ ks)
            × (worker_call m l r w ≡ some (w.tasks r)))
  unfolding worker_call
  worker_call_cases [] js w r e t n c = inl (refl, sym t, rw e refl)
  worker_call_cases (x ∷ xs) js w r e t n c =
      let callable : (w.tasks x).function ≢ 0 = (rw (← t) at c).0 in
      let real : (x == 0) ≡ false = ground (arith, n.0) in
      let given : ((w.tasks x).function == 0) ≡ false = ground (arith, callable) in
      rw e (inr (xs, map w.tasks xs, refl, sym t, refl, rw (real, given) refl))

  -- The pop of a worker, noted.
  abbrev pub took : ℕ → System Store → System Store
  took u x =
      let (p, w) = worker_pop m l u x.work in
      note_taken (worker_call m l p w) u p (record x { work = w })

  pub take-IsRunning :
      (u : ℕ) (x : System Store) (xs : List ℕ) (js : List PoolTask)
      → IsRunning m l size x xs js
      → (ys : List ℕ) × (ks : List PoolTask) × IsRunning m l size (took u x) ys ks
  unfolding worker_pop note_taken
  take-IsRunning u x xs js v =
      let (r, q, s) = os_async_queue_pop_resume m x.work.queue u x.work.store in
      let (result, rest) = pop-held m u x.work.queue x.work.store xs v.holds in
      let (backed, same) = pop-Backed m u x.work.queue x.work.store v.backed in
      let w : Work Store = record x.work { queue = q; store = s } in
      elim (worker_call_cases xs js w r result v.tasks v.nonnull v.callable) [
        | inl (ex, ej, e) ↦ rw e (
          [],
          [],
          record {
            holds = rest ∙ ap (λ q. some (drop_first q)) ex;
            tasks = refl;
            order = v.order ∙ (λ i. x.taken ++ ej i);
            counts = v.counts;
            nonnull = tt;
            callable = tt;
            backed = backed;
            live = λ a. omega (arith, v.live a, same a);
          },
        )
        | inr (ys, ks, ex, ej, t, e) ↦
            let counted : (a : ℕ) → occurrences a xs ≡ bit (r == a) + occurrences a ys =
              λ a. ap (occurrences a) ex in
            rw e (
              ys,
              ks,
              record {
                holds = rest ∙ ap (λ q. some (drop_first q)) ex;
                tasks = t;
                order =
                    v.order
                    ∙ (λ i. x.taken ++ ej i)
                    ∙ sym (append_assoc x.taken (w.tasks r ∷ []) ks);
                counts = λ f. omega (arith, v.counts f, count-append f x.taken (w.tasks r ∷ []));
                nonnull = (rw ex at v.nonnull).1;
                callable = (rw ej at v.callable).1;
                backed = backed;
                live = λ a. omega (arith, v.live a, same a, counted a);
              },
            )
      ]

  pub call-IsRunning :
      (u : ℕ) (x : System Store) (xs : List ℕ) (js : List PoolTask)
      → IsRunning m l size x xs js
      → IsRunning m l size (step m l size (calls u) x) xs js
  unfolding step note_called
  call-IsRunning u x xs js v = elim (part_cases u x.holding) [
    | inl e ↦ rw e v
    | inr (p, rest, e, addresses, sums) ↦ rw e (record {
      holds = v.holds;
      tasks = v.tasks;
      order = v.order;
      counts = λ f. omega (
        arith,
        v.counts f,
        sums (λ p. bit (f (x.work.tasks p))),
        count-map f x.work.tasks (in_hands x.holding),
        count-map f x.work.tasks (in_hands rest),
        count-append f x.called (x.work.tasks p ∷ []),
      );
      nonnull = v.nonnull;
      callable = v.callable;
      backed = v.backed;
      live = λ a. omega (arith, v.live a, addresses a);
    })
  ]

  pub free-IsRunning :
      (u : ℕ) (x : System Store) (xs : List ℕ) (js : List PoolTask)
      → IsRunning m l size x xs js
      → IsRunning m l size (step m l size (frees u) x) xs js
  unfolding step note_freed worker_free
  free-IsRunning u x xs js v = elim (part_cases u x.calling) [
    | inl e ↦ rw e v
    | inr (p, rest, e, addresses, sums) ↦
        let fewer = l.libc_free_blocks p x.work.store in
        rw e (record {
          holds = v.holds;
          tasks = v.tasks;
          order = v.order;
          counts = v.counts;
          nonnull = v.nonnull;
          callable = v.callable;
          backed =
              rebased m l size x.work.queue x.work.store (l.libc_free p x.work.store)
                (λ a. omega (arith, v.live a, fewer a, addresses a)) v.backed;
          live = λ a. omega (arith, v.live a, fewer a, addresses a);
        })
  ]
