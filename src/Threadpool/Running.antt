-- ===== src/Threadpool/Running.antt =====
-- The state of a pool between the events of a schedule, and what an event does to it.
use multi_task_app.Prelude.{
  ℕ, ◌+◌, ◌≤◌, ◌≡◌, ◌≢◌, refl, sym, ap, ◌∙◌, ◌==◌, ltb, bit, Bool, Bool-cases, Option-cases, inl,
  inr, map, Option, none, some, List, [], ◌∷◌, ◌++◌, append_assoc, occurrences, occurrences-append,
  arith,
}
use multi_task_app.Alloc.{LibcFresh, Allocator, Libc}
use multi_task_app.AsyncQueue.{AsyncQueue, os_async_queue_push, os_async_queue_pop_wait}
use multi_task_app.AsyncQueue.System.{wake}
use multi_task_app.AsyncQueue.Fifo.{held, AllNonNull, AllNonNull-append, push-held}
use multi_task_app.Msg.{update}
use multi_task_app.Msg.Delivery.{update_self, pushed_self}
use multi_task_app.Threadpool.{PoolTask, max_queue, pool_task_size, os_threadpool_add}
use multi_task_app.Threadpool.System.{adds, System, note_added, step}
use multi_task_app.Threadpool.Backed.{
  owned_by, count, in_hands, AllCallable, AllCallable-append, map-append, map-update, Backed,
  push-Backed,
}

module _ (m : Allocator) (l : Libc m) (size : ℕ) where
  open m use {Store, blocks}

  -- The queue holds the addresses `xs` of the tasks `js`, which are those added and not taken; the
  -- taken ones are called or in the hands of workers; and no block has two uses.
  pub record IsRunning (x : System Store) (xs : List ℕ) (js : List PoolTask) : Type 0 where
    pub holds : held x.work.queue ≡ some xs
    pub tasks : map x.work.tasks xs ≡ js
    pub order : x.added ≡ x.taken ++ js
    pub counts :
        (f : PoolTask → Bool)
        → count f x.taken ≡ count f x.called + count f (map x.work.tasks (in_hands x.holding))
    pub nonnull : AllNonNull xs
    pub callable : AllCallable js
    pub backed : Backed m x.work.queue x.work.store
    pub live :
        (a : ℕ)
        → occurrences a (owned_by x.work.queue)
            + occurrences a xs
            + occurrences a (in_hands x.holding)
            + occurrences a (in_hands x.calling)
          ≤ blocks x.work.store a

  -- The queue is another, which holds the same.
  pub requeued :
      (x : System Store) (xs : List ℕ) (js : List PoolTask) (q : Option AsyncQueue)
      → held q ≡ held x.work.queue
      → Backed m q x.work.store
      → owned_by q ≡ owned_by x.work.queue
      → IsRunning x xs js
      → IsRunning (record x { work = record x.work { queue = q } }) xs js
  requeued x xs js q h b o v = record {
    holds = h ∙ v.holds;
    tasks = v.tasks;
    order = v.order;
    counts = v.counts;
    nonnull = v.nonnull;
    callable = v.callable;
    backed = b;
    live = λ a. rw o (v.live a);
  }

  pub waiting-Backed :
      (u : ℕ) (q : Option AsyncQueue) (s : Store)
      → Backed m q s
      → Backed m (os_async_queue_pop_wait q u) s
        × (owned_by (os_async_queue_pop_wait q u) ≡ owned_by q)
  unfolding os_async_queue_pop_wait
  waiting-Backed u none s v = (tt, refl)
  waiting-Backed u (some q) s v = (v, refl)

  pub woken-Backed :
      (u : ℕ) (q : Option AsyncQueue) (s : Store)
      → Backed m q s
      → Backed m (wake u q) s × (owned_by (wake u q) ≡ owned_by q)
  unfolding wake
  woken-Backed u none s v = (tt, refl)
  woken-Backed u (some q) s v = (v, refl)

  pub rebased :
      (q : Option AsyncQueue) (s t : Store)
      → ((a : ℕ) → occurrences a (owned_by q) ≤ blocks t a)
      → Backed m q s
      → Backed m q t
  rebased none s t h v = tt
  rebased (some q) s t h v = record { live = h; nonnull = v.nonnull }

  -- A task whose block is at `p` is pushed.
  abbrev pushed_at : ℕ → ℕ → Store → PoolTask → System Store → System Store
  pushed_at t p s task x =
      let (queue, s') = os_async_queue_push m t x.work.queue p s in
      record x {
        work = record { queue = queue; tasks = update x.work.tasks p task; store = s' };
        added = x.added ++ task ∷ [];
      }

  pushed-IsRunning :
      (t p : ℕ) (s : Store) (task : PoolTask) (x : System Store) (xs : List ℕ) (js : List PoolTask)
      → LibcFresh m l
      → task.function ≢ 0
      → l.libc_malloc pool_task_size x.work.store ≡ some (p, s)
      → IsRunning x xs js
      → IsRunning (pushed_at t p s task x) (xs ++ p ∷ []) (js ++ task ∷ [])
  pushed-IsRunning t p s task x xs js fresh hf e v =
      let nonzero = l.libc_malloc_nonnull pool_task_size p x.work.store s e in
      let more : (a : ℕ) → blocks s a ≡ blocks x.work.store a + bit (p == a) =
        λ a. l.libc_malloc_blocks pool_task_size p x.work.store s a e in
      let grown =
        rebased x.work.queue x.work.store s (λ a. omega (arith, more a, v.live a)) v.backed in
      let (backed, same) = push-Backed m t p x.work.queue s nonzero grown in
      let unlisted : occurrences p xs ≡ 0 =
        omega (arith, v.live p, fresh pool_task_size p x.work.store s e) in
      let unheld : occurrences p (in_hands x.holding) ≡ 0 =
        omega (arith, v.live p, fresh pool_task_size p x.work.store s e) in
      record {
        holds =
            push-held m t p x.work.queue s xs v.holds
            ∙ ap (λ q. some (xs ++ q)) (pushed_self t p nonzero);
        tasks = map-append (update x.work.tasks p task) xs (p ∷ []) ∙ (λ i.
            (map-update x.work.tasks p task xs unlisted ∙ v.tasks) i
            ++ update_self x.work.tasks p task i ∷ []);
        order = ap (λ q. q ++ task ∷ []) v.order ∙ append_assoc x.taken js (task ∷ []);
        counts = λ f.
            v.counts f
            ∙ ap (λ ts. count f x.called + count f ts)
                (sym (map-update x.work.tasks p task (in_hands x.holding) unheld));
        nonnull = AllNonNull-append xs (p ∷ []) v.nonnull (nonzero, tt);
        callable = AllCallable-append js (task ∷ []) v.callable (hf, tt);
        backed = backed;
        live = λ a. omega (arith, same a, more a, v.live a, occurrences-append a xs (p ∷ []));
      }

  pub add-IsRunning :
      (t : ℕ) (task : PoolTask) (x : System Store) (xs : List ℕ) (js : List PoolTask)
      → LibcFresh m l
      → task.function ≢ 0
      → IsRunning x xs js
      → (ys : List ℕ) × (ks : List PoolTask) × IsRunning (step m l size (adds t task) x) ys ks
  unfolding step note_added os_threadpool_add
  add-IsRunning t task x xs js fresh hf v = elim (Bool-cases (ltb size max_queue)) [
    | inl e ↦ elim (Option-cases (l.libc_malloc pool_task_size x.work.store)) [
      | inl f ↦ rw (e, f) (xs, js, v)
      | inr ((p, s), f) ↦ rw (e, f) (_, _, pushed-IsRunning t p s task x xs js fresh hf f v)
    ]
    | inr e ↦ rw e (xs, js, v)
  ]
