-- ===== src/Task/Spawned.antt =====
-- What the creation of a task and its end leave behind, in os_task.c.
use multi_task_app.Prelude.{
  ℕ, ◌-◌, ◌≡◌, ◌≢◌, refl, ◌==◌, bit, Bool, true, false, Bool-cases, inl, inr, some, List, map, [],
  ◌∷◌, ◌++◌, ap, ◌∙◌, str_eq, str_eq_iff, String, arith,
}
use mathlib.Core.List.{map-append}
use multi_task_app.Alloc.{Allocator, Libc, malloc_check}
use multi_task_app.Task.{
  name_of, queue_of, os_task_name_get_from_tid, Task, find, os_task_aq_get, os_task_aq_self,
}
use multi_task_app.Task.Lookup.{NoneHas, find_first}
use multi_task_app.Queue.{queue_size}
use multi_task_app.AsyncQueue.{async_queue_size}
use multi_task_app.AsyncQueue.Fifo.{held}
use multi_task_app.AsyncQueue.Lifetime.{made, os_async_queue_new_lem, free_made}
use multi_task_app.Msg.{Net, update}
use multi_task_app.Msg.Delivery.{update_self}
use multi_task_app.Task.Life.{
  os_task_init, Params, task_size, new_task, delist, set_thread, free_queue, start, with_new_queue,
  os_task_create,
}

-- No task of the list stands at the address.
abbrev pub NoTaskAt : ℕ → List Task → Type 0
NoTaskAt self = NoneHas (λ t. self == t.self)

pub delist_last :
    (t : Task) (ts : List Task) → NoTaskAt t.self ts → delist t.self (ts ++ t ∷ []) ≡ ts
unfolding delist
delist_last t [] h = ground arith
delist_last t (u ∷ ts) h = rw (h.0, delist_last t ts h.1) refl

pub set_thread_last :
    (tid pid : ℕ) (t : Task) (ts : List Task)
    → NoTaskAt t.self ts
    → set_thread t.self tid pid (ts ++ t ∷ []) ≡ ts ++ record t { tid = tid; pid = pid } ∷ []
unfolding set_thread
set_thread_last tid pid t [] h = ground arith
set_thread_last tid pid t (u ∷ ts) h = rw (h.0, set_thread_last tid pid t ts h.1) refl

aq_get_last :
    (t : Task) (ts : List Task)
    → NoneHas (λ u. str_eq t.name u.name) ts
    → os_task_aq_get t.name (ts ++ t ∷ []) ≡ t.q
unfolding os_task_aq_get
aq_get_last t ts h =
    rw (find_first (λ u. str_eq t.name u.name) ts [] t h (ground (arith, str_eq_iff t.name t.name)))
      refl

aq_self_unstarted :
    (tid : ℕ) (t : Task) (ts : List Task)
    → tid ≢ 0
    → t.tid ≡ 0
    → os_task_aq_self tid (ts ++ t ∷ []) ≡ os_task_aq_self tid ts
unfolding os_task_aq_self find
aq_self_unstarted tid t [] h e = ground (arith, h, e)
aq_self_unstarted tid t (u ∷ ts) h e = elim (Bool-cases (tid == u.tid)) [
  | inl b ↦ rw b refl
  | inr b ↦ rw b (aq_self_unstarted tid t ts h e)
]

-- The thread that __os_task_init registers is found by its name, and has no queue.
pub init_found :
    (self : ℕ) (comm : String) (tid pid : ℕ) (ts : List Task)
    → NoneHas (λ t. tid == t.tid) ts
    → let ts' = os_task_init self comm tid pid ts in
      (os_task_name_get_from_tid tid ts' ≡ some comm) × (os_task_aq_self tid ts' ≡ 0)
unfolding os_task_init os_task_name_get_from_tid os_task_aq_self
init_found self comm tid pid ts h =
    let here : (tid == tid) ≡ true = ground arith in
    let found = find_first (λ t. tid == t.tid) ts [] _ h here in
    (ap name_of found, ap queue_of found)

module _ (m : Allocator) (l : Libc m) where
  open m use {Store, blocks, malloc}

  -- The memory with a queue made in it.
  unfoldable pub queued : Net Store → Net Store
  queued n =
      let (p, s) = malloc async_queue_size n.store in
      let (p', s') = malloc queue_size s in
      record n { queues = update n.queues p (some (made m p p')); store = s' }

  unfoldable pub queue_addr : Net Store → ℕ
  queue_addr n = (malloc async_queue_size n.store).0

  with_new_queue_lem : (n : Net Store) → with_new_queue m l n ≡ (queue_addr n, queued n)
  unfolding with_new_queue queued queue_addr made
  with_new_queue_lem n = rw (os_async_queue_new_lem m n.store) refl

  free_queued :
      (n : Net Store) (a : ℕ)
      → blocks (free_queue m l (queue_addr n) (queued n)).store a ≡ blocks n.store a
  unfolding free_queue queued queue_addr
  free_queued n a =
      let (p, s) = malloc async_queue_size n.store in
      let (p', t) = malloc queue_size s in
      let q = some (made m p p') in
      rw (malloc_check m async_queue_size n.store, update_self n.queues p q)
        (omega (
          arith,
          free_made m p p' t a (m.malloc_nonnull _ n.store) (m.malloc_nonnull _ s),
          m.malloc_blocks async_queue_size n.store a,
          m.malloc_blocks queue_size s a,
        ))

  pub free_queue-tasks : (q : ℕ) (n : Net Store) → (free_queue m l q n).tasks ≡ n.tasks
  unfolding free_queue
  free_queue-tasks q n = elim (Bool-cases (q == 0)) [ inl e ↦ rw e refl | inr e ↦ rw e refl ]

  pub os_task_create_lem :
      (created : Bool) (c : Params) (n : Net Store) (self : ℕ) (s : Store)
      → l.libc_malloc task_size n.store ≡ some (self, s)
      → let net = record n { store = s } in
        os_task_create m l created c n
        ≡ start m l created (new_task c self (queue_addr net)) (queued net)
  unfolding os_task_create
  os_task_create_lem created c n self s e =
      rw e (rw (with_new_queue_lem (record n { store = s })) refl)

  start-false :
      (c : Params) (self : ℕ) (n : Net Store)
      → NoTaskAt self n.tasks
      → let (r, n') = start m l false (new_task c self (queue_addr n)) (queued n) in
        (r ≡ 0)
        × (n'.tasks ≡ n.tasks)
        × ((a : ℕ) → blocks n'.store a ≡ blocks n.store a - bit (self == a))
  unfolding start queued
  start-false c self n h =
      let q = queue_addr n in
      let t = new_task c self q in
      let freed = free_queue m l q (queued n) in
      (
        refl,
        ap (λ ts. delist self (ts ++ t ∷ [])) (free_queue-tasks q (queued n))
            ∙ delist_last t n.tasks h,
        λ a. omega (arith, l.libc_free_blocks self freed.store a, free_queued n a),
      )

  -- os_task_create whose thread cannot be created returns NULL, and undoes all that it did: the
  -- tasks are as they were, and at each address there are as many live blocks as before, if malloc
  -- gave an address where no task stands.
  pub task_create_undone :
      (c : Params) (n : Net Store) (self : ℕ) (s : Store)
      → l.libc_malloc task_size n.store ≡ some (self, s)
      → NoTaskAt self n.tasks
      → let (r, n') = os_task_create m l false c n in
        (r ≡ 0) × (n'.tasks ≡ n.tasks) × ((a : ℕ) → blocks n'.store a ≡ blocks n.store a)
  task_create_undone c n self s e h =
      let (null, tasks, freed) = start-false c self (record n { store = s }) h in
      rw (os_task_create_lem false c n self s e) (
        null,
        tasks,
        λ a. omega (arith, freed a, l.libc_malloc_blocks task_size self n.store s a e),
      )

  start-true :
      (c : Params) (self : ℕ) (n : Net Store) (tid : ℕ)
      → NoneHas (λ t. str_eq c.name t.name) n.tasks
      → tid ≢ 0
      → let (r, n') = start m l true (new_task c self (queue_addr n)) (queued n) in
        let q = os_task_aq_get c.name n'.tasks in
        (r ≡ self)
        × (map (λ t. t.self) n'.tasks ≡ map (λ t. t.self) n.tasks ++ self ∷ [])
        × (q ≢ 0)
        × (held (n'.queues q) ≡ some [])
        × (os_task_aq_self tid n'.tasks ≡ os_task_aq_self tid n.tasks)
  unfolding start queued queue_addr
  start-true c self n tid h started =
      let t = new_task c self (queue_addr n) in
      let (p, s) = malloc async_queue_size n.store in
      rw (aq_get_last t n.tasks h) (
        refl,
        map-append (λ u. u.self) n.tasks (t ∷ []),
        m.malloc_nonnull _ n.store,
        ap held (update_self n.queues p (some (made m p (malloc queue_size s).0)))
            ∙ unfold made in refl,
        aq_self_unstarted tid t n.tasks started refl,
      )

  -- os_task_create whose thread is created returns the new task, whose address comes behind those of
  -- the other tasks in the list. If no other task has its name, the name now leads to its queue, which is not NULL and is empty; and until
  -- its thread has started, each thread still finds the queue that it found before.
  pub task_create_reachable :
      (c : Params) (n : Net Store) (self : ℕ) (s : Store) (tid : ℕ)
      → l.libc_malloc task_size n.store ≡ some (self, s)
      → NoneHas (λ t. str_eq c.name t.name) n.tasks
      → tid ≢ 0
      → let (r, n') = os_task_create m l true c n in
        let q = os_task_aq_get c.name n'.tasks in
        (r ≡ self)
        × (map (λ t. t.self) n'.tasks ≡ map (λ t. t.self) n.tasks ++ self ∷ [])
        × (q ≢ 0)
        × (held (n'.queues q) ≡ some [])
        × (os_task_aq_self tid n'.tasks ≡ os_task_aq_self tid n.tasks)
  task_create_reachable c n self s tid e h started =
      rw (os_task_create_lem true c n self s e)
        (start-true c self (record n { store = s }) tid h started)
