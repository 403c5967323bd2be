-- ===== src/Queue/Memory.antt =====
-- What the calls of os_queue.c do to the allocated blocks, and what os_queue_free leaves behind.
use multi_task_app.Prelude.{
  ℕ, ◌+◌, ◌-◌, ◌≤◌, ◌≡◌, ◌≢◌, refl, ◌==◌, if◌then◌else◌, bit, Bool-cases, inl, inr, occurrences,
  Option, none, some, List, [], ◌∷◌, ◌++◌, last_or, drop_last, arith,
}
use multi_task_app.Alloc.{Allocator, malloc_check, malloc-bit}
use multi_task_app.Queue.{
  Queue, Node, queue_size, items, addrs, free_items, os_queue_free, os_queue_push_tail,
  os_queue_push_head, os_queue_pop_tail, os_queue_pop_head, take_head, take_tail,
}
use multi_task_app.Queue.Ops.{Op, push_tail, push_head, pop_tail, pop_head, call, run}

-- The blocks of a queue's own: its head and its nodes.
abbrev pub owned : Option Queue → List ℕ
owned none = []
owned (some q) = q.addr ∷ addrs q.nodes

-- The addresses among the items: NULL is none.
abbrev pub non_null : List ℕ → List ℕ
non_null [] = []
non_null (d ∷ ds) = if d == 0 then non_null ds else d ∷ non_null ds

occurrences-drop_last :
    (a : ℕ) (n : Node) (ns : List Node)
    → occurrences a (addrs (n ∷ ns))
      ≡ bit ((last_or n ns).addr == a) + occurrences a (addrs (drop_last (n ∷ ns)))
occurrences-drop_last a n [] = refl
occurrences-drop_last a n (k ∷ ns) = omega (arith, occurrences-drop_last a k ns)

occurrences-addrs-append :
    (a : ℕ) (ns ks : List Node)
    → occurrences a (addrs (ns ++ ks)) ≡ occurrences a (addrs ns) + occurrences a (addrs ks)
occurrences-addrs-append a [] ks = omega arith
occurrences-addrs-append a (n ∷ ns) ks = omega (arith, occurrences-addrs-append a ns ks)

ne_zero_of_bit : (p : ℕ) → bit (p == 0) ≡ 0 → p ≢ 0
ne_zero_of_bit p h = ground arith

module _ (m : Allocator) where
  open m use {Store, blocks, free}

  free_live :
      (p : ℕ) (s : Store) (a : ℕ)
      → p ≢ 0
      → bit (p == a) ≤ blocks s a
      → blocks (free p s) a + bit (p == a) ≡ blocks s a
  free_live p s a h l = omega (arith, m.free_blocks p s a h)

  -- The blocks of the queue are live, and none of them is at NULL.
  pub record IsBacked (q : Option Queue) (s : Store) : Type 0 where
    pub live : (a : ℕ) → occurrences a (owned q) ≤ blocks s a
    pub nonnull : occurrences 0 (owned q) ≡ 0

  abbrev Conserves : Option Queue → Store → Option Queue → Store → ℕ → Type 0
  Conserves q s q' t a =
      blocks t a + occurrences a (owned q) ≡ blocks s a + occurrences a (owned q')

  take_head-blocks :
      (q : Queue) (ns : List Node) (s : Store) (a : ℕ)
      → IsBacked (some (record q { nodes = ns })) s
      → Conserves (some (record q { nodes = ns })) s (take_head m q ns s).1 (take_head m q ns s).2 a
  unfolding take_head
  take_head-blocks q [] s a v = refl
  take_head-blocks q (n ∷ ns) s a v = omega (
    arith,
    free_live n.addr s a (ne_zero_of_bit n.addr (omega (arith, v.nonnull)))
        (omega (arith, v.live a)),
  )

  take_tail-blocks :
      (q : Queue) (ns : List Node) (s : Store) (a : ℕ)
      → IsBacked (some (record q { nodes = ns })) s
      → Conserves (some (record q { nodes = ns })) s (take_tail m q ns s).1 (take_tail m q ns s).2 a
  unfolding take_tail
  take_tail-blocks q [] s a v = refl
  take_tail-blocks q (n ∷ ns) s a v =
      let p = (last_or n ns).addr in
      let there = occurrences-drop_last a n ns in
      omega (
        arith,
        there,
        free_live p s a (ne_zero_of_bit p (omega (arith, v.nonnull, occurrences-drop_last 0 n ns)))
            (omega (arith, v.live a, there)),
      )

  pub call-blocks :
      (o : Op) (q : Option Queue) (s : Store) (a : ℕ)
      → IsBacked q s
      → Conserves q s (call m o q s).1 (call m o q s).2 a
  unfolding call os_queue_push_tail os_queue_push_head os_queue_pop_tail os_queue_pop_head
  call-blocks (push_tail d) none s a v = refl
  call-blocks (push_head d) none s a v = refl
  call-blocks pop_tail none s a v = refl
  call-blocks pop_head none s a v = refl
  call-blocks (push_tail d) (some q) s a v =
      rw (malloc_check m queue_size s, occurrences-addrs-append a q.nodes)
        (omega (arith, m.malloc_blocks queue_size s a))
  call-blocks (push_head d) (some q) s a v =
      rw (malloc_check m queue_size s) (omega (arith, m.malloc_blocks queue_size s a))
  call-blocks pop_tail (some q) s a v = take_tail-blocks q q.nodes s a v
  call-blocks pop_head (some q) s a v = take_head-blocks q q.nodes s a v

  call-nonnull :
      (o : Op) (q : Option Queue) (s : Store)
      → occurrences 0 (owned q) ≡ 0
      → occurrences 0 (owned (call m o q s).1) ≡ 0
  unfolding call os_queue_push_tail os_queue_push_head os_queue_pop_tail os_queue_pop_head
  call-nonnull (push_tail d) none s h = refl
  call-nonnull (push_head d) none s h = refl
  call-nonnull pop_tail none s h = refl
  call-nonnull pop_head none s h = refl
  call-nonnull (push_tail d) (some q) s h =
      rw (malloc_check m queue_size s, occurrences-addrs-append 0 q.nodes)
        (omega (arith, h, malloc-bit m queue_size s))
  call-nonnull (push_head d) (some q) s h =
      rw (malloc_check m queue_size s) (omega (arith, h, malloc-bit m queue_size s))
  call-nonnull pop_tail (some q) s h = tail q.nodes h
    where
      tail :
          (ns : List Node)
          → bit (q.addr == 0) + occurrences 0 (addrs ns) ≡ 0
          → occurrences 0 (owned (take_tail m q ns s).1) ≡ 0
      tail [] e = e
      tail (n ∷ ns) e = omega (arith, e, occurrences-drop_last 0 n ns)
  call-nonnull pop_head (some q) s h = front q.nodes h
    where
      front :
          (ns : List Node)
          → bit (q.addr == 0) + occurrences 0 (addrs ns) ≡ 0
          → occurrences 0 (owned (take_head m q ns s).1) ≡ 0
      front [] e = e
      front (n ∷ ns) e = omega (arith, e)

  pub call-IsBacked :
      (o : Op) (q : Option Queue) (s : Store)
      → IsBacked q s
      → IsBacked (call m o q s).1 (call m o q s).2
  call-IsBacked o q s v = record {
    live = λ a. omega (arith, v.live a, call-blocks o q s a v);
    nonnull = call-nonnull o q s v.nonnull;
  }

  -- While a queue is used it neither leaks a node nor frees one twice: after any sequence of
  -- calls on a queue whose blocks are live, the live blocks have changed at each address by
  -- exactly what the queue's own blocks there have, and the queue's blocks are live.
  pub run-blocks :
      (os : List Op) (q : Option Queue) (s : Store)
      → IsBacked q s
      → ((a : ℕ)
          → blocks (run m os q s).2 a + occurrences a (owned q)
            ≡ blocks s a + occurrences a (owned (run m os q s).1))
        × IsBacked (run m os q s).1 (run m os q s).2
  unfolding run
  run-blocks [] q s v = (λ a. refl, v)
  run-blocks (o ∷ os) q s v =
      let (same, w) = run-blocks os (call m o q s).1 (call m o q s).2 (call-IsBacked o q s v) in
      (λ a. omega (arith, same a, call-blocks o q s a v), w)

  free_items-blocks :
      (ns : List Node) (s : Store) (a : ℕ)
      → blocks (free_items m ns s) a ≡ blocks s a - occurrences a (non_null (items ns))
  unfolding free_items
  free_items-blocks [] s a = omega arith
  free_items-blocks (n ∷ ns) s a = elim (Bool-cases (n.item == 0)) [
    | inl e ↦ rw (e, free_items-blocks ns s a)
    | inr e ↦ rw e (
        omega (
          arith,
          free_items-blocks ns (free n.item s) a,
          m.free_blocks n.item s a (λ z. ground (arith, e, z)),
        ))
  ]

  -- os_queue_free frees the data and the head, and leaves every node allocated: of a queue whose
  -- head, nodes and data are live, exactly the data and the head are freed, so each node that was
  -- linked when the queue was freed is still live.
  pub os_queue_free_leaks_nodes :
      (q : Queue) (s : Store)
      → q.addr ≢ 0
      → ((a : ℕ)
          → occurrences a (owned (some q)) + occurrences a (non_null (items q.nodes)) ≤ blocks s a)
      → (a : ℕ)
      → (blocks (os_queue_free m (some q) s) a
            + occurrences a (non_null (items q.nodes))
            + bit (q.addr == a)
          ≡ blocks s a)
        × (occurrences a (addrs q.nodes) ≤ blocks (os_queue_free m (some q) s) a)
  unfolding os_queue_free
  os_queue_free_leaks_nodes q s h live a = omega (
    arith,
    live a,
    free_items-blocks q.nodes s a,
    m.free_blocks q.addr (free_items m q.nodes s) a h,
  )
