-- ===== src/Threadpool/Creation.antt =====
-- How os_threadpool_create ends, in os_threadpool.c.
use multi_task_app.Prelude.{
  ℕ, zero, suc, ◌+◌, ◌*◌, ◌≡◌, ◌≢◌, ◌≤◌, ◌<◌, ◌⊎◌, inl, inr, refl, ap, ◌∙◌, ◌==◌, bit, Bool, true,
  false, Bool-cases, none, some, arith,
}
use multi_task_app.Alloc.{Allocator, Libc}
use multi_task_app.Queue.{queue_size}
use multi_task_app.AsyncQueue.{async_queue_size, os_async_queue_new, os_async_queue_free}
use multi_task_app.AsyncQueue.Lifetime.{made, os_async_queue_new_lem, free_made}
use multi_task_app.Threadpool.{
  Threadpool, returns, waits, pool_size, pthread_size, in_range, given_up, start_workers,
  os_threadpool_destroy, os_threadpool_create,
}

module _ (m : Allocator) (l : Libc m) where
  open m use {Store, blocks, malloc}

  -- The loop stops at the first thread that cannot be created.
  start_workers_fails :
      (starts : ℕ → Bool) (left i : ℕ) (pool : Threadpool) (s : Store)
      → pool.thread_count ≤ i
      → i < pool.thread_count + left
      → ((j : ℕ) → pool.thread_count ≤ j → j < i → starts j ≡ true)
      → starts i ≡ false
      → start_workers m l starts left pool s
        ≡ given_up m l (os_threadpool_destroy m l (record pool { thread_count = i }) s)
  unfolding start_workers
  start_workers_fails starts zero i pool s lo hi before stop = absurd (omega (arith, lo, hi))
  start_workers_fails starts (suc left) i pool s lo hi before stop =
      let c = pool.thread_count in
      elim (Bool-cases (c == i)) [
        | inl e ↦
            let same : c ≡ i = ground (arith, e) in
            let stops : starts c ≡ false = ap starts same ∙ stop in
            rw stops (
              ap
                (λ k. given_up m l (os_threadpool_destroy m l (record pool { thread_count = k }) s))
                same)
        | inr e ↦
            let below : c < i = ground (arith, e, lo) in
            rw (before c (omega arith) below) (
              start_workers_fails starts left i (record pool { thread_count = c + 1 }) s
                (omega (arith, below)) (omega (arith, hi))
                (λ j g g'. before j (omega (arith, g)) g') stop)
      ]

  -- The pool before its first thread.
  unstarted : ℕ → ℕ → ℕ → Store → Threadpool
  unstarted size p threads s =
      let (q, t) = malloc async_queue_size s in
      record {
        self = p;
        thread_count = 0;
        queue_size = size;
        threads = threads;
        queue = some (made m q (malloc queue_size t).0);
      }

  os_threadpool_create_lem :
      (starts : ℕ → Bool) (n size p threads : ℕ) (s s1 s3 : Store)
      → in_range n size ≡ true
      → l.libc_malloc pool_size s ≡ some (p, s1)
      → l.libc_malloc (pthread_size * n) (os_async_queue_new m s1).1 ≡ some (threads, s3)
      → os_threadpool_create m l starts n size s
        ≡ start_workers m l starts n (unstarted size p threads s1) s3
  unfolding os_threadpool_create unstarted
  os_threadpool_create_lem starts n size p threads s s1 s3 range e e3 =
      let (q, t) = malloc async_queue_size s1 in
      let e4 : l.libc_malloc (pthread_size * n) (malloc queue_size t).1 ≡ some (threads, s3) =
        rw (os_async_queue_new_lem m s1) at e3 in
      rw (range, e) (rw (os_async_queue_new_lem m s1) (rw e4 refl))

  given_up_first :
      (i size p threads : ℕ) (s s3 : Store)
      → i ≡ 0
      → threads ≢ 0
      → let (q, t) = malloc async_queue_size s in
        given_up m l
          (os_threadpool_destroy m l (record (unstarted size p threads s) { thread_count = i }) s3)
        ≡ returns none
            (os_async_queue_free m
              (some (made m q (malloc queue_size t).0))
              (l.libc_free threads s3)).1
  unfolding os_threadpool_destroy given_up unstarted
  given_up_first i size p threads s s3 e h =
      let array : (threads == 0) ≡ false = ground (arith, h) in
      let none_started : (i == 0) ≡ true = ground (arith, e) in rw (array, none_started) refl

  given_up_later :
      (i size p threads : ℕ) (s s3 : Store)
      → i ≢ 0
      → given_up m l
          (os_threadpool_destroy m l (record (unstarted size p threads s) { thread_count = i }) s3)
        ≡ waits
  unfolding os_threadpool_destroy given_up
  given_up_later i size p threads s s3 h =
      let some_started : (i == 0) ≡ false = ground (arith, h) in rw some_started refl

  unstarted_fails :
      (starts : ℕ → Bool) (n size i p threads : ℕ) (s s3 : Store)
      → i < n
      → ((j : ℕ) → j < i → starts j ≡ true)
      → starts i ≡ false
      → start_workers m l starts n (unstarted size p threads s) s3
        ≡ given_up m l (
            os_threadpool_destroy m l (record (unstarted size p threads s) { thread_count = i }) s3)
  unfolding unstarted
  unstarted_fails starts n size i p threads s s3 hi before stop =
      start_workers_fails starts n i (unstarted size p threads s) s3 (omega arith)
        (omega (arith, hi)) (λ j g g'. before j g') stop

  -- Of the blocks that os_threadpool_create takes, os_threadpool_destroy leaves the pool's own.
  pool_left :
      (n p threads x : ℕ) (s s1 s3 : Store)
      → l.libc_malloc pool_size s ≡ some (p, s1)
      → l.libc_malloc (pthread_size * n) (os_async_queue_new m s1).1 ≡ some (threads, s3)
      → let (q, t) = malloc async_queue_size s1 in
        blocks
          (os_async_queue_free m
            (some (made m q (malloc queue_size t).0))
            (l.libc_free threads s3)).1
          x
        ≡ blocks s x + bit (p == x)
  pool_left n p threads x s s1 s3 e e3 =
      let (q, t) = malloc async_queue_size s1 in
      let (q', t') = malloc queue_size t in
      omega (
        arith,
        free_made m q q' (l.libc_free threads s3) x (m.malloc_nonnull _ s1) (m.malloc_nonnull _ t),
        l.libc_free_blocks threads s3 x,
        l.libc_malloc_blocks (pthread_size * n) threads (os_async_queue_new m s1).1 s3 x e3,
        ap (λ r. blocks r.1 x) (os_async_queue_new_lem m s1),
        m.malloc_blocks async_queue_size s1 x,
        m.malloc_blocks queue_size t x,
        l.libc_malloc_blocks pool_size p s s1 x e,
      )

  -- os_threadpool_create whose memory is given, and whose thread number `i` is the first that
  -- cannot be created: if it is the first thread of all, the call returns NULL, and of what it
  -- allocated exactly the pool's own block is still live, since os_threadpool_destroy does not free
  -- it; if threads run already, the call never returns, since it joins one of them.
  pub thread_create_fails :
      (starts : ℕ → Bool) (n size i p threads : ℕ) (s s1 s3 : Store)
      → in_range n size ≡ true
      → l.libc_malloc pool_size s ≡ some (p, s1)
      → l.libc_malloc (pthread_size * n) (os_async_queue_new m s1).1 ≡ some (threads, s3)
      → i < n
      → ((j : ℕ) → j < i → starts j ≡ true)
      → starts i ≡ false
      → ((i ≡ 0)
          × (t : Store) × (os_threadpool_create m l starts n size s ≡ returns none t)
          × ((x : ℕ) → blocks t x ≡ blocks s x + bit (p == x)))
        ⊎ ((i ≢ 0) × (os_threadpool_create m l starts n size s ≡ waits))
  thread_create_fails starts n size i p threads s s1 s3 range e e3 hi before stop =
      let array = l.libc_malloc_nonnull _ threads _ s3 e3 in
      let ends =
        os_threadpool_create_lem starts n size p threads s s1 s3 range e e3
        ∙ unstarted_fails starts n size i p threads s1 s3 hi before stop in
      elim (Bool-cases (i == 0)) [
        | inl z ↦
            let first : i ≡ 0 = ground (arith, z) in
            inl (
              first,
              _,
              ends ∙ given_up_first i size p threads s1 s3 first array,
              λ x. pool_left n p threads x s s1 s3 e e3,
            )
        | inr z ↦
            let later : i ≢ 0 = ground (arith, z) in
            inr (later, ends ∙ given_up_later i size p threads s1 s3 later)
      ]
