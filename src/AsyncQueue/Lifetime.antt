-- ===== src/AsyncQueue/Lifetime.antt =====
-- The blocks of an asynchronous queue of os_async_queue.c, from its creation to its end.
use multi_task_app.Prelude.{ℕ, ◌-◌, ◌≡◌, ◌≢◌, refl, ◌==◌, bit, some, [], arith}
use multi_task_app.Alloc.{Allocator, malloc_check}
use multi_task_app.Queue.{queue_size, os_queue_new, os_queue_free}
use multi_task_app.AsyncQueue.{
  AsyncQueue, async_queue_size, os_async_queue_new, os_async_queue_free, os_async_queue_length,
}

module _ (m : Allocator) where
  open m use {Store, blocks}

  unfoldable pub made : ℕ → ℕ → AsyncQueue
  made p p' = record {
    addr = p;
    queue = some (record { addr = p'; nodes = [] });
    waiting = [];
    woken = [];
  }

  pub os_async_queue_new_lem :
      (s : Store)
      → let (p, t) = m.malloc async_queue_size s in
        let (p', t') = m.malloc queue_size t in os_async_queue_new m s ≡ (some (made p p'), t')
  unfolding os_async_queue_new os_queue_new made
  os_async_queue_new_lem s =
      rw (malloc_check m async_queue_size s)
        (rw (malloc_check m queue_size (m.malloc async_queue_size s).1) refl)

  pub free_made :
      (p p' : ℕ) (s : Store) (a : ℕ)
      → p ≢ 0
      → p' ≢ 0
      → blocks (os_async_queue_free m (some (made p p')) s).1 a
        ≡ blocks s a - bit (p' == a) - bit (p == a)
  unfolding os_async_queue_free os_queue_free made
  free_made p p' s a h h' =
      omega (arith, m.free_blocks p (m.free p' s) a h, m.free_blocks p' s a h')

  -- os_async_queue_new always gives a queue; the new queue is empty, no thread waits on it, and
  -- freeing it at once gives every block back: at each address there are as many live blocks as
  -- before it was made.
  pub new-free :
      (s : Store)
      → let (q, t) = os_async_queue_new m s in
        (k : AsyncQueue) × (q ≡ some k)
        × (os_async_queue_length k ≡ 0)
        × (k.waiting ≡ [])
        × ((a : ℕ) → blocks (os_async_queue_free m q t).1 a ≡ blocks s a)
  new-free s =
      let (p, t) = m.malloc async_queue_size s in
      let (p', t') = m.malloc queue_size t in
      let back : (a : ℕ) → blocks (os_async_queue_free m (some (made p p')) t').1 a ≡ blocks s a =
        λ a. omega (
          arith,
          free_made p p' t' a (m.malloc_nonnull _ s) (m.malloc_nonnull _ t),
          m.malloc_blocks async_queue_size s a,
          m.malloc_blocks queue_size t a,
        ) in
      rw (os_async_queue_new_lem s)
        (made p p', refl, unfold os_async_queue_length made in refl, unfold made in refl, back)
