-- ===== src/Msg/Failure.antt =====
-- The calls of os_msg.c that fail.
use multi_task_app.Prelude.{ℕ, ◌+◌, ◌≡◌, refl, length, some, List, String, arith}
use multi_task_app.Alloc.{Allocator, malloc_check}
use multi_task_app.Task.{os_task_aq_get}
use multi_task_app.Msg.{Net, failure, msg_size, os_msg_send2}

module _ (m : Allocator) where
  open m use {Store, blocks, malloc}

  -- os_msg_send2 to a name that no task with a queue has fails; it frees the message that it
  -- allocated, so every address has as many live blocks as before, and the tasks and the queues
  -- are as they were.
  pub send2_unknown :
      (t self priority : ℕ) (dst : String) (bytes : List ℕ) (n : Net Store)
      → os_task_aq_get dst n.tasks ≡ 0
      → let (status, n') = os_msg_send2 m t self (some dst) priority bytes n in
        (status ≡ failure)
        × (n'.tasks ≡ n.tasks)
        × (n'.queues ≡ n.queues)
        × ((a : ℕ) → blocks n'.store a ≡ blocks n.store a)
  unfolding os_msg_send2
  send2_unknown t self priority dst bytes n h =
      let size = msg_size + length bytes in
      rw (malloc_check m size n.store) (
        rw h (
          refl,
          refl,
          refl,
          λ a. omega (
            arith,
            m.malloc_blocks size n.store a,
            m.free_blocks (malloc size n.store).0 (malloc size n.store).1 a
                (m.malloc_nonnull size n.store),
          ),
        ))
