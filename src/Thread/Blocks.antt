-- ===== src/Thread/Blocks.antt =====
-- The blocks behind the handles of os_thread.c.
use multi_task_app.Prelude.{
  ℕ, ◌+◌, ◌≡◌, ◌≢◌, refl, ◌==◌, bit, true, Bool-cases, some, inl, inr, ap, Option-cases, arith,
}
use multi_task_app.Alloc.{Allocator, Libc}
use multi_task_app.Msg.{update}
use multi_task_app.Msg.Delivery.{update_self}
use multi_task_app.Thread.{
  Ret, code, minus_one, Pthread, Memory, mutex_size, cond_size, sem_size, init, settled, through,
  os_pthread_mutex_init, os_pthread_mutex_destroy, os_pthread_mutex_lock, os_pthread_cond_init,
  os_sem_init,
}

-- A call of libpthread on the state fails.
abbrev pub Fails : Ret → Type 0
Fails ret = ret ≢ code 0

nothing_set : (r : ℕ) → (r == 0) ≡ true → r ≡ 0
nothing_set r e = ground (arith, e)

module _ (m : Allocator) (l : Libc m) (P : Type 0) (pthread : Pthread P) where
  open m use {Store, blocks}

  settled-Fails :
      (at p : ℕ) (ret : Ret) (native : P) (w : Memory P Store)
      → Fails ret
      → settled m l P pthread at p (ret, native) w
        ≡ (minus_one, record w { native = native; store = l.libc_free p w.store })
  unfolding settled
  settled-Fails at p (code r) native w h = elim (Bool-cases (r == 0)) [
    | inl e ↦ absurd (h (ap code (nothing_set r e)))
    | inr e ↦ rw e refl
  ]
  settled-Fails at p minus_one native w h = refl

  -- The call returned -1, wrote no handle, and left as many live blocks at each address.
  abbrev pub Undone : Memory P Store → Ret × Memory P Store → Type 0
  Undone w (ret, w') =
      (ret ≡ minus_one)
      × (w'.handles ≡ w.handles)
      × ((a : ℕ) → blocks w'.store a ≡ blocks w.store a)

  init-Undone :
      (call : ℕ → P → Ret × P) (at size : ℕ) (w : Memory P Store)
      → ((p : ℕ) → Fails (call p w.native).0)
      → Undone w (init m l P pthread call at (l.libc_malloc size w.store) w)
  unfolding init
  init-Undone call at size w h = elim (Option-cases (l.libc_malloc size w.store)) [
    | inl e ↦ rw e (refl, refl, λ a. refl)
    | inr ((p, s), e) ↦
        let (ret, native) = call p w.native in
        rw (e, settled-Fails at p ret native (record w { store = s }) (h p))
          (
            refl,
            refl,
            λ a. omega (arith, l.libc_malloc_blocks size p w.store s a e, l.libc_free_blocks p s a),
          )
  ]

  -- A mutex, a condition and a semaphore that libpthread does not initialise leave nothing behind:
  -- the three functions return -1, write no handle, and at each address there are as many live
  -- blocks as before, whether malloc gave memory or not.
  pub failed_inits-Undone :
      (at pshared value : ℕ) (w : Memory P Store)
      → ((p : ℕ) → Fails (pthread.pthread_mutex_init p w.native).0)
      → ((p : ℕ) → Fails (pthread.pthread_cond_init p w.native).0)
      → ((p : ℕ) → Fails (pthread.sem_init p pshared value w.native).0)
      → Undone w (os_pthread_mutex_init m l P pthread at w)
        × Undone w (os_pthread_cond_init m l P pthread at w)
        × Undone w (os_sem_init m l P pthread at pshared value w)
  unfolding os_pthread_mutex_init os_pthread_cond_init os_sem_init
  failed_inits-Undone at pshared value w hm hc hs = (
    init-Undone pthread.pthread_mutex_init at mutex_size w hm,
    init-Undone pthread.pthread_cond_init at cond_size w hc,
    init-Undone (λ p. pthread.sem_init p pshared value) at sem_size w hs,
  )

  settled_made :
      (at p : ℕ) (ret : Ret) (native : P) (w : Memory P Store)
      → ret ≡ code 0
      → settled m l P pthread at p (ret, native) w
        ≡ (code 0, record w { handles = update w.handles at p; native = native })
  unfolding settled
  settled_made at p ret native w e = rw e refl

  -- A mutex that is initialised and destroyed again leaves its block: os_pthread_mutex_init
  -- returns 0, between the two calls os_pthread_mutex_lock returns what libpthread returns for the
  -- new mutex, and after os_pthread_mutex_destroy, whatever it returns, there is a live block more
  -- at the address that the handle still holds.
  pub os_pthread_mutex_destroy_leaks :
      (at p : ℕ) (s : Store) (w : Memory P Store)
      → l.libc_malloc mutex_size w.store ≡ some (p, s)
      → (pthread.pthread_mutex_init p w.native).0 ≡ code 0
      → let (ret, made) = os_pthread_mutex_init m l P pthread at w in
        let (locked, w1) = os_pthread_mutex_lock m l P pthread at made in
        let (destroyed, w2) = os_pthread_mutex_destroy m l P pthread at made in
        (ret ≡ code 0)
        × (locked ≡ (pthread.pthread_mutex_lock p (pthread.pthread_mutex_init p w.native).1).0)
        × (w2.handles at ≡ p)
        × ((a : ℕ) → blocks w2.store a ≡ blocks w.store a + bit (p == a))
  unfolding os_pthread_mutex_init os_pthread_mutex_lock os_pthread_mutex_destroy init through
  os_pthread_mutex_destroy_leaks at p s w e made =
      let (ret, native) = pthread.pthread_mutex_init p w.native in
      rw (e, settled_made at p ret native (record w { store = s }) made)
        (
          refl,
          ap (λ q. (pthread.pthread_mutex_lock q native).0) (update_self w.handles at p),
          update_self w.handles at p,
          λ a. l.libc_malloc_blocks mutex_size p w.store s a e,
        )
