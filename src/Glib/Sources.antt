-- ===== src/Glib/Sources.antt =====
-- The descriptors and signals of platform/os/linux_glib/base/os_evdriver.c.
use multi_task_app.Prelude.{
  ℕ, ◌+◌, ◌≡◌, ◌≢◌, refl, ◌==◌, if◌then◌else◌, true, false, bit, none, some, [], ◌∷◌, ◌++◌, arith,
}
use multi_task_app.Alloc.{Allocator, malloc_check}
use multi_task_app.Evdriver.{io, signal}
use multi_task_app.Glib.Evdriver.{
  GSource, unix_fd, unix_signal, on_io, on_sig, Loop, returns, fault, put, timer_size, signal_size,
  dispatch, os_evdriver_add, evdriver_on_io_callback, evdriver_on_sig_callback,
}
use multi_task_app.Glib.Timers.{put_self, with_source, without_block}

put_ne {ℓ} : {V : Type ℓ} (p : ℕ) (v : V) (f : ℕ → V) (x : ℕ) → x ≢ p → put p v f x ≡ f x
unfolding put
put_ne p v f x h = ground (arith, h)

module _ (m : Allocator) where
  open m use {Store, malloc, blocks}

  -- A descriptor's callback is not the one that is called: os_evdriver_add writes its block as a
  -- glib_evdriver_timer_t, and the dispatch reads it as a glib_evdriver_io_t. It calls what MALLOC
  -- left in the field `loop`, unless that is 0, with the callback's address for the user data; and
  -- since it frees the block and has GLib keep the source, the next dispatch reads a freed block.
  pub io_calls_junk :
      (junk context fd cb u : ℕ) (l : Loop Store)
      → context ≢ 0
      → cb ≢ 0
      → let (p, t) = malloc timer_size l.store in
        let s : GSource = record {
          kind = unix_fd fd;
          callback = on_io;
          gdata = p;
          context = none;
        } in
        let (node, l1) = os_evdriver_add m junk context (io fd) cb u l in
        (node ≡ context)
        × (l1.sources ≡ l.sources ++ s ∷ [])
        × (l2 : Loop Store) × (dispatch m s l1
            ≡ returns (if junk == 0 then none else some (junk, context, cb)) true l2)
        × (dispatch m s l2 ≡ fault)
  unfolding os_evdriver_add dispatch evdriver_on_io_callback
  io_calls_junk junk context fd cb u l hx hc =
      let (p, t) = malloc timer_size l.store in
      let given : (cb == 0) ≡ false = ground (arith, hc) in
      let inside : (context == 0) ≡ false = ground (arith, hx) in
      let s : GSource = record { kind = unix_fd fd; callback = on_io; gdata = p; context = none } in
      let ws = context ∷ junk ∷ cb ∷ u ∷ [] in
      let l1 = with_source m s p ws t l in
      rw (given, inside, malloc_check m timer_size l.store)
        (
          refl,
          refl,
          without_block m p l1,
          rw (put_self p (some ws) l.words) refl,
          rw (put_self p none l1.words) refl,
        )

  -- A signal's block is lost, and its dispatch reads the user data in its place: os_evdriver_add
  -- allocates a block, which no source is given, and where the user data is not the address of a
  -- live block, as NULL is not, the dispatch faults.
  pub signal_reads_user_data :
      (junk context signo cb u : ℕ) (l : Loop Store)
      → context ≢ 0
      → cb ≢ 0
      → l.words u ≡ none
      → u ≢ (malloc signal_size l.store).0
      → let (p, t) = malloc signal_size l.store in
        let s : GSource = record {
          kind = unix_signal signo;
          callback = on_sig;
          gdata = u;
          context = some context;
        } in
        let (node, l1) = os_evdriver_add m junk context (signal signo) cb u l in
        (node ≡ context)
        × (l1.sources ≡ l.sources ++ s ∷ [])
        × (dispatch m s l1 ≡ fault)
        × ((a : ℕ) → blocks l1.store a ≡ blocks l.store a + bit (p == a))
  unfolding os_evdriver_add dispatch evdriver_on_sig_callback
  signal_reads_user_data junk context signo cb u l hx hc dead other =
      let (p, t) = malloc signal_size l.store in
      let given : (cb == 0) ≡ false = ground (arith, hc) in
      let inside : (context == 0) ≡ false = ground (arith, hx) in
      let ws = context ∷ cb ∷ u ∷ [] in
      rw (given, inside, malloc_check m signal_size l.store)
        (
          refl,
          refl,
          rw (put_ne p (some ws) l.words u other, dead) refl,
          m.malloc_blocks signal_size l.store,
        )
