-- ===== src/Glib/Timers.antt =====
-- The timers of platform/os/linux_glib/base/os_evdriver.c.
use multi_task_app.Prelude.{
  ℕ, ◌≡◌, ◌≢◌, refl, ◌==◌, true, false, none, some, List, [], ◌∷◌, ◌++◌, arith,
}
use multi_task_app.Alloc.{Allocator, malloc_check, blocks-free-malloc}
use multi_task_app.Evdriver.{timer}
use multi_task_app.Glib.Evdriver.{
  GSource, timeout_ms, timeout, Loop, returns, fault, put, timer_size, source_continue,
  source_remove, dispatch, os_evdriver_add, evdriver_timeout_callback,
}

pub put_self {ℓ} : {V : Type ℓ} (p : ℕ) (v : V) (f : ℕ → V) → put p v f p ≡ v
unfolding put
put_self p v f = ground arith

module _ (m : Allocator) where
  open m use {Store, malloc, free, blocks}

  -- The source of a timer whose block is at `p`.
  abbrev pub timer_source : ℕ → ℕ → ℕ → GSource
  timer_source context msec p = record {
    kind = timeout_ms msec;
    callback = timeout;
    gdata = p;
    context = some context;
  }

  -- The loop with a block and a source more.
  abbrev pub with_source : GSource → ℕ → List ℕ → Store → Loop Store → Loop Store
  with_source s p ws t l = record {
    sources = l.sources ++ s ∷ [];
    words = put p (some ws) l.words;
    store = t;
  }

  -- The loop with the block at an address freed.
  abbrev pub without_block : ℕ → Loop Store → Loop Store
  without_block p l = record l { words = put p none l.words; store = free p l.store }

  -- A timer with an interval is used after it is freed: os_evdriver_add attaches a source, whose
  -- first dispatch calls the callback with the user data, frees the timer's block, and has GLib
  -- keep the source; the next dispatch of the source reads the block that is freed.
  pub periodic_timer_faults :
      (junk context when interval cb u : ℕ) (l : Loop Store)
      → context ≢ 0
      → cb ≢ 0
      → interval ≢ 0
      → let (p, t) = malloc timer_size l.store in
        let s = timer_source context interval p in
        let (node, l1) = os_evdriver_add m junk context (timer when interval) cb u l in
        (node ≡ context)
        × (l1.sources ≡ l.sources ++ s ∷ [])
        × (l2 : Loop Store) × (dispatch m s l1 ≡ returns (some (cb, context, u)) true l2)
        × (dispatch m s l2 ≡ fault)
  unfolding os_evdriver_add dispatch evdriver_timeout_callback
  periodic_timer_faults junk context when interval cb u l hx hc hi =
      let (p, t) = malloc timer_size l.store in
      let given : (cb == 0) ≡ false = ground (arith, hc) in
      let inside : (context == 0) ≡ false = ground (arith, hx) in
      let repeats : (interval == 0) ≡ false = ground (arith, hi) in
      let ws = context ∷ source_continue ∷ cb ∷ u ∷ [] in
      let l1 = with_source (timer_source context interval p) p ws t l in
      rw (given, inside, malloc_check m timer_size l.store, repeats)
        (
          refl,
          refl,
          without_block p l1,
          rw (put_self p (some ws) l.words, given) refl,
          rw (put_self p none l1.words) refl,
        )

  -- A timer without an interval runs once and leaves nothing: os_evdriver_add attaches a source for
  -- the time `when`, whose dispatch calls the callback with the user data and has GLib remove the
  -- source, and after it there are as many live blocks at each address as before the call.
  pub one_shot_timer_runs :
      (junk context when cb u : ℕ) (l : Loop Store)
      → context ≢ 0
      → cb ≢ 0
      → let (p, t) = malloc timer_size l.store in
        let s = timer_source context when p in
        let (node, l1) = os_evdriver_add m junk context (timer when 0) cb u l in
        (node ≡ context)
        × (l1.sources ≡ l.sources ++ s ∷ [])
        × (l2 : Loop Store) × (dispatch m s l1 ≡ returns (some (cb, context, u)) false l2)
        × ((a : ℕ) → blocks l2.store a ≡ blocks l.store a)
  unfolding os_evdriver_add dispatch evdriver_timeout_callback
  one_shot_timer_runs junk context when cb u l hx hc =
      let (p, t) = malloc timer_size l.store in
      let given : (cb == 0) ≡ false = ground (arith, hc) in
      let inside : (context == 0) ≡ false = ground (arith, hx) in
      let ws = context ∷ source_remove ∷ cb ∷ u ∷ [] in
      let l1 = with_source (timer_source context when p) p ws t l in
      rw (given, inside, malloc_check m timer_size l.store)
        (
          refl,
          refl,
          without_block p l1,
          rw (put_self p (some ws) l.words, given) refl,
          blocks-free-malloc m timer_size l.store,
        )
