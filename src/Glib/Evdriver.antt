-- ===== src/Glib/Evdriver.antt =====
-- platform/os/linux_glib/base/os_evdriver.c: events as sources of a GLib main loop.
use multi_task_app.Prelude.{
  ℕ, zero, suc, ◌==◌, if◌then◌else◌, Bool, true, false, Option, none, some, List, [], ◌∷◌, ◌++◌,
}
use multi_task_app.Alloc.{Allocator}
use multi_task_app.Evdriver.{Event, io, timer, signal, other}

-- The three callbacks that the sources are given.
pub data Callback : Type 0 where
  on_io on_sig timeout : Callback

-- What g_unix_fd_source_new, g_timeout_source_new and g_unix_signal_source_new make.
pub data SourceKind : Type 0 where
  unix_fd unix_signal timeout_ms : ℕ → SourceKind

-- A source that is attached: its callback with the data it is given, and the context, `none` for
-- GLib's default one.
pub record GSource : Type 0 where
  pub kind : SourceKind
  pub callback : Callback
  pub gdata : ℕ
  pub context : Option ℕ

-- The sources that are attached, the words of the blocks that are live, and the store. A block is a
-- list of words of 8 bytes, `none` where it is not live.
pub record Loop (S : Type 0) : Type 0 where
  pub sources : List GSource
  pub words : ℕ → Option (List ℕ)
  pub store : S

-- A call of an os_evdriver_callback_t: its address, the node and the user data.
abbrev pub Call : Type 0
Call = ℕ × ℕ × ℕ

-- How a callback ends: the call that it makes, if any, and whether the source stays attached
-- (G_SOURCE_CONTINUE); or it reads or frees a block that is not live.
pub data Dispatched (S : Type 0) : Type 0 where
  returns : Option Call → Bool → Loop S → Dispatched S
  fault : Dispatched S

-- sizeof(glib_evdriver_timer_t) and of the two other structs on a 64-bit target.
abbrev pub timer_size : ℕ
timer_size = 32

abbrev pub signal_size : ℕ
signal_size = 24

-- G_SOURCE_CONTINUE and G_SOURCE_REMOVE as a gboolean.
abbrev pub source_continue : ℕ
source_continue = 1

abbrev pub source_remove : ℕ
source_remove = 0

unfoldable pub put {ℓ} : {V : Type ℓ} → ℕ → V → (ℕ → V) → ℕ → V
put p v f x = if x == p then v else f x

-- The word at an index of a block; 0 is never read, since each block is as long as its struct.
unfoldable pub word : ℕ → List ℕ → ℕ
word i [] = 0
word zero (w ∷ ws) = w
word (suc i) (w ∷ ws) = word i ws

call_of : ℕ → ℕ → ℕ → Option Call
call_of cb node userdata = if cb == 0 then none else some (cb, node, userdata)

module _ (m : Allocator) where
  open m use {Store, malloc, free}

  freed : ℕ → Loop Store → Loop Store
  freed p l = record l { words = put p none l.words; store = free p l.store }

  -- A glib_evdriver_timer_t is evnode, loop, cb, userdata, each in a word of its own.
  timeout_on : ℕ → Option (List ℕ) → Loop Store → Dispatched Store
  unfolding word call_of freed
  timeout_on p none l = fault
  timeout_on p (some ws) l =
      returns (call_of (word 2 ws) (word 0 ws) (word 3 ws))
        (if word 1 ws == source_remove then false else true) (freed p l)

  unfoldable pub evdriver_timeout_callback : ℕ → Loop Store → Dispatched Store
  unfolding timeout_on
  evdriver_timeout_callback p l = timeout_on p (l.words p) l

  -- A glib_evdriver_io_t and a glib_evdriver_signal_t are evnode, cb, userdata.
  three_words : Bool → ℕ → Option (List ℕ) → Loop Store → Dispatched Store
  unfolding word call_of freed
  three_words stays p none l = fault
  three_words stays p (some ws) l =
      returns (call_of (word 1 ws) (word 0 ws) (word 2 ws)) stays (freed p l)

  unfoldable pub evdriver_on_sig_callback : ℕ → Loop Store → Dispatched Store
  unfolding three_words
  evdriver_on_sig_callback p l = three_words false p (l.words p) l

  unfoldable pub evdriver_on_io_callback : ℕ → Loop Store → Dispatched Store
  unfolding three_words
  evdriver_on_io_callback p l = three_words true p (l.words p) l

  -- GLib calls a source's callback with its data.
  unfoldable pub dispatch : GSource → Loop Store → Dispatched Store
  dispatch s l = elim s.callback [
    | on_io ↦ evdriver_on_io_callback s.gdata l
    | on_sig ↦ evdriver_on_sig_callback s.gdata l
    | timeout ↦ evdriver_timeout_callback s.gdata l
  ]

  attached : GSource → ℕ → List ℕ → Store → Loop Store → Loop Store
  attached s p ws t l = record {
    sources = l.sources ++ s ∷ [];
    words = put p (some ws) l.words;
    store = t;
  }

  -- The source for an event whose block is at `p`, behind the checks of the parameters and of
  -- MALLOC's result. `junk` is what MALLOC left in the field `loop` of an io block, which is
  -- declared as a glib_evdriver_timer_t.
  add_source : ℕ → ℕ → Event → ℕ → ℕ → Loop Store → ℕ × Loop Store
  unfolding attached
  add_source junk context (io fd) cb user_data l =
      let (p, t) = malloc timer_size l.store in
      let source : GSource = record {
        kind = unix_fd fd;
        callback = on_io;
        gdata = p;
        context = none;
      } in
      if p == 0
      then (0, record l { store = t })
      else (context, attached source p (context ∷ junk ∷ cb ∷ user_data ∷ []) t l)
  add_source junk context (timer when interval) cb user_data l =
      let (p, t) = malloc timer_size l.store in
      let once = interval == 0 in
      let source : GSource = record {
        kind = timeout_ms (if once then when else interval);
        callback = timeout;
        gdata = p;
        context = some context;
      } in
      let loop = if once then source_remove else source_continue in
      if p == 0
      then (0, record l { store = t })
      else (context, attached source p (context ∷ loop ∷ cb ∷ user_data ∷ []) t l)
  add_source junk context (signal signo) cb user_data l =
      let (p, t) = malloc signal_size l.store in
      let source : GSource = record {
        kind = unix_signal signo;
        callback = on_sig;
        gdata = user_data;
        context = some context;
      } in
      if p == 0
      then (0, record l { store = t })
      else (context, attached source p (context ∷ cb ∷ user_data ∷ []) t l)
  add_source junk context other cb user_data l = (0, l)

  -- os_evdriver_add on a loop and an event that are not NULL: `context` is the loop's, 0 where GLib
  -- has none. The node that is returned is the context.
  unfoldable pub os_evdriver_add : ℕ → ℕ → Event → ℕ → ℕ → Loop Store → ℕ × Loop Store
  unfolding add_source
  os_evdriver_add junk context ev cb user_data l =
      if cb == 0
      then (0, l)
      else if context == 0
      then (0, l)
      else add_source junk context ev cb user_data l
