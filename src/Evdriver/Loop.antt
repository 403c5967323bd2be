-- ===== src/Evdriver/Loop.antt =====
-- The loop of os_evdriver_run2 in os_evdriver.c.
use multi_task_app.Prelude.{
  ℕ, ◌%◌, ◌≡◌, refl, ap, ◌==◌, if◌then◌else◌, Bool, true, false, Option, none, some, List, [], ◌∷◌,
  ◌++◌, append_assoc, append-nil,
}
use multi_task_app.Evdriver.{Evdriver, EvNode, Status, success, failure}

-- What one call of epoll_wait reports: the node of each event, `none` for a NULL pointer, and
-- whether a callback of this round clears `running`, as os_evdriver_destroy does. The reads of
-- signal and timer descriptors, and the asserts that only log, change nothing here.
pub record Round : Type 0 where
  pub ready : List (Option EvNode)
  pub clears : Bool

-- A callback that was called, with its user data.
abbrev pub Call : Type 0
Call = ℕ × ℕ

-- The inner loop: CONTINUE_IF_FAIL skips a NULL node, and a NULL callback is not called.
unfoldable pub dispatch : List (Option EvNode) → List Call
dispatch [] = []
dispatch (none ∷ es) = dispatch es
dispatch (some n ∷ es) =
    let rest = dispatch es in if n.cb == 0 then rest else (n.cb, n.user_data) ∷ rest

-- How far the call has come after the rounds so far.
pub data Progress : Type 0 where
  returned : Status → List Call → Progress
  running : List Call → Progress

-- EVDIRVER_ONCE is bit 0 of the flags.
abbrev pub once : ℕ → Bool
once flags = flags % 2 == 1

unfoldable pub rounds_loop : ℕ → List Round → List Call → Progress
unfolding dispatch
rounds_loop flags [] log = running log
rounds_loop flags (r ∷ rs) log =
    let log' = log ++ dispatch r.ready in
    let rest = rounds_loop flags rs log' in
    if once flags then returned success log' else if r.clears then returned success log' else rest

run_on : ℕ → List Round → Option ℕ → Progress
run_on flags rs none = returned failure []
run_on flags rs (some fd) = rounds_loop flags rs []

unfoldable pub os_evdriver_run2 : ℕ → Option Evdriver → List Round → Progress
unfolding run_on rounds_loop
os_evdriver_run2 flags none rs = returned failure []
os_evdriver_run2 flags (some d) rs = run_on flags rs d.loop

unfoldable pub os_evdriver_run : Option Evdriver → List Round → Progress
unfolding os_evdriver_run2
os_evdriver_run d rs = os_evdriver_run2 0 d rs

-- The callbacks of all rounds, in order.
abbrev pub dispatched : List Round → List Call
dispatched [] = []
dispatched (r ∷ rs) = dispatch r.ready ++ dispatched rs

-- No callback of the rounds clears `running`.
abbrev pub NoneClears : List Round → Type 0
NoneClears [] = Unit {0}
NoneClears (r ∷ rs) = (r.clears ≡ false) × NoneClears rs

rounds_loop-running :
    (flags : ℕ) (rs : List Round) (log : List Call)
    → once flags ≡ false
    → NoneClears rs
    → rounds_loop flags rs log ≡ running (log ++ dispatched rs)
unfolding rounds_loop
rounds_loop-running flags [] log o h = rw append-nil refl
rounds_loop-running flags (r ∷ rs) log o h =
    rw (o, h.0, rounds_loop-running flags rs (log ++ dispatch r.ready) o h.1)
      (ap running (append_assoc log (dispatch r.ready) (dispatched rs)))

rounds_loop-stops :
    (flags : ℕ) (rs later : List Round) (r : Round) (log : List Call)
    → once flags ≡ false
    → NoneClears rs
    → r.clears ≡ true
    → rounds_loop flags (rs ++ r ∷ later) log
      ≡ returned success (log ++ dispatched rs ++ dispatch r.ready)
unfolding rounds_loop
rounds_loop-stops flags [] later r log o h c = rw (o, c, append-nil) refl
rounds_loop-stops flags (s ∷ rs) later r log o h c =
    rw (o, h.0, rounds_loop-stops flags rs later r (log ++ dispatch s.ready) o h.1 c)
      (ap (λ x. returned success (x ++ dispatch r.ready))
        (append_assoc log (dispatch s.ready) (dispatched rs)))

-- With EVDIRVER_ONCE the call returns after one round.
run2_once :
    (flags fd : ℕ) (d : Evdriver) (rs : List Round) (r : Round)
    → d.loop ≡ some fd
    → once flags ≡ true
    → os_evdriver_run2 flags (some d) (r ∷ rs) ≡ returned success (dispatch r.ready)
unfolding os_evdriver_run2
run2_once flags fd d rs r e o = rw (e, o) refl

-- On a driver with an epoll instance and without EVDIRVER_ONCE, os_evdriver_run2 goes on through
-- all rounds that leave `running` set, and has then called the callbacks of all of them, in
-- order; after the first round in which a callback clears `running` it returns 0, that round's
-- callbacks called too, and later rounds are not seen.
pub run2_dispatches :
    (flags fd : ℕ) (d : Evdriver) (rs later : List Round) (r : Round)
    → d.loop ≡ some fd
    → once flags ≡ false
    → NoneClears rs
    → r.clears ≡ true
    → (os_evdriver_run2 flags (some d) rs ≡ running (dispatched rs))
      × (os_evdriver_run2 flags (some d) (rs ++ r ∷ later)
          ≡ returned success (dispatched rs ++ dispatch r.ready))
unfolding os_evdriver_run2
run2_dispatches flags fd d rs later r e o h c =
    (rw e (rounds_loop-running flags rs [] o h), rw e (rounds_loop-stops flags rs later r [] o h c))
