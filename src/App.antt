-- ===== src/App.antt =====
-- init/main.c: the program that starts a producer, two consumers and other tasks.
pub mod Conversation
pub mod Start
pub mod Blocks
pub mod Scheduled
pub mod Accounts
pub mod Conversing
pub mod Rounds
pub mod Received
pub mod Steps
pub mod Runs
pub mod Order
pub mod Locks
pub mod Deadlock
use multi_task_app.Prelude.{
  ℕ, zero, suc, ◌+◌, ◌*◌, ◌==◌, if◌then◌else◌, Bool, Option, none, some, List, [], ◌∷◌, ◌++◌,
  String, map,
}
use multi_task_app.Alloc.{Allocator, Libc}
use multi_task_app.Msg.{
  Msg, Net, Status, success, failure, update, msg_size, os_msg_send, os_msg_recv_resume,
}
use multi_task_app.Task.Life.{Params, os_task_create}

abbrev pub hello : List ℕ
hello = b'h' ∷ b'e' ∷ b'l' ∷ b'l' ∷ b'o' ∷ []

abbrev pub world : List ℕ
world = b'w' ∷ b'o' ∷ b'r' ∷ b'l' ∷ b'd' ∷ []

-- The 32 bytes of the field `data`: memset clears them, and strcpy puts the text in front.
abbrev pub data_size : ℕ
data_size = 32

unfoldable pub padded : ℕ → List ℕ → List ℕ
padded zero text = []
padded (suc n) [] = 0 ∷ padded n []
padded (suc n) (c ∷ text) = c ∷ padded n text

abbrev pub message : String → List ℕ → Msg
message dst text = record {
  src = some "producer";
  dst = dst;
  priority = 0;
  bytes = padded data_size text;
}

-- The names that main gives its tasks, in order.
abbrev pub task_names : List String
task_names =
    "no1" ∷ "no2" ∷ "normal" ∷ "producer" ∷ "consumer1" ∷ "consumer2" ∷ "loop" ∷ "lock" ∷ "die_lock"
    ∷ []

abbrev pub main_params : (String → ℕ) → List Params
main_params routine =
    map (λ name. record { name = name; stack_size = 0; priority = 0; func = routine name; arg = 0 })
      task_names

module _ (m : Allocator) where
  open m use {Store, malloc, free}

  -- A round of the loops of task_routine_no1 and task_routine_no2, in which `cnt` stays 0.
  unfoldable pub task_routine_no1 : Store → Store
  task_routine_no1 s = (malloc 16 s).1

  unfoldable pub task_routine_no2 : Store → Store
  task_routine_no2 s = (malloc 512 s).1

  -- A round of the loop of task_routine_normal: `cnt` goes up to the next round. The size is that
  -- of a `cnt` for which it fits an int.
  unfoldable pub task_routine_normal : ℕ → Store → ℕ × Store
  task_routine_normal cnt s =
      let (p, s') = malloc ((cnt + 1) * 2048) s in (cnt + 1, if p == 0 then s' else free p s')

  freed_unless_sent : ℕ → Status × Net Store → Net Store
  freed_unless_sent msg (success, n) = n
  freed_unless_sent msg (failure, n) = record n { store = free msg n.store }

  -- A half of the loop of task_routine_producer: a message is allocated, filled in and sent, and
  -- freed where os_msg_send fails. The ASSERT only logs. The signal prefers thread `t`.
  unfoldable pub produce : ℕ → String → List ℕ → Net Store → Net Store
  unfolding freed_unless_sent
  produce t dst text n =
      let (msg, s) = malloc (msg_size + data_size) n.store in
      let n' : Net Store = record n { msgs = update n.msgs msg (message dst text); store = s } in
      freed_unless_sent msg (os_msg_send m t msg n')

  unfoldable pub task_routine_producer : ℕ → ℕ → Net Store → Net Store
  unfolding produce
  task_routine_producer t t' n = produce t' "consumer2" world (produce t "consumer1" hello n)

  -- The round of a consumer behind os_msg_recv.
  unfoldable pub consumed : ℕ × Net Store → Option ((Option String × List ℕ) × Net Store)
  consumed (msg, n) =
      if msg == 0
      then none
      else some (((n.msgs msg).src, (n.msgs msg).bytes), record n { store = free msg n.store })

  -- A round of task_routine_consumer1 and of task_routine_consumer2 after the wait in os_msg_recv:
  -- the source and the bytes that are logged. `none` where os_msg_recv returns NULL, which the
  -- round reads through.
  unfoldable pub task_routine_consumer :
      ℕ → Net Store → Option ((Option String × List ℕ) × Net Store)
  unfolding consumed
  task_routine_consumer u n = consumed (os_msg_recv_resume m u n)

  module _ (l : Libc m) where
    -- The calls of os_task_create in order, whose results are not looked at; `created` is whether
    -- the task's thread can be created.
    unfoldable pub create_all : (Params → Bool) → List Params → Net Store → Net Store
    create_all created [] n = n
    create_all created (c ∷ cs) n = create_all created cs (os_task_create m l (created c) c n).1

    -- main, up to its loop; `routine` gives the address of each task's function.
    unfoldable pub main : (String → ℕ) → (Params → Bool) → Net Store → Net Store
    unfolding create_all
    main routine created n = create_all created (main_params routine) n
