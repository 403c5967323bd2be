-- ===== src/Tests/Messages.antt =====
-- Tests of Msg.antt and its children.
use multi_task_app.Prelude.{
  ◌++◌, List, ℕ, ◌+◌, ◌≡◌, ◌≢◌, refl, ◌==◌, if◌then◌else◌, bit, occurrences, none, some, [], ◌∷◌,
  ◌∙◌, sym, arith,
}
use multi_task_app.Task.{find, os_task_aq_get, os_task_aq_self}
use multi_task_app.Mm.{Sys}
use multi_task_app.Msg.{Msg, Net, success, os_msg_send2, os_msg_recv2_resume}
use multi_task_app.Msg.Delivery.{send2_recv2}
use multi_task_app.AsyncQueue.Fifo.{held}
use multi_task_app.Queue.Memory.{non_null}
use multi_task_app.Msg.System.{Event, sends, sends2, waits, wakes, resumes, computes, run}
use multi_task_app.Msg.Order.{messages_in_order}
use multi_task_app.Tests.World.{allocator, five, empty_queue, task}

abbrev hello : Msg
hello = record { src = none; dst = "consumer1"; priority = 0; bytes = 104 ∷ 105 ∷ [] }

abbrev net : Net Sys
net = record {
  tasks = task "producer" 20 60 ∷ task "consumer1" 21 7 ∷ [];
  queues = λ p. if p == 7 then some empty_queue else none;
  msgs = λ p. hello;
  buffers = λ p. [];
  store = five;
}

consumer_queue : os_task_aq_get "consumer1" net.tasks ≡ 7
unfolding os_task_aq_get find
consumer_queue = refl

consumer_self : os_task_aq_self 21 net.tasks ≡ 7
unfolding os_task_aq_self find
consumer_self = refl

no_such_task : os_task_aq_get "consumer9" net.tasks ≡ 0
unfolding os_task_aq_get find
no_such_task = refl

send2_recv2_example :
    let (status, sent) = os_msg_send2 allocator 21 20 (some "consumer1") 0 (1 ∷ 2 ∷ []) net in
    let (p, size, end) = os_msg_recv2_resume allocator 21 sent in
    (status ≡ success)
    × (p ≢ 0)
    × (size ≡ 2)
    × (end.buffers p ≡ 1 ∷ 2 ∷ [])
    × ((x : ℕ) → occurrences x end.store.user ≡ occurrences x net.store.user + bit (p == x))
send2_recv2_example =
    send2_recv2 allocator 21 20 21 5 0 "consumer1" (1 ∷ 2 ∷ []) empty_queue net
      (rw consumer_queue (omega arith)) (consumer_self ∙ sym consumer_queue)
      (rw consumer_queue refl)

-- The consumer waits, is sent two messages while other work goes on, and resumes.
abbrev schedule : List (Event Sys)
schedule =
    waits 21
    ∷ sends 21 50
    ∷ computes (λ p. hello) (record five { user = [] })
    ∷ sends2 21 20 "consumer1" 0 (3 ∷ [])
    ∷ resumes 21
    ∷ wakes 21
    ∷ []

messages_in_order_example :
    let end = run allocator schedule (record { net = net; sent = λ p. []; received = λ p. [] }) in
    (ys : List ℕ) × (held (end.net.queues 7) ≡ some ys)
    × (end.sent 7 ≡ non_null (end.received 7) ++ ys)
messages_in_order_example = messages_in_order allocator schedule net 7 refl
