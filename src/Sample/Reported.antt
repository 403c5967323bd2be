-- ===== src/Sample/Reported.antt =====
-- What the samples that report the memory in use send.
use multi_task_app.Prelude.{
  ℕ, ◌+◌, ◌-◌, ◌≡◌, refl, length, length-map, map, take, true, Option, some, List, [], ◌∷◌, arith,
}
use multi_task_app.Alloc.{Allocator}
use multi_task_app.Task.{MmNode}
use multi_task_app.Mm.{Sys, as_built, row_buf, os_mm_show2}
use multi_task_app.Mm.Trace.{NeverNull}
use multi_task_app.Mm.Leak.{Request, malloc_count, serve, serve_leaks_traces}
use multi_task_app.Sockets.{Process, inaddr_broadcast, Sent}
use multi_task_app.Sockets.Broadcast.{
  Broadcast, Answers, broadcast_type_server, address, bind_passes, os_broadcast_send,
  os_broadcast_create,
}
use multi_task_app.Sockets.Multicast.{Multicast}
use multi_task_app.Sample.Reports.{
  mm_broadcast_round, broadcast_all, followed, mm_broadcast, task_broadcast_round,
  task_multicast_round,
}

-- A datagram of each text, from a broadcast.
abbrev pub datagrams : Broadcast → List (List ℕ) → List Sent
datagrams b = map (λ s. record { socket = b.socket_fd; to = b.addr; bytes = s })

broadcast_all_lem :
    (b : Broadcast) (rows : List (List ℕ)) → broadcast_all (some b) rows ≡ some (datagrams b rows)
unfolding broadcast_all followed mm_broadcast os_broadcast_send
broadcast_all_lem b [] = refl
broadcast_all_lem b (s ∷ rows) = rw (broadcast_all_lem b rows) refl

-- task_broadcast.c and task_multicast.c report nothing: whatever they hold, a round sends no
-- datagram, since os_task_mm_json_get fails.
pub rounds_send_nothing :
    (b : Option Broadcast) (m : Option Multicast) (pjson : Option (List ℕ))
    → (task_broadcast_round b pjson ≡ some []) × (task_multicast_round m pjson ≡ some [])
unfolding task_broadcast_round task_multicast_round
rounds_send_nothing b m pjson = (refl, refl)

-- mm_broadcast.c reports every MALLOC, also those whose block was freed: after any calls of MALLOC
-- and FREE, a round with a broadcast whose socket the kernel gave sends one datagram for each entry
-- that os_mm_list had before and for each of the MALLOCs, each to the broadcast address with
-- its port, and their bytes are the rows that os_mm_show2 prints.
pub mm_broadcast_round-serve :
    (m : Allocator) (libc : List ℕ → ℕ → ℕ) (rs : List Request) (s : Sys) (text : MmNode → List ℕ)
    (k : Answers) (port fd : ℕ) (p : Process m.Store)
    → NeverNull libc
    → k.socket ≡ some fd
    → k.setsockopt ≡ true
    → (b : Broadcast) × ((os_broadcast_create m k broadcast_type_server port p).0 ≡ some b)
      × (t : Sys) × (serve libc as_built rs (some s) ≡ some t)
      × (sent : List Sent) × (mm_broadcast_round text (some b) t ≡ some sent)
      × (sent
          ≡ map
              (λ row. record {
                socket = fd;
                to = record { sin_addr = inaddr_broadcast; sin_port = port };
                bytes = row;
              })
              (os_mm_show2 text true t).0)
      × (length sent ≡ length s.os_mm_list + malloc_count rs)
unfolding mm_broadcast_round os_mm_show2 os_broadcast_create bind_passes address
mm_broadcast_round-serve m libc rs s text k port fd p h e e' =
    let (t, served, grown, traces) = serve_leaks_traces libc rs s h in
    let b : Broadcast = record {
      self = (m.malloc 20 p.store).0;
      socket_fd = fd;
      addr = record { sin_addr = inaddr_broadcast; sin_port = port };
    } in
    let to_datagram : List ℕ → Sent =
      λ row. record { socket = b.socket_fd; to = b.addr; bytes = row } in
    let rows = map (λ n. take (row_buf - 1) (text n)) t.os_mm_list in
    (
      b,
      rw (e, e') refl,
      t,
      served,
      datagrams b rows,
      broadcast_all_lem b rows,
      refl,
      omega (
        arith,
        length-map to_datagram rows,
        length-map (λ n. take (row_buf - 1) (text n)) t.os_mm_list,
        grown,
      ),
    )
