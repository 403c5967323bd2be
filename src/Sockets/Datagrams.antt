-- ===== src/Sockets/Datagrams.antt =====
-- Where the datagrams of os_broadcast.c and os_multicast.c go.
use multi_task_app.Prelude.{ℕ, ◌≡◌, refl, ap, Option, none, some, List, [], ◌∷◌}
use multi_task_app.Sockets.{SockaddrIn, Sent}
use multi_task_app.Sockets.Broadcast.{Broadcast, os_broadcast_send, os_broadcast_recv}
use multi_task_app.Sockets.Multicast.{Multicast, os_multicast_send, os_multicast_recv}

-- A call of the send function, or one of the receive function that takes a datagram.
pub data Event : Type 0 where
  sends : List ℕ → Event
  receives : ℕ → SockaddrIn → List ℕ → Event

-- The addresses that the datagrams should have: that of the last sender heard, and until one is
-- heard the address at first.
abbrev pub destinations : SockaddrIn → List Event → List SockaddrIn
destinations addr [] = []
destinations addr (sends bytes ∷ es) = addr ∷ destinations addr es
destinations addr (receives size sender bytes ∷ es) = destinations sender es

-- The calls of sendto that a sequence of calls makes.
abbrev consed : Option Sent → List Sent → List Sent
consed none sent = sent
consed (some s) sent = s ∷ sent

abbrev pub addresses : List Sent → List SockaddrIn
addresses [] = []
addresses (s ∷ sent) = s.to ∷ addresses sent

abbrev broadcast_after : Option (Option (List ℕ) × Broadcast) → Broadcast → Broadcast
broadcast_after none b = b
broadcast_after (some (bytes, b')) b = b'

abbrev multicast_after : Option (Option (List ℕ) × Multicast) → Multicast → Multicast
multicast_after none b = b
multicast_after (some (bytes, b')) b = b'

unfoldable pub broadcast_run : List Event → Broadcast → List Sent
broadcast_run [] b = []
broadcast_run (sends bytes ∷ es) b = consed (os_broadcast_send (some b) bytes) (broadcast_run es b)
broadcast_run (receives size sender bytes ∷ es) b =
    broadcast_run es (broadcast_after (os_broadcast_recv (some b) size (some (sender, bytes))) b)

unfoldable pub multicast_run : List Event → Multicast → List Sent
multicast_run [] b = []
multicast_run (sends bytes ∷ es) b = consed (os_multicast_send (some b) bytes) (multicast_run es b)
multicast_run (receives size sender bytes ∷ es) b =
    multicast_run es (multicast_after (os_multicast_recv (some b) size (some (sender, bytes))) b)

broadcast_run-destinations :
    (es : List Event) (b : Broadcast) → addresses (broadcast_run es b) ≡ destinations b.addr es
unfolding broadcast_run os_broadcast_send os_broadcast_recv
broadcast_run-destinations [] b = refl
broadcast_run-destinations (sends bytes ∷ es) b =
    ap (λ l. b.addr ∷ l) (broadcast_run-destinations es b)
broadcast_run-destinations (receives size sender bytes ∷ es) b =
    broadcast_run-destinations es (record b { addr = sender })

multicast_run-destinations :
    (es : List Event) (b : Multicast) → addresses (multicast_run es b) ≡ destinations b.addr es
unfolding multicast_run os_multicast_send os_multicast_recv
multicast_run-destinations [] b = refl
multicast_run-destinations (sends bytes ∷ es) b =
    ap (λ l. b.addr ∷ l) (multicast_run-destinations es b)
multicast_run-destinations (receives size sender bytes ∷ es) b =
    multicast_run-destinations es (record b { addr = sender })

-- A datagram does not go to the address that the broadcast or the multicast was created for once
-- one has been received: in every sequence of sends and of receives that take a datagram, each
-- datagram goes to the sender of the last one received before it, and to the address at first only
-- until then.
pub datagrams_follow_senders :
    (es : List Event) (b : Broadcast) (c : Multicast)
    → (addresses (broadcast_run es b) ≡ destinations b.addr es)
      × (addresses (multicast_run es c) ≡ destinations c.addr es)
datagrams_follow_senders es b c = (broadcast_run-destinations es b, multicast_run-destinations es c)
