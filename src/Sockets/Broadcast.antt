-- ===== src/Sockets/Broadcast.antt =====
-- platform/os/linux/base/os_broadcast.c.
use multi_task_app.Prelude.{
  List, take, ℕ, ◌≡◌, ◌≢◌, ◌⊎◌, inl, inr, refl, ap, ◌==◌, if◌then◌else◌, Bool, true, false, ◌&&◌,
  Bool-cases, Option, none, some, ◌∷◌, arith,
}
use multi_task_app.Alloc.{Allocator, blocks-free-malloc}
use multi_task_app.Sockets.{
  Sent, Process, SockaddrIn, inaddr_any, inaddr_broadcast, close, erase_opened, Restored,
}

pub data BroadcastType : Type 0 where
  broadcast_type_server broadcast_type_client : BroadcastType

-- struct os_broadcast_s with its own address.
pub record Broadcast : Type 0 where
  pub self : ℕ
  pub socket_fd : ℕ
  pub addr : SockaddrIn

-- What the kernel answers to socket, and whether setsockopt and bind succeed.
pub record Answers : Type 0 where
  pub socket : Option ℕ
  pub setsockopt : Bool
  pub bind : Bool

-- sizeof(os_broadcast_t).
abbrev pub broadcast_size : ℕ
broadcast_size = 20

unfoldable pub address : BroadcastType → ℕ → SockaddrIn
address broadcast_type_client port = record { sin_addr = inaddr_any; sin_port = port }
address broadcast_type_server port = record { sin_addr = inaddr_broadcast; sin_port = port }

-- Only a client binds.
unfoldable pub bind_passes : BroadcastType → Answers → Bool
bind_passes broadcast_type_client k = k.bind
bind_passes broadcast_type_server k = true

-- The assert stops the process where the pointer is NULL: `none`.
unfoldable pub os_broadcast_send : Option Broadcast → List ℕ → Option Sent
os_broadcast_send none bytes = none
os_broadcast_send (some b) bytes =
    some (record { socket = b.socket_fd; to = b.addr; bytes = bytes })

-- The datagram that recvfrom takes, with its sender, or `none` where it returns -1: what is put in
-- an array of `size` bytes, and the object, in whose address recvfrom writes the sender's.
unfoldable pub os_broadcast_recv :
    Option Broadcast → ℕ → Option (SockaddrIn × List ℕ) → Option (Option (List ℕ) × Broadcast)
os_broadcast_recv none size datagram = none
os_broadcast_recv (some b) size none = some (none, b)
os_broadcast_recv (some b) size (some (sender, bytes)) =
    some (some (take size bytes), record b { addr = sender })

module _ (m : Allocator) where
  open m use {Store, malloc, free, blocks}

  -- setsockopt, then bind; the labels set_fail and bind_fail close the socket, and `fail` after
  -- them frees the block.
  configure :
      Answers → BroadcastType → ℕ → ℕ → Option ℕ → Process Store → Option Broadcast × Process Store
  configure k type port b none p = (none, record p { store = free b p.store })
  configure k type port b (some fd) p =
      let p' : Process Store = record p { opened = fd ∷ p.opened } in
      if k.setsockopt && bind_passes type k
      then (some (record { self = b; socket_fd = fd; addr = address type port }), p')
      else (none, record (close fd p') { store = free b p.store })

  -- The assert on malloc's result holds where the call goes on.
  unfoldable pub os_broadcast_create :
      Answers → BroadcastType → ℕ → Process Store → Option Broadcast × Process Store
  unfolding configure
  os_broadcast_create k type port p =
      let (b, s) = malloc broadcast_size p.store in
      configure k type port b k.socket (record p { store = s })

  unfoldable pub os_broadcast_destroy : Option Broadcast → Process Store → Process Store
  os_broadcast_destroy none p = p
  os_broadcast_destroy (some b) p =
      let p' = if b.socket_fd == 0 then p else close b.socket_fd p in
      record p' { store = free b.self p'.store }

  released :
      (k : Answers) (type : BroadcastType) (port : ℕ) (p : Process Store) (socket : Option ℕ)
      → socket ≢ some 0
      → let (b, s) = malloc broadcast_size p.store in
        let (x, p') = configure k type port b socket (record p { store = s }) in
        ((x ≡ none) × Restored m p p')
        ⊎ ((y : Broadcast) × (x ≡ some y) × Restored m p (os_broadcast_destroy x p'))
  unfolding os_broadcast_destroy configure close
  released k type port p none h = inl (refl, (refl, blocks-free-malloc m broadcast_size p.store))
  released k type port p (some fd) h =
      let freed = blocks-free-malloc m broadcast_size p.store in
      let nonzero : (fd == 0) ≡ false = ground (arith, λ (e : fd ≡ 0). h (ap some e)) in
      elim (Bool-cases (k.setsockopt && bind_passes type k)) [
        | inl e ↦ rw e (inr (_, refl, rw (nonzero, erase_opened fd p.opened) (refl, freed)))
        | inr e ↦ rw e (inl (refl, (erase_opened fd p.opened, freed)))
      ]

  -- os_broadcast_create either fails and has released all that it took, or gives a broadcast
  -- whose destruction releases it: the same descriptors are open as before the call, and at each
  -- address there are as many live blocks. The kernel does not give the descriptor 0, which
  -- os_broadcast_destroy would leave open.
  pub broadcast_create_releases :
      (k : Answers) (type : BroadcastType) (port : ℕ) (p : Process Store)
      → k.socket ≢ some 0
      → let (b, p') = os_broadcast_create k type port p in
        ((b ≡ none) × Restored m p p')
        ⊎ ((x : Broadcast) × (b ≡ some x) × Restored m p (os_broadcast_destroy b p'))
  unfolding os_broadcast_create
  broadcast_create_releases k type port p h = released k type port p k.socket h
