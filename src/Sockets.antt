-- ===== src/Sockets.antt =====
-- The files of platform/os/linux/base that stand on sockets, and what they share: the process's
-- descriptors beside its memory.
pub mod Broadcast
pub mod Multicast
pub mod TcpClient
pub mod TcpServer
pub mod Service
pub mod Queued
pub mod Accepted
pub mod Worked
pub mod Ordered
pub mod Shutdown
pub mod Endless
pub mod Opened
pub mod Datagrams
use multi_task_app.Prelude.{ℕ, ◌≡◌, refl, ◌==◌, List, ◌∷◌, erase, arith}
use multi_task_app.Alloc.{Allocator}

-- The descriptors that are open, and the allocator's store. A socket that the kernel gives is
-- `none` where it answers -1.
pub record Process (S : Type 0) : Type 0 where
  pub opened : List ℕ
  pub store : S

-- The address of an AF_INET socket: INADDR_ANY, INADDR_BROADCAST, or one that inet_addr parsed.
pub data Address : Type 0 where
  inaddr_any inaddr_broadcast : Address
  parsed : ℕ → Address

pub record SockaddrIn : Type 0 where
  pub sin_addr : Address
  pub sin_port : ℕ

-- A call of sendto: the socket, the address and the bytes.
pub record Sent : Type 0 where
  pub socket : ℕ
  pub to : SockaddrIn
  pub bytes : List ℕ

unfoldable pub close : {S : Type 0} → ℕ → Process S → Process S
close fd p = record p { opened = erase fd p.opened }

pub erase_opened : (fd : ℕ) (fds : List ℕ) → erase fd (fd ∷ fds) ≡ fds
erase_opened fd fds = ground arith

module _ (m : Allocator) where
  open m use {Store, blocks}

  -- The same descriptors are open, and at each address there are as many live blocks.
  abbrev pub Restored : Process Store → Process Store → Type 0
  Restored p p' = (p'.opened ≡ p.opened) × ((a : ℕ) → blocks p'.store a ≡ blocks p.store a)
