-- ===== src/Sockets/Multicast.antt =====
-- platform/os/linux/base/os_multicast.c.
use multi_task_app.Prelude.{
  List, take, ℕ, ◌≡◌, ◌≢◌, ◌⊎◌, inl, inr, refl, ◌==◌, if◌then◌else◌, Bool, true, false, ◌&&◌,
  Bool-cases, Option, none, some, ◌∷◌, ◌+◌, bit, arith,
}
use multi_task_app.Alloc.{Allocator, blocks-free-malloc}
use multi_task_app.Sockets.{
  Sent, Process, SockaddrIn, inaddr_any, parsed, close, erase_opened, Restored,
}

pub data MulticastType : Type 0 where
  multicast_type_server multicast_type_client : MulticastType

-- struct os_multicast_s with its own address.
pub record Multicast : Type 0 where
  pub self : ℕ
  pub socket_fd : ℕ
  pub addr : SockaddrIn

-- What the kernel answers to socket, and whether bind and the two calls of setsockopt, for
-- IP_MULTICAST_LOOP and IP_ADD_MEMBERSHIP, succeed.
pub record Answers : Type 0 where
  pub socket : Option ℕ
  pub bind : Bool
  pub multicast_loop : Bool
  pub add_membership : Bool

-- sizeof(os_multicast_t).
abbrev pub multicast_size : ℕ
multicast_size = 20

-- `group` is what inet_addr reads from the parameter `addr`.
unfoldable pub address : MulticastType → ℕ → ℕ → SockaddrIn
address multicast_type_client group port = record { sin_addr = inaddr_any; sin_port = port }
address multicast_type_server group port = record { sin_addr = parsed group; sin_port = port }

-- Only a client binds and joins the group; each of the three calls may end the function.
unfoldable pub joins : MulticastType → Answers → Bool
joins multicast_type_server k = true
joins multicast_type_client k = k.bind && (k.multicast_loop && k.add_membership)

-- The assert stops the process where the pointer is NULL: `none`.
unfoldable pub os_multicast_send : Option Multicast → List ℕ → Option Sent
os_multicast_send none bytes = none
os_multicast_send (some b) bytes =
    some (record { socket = b.socket_fd; to = b.addr; bytes = bytes })

-- The datagram that recvfrom takes, with its sender, or `none` where it returns -1: what is put in
-- an array of `size` bytes, and the object, in whose address recvfrom writes the sender's.
unfoldable pub os_multicast_recv :
    Option Multicast → ℕ → Option (SockaddrIn × List ℕ) → Option (Option (List ℕ) × Multicast)
os_multicast_recv none size datagram = none
os_multicast_recv (some b) size none = some (none, b)
os_multicast_recv (some b) size (some (sender, bytes)) =
    some (some (take size bytes), record b { addr = sender })

module _ (m : Allocator) where
  open m use {Store, malloc, free, blocks}

  -- The paths that return NULL close and free nothing.
  configure :
      Answers
      → MulticastType
      → ℕ
      → ℕ
      → ℕ
      → Option ℕ
      → Process Store
      → Option Multicast × Process Store
  configure k type group port b none p = (none, p)
  configure k type group port b (some fd) p =
      let p' : Process Store = record p { opened = fd ∷ p.opened } in
      if joins type k
      then (some (record { self = b; socket_fd = fd; addr = address type group port }), p')
      else (none, p')

  -- The assert on malloc's result holds where the call goes on.
  unfoldable pub os_multicast_create :
      Answers → MulticastType → ℕ → ℕ → Process Store → Option Multicast × Process Store
  unfolding configure
  os_multicast_create k type group port p =
      let (b, s) = malloc multicast_size p.store in
      configure k type group port b k.socket (record p { store = s })

  unfoldable pub os_multicast_destroy : Option Multicast → Process Store → Process Store
  os_multicast_destroy none p = p
  os_multicast_destroy (some b) p =
      let p' = if b.socket_fd == 0 then p else close b.socket_fd p in
      record p' { store = free b.self p'.store }

  -- One block is live that was not before, at an address that is not NULL.
  abbrev pub BlockKept : Process Store → Process Store → Type 0
  BlockKept p p' =
      (b : ℕ) × (b ≢ 0) × ((a : ℕ) → blocks p'.store a ≡ blocks p.store a + bit (b == a))

  one_block :
      (p : Process Store) (opened : _)
      → BlockKept p (record { opened = opened; store = (malloc multicast_size p.store).1 })
  one_block p opened = (
    (malloc multicast_size p.store).0,
    m.malloc_nonnull _ _,
    m.malloc_blocks multicast_size p.store,
  )

  leaked_or_made :
      (k : Answers) (type : MulticastType) (group port fd : ℕ) (p : Process Store)
      → fd ≢ 0
      → let (made, s) = malloc multicast_size p.store in
        let (b, p') = configure k type group port made (some fd) (record p { store = s }) in
        ((joins type k ≡ false) × (b ≡ none) × (p'.opened ≡ fd ∷ p.opened) × BlockKept p p')
        ⊎ ((joins type k ≡ true)
            × (x : Multicast) × (b ≡ some x)
            × Restored m p (os_multicast_destroy b p'))
  unfolding os_multicast_destroy configure close
  leaked_or_made k type group port fd p nz =
      let freed = blocks-free-malloc m multicast_size p.store in
      let nonzero : (fd == 0) ≡ false = ground (arith, nz) in
      elim (Bool-cases (joins type k)) [
        | inl e ↦ rw e (inr (refl, _, refl, rw (nonzero, erase_opened fd p.opened) (refl, freed)))
        | inr e ↦ rw e (inl (refl, refl, refl, one_block p (fd ∷ p.opened)))
      ]

  -- os_multicast_create leaks where it fails after the kernel gave a socket: if bind or setsockopt
  -- fails for a client it returns NULL, the socket stays open and the block it allocated stays
  -- live. Where it succeeds, the destruction of the multicast gives everything back. The kernel
  -- does not give the descriptor 0, which os_multicast_destroy would leave open.
  pub multicast_create_leaks :
      (k : Answers) (type : MulticastType) (group port fd : ℕ) (p : Process Store)
      → k.socket ≡ some fd
      → fd ≢ 0
      → let (b, p') = os_multicast_create k type group port p in
        ((joins type k ≡ false) × (b ≡ none) × (p'.opened ≡ fd ∷ p.opened) × BlockKept p p')
        ⊎ ((joins type k ≡ true)
            × (x : Multicast) × (b ≡ some x)
            × Restored m p (os_multicast_destroy b p'))
  unfolding os_multicast_create
  multicast_create_leaks k type group port fd p h nz =
      simp h (leaked_or_made k type group port fd p nz)
