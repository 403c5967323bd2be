-- ===== src/Sockets/TcpClient.antt =====
-- platform/os/linux/base/os_tcp_client.c.
use multi_task_app.Prelude.{
  List, ℕ, ◌≡◌, ◌≢◌, ◌⊎◌, inl, inr, refl, ap, ◌==◌, if◌then◌else◌, Bool, true, false, ◌&&◌,
  Bool-cases, Option, none, some, ◌∷◌, String, arith,
}
use multi_task_app.Alloc.{Allocator, blocks-free-malloc, malloc_check}
use multi_task_app.Sockets.{Process, close, erase_opened, Restored}

-- struct os_tcp_client_s with its own address.
pub record TcpClient : Type 0 where
  pub self : ℕ
  pub name : String
  pub fd : ℕ

-- What the kernel answers to socket, and whether inet_pton and connect succeed.
pub record Answers : Type 0 where
  pub socket : Option ℕ
  pub inet_pton : Bool
  pub connect : Bool

-- sizeof(os_tcp_client_t) on a 64-bit target.
abbrev pub tcp_client_size : ℕ
tcp_client_size = 16

-- What is given to write, and where read takes from; the results are those of the calls.
unfoldable pub os_tcp_client_write : TcpClient → List ℕ → ℕ × List ℕ
os_tcp_client_write c bytes = (c.fd, bytes)

unfoldable pub os_tcp_client_read : TcpClient → ℕ → ℕ × ℕ
os_tcp_client_read c size = (c.fd, size)

module _ (m : Allocator) where
  open m use {Store, malloc, free, blocks}

  allocate : String → ℕ → Process Store → Option TcpClient × Process Store
  allocate name sockfd p =
      let (c, s) = malloc tcp_client_size p.store in
      if c == 0
      then (none, record (close sockfd p) { store = s })
      else (some (record { self = c; name = name; fd = sockfd }), record p { store = s })

  -- inet_pton, then connect: a failure of either closes the socket. A socket 0 is refused, and
  -- stays open.
  connected : Answers → String → Option ℕ → Process Store → Option TcpClient × Process Store
  unfolding allocate
  connected k name none p = (none, p)
  connected k name (some sockfd) p =
      let p' : Process Store = record p { opened = sockfd ∷ p.opened } in
      if sockfd == 0
      then (none, p')
      else if k.inet_pton && k.connect
      then allocate name sockfd p'
      else (none, close sockfd p')

  unfoldable pub os_tcp_client_create :
      Answers → String → Process Store → Option TcpClient × Process Store
  unfolding connected
  os_tcp_client_create k name p = connected k name k.socket p

  unfoldable pub os_tcp_client_destroy : Option TcpClient → Process Store → Process Store
  os_tcp_client_destroy none p = p
  os_tcp_client_destroy (some c) p =
      let p' = close c.fd p in record p' { store = free c.self p'.store }

  released :
      (k : Answers) (name : String) (socket : Option ℕ) (p : Process Store)
      → socket ≢ some 0
      → let (c, p') = connected k name socket p in
        ((c ≡ none) × Restored m p p')
        ⊎ ((x : TcpClient) × (c ≡ some x) × Restored m p (os_tcp_client_destroy c p'))
  unfolding connected allocate os_tcp_client_destroy close
  released k name none p h = inl (refl, (refl, λ a. refl))
  released k name (some fd) p h =
      let freed = blocks-free-malloc m tcp_client_size p.store in
      let nonzero : (fd == 0) ≡ false = ground (arith, λ (e : fd ≡ 0). h (ap some e)) in
      rw nonzero (elim (Bool-cases (k.inet_pton && k.connect)) [
        | inl e ↦
            rw (e, malloc_check m tcp_client_size p.store)
              (inr (_, refl, (erase_opened fd p.opened, freed)))
        | inr e ↦ rw e (inl (refl, (erase_opened fd p.opened, λ a. refl)))
      ])

  pub client_create_lem :
      (k : Answers) (name : String) (fd : ℕ) (p : Process Store)
      → k.socket ≡ some fd
      → fd ≢ 0
      → k.inet_pton ≡ true
      → k.connect ≡ true
      → let (c, s) = malloc tcp_client_size p.store in
        os_tcp_client_create k name p ≡ (
          some (record { self = c; name = name; fd = fd }),
          record { opened = fd ∷ p.opened; store = s },
        )
  unfolding os_tcp_client_create connected allocate
  client_create_lem k name fd p e h i c =
      let nonzero : (fd == 0) ≡ false = ground (arith, h) in
      rw (e, nonzero, i, c, malloc_check m tcp_client_size p.store) refl

  pub client_destroy_lem :
      (name : String) (fd : ℕ) (p : Process Store)
      → let (c, s) = malloc tcp_client_size p.store in
        Restored m p (
          os_tcp_client_destroy
            (some (record { self = c; name = name; fd = fd }))
            (record { opened = fd ∷ p.opened; store = s }))
  unfolding os_tcp_client_destroy close
  client_destroy_lem name fd p =
      (erase_opened fd p.opened, blocks-free-malloc m tcp_client_size p.store)

  -- os_tcp_client_create either fails and has released all that it took, or gives a client whose
  -- destruction releases it: the same descriptors are open as before the call, and at each address
  -- there are as many live blocks. The kernel does not give the descriptor 0, which the call would
  -- refuse and leave open.
  pub client_create_releases :
      (k : Answers) (name : String) (p : Process Store)
      → k.socket ≢ some 0
      → let (c, p') = os_tcp_client_create k name p in
        ((c ≡ none) × Restored m p p')
        ⊎ ((x : TcpClient) × (c ≡ some x) × Restored m p (os_tcp_client_destroy c p'))
  unfolding os_tcp_client_create
  client_create_releases k name p h = released k name k.socket p h
