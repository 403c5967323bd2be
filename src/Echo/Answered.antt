-- ===== src/Echo/Answered.antt =====
-- What the client of sample/tcp_client.c gets back from the server of sample/tcp_server.c.
use multi_task_app.Prelude.{
  ℕ, zero, suc, ◌<◌, ◌≤◌, length-take, ◌≡◌, ◌≢◌, refl, ◌∙◌, ap, true, false, length, take, take_all,
  Option, none, some, List, [], ◌∷◌, ◌++◌, ◌==◌, arith,
}
use multi_task_app.Alloc.{Allocator}
use multi_task_app.App.{padded}
use multi_task_app.Discovery.{string_of, buf_size}
use multi_task_app.Discovery.Announced.{NoZero, string_of-append}
use multi_task_app.Msg.{success}
use multi_task_app.Sockets.{Process, Restored}
use multi_task_app.Sockets.TcpClient.{
  Answers, os_tcp_client_write, os_tcp_client_read, client_create_lem, client_destroy_lem,
}
use multi_task_app.Echo.{Answer, answers, nothing_read, overreads, tcp_server_callback, exits, main}

-- What the server writes.
abbrev pub reply : Answer → Option (List ℕ)
reply (answers text bytes) = some bytes
reply nothing_read = none
reply overreads = none

padded_text :
    (n : ℕ) (text : List ℕ) → length text < n → (rest : List ℕ) × (padded n text ≡ text ++ 0 ∷ rest)
unfolding padded
padded_text zero text h = absurd (omega (arith, h))
padded_text (suc n) [] h = (padded n [], refl)
padded_text (suc n) (c ∷ text) h =
    let (rest, e) = padded_text n text (omega (arith, h)) in (rest, ap (λ l. c ∷ l) e)

-- A text that leaves room in the array is read from it as it is.
pub string_of-padded :
    (text : List ℕ)
    → NoZero text
    → length text < buf_size
    → string_of (padded buf_size (take buf_size text)) ≡ some text
string_of-padded text z h =
    let (rest, e) = padded_text buf_size text h in
    ap (λ t. string_of (padded buf_size t)) (take_all buf_size text (omega (arith, h)))
    ∙ ap string_of e
    ∙ string_of-append text rest z

-- A text without a 0 that fills the array is read beyond it.
string_of-full :
    (n : ℕ) (text : List ℕ) → NoZero text → length text ≡ n → string_of (padded n text) ≡ none
unfolding string_of padded
string_of-full zero text z h = refl
string_of-full (suc n) [] z h = absurd (omega (arith, h))
string_of-full (suc n) (c ∷ text) z h =
    let real : (c == 0) ≡ false = ground (arith, z.0) in
    rw (real, string_of-full n text z.1 (omega (arith, h))) refl

NoZero-take : (n : ℕ) (text : List ℕ) → NoZero text → NoZero (take n text)
NoZero-take zero text z = tt
NoZero-take (suc n) [] z = tt
NoZero-take (suc n) (c ∷ text) z = (z.0, NoZero-take n text z.1)

-- The callback of the server reads behind its array for every text of 1024 bytes or more: a text
-- without a byte 0 that fills the array is logged without an end.
pub callback_overreads :
    (text : List ℕ)
    → NoZero text
    → buf_size ≤ length text
    → tcp_server_callback (some text) ≡ overreads
unfolding tcp_server_callback
callback_overreads text z h =
    let full =
      string_of-full buf_size (take buf_size text) (NoZero-take buf_size text z)
        (length-take buf_size text h) in
    rw full refl

-- The callback logs and sends back a text that leaves room in its array.
pub callback_answers :
    (text : List ℕ)
    → NoZero text
    → length text < buf_size
    → tcp_server_callback (some text) ≡ answers text text
unfolding tcp_server_callback
callback_answers text z h =
    rw (string_of-padded text z h, take_all buf_size text (omega (arith, h))) refl

module _ (m : Allocator) where
  open m use {Store}

  -- What the client sends, it gets back: a text of less than 1024 bytes and without a byte 0 that
  -- reaches the server in one piece is logged there and sent back, and the client that reads it
  -- back in one piece logs the same text and returns 0, with every descriptor and block as before;
  -- if the connection comes about and the write succeeds.
  pub client_gets_back :
      (k : Answers) (text : List ℕ) (fd : ℕ) (p : Process Store)
      → NoZero text
      → length text < buf_size
      → k.socket ≡ some fd
      → fd ≢ 0
      → k.inet_pton ≡ true
      → k.connect ≡ true
      → let answer = tcp_server_callback (some text) in
        (answer ≡ answers text text)
        × (p' : Process Store) × (main m k (text ∷ []) true (reply answer) p
            ≡ exits success (some (fd, text)) (some text) p')
        × Restored m p p'
  unfolding main os_tcp_client_write os_tcp_client_read
  client_gets_back k text fd p z h e nonzero i c =
      let same = callback_answers text z h in
      (
        same,
        _,
        rw (same, client_create_lem m k "tcp_client" fd p e nonzero i c, string_of-padded text z h)
            refl,
        client_destroy_lem m "tcp_client" fd p,
      )
