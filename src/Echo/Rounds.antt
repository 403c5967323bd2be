-- ===== src/Echo/Rounds.antt =====
-- How a round of task_routine_tcp_client2 of sample/udp_tcp_client.c ends.
use multi_task_app.Prelude.{
  ℕ, ◌≡◌, ◌≢◌, ◌⊎◌, refl, ◌==◌, Bool, true, false, Bool-cases, Option-cases, inl, inr, take,
  head_or, Option, none, some, List,
}
use multi_task_app.Alloc.{Allocator}
use multi_task_app.App.{padded}
use multi_task_app.Discovery.{TestIpInfo, string_of, buf_size}
use multi_task_app.Sockets.{Process, Restored}
use multi_task_app.Sockets.TcpClient.{
  TcpClient, Answers, os_tcp_client_create, os_tcp_client_read, os_tcp_client_destroy,
  client_create_releases,
}
use multi_task_app.Echo.{Round, goes_on, returns, crashes, asked, task_routine_tcp_client2}

-- The array as a text, once the answer is in it.
abbrev pub text_in : List ℕ → Option (List ℕ)
text_in received = string_of (padded buf_size (take buf_size received))

module _ (m : Allocator) where
  open m use {Store}

  -- The three ends of a round, from the process `p`: the client is created as `c` in the process
  -- `p'`.
  abbrev pub Ends :
      Option TcpClient → Process Store → Option (List ℕ) → Process Store → Round Store → Type 0
  Ends c p' answer p r =
      ((text : Option (List ℕ)) × (end : Process Store) × (r ≡ goes_on text end) × Restored m p end)
      ⊎ ((x : TcpClient) × (end : Process Store) × (r ≡ returns end)
          × Restored m p (os_tcp_client_destroy m (some x) end))
      ⊎ ((r ≡ crashes)
          × ((c ≡ none)
              ⊎ ((received : List ℕ) × (answer ≡ some received) × (text_in received ≡ none))))

  asked-Ends :
      (sent : Bool) (answer : Option (List ℕ)) (x : TcpClient) (p p' : Process Store)
      → Restored m p (os_tcp_client_destroy m (some x) p')
      → Ends (some x) p' answer p (asked m sent answer (some x, p'))
  unfolding asked os_tcp_client_read
  asked-Ends sent none x p p' h = inr (inl (x, p', refl, h))
  asked-Ends false (some received) x p p' h = inr (inl (x, p', refl, h))
  asked-Ends true (some received) x p p' h = elim (Option-cases (text_in received)) [
    | inl e ↦ inr (inr (rw e refl, inr (received, refl, e)))
    | inr (text, e) ↦ inl (some text, _, rw e refl, h)
  ]

  -- A round of the client's task, however the kernel answers: it goes on with every descriptor and
  -- block as before; or the task returns, and the client that it made still holds its socket and
  -- its block; or it crashes, and then either no client could be made, which the round does not
  -- look at, or the answer fills the array without an end. The kernel does not give the descriptor
  -- 0.
  pub client2_round-Ends :
      (k : Answers) (info : TestIpInfo) (sent : Bool) (answer : Option (List ℕ)) (p : Process Store)
      → k.socket ≢ some 0
      → let (c, p') = os_tcp_client_create m k "tcp_client" p in
        Ends c p' answer p (task_routine_tcp_client2 m k info sent answer p)
  unfolding task_routine_tcp_client2 asked
  client2_round-Ends k info sent answer p h =
      let (c, p') = os_tcp_client_create m k "tcp_client" p in
      elim (Bool-cases (head_or 0 info.ip_text == 0)) [
        | inl e ↦ rw e (inl (none, p, refl, (refl, λ a. refl)))
        | inr e ↦ elim (client_create_releases m k "tcp_client" p h) [
          | inl (f, restored) ↦ rw (e, f) (inr (inr (refl, inl refl)))
          | inr (x, f, restored) ↦
              let kept : Restored m p (os_tcp_client_destroy m (some x) p') = rw f at restored in
              rw (e, f) (asked-Ends sent answer x p p' kept)
        ]
      ]
