-- ===== src/Discovery/Announced.antt =====
-- What a client learns from the announcements of a server.
use multi_task_app.Prelude.{
  ℕ, zero, suc, ◌<◌, ◌≡◌, ◌≢◌, refl, ◌∙◌, ◌==◌, false, length, take_all, drop, some, List, [], ◌∷◌,
  ◌++◌, arith,
}
use multi_task_app.Discovery.{
  Key, ip, port, mac, Json, tcp_server2_port, tcp_server2_ip, TestIpInfo, buf_size, string_of,
  Round, goes_on, ends, faults, announced_object, task_routine_udp_server2,
  task_routine_udp_client2,
}

abbrev pub NoZero : List ℕ → Type 0
NoZero [] = Unit {0}
NoZero (c ∷ s) = (c ≢ 0) × NoZero s

pub string_of-append : (text rest : List ℕ) → NoZero text → string_of (text ++ 0 ∷ rest) ≡ some text
unfolding string_of
string_of-append [] rest h = refl
string_of-append (c ∷ text) rest h =
    let real : (c == 0) ≡ false = ground (arith, h.0) in
    rw (real, string_of-append text rest h.1) refl

pub length_nonzero : (text : List ℕ) → text ≢ [] → (length text == 0) ≡ false
length_nonzero [] h = absurd (h refl)
length_nonzero (c ∷ text) h = ground arith

drop-append : (text rest : List ℕ) → drop (length text) (text ++ rest) ≡ rest
drop-append [] rest = refl
drop-append (c ∷ text) rest = drop-append text rest

module _ (J : Type 0) (json : Json J) where
  open json use {dotset_string, dotset_number, dotget_string, dotget_number, parse_string}

  -- What is documented of the functions that set and get the fields of an object.
  pub record Documented : Type 0 where
    pub get_set_string :
        (k : Key) (v : List ℕ) (j : J) → dotget_string k (dotset_string k v j) ≡ some v
    pub get_set_number : (k : Key) (n : ℕ) (j : J) → dotget_number k (dotset_number k n j) ≡ n
    pub string_kept :
        (k k' : Key) (v : List ℕ) (j : J)
        → k ≢ k'
        → dotget_string k (dotset_string k' v j) ≡ dotget_string k j
    pub string_kept_number :
        (k k' : Key) (n : ℕ) (j : J)
        → k ≢ k'
        → dotget_string k (dotset_number k' n j) ≡ dotget_string k j
    pub number_kept :
        (k k' : Key) (v : List ℕ) (j : J)
        → k ≢ k'
        → dotget_number k (dotset_string k' v j) ≡ dotget_number k j

  abbrev pub datagram : List ℕ
  datagram = task_routine_udp_server2 J json

  -- The client's state after some datagrams of the server.
  abbrev pub listen : ℕ → TestIpInfo → List ℕ → Round
  listen zero info buf = goes_on info buf
  listen (suc k) info buf = elim (task_routine_udp_client2 J json (some datagram) info buf) [
    | goes_on info' buf' ↦ listen k info' buf'
    | ends ↦ ends
    | faults ↦ faults
  ]

  abbrev pub announced : TestIpInfo
  announced = record { ip_text = tcp_server2_ip; port_number = tcp_server2_port }

  got_ip : Documented → dotget_string ip (announced_object J json) ≡ some tcp_server2_ip
  got_ip d =
      d.string_kept ip mac _ _ (λ x. cc x)
      ∙ d.string_kept_number ip port _ _ (λ x. cc x)
      ∙ d.get_set_string ip tcp_server2_ip _

  got_port : Documented → dotget_number port (announced_object J json) ≡ tcp_server2_port
  got_port d = d.number_kept port mac _ _ (λ x. cc x) ∙ d.get_set_number port tcp_server2_port _

  one_round :
      (info : TestIpInfo) (buf rest : List ℕ)
      → Documented
      → parse_string datagram ≡ some (announced_object J json)
      → NoZero datagram
      → datagram ≢ []
      → length datagram < buf_size
      → drop (length datagram) buf ≡ 0 ∷ rest
      → task_routine_udp_client2 J json (some datagram) info buf
        ≡ goes_on announced (datagram ++ 0 ∷ rest)
  unfolding task_routine_udp_client2
  one_round info buf rest d e z some_text short h =
      let all = take_all buf_size datagram (omega (arith, short)) in
      let nonempty = length_nonzero datagram some_text in
      rw (all, nonempty, h, string_of-append datagram rest z, e, got_ip d, got_port d) refl

  -- A client that hears a server learns its address, and keeps it: after any number of the server's
  -- datagrams, and one at least, the client has the server's address and port, and its task goes
  -- on, from any array whose rest behind the datagram starts with 0, as a cleared one does. The
  -- datagram is a text shorter than the array that parson parses back to the object it was made
  -- from.
  pub listen-announced :
      (k : ℕ) (info : TestIpInfo) (buf rest : List ℕ)
      → Documented
      → parse_string datagram ≡ some (announced_object J json)
      → NoZero datagram
      → datagram ≢ []
      → length datagram < buf_size
      → drop (length datagram) buf ≡ 0 ∷ rest
      → listen (suc k) info buf ≡ goes_on announced (datagram ++ 0 ∷ rest)
  listen-announced zero info buf rest d e z some_text short h =
      rw (one_round info buf rest d e z some_text short h, listen) refl
  listen-announced (suc k) info buf rest d e z some_text short h =
      rw (one_round info buf rest d e z some_text short h, listen)
        (listen-announced k announced (datagram ++ 0 ∷ rest) rest d e z some_text short
          (drop-append datagram (0 ∷ rest)))
