-- ===== src/Discovery.antt =====
-- sample/udp_tcp_server.c and sample/udp_tcp_client.c: a server announces its address by broadcasts
-- of a JSON object, and a client reads it from them.
pub mod Announced
use multi_task_app.Prelude.{
  ℕ, zero, suc, ◌+◌, ◌%◌, ◌^◌, ◌==◌, ltb, if◌then◌else◌, length, take, drop, Option, none, some,
  List, [], ◌∷◌, ◌++◌,
}

-- The keys of the object.
pub data Key : Type 0 where
  ip port mac : Key

-- The functions of parson that the programs call, on its values `J`: numbers are those of the
-- naturals, and a text is a list of bytes without a 0. `none` is NULL.
pub record Json (J : Type 0) : Type 0 where
  pub init_object : J
  pub dotset_string : Key → List ℕ → J → J
  pub dotset_number : Key → ℕ → J → J
  pub serialize_to_string : J → List ℕ
  pub parse_string : List ℕ → Option J
  pub dotget_string : Key → J → Option (List ℕ)
  pub dotget_number : Key → J → ℕ

abbrev pub tcp_server2_port : ℕ
tcp_server2_port = 6666

-- "127.0.0.1".
abbrev pub tcp_server2_ip : List ℕ
tcp_server2_ip = b'1' ∷ b'2' ∷ b'7' ∷ b'.' ∷ b'0' ∷ b'.' ∷ b'0' ∷ b'.' ∷ b'1' ∷ []

abbrev pub pair : List ℕ
pair = b'f' ∷ b'f' ∷ []

-- "ff:ff:ff:ff:ff:ff".
abbrev pub tcp_server2_mac : List ℕ
tcp_server2_mac = pair ++ b':' ∷ pair ++ b':' ∷ pair ++ b':' ∷ pair ++ b':' ∷ pair ++ b':' ∷ pair

-- The fields of test_ip_info_t that are written.
pub record TestIpInfo : Type 0 where
  pub ip_text : List ℕ
  pub port_number : ℕ

-- sizeof(buf), and the size of the field ip.
abbrev pub buf_size : ℕ
buf_size = 1024

abbrev pub ip_size : ℕ
ip_size = 32

-- The string at the start of an array: up to its first 0, `none` where it has none.
unfoldable pub string_of : List ℕ → Option (List ℕ)
string_of [] = none
string_of (c ∷ cs) =
    let rest = string_of cs in
    if c == 0 then some [] else elim rest [ none ↦ none | some text ↦ some (c ∷ text) ]

-- How a round of the client's loop ends: it goes on, the task returns, or it reads or writes beyond
-- an array, or at NULL.
pub data Round : Type 0 where
  goes_on : TestIpInfo → List ℕ → Round
  ends faults : Round

module _ (J : Type 0) (json : Json J) where
  open json use {
    init_object, dotset_string, dotset_number, serialize_to_string, parse_string, dotget_string,
    dotget_number,
  }

  -- The object that task_routine_udp_server2 makes, and the datagram that each of its rounds sends.
  abbrev pub announced_object : J
  announced_object =
      dotset_string mac tcp_server2_mac
        (dotset_number port tcp_server2_port (dotset_string ip tcp_server2_ip init_object))

  unfoldable pub task_routine_udp_server2 : List ℕ
  task_routine_udp_server2 = serialize_to_string announced_object

  -- os_strcpy into the field ip, then the port as an unsigned short.
  learned : Option (List ℕ) → ℕ → List ℕ → Round
  learned none number buf = faults
  learned (some text) number buf =
      if ltb (length text) ip_size
      then goes_on (record { ip_text = text; port_number = number % 2 ^ 16 }) buf
      else faults

  parsed : Option J → List ℕ → Round
  unfolding learned
  parsed none buf = ends
  parsed (some j) buf = learned (dotget_string ip j) (dotget_number port j) buf

  read : Option (List ℕ) → List ℕ → Round
  unfolding parsed
  read none buf = faults
  read (some text) buf = parsed (parse_string text) buf

  -- A round of task_routine_udp_client2 with what g_test_ip_info and `buf` hold: the datagram that
  -- os_broadcast_recv puts in `buf`, `none` where it returns no bytes. `buf` is not cleared, and
  -- nothing ends the text behind the datagram.
  unfoldable pub task_routine_udp_client2 : Option (List ℕ) → TestIpInfo → List ℕ → Round
  unfolding string_of read
  task_routine_udp_client2 none info buf = goes_on info buf
  task_routine_udp_client2 (some datagram) info buf =
      let bytes = take buf_size datagram in
      let buf' = bytes ++ drop (length bytes) buf in
      if length bytes == 0 then goes_on info buf else read (string_of buf') buf'
