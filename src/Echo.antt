-- ===== src/Echo.antt =====
-- sample/tcp_server.c and sample/tcp_client.c: a client that sends a text to a server, which sends
-- it back; and the same in the TCP task of sample/udp_tcp_client.c.
pub mod Answered
pub mod Rounds
use multi_task_app.Prelude.{
  ℕ, ◌==◌, if◌then◌else◌, Bool, take, Option, none, some, List, [], ◌∷◌, head_or,
}
use multi_task_app.Alloc.{Allocator}
use multi_task_app.App.{padded}
use multi_task_app.Discovery.{TestIpInfo, string_of, buf_size}
use multi_task_app.Msg.{Status, success, failure}
use multi_task_app.Sockets.{Process}
use multi_task_app.Sockets.TcpClient.{
  TcpClient, Answers, os_tcp_client_create, os_tcp_client_write, os_tcp_client_read,
  os_tcp_client_destroy,
}

-- How the callback of the server ends: what it logs of the array, and what it hands to os_write,
-- where os_read gives it bytes; or it reads behind the array.
pub data Answer : Type 0 where
  answers : List ℕ → List ℕ → Answer
  nothing_read overreads : Answer

log_and_write : Option (List ℕ) → List ℕ → Answer
log_and_write none bytes = overreads
log_and_write (some text) bytes = answers text bytes

-- __tcp_server_callback: `received` are the bytes that wait at the connection, `none` where os_read
-- returns 0 or less. The array is all zeros before.
unfoldable pub tcp_server_callback : Option (List ℕ) → Answer
unfolding log_and_write string_of padded
tcp_server_callback none = nothing_read
tcp_server_callback (some received) =
    let bytes = take buf_size received in log_and_write (string_of (padded buf_size bytes)) bytes

-- A call of write: the descriptor and the bytes.
abbrev pub Written : Type 0
Written = ℕ × List ℕ

-- How main of the client ends: what it returns, what it handed to write, what it logs of the answer,
-- and the process; or it reads behind the array.
pub data Exit (S : Type 0) : Type 0 where
  exits : Status → Option Written → Option (List ℕ) → Process S → Exit S
  faults : Exit S

-- How a round of the client's task ends: it goes on, with the text that it logs if there was an
-- address; the task returns; or it reads through NULL or behind the array.
pub data Round (S : Type 0) : Type 0 where
  goes_on : Option (List ℕ) → Process S → Round S
  returns : Process S → Round S
  crashes : Round S

module _ (m : Allocator) where
  open m use {Store}

  logged : TcpClient → Written → Option (List ℕ) → Process Store → Exit Store
  logged c w none p = faults
  logged c w (some text) p = exits success (some w) (some text) (os_tcp_client_destroy m (some c) p)

  -- The text is written, which succeeds or not, and the answer read.
  exchanged : Bool → List ℕ → Option (List ℕ) → Option TcpClient × Process Store → Exit Store
  unfolding logged string_of padded os_tcp_client_write os_tcp_client_read
  exchanged sent text answer (none, p) = exits failure none none p
  exchanged sent text none (some c, p) = exits failure (some (os_tcp_client_write c text)) none p
  exchanged sent text (some received) (some c, p) =
      let w = os_tcp_client_write c text in
      let bytes = take (os_tcp_client_read c buf_size).1 received in
      if sent
      then logged c w (string_of (padded buf_size bytes)) p
      else exits failure (some w) none p

  -- main of tcp_client.c: `args` are the arguments behind the program's name, `sent` whether
  -- os_tcp_client_write returns more than 0, and `answer` the bytes that the server sent, `none`
  -- where os_tcp_client_read returns 0 or less.
  unfoldable pub main :
      Answers → List (List ℕ) → Bool → Option (List ℕ) → Process Store → Exit Store
  unfolding exchanged
  main k [] sent answer p = exits failure none none p
  main k (text ∷ []) sent answer p =
      exchanged sent text answer (os_tcp_client_create m k "tcp_client" p)
  main k (text ∷ more ∷ args) sent answer p = exits failure none none p

  unfoldable pub shown : TcpClient → Option (List ℕ) → Process Store → Round Store
  shown c none p = crashes
  shown c (some text) p = goes_on (some text) (os_tcp_client_destroy m (some c) p)

  -- No test is made of what os_tcp_client_create returns.
  unfoldable pub asked : Bool → Option (List ℕ) → Option TcpClient × Process Store → Round Store
  unfolding shown string_of padded os_tcp_client_read
  asked sent answer (none, p) = crashes
  asked sent none (some c, p) = returns p
  asked sent (some received) (some c, p) =
      let bytes = take (os_tcp_client_read c buf_size).1 received in
      if sent then shown c (string_of (padded buf_size bytes)) p else returns p

  -- A round of task_routine_tcp_client2 of udp_tcp_client.c with what g_test_ip_info holds.
  unfoldable pub task_routine_tcp_client2 :
      Answers → TestIpInfo → Bool → Option (List ℕ) → Process Store → Round Store
  unfolding asked
  task_routine_tcp_client2 k info sent answer p =
      if head_or 0 info.ip_text == 0
      then goes_on none p
      else asked sent answer (os_tcp_client_create m k "tcp_client" p)
