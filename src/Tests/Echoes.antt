-- ===== src/Tests/Echoes.antt =====
-- Tests of Echo.antt and its children.
use multi_task_app.Prelude.{
  ℕ, suc, zero, ◌≡◌, refl, true, false, none, some, List, [], ◌∷◌, length, arith,
}
use multi_task_app.Mm.{Sys}
use multi_task_app.Discovery.{TestIpInfo}
use multi_task_app.Discovery.Announced.{NoZero}
use multi_task_app.Msg.{success}
use multi_task_app.Sockets.{Process, Restored}
use multi_task_app.Sockets.TcpClient.{Answers, os_tcp_client_create}
use multi_task_app.Echo.{answers, tcp_server_callback, exits, main, task_routine_tcp_client2}
use multi_task_app.Echo.Answered.{reply, client_gets_back}
use multi_task_app.Echo.Rounds.{Ends, client2_round-Ends}
use multi_task_app.Tests.World.{allocator, five}

abbrev word : List ℕ
word = 104 ∷ 105 ∷ []

abbrev accepted : Answers
accepted = record { socket = some 4; inet_pton = true; connect = true }

abbrev refused : Answers
refused = record { socket = some 4; inet_pton = true; connect = false }

abbrev process : Process Sys
process = record { opened = 0 ∷ 1 ∷ []; store = five }

client_gets_back_example :
    let answer = tcp_server_callback (some word) in
    (answer ≡ answers word word)
    × (p' : Process Sys) × (main allocator accepted (word ∷ []) true (reply answer) process
        ≡ exits success (some (4, word)) (some word) p')
    × Restored allocator process p'
client_gets_back_example =
    client_gets_back allocator accepted word 4 process (omega arith, (omega arith, tt))
      (omega arith) refl (omega arith) refl refl

abbrev repeated : ℕ → List ℕ
repeated zero = []
repeated (suc n) = 97 ∷ repeated n

repeated-NoZero : (n : ℕ) → NoZero (repeated n)
repeated-NoZero zero = tt
repeated-NoZero (suc n) = (omega arith, repeated-NoZero n)

length-repeated : (n : ℕ) → length (repeated n) ≡ n
length-repeated zero = refl
length-repeated (suc n) = omega (arith, length-repeated n)

abbrev announced : TestIpInfo
announced = record { ip_text = 49 ∷ 46 ∷ []; port_number = 6666 }

client2_round-Ends_example :
    let (c, p') = os_tcp_client_create allocator refused "tcp_client" process in
    Ends allocator c p' none process
      (task_routine_tcp_client2 allocator refused announced true none process)
client2_round-Ends_example =
    client2_round-Ends allocator refused announced true none process (λ e. ground (arith, e))
