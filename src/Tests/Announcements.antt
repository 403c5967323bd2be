-- ===== src/Tests/Announcements.antt =====
-- Tests of Discovery.antt and its children.
use multi_task_app.Prelude.{
  ℕ, ◌≡◌, ◌≢◌, refl, if◌then◌else◌, Bool, true, false, Option, none, some, List, [], ◌∷◌, ◌++◌,
  arith,
}
use multi_task_app.Discovery.{
  Key, ip, port, mac, Json, goes_on, announced_object, task_routine_udp_server2,
}
use multi_task_app.Discovery.Announced.{Documented, listen, announced, listen-announced}

-- Objects as functions of the keys.
record Fields : Type 0 where
  strings : Key → Option (List ℕ)
  numbers : Key → ℕ

abbrev same : Key → Key → Bool
same ip ip = true
same ip port = false
same ip mac = false
same port ip = false
same port port = true
same port mac = false
same mac ip = false
same mac port = false
same mac mac = true

same_refl : (k : Key) → same k k ≡ true
same_refl ip = refl
same_refl port = refl
same_refl mac = refl

same_ne : (k k' : Key) → k ≢ k' → same k k' ≡ false
same_ne ip ip h = absurd (h refl)
same_ne ip port h = refl
same_ne ip mac h = refl
same_ne port ip h = refl
same_ne port port h = absurd (h refl)
same_ne port mac h = refl
same_ne mac ip h = refl
same_ne mac port h = refl
same_ne mac mac h = absurd (h refl)

abbrev nothing : Fields
nothing = record { strings = λ k. none; numbers = λ k. 0 }

abbrev with_string : Key → List ℕ → Fields → Fields
with_string k v j = record j { strings = λ x. if same x k then some v else j.strings x }

abbrev with_number : Key → ℕ → Fields → Fields
with_number k n j = record j { numbers = λ x. if same x k then n else j.numbers x }

-- A parser that knows the text of one object.
abbrev text : List ℕ
text = b'{' ∷ b'}' ∷ []

abbrev setters : Json Fields
setters = record {
  init_object = nothing;
  dotset_string = with_string;
  dotset_number = with_number;
  serialize_to_string = λ j. text;
  parse_string = λ t. none;
  dotget_string = λ k j. j.strings k;
  dotget_number = λ k j. j.numbers k;
}

abbrev json : Json Fields
json = record setters { parse_string = λ t. some (announced_object Fields setters) }

json-Documented : Documented Fields json
json-Documented = record {
  get_set_string = λ k v j. rw (same_refl k) refl;
  get_set_number = λ k n j. rw (same_refl k) refl;
  string_kept = λ k k' v j h. rw (same_ne k k' h) refl;
  string_kept_number = λ k k' n j h. refl;
  number_kept = λ k k' v j h. refl;
}

-- Two datagrams, in an array of which the start is shown.
listen-announced_example :
    listen Fields json 2 (record { ip_text = []; port_number = 0 }) (0 ∷ 0 ∷ 0 ∷ [])
    ≡ goes_on (announced Fields json) (text ++ 0 ∷ [])
unfolding task_routine_udp_server2
listen-announced_example =
    listen-announced Fields json 1 (record { ip_text = []; port_number = 0 }) (0 ∷ 0 ∷ 0 ∷ []) []
      json-Documented refl (omega arith, (omega arith, tt)) (λ e. cc e) (omega arith) refl
