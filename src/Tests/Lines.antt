-- ===== src/Tests/Lines.antt =====
-- Tests of Log.antt and its children.
use multi_task_app.Prelude.{ℕ, ◌+◌, ◌%◌, ◌/◌, ◌≡◌, List, [], ◌∷◌, ◌++◌}
use multi_task_app.Log.{
  Moment, mlog_warn, os_log_colour_get, os_log_enum2str, heading, os_log_message,
}
use multi_task_app.Log.Line.{concat, logged, os_log_message-logged}

-- Numbers below 100 in decimal.
abbrev decimal : ℕ → List ℕ
decimal n = (b'0' + n / 10) ∷ (b'0' + n % 10) ∷ []

abbrev moment : Moment
moment = record { stamp = b'1' ∷ b'2' ∷ []; usec = 45000; task_name = b't' ∷ [] }

os_log_message-logged_example :
    os_log_message decimal 0 moment mlog_warn (b'f' ∷ []) 17 (b'h' ∷ b'i' ∷ [])
    ≡ logged 0 mlog_warn
        (concat (
          heading decimal (os_log_colour_get mlog_warn) moment (b'f' ∷ []) 17
          ++ os_log_enum2str mlog_warn ∷ []))
        (b'h' ∷ b'i' ∷ [])
os_log_message-logged_example =
    os_log_message-logged decimal 0 moment mlog_warn (b'f' ∷ []) 17 (b'h' ∷ b'i' ∷ [])
