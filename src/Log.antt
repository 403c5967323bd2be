-- ===== src/Log.antt =====
-- platform/os/linux/base/os_log.c and the levels of platform/os/include/os_log.h: a line of the log
-- is put together in an array, piece by piece; and time2str of os_misc.c, which a line begins with.
pub mod Line
use multi_task_app.Prelude.{
  ℕ, ◌+◌, ◌-◌, ◌*◌, ◌/◌, ◌==◌, ltb, if◌then◌else◌, length, take, Option, none, some, List, [], ◌∷◌,
  ◌++◌,
}

-- MMP_LOG_ENUM; MLOG_BUTT stands for each value that is no level.
pub data Level : Type 0 where
  mlog_verbose mlog_debug mlog_info mlog_message mlog_warn mlog_error mlog_fatal mlog_butt : Level

-- The texts are lists of bytes without a 0.
abbrev pub in_brackets : ℕ → List ℕ
in_brackets c = b'[' ∷ c ∷ b']' ∷ []

unfoldable pub os_log_enum2str : Level → List ℕ
os_log_enum2str mlog_verbose = in_brackets b'V'
os_log_enum2str mlog_debug = in_brackets b'D'
os_log_enum2str mlog_info = in_brackets b'I'
os_log_enum2str mlog_message = in_brackets b'M'
os_log_enum2str mlog_warn = in_brackets b'W'
os_log_enum2str mlog_error = in_brackets b'E'
os_log_enum2str mlog_fatal = in_brackets b'F'
os_log_enum2str mlog_butt = in_brackets b'U'

abbrev pub escape : ℕ
escape = 27

abbrev pub newline : ℕ
newline = 10

-- The colours, of the two brightnesses 0 and 1.
abbrev pub colour_none : List ℕ
colour_none = escape ∷ b'[' ∷ b'0' ∷ b'm' ∷ []

abbrev pub colour : ℕ → ℕ → List ℕ
colour bright digit = escape ∷ b'[' ∷ bright ∷ b';' ∷ b'3' ∷ digit ∷ b'm' ∷ []

abbrev pub colour_red : List ℕ
colour_red = colour b'0' b'1'

abbrev pub colour_l_red : List ℕ
colour_l_red = colour b'1' b'1'

abbrev pub colour_l_green : List ℕ
colour_l_green = colour b'1' b'2'

abbrev pub colour_yellow : List ℕ
colour_yellow = colour b'1' b'3'

abbrev pub colour_white : List ℕ
colour_white = colour b'1' b'7'

unfoldable pub os_log_colour_get : Level → List ℕ
os_log_colour_get mlog_verbose = colour_none
os_log_colour_get mlog_debug = colour_white
os_log_colour_get mlog_info = colour_white
os_log_colour_get mlog_message = colour_l_green
os_log_colour_get mlog_warn = colour_yellow
os_log_colour_get mlog_error = colour_l_red
os_log_colour_get mlog_fatal = colour_red
os_log_colour_get mlog_butt = colour_none

-- MLOG_BUFF_SIZE, the size of the array log_buffer.
abbrev pub mlog_buff_size : ℕ
mlog_buff_size = 1024 * 4

-- The string in log_buffer, and `ret`, the sum of what the calls of snprintf returned.
pub record Buffer : Type 0 where
  pub text : List ℕ
  pub ret : ℕ

-- `ret += snprintf(log_buffer + ret, sizeof(log_buffer) - ret, ...)`, where the format gives
-- `piece`: snprintf writes what there is room for, with the 0 behind it, and returns the length of
-- all. `none` if `ret` is past the array: the room wraps around, and the call writes behind it.
unfoldable pub print : List ℕ → Buffer → Option Buffer
print piece b =
    if ltb mlog_buff_size b.ret
    then none
    else some (record {
      text = b.text ++ take (mlog_buff_size - b.ret - 1) piece;
      ret = b.ret + length piece;
    })

unfoldable pub and_then : (Buffer → Option Buffer) → Option Buffer → Option Buffer
and_then f none = none
and_then f (some b) = f b

-- The calls of snprintf and, in the end, of vsnprintf, one after the other.
unfoldable pub print_all : List (List ℕ) → Buffer → Option Buffer
unfolding print and_then
print_all [] b = some b
print_all (piece ∷ pieces) b = and_then (print_all pieces) (print piece b)

-- Where a line goes: to g_os_log_callback, with the level, or to the standard output.
pub data Output : Type 0 where
  called : ℕ → Level → List ℕ → Output
  printed : List ℕ → Output

-- `callback` is g_os_log_callback, 0 for NULL.
unfoldable pub output : ℕ → Level → Option Buffer → Option Output
output callback level none = none
output callback level (some b) = some (
    if callback == 0
    then printed (b.text ++ newline ∷ colour_none)
    else called callback level b.text)

-- What the functions read from the system: the text of strftime, the microseconds of
-- gettimeofday, and the name of the thread.
pub record Moment : Type 0 where
  pub stamp : List ℕ
  pub usec : ℕ
  pub task_name : List ℕ

-- `decimal` gives what %d and %lu print.
module _ (decimal : ℕ → List ℕ) where
  -- time2str with an array of `size` bytes, which is more than 0 and which the stamp fits.
  unfoldable pub time2str : ℕ → Moment → List ℕ
  time2str size t = t.stamp ++ take (size - length t.stamp - 1) (b'.' ∷ decimal (t.usec / 1000))

  abbrev pub time_size : ℕ
  time_size = 64

  -- The pieces that each line begins with, of `"%s%s "`, `"(%s,%d)"` and `"[%s]"`.
  unfoldable pub heading : List ℕ → Moment → List ℕ → ℕ → List (List ℕ)
  unfolding time2str
  heading front t file_name line =
      (front ++ time2str time_size t ++ b' ' ∷ [])
      ∷ (b'(' ∷ (file_name ++ b',' ∷ (decimal line ++ b')' ∷ [])))
      ∷ (b'[' ∷ (t.task_name ++ b']' ∷ []))
      ∷ []

  -- `message` is what vsnprintf makes of the format and its arguments.
  unfoldable pub os_log_message : ℕ → Moment → Level → List ℕ → ℕ → List ℕ → Option Output
  unfolding heading output
  os_log_message callback t level file_name line message = output callback level (
      print_all
        (heading (os_log_colour_get level) t file_name line ++ os_log_enum2str level ∷ message ∷ [])
        (record { text = []; ret = 0 }))

  -- "assertion failed: # %s #".
  abbrev pub assertion : List ℕ → List ℕ
  assertion expr =
      (b'a' ∷ b's' ∷ b's' ∷ b'e' ∷ b'r' ∷ b't' ∷ b'i' ∷ b'o' ∷ b'n' ∷ b' ' ∷ [])
      ++ (b'f' ∷ b'a' ∷ b'i' ∷ b'l' ∷ b'e' ∷ b'd' ∷ b':' ∷ b' ' ∷ b'#' ∷ b' ' ∷ [])
      ++ expr
      ++ b' ' ∷ b'#' ∷ []

  -- `expr` is empty for NULL.
  unfoldable pub os_log_assert : ℕ → Moment → List ℕ → List ℕ → ℕ → List ℕ → Option Output
  unfolding heading output
  os_log_assert callback t expr file_name line message = output callback mlog_fatal (
      print_all (heading colour_l_red t file_name line ++ assertion expr ∷ message ∷ [])
        (record { text = []; ret = 0 }))
