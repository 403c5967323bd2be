-- ===== src/File.antt =====
-- platform/os/linux/base/os_file.c: whole reads and writes over the partial ones of the kernel.
pub mod Transfer
pub mod Read
pub mod Line
pub mod Whole
use multi_task_app.Prelude.{
  ℕ, zero, suc, ◌+◌, ◌-◌, ◌*◌, ◌%◌, ◌^◌, ◌==◌, ltb, if◌then◌else◌, Bool, true, false, length, take,
  drop, Option, none, some, List, [], ◌∷◌, ◌++◌,
}

-- What one call of write or read gives: the bytes moved, an interruption by a signal (EINTR), or
-- another error, for which the kernel returns -1. A `moved` result is at most the count asked for.
pub data Outcome : Type 0 where
  moved : ℕ → Outcome
  interrupted failed : Outcome

abbrev pub u32 : ℕ
u32 = 2 ^ 32

-- The ssize_t -1, returned as an unsigned int.
abbrev pub minus_one : ℕ
minus_one = u32 - 1

-- How a call ends: its result and the bytes that were moved, in order.
pub record Done : Type 0 where
  pub ret : ℕ
  pub bytes : List ℕ

-- The loop of os_file_write over the outcomes of write, with the bytes left at `buf`, `nwritten`
-- and the bytes written so far. `none` means that the call has not returned yet.
unfoldable pub write_loop : List Outcome → List ℕ → ℕ → List ℕ → Option Done
write_loop os [] nwritten out = some (record { ret = nwritten; bytes = out })
write_loop [] (b ∷ buf) nwritten out = none
write_loop (interrupted ∷ os) (b ∷ buf) nwritten out = write_loop os (b ∷ buf) nwritten out
write_loop (failed ∷ os) (b ∷ buf) nwritten out = some (record { ret = minus_one; bytes = out })
write_loop (moved r ∷ os) (b ∷ buf) nwritten out =
    let rest = write_loop os (drop r (b ∷ buf)) ((nwritten + r) % u32) (out ++ take r (b ∷ buf)) in
    if r == 0 then some (record { ret = nwritten; bytes = out }) else rest

-- os_file_write and, over what the file holds, os_file_read: `count` is the length of the buffer.
unfoldable pub os_file_write : List Outcome → List ℕ → Option Done
os_file_write os buf = write_loop os buf 0 []

-- The loop of os_file_read: `file` is what the descriptor still has, `count` the room left. A read
-- at the end of the file moves 0 bytes.
unfoldable pub read_loop : List Outcome → List ℕ → ℕ → ℕ → List ℕ → Option Done
read_loop os file zero nread out = some (record { ret = nread; bytes = out })
read_loop [] file (suc count) nread out = none
read_loop (interrupted ∷ os) file (suc count) nread out = read_loop os file (suc count) nread out
read_loop (failed ∷ os) file (suc count) nread out = some (record { ret = minus_one; bytes = out })
read_loop (moved r ∷ os) file (suc count) nread out =
    let rest =
      read_loop os (drop r file) (suc count - r) ((nread + r) % u32) (out ++ take r file) in
    if r == 0 then some (record { ret = nread; bytes = out }) else rest

unfoldable pub os_file_read : List Outcome → List ℕ → ℕ → Option Done
os_file_read os file count = read_loop os file count 0 []

-- The int results of the functions that write: 0 or -1.
pub data Status : Type 0 where
  success failure : Status

-- A whole write to a path: whether open succeeds, the outcomes of write, whether close succeeds.
-- The file's contents after it, from those before.
pub record Kernel : Type 0 where
  pub opens : Bool
  pub writes : List Outcome
  pub closes : Bool

closed : Bool → Status
closed true = success
closed false = failure

-- The test `os_file_write(...) < 0` compares an unsigned int.
after_write : Kernel → List ℕ → Option Done → Option (Status × List ℕ)
after_write k file none = none
after_write k file (some d) =
    some (if ltb d.ret 0 then failure else closed k.closes, file ++ d.bytes)

-- os_file_append, and os_file_write_str, whose `mode` decides only whether open may create: they
-- append to the file.
unfoldable pub os_file_append : Kernel → List ℕ → List ℕ → Option (Status × List ℕ)
unfolding after_write closed
os_file_append k file buf =
    if k.opens then after_write k file (os_file_write k.writes buf) else some (failure, file)

unfoldable pub os_file_write_str : Kernel → List ℕ → List ℕ → Option (Status × List ℕ)
unfolding after_write closed
os_file_write_str k file str =
    if k.opens then after_write k file (os_file_write k.writes str) else some (failure, file)

-- os_file_rewrite opens without O_TRUNC: it writes over the start of the file and keeps the rest.
after_rewrite : Kernel → List ℕ → Option Done → Option (Status × List ℕ)
after_rewrite k file none = none
after_rewrite k file (some d) =
    some (if ltb d.ret 0 then failure else closed k.closes, d.bytes ++ drop (length d.bytes) file)

unfoldable pub os_file_rewrite : Kernel → List ℕ → List ℕ → Option (Status × List ℕ)
unfolding after_rewrite closed
os_file_rewrite k file buf =
    if k.opens then after_rewrite k file (os_file_write k.writes buf) else some (failure, file)

-- snprintf into `char buf[512]` of "%s=%s\n": at most 511 bytes and the terminator.
abbrev pub key_buf : ℕ
key_buf = 512

unfoldable pub os_file_key_write : Kernel → List ℕ → List ℕ → List ℕ → Option (Status × List ℕ)
os_file_key_write k file key val =
    os_file_write_str k file (take (key_buf - 1) (key ++ b'=' ∷ (val ++ 10 ∷ [])))

-- An int that is returned: a count, or a negative number by its absolute value.
pub data ReadResult : Type 0 where
  count minus : ℕ → ReadResult

-- A value of ssize_t as an int.
abbrev pub to_int : ℕ → ReadResult
to_int sz = if ltb sz (2 ^ 31) then count sz else minus (u32 - sz)

-- The result of os_file_read is unsigned: `sz < 0` never holds.
read_to_int : Option Done → Option (ReadResult × List ℕ)
read_to_int none = none
read_to_int (some d) = some (to_int d.ret, d.bytes)

-- os_file_read2 with the errno of open, 0 where it succeeds: the result, and what is put in `data`.
unfoldable pub os_file_read2 : ℕ → List Outcome → List ℕ → ℕ → Option (ReadResult × List ℕ)
unfolding read_to_int
os_file_read2 errno reads file len =
    if errno == 0 then read_to_int (os_file_read reads file len) else some (minus errno, [])

-- How os_trace2file ends: it writes beyond its array or has strlen read beyond it, or it calls
-- os_file_write_str.
pub data Traced : Type 0 where
  overflows : Traced
  traced : Option (Status × List ℕ) → Traced

abbrev pub trace_buf : ℕ
trace_buf = 1024 * 4

-- `text` is what vsnprintf makes of the format, and `buffer[size]` the newline behind it: behind
-- the array from 4096 bytes on, and in place of the only 0 for 4095. `none` is a NULL filename.
unfoldable pub os_trace2file : Kernel → Option (List ℕ) → List ℕ → Option Traced
os_trace2file k none text = none
os_trace2file k (some file) text = some (
    if ltb (length text) (trace_buf - 1)
    then traced (os_file_write_str k file (text ++ 10 ∷ []))
    else overflows)

-- `accessible` is what access answers.
unfoldable pub os_file_exist : Bool → ℕ
os_file_exist accessible = if accessible then 1 else 0

-- The st_size as an int, or what the stack holds in its place where stat fails.
unfoldable pub os_file_size : ℕ → Option ℕ → ReadResult
os_file_size junk none = to_int (junk % u32)
os_file_size junk (some st_size) = to_int (st_size % u32)
