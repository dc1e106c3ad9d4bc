-- ===== src/Log.antt =====
-- src/Log.cpp and include/log: how a line is made, which file it goes to, and the thread that writes
-- what was queued. A date is what `localtime` returns; No open file is stderr, or, when `init` fails, a
-- null pointer. `written`
-- records each `fputs` with the file that it went to, and `flushes` counts the calls of `fflush`.
-- The queue of lines is in BlockQueue.
pub mod Fifo
pub mod BlockQueue
pub mod Files
pub mod Thread
pub mod Tests
use linux_cpp_web_server.Common.{
  ℕ, zero, suc, ◌+◌, ◌-◌, ◌/◌, ◌%◌, Bool, true, false, not, ◌&&◌, ◌||◌, Option, none, some, List,
  [], ◌∷◌, ◌++◌, ◌==◌, if◌then◌else◌, ltb, leb, length, replicate,
}
use linux_cpp_web_server.Common.Bytes.{Bytes, codes, to_string, bytes_eq}

pub record Date : Type 0 where
  pub year : ℕ
  pub month : ℕ
  pub day : ℕ

pub record Log : Type 0 where
  pub dir_name : Bytes
  pub log_name : Bytes
  pub split_lines : ℕ
  pub log_buf_size : ℕ
  pub count : ℕ
  pub today : ℕ
  pub file : Option Bytes
  pub flush_interval : ℕ
  pub unflushed : ℕ
  pub written : List (Option Bytes × Bytes)
  pub flushes : ℕ

-- `%02d`
unfoldable pub two_digits : ℕ → Bytes
two_digits n = if ltb n 10 then b'0' ∷ to_string n else to_string n

unfoldable pub date_prefix : Date → Bytes
date_prefix d =
    to_string d.year
    ++ codes "_"
    ++ two_digits d.month
    ++ codes "_"
    ++ two_digits d.day
    ++ codes "_"

unfoldable pub make_log_fullname : Bytes → Bytes → Date → ℕ → ℕ → Bool → Bytes
make_log_fullname dir base d count split_lines new_day =
    if not new_day && ltb 0 split_lines && ltb 0 count && count % split_lines == 0
    then dir ++ date_prefix d ++ base ++ codes "." ++ to_string (count / split_lines)
    else dir ++ date_prefix d ++ base

unfoldable pub put_line : Bytes → Log → Log
put_line msg l = record l { written = l.written ++ (l.file, msg) ∷ [] }

unfoldable pub count_flush : Log → Log
count_flush l =
    if leb l.flush_interval (suc l.unflushed)
    then record l { unflushed = 0; flushes = suc l.flushes }
    else record l { unflushed = suc l.unflushed }

abbrev pub log_ends : Bytes
log_ends = codes "LOG_ENDS_NOW"

-- The name of the file: the directory up to the last slash, and what is behind it.
unfoldable pub split_path : Bytes → Option (Bytes × Bytes)
split_path [] = none
split_path (c ∷ cs) = elim (split_path cs) [
  | some (dir, base) ↦ some (c ∷ dir, base)
  | none ↦ (if c == b'/' then some (c ∷ [], cs) else none)
]

unfoldable pub named : Option (Bytes × Bytes) → Bytes → Log → Log
named none file_name l = record l { dir_name = []; log_name = file_name }
named (some (dir, base)) file_name l = record l { dir_name = dir; log_name = base }

unfoldable pub started : Log → ℕ → ℕ → Log
started l log_buf_size split_lines = record l {
  log_buf_size = log_buf_size;
  split_lines = if ltb 0 split_lines then split_lines else 5000000;
}

module _ (can_open : Bytes → Bool) where
  -- `fopen` to append; where it fails the log goes to stderr.
  unfoldable pub open_log : Bytes → Log → Log
  open_log full l = record l { file = if can_open full then some full else none }

  unfoldable pub change_file : Date → Bool → Log → Log
  change_file d new_day l =
      open_log (make_log_fullname l.dir_name l.log_name d l.count l.split_lines new_day)
        (record l { flushes = suc l.flushes })

  unfoldable pub switch_log : Date → Log → Log
  switch_log d l =
      if not (l.today == d.day)
      then change_file d true (record l { today = d.day; count = 0 })
      else if ltb 0 l.split_lines && l.count % l.split_lines == 0
      then change_file d false l
      else l

  unfoldable pub write_single_log : Date → Bytes → Log → Log
  write_single_log d msg l =
      count_flush (put_line msg (switch_log d (record l { count = suc l.count })))

  -- The same in a call of `write_log` that does not queue.
  unfoldable pub write_now : Date → Bytes → Log → Log
  write_now d msg l =
      let put = put_line msg (switch_log d (record l { count = suc l.count })) in
      record put { flushes = suc put.flushes }

  -- What is left in the queue behind the end.
  unfoldable pub write_all : List (Date × Bytes) → Log → Log
  write_all [] l = l
  write_all ((d, msg) ∷ rest) l = write_all rest (write_single_log d msg l)

  -- The lines that the thread takes, each with the date at that moment. `none`: it waits for more.
  unfoldable pub thread_func : List (Date × Bytes) → Log → Option Log
  thread_func [] l = none
  thread_func ((d, msg) ∷ rest) l =
      let later = thread_func rest (write_single_log d msg l) in
      if bytes_eq msg log_ends
      then some (record (write_all rest l) { flushes = suc (write_all rest l).flushes })
      else later

  -- Whether the first file could be opened, and the log.
  unfoldable pub opened : Date → Log → Bool × Log
  opened d l =
      let full = make_log_fullname l.dir_name l.log_name d 0 l.split_lines true in
      (can_open full, record l { today = d.day; file = if can_open full then some full else none })

  unfoldable pub init : Bytes → ℕ → ℕ → Date → Log → Bool × Log
  init file_name log_buf_size split_lines d l =
      opened d (named (split_path file_name) file_name (started l log_buf_size split_lines))

-- The constructor.
unfoldable pub no_log : Log
no_log = record {
  dir_name = [];
  log_name = [];
  split_lines = 5000000;
  log_buf_size = 8192;
  count = 0;
  today = 0;
  file = none;
  flush_interval = 1;
  unflushed = 0;
  written = [];
  flushes = 0;
}

unfoldable pub level_text : ℕ → Bytes
level_text zero = codes "[debug]:"
level_text (suc zero) = codes "[info]:"
level_text (suc (suc zero)) = codes "[warn]:"
level_text (suc (suc (suc zero))) = codes "[error]:"
level_text (suc (suc (suc (suc n)))) = codes "[info]:"

-- The line of `write_log` in its buffer, of `log_buf_size` bytes: `head` is what the first `snprintf`
-- wrote, and `message` the whole text of the second, which is cut but whose length is returned whole.
-- `none`: the bytes behind it are written past the end of the buffer.
unfoldable pub log_line : ℕ → Bytes → Bytes → Option Bytes
log_line log_buf_size head message =
    if ltb (length head + length message + 1) log_buf_size
    then some (head ++ message ++ b'\n' ∷ [])
    else none

-- `gettimeofday` and `localtime`.
pub record Time : Type 0 where
  pub date : Date
  pub hour : ℕ
  pub minute : ℕ
  pub second : ℕ
  pub micro : ℕ

-- `%06ld`
unfoldable pub six_digits : ℕ → Bytes
six_digits n = replicate (6 - length (to_string n)) b'0' ++ to_string n

-- The time and the level, shorter than the 64 bytes that the first `snprintf` may write.
unfoldable pub line_head : Time → ℕ → Bytes
line_head t level =
    to_string t.date.year
    ++ codes "-"
    ++ two_digits t.date.month
    ++ codes "-"
    ++ two_digits t.date.day
    ++ codes " "
    ++ two_digits t.hour
    ++ codes ":"
    ++ two_digits t.minute
    ++ codes ":"
    ++ two_digits t.second
    ++ codes "."
    ++ six_digits t.micro
    ++ codes " "
    ++ level_text level
    ++ codes " "

-- The queue, where the log is asynchronous, and the log.
unfoldable pub write_log :
    (Bytes → Bool) → Bool → Time → ℕ → Bytes → List Bytes → Log → Option (List Bytes × Log)
write_log can_open is_async t level message queue l =
    elim (log_line l.log_buf_size (line_head t level) message) [
      | none ↦ none
      | some line ↦
          if is_async
          then some (queue ++ line ∷ [], l)
          else some (queue, write_now can_open t.date line l)
    ]

unfoldable pub flush : Log → Log
flush l = record l { flushes = suc l.flushes }
