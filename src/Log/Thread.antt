-- ===== src/Log/Thread.antt =====
-- The lines that pass through the queue of src/Log.cpp, from `write_log` to the thread of `thread_func`,
-- and the mark by which the destructor ends it.
use linux_cpp_web_server.Common.{ℕ, ◌≡◌, Bool, false, ◌||◌, some, [], ◌∷◌, ◌==◌}
use linux_cpp_web_server.Common.Bytes.{Bytes}
use linux_cpp_web_server.Log.{Log, log_line}

has_newline : Bytes → Bool
has_newline [] = false
has_newline (c ∷ cs) = c == 10 || has_newline cs

-- A line that a call of `write_log` makes in a buffer of the log.
pub record Logged (line : Bytes) : Type 0 where
  pub size : ℕ
  pub head : Bytes
  pub message : Bytes
  pub made : log_line size head message ≡ some line
