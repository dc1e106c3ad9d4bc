-- ===== src/Log/Tests.antt =====
-- A log that is opened on a day, and two lines.
use linux_cpp_web_server.Common.{◌≡◌, refl, Bool, true, none, [], ◌∷◌, ◌++◌}
use linux_cpp_web_server.Common.Bytes.{Bytes, codes}
use linux_cpp_web_server.Log.{Log, Date, log_line, init, no_log}
use linux_cpp_web_server.Log.Files.{lines_per_file}

abbrev today : Date
today = record { year = 2024; month = 5; day = 7 }

abbrev anywhere : Bytes → Bool
anywhere f = true

abbrev fresh_log : Log
fresh_log = (init anywhere (codes "./record/ServerLog") 2000 lines_per_file today no_log).1

abbrev one_line : Bytes
one_line = codes "now " ++ codes "hello" ++ b'\n' ∷ []

-- A message that is longer than the buffer.
too_long : log_line 8 (codes "now ") (codes "hello") ≡ none
unfolding log_line
too_long = refl
