-- ===== src/Http/Parser/State.antt =====
-- The members of `HttpParser`, the file that a part is written to, and `reset`.
use linux_cpp_web_server.Common.{
  ℕ, Bool, true, false, Option, none, some, List, [], ◌++◌, if◌then◌else◌,
}
use linux_cpp_web_server.Common.Bytes.{Bytes}
use linux_cpp_web_server.Common.Maps
use linux_cpp_web_server.Common.Maps.{bytes_key}
use linux_cpp_web_server.Http.Request.{HttpRequest, UploadedFile}
use linux_cpp_web_server.Http.Request

pub data ParseState : Type 0 where
  request_line headers body boundary_search part_headers part_data done : ParseState

pub data ParseResult : Type 0 where
  complete incomplete error : ParseResult

-- `std::ofstream`: the path of the open file and the fail bit.
pub record FileStream : Type 0 where
  pub opened : Option Bytes
  pub fail : Bool

-- `disk` holds what was written to temporary files, and `clock_reads` counts the calls of `std::time`.
pub record HttpParser : Type 0 where
  pub state : ParseState
  pub request : HttpRequest
  pub temp_upload_dir : Bytes
  pub boundary : Bytes
  pub part_name : Bytes
  pub current_file : Option UploadedFile
  pub file_stream : FileStream
  pub disk : List (Bytes × Bytes)
  pub clock_reads : ℕ

abbrev pub is_done : ParseState → Bool
is_done done = true
is_done _ = false

-- `close` sets the fail bit on a stream that is not open.
pub close_stream : FileStream → FileStream
close_stream s = elim s.opened [
  | none ↦ record { opened = none; fail = true }
  | some path ↦ record { opened = none; fail = s.fail }
]

unfoldable pub close_if_open : FileStream → FileStream
close_if_open s = elim s.opened [ none ↦ s | some path ↦ record { opened = none; fail = s.fail } ]

unfoldable pub reset : HttpParser → HttpParser
unfolding close_if_open
reset p = record p {
  state = request_line;
  request = Request.init;
  boundary = [];
  part_name = [];
  current_file = none;
  file_stream = close_if_open p.file_stream;
}

unfoldable pub init : Bytes → HttpParser
init dir = record {
  state = request_line;
  request = Request.init;
  temp_upload_dir = dir;
  boundary = [];
  part_name = [];
  current_file = none;
  file_stream = record { opened = none; fail = false };
  disk = [];
  clock_reads = 0;
}

-- `open` fails on a stream that is open; a file that is opened is emptied.
pub open_file : Bool → Bytes → HttpParser → HttpParser
open_file allowed path p = elim p.file_stream.opened [
  | some other ↦ record p { file_stream = record { opened = some other; fail = true } }
  | none ↦
      if allowed
      then record p {
        file_stream = record { opened = some path; fail = false };
        disk = Maps.put path [] p.disk;
      }
      else record p { file_stream = record { opened = none; fail = true } }
]

pub is_open : FileStream → Bool
is_open s = elim s.opened [ none ↦ false | some path ↦ true ]

pub content : Option Bytes → Bytes
content none = []
content (some b) = b

-- `write` does nothing on a stream that failed or is not open.
pub write_file : Bytes → HttpParser → HttpParser
write_file part p = elim p.file_stream.opened [
  | none ↦ p
  | some path ↦
      if p.file_stream.fail
      then p
      else record p { disk = Maps.put path (content (Maps.get path p.disk) ++ part) p.disk }
]
