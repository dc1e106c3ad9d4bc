-- ===== src/Http/Connection/Writing.antt =====
-- The loop of `handle_write` in src/http/HttpConnection.cpp, over what `write`, `sendfile` and `writev`
-- return. The kernel takes at most what it is offered. At the end of the list it takes nothing more: a
-- call that is offered bytes would block, and a call that is offered none returns 0, again and again. An
-- answer of 0 within the list is a round in which nothing changes, and the loop goes on.
use Prim.Native.Nat.{min}
use linux_cpp_web_server.Common.{
  ℕ, ◌+◌, ◌-◌, ◌%◌, ◌^◌, Option, none, some, List, [], ◌∷◌, ◌++◌, ◌==◌, if◌then◌else◌, length, take,
  drop,
}
use linux_cpp_web_server.Common.Bytes.{Bytes, is_empty}

-- `m_file_fd`, `m_file_offset`, `m_file_bytes_to_send`, `m_iov[0]` and the counters.
pub record Sending : Type 0 where
  pub file : Option Bytes
  pub file_offset : ℕ
  pub file_bytes_to_send : ℕ
  pub iov : Bytes
  pub bytes_to_send : ℕ
  pub bytes_have_sent : ℕ

pub data SocketWrite : Type 0 where
  wrote : ℕ → SocketWrite
  would_block write_failed : SocketWrite

-- The loop's test, or the second half of its body, behind the header.
pub data Phase : Type 0 where
  testing behind_header : Phase

pub data Need : Type 0 where
  nothing write_bytes send_file no_progress : Need

-- How the loop ends; `spins` is that it does not: its rounds call nothing, or calls that are offered
-- nothing, and change nothing.
pub data SendEnd : Type 0 where
  all_sent blocked broken spins : SendEnd

unfoldable pub sub64 : ℕ → ℕ → ℕ
sub64 a b = (a + 2 ^ 64 - b) % 2 ^ 64

unfoldable pub file_need : Sending → Need
file_need s =
    if s.file_bytes_to_send == 0
    then (if s.bytes_to_send == 0
        then nothing
        else if is_empty s.iov
        then no_progress
        else write_bytes)
    else send_file

unfoldable pub need : Phase → Sending → Need
need behind_header s = file_need s
need testing s = if s.bytes_to_send == 0 then nothing else elim s.file [
  | none ↦ write_bytes
  | some file ↦ if is_empty s.iov then file_need s else write_bytes
]

-- What of the file is left to send.
unfoldable pub file_rest : Sending → Bytes
file_rest s = elim s.file [ none ↦ [] | some file ↦ drop s.file_offset file ]

-- `n` bytes of `m_iov[0]`, and `n` bytes of the file.
unfoldable pub take_iov : ℕ → Sending → Sending
take_iov n s = record s {
  iov = drop n s.iov;
  bytes_to_send = sub64 s.bytes_to_send n;
  bytes_have_sent = s.bytes_have_sent + n;
}

unfoldable pub take_file : ℕ → Sending → Sending
take_file n s = record s {
  file_offset = s.file_offset + n;
  file_bytes_to_send = sub64 s.file_bytes_to_send n;
  bytes_to_send = sub64 s.bytes_to_send n;
  bytes_have_sent = s.bytes_have_sent + n;
}

unfoldable pub next_phase : Sending → Phase
next_phase s = elim s.file [
  | none ↦ testing
  | some file ↦ if is_empty s.iov then behind_header else testing
]

pub record Result : Type 0 where
  pub ended : SendEnd
  pub left : Sending
  pub wire : Bytes

unfoldable pub with_wire : Bytes → Result → Result
with_wire part r = record r { wire = part ++ r.wire }

unfoldable pub stop : SendEnd → Sending → Result
stop e s = record { ended = e; left = s; wire = [] }

-- At the end of the answers.
unfoldable pub out_of_room : Bytes → SendEnd
out_of_room offered = if is_empty offered then spins else blocked

unfoldable pub send_loop : List SocketWrite → Phase → Sending → Result
send_loop [] phase s = elim (need phase s) [
  | nothing ↦ stop all_sent s
  | write_bytes ↦ stop (out_of_room s.iov) s
  | send_file ↦ stop (out_of_room (file_rest s)) s
  | no_progress ↦ stop spins s
]
send_loop (would_block ∷ ws) phase s = elim (need phase s) [
  | nothing ↦ stop all_sent s
  | write_bytes ↦ stop blocked s
  | send_file ↦ stop blocked s
  | no_progress ↦ stop spins s
]
send_loop (write_failed ∷ ws) phase s = elim (need phase s) [
  | nothing ↦ stop all_sent s
  | write_bytes ↦ stop broken s
  | send_file ↦ stop broken s
  | no_progress ↦ stop spins s
]
send_loop (wrote n ∷ ws) phase s =
    let k = min n (length s.iov) in
    let m = min n (min s.file_bytes_to_send (length (file_rest s))) in
    let written = send_loop ws (next_phase (take_iov k s)) (take_iov k s) in
    let copied = send_loop ws testing (take_file m s) in
    elim (need phase s) [
      | nothing ↦ stop all_sent s
      | write_bytes ↦ with_wire (take k s.iov) written
      | send_file ↦ with_wire (take m (file_rest s)) copied
      | no_progress ↦ stop spins s
    ]
