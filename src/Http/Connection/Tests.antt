-- ===== src/Http/Connection/Tests.antt =====
-- A response with a file, half sent.
use linux_cpp_web_server.Common.{◌≡◌, refl, inr, some, [], ◌∷◌, arith}
use linux_cpp_web_server.Common.Bytes.{codes}
use linux_cpp_web_server.Http.Connection.Writing.{
  Sending, wrote, would_block, testing, file_rest, send_loop,
}
use linux_cpp_web_server.Http.Connection.Ready.{IsReady, remaining}
use linux_cpp_web_server.Http.Connection.Kept.{Kept, send_loop-Kept}

abbrev half : Sending
half = record {
  file = some (codes "data");
  file_offset = 1;
  file_bytes_to_send = 3;
  iov = codes "OK";
  bytes_to_send = 5;
  bytes_have_sent = 0;
}

half_bytes : remaining half ≡ codes "OKata"
unfolding file_rest
half_bytes = refl

half-IsReady : IsReady half
unfolding file_rest
half-IsReady = record { small = omega arith; total = refl; of_file = inr refl }

send_loop-Kept_example :
    Kept
      (remaining half)
      (wrote 2 ∷ wrote 1 ∷ would_block ∷ [])
      (send_loop (wrote 2 ∷ wrote 1 ∷ would_block ∷ []) testing half)
send_loop-Kept_example =
    send_loop-Kept (wrote 2 ∷ wrote 1 ∷ would_block ∷ []) testing half half-IsReady tt
