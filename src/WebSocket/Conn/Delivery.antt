-- ===== src/WebSocket/Conn/Delivery.antt =====
-- What a connection delivers and sends.
use linux_cpp_web_server.Common.{
  suc, ◌+◌, ◌^◌, ◌<◌, ◌≡◌, ◌↔◌, refl, ap, sym, ◌∙◌, true, false, some, List, [], ◌∷◌, ◌++◌, ◌==◌,
  inl, inr, Bool-cases, length, drop, All, arith, append-nil, append_assoc, if◌then◌else◌,
  take-append-drop,
}
use linux_cpp_web_server.Common.Bytes.{Bytes, is_empty}
use linux_cpp_web_server.Tools.{read, write, close}
use linux_cpp_web_server.WebSocket.Frame.{
  parse_header, next_frame, deliver, parse_frames, pack_text_frame,
}
use linux_cpp_web_server.WebSocket.Frame.Packed.{next_frame-pack_text_frame}
use linux_cpp_web_server.WebSocket.Frame.Stream.{
  Sent, IsSent, stream, deliver_all, parse_frames-stream, length-stream,
}
use linux_cpp_web_server.WebSocket.Conn.{
  WebSocketConn, again, SendResult, sent, would_block, broken, send_text, received, append_pong,
  call_back, after_frames, parse_and_answer, handle_recv_end, handle_read, Sending, send_loop,
  handle_write,
}

-- Nothing is lost or reordered by partial writes.
send_loop-keeps :
    (rs : List SendResult) (buf : Bytes) → (send_loop rs buf).wire ++ (send_loop rs buf).left ≡ buf
unfolding send_loop
send_loop-keeps rs [] = refl
send_loop-keeps [] (x ∷ buf) = refl
send_loop-keeps (would_block ∷ rs) (x ∷ buf) = refl
send_loop-keeps (broken ∷ rs) (x ∷ buf) = refl
send_loop-keeps (sent n ∷ rs) (x ∷ buf) = elim (Bool-cases (n == 0)) [
  | inl none_sent ↦ rw none_sent refl
  | inr some_sent ↦
      rw (some_sent, append_assoc, send_loop-keeps rs (drop n (x ∷ buf)))
        (take-append-drop n (x ∷ buf))
]

-- The answer tells whether the loop closed the connection and whether bytes are left.
abbrev Answers : Sending → Type 0
Answers s =
    ((s.action ≡ read) ↔ ((s.closed ≡ false) × (s.left ≡ [])))
    × ((s.action ≡ close) ↔ (s.closed ≡ true))

send_loop-Answers : (rs : List SendResult) (buf : Bytes) → Answers (send_loop rs buf)
unfolding send_loop
send_loop-Answers rs [] = ground arith
send_loop-Answers [] (x ∷ buf) = ground arith
send_loop-Answers (would_block ∷ rs) (x ∷ buf) = ground arith
send_loop-Answers (broken ∷ rs) (x ∷ buf) = ground arith
send_loop-Answers (sent n ∷ rs) (x ∷ buf) = elim (Bool-cases (n == 0)) [
  | inl none_sent ↦ rw none_sent (ground arith)
  | inr some_sent ↦ rw some_sent (send_loop-Answers rs (drop n (x ∷ buf)))
]

-- Whatever `send` answers: the bytes on the wire and those kept are the write buffer, in order; the
-- answer is `read` exactly when an open connection has nothing left to send, and `close` exactly when
-- the connection is closed afterwards.
pub handle_write-keeps :
    (rs : List SendResult) (c : WebSocketConn)
    → let (action, c', wire) = handle_write rs c in
      (wire ++ c'.write_buf ≡ c.write_buf)
      × ((action ≡ read) ↔ ((c'.closed ≡ false) × (c'.write_buf ≡ [])))
      × ((action ≡ close) ↔ (c'.closed ≡ true))
unfolding handle_write
handle_write-keeps rs c = elim (Bool-cases c.closed) [
  | inl shut ↦ rw shut (refl, ground arith, ground arith)
  | inr live ↦
      let (r, q) = send_loop-Answers rs c.write_buf in
      rw live (send_loop-keeps rs c.write_buf, r, q)
]

received-append :
    (buf : Bytes) (chunks : List Bytes) → received buf chunks ≡ buf ++ received [] chunks
unfolding received
received-append buf [] = sym (append-nil buf)
received-append buf (chunk ∷ chunks) =
    received-append (buf ++ chunk) chunks
    ∙ append_assoc buf chunk (received [] chunks)
    ∙ ap (◌++◌ buf) (sym (received-append chunk chunks))

module _ {W : Type 0} (on_message : Bytes → Bytes × W → Bytes × W) where
  -- A read that completes whole frames delivers them in order and once, however `recv` cut them up;
  -- it keeps no bytes, and asks for a write exactly when answers are waiting.
  pub handle_read-delivers :
      (chunks : List Bytes) (fs : List Sent) (c : WebSocketConn) (w : W)
      → c.closed ≡ false
      → c.read_buf ++ received [] chunks ≡ stream fs
      → All IsSent fs
      → let (wb, w') =
          deliver_all (call_back on_message c.has_callback) append_pong fs (c.write_buf, w) in
        handle_read on_message chunks again c w
        ≡ some
            ((if is_empty wb then read else write), record c { read_buf = []; write_buf = wb }, w')
  unfolding handle_read handle_recv_end parse_and_answer after_frames
  handle_read-delivers chunks fs c w live whole h =
      let all : received c.read_buf chunks ≡ stream fs =
        received-append c.read_buf chunks ∙ whole in
      simp live (
        rw
          (
            parse_and_answer,
            all,
            parse_frames-stream (call_back on_message c.has_callback) append_pong fs
                (suc (length (stream fs))) (c.write_buf, w) h (omega (arith, length-stream fs)),
          )
          refl)

abbrev pub send_all : List Bytes → WebSocketConn → WebSocketConn
send_all [] c = c
send_all (t ∷ ts) c = send_all ts (send_text t c)

abbrev pub collect : Bytes → List Bytes → List Bytes
collect msg acc = acc ++ msg ∷ []

abbrev pub IsText : Bytes → Type 0
IsText t = length t + 10 < 2 ^ 64

packed : List Bytes → Bytes
packed [] = []
packed (t ∷ ts) = pack_text_frame t ++ packed ts

parse_frames-packed :
    (ts acc : List Bytes)
    → All IsText ts
    → parse_frames collect (λ acc. acc) (suc (length ts)) (packed ts) acc
      ≡ some (true, [], acc ++ ts)
unfolding parse_frames packed deliver next_frame parse_header
parse_frames-packed [] acc h = rw append-nil refl
parse_frames-packed (t ∷ ts) acc h =
    rw (parse_frames, next_frame-pack_text_frame t (packed ts) h.0)
      (parse_frames-packed ts (acc ++ t ∷ []) h.1
        ∙ ap (λ l. some (true, [], l)) (append_assoc acc (t ∷ []) ts))

send_text-open :
    (t : Bytes) (c : WebSocketConn)
    → c.closed ≡ false
    → send_text t c ≡ record c { write_buf = c.write_buf ++ pack_text_frame t }
unfolding send_text
send_text-open t c live =
    ap (λ b. if b then c else record c { write_buf = c.write_buf ++ pack_text_frame t }) live

write_buf-send_all :
    (ts : List Bytes) (c : WebSocketConn)
    → c.closed ≡ false
    → (send_all ts c).write_buf ≡ c.write_buf ++ packed ts
unfolding packed
write_buf-send_all [] c live = sym (append-nil c.write_buf)
write_buf-send_all (t ∷ ts) c live =
    ap (λ d. (send_all ts d).write_buf) (send_text-open t c live)
    ∙ write_buf-send_all ts (record c { write_buf = c.write_buf ++ pack_text_frame t }) live
    ∙ append_assoc c.write_buf (pack_text_frame t) (packed ts)

-- What an open connection with nothing to send is told to send is what the peer reads: the texts, in
-- order and once, with no bytes left over.
pub send_all-read_back :
    (ts : List Bytes) (c : WebSocketConn)
    → c.closed ≡ false
    → c.write_buf ≡ []
    → All IsText ts
    → parse_frames collect (λ acc. acc) (suc (length ts)) (send_all ts c).write_buf []
      ≡ some (true, [], ts)
send_all-read_back ts c live fresh h =
    rw (write_buf-send_all ts c live, fresh) (parse_frames-packed ts [] h)
