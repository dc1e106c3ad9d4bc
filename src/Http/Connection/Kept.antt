-- ===== src/Http/Connection/Kept.antt =====
-- What the loop of `handle_write` puts on the wire.
use Prim.Native.Nat.{min}
use linux_cpp_web_server.Common.{
  ℕ, ◌<◌, ◌≤◌, ◌≡◌, ◌≢◌, ◌⊎◌, inl, inr, refl, ap, sym, ◌∙◌, List, [], ◌∷◌, ◌++◌, append_assoc,
  length, length-append, length-drop, All, take, drop, take-append-drop, arith,
}
use linux_cpp_web_server.Common.Bytes.{Bytes}
use linux_cpp_web_server.Http.Connection.Writing.{
  Sending, SocketWrite, wrote, would_block, write_failed, Phase, testing, SendEnd, all_sent,
  blocked, broken, spins, file_rest, take_iov, take_file, next_phase, Result, with_wire, stop,
  send_loop,
}
use linux_cpp_web_server.Http.Connection.Ready.{
  remaining, IsReady, Fits, need-cases, out_of_room-blocked, take_iov-IsReady, file_rest-take_file,
  take_file-IsReady, next_phase-Fits,
}

-- The kernel takes something.
abbrev pub Takes : SocketWrite → Type 0
Takes (wrote n) = 0 < n
Takes would_block = ⊥
Takes write_failed = ⊥

-- How the loop ends, for a response with `rest` still to send and the answers `ws`.
pub record Kept (rest : Bytes) (ws : List SocketWrite) (r : Result) : Type 0 where
  pub joined : r.wire ++ remaining r.left ≡ rest
  pub over : r.ended ≡ all_sent → remaining r.left ≡ []
  pub moving : r.ended ≢ spins
  pub finishes : All Takes ws → length rest ≤ length ws → r.ended ≡ all_sent

over-Kept :
    (ws : List SocketWrite) (s : Sending)
    → remaining s ≡ []
    → Kept (remaining s) ws (stop all_sent s)
unfolding stop
over-Kept ws s h = record {
  joined = refl;
  over = λ e. h;
  moving = λ e. cc;
  finishes = λ all enough. refl;
}

stopped-Kept :
    (ws : List SocketWrite) (s : Sending) (e : SendEnd)
    → (e ≡ blocked) ⊎ (e ≡ broken)
    → ¬ ((All Takes ws) × (length (remaining s) ≤ length ws))
    → Kept (remaining s) ws (stop e s)
unfolding stop
stopped-Kept ws s e (inl h) early = record {
  joined = refl;
  over = λ q. cc;
  moving = λ q. cc;
  finishes = λ all enough. absurd (early (all, enough));
}
stopped-Kept ws s e (inr h) early = record {
  joined = refl;
  over = λ q. cc;
  moving = λ q. cc;
  finishes = λ all enough. absurd (early (all, enough));
}

with_iov :
    (k : ℕ) (s : Sending) (r : Result)
    → r.wire ++ remaining r.left ≡ remaining (take_iov k s)
    → (take k s.iov ++ r.wire) ++ remaining r.left ≡ remaining s
unfolding take_iov file_rest
with_iov k s r e =
    append_assoc (take k s.iov) r.wire (remaining r.left)
    ∙ ap (λ b. take k s.iov ++ b) e
    ∙ sym (append_assoc (take k s.iov) (drop k s.iov) (file_rest s))
    ∙ ap (λ b. b ++ file_rest s) (take-append-drop k s.iov)

iov-take_file : (m : ℕ) (s : Sending) → (take_file m s).iov ≡ s.iov
unfolding take_file
iov-take_file m s = refl

with_file :
    (m : ℕ) (s : Sending) (r : Result)
    → s.iov ≡ []
    → r.wire ++ remaining r.left ≡ remaining (take_file m s)
    → (take m (file_rest s) ++ r.wire) ++ remaining r.left ≡ remaining s
with_file m s r empty e =
    append_assoc (take m (file_rest s)) r.wire (remaining r.left)
    ∙ ap (λ b. take m (file_rest s) ++ b)
        (e
          ∙ ap (λ i. i ++ file_rest (take_file m s)) (iov-take_file m s ∙ empty)
          ∙ file_rest-take_file m s)
    ∙ take-append-drop m (file_rest s)
    ∙ sym (ap (λ i. i ++ file_rest s) empty)

remaining-some :
    (s : Sending) → (0 < length s.iov) ⊎ (0 < length (file_rest s)) → 0 < length (remaining s)
remaining-some s (inl h) = omega (arith, length-append s.iov (file_rest s))
remaining-some s (inr h) = omega (arith, length-append s.iov (file_rest s))

take_iov-less :
    (k : ℕ) (s : Sending)
    → 0 < k
    → k ≤ length s.iov
    → length (remaining (take_iov k s)) < length (remaining s)
unfolding take_iov file_rest
take_iov-less k s h le =
    let a = length-append s.iov (file_rest s) in
    let b = length-append (drop k s.iov) (file_rest s) in
    let d = length-drop k s.iov in omega (arith, a, b, d)

take_file-less :
    (m : ℕ) (s : Sending)
    → 0 < m
    → m ≤ length (file_rest s)
    → length (remaining (take_file m s)) < length (remaining s)
take_file-less m s h le =
    let a = length-append s.iov (file_rest s) in
    let b = length-append (take_file m s).iov (file_rest (take_file m s)) in
    let i = ap length (iov-take_file m s) in
    let d = ap length (file_rest-take_file m s) ∙ length-drop m (file_rest s) in
    omega (arith, a, b, i, d)

-- From a state whose counters count what remains, whatever `write`, `sendfile` and `writev` answer: the
-- bytes on the wire and those that remain are the response, in order; when the loop is through, none
-- remain; it does not come to rounds that call nothing, or that offer the kernel nothing, again and
-- again; and it is through when the kernel takes at least one byte each time, as many times as bytes
-- remain. An answer of 0 to a call that offers bytes is a round without effect.
pub send_loop-Kept :
    (ws : List SocketWrite) (phase : Phase) (s : Sending)
    → IsReady s
    → Fits phase s
    → Kept (remaining s) ws (send_loop ws phase s)
unfolding send_loop stop with_wire
send_loop-Kept [] phase s v fits = elim (need-cases phase s v fits) [
  | inl (e, over) ↦ rw (send_loop, e) (over-Kept [] s over)
  | inr (inl (e, some_left)) ↦
      let more = remaining-some s (inl some_left) in
      rw (send_loop, e)
        (stopped-Kept [] s _ (inl (out_of_room-blocked s.iov some_left)) (λ h. omega (arith, h.1)))
  | inr (inr (e, empty, counts, some_left)) ↦
      let more = remaining-some s (inr some_left) in
      rw (send_loop, e)
        (stopped-Kept [] s _ (inl (out_of_room-blocked (file_rest s) some_left))
          (λ h. omega (arith, h.1)))
]
send_loop-Kept (would_block ∷ ws) phase s v fits = elim (need-cases phase s v fits) [
  | inl (e, over) ↦ rw (send_loop, e) (over-Kept (would_block ∷ ws) s over)
  | inr (inl (e, some_left)) ↦
      rw (send_loop, e) (stopped-Kept (would_block ∷ ws) s blocked (inl refl) (λ h. h.0.0))
  | inr (inr (e, empty, counts, some_left)) ↦
      rw (send_loop, e) (stopped-Kept (would_block ∷ ws) s blocked (inl refl) (λ h. h.0.0))
]
send_loop-Kept (write_failed ∷ ws) phase s v fits = elim (need-cases phase s v fits) [
  | inl (e, over) ↦ rw (send_loop, e) (over-Kept (write_failed ∷ ws) s over)
  | inr (inl (e, some_left)) ↦
      rw (send_loop, e) (stopped-Kept (write_failed ∷ ws) s broken (inr refl) (λ h. h.0.0))
  | inr (inr (e, empty, counts, some_left)) ↦
      rw (send_loop, e) (stopped-Kept (write_failed ∷ ws) s broken (inr refl) (λ h. h.0.0))
]
send_loop-Kept (wrote n ∷ ws) phase s v fits =
    let k = min n (length s.iov) in
    let m = min n (min s.file_bytes_to_send (length (file_rest s))) in
    elim (need-cases phase s v fits) [
      | inl (e, over) ↦ rw (send_loop, e) (over-Kept (wrote n ∷ ws) s over)
      | inr (inl (e, some_left)) ↦
          let t = take_iov k s in
          let w = take_iov-IsReady k s (omega arith) v in
          let h = send_loop-Kept ws (next_phase t) t w (next_phase-Fits t) in
          rw (send_loop, e)
            (record {
              joined = with_iov k s (send_loop ws (next_phase t) t) h.joined;
              over = h.over;
              moving = h.moving;
              finishes = λ all enough. h.finishes all.1 (
                  let taken = all.0 in
                  let less = take_iov-less k s (omega arith) (omega arith) in
                  omega (arith, less, enough));
            })
      | inr (inr (e, empty, counts, some_left)) ↦
          let t = take_file m s in
          let w = take_file-IsReady m s (omega arith) counts v in
          let h = send_loop-Kept ws testing t w tt in
          rw (send_loop, e)
            (record {
              joined = with_file m s (send_loop ws testing t) empty h.joined;
              over = h.over;
              moving = h.moving;
              finishes = λ all enough. h.finishes all.1 (
                  let taken = all.0 in
                  let less = take_file-less m s (omega (arith, counts)) (omega arith) in
                  omega (arith, less, enough));
            })
    ]
