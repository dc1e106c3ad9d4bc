-- ===== src/Http/Parser/Returns.antt =====
-- The loop of `parse` in src/http/HttpParser.cpp: what a round takes from the buffer.
use linux_cpp_web_server.Common.{
  ℕ, zero, suc, ◌+◌, ◌^◌, ◌≤◌, ◌<◌, ◌≡◌, ◌≢◌, ◌⊎◌, refl, ap, ◌∙◌, Bool, true, some, [], ◌∷◌, ◌++◌,
  ◌==◌, ltb, length, take, drop, length-drop, length-take, length-append, inl, inr, Bool-cases,
  Option-cases, arith,
}
use linux_cpp_web_server.Common.Bytes.{Bytes, codes, crlf, find, stoul}
use linux_cpp_web_server.Common.Bytes.Search.{find-le}
use linux_cpp_web_server.Common.Bytes.Numbers.{stoul-bound}
use linux_cpp_web_server.Http.Request.{get_header}
use linux_cpp_web_server.Http.Parser.{
  Step, next, stop, leave, raise, Ended, returned, thrown, request_line_step, header_line_step,
  line_step, body_round, multipart_round, parse_step, parse_loop, parse,
}
use linux_cpp_web_server.Http.Parser.Lines.{parse_request_line, header_line}
use linux_cpp_web_server.Http.Parser.Body.{bytes_to_read, take_body, body_step}
use linux_cpp_web_server.Http.Parser.Multipart.{Multi, finish, throw, handle_multipart}
use linux_cpp_web_server.Http.Parser.State.{
  HttpParser, ParseState, request_line, headers, body, boundary_search, part_headers, part_data,
  done, complete, incomplete, error, is_done,
}
use linux_cpp_web_server.Http.Parser.Total.{InPart, Finished, handle_multipart-total}

-- A round that goes on has come to the end, or has taken bytes.
abbrev Shrinks : Bytes → Step → Type 0
Shrinks buf (next rest q) = (is_done q.state ≡ true) ⊎ (suc (length rest) ≤ length buf)
Shrinks buf (stop result rest q) = Unit
Shrinks buf (leave result q) = Unit
Shrinks buf (raise q) = Unit

module _ (buf rest : Bytes) (less : suc (length rest) ≤ length buf) where
  request_line_step-Shrinks :
      (line : Bytes) (p : HttpParser) → Shrinks buf (request_line_step line rest p)
  unfolding request_line_step
  request_line_step-Shrinks line p = elim (Option-cases (parse_request_line line p.request)) [
    | inl e ↦ rw (request_line_step, e) tt
    | inr (r, e) ↦ rw (request_line_step, e) (inr less)
  ]

  header_line_step-Shrinks :
      (line : Bytes) (p : HttpParser) → Shrinks buf (header_line_step line rest p)
  unfolding header_line_step
  header_line_step-Shrinks line p = elim (Bool-cases (header_line line p).0) [
    | inl e ↦ rw (header_line_step, e) (inr less)
    | inr e ↦ rw (header_line_step, e) tt
  ]

line_step-Shrinks :
    (act : Bytes → Bytes → HttpParser → Step) (buf : Bytes) (p : HttpParser)
    → ((rest line : Bytes) → suc (length rest) ≤ length buf → Shrinks buf (act line rest p))
    → Shrinks buf (line_step act buf p)
unfolding line_step
line_step-Shrinks act buf p h = elim (Option-cases (find crlf buf)) [
  | inl e ↦ rw (line_step, e) tt
  | inr (pos, e) ↦
      rw (line_step, e)
        (h (drop (pos + 2) buf) (take pos buf)
          (let a = find-le crlf buf pos e in let b = length-drop (pos + 2) buf in omega arith))
]

bytes_to_read-pos :
    (c : ℕ) (cs : Bytes) (n r : ℕ) → r < n → n < 2 ^ 64 → 1 ≤ bytes_to_read (c ∷ cs) n r
unfolding bytes_to_read
bytes_to_read-pos c cs n r less small = omega arith

-- What `take_body` takes, for a length that `std::stoul` returns.
take_body-Shrinks :
    (n : ℕ) (c : ℕ) (cs : Bytes) (p : HttpParser)
    → n < 2 ^ 64
    → (take_body n (c ∷ cs) p).0 ≡ true
    → (is_done (take_body n (c ∷ cs) p).2.state ≡ true)
      ⊎ (suc (length (take_body n (c ∷ cs) p).1) ≤ length (c ∷ cs))
unfolding take_body
take_body-Shrinks n c cs p small ok =
    let k = bytes_to_read (c ∷ cs) n (length p.request.raw_body) in
    let whole = length-append p.request.raw_body (take k (c ∷ cs)) in
    let took = length-take k (c ∷ cs) in
    let left = length-drop k (c ∷ cs) in
    elim (Bool-cases (length (p.request.raw_body ++ take k (c ∷ cs)) == n)) [
      | inl all ↦ rw (take_body, all) (inl refl)
      | inr part ↦ elim (Bool-cases (ltb n (length (p.request.raw_body ++ take k (c ∷ cs))))) [
        | inl more ↦ absurd (cc (rw (take_body, part, more) at ok))
        | inr less ↦
            let le : length (p.request.raw_body ++ take k (c ∷ cs)) ≤ n = ground arith in
            let ne : length (p.request.raw_body ++ take k (c ∷ cs)) ≢ n = ground arith in
            let some_left : length p.request.raw_body < n = omega arith in
            let some_bytes = bytes_to_read-pos c cs n (length p.request.raw_body) some_left small in
            rw (take_body, part, less) (inr (omega arith))
      ]
    ]

body_round-Shrinks :
    (c : ℕ) (cs : Bytes) (p : HttpParser) → Shrinks (c ∷ cs) (body_round (c ∷ cs) p)
unfolding body_round body_step
body_round-Shrinks c cs p = elim (Option-cases (get_header (codes "Content-Length") p.request)) [
  | inl e ↦ rw (body_round, body_step, e) tt
  | inr (text, e) ↦ elim (Option-cases (stoul text)) [
    | inl f ↦ rw (body_round, body_step, e, f) tt
    | inr (n, f) ↦ elim (Bool-cases (take_body n (c ∷ cs) p).0) [
      | inr bad ↦ rw (body_round, body_step, e, f, bad) tt
      | inl ok ↦
          rw (body_round, body_step, e, f, ok)
            (take_body-Shrinks n c cs p (stoul-bound text n f) ok)
    ]
  ]
]

multipart_round-Shrinks :
    (m : Multi) (buf : Bytes)
    → Finished m
    → (s : Step) × (multipart_round (some m) ≡ some s) × Shrinks buf s
unfolding multipart_round
multipart_round-Shrinks (finish complete chunk p) buf h = (next chunk p, refl, inl h)
multipart_round-Shrinks (finish incomplete chunk p) buf h = (stop incomplete chunk p, refl, tt)
multipart_round-Shrinks (finish error chunk p) buf h = (leave error p, refl, tt)
multipart_round-Shrinks (throw p) buf h = (raise p, refl, tt)

module _ (can_open : Bytes → Bool) (time : ℕ → ℕ) where
  in_part :
      (c : ℕ) (cs : Bytes) (p : HttpParser)
      → InPart p.state
      → (s : Step) × (multipart_round (handle_multipart can_open time (c ∷ cs) p) ≡ some s)
        × Shrinks (c ∷ cs) s
  in_part c cs p h =
      let (m, done_so, fin) = handle_multipart-total can_open time (c ∷ cs) p h in
      let (s, e, shrinks) = multipart_round-Shrinks m (c ∷ cs) fin in
      (s, ap multipart_round done_so ∙ e, shrinks)

  parse_step-Shrinks :
      (st : ParseState) (c : ℕ) (cs : Bytes) (p : HttpParser)
      → p.state ≡ st
      → (s : Step) × (parse_step can_open time st (c ∷ cs) p ≡ some s) × Shrinks (c ∷ cs) s
  unfolding parse_step
  parse_step-Shrinks request_line c cs p e = (
    line_step request_line_step (c ∷ cs) p,
    refl,
    line_step-Shrinks request_line_step (c ∷ cs) p
        (λ rest line less. request_line_step-Shrinks (c ∷ cs) rest less line p),
  )
  parse_step-Shrinks headers c cs p e = (
    line_step header_line_step (c ∷ cs) p,
    refl,
    line_step-Shrinks header_line_step (c ∷ cs) p
        (λ rest line less. header_line_step-Shrinks (c ∷ cs) rest less line p),
  )
  parse_step-Shrinks body c cs p e = (body_round (c ∷ cs) p, refl, body_round-Shrinks c cs p)
  parse_step-Shrinks boundary_search c cs p e = in_part c cs p (rw e tt)
  parse_step-Shrinks part_headers c cs p e = in_part c cs p (rw e tt)
  parse_step-Shrinks part_data c cs p e = in_part c cs p (rw e tt)
  parse_step-Shrinks done c cs p e = (stop complete (c ∷ cs) p, refl, tt)

  parse_loop-returns :
      (fuel : ℕ) (buffer rest : Bytes) (p : HttpParser)
      → length rest < fuel
      → (e : Ended) × (parse_loop can_open time fuel buffer rest p ≡ some e)
  unfolding parse_loop
  parse_loop-returns zero buffer rest p le = absurd (omega arith)
  parse_loop-returns (suc fuel) buffer [] p le = (returned incomplete [] p, refl)
  parse_loop-returns (suc fuel) buffer (c ∷ cs) p le =
      let (s, done_so, shrinks) = parse_step-Shrinks p.state c cs p refl in
      by_step s done_so shrinks (λ rest q less. parse_loop-returns fuel buffer rest q (omega arith))
    where
      by_step :
          (s : Step)
          → parse_step can_open time p.state (c ∷ cs) p ≡ some s
          → Shrinks (c ∷ cs) s
          → ((rest : Bytes) (q : HttpParser)
              → suc (length rest) ≤ length (c ∷ cs)
              → (e : Ended) × (parse_loop can_open time fuel buffer rest q ≡ some e))
          → (e : Ended) × (parse_loop can_open time (suc fuel) buffer (c ∷ cs) p ≡ some e)
      by_step (raise q) e h later = (thrown q, rw (parse_loop, e) refl)
      by_step (leave result q) e h later = (returned result buffer q, rw (parse_loop, e) refl)
      by_step (stop result rest q) e h later = (returned result rest q, rw (parse_loop, e) refl)
      by_step (next rest q) e (inl over) later =
          (returned complete rest q, rw (parse_loop, e, over) refl)
      by_step (next rest q) e (inr less) later = elim (Bool-cases (is_done q.state)) [
        | inl over ↦ (returned complete rest q, rw (parse_loop, e, over) refl)
        | inr going ↦ let (u, done_so) = later rest q less in (u, rw (parse_loop, e, going) done_so)
      ]

  -- On any bytes and from any state of the parser, `parse` returns or throws: its loops come to an end,
  -- those of a multipart body as well.
  pub parse-returns :
      (buffer : Bytes) (p : HttpParser) → (e : Ended) × (parse can_open time buffer p ≡ some e)
  unfolding parse
  parse-returns buffer p = parse_loop-returns (suc (length buffer)) buffer buffer p (omega arith)
