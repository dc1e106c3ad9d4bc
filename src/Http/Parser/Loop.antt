-- ===== src/Http/Parser/Loop.antt =====
-- One round of the loop of `parse`.
use linux_cpp_web_server.Common.{
  ℕ, suc, ◌+◌, ◌≡◌, ◌≢◌, refl, ap, sym, ◌∙◌, Bool, true, false, some, [], ◌∷◌, ◌++◌, length, drop,
  take_at, drop-drop, drop-length-append,
}
use linux_cpp_web_server.Common.Bytes.{Bytes, crlf}
use linux_cpp_web_server.Common.Bytes.Search.{NoCr, find-crlf-append, find-crlf-none}
use linux_cpp_web_server.Http.Parser.{
  Step, next, leave, returned, line_step, request_line_step, header_line_step, parse_step,
  parse_loop,
}
use linux_cpp_web_server.Http.Parser.State.{
  HttpParser, ParseResult, complete, is_done, request_line, headers, incomplete,
}

-- A line that stands complete at the front is handed on with what follows it.
pub line_step-line :
    (act : Bytes → Bytes → HttpParser → Step) (line rest : Bytes) (p : HttpParser)
    → NoCr line
    → line_step act (line ++ (crlf ++ rest)) p ≡ act line rest p
unfolding line_step
line_step-line act line rest p h =
    let cut : drop (length line + 2) (line ++ (crlf ++ rest)) ≡ rest =
      sym (drop-drop (length line) 2 (line ++ (crlf ++ rest)))
      ∙ ap (drop 2) (drop-length-append line (crlf ++ rest)) in
    rw
      (line_step, find-crlf-append line rest h, take_at (length line) line (crlf ++ rest) refl, cut)
      refl

pub line_step-wait :
    (act : Bytes → Bytes → HttpParser → Step) (part : Bytes) (p : HttpParser)
    → NoCr part
    → line_step act part p ≡ leave incomplete p
unfolding line_step
line_step-wait act part p h = rw (line_step, find-crlf-none part h) refl

pub line-ne_nil : (line rest : Bytes) → line ++ (crlf ++ rest) ≢ []
line-ne_nil [] rest = λ e. cc
line-ne_nil (x ∷ line) rest = λ e. cc

module _ (can_open : Bytes → Bool) (time : ℕ → ℕ) where
  pub parse_loop-next :
      (fuel : ℕ) (buffer rest rest' : Bytes) (p q : HttpParser)
      → rest ≢ []
      → parse_step can_open time p.state rest p ≡ some (next rest' q)
      → is_done q.state ≡ false
      → parse_loop can_open time (suc fuel) buffer rest p
        ≡ parse_loop can_open time fuel buffer rest' q
  unfolding parse_loop
  parse_loop-next fuel buffer [] rest' p q full e d = absurd (full refl)
  parse_loop-next fuel buffer (c ∷ cs) rest' p q full e d = rw (parse_loop, e, d) refl

  pub parse_loop-done :
      (fuel : ℕ) (buffer rest rest' : Bytes) (p q : HttpParser)
      → rest ≢ []
      → parse_step can_open time p.state rest p ≡ some (next rest' q)
      → is_done q.state ≡ true
      → parse_loop can_open time (suc fuel) buffer rest p ≡ some (returned complete rest' q)
  unfolding parse_loop
  parse_loop-done fuel buffer [] rest' p q full e d = absurd (full refl)
  parse_loop-done fuel buffer (c ∷ cs) rest' p q full e d = rw (parse_loop, e, d) refl

  pub parse_loop-leave :
      (fuel : ℕ) (buffer rest : Bytes) (p q : HttpParser) (result : ParseResult)
      → rest ≢ []
      → parse_step can_open time p.state rest p ≡ some (leave result q)
      → parse_loop can_open time (suc fuel) buffer rest p ≡ some (returned result buffer q)
  unfolding parse_loop
  parse_loop-leave fuel buffer [] p q result full e = absurd (full refl)
  parse_loop-leave fuel buffer (c ∷ cs) p q result full e = rw (parse_loop, e) refl

  -- A complete line in the state that reads the request line, and in the one that reads headers.
  pub parse_step-request_line :
      (line rest : Bytes) (p : HttpParser)
      → p.state ≡ request_line
      → NoCr line
      → parse_step can_open time p.state (line ++ (crlf ++ rest)) p
        ≡ some (request_line_step line rest p)
  unfolding parse_step
  parse_step-request_line line rest p st h =
      ap (λ s. parse_step can_open time s (line ++ (crlf ++ rest)) p) st
      ∙ ap some (line_step-line request_line_step line rest p h)

  pub parse_step-header :
      (line rest : Bytes) (p : HttpParser)
      → p.state ≡ headers
      → NoCr line
      → parse_step can_open time p.state (line ++ (crlf ++ rest)) p
        ≡ some (header_line_step line rest p)
  unfolding parse_step
  parse_step-header line rest p st h =
      ap (λ s. parse_step can_open time s (line ++ (crlf ++ rest)) p) st
      ∙ ap some (line_step-line header_line_step line rest p h)

  pub parse_step-wait :
      (part : Bytes) (p : HttpParser)
      → p.state ≡ headers
      → NoCr part
      → parse_step can_open time p.state part p ≡ some (leave incomplete p)
  unfolding parse_step
  parse_step-wait part p st h =
      ap (λ s. parse_step can_open time s part p) st
      ∙ ap some (line_step-wait header_line_step part p h)
