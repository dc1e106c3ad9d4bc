-- ===== src/Http/Parser/Pieces.antt =====
-- A request that reaches `parse` in two pieces, cut inside its header.
use linux_cpp_web_server.Common.{
  ℕ, suc, ◌≡◌, ◌≢◌, refl, ap, ◌∙◌, Bool, false, none, some, [], ◌∷◌, ◌++◌, append_assoc, length,
}
use linux_cpp_web_server.Common.Bytes.{Bytes, crlf, find_char, drop_while}
use linux_cpp_web_server.Common.Bytes.Search.{NoCr}
use linux_cpp_web_server.Http.Request.{HttpRequest}
use linux_cpp_web_server.Http.Parser.{
  next, leave, returned, request_line_step, header_line_step, parse_step, parse,
}
use linux_cpp_web_server.Http.Parser.Loop.{
  parse_loop-next, parse_loop-leave, parse_step-request_line, parse_step-header, parse_step-wait,
  line-ne_nil,
}
use linux_cpp_web_server.Http.Parser.State.{HttpParser, request_line, headers, incomplete, error}
use linux_cpp_web_server.Http.Parser.Lines.{parse_request_line, parse_header_line, header_line}

-- A request line has three words, so it is not empty.
parse_request_line-nil : (r : HttpRequest) → parse_request_line [] r ≡ none
unfolding parse_request_line drop_while
parse_request_line-nil r = refl

header_line-no_colon :
    (line : Bytes) (p : HttpParser)
    → line ≢ []
    → find_char b':' line ≡ none
    → header_line line p ≡ (false, p)
unfolding header_line parse_header_line
header_line-no_colon [] p full h = absurd (full refl)
header_line-no_colon (c ∷ cs) p full h = rw (header_line, parse_header_line, h) refl

request_line-full :
    (line : Bytes) (r r' : HttpRequest) → parse_request_line line r ≡ some r' → line ≢ []
request_line-full [] r r' ok = let e = parse_request_line-nil r in cc
request_line-full (c ∷ cs) r r' ok = λ e. cc

module _ (can_open : Bytes → Bool) (time : ℕ → ℕ) where
  -- The request line has been read once, and part of the header behind it.
  first_piece :
      (line part : Bytes) (p : HttpParser) (r : HttpRequest)
      → p.state ≡ request_line
      → parse_request_line line p.request ≡ some r
      → NoCr line
      → NoCr part
      → part ≢ []
      → line ≢ []
      → parse can_open time (line ++ (crlf ++ part)) p
        ≡ some (
            returned incomplete
              (line ++ (crlf ++ part))
              (record p { request = r; state = headers }))
  unfolding parse request_line_step
  first_piece [] part p r st ok line_cr part_cr full line_full = absurd (line_full refl)
  first_piece (c ∷ cs) part p r st ok line_cr part_cr full line_full =
      let q : HttpParser = record p { request = r; state = headers } in
      let whole : Bytes = c ∷ cs ++ (crlf ++ part) in
      let step : request_line_step (c ∷ cs) part p ≡ next part q =
        rw (request_line_step, ok) refl in
      let round : parse_step can_open time p.state ((c ∷ cs) ++ (crlf ++ part)) p
          ≡ some (next part q) =
        parse_step-request_line can_open time (c ∷ cs) part p st line_cr ∙ ap some step in
      (parse_loop-next can_open time (suc (length (cs ++ (crlf ++ part)))) whole whole part p q
          (line-ne_nil (c ∷ cs) part) round refl
        ∙ parse_loop-leave can_open time (length (cs ++ (crlf ++ part))) whole part q q incomplete
            full (parse_step-wait can_open time part q refl part_cr))

  -- The same line read as a header.
  second_piece :
      (line rest : Bytes) (q : HttpParser)
      → q.state ≡ headers
      → NoCr line
      → line ≢ []
      → find_char b':' line ≡ none
      → parse can_open time (line ++ (crlf ++ rest)) q
        ≡ some (returned error (line ++ (crlf ++ rest)) q)
  unfolding parse header_line_step
  second_piece line rest q st line_cr line_full colon =
      let step : header_line_step line rest q ≡ leave error q =
        rw (header_line_step, header_line-no_colon line q line_full colon) refl in
      (parse_loop-leave can_open time (length (line ++ (crlf ++ rest))) (line ++ (crlf ++ rest))
        (line ++ (crlf ++ rest)) q q error (line-ne_nil line rest)
        (parse_step-header can_open time line rest q st line_cr ∙ ap some step))

  -- A request whose line names no colon and whose bytes end in the middle of a header line is
  -- incomplete, and then whatever bytes follow make `parse` return an error: the first call leaves
  -- the request line in the buffer and the parser in the state that reads headers.
  pub parse-pieces :
      (line part more : Bytes) (p : HttpParser) (r : HttpRequest)
      → p.state ≡ request_line
      → parse_request_line line p.request ≡ some r
      → NoCr line
      → find_char b':' line ≡ none
      → NoCr part
      → part ≢ []
      → let q : HttpParser = record p { request = r; state = headers } in
        (parse can_open time (line ++ (crlf ++ part)) p
          ≡ some (returned incomplete (line ++ (crlf ++ part)) q))
        × (parse can_open time (line ++ (crlf ++ part) ++ more) q
            ≡ some (returned error (line ++ (crlf ++ part) ++ more) q))
  parse-pieces line part more p r st ok line_cr colon part_cr full =
      let q : HttpParser = record p { request = r; state = headers } in
      let line_full = request_line-full line p.request r ok in
      let whole : line ++ (crlf ++ part) ++ more ≡ line ++ (crlf ++ (part ++ more)) =
        append_assoc line (crlf ++ part) more in
      (
        first_piece line part p r st ok line_cr part_cr full line_full,
        rw whole (second_piece line (part ++ more) q refl line_cr line_full colon),
      )
