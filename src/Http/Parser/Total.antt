-- ===== src/Http/Parser/Total.antt =====
-- How far a round of `handle_multipart` and of `parse`, in src/http/HttpParser.cpp, brings the parser.
use linux_cpp_web_server.Common.{
  ℕ, zero, suc, ◌+◌, ◌*◌, ◌≤◌, ◌<◌, ◌≡◌, refl, Bool, true, false, some, [], ◌∷◌, ◌++◌, length, take,
  drop, length-drop, inl, inr, Bool-cases, Option-cases, arith,
}
use linux_cpp_web_server.Common.Bytes.{Bytes, codes, crlf, find, is_prefix}
use linux_cpp_web_server.Common.Bytes.Search.{find-le, is_prefix-length}
use linux_cpp_web_server.Http.Parser.State.{
  HttpParser, ParseState, request_line, headers, body, boundary_search, part_headers, part_data,
  done, complete, incomplete, error, is_done,
}
use linux_cpp_web_server.Http.Parser.Multipart.{
  Multi, finish, throw, Round, again, ends, skip_crlf, after_boundary, search_boundary, PartHeaders,
  parsed, cannot_open, out_of_range, set_content_type, after_part_lines, read_part_headers,
  keep_data, end_part, read_part_data, multipart_step, multipart_loop, handle_multipart,
}

-- The three states of a multipart body.
abbrev pub InPart : ParseState → Type 0
InPart boundary_search = Unit
InPart part_headers = Unit
InPart part_data = Unit
InPart _ = ⊥

abbrev in_data : ParseState → ℕ
in_data part_data = 1
in_data _ = 0

-- What a round may still count down.
abbrev pub to_do : Bytes → ParseState → ℕ
to_do chunk st = 2 * length chunk + in_data st

-- A body that is complete leaves the parser done.
abbrev pub Finished : Multi → Type 0
Finished (finish complete chunk p) = is_done p.state ≡ true
Finished (finish incomplete chunk p) = Unit
Finished (finish error chunk p) = Unit
Finished (throw p) = Unit

abbrev Advances : Bytes → ParseState → Round → Type 0
Advances chunk st (ends m) = Finished m
Advances chunk st (again rest q) = InPart q.state × (suc (to_do rest q.state) ≤ to_do chunk st)

skip_crlf-length : (chunk : Bytes) → length (skip_crlf chunk) ≤ length chunk
unfolding skip_crlf
skip_crlf-length chunk = elim (Bool-cases (is_prefix crlf chunk)) [
  | inl e ↦ rw (skip_crlf, e) (let l = length-drop 2 chunk in omega arith)
  | inr e ↦ rw (skip_crlf, e) (omega arith)
]

after_boundary-Advances :
    (whole chunk : Bytes) (p : HttpParser)
    → length chunk ≤ length whole
    → Advances whole boundary_search (after_boundary chunk p)
unfolding after_boundary
after_boundary-Advances whole chunk p le = elim (Bool-cases (is_prefix (codes "--") chunk)) [
  | inl last ↦ rw (after_boundary, last) refl
  | inr more ↦ elim (Bool-cases (is_prefix crlf chunk)) [
    | inl line ↦
        rw (after_boundary, more, line)
          (
            tt,
            (let l = length-drop 2 chunk in
                let two = is_prefix-length crlf chunk line in omega arith),
          )
    | inr bad ↦ rw (after_boundary, more, bad) tt
  ]
]

search_boundary-Advances :
    (chunk : Bytes) (p : HttpParser) → Advances chunk boundary_search (search_boundary chunk p)
unfolding search_boundary
search_boundary-Advances chunk p = elim (Option-cases (find p.boundary (skip_crlf chunk))) [
  | inl e ↦ rw (search_boundary, e) tt
  | inr (pos, e) ↦
      rw (search_boundary, e)
        (after_boundary-Advances chunk (drop (pos + length p.boundary) (skip_crlf chunk)) p (
          let a = skip_crlf-length chunk in
          let b = length-drop (pos + length p.boundary) (skip_crlf chunk) in omega arith))
]

module _ (can_open : Bytes → Bool) (time : ℕ → ℕ) where
  set_content_type-state :
      (type : Bytes) (p : HttpParser)
      → InPart (record (set_content_type can_open time type p) { state = part_data }).state
  set_content_type-state type p = tt

  after_part_lines-Advances :
      (chunk rest : Bytes) (h : PartHeaders)
      → length rest + 4 ≤ length chunk
      → Advances chunk part_headers (after_part_lines can_open time rest h)
  unfolding after_part_lines
  after_part_lines-Advances chunk rest (parsed type p) le = (tt, omega arith)
  after_part_lines-Advances chunk rest (cannot_open p) le = tt
  after_part_lines-Advances chunk rest (out_of_range p) le = tt

  read_part_headers-Advances :
      (chunk : Bytes) (p : HttpParser)
      → Advances chunk part_headers (read_part_headers can_open time chunk p)
  unfolding read_part_headers
  read_part_headers-Advances chunk p = elim (Option-cases (find (crlf ++ crlf) chunk)) [
    | inl e ↦ rw (read_part_headers, e) tt
    | inr (pos, e) ↦
        rw (read_part_headers, e)
          (after_part_lines-Advances chunk (drop (pos + 4) chunk) _ (
            let a = find-le (crlf ++ crlf) chunk pos e in
            let b = length-drop (pos + 4) chunk in omega arith))
  ]

  end_part-state : (p : HttpParser) → (end_part can_open time p).state ≡ boundary_search
  unfolding end_part
  end_part-state p = elim (Option-cases p.current_file) [
    | inl e ↦ rw (end_part, e) refl
    | inr (f, e) ↦ rw (end_part, e) refl
  ]

  read_part_data-Advances :
      (chunk : Bytes) (p : HttpParser)
      → Advances chunk part_data (read_part_data can_open time chunk p)
  unfolding read_part_data
  read_part_data-Advances chunk p = elim (Option-cases (find (crlf ++ p.boundary) chunk)) [
    | inl e ↦ rw (read_part_data, e) tt
    | inr (pos, e) ↦
        rw (read_part_data, e, end_part-state (keep_data can_open time (take pos chunk) p))
          (tt, (let b = length-drop pos chunk in omega arith))
  ]

  multipart_step-Advances :
      (st : ParseState) (chunk : Bytes) (p : HttpParser)
      → InPart st
      → Advances chunk st (multipart_step can_open time st chunk p)
  unfolding multipart_step
  multipart_step-Advances boundary_search chunk p h = search_boundary-Advances chunk p
  multipart_step-Advances part_headers chunk p h = read_part_headers-Advances chunk p
  multipart_step-Advances part_data chunk p h = read_part_data-Advances chunk p
  multipart_step-Advances request_line chunk p h = elim h [ ]
  multipart_step-Advances headers chunk p h = elim h [ ]
  multipart_step-Advances body chunk p h = elim h [ ]
  multipart_step-Advances done chunk p h = elim h [ ]

  not_done : (st : ParseState) → InPart st → is_done st ≡ false
  not_done boundary_search h = refl
  not_done part_headers h = refl
  not_done part_data h = refl
  not_done request_line h = elim h [ ]
  not_done headers h = elim h [ ]
  not_done body h = elim h [ ]
  not_done done h = elim h [ ]

  multipart_loop-total :
      (fuel : ℕ) (chunk : Bytes) (p : HttpParser)
      → InPart p.state
      → to_do chunk p.state < fuel
      → (m : Multi) × (multipart_loop can_open time fuel chunk p ≡ some m) × Finished m
  unfolding multipart_loop
  multipart_loop-total zero chunk p h le = absurd (omega arith)
  multipart_loop-total (suc fuel) [] p h le =
      (finish incomplete [] p, rw (multipart_loop, not_done p.state h) refl, tt)
  multipart_loop-total (suc fuel) (c ∷ cs) p h le =
      by_round (multipart_step can_open time p.state (c ∷ cs) p) refl
        (multipart_step-Advances p.state (c ∷ cs) p h)
        (λ rest q part less. multipart_loop-total fuel rest q part (omega arith))
    where
      by_round :
          (r : Round)
          → multipart_step can_open time p.state (c ∷ cs) p ≡ r
          → Advances (c ∷ cs) p.state r
          → ((rest : Bytes) (q : HttpParser)
              → InPart q.state
              → suc (to_do rest q.state) ≤ to_do (c ∷ cs) p.state
              → (m : Multi) × (multipart_loop can_open time fuel rest q ≡ some m) × Finished m)
          → (m : Multi) × (multipart_loop can_open time (suc fuel) (c ∷ cs) p ≡ some m) × Finished m
      by_round (ends m) e a later = (m, rw (multipart_loop, e) refl, a)
      by_round (again rest q) e (part, less) later =
          let (m, done_so, fin) = later rest q part less in (m, rw (multipart_loop, e) done_so, fin)

  pub handle_multipart-total :
      (chunk : Bytes) (p : HttpParser)
      → InPart p.state
      → (m : Multi) × (handle_multipart can_open time chunk p ≡ some m) × Finished m
  unfolding handle_multipart
  handle_multipart-total chunk p h =
      multipart_loop-total (2 * length chunk + 2) chunk p h (in_data-le p.state)
    where
      in_data-le : (st : ParseState) → to_do chunk st < 2 * length chunk + 2
      in_data-le part_data = omega arith
      in_data-le request_line = omega arith
      in_data-le headers = omega arith
      in_data-le body = omega arith
      in_data-le boundary_search = omega arith
      in_data-le part_headers = omega arith
      in_data-le done = omega arith
