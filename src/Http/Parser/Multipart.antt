-- ===== src/Http/Parser/Multipart.antt =====
-- `handle_multipart`: the parts of a multipart body. `body_chunk` is the bytes that are left of it.
use linux_cpp_web_server.Common.{
  ℕ, zero, suc, ◌+◌, ◌-◌, ◌*◌, Bool, true, not, Option, none, some, List, [], ◌∷◌, ◌++◌, ◌==◌, ltb,
  if◌then◌else◌, length, take, drop,
}
use linux_cpp_web_server.Common.Bytes.{
  Bytes, codes, crlf, is_empty, is_prefix, find, find_char, take_while, split, to_string,
}
use linux_cpp_web_server.Common.Maps
use linux_cpp_web_server.Common.Maps.{bytes_key}
use linux_cpp_web_server.Http.Request.{ends_with}
use linux_cpp_web_server.Http.Parser.State.{
  HttpParser, ParseState, boundary_search, part_headers, part_data, done, ParseResult, complete,
  incomplete, error, is_done, open_file, is_open, write_file, close_stream, content,
}

-- How `handle_multipart` ends: with a result, or with an exception.
pub data Multi : Type 0 where
  finish : ParseResult → Bytes → HttpParser → Multi
  throw : HttpParser → Multi

-- A round of its loop.
pub data Round : Type 0 where
  again : Bytes → HttpParser → Round
  ends : Multi → Round

-- `if (body_chunk.find("\r\n") == 0) body_chunk.remove_prefix(2)`
unfoldable pub skip_crlf : Bytes → Bytes
skip_crlf chunk = if is_prefix crlf chunk then drop 2 chunk else chunk

-- What follows a boundary.
unfoldable pub after_boundary : Bytes → HttpParser → Round
unfolding skip_crlf
after_boundary chunk p =
    if is_prefix (codes "--") chunk
    then ends (finish complete (skip_crlf (drop 2 chunk)) (record p { state = done }))
    else if is_prefix crlf chunk
    then again (drop 2 chunk) (record p { state = part_headers })
    else ends (finish error chunk p)

unfoldable pub search_boundary : Bytes → HttpParser → Round
unfolding after_boundary
search_boundary chunk p = elim (find p.boundary (skip_crlf chunk)) [
  | none ↦ ends (finish incomplete (skip_crlf chunk) p)
  | some pos ↦ after_boundary (drop (pos + length p.boundary) (skip_crlf chunk)) p
]

-- The text up to the next quote, or to the end of the line.
unfoldable pub quoted : Bytes → Bytes
quoted s = take_while (λ c. not (c == b'"')) s

unfoldable pub set_part_name : Bytes → HttpParser → HttpParser
unfolding quoted
set_part_name line p = elim (find (codes "name=" ++ b'"' ∷ []) line) [
  | none ↦ p
  | some pos ↦ record p { part_name = quoted (drop (pos + 6) line) }
]

-- What the loop over the header lines of a part comes to.
pub data PartHeaders : Type 0 where
  parsed : Bytes → HttpParser → PartHeaders
  cannot_open : HttpParser → PartHeaders
  out_of_range : HttpParser → PartHeaders

-- `iss` splits at newlines; a carriage return at the end of a line is dropped.
unfoldable pub drop_cr : Bytes → Bytes
drop_cr line = if ends_with 13 line then take (length line - 1) line else line

module _ (can_open : Bytes → Bool) (time : ℕ → ℕ) where
  unfoldable pub temp_path : Bytes → HttpParser → Bytes
  temp_path filename p =
      p.temp_upload_dir ++ codes "/" ++ to_string (time p.clock_reads) ++ codes "_" ++ filename

  unfoldable pub start_file : Bytes → HttpParser → HttpParser
  unfolding temp_path
  start_file filename p =
      open_file (can_open (temp_path filename p)) (temp_path filename p) (record p {
        current_file = some (record {
          filename = filename;
          content_type = [];
          temp_file_path = temp_path filename p;
          size = 0;
        });
        clock_reads = p.clock_reads + 1;
      })

  -- `filename="`: `false` means that the file could not be opened.
  unfoldable pub set_filename : Bytes → HttpParser → Bool × HttpParser
  unfolding start_file quoted
  set_filename line p = elim (find (codes "filename=" ++ b'"' ∷ []) line) [
    | none ↦ (true, p)
    | some pos ↦ let q = start_file (quoted (drop (pos + 10) line)) p in (is_open q.file_stream, q)
  ]

  -- `header_line.substr(header_line.find(":") + 2)` throws where that lies behind the end.
  unfoldable pub content_type_of : Bytes → Option Bytes
  content_type_of line = elim (find_char b':' line) [
    | none ↦ some (drop 1 line)
    | some pos ↦ if ltb (length line) (pos + 2) then none else some (drop (pos + 2) line)
  ]

  unfoldable pub part_line : Bytes → Bytes → HttpParser → PartHeaders
  unfolding set_filename content_type_of
  part_line line type p =
      let named = set_part_name line p in
      if is_prefix (codes "Content-Disposition:") line
      then (let r = set_filename line named in if r.0 then parsed type r.1 else cannot_open r.1)
      else if is_prefix (codes "Content-Type:") line
      then elim (content_type_of line) [ none ↦ out_of_range p | some t ↦ parsed t p ]
      else parsed type p

  -- The loop over the lines, up to the first empty one.
  unfoldable pub part_lines : List Bytes → Bytes → HttpParser → PartHeaders
  unfolding part_line drop_cr
  part_lines [] type p = parsed type p
  part_lines ([] ∷ lines) type p = parsed type p
  part_lines ((c ∷ cs) ∷ lines) type p = elim (part_line (drop_cr (c ∷ cs)) type p) [
    | parsed t q ↦ part_lines lines t q
    | cannot_open q ↦ cannot_open q
    | out_of_range q ↦ out_of_range q
  ]

  unfoldable pub set_content_type : Bytes → HttpParser → HttpParser
  set_content_type type p = elim p.current_file [
    | none ↦ p
    | some f ↦ record p { current_file = some (record f { content_type = type }) }
  ]

  unfoldable pub after_part_lines : Bytes → PartHeaders → Round
  unfolding set_content_type
  after_part_lines chunk (parsed type p) =
      again chunk (record (set_content_type type p) { state = part_data })
  after_part_lines chunk (cannot_open p) = ends (finish error chunk p)
  after_part_lines chunk (out_of_range p) = ends (throw p)

  unfoldable pub read_part_headers : Bytes → HttpParser → Round
  unfolding part_lines after_part_lines
  read_part_headers chunk p = elim (find (crlf ++ crlf) chunk) [
    | none ↦ ends (finish incomplete chunk p)
    | some pos ↦ after_part_lines (drop (pos + 4) chunk) (
        part_lines (split (take pos chunk) 10) (codes "text/plain")
          (record p { current_file = none; part_name = [] }))
  ]

  -- A piece of the part's data goes to the file, or to the form field of the part's name.
  unfoldable pub keep_data : Bytes → HttpParser → HttpParser
  keep_data part p = elim p.current_file [
    | some f ↦ record (write_file part p) {
      current_file = some (record f { size = f.size + length part });
    }
    | none ↦ if is_empty p.part_name then p else record p {
      request = record p.request {
        form_fields =
            Maps.put p.part_name (content (Maps.get p.part_name p.request.form_fields) ++ part)
              p.request.form_fields;
      };
    }
  ]

  unfoldable pub end_part : HttpParser → HttpParser
  end_part p = elim p.current_file [
    | none ↦ record p { state = boundary_search }
    | some f ↦ record p {
      state = boundary_search;
      file_stream = close_stream p.file_stream;
      request = record p.request {
        uploaded_files = Maps.put p.part_name f p.request.uploaded_files;
      };
      current_file = none;
    }
  ]

  unfoldable pub read_part_data : Bytes → HttpParser → Round
  unfolding keep_data end_part
  read_part_data chunk p = elim (find (crlf ++ p.boundary) chunk) [
    | none ↦ ends (finish incomplete [] (keep_data chunk p))
    | some pos ↦ again (drop pos chunk) (end_part (keep_data (take pos chunk) p))
  ]

  unfoldable pub multipart_step : ParseState → Bytes → HttpParser → Round
  multipart_step boundary_search chunk p = search_boundary chunk p
  multipart_step part_headers chunk p = read_part_headers chunk p
  multipart_step part_data chunk p = read_part_data chunk p
  multipart_step _ chunk p = again chunk p

  unfoldable pub multipart_loop : ℕ → Bytes → HttpParser → Option Multi
  multipart_loop zero chunk p = none
  multipart_loop (suc fuel) [] p =
      some (finish (if is_done p.state then complete else incomplete) [] p)
  multipart_loop (suc fuel) (c ∷ cs) p = elim (multipart_step p.state (c ∷ cs) p) [
    | ends m ↦ some m
    | again chunk q ↦ multipart_loop fuel chunk q
  ]

  -- Each round but one that ends a part takes bytes, and two such rounds do not follow one another.
  unfoldable pub handle_multipart : Bytes → HttpParser → Option Multi
  unfolding multipart_loop
  handle_multipart chunk p = multipart_loop (2 * length chunk + 2) chunk p
