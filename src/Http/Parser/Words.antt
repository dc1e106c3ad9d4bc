-- ===== src/Http/Parser/Words.antt =====
-- What the parser makes of a printed request line and of printed header lines.
use linux_cpp_web_server.Common.{
  ℕ, ◌+◌, ◌≡◌, ◌≢◌, refl, ap, sym, ◌∙◌, true, false, not, some, [], ◌∷◌, ◌++◌, append_assoc,
  append-nil, length, drop, drop_at, take_at, All, All-append, length-append, arith,
}
use linux_cpp_web_server.Common.Bytes.{Bytes, find_char, find_if, drop_while, take_while, is_space}
use linux_cpp_web_server.Common.Bytes.Search.{NoCr}
use linux_cpp_web_server.Common.Maps
use linux_cpp_web_server.Common.Maps.{bytes_key}
use linux_cpp_web_server.Http.Request.{HttpRequest}
use linux_cpp_web_server.Http.Parser.State.{HttpParser}
use linux_cpp_web_server.Http.Parser.Lines.{
  next_word, method_of, parse_request_line, trim, parse_header_line, header_line,
}

abbrev pub NoSpace : Bytes → Type 0
NoSpace w = All (λ c. is_space c ≡ false) w

-- A word of a request line.
pub record IsWord (w : Bytes) : Type 0 where
  pub full : w ≢ []
  pub solid : NoSpace w

-- What may follow a word.
pub data Behind : Bytes → Type 0 where
  at_end : Behind []
  at_space : (s : Bytes) → Behind (b' ' ∷ s)

take_while-word :
    (w s : Bytes) → NoSpace w → Behind s → take_while (λ x. not (is_space x)) (w ++ s) ≡ w
unfolding take_while
take_while-word [] _ h at_end = refl
take_while-word [] _ h (at_space s) = refl
take_while-word (x ∷ w) s h b = rw (h.0) (ap (◌∷◌ x) (take_while-word w s h.1 b))

drop_while-word :
    (w s : Bytes) → NoSpace w → Behind s → drop_while (λ x. not (is_space x)) (w ++ s) ≡ s
unfolding drop_while
drop_while-word [] _ h at_end = refl
drop_while-word [] _ h (at_space s) = refl
drop_while-word (x ∷ w) s h b = rw (h.0) (drop_while-word w s h.1 b)

drop_while-space : (w s : Bytes) → w ≢ [] → NoSpace w → drop_while is_space (w ++ s) ≡ w ++ s
unfolding drop_while
drop_while-space [] s full h = absurd (full refl)
drop_while-space (x ∷ w) s full h = rw (h.0) refl

next_word-word : (w s : Bytes) → IsWord w → Behind s → next_word (w ++ s) ≡ some (w, s)
unfolding next_word
next_word-word [] s h b = absurd (h.full refl)
next_word-word (x ∷ w) s h b =
    rw
      (
        next_word,
        drop_while-space (x ∷ w) s h.full h.solid,
        take_while-word (x ∷ w) s h.solid b,
        drop_while-word (x ∷ w) s h.solid b,
      )
      refl

next_word-space : (s : Bytes) → next_word (b' ' ∷ s) ≡ next_word s
unfolding next_word drop_while
next_word-space s = refl

-- A request line as a client prints it.
abbrev pub print_line : Bytes → Bytes → Bytes → Bytes
print_line method path version = method ++ (b' ' ∷ path ++ (b' ' ∷ version))

pub parse_request_line-print :
    (method path version : Bytes) (r : HttpRequest)
    → IsWord method
    → IsWord path
    → IsWord version
    → parse_request_line (print_line method path version) r
      ≡ some (record r { method = method_of method; path = path; version = version })
unfolding parse_request_line
parse_request_line-print method path version r hm hp hv =
    let last : next_word version ≡ some (version, []) =
      ap next_word (sym (append-nil version)) ∙ next_word-word version [] hv at_end in
    rw
      (
        parse_request_line,
        next_word-word method (b' ' ∷ path ++ (b' ' ∷ version)) hm
            (at_space (path ++ (b' ' ∷ version))),
        next_word-space (path ++ (b' ' ∷ version)),
        next_word-word path (b' ' ∷ version) hp (at_space version),
        next_word-space version,
        last,
      )
      refl

-- A header field that a client may send: a name without a colon, no line break, no blanks at the ends.
pub record IsField (f : Bytes × Bytes) : Type 0 where
  pub name_plain : All (λ c. c ≢ b':') f.0
  pub name_trimmed : trim f.0 ≡ f.0
  pub name_one_line : NoCr f.0
  pub value_trimmed : trim f.1 ≡ f.1
  pub value_one_line : NoCr f.1

abbrev pub print_field : Bytes × Bytes → Bytes
print_field (name, value) = name ++ (b':' ∷ b' ' ∷ value)

find_char-append :
    (c : ℕ) (s rest : Bytes) → All (λ x. x ≢ c) s → find_char c (s ++ (c ∷ rest)) ≡ some (length s)
unfolding find_if
find_char-append c [] rest h = ground arith
find_char-append c (x ∷ s) rest h = ground (arith, h.0, find_char-append c s rest h.1)

trim-blank : (s : Bytes) → trim (b' ' ∷ s) ≡ trim s
unfolding trim drop_while
trim-blank s = refl

abbrev pub put_field : Bytes × Bytes → HttpRequest → HttpRequest
put_field (name, value) r = record r { headers = Maps.put name value r.headers }

parse_header_line-print :
    (f : Bytes × Bytes) (r : HttpRequest)
    → IsField f
    → parse_header_line (print_field f) r ≡ some (put_field f r)
unfolding parse_header_line
parse_header_line-print (name, value) r h =
    let behind : drop (length name + 1) (name ++ (b':' ∷ b' ' ∷ value)) ≡ b' ' ∷ value =
      ap (drop (length name + 1)) (sym (append_assoc name (b':' ∷ []) (b' ' ∷ value)))
      ∙ drop_at (length name + 1) (name ++ b':' ∷ []) (b' ' ∷ value)
          (length-append name (b':' ∷ [])) in
    rw
      (
        parse_header_line,
        find_char-append b':' name (b' ' ∷ value) h.name_plain,
        take_at (length name) name (b':' ∷ b' ' ∷ value) refl,
        behind,
        trim-blank value,
        h.name_trimmed,
        h.value_trimmed,
      )
      refl

pub header_line-print :
    (f : Bytes × Bytes) (p : HttpParser)
    → IsField f
    → header_line (print_field f) p ≡ (true, record p { request = put_field f p.request })
unfolding header_line
header_line-print ([], value) p h =
    rw (header_line, parse_header_line-print ([], value) p.request h) refl
header_line-print (c ∷ name, value) p h =
    rw (header_line, parse_header_line-print (c ∷ name, value) p.request h) refl

pub print_field-NoCr : (f : Bytes × Bytes) → IsField f → NoCr (print_field f)
print_field-NoCr (name, value) h =
    All-append (λ c. c ≢ 13) name (b':' ∷ b' ' ∷ value) h.name_one_line
      ((λ e. omega arith), ((λ e. omega arith), h.value_one_line))
