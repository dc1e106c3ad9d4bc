-- ===== src/Handler/Cookies.antt =====
-- The cookie that carries a session in src/Handler.cpp: its characters, and how it is found again.
use linux_cpp_web_server.Common.{
  ℕ, zero, suc, ◌+◌, ◌≡◌, ◌≢◌, refl, ap, ◌∙◌, Bool, true, false, not, some, [], ◌∷◌, ◌++◌, ◌==◌,
  if◌then◌else◌, length, All, arith, get_or, drop_at,
}
use linux_cpp_web_server.Common.Bytes.{Bytes, codes, find, is_empty, take_while}
use linux_cpp_web_server.Common.Bytes.Search.{is_prefix-append}
use linux_cpp_web_server.Common.Maps.{bytes_key}
use linux_cpp_web_server.Tools.Text.{
  value_of, parse_cookie, charset, session_chars, generate_session_id,
}
use linux_cpp_web_server.Http.Request.{HttpRequest, get_header}
use linux_cpp_web_server.Handler.{session_of}

-- What stands behind a value: nothing, or the byte that ends it and more.
abbrev pub Ended : ℕ → Bytes → Type 0
Ended stop [] = Unit
Ended stop (c ∷ rest) = c ≡ stop

take_while-Ended :
    (stop : ℕ) (v rest : Bytes)
    → All (λ c. c ≢ stop) v
    → Ended stop rest
    → take_while (λ c. not (c == stop)) (v ++ rest) ≡ v
unfolding take_while
take_while-Ended stop [] [] h e = refl
take_while-Ended stop [] (c ∷ rest) h e = ground arith
take_while-Ended stop (x ∷ v) rest h e = ground (arith, take_while-Ended stop v rest h.1 e)

find-front : (p s : Bytes) → find p (p ++ s) ≡ some 0
unfolding find
find-front [] [] = refl
find-front [] (x ∷ s) = refl
find-front (c ∷ p) s = ground (arith, is_prefix-append (c ∷ p) s)

-- The value of the first pair of a text `key=value;...` is found.
value_of-front :
    (stop : ℕ) (key v rest : Bytes)
    → All (λ c. c ≢ stop) v
    → Ended stop rest
    → value_of stop key ((key ++ b'=' ∷ []) ++ (v ++ rest)) ≡ v
unfolding value_of
value_of-front stop key v rest h e =
    rw (value_of, find-front (key ++ b'=' ∷ []) (v ++ rest))
      (ap (take_while (λ c. not (c == stop)))
          (drop_at (0 + length (key ++ b'=' ∷ [])) (key ++ b'=' ∷ []) (v ++ rest) (omega arith))
        ∙ take_while-Ended stop v rest h e)

get_or-charset :
    (chars : Bytes) (i d : ℕ) → All (λ c. c ≢ 59) chars → d ≢ 59 → get_or chars i d ≢ 59
get_or-charset [] i d h hd = hd
get_or-charset (c ∷ cs) zero d h hd = h.0
get_or-charset (c ∷ cs) (suc i) d h hd = get_or-charset cs i d h.1 hd

all_of : (chars : Bytes) → Bool
all_of [] = true
all_of (c ∷ cs) = if c == 59 then false else all_of cs

all_of_sound : (chars : Bytes) → all_of chars ≡ true → All (λ c. c ≢ 59) chars
unfolding all_of
all_of_sound [] h = tt
all_of_sound (c ∷ cs) h = (ground arith, all_of_sound cs (ground arith))

session_chars-plain : (n : ℕ) (picks : ℕ → ℕ) → All (λ c. c ≢ 59) (session_chars n picks)
unfolding session_chars all_of
session_chars-plain zero picks = tt
session_chars-plain (suc n) picks = (
  get_or-charset charset (picks 0) 48 (all_of_sound charset refl) (omega arith),
  session_chars-plain n (λ i. picks (suc i)),
)

generate_session_id-plain : (picks : ℕ → ℕ) → All (λ c. c ≢ 59) (generate_session_id picks)
unfolding generate_session_id
generate_session_id-plain picks = session_chars-plain 32 picks

pub generate_session_id-full : (picks : ℕ → ℕ) → is_empty (generate_session_id picks) ≡ false
unfolding generate_session_id session_chars is_empty
generate_session_id-full picks = refl

-- The `Cookie` header that carries a session: its pair, and perhaps others behind it.
abbrev pub cookie_header : Bytes → Bytes → Bytes
cookie_header session_id rest = (codes "sessionId" ++ b'=' ∷ []) ++ (session_id ++ rest)

pub record Carries (session_id : Bytes) (req : HttpRequest) : Type 0 where
  pub rest : Bytes
  pub ended : Ended 59 rest
  pub cookie : get_header (codes "Cookie") req ≡ some (cookie_header session_id rest)

pub session_of-Carries :
    (picks : ℕ → ℕ) (req : HttpRequest)
    → Carries (generate_session_id picks) req
    → session_of req ≡ generate_session_id picks
unfolding session_of parse_cookie
session_of-Carries picks req h =
    rw (session_of, h.cookie)
      (value_of-front 59 (codes "sessionId") (generate_session_id picks) h.rest
        (generate_session_id-plain picks) h.ended)
