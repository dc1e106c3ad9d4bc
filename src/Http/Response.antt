-- ===== src/Http/Response.antt =====
-- src/http/HttpResponse.cpp and include/http/HttpResponse.h.
use linux_cpp_web_server.Common.{ℕ, List, [], ◌∷◌, ◌++◌, ◌==◌, if◌then◌else◌, length}
use linux_cpp_web_server.Common.Bytes.{Bytes, codes, crlf, to_string}
use linux_cpp_web_server.Common.Maps
use linux_cpp_web_server.Common.Maps.{bytes_key}

pub record HttpResponse : Type 0 where
  pub status_code : ℕ
  pub status_text : Bytes
  pub headers : List (Bytes × Bytes)
  pub body : Bytes
  pub file_path : Bytes
  pub file_size : ℕ

unfoldable pub init : HttpResponse
init = record {
  status_code = 200;
  status_text = codes "OK";
  headers = [];
  body = [];
  file_path = [];
  file_size = 0;
}

unfoldable pub set_header : Bytes → Bytes → HttpResponse → HttpResponse
set_header key value r = record r { headers = Maps.put key value r.headers }

unfoldable pub with_status : ℕ → Bytes → HttpResponse → HttpResponse
with_status code text r = record r { status_code = code; status_text = text }

unfoldable pub with_body : Bytes → HttpResponse → HttpResponse
with_body b r = record r {
  body = b;
  headers = Maps.put (codes "Content-Length") (to_string (length b)) r.headers;
}

unfoldable pub with_header : Bytes → Bytes → HttpResponse → HttpResponse
with_header key value r = record r { headers = Maps.put key value r.headers }

unfoldable pub header_lines : List (Bytes × Bytes) → Bytes
header_lines [] = []
header_lines ((k, v) ∷ hs) = k ++ codes ": " ++ v ++ crlf ++ header_lines hs

unfoldable pub status_line : HttpResponse → Bytes
status_line r = codes "HTTP/1.1 " ++ to_string r.status_code ++ codes " " ++ r.status_text ++ crlf

unfoldable pub to_bytes : HttpResponse → Bytes
unfolding status_line header_lines
to_bytes r = status_line r ++ header_lines r.headers ++ crlf ++ r.body

abbrev pub error_400_form : Bytes
error_400_form =
    codes "Your request has bad syntax or is inherently impossible to satisfy." ++ 10 ∷ []

abbrev pub error_403_form : Bytes
error_403_form = codes "You do not have permission to get file from this server." ++ 10 ∷ []

abbrev pub error_404_form : Bytes
error_404_form = codes "The requested file was not found on this server." ++ 10 ∷ []

abbrev pub error_500_form : Bytes
error_500_form = codes "There was an unusual problem serving the requested file." ++ 10 ∷ []

-- The switch of `make_error`: any other code is answered as 500.
unfoldable pub error_page : ℕ → HttpResponse → HttpResponse
unfolding with_status with_body
error_page code r =
    if code == 400
    then with_body error_400_form (with_status 400 (codes "Bad Request") r)
    else if code == 403
    then with_body error_403_form (with_status 403 (codes "Forbidden") r)
    else if code == 404
    then with_body error_404_form (with_status 404 (codes "Not Found") r)
    else with_body error_500_form (with_status 500 (codes "Internal Error") r)

unfoldable pub make_error : ℕ → HttpResponse
unfolding error_page set_header init
make_error code =
    set_header (codes "Connection") (codes "close")
      (set_header (codes "Content-Type") (codes "text/html; charset=utf-8") (error_page code init))
