-- ===== src/Tools/Text.antt =====
-- The functions of src/Tools.cpp on texts: mime types, fields of a form, cookies and session ids.
use linux_cpp_web_server.Common.{
  ℕ, zero, suc, ◌+◌, not, Option, none, some, List, [], ◌∷◌, ◌++◌, ◌==◌, if◌then◌else◌, map, length,
  drop, get_or,
}
use linux_cpp_web_server.Common.Bytes.{Bytes, codes, find, take_while, to_lower}
use linux_cpp_web_server.Common.Maps
use linux_cpp_web_server.Common.Maps.{bytes_key}

abbrev pub mime_types : List (Bytes × Bytes)
mime_types =
    (codes ".html", codes "text/html")
    ∷ (codes ".htm", codes "text/html")
    ∷ (codes ".css", codes "text/css")
    ∷ (codes ".js", codes "application/javascript")
    ∷ (codes ".json", codes "application/json")
    ∷ (codes ".txt", codes "text/plain")
    ∷ (codes ".xml", codes "text/xml")
    ∷ (codes ".csv", codes "text/csv")
    ∷ (codes ".jpg", codes "image/jpeg")
    ∷ (codes ".jpeg", codes "image/jpeg")
    ∷ (codes ".png", codes "image/png")
    ∷ (codes ".gif", codes "image/gif")
    ∷ (codes ".bmp", codes "image/bmp")
    ∷ (codes ".webp", codes "image/webp")
    ∷ (codes ".svg", codes "image/svg+xml")
    ∷ (codes ".ico", codes "image/x-icon")
    ∷ (codes ".pdf", codes "application/pdf")
    ∷ (codes ".doc", codes "application/msword")
    ∷ (
      codes ".docx",
      codes "application/vnd.openxmlformats-officedocument.wordprocessingml.document",
    )
    ∷ (codes ".xls", codes "application/vnd.ms-excel")
    ∷ (codes ".xlsx", codes "application/vnd.openxmlformats-officedocument.spreadsheetml.sheet")
    ∷ (codes ".ppt", codes "application/vnd.ms-powerpoint")
    ∷ (
      codes ".pptx",
      codes "application/vnd.openxmlformats-officedocument.presentationml.presentation",
    )
    ∷ (codes ".mp3", codes "audio/mpeg")
    ∷ (codes ".wav", codes "audio/wav")
    ∷ (codes ".mp4", codes "video/mp4")
    ∷ (codes ".avi", codes "video/x-msvideo")
    ∷ (codes ".zip", codes "application/zip")
    ∷ (codes ".tar", codes "application/x-tar")
    ∷ (codes ".gz", codes "application/gzip")
    ∷ (codes ".rar", codes "application/x-rar-compressed")
    ∷ (codes ".ttf", codes "font/ttf")
    ∷ (codes ".woff", codes "font/woff")
    ∷ (codes ".woff2", codes "font/woff2")
    ∷ (codes ".bin", codes "application/octet-stream")
    ∷ []

-- `substr(find_last_of('.'))`, where there is a dot.
unfoldable pub extension_of : Bytes → Option Bytes
extension_of [] = none
extension_of (c ∷ cs) = elim (extension_of cs) [
  | some ext ↦ some ext
  | none ↦ (if c == b'.' then some (c ∷ cs) else none)
]

abbrev pub default_mime_type : Bytes
default_mime_type = codes "application/octet-stream"

unfoldable pub mime_type_of : Option Bytes → Bytes
mime_type_of none = default_mime_type
mime_type_of (some ext) = elim (Maps.get (map to_lower ext) mime_types) [
  | none ↦ default_mime_type
  | some type ↦ type
]

unfoldable pub get_mime_type : Bytes → Bytes
unfolding mime_type_of extension_of
get_mime_type file_path = mime_type_of (extension_of file_path)

-- The text behind the first `key=`, up to the byte `stop` or to the end.
unfoldable pub value_of : ℕ → Bytes → Bytes → Bytes
value_of stop key text = elim (find (key ++ b'=' ∷ []) text) [
  | none ↦ []
  | some pos ↦ take_while (λ c. not (c == stop)) (drop (pos + length (key ++ b'=' ∷ [])) text)
]

unfoldable pub parse_form_field : Bytes → Bytes → Bytes
unfolding value_of
parse_form_field body key = value_of b'&' key body

unfoldable pub parse_cookie : Bytes → Bytes → Bytes
unfolding value_of
parse_cookie cookie key = value_of b';' key cookie

abbrev pub charset : Bytes
charset = codes "0123456789ABCDEFGHIJKLMNOPQRSTUVWXYZabcdefghijklmnopqrstuvwxyz"

-- `picks` are the draws of `pick(rg)`, each below 62: the first 32.
unfoldable pub session_chars : ℕ → (ℕ → ℕ) → Bytes
session_chars zero picks = []
session_chars (suc n) picks = get_or charset (picks 0) b'0' ∷ session_chars n (λ i. picks (suc i))

unfoldable pub generate_session_id : (ℕ → ℕ) → Bytes
unfolding session_chars
generate_session_id picks = session_chars 32 picks

-- SHA-1 and Base64 are calls of OpenSSL.
unfoldable pub generate_accept_value : (Bytes → Bytes) → (Bytes → Bytes) → Bytes → Bytes
generate_accept_value sha1 base64 key =
    base64 (sha1 (key ++ codes "258EAFA5-E914-47DA-95CA-C5AB0DC85B11"))
