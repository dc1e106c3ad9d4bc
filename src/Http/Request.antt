-- ===== src/Http/Request.antt =====
-- src/http/HttpRequest.cpp and include/http/HttpRequest.h. The maps are association lists, in an order
-- in which the container may iterate.
use linux_cpp_web_server.Common.{
  ℕ, ◌+◌, ◌-◌, Bool, true, false, not, ◌&&◌, Option, none, some, List, [], ◌∷◌, ◌==◌, if◌then◌else◌,
  length, take, drop,
}
use linux_cpp_web_server.Common.Bytes.{
  Bytes, codes, bytes_eq, same_letters, contains, find, take_while,
}
use linux_cpp_web_server.Common.Maps
use linux_cpp_web_server.Common.Maps.{bytes_key}

pub record UploadedFile : Type 0 where
  pub filename : Bytes
  pub content_type : Bytes
  pub temp_file_path : Bytes
  pub size : ℕ

pub data HttpMethod : Type 0 where
  get post head unknown : HttpMethod

pub record HttpRequest : Type 0 where
  pub method : HttpMethod
  pub path : Bytes
  pub version : Bytes
  pub headers : List (Bytes × Bytes)
  pub raw_body : Bytes
  pub form_fields : List (Bytes × Bytes)
  pub uploaded_files : List (Bytes × UploadedFile)

unfoldable pub init : HttpRequest
init = record {
  method = unknown;
  path = [];
  version = [];
  headers = [];
  raw_body = [];
  form_fields = [];
  uploaded_files = [];
}

-- The loop of `get_header`: the first key in the map's order that differs at most in case.
unfoldable pub find_header : Bytes → List (Bytes × Bytes) → Option Bytes
find_header key [] = none
find_header key ((k, v) ∷ hs) =
    let later = find_header key hs in if same_letters k key then some v else later

unfoldable pub get_header : Bytes → HttpRequest → Option Bytes
unfolding find_header
get_header key r = find_header key r.headers

-- `h && h->find(text) != npos`
unfoldable pub mentions : Bytes → Option Bytes → Bool
mentions text none = false
mentions text (some v) = contains text v

pub is_json : HttpRequest → Bool
unfolding get_header mentions
is_json r = mentions (codes "application/json") (get_header (codes "Content-Type") r)

unfoldable pub is_multipart : HttpRequest → Bool
unfolding get_header mentions
is_multipart r = mentions (codes "multipart/form-data") (get_header (codes "Content-Type") r)

pub ends_with : ℕ → Bytes → Bool
ends_with c [] = false
ends_with c (x ∷ []) = x == c
ends_with c (x ∷ y ∷ s) = ends_with c (y ∷ s)

pub starts_with : ℕ → Bytes → Bool
starts_with c [] = false
starts_with c (x ∷ s) = x == c

-- `substr(1, size - 2)` where both ends are quotes; of a lone quote it leaves nothing.
pub unquote : Bytes → Bytes
unfolding starts_with ends_with
unquote s = if starts_with b'"' s && ends_with b'"' s then take (length s - 2) (drop 1 s) else s

pub boundary_in : Bytes → Bytes
unfolding unquote
boundary_in value = elim (find (codes "boundary=") value) [
  | none ↦ []
  | some pos ↦ unquote (drop (pos + 9) value)
]

pub get_boundary : HttpRequest → Bytes
unfolding boundary_in get_header
get_boundary r = elim (get_header (codes "Content-Type") r) [
  | none ↦ []
  | some value ↦ boundary_in value
]

-- `strcasecmp` on `c_str()`: the text up to a NUL byte.
unfoldable pub names_websocket : Bytes → Bool
names_websocket v = same_letters (take_while (λ c. not (c == 0)) v) (codes "websocket")

unfoldable pub is_get : HttpMethod → Bool
is_get get = true
is_get _ = false

unfoldable pub holds : (Bytes → Bool) → Option Bytes → Bool
holds test none = false
holds test (some v) = test v

-- The three headers are looked up by their exact spelling.
unfoldable pub is_websocket_upgrade : HttpRequest → Bool
unfolding is_get holds names_websocket
is_websocket_upgrade r =
    is_get r.method
    && holds names_websocket (Maps.get (codes "Upgrade") r.headers)
    && holds (λ v. true) (Maps.get (codes "Sec-WebSocket-Key") r.headers)
    && holds (λ v. bytes_eq v (codes "13")) (Maps.get (codes "Sec-WebSocket-Version") r.headers)
