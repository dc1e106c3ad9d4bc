-- ===== src/Handler/Static.antt =====
-- `handle_static_file` of src/Handler.cpp. The file system is a parameter: `exists` returns `none` where
-- `std::filesystem::exists` throws, as for a name that is too long, and `canonical` where it throws.
use linux_cpp_web_server.Common.{
  ℕ, ◌*◌, Bool, true, false, ◌&&◌, ◌||◌, Option, none, some, ◌++◌, if◌then◌else◌, ltb,
}
use linux_cpp_web_server.Common.Bytes.{
  Bytes, codes, is_empty, is_prefix, bytes_eq, find_char, to_string,
}
use linux_cpp_web_server.Handler.{RequestContext, Reply, replied, escaped}
use linux_cpp_web_server.Http.Request.{HttpRequest}
use linux_cpp_web_server.Tools.Text.{get_mime_type}
use linux_cpp_web_server.Http.Response.{HttpResponse, set_header, make_error}
use linux_cpp_web_server.Http.Response

-- What the file system says of a path.
pub record FileSystem : Type 0 where
  pub exists : Bytes → Option Bool
  pub canonical : Bytes → Option Bytes
  pub is_regular_file : Bytes → Bool
  pub open_file : Bytes → Option Bytes
  pub file_size : Bytes → Option ℕ

pub data Served : Type 0 where
  answered : HttpResponse → Served
  uncaught : Served

-- The root is `/index.html`.
unfoldable pub index_path : Bytes → Bytes
index_path path = if bytes_eq path (codes "/") || is_empty path then codes "/index.html" else path

unfoldable pub has_dot : Bytes → Bool
has_dot path = elim (find_char b'.' path) [ none ↦ false | some i ↦ true ]

unfoldable pub is_cached_long : Bytes → Bool
is_cached_long type =
    is_prefix (codes "image/") type
    || is_prefix (codes "font/") type
    || bytes_eq type (codes "text/css")
    || bytes_eq type (codes "application/javascript")

unfoldable pub cache_control : Bytes → Bytes
unfolding is_cached_long
cache_control type =
    if is_cached_long type then codes "public, max-age=3600" else codes "public, max-age=300"

unfoldable pub file_headers : Bytes → ℕ → HttpResponse
file_headers file size = set_header (codes "Cache-Control") (cache_control (get_mime_type file)) (
    set_header (codes "Content-Length") (to_string size)
      (set_header (codes "Content-Type") (get_mime_type file) Response.init))

-- A file below 1 MB is the body; a larger one is named, for `sendfile`.
unfoldable pub file_response : Bytes → Bytes → ℕ → HttpResponse
file_response file content size =
    if ltb size (1024 * 1024)
    then record (file_headers file size) { body = content }
    else record (file_headers file size) { file_path = file }

unfoldable pub reply : {D : Type 0} → Served → RequestContext D → Reply D
reply (answered r) ctx = replied r ctx
reply uncaught ctx = escaped

module _ (fs : FileSystem) where
  unfoldable pub serve_opened : Bytes → Bytes → HttpResponse
  serve_opened file content = elim (fs.file_size file) [
    | none ↦ make_error 500
    | some size ↦ file_response file content size
  ]

  unfoldable pub serve_regular : Bytes → HttpResponse
  serve_regular file = elim (fs.open_file file) [
    | none ↦ make_error 403
    | some content ↦ serve_opened file content
  ]

  -- `!exists(p) || !is_regular_file(p)`
  unfoldable pub serve_canonical : Bytes → Served
  serve_canonical file = elim (fs.exists file) [
    | none ↦ uncaught
    | some there ↦
        answered (if there && fs.is_regular_file file then serve_regular file else make_error 404)
  ]

  unfoldable pub serve_file : Bytes → Bytes → Served
  serve_file canonical_doc_root file =
      if is_prefix canonical_doc_root file then serve_canonical file else answered (make_error 403)

  unfoldable pub serve_path : Bytes → Bytes → Served
  serve_path doc_root request_path = elim (fs.canonical doc_root) [
    | none ↦ answered (make_error 404)
    | some root ↦ elim (fs.canonical (doc_root ++ request_path)) [
      | none ↦ answered (make_error 404)
      | some file ↦ serve_file root file
    ]
  ]

  -- A path without a dot gets `.html`, if there is such a file.
  unfoldable pub serve_undotted : Bytes → Bytes → Served
  serve_undotted doc_root path = elim (fs.exists (doc_root ++ (path ++ codes ".html"))) [
    | none ↦ uncaught
    | some true ↦ serve_path doc_root (path ++ codes ".html")
    | some false ↦ serve_path doc_root path
  ]

  unfoldable pub serve : Bytes → Bytes → Served
  serve doc_root path =
      if has_dot path || bytes_eq path (codes "/")
      then serve_path doc_root path
      else serve_undotted doc_root path

  unfoldable pub handle_static_file : {D : Type 0} → HttpRequest → RequestContext D → Reply D
  handle_static_file req ctx = reply (serve ctx.doc_root (index_path req.path)) ctx
