-- ===== src/Handler/Inside.antt =====
-- What `handle_static_file` of src/Handler.cpp sends, and from where.
use linux_cpp_web_server.Common.{
  ℕ, ◌≡◌, refl, true, false, ◌&&◌, ◌||◌, some, [], ◌++◌, inl, inr, ◌⊎◌, Bool-cases, Option-cases,
  ltb, ◌*◌, arith,
}
use mathlib.Core.Path.{subst}
use linux_cpp_web_server.Common.Bytes.{Bytes, codes, is_prefix, bytes_eq}
use linux_cpp_web_server.Handler.{RequestContext, replied}
use linux_cpp_web_server.Handler.Static.{
  FileSystem, Served, answered, uncaught, index_path, has_dot, file_headers, file_response,
  serve_opened, serve_regular, serve_canonical, serve_file, serve_path, serve_undotted, serve,
  reply, handle_static_file,
}
use linux_cpp_web_server.Http.Request.{HttpRequest}
use linux_cpp_web_server.Http.Response.{
  HttpResponse, make_error, error_page, with_status, with_body, set_header,
}
use linux_cpp_web_server.Http.Response

-- The content of a file as the body, or its path for `sendfile`.
abbrev pub Sends : Bytes → Bytes → HttpResponse → Type 0
Sends file content r =
    ((r.body ≡ content) × (r.file_path ≡ [])) ⊎ ((r.body ≡ []) × (r.file_path ≡ file))

abbrev pub IsOk : HttpResponse → Type 0
IsOk r = r.status_code ≡ 200

forbidden : IsOk (make_error 403) → ⊥
unfolding make_error error_page with_status with_body set_header
forbidden h = omega arith

pub not_found : IsOk (make_error 404) → ⊥
unfolding make_error error_page with_status with_body set_header
not_found h = omega arith

broken : IsOk (make_error 500) → ⊥
unfolding make_error error_page with_status with_body set_header
broken h = omega arith

file_response-Sends :
    (file content : Bytes) (size : ℕ) → Sends file content (file_response file content size)
unfolding file_response file_headers set_header Response.init
file_response-Sends file content size = elim (Bool-cases (ltb size (1024 * 1024))) [
  | inl small ↦ inl (rw (file_response, small) refl, rw (file_response, small) refl)
  | inr large ↦ inr (rw (file_response, large) refl, rw (file_response, large) refl)
]

module _ (fs : FileSystem) where
  serve_regular-Sends :
      (file : Bytes)
      → IsOk (serve_regular fs file)
      → (content : Bytes) × (fs.open_file file ≡ some content)
        × Sends file content (serve_regular fs file)
  unfolding serve_regular serve_opened
  serve_regular-Sends file ok = elim (Option-cases (fs.open_file file)) [
    | inl e ↦ absurd (forbidden (rw (serve_regular, e) at ok))
    | inr (content, e) ↦ elim (Option-cases (fs.file_size file)) [
      | inl no_size ↦ absurd (broken (rw (serve_regular, e, serve_opened, no_size) at ok))
      | inr (size, has) ↦ (
        content,
        e,
        rw (serve_regular, e, serve_opened, has) (file_response-Sends file content size),
      )
    ]
  ]

  -- A response of the handler that says 200, of a file below the root.
  pub record Inside (doc_root : Bytes) (r : HttpResponse) : Type 0 where
    pub path : Bytes
    pub root : Bytes
    pub file : Bytes
    pub content : Bytes
    pub root_resolved : fs.canonical doc_root ≡ some root
    pub file_resolved : fs.canonical (doc_root ++ path) ≡ some file
    pub below : is_prefix root file ≡ true
    pub regular : fs.is_regular_file file ≡ true
    pub opened : fs.open_file file ≡ some content
    pub sent : Sends file content r

  abbrev AnswersInside : Bytes → Served → Type 0
  AnswersInside doc_root uncaught = Unit
  AnswersInside doc_root (answered r) = IsOk r → Inside doc_root r

  serve_path-Inside : (doc_root path : Bytes) → AnswersInside doc_root (serve_path fs doc_root path)
  unfolding serve_path serve_file serve_canonical
  serve_path-Inside doc_root path = elim (Option-cases (fs.canonical doc_root)) [
    | inl e ↦ rw (serve_path, e) (λ ok. absurd (not_found ok))
    | inr (root, e) ↦ elim (Option-cases (fs.canonical (doc_root ++ path))) [
      | inl no_file ↦ rw (serve_path, e, no_file) (λ ok. absurd (not_found ok))
      | inr (file, has) ↦ elim (Bool-cases (is_prefix root file)) [
        | inr outside ↦ rw (serve_path, e, has, serve_file, outside) (λ ok. absurd (forbidden ok))
        | inl below ↦
            rw (serve_path, e, has, serve_file, below)
              (canonical-Inside root file path (e, has, below))
      ]
    ]
  ]
    where
      canonical-Inside :
          (root file path : Bytes)
          → (fs.canonical doc_root ≡ some root)
            × (fs.canonical (doc_root ++ path) ≡ some file)
            × (is_prefix root file ≡ true)
          → AnswersInside doc_root (serve_canonical fs file)
      canonical-Inside root file path (e, has, below) = elim (Option-cases (fs.exists file)) [
        | inl raised ↦ rw (serve_canonical, raised) tt
        | inr (there, found) ↦ elim (Bool-cases (there && fs.is_regular_file file)) [
          | inr gone ↦ rw (serve_canonical, found, gone) (λ ok. absurd (not_found ok))
          | inl regular ↦
              rw (serve_canonical, found, regular)
                (λ ok.
                  let (content, opened, sent) = serve_regular-Sends file ok in
                  record {
                    path = path;
                    root = root;
                    file = file;
                    content = content;
                    root_resolved = e;
                    file_resolved = has;
                    below = below;
                    regular = ground arith;
                    opened = opened;
                    sent = sent;
                  })
        ]
      ]

  serve-Inside : (doc_root path : Bytes) → AnswersInside doc_root (serve fs doc_root path)
  unfolding serve serve_undotted
  serve-Inside doc_root path = elim (Bool-cases (has_dot path || bytes_eq path (codes "/"))) [
    | inl dotted ↦ rw (serve, dotted) (serve_path-Inside doc_root path)
    | inr plain ↦ elim (Option-cases (fs.exists (doc_root ++ (path ++ codes ".html")))) [
      | inl raised ↦ rw (serve, plain, serve_undotted, raised) tt
      | inr (true, found) ↦
          rw (serve, plain, serve_undotted, found)
            (serve_path-Inside doc_root (path ++ codes ".html"))
      | inr (false, found) ↦
          rw (serve, plain, serve_undotted, found) (serve_path-Inside doc_root path)
    ]
  ]

  -- A response 200 of the handler of static files carries the content of a regular file, or its path,
  -- and the resolved path of the file begins with the resolved path of the document root.
  pub handle_static_file-Inside :
      {D : Type 0} (req : HttpRequest) (ctx ctx' : RequestContext D) (r : HttpResponse)
      → handle_static_file fs req ctx ≡ replied r ctx'
      → r.status_code ≡ 200
      → Inside ctx.doc_root r
  unfolding handle_static_file reply
  handle_static_file-Inside req ctx ctx' r e ok =
      from_served (serve fs ctx.doc_root (index_path req.path))
        (serve-Inside ctx.doc_root (index_path req.path)) e
    where
      from_served :
          (s : Served)
          → AnswersInside ctx.doc_root s
          → reply s ctx ≡ replied r ctx'
          → Inside ctx.doc_root r
      from_served uncaught h q = cc
      from_served (answered a) h q =
          let same : a ≡ r = cc q in subst (Inside ctx.doc_root) same (h (rw same ok))
