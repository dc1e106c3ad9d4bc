-- ===== src/Handler/Total.antt =====
-- `handle_static_file` of src/Handler.cpp: a response, or an exception that `std::filesystem::exists` threw.
use linux_cpp_web_server.Common.{
  ◌≡◌, ◌⊎◌, refl, true, false, ◌||◌, none, ◌++◌, inl, inr, Bool-cases, Option-cases,
}
use linux_cpp_web_server.Common.Bytes.{Bytes, codes, is_prefix, bytes_eq}
use linux_cpp_web_server.Http.Request.{HttpRequest}
use linux_cpp_web_server.Handler.{RequestContext, Reply, replied, blocked, escaped}
use linux_cpp_web_server.Http.Response.{HttpResponse}
use linux_cpp_web_server.Handler.Replies.{IsAnswer}
use linux_cpp_web_server.Handler.Static.{
  FileSystem, Served, answered, uncaught, index_path, has_dot, serve_canonical, serve_file,
  serve_path, serve_undotted, serve, reply, handle_static_file,
}

-- `exists` throws on some path.
abbrev pub Throws : FileSystem → Type 0
Throws fs = (path : Bytes) × (fs.exists path ≡ none)

abbrev Explained : FileSystem → Served → Type 0
Explained fs (answered r) = Unit
Explained fs uncaught = Throws fs

module _ (fs : FileSystem) where
  serve_path-Explained : (doc_root path : Bytes) → Explained fs (serve_path fs doc_root path)
  unfolding serve_path serve_file serve_canonical
  serve_path-Explained doc_root path = elim (Option-cases (fs.canonical doc_root)) [
    | inl e ↦ rw (serve_path, e) tt
    | inr (root, e) ↦ elim (Option-cases (fs.canonical (doc_root ++ path))) [
      | inl no_file ↦ rw (serve_path, e, no_file) tt
      | inr (file, has) ↦ elim (Bool-cases (is_prefix root file)) [
        | inr outside ↦ rw (serve_path, e, has, serve_file, outside) tt
        | inl below ↦ elim (Option-cases (fs.exists file)) [
          | inl raised ↦
              rw (serve_path, e, has, serve_file, below, serve_canonical, raised) (file, raised)
          | inr (there, found) ↦
              rw (serve_path, e, has, serve_file, below, serve_canonical, found) tt
        ]
      ]
    ]
  ]

  serve-Explained : (doc_root path : Bytes) → Explained fs (serve fs doc_root path)
  unfolding serve serve_undotted
  serve-Explained doc_root path = elim (Bool-cases (has_dot path || bytes_eq path (codes "/"))) [
    | inl dotted ↦ rw (serve, dotted) (serve_path-Explained doc_root path)
    | inr plain ↦ elim (Option-cases (fs.exists (doc_root ++ (path ++ codes ".html")))) [
      | inl raised ↦ rw (serve, plain, serve_undotted, raised) (_, raised)
      | inr (true, found) ↦
          rw (serve, plain, serve_undotted, found)
            (serve_path-Explained doc_root (path ++ codes ".html"))
      | inr (false, found) ↦
          rw (serve, plain, serve_undotted, found) (serve_path-Explained doc_root path)
    ]
  ]

  -- How a handler ends that never waits, and that throws only where `exists` does.
  abbrev pub Ends : {D : Type 0} → Reply D → Type 0
  Ends (replied r ctx) = Unit
  Ends blocked = ⊥
  Ends escaped = Throws fs

  pub IsAnswer-Ends : {D : Type 0} (rep : Reply D) → IsAnswer rep → Ends rep
  IsAnswer-Ends (replied r ctx) h = tt
  IsAnswer-Ends blocked h = h
  IsAnswer-Ends escaped h = absurd h

  pub Ends-cases :
      {D : Type 0} (rep : Reply D)
      → Ends rep
      → ((r : HttpResponse) × (ctx : RequestContext D) × (rep ≡ replied r ctx))
        ⊎ ((rep ≡ escaped) × Throws fs)
  Ends-cases (replied r ctx) h = inl (r, ctx, refl)
  Ends-cases blocked h = absurd h
  Ends-cases escaped h = inr (refl, h)

  reply-Ends :
      {D : Type 0} (s : Served) (ctx : RequestContext D) → Explained fs s → Ends (reply s ctx)
  unfolding reply
  reply-Ends (answered r) ctx h = tt
  reply-Ends uncaught ctx h = h

  pub handle_static_file-Ends :
      {D : Type 0} (req : HttpRequest) (ctx : RequestContext D)
      → Ends (handle_static_file fs req ctx)
  unfolding handle_static_file
  handle_static_file-Ends req ctx =
      reply-Ends _ ctx (serve-Explained ctx.doc_root (index_path req.path))
