-- ===== src/Tools/Descriptors.antt =====
-- Descriptors as src/webserver/WebServer.cpp and src/webserver/SubReactor.cpp keep them: an `int`, -1 for
-- none.
use linux_cpp_web_server.Common.{
  zero, suc, ◌≡◌, refl, Bool, true, false, List, [], ◌∷◌, ◌++◌, if◌then◌else◌,
}
use linux_cpp_web_server.Sql.{ℤ, pos, negsuc}

-- `-1`, no descriptor.
abbrev pub no_fd : ℤ
no_fd = negsuc 0

-- `fd < 0`
unfoldable pub is_negative : ℤ → Bool
is_negative (pos n) = false
is_negative (negsuc n) = true

-- `fd == -1`
unfoldable pub is_no_fd : ℤ → Bool
is_no_fd (pos n) = false
is_no_fd (negsuc zero) = true
is_no_fd (negsuc (suc n)) = false

-- `if (fd != -1) close(fd);`
unfoldable pub close_fd : ℤ → List ℤ → List ℤ
close_fd fd closed = if is_no_fd fd then closed else closed ++ fd ∷ []

pub close_fd-valid :
    (fd : ℤ) (closed : List ℤ) → is_no_fd fd ≡ false → close_fd fd closed ≡ closed ++ fd ∷ []
unfolding close_fd
close_fd-valid fd closed e = rw (close_fd, e) refl

pub not_negative : (fd : ℤ) → is_negative fd ≡ false → is_no_fd fd ≡ false
unfolding is_negative is_no_fd
not_negative (pos n) h = refl
not_negative (negsuc n) h = absurd (cc h)
