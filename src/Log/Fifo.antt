-- ===== src/Log/Fifo.antt =====
-- What a blocking queue promises: a list of at most `cap` items, oldest first. `none` means that the
-- caller waits.
use linux_cpp_web_server.Common.{
  ℕ, Option, none, some, List, [], ◌∷◌, ◌++◌, ltb, if◌then◌else◌, length,
}

module _ {ℓ} {A : Type ℓ} where
  unfoldable pub push : ℕ → A → List A → Option (List A)
  push cap a l = if ltb (length l) cap then some (l ++ a ∷ []) else none

  unfoldable pub pop : List A → Option (A × List A)
  pop [] = none
  pop (a ∷ l) = some (a, l)
