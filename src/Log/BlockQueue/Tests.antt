-- ===== src/Log/BlockQueue/Tests.antt =====
-- A queue of two places.
use linux_cpp_web_server.Common.{ℕ, ◌≡◌, refl, some, [], ◌∷◌, ◌++◌, arith}
use linux_cpp_web_server.Log.BlockQueue.{BlockQueue, init, push}
use linux_cpp_web_server.Log.BlockQueue.Refine.{IsValid, contents, init-IsValid}
use linux_cpp_web_server.Log.BlockQueue.Run.{start, puts, Run-Fifo}

abbrev fresh : BlockQueue ℕ
fresh = record { front = 0; back = 0; array = 0 ∷ 0 ∷ []; max_size = 2; size = 0 }

abbrev one : BlockQueue ℕ
one = record { front = 0; back = 1; array = 5 ∷ 0 ∷ []; max_size = 2; size = 1 }

fresh-init : init 0 2 ≡ some fresh
unfolding init
fresh-init = refl

fresh-push : push 0 5 fresh ≡ some one
unfolding push
fresh-push = refl

init-IsValid_example : IsValid 0 fresh × (contents 0 fresh ≡ []) × (fresh.max_size ≡ 2)
init-IsValid_example = init-IsValid 0 2 fresh (omega arith) fresh-init

fresh-IsValid : IsValid 0 fresh
fresh-IsValid = (init-IsValid 0 2 fresh (omega arith) fresh-init).0

Run-Fifo_example : IsValid 0 one × (contents 0 fresh ++ 5 ∷ [] ≡ [] ++ contents 0 one)
Run-Fifo_example = Run-Fifo 0 fresh-IsValid (puts 5 start fresh-push)
