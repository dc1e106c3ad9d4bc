-- ===== src/MainReactor/Signals.antt =====
-- The pipe of signals: `Tools::sig_handler` of src/Tools.cpp writes the number of a signal to it as an
-- `int` of four bytes, and the loop of src/webserver/WebServer.cpp reads it, 32 numbers at a time. The
-- write end does not block, and the result of `write` is not looked at: when the pipe has no room for a
-- number, the signal is lost. `room` is the number of bytes that the pipe holds at most; four bytes are
-- written as a whole or not at all.
use linux_cpp_web_server.Common.{
  ℕ, zero, suc, ◌+◌, ◌*◌, ◌/◌, ◌%◌, ◌^◌, ◌<◌, ◌≤◌, ◌≡◌, refl, ap, sym, ◌∙◌, true, false, Option,
  none, some, List, [], ◌∷◌, ◌++◌, All, take, drop, length, leb, if◌then◌else◌, arith, append_assoc,
  append-nil, length-append, length-drop, take-append-drop,
}
use linux_cpp_web_server.Common.Bytes.{Bytes}
use linux_cpp_web_server.MainReactor.{WebServer, on_signal, on_signals}

-- An `int` that is not negative, its lowest byte first.
unfoldable pub int_bytes : ℕ → Bytes
int_bytes n = n % 256 ∷ n / 256 % 256 ∷ n / 65536 % 256 ∷ n / 16777216 % 256 ∷ []

unfoldable pub int_of : ℕ → ℕ → ℕ → ℕ → ℕ
int_of a b c d = a + 256 * b + 65536 * c + 16777216 * d

unfoldable pub sig_handler : ℕ → ℕ → Bytes → Bytes
sig_handler room sig pipe = if leb (length pipe + 4) room then pipe ++ int_bytes sig else pipe

unfoldable pub sig_handlers : ℕ → List ℕ → Bytes → Bytes
sig_handlers room [] pipe = pipe
sig_handlers room (sig ∷ sigs) pipe = sig_handlers room sigs (sig_handler room sig pipe)

-- `sigs[i]` for `i < ret / sizeof(int)`: the bytes behind the last whole number are dropped.
unfoldable pub numbers : Bytes → List ℕ
numbers (a ∷ b ∷ c ∷ d ∷ rest) = int_of a b c d ∷ numbers rest
numbers _ = []

-- The loop over `recv`: it ends when the pipe is empty; `none` is no fuel.
unfoldable pub read_signals : ℕ → Bytes → WebServer → Option WebServer
read_signals zero pipe w = none
read_signals (suc fuel) [] w = some w
read_signals (suc fuel) (b ∷ pipe) w =
    read_signals fuel (drop 128 (b ∷ pipe)) (on_signals (numbers (take 128 (b ∷ pipe))) w)

all_bytes : List ℕ → Bytes
all_bytes [] = []
all_bytes (sig ∷ sigs) = int_bytes sig ++ all_bytes sigs

int_of-int_bytes :
    (n : ℕ)
    → n < 2 ^ 32
    → int_of (n % 256) (n / 256 % 256) (n / 65536 % 256) (n / 16777216 % 256) ≡ n
unfolding int_of
int_of-int_bytes n h = omega arith

numbers-all_bytes : (sigs : List ℕ) → All (λ s. s < 2 ^ 32) sigs → numbers (all_bytes sigs) ≡ sigs
unfolding numbers all_bytes int_bytes
numbers-all_bytes [] h = refl
numbers-all_bytes (sig ∷ sigs) (small, h) =
    rw (int_of-int_bytes sig small, numbers-all_bytes sigs h) refl

four : (n : ℕ) → suc n * 4 ≡ suc (suc (suc (suc (n * 4))))
four n = omega arith

take-all_bytes : (n : ℕ) (sigs : List ℕ) → take (n * 4) (all_bytes sigs) ≡ all_bytes (take n sigs)
unfolding all_bytes int_bytes
take-all_bytes zero sigs = refl
take-all_bytes (suc n) [] = rw (four n) refl
take-all_bytes (suc n) (sig ∷ sigs) = rw (four n, take-all_bytes n sigs) refl

drop-all_bytes : (n : ℕ) (sigs : List ℕ) → drop (n * 4) (all_bytes sigs) ≡ all_bytes (drop n sigs)
unfolding all_bytes int_bytes
drop-all_bytes zero sigs = refl
drop-all_bytes (suc n) [] = rw (four n) refl
drop-all_bytes (suc n) (sig ∷ sigs) = rw (four n) (drop-all_bytes n sigs)

length-all_bytes : (sigs : List ℕ) → length (all_bytes sigs) ≡ 4 * length sigs
unfolding all_bytes int_bytes
length-all_bytes [] = omega arith
length-all_bytes (sig ∷ sigs) = omega (arith, length-all_bytes sigs)

-- What the handlers leave in a pipe with room for `left` more numbers and less than one more.
sig_handlers-all_bytes :
    (room left : ℕ) (sigs : List ℕ) (pipe : Bytes)
    → length pipe + 4 * left ≤ room
    → room < length pipe + 4 * left + 4
    → sig_handlers room sigs pipe ≡ pipe ++ all_bytes (take left sigs)
unfolding sig_handlers sig_handler all_bytes int_bytes
sig_handlers-all_bytes room zero [] pipe le lt = sym (append-nil pipe)
sig_handlers-all_bytes room (suc left) [] pipe le lt = sym (append-nil pipe)
sig_handlers-all_bytes room zero (sig ∷ sigs) pipe le lt =
    let full : leb (length pipe + 4) room ≡ false = ground arith in
    rw (sig_handlers, sig_handler, full) (sig_handlers-all_bytes room zero sigs pipe le lt)
sig_handlers-all_bytes room (suc left) (sig ∷ sigs) pipe le lt =
    let fits : leb (length pipe + 4) room ≡ true = ground arith in
    let longer : length (pipe ++ int_bytes sig) ≡ length pipe + 4 =
      length-append pipe (int_bytes sig) in
    rw (sig_handlers, sig_handler, fits)
      (sig_handlers-all_bytes room left sigs (pipe ++ int_bytes sig) (omega (arith, longer))
          (omega (arith, longer))
        ∙ append_assoc pipe (int_bytes sig) (all_bytes (take left sigs)))

All-take : (P : ℕ → Type 0) (n : ℕ) (xs : List ℕ) → All P xs → All P (take n xs)
All-take P zero xs h = tt
All-take P (suc n) [] h = tt
All-take P (suc n) (x ∷ xs) (p, h) = (p, All-take P n xs h)

All-drop : (P : ℕ → Type 0) (n : ℕ) (xs : List ℕ) → All P xs → All P (drop n xs)
All-drop P zero xs h = h
All-drop P (suc n) [] h = tt
All-drop P (suc n) (x ∷ xs) (p, h) = All-drop P n xs h

on_signals-append :
    (s t : List ℕ) (w : WebServer) → on_signals (s ++ t) w ≡ on_signals t (on_signals s w)
unfolding on_signals
on_signals-append [] t w = refl
on_signals-append (sig ∷ s) t w = on_signals-append s t (on_signal sig w)

read_signals-all_bytes :
    (fuel : ℕ) (sigs : List ℕ) (w : WebServer)
    → length sigs < fuel
    → All (λ s. s < 2 ^ 32) sigs
    → read_signals fuel (all_bytes sigs) w ≡ some (on_signals sigs w)
unfolding read_signals all_bytes int_bytes on_signals
read_signals-all_bytes zero sigs w enough h = absurd (omega arith)
read_signals-all_bytes (suc fuel) [] w enough h = refl
read_signals-all_bytes (suc fuel) (sig ∷ sigs) w enough (small, h) =
    let now = sig ∷ take 31 sigs in
    let seen : numbers (all_bytes now) ≡ now =
      numbers-all_bytes now (small, All-take _ 31 sigs h) in
    let later = drop 31 sigs in
    ap
      (λ rest.
        read_signals fuel rest
          (on_signals (numbers (int_bytes sig ++ take 124 (all_bytes sigs))) w))
      (drop-all_bytes 31 sigs)
    ∙ ap
        (λ rest.
          read_signals fuel (all_bytes later) (on_signals (numbers (int_bytes sig ++ rest)) w))
        (take-all_bytes 31 sigs)
    ∙ ap (λ l. read_signals fuel (all_bytes later) (on_signals l w)) seen
    ∙ read_signals-all_bytes fuel later (on_signals now w)
        (let d = length-drop 31 sigs in omega (arith, enough, d)) (All-drop _ 31 sigs h)
    ∙ ap some (
        sym (on_signals-append now later w)
        ∙ ap (λ l. on_signals (sig ∷ l) w) (take-append-drop 31 sigs))

-- However many signals come, in which order, before the loop looks at an empty pipe that holds `room`
-- bytes: the loop over `recv` ends, and the server does what it does on the first `room / 4` of these
-- signals, each once and in the order in which the handler was called; those behind them are lost. A
-- number of a signal fits in an `int`.
pub sig_handlers-read_signals :
    (room : ℕ) (sigs : List ℕ) (w : WebServer)
    → All (λ s. s < 2 ^ 32) sigs
    → read_signals (suc (length (sig_handlers room sigs []))) (sig_handlers room sigs []) w
      ≡ some (on_signals (take (room / 4) sigs) w)
sig_handlers-read_signals room sigs w h =
    let kept = take (room / 4) sigs in
    ap (λ pipe. read_signals (suc (length pipe)) pipe w)
      (sig_handlers-all_bytes room (room / 4) sigs [] (omega arith) (omega arith))
    ∙ read_signals-all_bytes (suc (length (all_bytes kept))) kept w
        (let l = length-all_bytes kept in omega (arith, l)) (All-take _ (room / 4) sigs h)
