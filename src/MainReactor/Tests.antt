-- ===== src/MainReactor/Tests.antt =====
-- Two ticks and the end, for a server with two sub reactors.
use linux_cpp_web_server.Common.{◌≡◌, false, some, [], ◌∷◌, suc, length, arith}
use linux_cpp_web_server.MainReactor.{WebServer, sigalrm, sigterm, on_signals}
use linux_cpp_web_server.MainReactor.Signals.{sig_handlers, read_signals, sig_handlers-read_signals}

abbrev two_reactors : WebServer
two_reactors = record {
  stop_server = false;
  sub_reactor_num = 2;
  round_robin_counter = 0;
  pipes = [] ∷ [] ∷ [];
  alarms = 1;
  closed = [];
}

-- A pipe with room for two numbers, and three signals.
sig_handlers-read_signals_example :
    read_signals
      (suc (length (sig_handlers 9 (sigalrm ∷ sigalrm ∷ sigterm ∷ []) [])))
      (sig_handlers 9 (sigalrm ∷ sigalrm ∷ sigterm ∷ []) [])
      two_reactors
    ≡ some (on_signals (sigalrm ∷ sigalrm ∷ []) two_reactors)
sig_handlers-read_signals_example =
    sig_handlers-read_signals 9 (sigalrm ∷ sigalrm ∷ sigterm ∷ []) two_reactors
      (omega arith, (omega arith, (omega arith, tt)))
