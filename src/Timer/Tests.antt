-- ===== src/Timer/Tests.antt =====
-- Three timers, two of them due.
use linux_cpp_web_server.Common.{◌≡◌, refl, true, [], ◌∷◌}
use linux_cpp_web_server.Common.Maps
use linux_cpp_web_server.Common.Maps.{nat_key}
use linux_cpp_web_server.Timer.{TimerManager, init, insert, add_timer, tick}
use linux_cpp_web_server.Timer.Order.{start, adds, Ticked, tick-exact}

abbrev three : TimerManager
three = add_timer 3 9 (add_timer 2 5 (add_timer 1 7 init))

three_timers : three.timers ≡ (5, 2) ∷ (7, 1) ∷ (9, 3) ∷ []
unfolding add_timer insert init
three_timers = refl

tick-exact_example : Ticked (λ t. true) 7 three (tick (λ t. true) 7 three)
unfolding Maps.get Maps.put add_timer init
tick-exact_example =
    tick-exact three (λ t. true) 7
      (adds (add_timer 2 5 (add_timer 1 7 init)) 3 9 refl
        (adds (add_timer 1 7 init) 2 5 refl (adds init 1 7 refl start)))
