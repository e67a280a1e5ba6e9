-- ===== src/Balancer/Loops/Tests.antt =====
-- The loops of the load balancer on a small fleet, and their theorems at it.
use prequal_nc.Base.{◌≡◌, refl, pos, List, [], ◌∷◌, arith}
use prequal_nc.Centi.{Centi}
use prequal_nc.Types.{default_config}
use prequal_nc.Balancer.{new_load_balancer}
use prequal_nc.Balancer.Tests.{fleet, in_order}
use prequal_nc.Balancer.Loops.{Signal, tick, stopped, max_idle, idle_pace, ticks_every}
use prequal_nc.Balancer.Loops.Ticker.{Ticked, ticker_loop-Ticked}
use prequal_nc.Balancer.Loops.Idle.{KeptAlive, idle_round-KeptAlive}

idle_pace_test : idle_pace Centi fleet.config ≡ ticks_every (pos 50_000_000)
unfolding idle_pace default_config new_load_balancer
idle_pace_test = refl

-- Two ticks, Stop, and one tick more.
abbrev signals : List Signal
signals =
    tick (1 ∷ 0 ∷ []) (pos 10)
    ∷ tick (1 ∷ 0 ∷ []) (pos 20)
    ∷ stopped
    ∷ tick (1 ∷ 0 ∷ []) (pos 30)
    ∷ []

ticker_loop-Ticked_example : Ticked Centi signals fleet
ticker_loop-Ticked_example =
    ticker_loop-Ticked Centi signals fleet (in_order, (in_order, (in_order, tt)))

fleet-max_idle : max_idle Centi fleet.config ≡ pos 100_000_000
unfolding max_idle default_config new_load_balancer
fleet-max_idle = refl

idle_round-KeptAlive_example :
    KeptAlive Centi (1 ∷ 0 ∷ []) (pos 300_000_000) (pos 300_000_010) 3 fleet
unfolding new_load_balancer default_config
idle_round-KeptAlive_example =
    idle_round-KeptAlive Centi (1 ∷ 0 ∷ []) (pos 300_000_000) (pos 300_000_010) 3 fleet refl
      in_order (omega arith) (rw fleet-max_idle (omega arith)) (rw fleet-max_idle (omega arith))
      (omega arith)
