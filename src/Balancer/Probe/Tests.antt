-- ===== src/Balancer/Probe/Tests.antt =====
-- A request at a small fleet.
use prequal_nc.Base.{◌≡◌, refl, pos, inr, arith, [], ◌∷◌}
use prequal_nc.Centi.{Centi, Centi-laws}
use prequal_nc.Types.{default_config}
use prequal_nc.Balancer.{new_load_balancer}
use prequal_nc.Balancer.Probe.{effective_r_probe}
use prequal_nc.Balancer.Probe.Arrival.{Arrived, on_query_arrival-Arrived}
use prequal_nc.Balancer.Tests.{fleet, in_order}

-- The default rate of 3, in hundredths.
fleet-rate : effective_r_probe Centi fleet ≡ pos 300
unfolding effective_r_probe new_load_balancer default_config
fleet-rate = refl

on_query_arrival-Arrived_example : Arrived Centi Centi-laws (pos 50) (1 ∷ 0 ∷ []) (pos 7) 3 fleet
unfolding new_load_balancer
on_query_arrival-Arrived_example =
    on_query_arrival-Arrived Centi Centi-laws (pos 50) (1 ∷ 0 ∷ []) (pos 7) 3 fleet (omega arith)
      in_order (inr (rw fleet-rate refl)) (rw fleet-rate refl)
