-- ===== src/System/Tests.antt =====
-- A load balancer with two replicas, and the theorems at it.
use prequal_nc.Base.{◌≡◌, refl, ℤ, pos, Bool, Option, none, some, [], ◌∷◌, arith}
use prequal_nc.Centi.{Centi, Centi-laws}
use prequal_nc.Types.{default_config}
use prequal_nc.Balancer.{LoadBalancer, new_load_balancer, add_server}
use prequal_nc.Balancer.Probe.{transport_error, trigger_probes, probe_server}
use prequal_nc.Balancer.Accept.{IsReuseBound}
use prequal_nc.Balancer.Tests.{servers_at, pool_at}
use prequal_nc.Backend.{new_backend, begin_work, health}
use prequal_nc.System.{
  System, Run, started, registered, triggered, probe_answered, probe_failed, reply_read, reply_lost,
  request_begun,
}
use prequal_nc.Types.{ServerRef}
use prequal_nc.Balancer.Select.{apply_r_remove, select_server_prequal, theta_of}
use prequal_nc.Rif.{quantile}
use prequal_nc.Balancer.Prequal.{before_choice}
use prequal_nc.System.Choice.{IsInformed, Run-IsInformed}
use prequal_nc.System.Steps.{SystemInv}
use prequal_nc.System.Invariant.{Run-SystemInv}
use prequal_nc.System.Probes.{AreAccounted, Run-AreAccounted}

abbrev two_servers : LoadBalancer ℤ
two_servers =
    add_server Centi 1
      (add_server Centi 0 (new_load_balancer Centi servers_at pool_at (default_config Centi)).0)

abbrev two_probed : LoadBalancer ℤ
two_probed = record two_servers {
  last_probe_nanos = pos 5;
  probe_stats = record two_servers.probe_stats { triggered = 2 };
}

two_sent :
    trigger_probes Centi (1 ∷ 0 ∷ []) (pos 5) (pos 2) two_servers ≡ some (two_probed, 1 ∷ 0 ∷ [])
unfolding trigger_probes add_server new_load_balancer default_config
two_sent = refl

small_reuse : IsReuseBound (default_config Centi)
unfolding default_config
small_reuse = record { most = 3; is_most = refl; fits = omega arith }

lost : (probe_server Centi (pos 9) transport_error two_probed.probe_stats).1 ≡ none
unfolding probe_server
lost = refl

-- Two servers are probed while the second one works on a request. It answers, the probe of the first one fails,
-- and the answer is read.
abbrev one_read : (y : System ℤ) × Run Centi y
one_read =
    let start =
      registered 1 (registered 0 (started servers_at pool_at (default_config Centi) small_reuse)) in
    let sent =
      triggered (1 ∷ 0 ∷ []) (pos 5) (pos 2) two_probed (1 ∷ 0 ∷ []) two_sent
        (request_begun 1 start) in
    let given = probe_answered [] 1 (0 ∷ []) refl sent in
    let failed = probe_failed [] 0 [] (pos 0) (pos 9) (pos 9) transport_error refl lost given in
    (
      _,
      reply_read [] 1 (health (begin_work new_backend).0) [] (pos 0) (pos 11) (pos 12) refl failed,
    )

Run-SystemInv_example : SystemInv Centi Centi-laws one_read.0
Run-SystemInv_example = Run-SystemInv Centi Centi-laws one_read.1

-- Both servers answer; the answer of the first one is lost, and the other one is read.
abbrev one_lost : (y : System ℤ) × Run Centi y
one_lost =
    let start =
      registered 1 (registered 0 (started servers_at pool_at (default_config Centi) small_reuse)) in
    let sent = triggered (1 ∷ 0 ∷ []) (pos 5) (pos 2) two_probed (1 ∷ 0 ∷ []) two_sent start in
    let given = probe_answered [] 1 (0 ∷ []) refl sent in
    let both = probe_answered [] 0 [] refl given in
    let one =
      reply_lost ((1, health new_backend) ∷ []) 0 (health new_backend) [] (pos 0) (pos 9) (pos 9)
        refl both in
    (_, reply_read [] 1 (health new_backend) [] (pos 0) (pos 11) (pos 12) refl one)

Run-AreAccounted_example : AreAccounted one_lost.0
Run-AreAccounted_example = Run-AreAccounted Centi Centi-laws one_lost.1

Run-IsInformed_example :
    (answer : ℤ × Bool) × (after : LoadBalancer ℤ) × (srv : Option ServerRef) × ((quantile Centi
        (apply_r_remove Centi one_read.0.lb).config.q_rif
        (pos 20)
        (apply_r_remove Centi one_read.0.lb).rif_dist).1
      ≡ some answer)
    × (select_server_prequal Centi (pos 20) (pos 21) (pos 22) 7 one_read.0.lb ≡ some (after, srv))
    × IsInformed Centi one_read.0.answers one_read.0.chosen
        (theta_of Centi answer)
        (pos 21)
        (before_choice Centi (pos 20) one_read.0.lb)
        srv
Run-IsInformed_example = Run-IsInformed Centi Centi-laws (pos 20) (pos 21) (pos 22) 7 one_read.1
