-- ===== src/Metrics/Calls.antt =====
-- balancer.go: the calls on the collectors that each operation makes, in their order. All of them stand under
-- `if lb.config.EnableMetrics`.
use prequal_nc.Base.{
  ℕ, ◌/◌, ℤ, pos, Bool, Option, none, some, List, [], ◌∷◌, ◌++◌, length, ltb, ◌==◌, if◌then◌else◌,
}
use prequal_nc.Float.{Float64}
use prequal_nc.Time.{Time}
use prequal_nc.Text.{Text, codes}
use prequal_nc.Types.{
  ServerRef, ProbeResult, Config, Algorithm, prequal, round_robin, other_algorithm,
}
use prequal_nc.Rif.{quantile}
use prequal_nc.Balancer.{LoadBalancer, PickClass, cold, hot, no_pool, no_class}
use prequal_nc.Balancer.Select.{Best, winner_of, select_loop, apply_r_remove, theta_of}
use prequal_nc.Balancer.Probe.{
  Reply, build_error, transport_error, response, effective_r_probe, probe_server,
}
use prequal_nc.Balancer.Serve.{Forward, relayed, timed_out, proxy_failed, aborted}
use prequal_nc.Balancer.Snapshot.{algorithm_text}
use prequal_nc.System.{finish_probe}
use prequal_nc.Metrics.{
  Metric, request_duration, active_requests, server_health, server_rif, probes_triggered,
  probes_succeeded, probes_failed, probe_duration, probe_inflight, probe_rate_effective, pool_size,
  pick_class, Op, inc, dec, set_to, observe_one, Call,
}

-- `string(lb.config.Algorithm)`.
abbrev pub algorithm_label : {F : Type 0} → Config F → Text
algorithm_label cfg = algorithm_text cfg.algorithm

-- A call under the test of EnableMetrics.
abbrev pub when_on : {F : Type 0} → Config F → List (Call F) → List (Call F)
when_on cfg calls = if cfg.enable_metrics then calls else []

-- A vector with the algorithm as its label, or as its first one.
abbrev pub by_algorithm : {F : Type 0} → Config F → Metric → Op F → Call F
by_algorithm cfg m op = record { metric = m; labels = algorithm_label cfg ∷ []; op = op }

abbrev pub by_reason : {F : Type 0} → Config F → Metric → Text → Call F
by_reason cfg m reason = record { metric = m; labels = algorithm_label cfg ∷ reason ∷ []; op = inc }

abbrev pub for_server : {F : Type 0} → Config F → Text → Metric → F → Call F
for_server cfg id m v = record { metric = m; labels = id ∷ algorithm_label cfg ∷ []; op = set_to v }

-- The label of probesFailed; `late` is `ctx.Err() == context.DeadlineExceeded`.
unfoldable pub failure_reason : Bool → Reply → Option Text
failure_reason late build_error = some (codes "build_req")
failure_reason late transport_error = some (if late then codes "timeout" else codes "transport")
failure_reason late (response status rif latency) =
    if status / 100 == 2 then none else some (codes "http_status")

abbrev pub class_label : PickClass → Text
class_label cold = codes "cold"
class_label hot = codes "hot"
class_label no_pool = codes "no-pool"
class_label no_class = []

module _ {F : Type 0} where
  -- triggerProbes, in its loop.
  unfoldable pub trigger_calls : Config F → List ServerRef → List (Call F)
  trigger_calls cfg [] = []
  trigger_calls cfg (s ∷ targets) =
      when_on cfg (by_algorithm cfg probes_triggered inc ∷ []) ++ trigger_calls cfg targets

  -- The goroutine of a probe, before probeServer and behind it, after `seconds`.
  unfoldable pub probe_begin_calls : Config F → List (Call F)
  probe_begin_calls cfg = when_on cfg (by_algorithm cfg probe_inflight inc ∷ [])

  unfoldable pub probe_end_calls : Config F → F → List (Call F)
  probe_end_calls cfg seconds = when_on cfg (
      by_algorithm cfg probe_duration (observe_one seconds)
      ∷ by_algorithm cfg probe_inflight dec
      ∷ [])

  -- probeServer.
  abbrev pub reason_calls : Config F → Option Text → List (Call F)
  reason_calls cfg none = []
  reason_calls cfg (some reason) = when_on cfg (by_reason cfg probes_failed reason ∷ [])

  unfoldable pub probe_server_calls : Config F → Bool → Reply → List (Call F)
  unfolding failure_reason
  probe_server_calls cfg late reply = reason_calls cfg (failure_reason late reply)

  -- selectServerPrequal behind its loop.
  abbrev pub class_calls : Config F → Option (ℕ × PickClass) → List (Call F)
  class_calls cfg none = []
  class_calls cfg (some (e, class)) =
      when_on cfg (by_reason cfg pick_class (class_label class) ∷ [])

  unfoldable pub pick_calls : Config F → Best → List (Call F)
  pick_calls cfg b =
      if ltb b.fresh 2
      then when_on cfg (by_reason cfg pick_class (codes "no-pool") ∷ [])
      else class_calls cfg (winner_of b)

  -- forwardRequest at its beginning and, deferred, at its end.
  unfoldable pub forward_begin_calls : Config F → List (Call F)
  forward_begin_calls cfg = when_on cfg (by_algorithm cfg active_requests inc ∷ [])

  -- forwardRequest begins where a server has been found.
  unfoldable pub found_calls : Config F → Option ServerRef → List (Call F)
  unfolding forward_begin_calls
  found_calls cfg none = []
  found_calls cfg (some s) = forward_begin_calls cfg

  unfoldable pub forward_end_calls : Config F → List (Call F)
  forward_end_calls cfg = when_on cfg (by_algorithm cfg active_requests dec ∷ [])

  -- ServeHTTP behind forwardRequest: a panic of the proxy passes it by.
  unfoldable pub served_calls : Config F → Forward → F → List (Call F)
  served_calls cfg relayed seconds =
      when_on cfg (by_algorithm cfg request_duration (observe_one seconds) ∷ [])
  served_calls cfg timed_out seconds =
      when_on cfg (by_algorithm cfg request_duration (observe_one seconds) ∷ [])
  served_calls cfg proxy_failed seconds =
      when_on cfg (by_algorithm cfg request_duration (observe_one seconds) ∷ [])
  served_calls cfg aborted seconds = []

module _ (fl : Float64) where
  open fl use {F, of_int}

  -- effectiveRProbe: it returns early where the rate is not adaptive.
  unfoldable pub rate_calls : LoadBalancer F → List (Call F)
  rate_calls lb =
      if lb.config.adaptive_probe
      then when_on lb.config
          (by_algorithm lb.config probe_rate_effective (set_to (effective_r_probe fl lb)) ∷ [])
      else []

  -- handleProbeResult for the server with this id, with the state that it leaves.
  unfoldable pub result_calls :
      Config F → Text → Option ProbeResult → LoadBalancer F → List (Call F)
  result_calls cfg id none after = []
  result_calls cfg id (some result) after = when_on cfg (
      by_algorithm cfg probes_succeeded inc
      ∷ for_server cfg id server_health (of_int (pos 1))
      ∷ for_server cfg id server_rif (of_int result.rif)
      ∷ by_algorithm cfg pool_size (set_to (of_int (pos (length after.entries))))
      ∷ [])

  -- selectServerPrequal, up to the panic that it would be to have no quantile.
  abbrev pub scanned_calls : Time → Option (ℤ × Bool) → LoadBalancer F → List (Call F)
  scanned_calls now_ttl none lb = []
  scanned_calls now_ttl (some answer) lb = pick_calls lb.config (
      select_loop lb.entry_at (theta_of fl answer) lb.config.pool_ttl now_ttl lb.entries
        (record { hot = none; cold = none; fresh = 0 }))

  unfoldable pub prequal_calls : Time → Time → LoadBalancer F → List (Call F)
  unfolding pick_calls
  prequal_calls now_q now_ttl lb =
      let lb' = apply_r_remove fl lb in
      scanned_calls now_ttl (quantile fl lb'.config.q_rif now_q lb'.rif_dist).1 lb'

  -- SelectServer: selectServerRR makes no call.
  unfoldable pub select_calls : Algorithm → Time → Time → LoadBalancer F → List (Call F)
  unfolding prequal_calls
  select_calls round_robin now_q now_ttl lb = []
  select_calls prequal now_q now_ttl lb = prequal_calls now_q now_ttl lb
  select_calls (other_algorithm name) now_q now_ttl lb = prequal_calls now_q now_ttl lb

  -- ServeHTTP up to the reverse proxy, where `srv` is what SelectServer returned.
  unfoldable pub enter_calls : Time → Time → Option ServerRef → LoadBalancer F → List (Call F)
  unfolding select_calls found_calls
  enter_calls now_q now_ttl srv lb =
      select_calls lb.config.algorithm now_q now_ttl lb ++ found_calls lb.config srv

  -- The goroutine of a probe from the response on, with the result that probeServer hands over.
  unfoldable pub finish_calls :
      Bool → F → Time → Time → F → ServerRef → Reply → LoadBalancer F → List (Call F)
  unfolding probe_server_calls probe_end_calls result_calls
  finish_calls late draw read_at now seconds srv reply lb =
      probe_server_calls lb.config late reply
      ++ (probe_end_calls lb.config seconds
          ++ result_calls lb.config (lb.server_at srv).id
              (probe_server fl read_at reply lb.probe_stats).1
              (finish_probe fl draw read_at now srv reply lb))

  -- onQueryArrival, with the targets of its probes.
  unfoldable pub arrival_calls : List ServerRef → LoadBalancer F → List (Call F)
  unfolding rate_calls trigger_calls
  arrival_calls targets lb = rate_calls lb ++ trigger_calls lb.config targets

  -- ServeHTTP from the end of the reverse proxy on.
  unfoldable pub leave_calls : Config F → Forward → F → List (Call F)
  unfolding forward_end_calls served_calls
  leave_calls cfg f seconds = forward_end_calls cfg ++ served_calls cfg f seconds
