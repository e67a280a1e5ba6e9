-- ===== src/Metrics/History.antt =====
-- The collectors over a whole history of the load balancer.
use prequal_nc.Base.{ℕ, ◌≡◌, ℤ, Bool, Option, some, List, [], ◌++◌}
use prequal_nc.Float.{Float64}
use prequal_nc.Time.{Time}
use prequal_nc.Types.{ServerRef, Server, Config}
use prequal_nc.Pool.{Heap}
use prequal_nc.Balancer.{LoadBalancer, ProbeStats, new_load_balancer, add_server}
use prequal_nc.Balancer.Probe.{Reply, trigger_probes, on_query_arrival}
use prequal_nc.Balancer.Probe.Effect.{trigger_probes-IsSent}
use prequal_nc.Balancer.Serve.{Forward, begin_request, enter, leave}
use prequal_nc.System.{finish_probe}
use prequal_nc.Metrics.{Call}
use prequal_nc.Metrics.Calls.{
  arrival_calls, trigger_calls, probe_begin_calls, finish_calls, enter_calls, leave_calls,
}
use prequal_nc.Metrics.Export.{AreExported, AreExported-append, none-AreExported}
use prequal_nc.Metrics.Steps.{sent-AreExported, arrival_calls-AreExported}
use prequal_nc.Metrics.Kept.{
  IsExported, IsSent-config, on_query_arrival-IsSent, begin-IsExported, finish_probe-IsExported,
  enter-IsExported, leave-IsExported,
}

-- The counters of a new load balancer.
abbrev pub no_probes : ProbeStats
no_probes = record {
  triggered = 0;
  succeeded = 0;
  failed_error = 0;
  failed_http = 0;
  pool_empty = 0;
  no_winner = 0;
}

module _ (fl : Float64) where
  open fl use {F}

  -- The states that a history brings about, with all the calls on the collectors so far: registration; the
  -- probes of a query and of the loops; the beginning and the end of a probe; and ServeHTTP up to the reverse
  -- proxy and behind it.
  pub data Observed : LoadBalancer F → List (Call F) → Type 0 where
    opened :
        (servers : ServerRef → Server) (entries : Heap) (cfg : Config F)
        → Observed (new_load_balancer fl servers entries cfg).0 []
    joined :
        {lb : LoadBalancer F} {calls : List (Call F)} (s : ServerRef)
        → Observed lb calls
        → Observed (add_server fl s lb) calls
    arrived :
        {lb : LoadBalancer F} {calls : List (Call F)} (draw : F) (perm : List ℕ) (now : Time)
        (after : LoadBalancer F) (targets : List ServerRef)
        → on_query_arrival fl draw perm now lb ≡ some (after, targets)
        → Observed lb calls
        → Observed after (calls ++ arrival_calls fl targets lb)
    ticked :
        {lb : LoadBalancer F} {calls : List (Call F)} (perm : List ℕ) (now : Time) (count : ℤ)
        (after : LoadBalancer F) (targets : List ServerRef)
        → trigger_probes fl perm now count lb ≡ some (after, targets)
        → Observed lb calls
        → Observed after (calls ++ trigger_calls lb.config targets)
    probe_began :
        {lb : LoadBalancer F} {calls : List (Call F)}
        → Observed lb calls
        → Observed lb (calls ++ probe_begin_calls lb.config)
    probe_ended :
        {lb : LoadBalancer F} {calls : List (Call F)} (late : Bool) (draw : F) (read_at now : Time)
        (seconds : F) (srv : ServerRef) (reply : Reply)
        → Observed lb calls
        → Observed
            (finish_probe fl draw read_at now srv reply lb)
            (calls ++ finish_calls fl late draw read_at now seconds srv reply lb)
    entered :
        {lb : LoadBalancer F} {calls : List (Call F)} (now_q now_ttl now_log : Time) (draw : ℕ)
        (after : LoadBalancer F) (srv : Option ServerRef)
        → enter fl now_q now_ttl now_log draw lb ≡ some (after, srv)
        → Observed lb calls
        → Observed after (calls ++ enter_calls fl now_q now_ttl srv (begin_request lb))
    left :
        {lb : LoadBalancer F} {calls : List (Call F)} (f : Forward) (seconds : F)
        → Observed lb calls
        → Observed (leave f lb) (calls ++ leave_calls fl lb.config f seconds)

  -- One more step.
  next :
      (lb after : LoadBalancer F) (calls more : List (Call F))
      → AreExported lb.config.enable_metrics no_probes lb.probe_stats calls
      → IsExported fl lb after more
      → AreExported after.config.enable_metrics no_probes after.probe_stats (calls ++ more)
  next lb after calls more h k = rw k.same_config (
      AreExported-append lb.config.enable_metrics no_probes lb.probe_stats after.probe_stats calls
        more h k.exported)

  pub Observed-AreExported :
      {lb : LoadBalancer F} {calls : List (Call F)}
      → Observed lb calls
      → AreExported lb.config.enable_metrics no_probes lb.probe_stats calls
  unfolding new_load_balancer add_server
  Observed-AreExported (opened servers entries cfg) = none-AreExported cfg.enable_metrics no_probes
  Observed-AreExported (joined s h) = Observed-AreExported h
  Observed-AreExported (arrived {lb = lb} {calls = calls} draw perm now after targets e h) =
      let sent = on_query_arrival-IsSent fl draw perm now lb after targets e in
      next lb after calls _ (Observed-AreExported h) (record {
        same_config = IsSent-config fl now lb after targets sent;
        exported = arrival_calls-AreExported fl now lb after targets sent;
      })
  Observed-AreExported (ticked {lb = lb} {calls = calls} perm now count after targets e h) =
      let sent = trigger_probes-IsSent fl perm now count lb after targets e in
      next lb after calls _ (Observed-AreExported h) (record {
        same_config = IsSent-config fl now lb after targets sent;
        exported = sent-AreExported fl now lb after targets sent;
      })
  Observed-AreExported (probe_began {lb = lb} {calls = calls} h) =
      next lb lb calls _ (Observed-AreExported h) (begin-IsExported fl lb)
  Observed-AreExported
        (probe_ended {lb = lb} {calls = calls} late draw read_at now seconds srv reply h) =
      next lb _ calls _ (Observed-AreExported h)
        (finish_probe-IsExported fl late draw read_at now seconds srv reply lb)
  Observed-AreExported
        (entered {lb = lb} {calls = calls} now_q now_ttl now_log draw after srv e h) =
      next lb after calls _ (Observed-AreExported h)
        (enter-IsExported fl now_q now_ttl now_log draw lb after srv e)
  Observed-AreExported (left {lb = lb} {calls = calls} f seconds h) =
      next lb _ calls _ (Observed-AreExported h) (leave-IsExported fl f seconds lb)
