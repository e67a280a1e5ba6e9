-- ===== src/Metrics/Steps.antt =====
-- The calls of the operations on probes, and what they count.
use prequal_nc.Base.{
  suc, ◌+◌, ◌/◌, ◌%◌, ◌^◌, ◌≡◌, refl, subst, inl, inr, Bool, true, false, Option, none, some, List,
  [], ◌∷◌, arith, Bool-cases, length, ◌==◌,
}
use prequal_nc.Float.{Float64}
use prequal_nc.Time.{Time}
use prequal_nc.Text.{codes}
use prequal_nc.Types.{ServerRef, ProbeResult, Config}
use prequal_nc.Balancer.{LoadBalancer, ProbeStats, inc_uint64}
use prequal_nc.Balancer.Probe.{
  Reply, build_error, transport_error, response, probe_server, accept_probe, handle_probe_result,
}
use prequal_nc.Balancer.Probe.Effect.{IsSent, nobody, counted}
use prequal_nc.System.{handle_probed, finish_probe}
use prequal_nc.Metrics.{probes_triggered, probes_failed, inc}
use prequal_nc.Metrics.Calls.{
  when_on, by_algorithm, by_reason, failure_reason, trigger_calls, probe_end_calls,
  probe_server_calls, result_calls, finish_calls, rate_calls, arrival_calls,
}
use prequal_nc.Metrics.Export.{
  AreExported, AreExported-append, empty-AreExported, none-AreExported, when_on-AreExported,
}

module _ {F : Type 0} where
  -- One more probe sent.
  one_triggered :
      (cfg : Config F) (st : ProbeStats)
      → AreExported cfg.enable_metrics st
          (record st { triggered = inc_uint64 st.triggered })
          (when_on cfg (by_algorithm cfg probes_triggered inc ∷ []))
  one_triggered cfg st =
      when_on-AreExported cfg (by_algorithm cfg probes_triggered inc ∷ []) st (refl, tt)

  trigger_calls-AreExported :
      (cfg : Config F) (targets : List ServerRef) (st : ProbeStats)
      → AreExported cfg.enable_metrics st
          (record st { triggered = (st.triggered + length targets) % 2 ^ 64 })
          (trigger_calls cfg targets)
  unfolding trigger_calls
  trigger_calls-AreExported cfg [] st = empty-AreExported cfg.enable_metrics st _ (record {
    triggered = omega arith;
    succeeded = omega arith;
    failed_error = omega arith;
    failed_http = omega arith;
    pool_empty = omega arith;
  })
  trigger_calls-AreExported cfg (s ∷ targets) st =
      let st1 : ProbeStats = record st { triggered = inc_uint64 st.triggered } in
      let same : (inc_uint64 st.triggered + length targets) % 2 ^ 64
          ≡ (st.triggered + suc (length targets)) % 2 ^ 64 =
        omega arith in
      subst
        (λ n.
          AreExported {F = F} cfg.enable_metrics st (record st { triggered = n })
            (trigger_calls cfg (s ∷ targets)))
        same
        (AreExported-append cfg.enable_metrics st st1 _ _ (trigger_calls cfg targets)
          (one_triggered cfg st) (trigger_calls-AreExported cfg targets st1))

module _ (fl : Float64) where
  open fl use {F}

  probe_server-AreExported :
      (cfg : Config F) (late : Bool) (now : Time) (reply : Reply) (st : ProbeStats)
      → AreExported cfg.enable_metrics st
          (probe_server fl now reply st).0
          (probe_server_calls cfg late reply)
  unfolding probe_server probe_server_calls failure_reason
  probe_server-AreExported cfg late now build_error st =
      when_on-AreExported cfg (by_reason cfg probes_failed (codes "build_req") ∷ []) st (refl, tt)
  probe_server-AreExported cfg true now transport_error st =
      when_on-AreExported cfg (by_reason cfg probes_failed (codes "timeout") ∷ []) st (refl, tt)
  probe_server-AreExported cfg false now transport_error st =
      when_on-AreExported cfg (by_reason cfg probes_failed (codes "transport") ∷ []) st (refl, tt)
  probe_server-AreExported cfg late now (response status rif latency) st =
      elim (Bool-cases (status / 100 == 2)) [
        | inl ok ↦ rw ok (none-AreExported cfg.enable_metrics st)
        | inr bad ↦ rw bad (
            when_on-AreExported cfg (by_reason cfg probes_failed (codes "http_status") ∷ []) st
              (refl, tt))
      ]

  result_calls-AreExported :
      (draw : F) (now : Time) (srv : ServerRef) (result : Option ProbeResult) (lb : LoadBalancer F)
      → AreExported lb.config.enable_metrics lb.probe_stats
          (handle_probe_result fl draw now srv result lb).probe_stats
          (result_calls fl lb.config
            (lb.server_at srv).id
            result
            (handle_probe_result fl draw now srv result lb))
  unfolding handle_probe_result accept_probe result_calls
  result_calls-AreExported draw now srv none lb =
      none-AreExported lb.config.enable_metrics lb.probe_stats
  result_calls-AreExported draw now srv (some result) lb =
      when_on-AreExported lb.config _ lb.probe_stats (refl, (refl, (refl, (refl, tt))))

  -- The end of a probe.
  pub finish_calls-AreExported :
      (late : Bool) (draw : F) (read_at now : Time) (seconds : F) (srv : ServerRef) (reply : Reply)
      (lb : LoadBalancer F)
      → AreExported lb.config.enable_metrics lb.probe_stats
          (finish_probe fl draw read_at now srv reply lb).probe_stats
          (finish_calls fl late draw read_at now seconds srv reply lb)
  unfolding finish_calls finish_probe handle_probed probe_end_calls
  finish_calls-AreExported late draw read_at now seconds srv reply lb =
      let on = lb.config.enable_metrics in
      let r = probe_server fl read_at reply lb.probe_stats in
      let lb1 : LoadBalancer F = record lb { probe_stats = r.0 } in
      let after = handle_probe_result fl draw now srv r.1 lb1 in
      AreExported-append on lb.probe_stats r.0 after.probe_stats
        (probe_server_calls lb.config late reply) _
        (probe_server-AreExported lb.config late read_at reply lb.probe_stats)
        (AreExported-append on r.0 r.0 after.probe_stats (probe_end_calls lb.config seconds) _
          (when_on-AreExported lb.config _ r.0 (refl, (refl, tt)))
          (result_calls-AreExported draw now srv r.1 lb1))

  pub sent-AreExported :
      (now : Time) (lb after : LoadBalancer F) (targets : List ServerRef)
      → IsSent fl now lb after targets
      → AreExported lb.config.enable_metrics lb.probe_stats after.probe_stats
          (trigger_calls lb.config targets)
  unfolding trigger_calls
  sent-AreExported now lb after targets (nobody e z) =
      rw (e, z) (none-AreExported lb.config.enable_metrics lb.probe_stats)
  sent-AreExported now lb after targets (counted e known) =
      rw e (trigger_calls-AreExported lb.config targets lb.probe_stats)

  rate_calls-AreExported :
      (lb : LoadBalancer F)
      → AreExported lb.config.enable_metrics lb.probe_stats lb.probe_stats (rate_calls fl lb)
  unfolding rate_calls
  rate_calls-AreExported lb = elim (Bool-cases lb.config.adaptive_probe) [
    | inl e ↦ rw e (when_on-AreExported lb.config _ lb.probe_stats (refl, tt))
    | inr e ↦ rw e (none-AreExported lb.config.enable_metrics lb.probe_stats)
  ]

  -- The probes of a query.
  pub arrival_calls-AreExported :
      (now : Time) (lb after : LoadBalancer F) (targets : List ServerRef)
      → IsSent fl now lb after targets
      → AreExported lb.config.enable_metrics lb.probe_stats after.probe_stats
          (arrival_calls fl targets lb)
  unfolding arrival_calls
  arrival_calls-AreExported now lb after targets h =
      AreExported-append lb.config.enable_metrics lb.probe_stats lb.probe_stats after.probe_stats
        (rate_calls fl lb) (trigger_calls lb.config targets) (rate_calls-AreExported lb)
        (sent-AreExported now lb after targets h)
