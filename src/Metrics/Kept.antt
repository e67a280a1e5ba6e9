-- ===== src/Metrics/Kept.antt =====
-- Every operation keeps the configuration, and its calls on the collectors count what its counters count.
use mathlib.Core.Option.{some-injective}
use prequal_nc.Base.{ℕ, ◌≡◌, refl, ap, subst, ◌∙◌, ℤ, Bool, Option, none, some, List, [], ◌++◌}
use prequal_nc.Float.{Float64}
use prequal_nc.Time.{Time}
use prequal_nc.Types.{ServerRef, ProbeResult, Config}
use prequal_nc.Balancer.{LoadBalancer, ProbeStats}
use prequal_nc.Balancer.Probe.{
  Reply, probe_server, query_probe_count, on_query_arrival, trigger_count, handle_probe_result,
  accept_probe,
}
use prequal_nc.Balancer.Probe.Effect.{IsSent, nobody, counted, result-IsSent, trigger_probes-IsSent}
use prequal_nc.Balancer.Select.{select_server}
use prequal_nc.Balancer.Serve.{
  Forward, relayed, timed_out, proxy_failed, aborted, begin_request, enter, after_select, leave,
  forward_request, after_forward, end_request, count_failed, count_successful,
}
use prequal_nc.System.{handle_probed, finish_probe}
use prequal_nc.Metrics.{Call}
use prequal_nc.Metrics.Calls.{
  probe_begin_calls, finish_calls, enter_calls, leave_calls, select_calls, found_calls,
  forward_begin_calls, forward_end_calls, served_calls,
}
use prequal_nc.Metrics.Export.{
  AreExported, AreExported-append, when_on-AreExported, none-AreExported,
}
use prequal_nc.Metrics.Steps.{finish_calls-AreExported}
use prequal_nc.Metrics.Choice.{select_server-AreExported}

module _ (fl : Float64) where
  open fl use {F}

  -- A step keeps the configuration, and its calls count what its counters count.
  pub record IsExported (lb after : LoadBalancer F) (calls : List (Call F)) : Type 0 where
    pub same_config : after.config ≡ lb.config
    pub exported : AreExported lb.config.enable_metrics lb.probe_stats after.probe_stats calls

  pub IsSent-config :
      (now : Time) (lb after : LoadBalancer F) (targets : List ServerRef)
      → IsSent fl now lb after targets
      → after.config ≡ lb.config
  IsSent-config now lb after targets (nobody e z) = ap (λ (l : LoadBalancer F). l.config) e
  IsSent-config now lb after targets (counted e known) = ap (λ (l : LoadBalancer F). l.config) e

  pub on_query_arrival-IsSent :
      (draw : F) (perm : List ℕ) (now : Time) (lb after : LoadBalancer F) (targets : List ServerRef)
      → on_query_arrival fl draw perm now lb ≡ some (after, targets)
      → IsSent fl now lb after targets
  unfolding on_query_arrival
  on_query_arrival-IsSent draw perm now lb after targets e =
      by_count (query_probe_count fl draw lb) e
    where
      by_count :
          (n : Option ℤ)
          → trigger_count fl perm now n lb ≡ some (after, targets)
          → IsSent fl now lb after targets
      by_count none e = result-IsSent fl now lb lb after [] targets (nobody refl refl) e
      by_count (some n) e = trigger_probes-IsSent fl perm now n lb after targets e

  handle_probed-config :
      (draw : F) (now : Time) (srv : ServerRef) (r : ProbeStats × Option ProbeResult)
      (lb : LoadBalancer F)
      → (handle_probed fl draw now srv r lb).config ≡ lb.config
  unfolding handle_probed handle_probe_result accept_probe
  handle_probed-config draw now srv (st, none) lb = refl
  handle_probed-config draw now srv (st, some result) lb = refl

  pub finish_probe-IsExported :
      (late : Bool) (draw : F) (read_at now : Time) (seconds : F) (srv : ServerRef) (reply : Reply)
      (lb : LoadBalancer F)
      → IsExported lb
          (finish_probe fl draw read_at now srv reply lb)
          (finish_calls fl late draw read_at now seconds srv reply lb)
  unfolding finish_probe
  finish_probe-IsExported late draw read_at now seconds srv reply lb = record {
    same_config =
        handle_probed-config draw now srv (probe_server fl read_at reply lb.probe_stats) lb;
    exported = finish_calls-AreExported fl late draw read_at now seconds srv reply lb;
  }

  pub begin-IsExported : (lb : LoadBalancer F) → IsExported lb lb (probe_begin_calls lb.config)
  unfolding probe_begin_calls
  begin-IsExported lb = record {
    same_config = refl;
    exported = when_on-AreExported lb.config _ lb.probe_stats (refl, tt);
  }

  -- Calls and changes that count no probe.
  pub more-IsExported :
      (lb a after : LoadBalancer F) (calls more : List (Call F))
      → IsExported lb a calls
      → after.config ≡ a.config
      → after.probe_stats ≡ a.probe_stats
      → AreExported lb.config.enable_metrics a.probe_stats a.probe_stats more
      → IsExported lb after (calls ++ more)
  more-IsExported lb a after calls more k c s x = record {
    same_config = c ∙ k.same_config;
    exported = rw s (
        AreExported-append lb.config.enable_metrics lb.probe_stats a.probe_stats a.probe_stats calls
          more k.exported x);
  }

  -- What follows SelectServer counts no probe.
  pub after_select-IsExported :
      (r : Option (LoadBalancer F × Option ServerRef)) (lb after : LoadBalancer F)
      (srv : Option ServerRef) (calls : List (Call F))
      → ((a : LoadBalancer F) (s : Option ServerRef) → r ≡ some (a, s) → IsExported lb a calls)
      → after_select r ≡ some (after, srv)
      → IsExported lb after (calls ++ found_calls lb.config srv)
  unfolding after_select end_request count_failed found_calls forward_begin_calls
  after_select-IsExported none lb after srv calls h e = cc
  after_select-IsExported (some (a, none)) lb after srv calls h e =
      subst
        (λ (p : LoadBalancer F × Option ServerRef).
          IsExported lb p.0 (calls ++ found_calls lb.config p.1))
        (some-injective _ _ e)
        (more-IsExported lb a (end_request (count_failed a)) calls [] (h a none refl) refl refl
          (none-AreExported lb.config.enable_metrics a.probe_stats))
  after_select-IsExported (some (a, some s)) lb after srv calls h e =
      subst
        (λ (p : LoadBalancer F × Option ServerRef).
          IsExported lb p.0 (calls ++ found_calls lb.config p.1))
        (some-injective _ _ e)
        (more-IsExported lb a a calls (forward_begin_calls lb.config) (h a (some s) refl) refl refl
          (when_on-AreExported lb.config _ a.probe_stats (refl, tt)))

  pub enter-IsExported :
      (now_q now_ttl now_log : Time) (draw : ℕ) (lb after : LoadBalancer F) (srv : Option ServerRef)
      → enter fl now_q now_ttl now_log draw lb ≡ some (after, srv)
      → IsExported lb after (enter_calls fl now_q now_ttl srv (begin_request lb))
  unfolding enter begin_request enter_calls
  enter-IsExported now_q now_ttl now_log draw lb after srv e =
      after_select-IsExported (select_server fl now_q now_ttl now_log draw (begin_request lb)) lb
        after srv (select_calls fl lb.config.algorithm now_q now_ttl (begin_request lb))
        (λ a s q.
          let (c, x) =
            select_server-AreExported fl now_q now_ttl now_log draw (begin_request lb) a s q in
          record { same_config = c; exported = x })
        e

  served_calls-AreExported :
      (cfg : Config F) (f : Forward) (seconds : F) (st : ProbeStats)
      → AreExported cfg.enable_metrics st st (served_calls cfg f seconds)
  unfolding served_calls
  served_calls-AreExported cfg relayed seconds st = when_on-AreExported cfg _ st (refl, tt)
  served_calls-AreExported cfg timed_out seconds st = when_on-AreExported cfg _ st (refl, tt)
  served_calls-AreExported cfg proxy_failed seconds st = when_on-AreExported cfg _ st (refl, tt)
  served_calls-AreExported cfg aborted seconds st = none-AreExported cfg.enable_metrics st

  -- The calls behind the reverse proxy.
  leave_calls-AreExported :
      (cfg : Config F) (f : Forward) (seconds : F) (st : ProbeStats)
      → AreExported cfg.enable_metrics st st (leave_calls fl cfg f seconds)
  unfolding leave_calls forward_end_calls
  leave_calls-AreExported cfg f seconds st =
      AreExported-append cfg.enable_metrics st st st (forward_end_calls cfg)
        (served_calls cfg f seconds) (when_on-AreExported cfg _ st (refl, tt))
        (served_calls-AreExported cfg f seconds st)

  pub leave-IsExported :
      (f : Forward) (seconds : F) (lb : LoadBalancer F)
      → IsExported lb (leave f lb) (leave_calls fl lb.config f seconds)
  unfolding leave forward_request after_forward end_request count_failed count_successful
  leave-IsExported relayed seconds lb = record {
    same_config = refl;
    exported = leave_calls-AreExported lb.config relayed seconds lb.probe_stats;
  }
  leave-IsExported timed_out seconds lb = record {
    same_config = refl;
    exported = leave_calls-AreExported lb.config timed_out seconds lb.probe_stats;
  }
  leave-IsExported proxy_failed seconds lb = record {
    same_config = refl;
    exported = leave_calls-AreExported lb.config proxy_failed seconds lb.probe_stats;
  }
  leave-IsExported aborted seconds lb = record {
    same_config = refl;
    exported = leave_calls-AreExported lb.config aborted seconds lb.probe_stats;
  }
