-- ===== src/Balancer/Serve/Traffic.antt =====
-- balancer.go, ServeHTTP: what the counters say after any interleaving of requests, registrations and probes.
use prequal_nc.Base.{
  ℕ, List, suc, ◌<◌, ◌≡◌, refl, ap, subst, sym, ◌∙◌, ℤ, pos, wrap32_id, In, Option, none, some,
  arith,
}
use prequal_nc.Float.{Float64, FloatLaws}
use prequal_nc.Time.{Time}
use prequal_nc.Types.{ServerRef, Server, ProbeResult, Config}
use prequal_nc.Pool.{Heap}
use prequal_nc.Balancer.{LoadBalancer, new_load_balancer, add_server}
use prequal_nc.Balancer.Counts.{SameCounts}
use prequal_nc.Balancer.Probe.Effect.{trigger_probes-SameButProbes}
use prequal_nc.Balancer.Probe.{trigger_probes, accept_probe, handle_probe_result}
use prequal_nc.Balancer.Accept.{IsReuseBound}
use prequal_nc.Balancer.History.{
  LbInv, new-LbInv, SamePool-LbInv, add_server-LbInv, handle_probe_result-LbInv,
  select_server-LbInv,
}
use prequal_nc.Balancer.Serve.{
  Forward, relayed, timed_out, proxy_failed, aborted, begin_request, end_request, count_failed,
  count_successful, forward_request, after_forward, leave, after_select, enter,
}
use prequal_nc.Balancer.Serve.Counting.{
  Requests, ended_by, AreCounts, forwarded-after, refused-after, same-AreCounts,
  begin_request-AreCounts, leave-AreCounts, refusal-AreCounts,
}

module _ (fl : Float64) (laws : FloatLaws fl) where
  open fl use {F}

  -- Histories of requests, registrations, probes and answers to probes, in any order: a request may begin and end
  -- while others are in flight.
  pub data Served : LoadBalancer F → Requests → Type 0 where
    opened :
        (servers : ServerRef → Server) (entries : Heap) (cfg : Config F)
        → IsReuseBound cfg
        → Served
            (new_load_balancer fl servers entries cfg).0
            (record { in_flight = 0; successful = 0; failed = 0; broken = 0 })
    joined :
        {lb : LoadBalancer F} {t : Requests} (s : ServerRef)
        → Served lb t
        → Served (add_server fl s lb) t
    sent :
        {lb after : LoadBalancer F} {t : Requests} (perm : List ℕ) (now : Time) (count : ℤ)
        (targets : List ServerRef)
        → trigger_probes fl perm now count lb ≡ some (after, targets)
        → Served lb t
        → Served after t
    probed :
        {lb : LoadBalancer F} {t : Requests} (draw : F) (now : Time) (srv : ServerRef)
        (result : Option ProbeResult)
        → In srv lb.servers
        → Served lb t
        → Served (handle_probe_result fl draw now srv result lb) t
    forwarding :
        {lb after : LoadBalancer F} {t : Requests} (now_q now_ttl now_log : Time) (draw : ℕ)
        (s : ServerRef)
        → enter fl now_q now_ttl now_log draw lb ≡ some (after, some s)
        → Served lb t
        → Served after (record t { in_flight = suc t.in_flight })
    refused :
        {lb after : LoadBalancer F} {t : Requests} (now_q now_ttl now_log : Time) (draw : ℕ)
        → enter fl now_q now_ttl now_log draw lb ≡ some (after, none)
        → Served lb t
        → Served after (record t { failed = suc t.failed })
    ended :
        {lb : LoadBalancer F} {t : Requests} (f : Forward)
        → 0 < t.in_flight
        → Served lb t
        → Served (leave f lb) (ended_by f t)

  begin_request-LbInv : (lb : LoadBalancer F) → LbInv fl laws lb → LbInv fl laws (begin_request lb)
  unfolding begin_request
  begin_request-LbInv lb v = SamePool-LbInv fl laws lb _ (refl, refl, refl, refl, refl) refl v

  end_request-LbInv : (lb : LoadBalancer F) → LbInv fl laws lb → LbInv fl laws (end_request lb)
  unfolding end_request
  end_request-LbInv lb v = SamePool-LbInv fl laws lb _ (refl, refl, refl, refl, refl) refl v

  count_failed-LbInv : (lb : LoadBalancer F) → LbInv fl laws lb → LbInv fl laws (count_failed lb)
  unfolding count_failed
  count_failed-LbInv lb v = SamePool-LbInv fl laws lb _ (refl, refl, refl, refl, refl) refl v

  leave-LbInv : (f : Forward) (lb : LoadBalancer F) → LbInv fl laws lb → LbInv fl laws (leave f lb)
  unfolding leave after_forward forward_request count_successful
  leave-LbInv relayed lb v =
      end_request-LbInv _ (SamePool-LbInv fl laws lb _ (refl, refl, refl, refl, refl) refl v)
  leave-LbInv timed_out lb v = end_request-LbInv _ (count_failed-LbInv lb v)
  leave-LbInv proxy_failed lb v = end_request-LbInv _ (count_failed-LbInv lb v)
  leave-LbInv aborted lb v = end_request-LbInv lb v

  handle_probe_result-SameCounts :
      (draw : F) (now : Time) (srv : ServerRef) (result : Option ProbeResult) (lb : LoadBalancer F)
      → SameCounts (handle_probe_result fl draw now srv result lb) lb
  unfolding handle_probe_result accept_probe
  handle_probe_result-SameCounts draw now srv none lb = (refl, refl)
  handle_probe_result-SameCounts draw now srv (some result) lb = (refl, refl)

  forwarding-AreCounts :
      (now_q now_ttl now_log : Time) (draw : ℕ) (s : ServerRef) (lb after : LoadBalancer F)
      (t : Requests)
      → enter fl now_q now_ttl now_log draw lb ≡ some (after, some s)
      → LbInv fl laws lb × AreCounts lb t
      → LbInv fl laws after × AreCounts after (record t { in_flight = suc t.in_flight })
  unfolding enter
  forwarding-AreCounts now_q now_ttl now_log draw s lb after t e (v, c) =
      let (a, srv, r, known, w, same) =
        select_server-LbInv fl laws now_q now_ttl now_log draw (begin_request lb)
          (begin_request-LbInv lb v) in
      let q = forwarded-after srv a after s (ap after_select (sym r) ∙ e) in
      (
        subst (LbInv fl laws) q w,
        subst (λ l. AreCounts l (record t { in_flight = suc t.in_flight })) q
            (same-AreCounts (begin_request lb) a _ same (begin_request-AreCounts lb t c)),
      )

  refused-AreCounts :
      (now_q now_ttl now_log : Time) (draw : ℕ) (lb after : LoadBalancer F) (t : Requests)
      → enter fl now_q now_ttl now_log draw lb ≡ some (after, none)
      → LbInv fl laws lb × AreCounts lb t
      → LbInv fl laws after × AreCounts after (record t { failed = suc t.failed })
  unfolding enter
  refused-AreCounts now_q now_ttl now_log draw lb after t e (v, c) =
      let (a, srv, r, known, w, same) =
        select_server-LbInv fl laws now_q now_ttl now_log draw (begin_request lb)
          (begin_request-LbInv lb v) in
      let q = refused-after srv a after (ap after_select (sym r) ∙ e) in
      let busy : Requests = record t { in_flight = suc t.in_flight } in
      (
        subst (LbInv fl laws) q (end_request-LbInv _ (count_failed-LbInv a w)),
        subst (λ l. AreCounts l (record t { failed = suc t.failed })) q
            (refusal-AreCounts a t
              (same-AreCounts (begin_request lb) a busy same (begin_request-AreCounts lb t c))),
      )

  Served-both :
      {lb : LoadBalancer F} {t : Requests} → Served lb t → LbInv fl laws lb × AreCounts lb t
  unfolding new_load_balancer add_server
  Served-both (opened servers entries cfg r) = (
    new-LbInv fl laws servers entries cfg r,
    record {
      total = refl;
      successful = refl;
      failed = refl;
      active = sym (wrap32_id (pos 0) (omega arith) (omega arith));
    },
  )
  Served-both (joined {lb = lb} {t = t} s h) =
      let (v, c) = Served-both h in
      (add_server-LbInv fl laws s lb v, same-AreCounts lb _ t (refl, refl) c)
  Served-both (sent {lb = lb} {after = after} {t = t} perm now count targets e h) =
      let (pool, dist, counts) =
        trigger_probes-SameButProbes fl perm now count lb after targets e in
      let (v, c) = Served-both h in
      (SamePool-LbInv fl laws lb after pool dist v, same-AreCounts lb after t counts c)
  Served-both (probed {lb = lb} {t = t} draw now srv result known h) =
      let (v, c) = Served-both h in
      (
        handle_probe_result-LbInv fl laws draw now srv result lb known v,
        same-AreCounts lb _ t (handle_probe_result-SameCounts draw now srv result lb) c,
      )
  Served-both (forwarding {lb = lb} {after = after} {t = t} now_q now_ttl now_log draw s e h) =
      forwarding-AreCounts now_q now_ttl now_log draw s lb after t e (Served-both h)
  Served-both (refused {lb = lb} {after = after} {t = t} now_q now_ttl now_log draw e h) =
      refused-AreCounts now_q now_ttl now_log draw lb after t e (Served-both h)
  Served-both (ended {lb = lb} {t = t} f p h) =
      let (v, c) = Served-both h in (leave-LbInv f lb v, leave-AreCounts f lb t p c)

  -- Under the laws of float64, with a reuse bound that is an int32 and not negative: however requests,
  -- registrations, probes and answers to probes follow one another, and whatever ends a request, a
  -- panic of the proxy included, the requests counted are those in flight, successful, failed and
  -- broken off together, modulo 2^64; the successful and the failed ones are counted each; and
  -- activeForwards is the number of those in flight, as an int32.
  pub Served-AreCounts : {lb : LoadBalancer F} {t : Requests} → Served lb t → AreCounts lb t
  Served-AreCounts h = (Served-both h).1
