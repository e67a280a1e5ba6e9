-- ===== src/System/Probes.antt =====
-- The load balancer with its replicas: no probe is lost.
use prequal_nc.Base.{
  ℕ, suc, ◌+◌, ◌/◌, ◌%◌, ◌^◌, ◌≡◌, refl, ap, subst, sym, ◌∙◌, inl, inr, none, List, [], ◌∷◌, ◌++◌,
  arith, Bool-cases, length, length-append, All, ◌==◌,
}
use prequal_nc.Float.{Float64, FloatLaws}
use prequal_nc.Time.{Time}
use prequal_nc.Types.{ServerRef}
use prequal_nc.Balancer.{LoadBalancer, ProbeStats, new_load_balancer, add_server, inc_uint64}
use prequal_nc.Balancer.Probe.{
  Reply, build_error, transport_error, response, probe_server, accept_probe, handle_probe_result,
}
use prequal_nc.Balancer.Probe.Effect.{IsSent, nobody, counted, trigger_probes-IsSent}
use prequal_nc.Balancer.Select.Uncounted.{select_server-SameProbeCounts}
use prequal_nc.Backend.{HealthHeaders, health}
use prequal_nc.Backend.Health.{health_reply}
use prequal_nc.System.{
  System, handle_probed, finish_probe, Run, started, registered, triggered, probe_answered,
  probe_failed, reply_read, reply_lost, request_begun, request_answered, request_given_up, chose,
}
use prequal_nc.System.Provenance.{IsReply}
use prequal_nc.System.Steps.{All-without, SystemInv, failed_probe}
use prequal_nc.System.Reading.{reply-accept_probe}
use prequal_nc.System.Invariant.{Run-SystemInv}

-- The probes that have come to an end, as the load balancer counts them.
abbrev pub failed_probes : ProbeStats → ℕ
failed_probes st = st.failed_error + st.failed_http

-- Every probe that was sent is on its way, or has been counted once when it ended; and every answer of a
-- replica is on its way back, or lost, or has been counted as a success. The counters wrap.
pub record AreAccounted {F : Type 0} (y : System F) : Type 0 where
  pub sent :
      y.lb.probe_stats.triggered
      ≡ (length y.probes
          + length y.replies
          + y.lb.probe_stats.succeeded
          + failed_probes y.lb.probe_stats)
        % 2 ^ 64
  pub answered :
      length y.answers % 2 ^ 64 ≡ (length y.replies + y.lost + y.lb.probe_stats.succeeded) % 2 ^ 64

length-without :
    {A : Type 0} (xs : List A) (a : A) (ys : List A)
    → length (xs ++ a ∷ ys) ≡ suc (length (xs ++ ys))
length-without xs a ys = omega (arith, length-append xs (a ∷ ys), length-append xs ys)

-- A probe that fails is counted once, modulo 2^64.
data IsFailure (after st : ProbeStats) : Type 0 where
  by_error : after ≡ record st { failed_error = inc_uint64 st.failed_error } → IsFailure after st
  by_status : after ≡ record st { failed_http = inc_uint64 st.failed_http } → IsFailure after st

probe_server-IsFailure :
    (fl : Float64) (now : Time) (reply : Reply) (st : ProbeStats)
    → (probe_server fl now reply st).1 ≡ none
    → IsFailure (probe_server fl now reply st).0 st
unfolding probe_server
probe_server-IsFailure fl now build_error st e = by_error refl
probe_server-IsFailure fl now transport_error st e = by_error refl
probe_server-IsFailure fl now (response status rif latency) st e =
    elim (Bool-cases (status / 100 == 2)) [
      | inl ok ↦ let never = rw ok at e in cc
      | inr bad ↦ rw bad (by_status refl)
    ]

IsFailure-AreAccounted :
    {F : Type 0} (y : System F) (after : ProbeStats) (probes : List ServerRef)
    → IsFailure after y.lb.probe_stats
    → length y.probes ≡ suc (length probes)
    → AreAccounted y
    → AreAccounted (record y { lb = record y.lb { probe_stats = after }; probes = probes })
IsFailure-AreAccounted y after probes (by_error e) n c =
    rw e (record { sent = omega (arith, c.sent); answered = c.answered })
IsFailure-AreAccounted y after probes (by_status e) n c =
    rw e (record { sent = omega (arith, c.sent); answered = c.answered })

module _ (fl : Float64) (laws : FloatLaws fl) where
  open fl use {F}

  read-AreAccounted :
      (y : System F) (before : List (ServerRef × HealthHeaders)) (s : ServerRef)
      (headers : HealthHeaders) (behind : List (ServerRef × HealthHeaders)) (draw : F)
      (read_at now : Time)
      → y.replies ≡ before ++ (s, headers) ∷ behind
      → SystemInv fl laws y
      → AreAccounted y
      → AreAccounted (record y {
        lb = finish_probe fl draw read_at now s (health_reply headers) y.lb;
        replies = before ++ behind;
      })
  unfolding accept_probe
  read-AreAccounted y before s headers behind draw read_at now e v c =
      let (r, others) =
        All-without (IsReply y.answers) before (s, headers) behind
          (subst (All (IsReply y.answers)) e v.replies) in
      let n : length y.replies ≡ suc (length (before ++ behind)) =
        ap length e ∙ length-without before (s, headers) behind in
      subst (λ lb. AreAccounted (record y { lb = lb; replies = before ++ behind }))
        (sym (reply-accept_probe fl laws y s headers draw read_at now r v))
        (record { sent = omega (arith, c.sent); answered = omega (arith, c.answered) })

  lost-AreAccounted :
      (y : System F) (before : List (ServerRef × HealthHeaders)) (s : ServerRef)
      (headers : HealthHeaders) (behind : List (ServerRef × HealthHeaders)) (draw : F)
      (read_at now : Time)
      → y.replies ≡ before ++ (s, headers) ∷ behind
      → AreAccounted y
      → AreAccounted (record y {
        lb = finish_probe fl draw read_at now s transport_error y.lb;
        replies = before ++ behind;
        lost = suc y.lost;
      })
  unfolding finish_probe handle_probed handle_probe_result probe_server
  lost-AreAccounted y before s headers behind draw read_at now e c =
      let n : length y.replies ≡ suc (length (before ++ behind)) =
        ap length e ∙ length-without before (s, headers) behind in
      record { sent = omega (arith, c.sent, n); answered = omega (arith, c.answered, n) }

  triggered-AreAccounted :
      (y : System F) (now : Time) (after : LoadBalancer F) (targets : List ServerRef)
      → IsSent fl now y.lb after targets
      → AreAccounted y
      → AreAccounted (record y { lb = after; probes = y.probes ++ targets })
  triggered-AreAccounted y now after targets (nobody e z) c =
      rw (e, z)
        (record { sent = omega (arith, c.sent, length-append y.probes []); answered = c.answered })
  triggered-AreAccounted y now after targets (counted e known) c = rw e (record {
    sent = omega (arith, c.sent, length-append y.probes targets);
    answered = c.answered;
  })

  -- Under the laws of float64, with a reuse bound that is an int32 and not negative, however the probes, the
  -- requests at the replicas and the choices interleave, and whichever probes and answers get lost or are too
  -- late: Triggered is the number of probes on their way to a replica, of responses on their way back, and of the
  -- probes counted as succeeded, failed by an error or failed by their status, modulo 2^64; and as many answers
  -- as replicas have given to probes that the load balancer still waited for are on their way back, or lost
  -- behind the answer, or counted as succeeded, modulo 2^64.
  pub Run-AreAccounted : {y : System F} → Run fl y → AreAccounted y
  unfolding new_load_balancer add_server finish_probe
  Run-AreAccounted (started servers entries cfg r) = record { sent = refl; answered = refl }
  Run-AreAccounted (registered {y = y} s h) =
      let c = Run-AreAccounted h in record { sent = c.sent; answered = c.answered }
  Run-AreAccounted (triggered {y = y} perm now count after targets e h) =
      triggered-AreAccounted y now after targets
        (trigger_probes-IsSent fl perm now count y.lb after targets e) (Run-AreAccounted h)
  Run-AreAccounted (probe_answered {y = y} before s behind e h) =
      let c = Run-AreAccounted h in
      let n = ap length e ∙ length-without before s behind in
      record {
        sent = omega (arith, c.sent, n, length-append y.replies ((s, health (y.replica s)) ∷ []));
        answered =
            omega (arith, c.answered, length-append y.replies ((s, health (y.replica s)) ∷ []));
      }
  Run-AreAccounted (probe_failed {y = y} before s behind draw read_at now reply e q h) =
      let r = probe_server fl read_at reply y.lb.probe_stats in
      subst (λ lb. AreAccounted (record y { lb = lb; probes = before ++ behind }))
        (sym (failed_probe fl draw now s r y.lb q))
        (IsFailure-AreAccounted y r.0 (before ++ behind)
          (probe_server-IsFailure fl read_at reply y.lb.probe_stats q)
          (ap length e ∙ length-without before s behind) (Run-AreAccounted h))
  Run-AreAccounted (reply_read {y = y} before s headers behind draw read_at now e h) =
      read-AreAccounted y before s headers behind draw read_at now e (Run-SystemInv fl laws h)
        (Run-AreAccounted h)
  Run-AreAccounted (reply_lost {y = y} before s headers behind draw read_at now e h) =
      lost-AreAccounted y before s headers behind draw read_at now e (Run-AreAccounted h)
  Run-AreAccounted (request_begun {y = y} s h) =
      let c = Run-AreAccounted h in record { sent = c.sent; answered = c.answered }
  Run-AreAccounted (request_answered {y = y} s is_done work duration_us rif busy q within h) =
      let c = Run-AreAccounted h in record { sent = c.sent; answered = c.answered }
  Run-AreAccounted (request_given_up {y = y} s is_done work duration_us rif busy q h) =
      let c = Run-AreAccounted h in record { sent = c.sent; answered = c.answered }
  Run-AreAccounted (chose {y = y} now_q now_ttl now_log draw after srv e h) =
      let c = Run-AreAccounted h in
      let k = select_server-SameProbeCounts fl now_q now_ttl now_log draw y.lb after srv e in
      record {
        sent = omega (arith, c.sent, k.triggered, k.succeeded, k.failed_error, k.failed_http);
        answered = omega (arith, c.answered, k.succeeded);
      }
