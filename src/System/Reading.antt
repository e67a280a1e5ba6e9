-- ===== src/System/Reading.antt =====
-- The load balancer with its replicas: an answer that is read, and a choice, keep what holds of the whole.
use prequal_nc.Base.{
  ℕ, suc, ◌≡◌, refl, ap, subst, sym, ◌∙◌, Option, some, List, ◌∷◌, ◌++◌, All, All-map, In, In-All,
}
use prequal_nc.Float.{Float64, FloatLaws}
use prequal_nc.Time.{Time}
use prequal_nc.Types.{ServerRef}
use prequal_nc.Balancer.{LoadBalancer}
use prequal_nc.Balancer.Probe.{transport_error, probe_server, accept_probe, handle_probe_result}
use prequal_nc.Balancer.Select.{select_server}
use prequal_nc.Balancer.Select.Effect.{IsChoice-servers, select_server-IsChoice}
use prequal_nc.Balancer.History.{
  SamePool-LbInv, handle_probe_result-LbInv, returned-LbInv, select_server-LbInv,
}
use prequal_nc.Backend.{HealthHeaders}
use prequal_nc.Backend.Health.{health_reply}
use prequal_nc.System.{Answer, System, count_choice, handle_probed, finish_probe}
use prequal_nc.System.Reads.{rif_after, estimate_after, finish_probe-health}
use prequal_nc.System.Provenance.{
  AreFrom, IsHonest, IsHonest-later, IsReply, chosen-AreFrom, accepted-AreFrom,
}
use prequal_nc.System.Steps.{All-without, SystemInv}

module _ (fl : Float64) (laws : FloatLaws fl) where
  open fl use {F}

  pub accepted-SystemInv :
      (y : System F) (a : Answer) (draw : F) (read_at now : Time)
      (replies : List (ServerRef × HealthHeaders))
      → In a y.answers
      → IsHonest y.lb.servers y.chosen a
      → All (IsReply y.answers) replies
      → SystemInv fl laws y
      → SystemInv fl laws (record y {
        lb =
            accept_probe fl draw now a.server
              (record {
                timestamp = read_at;
                rif = rif_after a.work;
                latency = estimate_after a.work;
              })
              y.lb;
        replies = replies;
      })
  unfolding accept_probe handle_probe_result
  accepted-SystemInv y a draw read_at now replies given honest left v = record {
    lb =
        handle_probe_result-LbInv fl laws draw now a.server
          (some (record {
            timestamp = read_at;
            rif = rif_after a.work;
            latency = estimate_after a.work;
          }))
          y.lb honest.known v.lb;
    replicas = v.replicas;
    in_range = v.in_range;
    probes = v.probes;
    answers = v.answers;
    replies = left;
    pool =
        accepted-AreFrom fl laws y.answers y.chosen draw now read_at a y.lb v.lb given honest
          v.pool;
  }

  -- A response under way is read as the answer that it carries.
  pub reply-accept_probe :
      (y : System F) (s : ServerRef) (headers : HealthHeaders) (draw : F) (read_at now : Time)
      → (r : IsReply y.answers (s, headers)) → SystemInv fl laws y
      → finish_probe fl draw read_at now s (health_reply headers) y.lb
        ≡ accept_probe fl draw now r.answer.server
            (record {
              timestamp = read_at;
              rif = rif_after r.answer.work;
              latency = estimate_after r.answer.work;
            })
            y.lb
  reply-accept_probe y s headers draw read_at now r v =
      let honest = In-All (IsHonest y.lb.servers y.chosen) r.answer y.answers v.answers r.given in
      let server = ap (λ (p : ServerRef × HealthHeaders). p.0) r.sent in
      let text = ap (λ (p : ServerRef × HealthHeaders). health_reply p.1) r.sent in
      ap (λ t. finish_probe fl draw read_at now t (health_reply headers) y.lb) server
      ∙ ap (λ p. finish_probe fl draw read_at now r.answer.server p y.lb) text
      ∙ finish_probe-health fl draw read_at now r.answer.server y.lb honest.worked honest.in_range

  pub read-SystemInv :
      (y : System F) (before : List (ServerRef × HealthHeaders)) (s : ServerRef)
      (headers : HealthHeaders) (behind : List (ServerRef × HealthHeaders)) (draw : F)
      (read_at now : Time)
      → y.replies ≡ before ++ (s, headers) ∷ behind
      → SystemInv fl laws y
      → SystemInv fl laws (record y {
        lb = finish_probe fl draw read_at now s (health_reply headers) y.lb;
        replies = before ++ behind;
      })
  read-SystemInv y before s headers behind draw read_at now e v =
      let (r, others) =
        All-without (IsReply y.answers) before (s, headers) behind
          (subst (All (IsReply y.answers)) e v.replies) in
      let honest = In-All (IsHonest y.lb.servers y.chosen) r.answer y.answers v.answers r.given in
      let read = reply-accept_probe y s headers draw read_at now r v in
      subst (λ lb. SystemInv fl laws (record y { lb = lb; replies = before ++ behind })) (sym read)
        (accepted-SystemInv y r.answer draw read_at now (before ++ behind) r.given honest others v)

  -- A response that does not come back moves the counters only.
  pub lost-SystemInv :
      (y : System F) (before : List (ServerRef × HealthHeaders)) (s : ServerRef)
      (headers : HealthHeaders) (behind : List (ServerRef × HealthHeaders)) (draw : F)
      (read_at now : Time)
      → y.replies ≡ before ++ (s, headers) ∷ behind
      → SystemInv fl laws y
      → SystemInv fl laws (record y {
        lb = finish_probe fl draw read_at now s transport_error y.lb;
        replies = before ++ behind;
        lost = suc y.lost;
      })
  unfolding finish_probe handle_probed handle_probe_result probe_server AreFrom
  lost-SystemInv y before s headers behind draw read_at now e v =
      let (r, others) =
        All-without (IsReply y.answers) before (s, headers) behind
          (subst (All (IsReply y.answers)) e v.replies) in
      record {
        lb = SamePool-LbInv fl laws y.lb _ (refl, refl, refl, refl, refl) refl v.lb;
        replicas = v.replicas;
        in_range = v.in_range;
        probes = v.probes;
        answers = v.answers;
        replies = others;
        pool = v.pool;
      }

  pub chose-SystemInv :
      (y : System F) (now_q now_ttl now_log : Time) (draw : ℕ) (after : LoadBalancer F)
      (srv : Option ServerRef)
      → select_server fl now_q now_ttl now_log draw y.lb ≡ some (after, srv)
      → SystemInv fl laws y
      → SystemInv fl laws (record y { lb = after; chosen = count_choice srv y.chosen })
  chose-SystemInv y now_q now_ttl now_log draw after srv e v =
      let next =
        returned-LbInv fl laws _ y.lb after srv e
          (select_server-LbInv fl laws now_q now_ttl now_log draw y.lb v.lb) in
      let choice =
        select_server-IsChoice fl laws now_q now_ttl now_log draw y.lb after srv v.lb e in
      let same = IsChoice-servers fl y.lb after srv choice in
      record {
        lb = next;
        replicas = v.replicas;
        in_range = v.in_range;
        probes = rw same v.probes;
        answers =
            rw same (All-map _ _ y.answers (IsHonest-later y.lb.servers y.chosen srv) v.answers);
        replies = v.replies;
        pool = chosen-AreFrom fl laws y.answers y.chosen y.lb after srv choice v.pool;
      }
