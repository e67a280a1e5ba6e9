-- ===== src/System/Steps.antt =====
-- The load balancer with its replicas: every step keeps what holds of the whole.
use prequal_nc.Base.{
  ℕ, ◌≡◌, refl, subst, sym, inl, inr, ℤ, Option, none, some, List, [], ◌∷◌, ◌++◌, arith, Bool-cases,
  All, All-map, All-append, All-split, In, In-append_left, ◌==◌,
}
use prequal_nc.Float.{Float64, FloatLaws}
use prequal_nc.Time.{Time}
use prequal_nc.Types.{ServerRef, ProbeResult}
use prequal_nc.Balancer.{LoadBalancer, ProbeStats, add_server}
use prequal_nc.Balancer.Probe.{Reply, probe_server, trigger_probes, handle_probe_result}
use prequal_nc.Balancer.Probe.Effect.{
  trigger_probes-SameButProbes, IsSent, nobody, counted, trigger_probes-IsSent,
}
use prequal_nc.Balancer.Choice.{SamePool}
use prequal_nc.Balancer.History.{LbInv, add_server-LbInv, SamePool-LbInv}
use prequal_nc.Backend.{Backend, HealthHeaders, health}
use prequal_nc.Backend.Traffic.{Work, Worked}
use prequal_nc.System.{Answer, System, at_server, handle_probed, finish_probe}
use prequal_nc.System.Reads.{IsInt64}
use prequal_nc.System.Provenance.{IsHonest, IsReply, AreFrom}

-- What holds at a server still holds when it holds of the new value.
pub at_server-All :
    {A : Type 0} (P : A → Type 0) (srv : ServerRef) (a : A) (f : ServerRef → A)
    → P a
    → ((s : ServerRef) → P (f s))
    → (s : ServerRef) → P (at_server srv a f s)
at_server-All P srv a f p h s = elim (Bool-cases (srv == s)) [ inl e ↦ rw e p | inr e ↦ rw e (h s) ]

pub at_server-Worked :
    (srv : ServerRef) (b : Backend) (t : Work) (f : ServerRef → Backend) (g : ServerRef → Work)
    → Worked b t
    → ((s : ServerRef) → Worked (f s) (g s))
    → (s : ServerRef) → Worked (at_server srv b f s) (at_server srv t g s)
at_server-Worked srv b t f g p h s = elim (Bool-cases (srv == s)) [
  | inl e ↦ rw e p
  | inr e ↦ rw e (h s)
]

pub All-without :
    {A : Type 0} (P : A → Type 0) (xs : List A) (a : A) (ys : List A)
    → All P (xs ++ a ∷ ys)
    → P a × All P (xs ++ ys)
All-without P xs a ys h =
    let (hx, hy) = All-split P xs (a ∷ ys) h in (hy.0, All-append P xs ys hx hy.1)

IsReply-later :
    (answers : List Answer) (a : Answer) (replies : List (ServerRef × HealthHeaders))
    → All (IsReply answers) replies
    → All (IsReply (a ∷ answers)) replies
IsReply-later answers a replies =
    All-map _ _ replies (λ r h. record { answer = h.answer; given = inr h.given; sent = h.sent })

-- A probe that brings back nothing moves the counters only.
pub failed_probe :
    (fl : Float64) (draw : fl.F) (now : Time) (s : ServerRef) (r : ProbeStats × Option ProbeResult)
    (lb : LoadBalancer fl.F)
    → r.1 ≡ none
    → handle_probed fl draw now s r lb ≡ record lb { probe_stats = r.0 }
unfolding handle_probed handle_probe_result
failed_probe fl draw now s (st, none) lb q = refl
failed_probe fl draw now s (st, some result) lb q = cc

module _ (fl : Float64) (laws : FloatLaws fl) where
  open fl use {F}

  pub record SystemInv (y : System F) : Type 0 where
    -- The invariant of the load balancer.
    pub lb : LbInv fl laws y.lb
    -- Every replica has a history of its own.
    pub replicas : (s : ServerRef) → Worked (y.replica s) (y.work s)
    pub in_range : (s : ServerRef) → All IsInt64 (y.work s).samples
    -- Only registered servers are probed, and only they have answered.
    pub probes : All (λ s. In s y.lb.servers) y.probes
    pub answers : All (IsHonest y.lb.servers y.chosen) y.answers
    -- Every response on its way, and every entry of the pool, goes back to an answer.
    pub replies : All (IsReply y.answers) y.replies
    pub pool : AreFrom y.answers y.chosen y.lb

  -- Registration moves nothing else.
  pub registered-SystemInv :
      (y : System F) (s : ServerRef)
      → SystemInv y
      → SystemInv (record y { lb = add_server fl s y.lb })
  unfolding add_server AreFrom
  registered-SystemInv y s v =
      let more : (t : ServerRef) → In t y.lb.servers → In t (y.lb.servers ++ s ∷ []) =
        λ t. In-append_left t y.lb.servers (s ∷ []) in
      record {
        lb = add_server-LbInv fl laws s y.lb v.lb;
        replicas = v.replicas;
        in_range = v.in_range;
        probes = All-map _ _ y.probes more v.probes;
        answers =
            All-map _ _ y.answers
              (λ a h. record {
                known = more a.server h.known;
                worked = h.worked;
                in_range = h.in_range;
                earlier = h.earlier;
              })
              v.answers;
        replies = v.replies;
        pool = v.pool;
      }

  -- A step of the load balancer that leaves the registered servers and the pool alone, with fewer probes and
  -- fewer responses on their way.
  SamePool-SystemInv :
      (y : System F) (after : LoadBalancer F) (probes : List ServerRef)
      → SamePool fl after y.lb
      → after.rif_dist ≡ y.lb.rif_dist
      → All (λ s. In s y.lb.servers) probes
      → SystemInv y
      → SystemInv (record y { lb = after; probes = probes })
  unfolding AreFrom
  SamePool-SystemInv y after probes (ee, eh, en, es, ec) ed h v = record {
    lb = SamePool-LbInv fl laws y.lb after (ee, eh, en, es, ec) ed v.lb;
    replicas = v.replicas;
    in_range = v.in_range;
    probes = rw es h;
    answers = rw es v.answers;
    replies = v.replies;
    pool = rw (ee, eh) v.pool;
  }

  pub triggered-SystemInv :
      (y : System F) (perm : List ℕ) (now : Time) (count : ℤ) (after : LoadBalancer F)
      (targets : List ServerRef)
      → trigger_probes fl perm now count y.lb ≡ some (after, targets)
      → SystemInv y
      → SystemInv (record y { lb = after; probes = y.probes ++ targets })
  triggered-SystemInv y perm now count after targets e v =
      let (pool, dist, counts) =
        trigger_probes-SameButProbes fl perm now count y.lb after targets e in
      let known =
        IsSent-In now y.lb after targets
          (trigger_probes-IsSent fl perm now count y.lb after targets e) in
      SamePool-SystemInv y after (y.probes ++ targets) pool dist
        (All-append _ y.probes targets v.probes known) v
    where
      IsSent-In :
          (now : Time) (lb after : LoadBalancer F) (targets : List ServerRef)
          → IsSent fl now lb after targets
          → All (λ s. In s lb.servers) targets
      IsSent-In now lb after targets (nobody e z) = rw z tt
      IsSent-In now lb after targets (counted e h) = h

  pub answered-SystemInv :
      (y : System F) (before : List ServerRef) (s : ServerRef) (behind : List ServerRef)
      → y.probes ≡ before ++ s ∷ behind
      → SystemInv y
      → SystemInv (record y {
        probes = before ++ behind;
        replies = y.replies ++ (s, health (y.replica s)) ∷ [];
        answers =
            record {
              server = s;
              replica = y.replica s;
              work = y.work s;
              chosen_before = y.chosen s;
            }
            ∷ y.answers;
      })
  unfolding AreFrom
  answered-SystemInv y before s behind e v =
      let a : Answer = record {
        server = s;
        replica = y.replica s;
        work = y.work s;
        chosen_before = y.chosen s;
      } in
      let (known, others) =
        All-without (λ t. In t y.lb.servers) before s behind
          (subst (All (λ t. In t y.lb.servers)) e v.probes) in
      record {
        lb = v.lb;
        replicas = v.replicas;
        in_range = v.in_range;
        probes = others;
        answers = (
          record {
            known = known;
            worked = v.replicas s;
            in_range = v.in_range s;
            earlier = omega arith;
          },
          v.answers,
        );
        replies =
            All-append _ y.replies _ (IsReply-later y.answers a y.replies v.replies)
              (record { answer = a; given = inl refl; sent = refl }, tt);
        pool =
            All-map _ _ y.lb.entries
              (λ f h. record {
                answer = h.answer;
                given = inr h.given;
                server = h.server;
                latency = h.latency;
                more = h.more;
                rif = h.rif;
                at_most = h.at_most;
              })
              v.pool;
      }

  pub failed-SystemInv :
      (y : System F) (before : List ServerRef) (s : ServerRef) (behind : List ServerRef) (draw : F)
      (read_at now : Time) (reply : Reply)
      → y.probes ≡ before ++ s ∷ behind
      → (probe_server fl read_at reply y.lb.probe_stats).1 ≡ none
      → SystemInv y
      → SystemInv (record y {
        lb = finish_probe fl draw read_at now s reply y.lb;
        probes = before ++ behind;
      })
  unfolding finish_probe
  failed-SystemInv y before s behind draw read_at now reply e q v =
      let (known, others) =
        All-without (λ t. In t y.lb.servers) before s behind
          (subst (All (λ t. In t y.lb.servers)) e v.probes) in
      let r = probe_server fl read_at reply y.lb.probe_stats in
      subst (λ lb. SystemInv (record y { lb = lb; probes = before ++ behind }))
        (sym (failed_probe fl draw now s r y.lb q))
        (SamePool-SystemInv y (record y.lb { probe_stats = r.0 }) (before ++ behind)
          (refl, refl, refl, refl, refl) refl others v)
