-- ===== src/Balancer/Select/Uncounted.antt =====
-- balancer.go, SelectServer: it counts no probe.
use prequal_nc.Base.{
  ℕ, ◌+◌, ◌-◌, ◌%◌, ◌^◌, ◌≡◌, refl, ap, subst, ◌∙◌, inl, inr, ℤ, pos, negsuc, ltb_ℤ, ◌==ℤ◌,
  add_int32, Bool, Option, none, some, Bool-cases, Option-cases, length, get_elem?, ltb, ◌==◌,
}
use prequal_nc.Float.{Float64}
use prequal_nc.Time.{Time}
use prequal_nc.Types.{ServerRef, EntryRef, Algorithm, prequal, round_robin, other_algorithm}
use prequal_nc.Rif.{RifDistribution, quantile}
use prequal_nc.Balancer.{LoadBalancer, ProbeStats, PickClass, no_pool, inc_uint32, inc_uint64}
use prequal_nc.Balancer.Select.{
  Best, winner_of, charge, without_entry, apply_r_remove, consume_entry, random_server, log_pick,
  select_from, select_with, select_server_prequal, select_server_rr, select_by, select_server,
}

-- The counters of probes sent and of their ends are as they were.
pub record SameProbeCounts (after st : ProbeStats) : Type 0 where
  pub triggered : after.triggered ≡ st.triggered
  pub succeeded : after.succeeded ≡ st.succeeded
  pub failed_error : after.failed_error ≡ st.failed_error
  pub failed_http : after.failed_http ≡ st.failed_http

same_stats : (after st : ProbeStats) → after ≡ st → SameProbeCounts after st
same_stats after st e = record {
  triggered = ap (λ (c : ProbeStats). c.triggered) e;
  succeeded = ap (λ (c : ProbeStats). c.succeeded) e;
  failed_error = ap (λ (c : ProbeStats). c.failed_error) e;
  failed_http = ap (λ (c : ProbeStats). c.failed_http) e;
}

module _ (fl : Float64) where
  open fl use {F, of_int, fle, fadd, trunc}

  pub apply_r_remove-stats :
      (lb : LoadBalancer F) → (apply_r_remove fl lb).probe_stats ≡ lb.probe_stats
  unfolding apply_r_remove
  apply_r_remove-stats lb = elim (Bool-cases (fle lb.config.r_remove (of_int (pos 0)))) [
    | inl off ↦ rw off refl
    | inr on ↦ elim (Bool-cases (trunc (fadd lb.remove_debt lb.config.r_remove) ==ℤ pos 0)) [
      | inl z ↦ rw (on, z) refl
      | inr z ↦ elim (Bool-cases (length lb.entries == 0)) [
        | inl e ↦ rw (on, z, e) refl
        | inr e ↦ rw (on, z, e) refl
      ]
    ]
  ]

  pub consume_entry-stats :
      (e : EntryRef) (lb : LoadBalancer F) → (consume_entry fl e lb).probe_stats ≡ lb.probe_stats
  unfolding consume_entry
  consume_entry-stats e lb =
      let at = charge lb.entries (lb.entry_at e).server lb.entry_at in
      let uses = add_int32 (at e).remaining_uses (negsuc 0) in
      elim (Bool-cases (ltb_ℤ (pos 0) uses)) [
        | inl t ↦ rw t refl
        | inr t ↦ elim (Bool-cases (length (without_entry e lb.entries) == length lb.entries)) [
          | inl k ↦ rw (t, k) refl
          | inr k ↦ rw (t, k) refl
        ]
      ]

  pub log_pick-stats :
      (now : Time) (srv : Option ServerRef) (class : PickClass) (theta : ℤ) (size fresh : ℕ)
      (lb : LoadBalancer F)
      → (log_pick fl now srv class theta size fresh lb).probe_stats ≡ lb.probe_stats
  unfolding log_pick
  log_pick-stats now srv class theta size fresh lb = elim (Bool-cases lb.config.enable_pick_log) [
    | inl t ↦ rw t refl
    | inr t ↦ rw t refl
  ]

  -- Every result of a choice has these counters.
  Uncounted : Option (LoadBalancer F × Option ServerRef) → ProbeStats → Type 0
  Uncounted none st = Unit
  Uncounted (some (after, srv)) st = SameProbeCounts after.probe_stats st

  select_from-Uncounted :
      (now : Time) (draw : ℕ) (theta : ℤ) (b : Best) (lb : LoadBalancer F)
      → Uncounted (select_from fl now draw theta b lb) lb.probe_stats
  unfolding Uncounted select_from
  select_from-Uncounted now draw theta b lb = elim (Bool-cases (ltb b.fresh 2)) [
    | inl few ↦
        let e =
          log_pick-stats now (random_server fl draw lb) no_pool theta (length lb.entries) b.fresh
            (record lb {
              probe_stats = record lb.probe_stats {
                pool_empty = inc_uint64 lb.probe_stats.pool_empty;
              };
            }) in
        rw few (
          rw e (record {
            triggered = refl;
            succeeded = refl;
            failed_error = refl;
            failed_http = refl;
          }))
    | inr many ↦ elim (Option-cases (winner_of b)) [
      | inl n ↦ rw (many, n) tt
      | inr ((e, class), w) ↦
          rw (many, w)
            (same_stats _ lb.probe_stats (
              log_pick-stats now _ class theta (length lb.entries) b.fresh (consume_entry fl e lb)
              ∙ consume_entry-stats e lb))
    ]
  ]

  select_with-Uncounted :
      (now_ttl now_log : Time) (draw : ℕ) (r : RifDistribution F × Option (ℤ × Bool))
      (lb : LoadBalancer F)
      → Uncounted (select_with fl now_ttl now_log draw r lb) lb.probe_stats
  unfolding Uncounted select_with
  select_with-Uncounted now_ttl now_log draw (dist, none) lb = tt
  select_with-Uncounted now_ttl now_log draw (dist, some answer) lb =
      select_from-Uncounted now_log draw _ _ (record lb { rif_dist = dist })

  prequal-Uncounted :
      (now_q now_ttl now_log : Time) (draw : ℕ) (lb : LoadBalancer F)
      → Uncounted (select_server_prequal fl now_q now_ttl now_log draw lb) lb.probe_stats
  unfolding select_server_prequal
  prequal-Uncounted now_q now_ttl now_log draw lb =
      let lb' = apply_r_remove fl lb in
      subst (Uncounted (select_server_prequal fl now_q now_ttl now_log draw lb))
        (apply_r_remove-stats lb)
        (select_with-Uncounted now_ttl now_log draw
          (quantile fl lb'.config.q_rif now_q lb'.rif_dist) lb')

  rr-Uncounted : (lb : LoadBalancer F) → Uncounted (select_server_rr fl lb) lb.probe_stats
  unfolding Uncounted select_server_rr
  rr-Uncounted lb =
      let i = (inc_uint32 lb.rr_index + 2 ^ 32 - 1) % 2 ^ 32 % length lb.servers in
      elim (Bool-cases (length lb.servers == 0)) [
        | inl z ↦ rw z (same_stats lb.probe_stats lb.probe_stats refl)
        | inr z ↦ elim (Option-cases (get_elem? lb.servers i)) [
          | inl r ↦ rw (z, r) tt
          | inr (s, r) ↦ rw (z, r) (same_stats lb.probe_stats lb.probe_stats refl)
        ]
      ]

  by-Uncounted :
      (a : Algorithm) (now_q now_ttl now_log : Time) (draw : ℕ) (lb : LoadBalancer F)
      → Uncounted (select_by fl a now_q now_ttl now_log draw lb) lb.probe_stats
  unfolding select_by
  by-Uncounted round_robin now_q now_ttl now_log draw lb = rr-Uncounted lb
  by-Uncounted prequal now_q now_ttl now_log draw lb =
      prequal-Uncounted now_q now_ttl now_log draw lb
  by-Uncounted (other_algorithm name) now_q now_ttl now_log draw lb =
      prequal-Uncounted now_q now_ttl now_log draw lb

  -- SelectServer counts neither a probe nor the end of one.
  pub select_server-SameProbeCounts :
      (now_q now_ttl now_log : Time) (draw : ℕ) (lb after : LoadBalancer F) (srv : Option ServerRef)
      → select_server fl now_q now_ttl now_log draw lb ≡ some (after, srv)
      → SameProbeCounts after.probe_stats lb.probe_stats
  unfolding Uncounted select_server
  select_server-SameProbeCounts now_q now_ttl now_log draw lb after srv e =
      subst (λ r. Uncounted r lb.probe_stats) e
        (by-Uncounted lb.config.algorithm now_q now_ttl now_log draw lb)
