-- ===== src/Metrics/Choice.antt =====
-- SelectServer: the calls on pickClass, and the counter of empty pools.
use mathlib.Core.Option.{some-injective}
use prequal_nc.Base.{
  ℕ, ◌+◌, ◌-◌, ◌%◌, ◌^◌, ◌≡◌, refl, ap, subst, sym, ◌∙◌, ◌⊎◌, inl, inr, ℤ, Bool, Option, none, some,
  List, [], ◌∷◌, Bool-cases, Option-cases, length, get_elem?, ltb, ◌==◌,
}
use prequal_nc.Float.{Float64}
use prequal_nc.Time.{Time}
use prequal_nc.Text.{codes}
use prequal_nc.Types.{ServerRef, EntryRef, Config, Algorithm, prequal, round_robin, other_algorithm}
use prequal_nc.Rif.{RifDistribution, quantile}
use prequal_nc.Balancer.{
  LoadBalancer, ProbeStats, PickClass, cold, hot, no_pool, inc_uint32, inc_uint64,
}
use prequal_nc.Balancer.Debt.{apply_r_remove-RRemoved}
use prequal_nc.Balancer.Select.{
  Best, winner_of, apply_r_remove, consume_entry, random_server, log_pick, select_from, select_with,
  select_server_prequal, select_server_rr, select_by, select_server,
}
use prequal_nc.Balancer.Select.Consume.{consume_entry-same}
use prequal_nc.Balancer.Select.Uncounted.{apply_r_remove-stats, consume_entry-stats, log_pick-stats}
use prequal_nc.Metrics.{pick_class, Call}
use prequal_nc.Metrics.Calls.{
  when_on, by_reason, class_label, pick_calls, scanned_calls, prequal_calls, select_calls,
}
use prequal_nc.Metrics.Export.{AreExported, none-AreExported, when_on-AreExported}

-- The class of a winner is cold or hot.
winner_class :
    (b : Best) (e : EntryRef) (class : PickClass)
    → winner_of b ≡ some (e, class)
    → (class ≡ cold) ⊎ (class ≡ hot)
unfolding winner_of
winner_class b e class h = elim (Option-cases b.cold) [
  | inr ((f, k), c) ↦ inl (class_of f e cold class (rw (c, winner_of) at h))
  | inl c ↦ elim (Option-cases b.hot) [
    | inr ((f, k), d) ↦ inr (class_of f e hot class (rw (c, d, winner_of) at h))
    | inl d ↦ let never = rw (c, d, winner_of) at h in cc
  ]
]
  where
    class_of :
        (f e : EntryRef) (a b : PickClass)
        → ◌≡◌ {A = Option (EntryRef × PickClass)} (some (f, a)) (some (e, b))
        → b ≡ a
    class_of f e a b q = ap (λ (p : EntryRef × PickClass). p.1) (sym (some-injective _ _ q))

module _ (fl : Float64) where
  open fl use {F}

  log_pick-config :
      (now : Time) (srv : Option ServerRef) (class : PickClass) (theta : ℤ) (size fresh : ℕ)
      (lb : LoadBalancer F)
      → (log_pick fl now srv class theta size fresh lb).config ≡ lb.config
  unfolding log_pick
  log_pick-config now srv class theta size fresh lb = elim (Bool-cases lb.config.enable_pick_log) [
    | inl t ↦ rw t refl
    | inr t ↦ rw t refl
  ]

  -- Every result of a choice keeps the configuration, and counts what these calls count.
  unfoldable pub Exports :
      Option (LoadBalancer F × Option ServerRef) → Config F → ProbeStats → List (Call F) → Type 0
  Exports none cfg st calls = Unit
  Exports (some (after, srv)) cfg st calls =
      (after.config ≡ cfg) × AreExported cfg.enable_metrics st after.probe_stats calls

  some-Exports :
      (after : LoadBalancer F) (srv : Option ServerRef) (cfg : Config F) (st st' : ProbeStats)
      (calls : List (Call F))
      → after.config ≡ cfg
      → after.probe_stats ≡ st'
      → AreExported cfg.enable_metrics st st' calls
      → Exports (some (after, srv)) cfg st calls
  unfolding Exports
  some-Exports after srv cfg st st' calls e q h = (e, rw q h)

  winner-AreExported :
      (cfg : Config F) (st : ProbeStats) (class : PickClass)
      → (class ≡ cold) ⊎ (class ≡ hot)
      → AreExported cfg.enable_metrics st st
          (when_on cfg (by_reason cfg pick_class (class_label class) ∷ []))
  winner-AreExported cfg st class (inl e) =
      rw e (when_on-AreExported cfg (by_reason cfg pick_class (codes "cold") ∷ []) st (refl, tt))
  winner-AreExported cfg st class (inr e) =
      rw e (when_on-AreExported cfg (by_reason cfg pick_class (codes "hot") ∷ []) st (refl, tt))

  no_pool-AreExported :
      (cfg : Config F) (st : ProbeStats)
      → AreExported cfg.enable_metrics st
          (record st { pool_empty = inc_uint64 st.pool_empty })
          (when_on cfg (by_reason cfg pick_class (codes "no-pool") ∷ []))
  no_pool-AreExported cfg st =
      when_on-AreExported cfg (by_reason cfg pick_class (codes "no-pool") ∷ []) st (refl, tt)

  select_from-Exports :
      (now : Time) (draw : ℕ) (theta : ℤ) (b : Best) (lb : LoadBalancer F)
      → Exports
          (select_from fl now draw theta b lb)
          lb.config
          lb.probe_stats
          (pick_calls lb.config b)
  unfolding Exports select_from pick_calls
  select_from-Exports now draw theta b lb = elim (Bool-cases (ltb b.fresh 2)) [
    | inl few ↦
        let lb1 : LoadBalancer F = record lb {
          probe_stats = record lb.probe_stats { pool_empty = inc_uint64 lb.probe_stats.pool_empty };
        } in
        let s = random_server fl draw lb in
        let size = length lb.entries in
        rw few (
          some-Exports (log_pick fl now s no_pool theta size b.fresh lb1) s lb.config lb.probe_stats
            _ _ (log_pick-config now s no_pool theta size b.fresh lb1)
            (log_pick-stats fl now s no_pool theta size b.fresh lb1)
            (no_pool-AreExported lb.config lb.probe_stats))
    | inr many ↦ elim (Option-cases (winner_of b)) [
      | inl n ↦ rw (many, n) tt
      | inr ((e, class), w) ↦
          let lb1 = consume_entry fl e lb in
          let s = (lb1.entry_at e).server in
          let size = length lb.entries in
          rw (many, w)
            (some-Exports (log_pick fl now (some s) class theta size b.fresh lb1) (some s) lb.config
              lb.probe_stats lb.probe_stats _
              (log_pick-config now (some s) class theta size b.fresh lb1
                ∙ (consume_entry-same fl e lb).2)
              (log_pick-stats fl now (some s) class theta size b.fresh lb1
                ∙ consume_entry-stats fl e lb)
              (winner-AreExported lb.config lb.probe_stats class (winner_class b e class w)))
    ]
  ]

  select_with-Exports :
      (now_ttl now_log : Time) (draw : ℕ) (r : RifDistribution F × Option (ℤ × Bool))
      (lb : LoadBalancer F)
      → Exports
          (select_with fl now_ttl now_log draw r lb)
          lb.config
          lb.probe_stats
          (scanned_calls fl now_ttl r.1 lb)
  unfolding Exports select_with
  select_with-Exports now_ttl now_log draw (dist, none) lb = tt
  select_with-Exports now_ttl now_log draw (dist, some answer) lb =
      select_from-Exports now_log draw _ _ (record lb { rif_dist = dist })

  prequal-Exports :
      (now_q now_ttl now_log : Time) (draw : ℕ) (lb : LoadBalancer F)
      → Exports
          (select_server_prequal fl now_q now_ttl now_log draw lb)
          lb.config
          lb.probe_stats
          (prequal_calls fl now_q now_ttl lb)
  unfolding select_server_prequal prequal_calls
  prequal-Exports now_q now_ttl now_log draw lb =
      let lb' = apply_r_remove fl lb in
      let r = quantile fl lb'.config.q_rif now_q lb'.rif_dist in
      let calls = scanned_calls fl now_ttl r.1 lb' in
      let result = select_server_prequal fl now_q now_ttl now_log draw lb in
      let same : Exports result lb'.config lb.probe_stats calls =
        subst (λ st. Exports result lb'.config st calls) (apply_r_remove-stats fl lb)
          (select_with-Exports now_ttl now_log draw r lb') in
      subst (λ cfg. Exports result cfg lb.probe_stats calls)
        (apply_r_remove-RRemoved fl lb).same_config same

  rr-Exports : (lb : LoadBalancer F) → Exports (select_server_rr fl lb) lb.config lb.probe_stats []
  unfolding Exports select_server_rr
  rr-Exports lb =
      let i = (inc_uint32 lb.rr_index + 2 ^ 32 - 1) % 2 ^ 32 % length lb.servers in
      let still = none-AreExported lb.config.enable_metrics lb.probe_stats in
      elim (Bool-cases (length lb.servers == 0)) [
        | inl z ↦
            rw z (some-Exports lb none lb.config lb.probe_stats lb.probe_stats [] refl refl still)
        | inr z ↦ elim (Option-cases (get_elem? lb.servers i)) [
          | inl r ↦ rw (z, r) tt
          | inr (s, r) ↦
              rw (z, r)
                (some-Exports (record lb { rr_index = inc_uint32 lb.rr_index }) (some s) lb.config
                  lb.probe_stats lb.probe_stats [] refl refl still)
        ]
      ]

  by-Exports :
      (a : Algorithm) (now_q now_ttl now_log : Time) (draw : ℕ) (lb : LoadBalancer F)
      → Exports
          (select_by fl a now_q now_ttl now_log draw lb)
          lb.config
          lb.probe_stats
          (select_calls fl a now_q now_ttl lb)
  unfolding select_by select_calls
  by-Exports round_robin now_q now_ttl now_log draw lb = rr-Exports lb
  by-Exports prequal now_q now_ttl now_log draw lb = prequal-Exports now_q now_ttl now_log draw lb
  by-Exports (other_algorithm name) now_q now_ttl now_log draw lb =
      prequal-Exports now_q now_ttl now_log draw lb

  -- SelectServer keeps the configuration, and its calls count what its counters count.
  pub select_server-AreExported :
      (now_q now_ttl now_log : Time) (draw : ℕ) (lb after : LoadBalancer F) (srv : Option ServerRef)
      → select_server fl now_q now_ttl now_log draw lb ≡ some (after, srv)
      → (after.config ≡ lb.config)
        × AreExported lb.config.enable_metrics lb.probe_stats after.probe_stats
            (select_calls fl lb.config.algorithm now_q now_ttl lb)
  unfolding Exports select_server
  select_server-AreExported now_q now_ttl now_log draw lb after srv e =
      subst
        (λ r.
          Exports r lb.config lb.probe_stats (select_calls fl lb.config.algorithm now_q now_ttl lb))
        e (by-Exports lb.config.algorithm now_q now_ttl now_log draw lb)
