-- ===== src/Balancer/Probe/Arrival.antt =====
-- balancer.go, onQueryArrival: how many probes a request sends.
use prequal_nc.Base.{
  ℕ, zero, suc, ◌≤◌, ◌<◌, ◌^◌, ◌≡◌, refl, ap, ◌∙◌, ◌⊎◌, inl, inr, ℤ, pos, negsuc, ◌≤ℤ◌, ◌==ℤ◌, true,
  none, some, List, [], arith, Bool-cases, All, In, IsDistinct, length, min, if◌then◌else◌,
}
use prequal_nc.Float.{Float64, FloatLaws}
use prequal_nc.Time.{Time}
use prequal_nc.Types.{ServerRef}
use prequal_nc.Balancer.{LoadBalancer}
use prequal_nc.Balancer.Probe.{
  round_randomly, effective_r_probe, query_probe_count, trigger_count, on_query_arrival,
}
use prequal_nc.Balancer.Probe.Reuse.{round_randomly-between}
use prequal_nc.Balancer.Probe.Rate.{IsPermutation, trigger_probes-Triggered}

module _ (fl : Float64) (laws : FloatLaws fl) where
  open fl use {F, of_int, fle}

  -- The number of probes that onQueryArrival asks for: none at a rate of 0, and otherwise at most `bound`.
  count-bounded :
      (draw : F) (bound : ℕ) (lb : LoadBalancer F)
      → bound ≤ 2 ^ 53
      → (fle (effective_r_probe fl lb) (of_int (pos 0)) ≡ true)
        ⊎ (fle (of_int (pos 0)) (effective_r_probe fl lb) ≡ true)
      → fle (effective_r_probe fl lb) (of_int (pos bound)) ≡ true
      → (query_probe_count fl draw lb ≡ none)
        ⊎ ((count : ℕ) × (query_probe_count fl draw lb ≡ some (pos count))
            × (0 < count)
            × (count ≤ bound))
  unfolding query_probe_count
  count-bounded draw bound lb small sign high =
      let r = effective_r_probe fl lb in
      elim (Bool-cases (fle r (of_int (pos 0)))) [
        | inl t ↦ inl (rw t refl)
        | inr t ↦
            let nonneg : fle (of_int (pos 0)) r ≡ true = ground (arith, sign) in
            let (least, most) =
              round_randomly-between fl laws draw r 0 bound (omega arith) small nonneg high in
            rw t (by_count (round_randomly fl draw r) least most)
      ]
    where
      by_count :
          (n : ℤ)
          → pos 0 ≤ℤ n
          → n ≤ℤ pos bound
          → ((if n ==ℤ pos 0 then none else some n) ≡ none)
            ⊎ ((count : ℕ) × ((if n ==ℤ pos 0 then none else some n) ≡ some (pos count))
                × (0 < count)
                × (count ≤ bound))
      by_count (pos zero) h k = inl (ground arith)
      by_count (pos (suc n)) h k = inr (suc n, ground arith, omega arith, omega arith)
      by_count (negsuc n) h k = absurd (omega arith)

  -- What a request sends.
  pub record Arrived (draw : F) (perm : List ℕ) (now : Time) (bound : ℕ) (lb : LoadBalancer F)
      : Type 0 where
    pub after : LoadBalancer F
    pub targets : List ServerRef
    pub returns : on_query_arrival fl draw perm now lb ≡ some (after, targets)
    pub fits : length targets ≤ min bound (length lb.servers)
    pub known : All (λ s. In s lb.servers) targets
    pub distinct : IsDistinct lb.servers → IsDistinct targets

  -- Under the laws of float64, with rand.Perm as documented and a rate of effectiveRProbe that is a number, of
  -- at most `bound`: onQueryArrival does not panic, whatever the random draw is, and sends at most `bound`
  -- probes and no more than there are servers, each to a registered server, and none twice if none is
  -- registered twice.
  pub on_query_arrival-Arrived :
      (draw : F) (perm : List ℕ) (now : Time) (bound : ℕ) (lb : LoadBalancer F)
      → bound ≤ 2 ^ 53
      → IsPermutation (length lb.servers) perm
      → (fle (effective_r_probe fl lb) (of_int (pos 0)) ≡ true)
        ⊎ (fle (of_int (pos 0)) (effective_r_probe fl lb) ≡ true)
      → fle (effective_r_probe fl lb) (of_int (pos bound)) ≡ true
      → Arrived draw perm now bound lb
  unfolding on_query_arrival
  on_query_arrival-Arrived draw perm now bound lb small p sign high =
      elim (count-bounded draw bound lb small sign high) [
        | inl e ↦ record {
          after = lb;
          targets = [];
          returns = ap (λ c. trigger_count fl perm now c lb) e;
          fits = omega arith;
          known = tt;
          distinct = λ d. tt;
        }
        | inr (count, e, positive, fits) ↦
            let t = trigger_probes-Triggered fl perm now count lb p in
            record {
              after = t.after;
              targets = t.targets;
              returns = ap (λ c. trigger_count fl perm now c lb) e ∙ t.returns;
              fits = omega (arith, t.size);
              known = t.known;
              distinct = t.distinct;
            }
      ]
