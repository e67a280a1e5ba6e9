-- ===== src/Balancer/Probe/Effect.antt =====
-- balancer.go, triggerProbes: what it leaves alone.
use mathlib.Core.Option.{some-injective}
use prequal_nc.Base.{
  ℕ, ◌≡◌, refl, subst, inl, inr, ℤ, pos, ltb_ℤ, pos_part, Option, some, List, [], ◌∷◌, ◌+◌, ◌%◌,
  ◌^◌, All, In, get_elem?, get_elem?-In, Bool-cases, Option-cases, length, take, ◌==◌,
  if◌then◌else◌,
}
use prequal_nc.Float.{Float64}
use prequal_nc.Time.{Time}
use prequal_nc.Types.{ServerRef}
use prequal_nc.Balancer.{LoadBalancer}
use prequal_nc.Balancer.Counts.{SameCounts}
use prequal_nc.Balancer.Choice.{SamePool}
use prequal_nc.Balancer.Probe.{targets_of, trigger_probes}

module _ (fl : Float64) where
  open fl use {F}

  abbrev pub SameButProbes : LoadBalancer F → LoadBalancer F → Type 0
  SameButProbes after lb =
      SamePool fl after lb × (after.rif_dist ≡ lb.rif_dist) × SameCounts after lb

  result-SameButProbes :
      (lb a after : LoadBalancer F) (t targets : List ServerRef)
      → SameButProbes a lb
      → ◌≡◌ {A = Option (LoadBalancer F × List ServerRef)} (some (a, t)) (some (after, targets))
      → SameButProbes after lb
  result-SameButProbes lb a after t targets h e =
      subst (λ (p : LoadBalancer F × List ServerRef). SameButProbes p.0 lb) (some-injective _ _ e) h

  -- triggerProbes changes neither the pool nor the distribution nor the counters of requests.
  pub trigger_probes-SameButProbes :
      (perm : List ℕ) (now : Time) (count : ℤ) (lb after : LoadBalancer F)
      (targets : List ServerRef)
      → trigger_probes fl perm now count lb ≡ some (after, targets)
      → SameButProbes after lb
  unfolding trigger_probes
  trigger_probes-SameButProbes perm now count lb after targets e =
      let n = length lb.servers in
      let count' = if ltb_ℤ (pos n) count then pos n else count in
      let same : SameButProbes lb lb = ((refl, refl, refl, refl, refl), refl, (refl, refl)) in
      elim (Bool-cases (n == 0)) [
        | inl z ↦ result-SameButProbes lb lb after _ targets same (rw z at e)
        | inr z ↦ elim (Bool-cases (ltb_ℤ count' (pos 0))) [
          | inl neg ↦ let never = rw (z, neg) at e in cc
          | inr neg ↦ elim (Option-cases (targets_of fl (take (pos_part count') perm) lb.servers)) [
            | inl r ↦ let never = rw (z, neg, r) at e in cc
            | inr (l, r) ↦
                result-SameButProbes lb _ after l targets
                  ((refl, refl, refl, refl, refl), refl, (refl, refl)) (rw (z, neg, r) at e)
          ]
        ]
      ]

  -- What triggerProbes does, where it returns: nothing, where no server is registered; or it notes the time
  -- and counts the targets, all of them registered.
  pub data IsSent (now : Time) (lb after : LoadBalancer F) (targets : List ServerRef) : Type 0 where
    nobody : after ≡ lb → targets ≡ [] → IsSent now lb after targets
    counted :
        after ≡ record lb {
          last_probe_nanos = now;
          probe_stats = record lb.probe_stats {
            triggered = (lb.probe_stats.triggered + length targets) % 2 ^ 64;
          };
        }
        → All (λ s. In s lb.servers) targets
        → IsSent now lb after targets

  targets_of-In :
      (servers : List ServerRef) (perm : List ℕ) (targets : List ServerRef)
      → targets_of fl perm servers ≡ some targets
      → All (λ s. In s servers) targets
  unfolding targets_of
  targets_of-In servers [] targets e = subst (All (λ s. In s servers)) (some-injective _ _ e) tt
  targets_of-In servers (i ∷ perm) targets e = elim (Option-cases (get_elem? servers i)) [
    | inl none_there ↦ let never = rw (targets_of, none_there) at e in cc
    | inr (s, found) ↦ elim (Option-cases (targets_of fl perm servers)) [
      | inl none_left ↦ let never = rw (targets_of, found, none_left) at e in cc
      | inr (l, rest) ↦
          let q : ◌≡◌ {A = Option (List ServerRef)} (some (s ∷ l)) (some targets) =
            rw (targets_of, found, rest) at e in
          subst (All (λ s. In s servers)) (some-injective _ _ q)
            (get_elem?-In servers i s found, targets_of-In servers perm l rest)
    ]
  ]

  pub result-IsSent :
      (now : Time) (lb a after : LoadBalancer F) (t targets : List ServerRef)
      → IsSent now lb a t
      → ◌≡◌ {A = Option (LoadBalancer F × List ServerRef)} (some (a, t)) (some (after, targets))
      → IsSent now lb after targets
  result-IsSent now lb a after t targets h e =
      subst (λ (p : LoadBalancer F × List ServerRef). IsSent now lb p.0 p.1) (some-injective _ _ e)
        h

  pub trigger_probes-IsSent :
      (perm : List ℕ) (now : Time) (count : ℤ) (lb after : LoadBalancer F)
      (targets : List ServerRef)
      → trigger_probes fl perm now count lb ≡ some (after, targets)
      → IsSent now lb after targets
  unfolding trigger_probes
  trigger_probes-IsSent perm now count lb after targets e =
      let n = length lb.servers in
      let count' = if ltb_ℤ (pos n) count then pos n else count in
      let picked = take (pos_part count') perm in
      elim (Bool-cases (n == 0)) [
        | inl z ↦ result-IsSent now lb lb after [] targets (nobody refl refl) (rw z at e)
        | inr z ↦ elim (Bool-cases (ltb_ℤ count' (pos 0))) [
          | inl neg ↦ let never = rw (z, neg) at e in cc
          | inr neg ↦ elim (Option-cases (targets_of fl picked lb.servers)) [
            | inl r ↦ let never = rw (z, neg, r) at e in cc
            | inr (l, r) ↦
                result-IsSent now lb _ after l targets
                  (counted refl (targets_of-In lb.servers picked l r)) (rw (z, neg, r) at e)
          ]
        ]
      ]
