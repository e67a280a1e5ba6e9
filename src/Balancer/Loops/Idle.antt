-- ===== src/Balancer/Loops/Idle.antt =====
-- balancer.go, idleProbeLoop: how long the load balancer can go without a probe.
use prequal_nc.Base.{
  ℕ, zero, suc, ◌<◌, ◌≡◌, refl, subst, sym, ◌⊎◌, inl, inr, ℤ, pos, ltb_ℤ, leb_ℤ, ◌≤ℤ◌, ◌<ℤ◌, ◌+ℤ◌,
  ◌-ℤ◌, -ℤ_parts, +ℤ_parts, true, false, some, List, [], arith, Bool-cases, length, min, ◌==◌,
}
use prequal_nc.Float.{Float64}
use prequal_nc.Time.{Time, max_duration, min_duration, time_sub}
use prequal_nc.Types.{ServerRef}
use prequal_nc.Balancer.{LoadBalancer}
use prequal_nc.Balancer.Probe.Rate.{IsPermutation, trigger_probes-Triggered}
use prequal_nc.Balancer.Loops.{max_idle, idle_round}

-- A difference that is not clamped at the bound.
time_sub-lt : (t u d : ℤ) → d ≤ℤ max_duration → leb_ℤ d (time_sub t u) ≡ false → t <ℤ u +ℤ d
unfolding time_sub
time_sub-lt t u d h e = elim (Bool-cases (ltb_ℤ max_duration (t -ℤ u))) [
  | inl over ↦ let e' = rw over at e in absurd (ground (arith, -ℤ_parts t u, +ℤ_parts u d))
  | inr e1 ↦ elim (Bool-cases (ltb_ℤ (t -ℤ u) min_duration)) [
    | inl under ↦ ground (arith, -ℤ_parts t u, +ℤ_parts u d)
    | inr e2 ↦ let e' = rw (e1, e2) at e in ground (arith, -ℤ_parts t u, +ℤ_parts u d)
  ]
]

min-cases : (m n : ℕ) → 0 < n → (m ≡ 0) ⊎ (0 < min m n)
min-cases zero n h = inl refl
min-cases (suc m) n h = inr (omega arith)

module _ (fl : Float64) where
  open fl use {F, trunc}

  -- A round at `now` that returns: it calls triggerProbes exactly if the time noted as the last probe's is max_idle
  -- old or older, which sends some probe unless the count is 0, and behind it the time noted is younger.
  pub record KeptAlive (perm : List ℕ) (now sent : Time) (count : ℕ) (lb : LoadBalancer F)
      : Type 0 where
    pub after : LoadBalancer F
    pub targets : List ServerRef
    pub returns : idle_round fl perm now sent lb ≡ some (after, targets)
    pub probes :
        ((max_idle fl lb.config ≤ℤ time_sub now lb.last_probe_nanos)
          × (length targets ≡ min count (length lb.servers))
          × ((count ≡ 0) ⊎ (0 < length targets))
          × (after.last_probe_nanos ≡ sent))
        ⊎ ((time_sub now lb.last_probe_nanos <ℤ max_idle fl lb.config)
            × (targets ≡ [])
            × (after ≡ lb))
    pub recent : now <ℤ after.last_probe_nanos +ℤ max_idle fl lb.config

  idle_too_long :
      (perm : List ℕ) (now sent : Time) (count : ℕ) (lb : LoadBalancer F)
      → trunc lb.config.r_probe ≡ pos count
      → IsPermutation (length lb.servers) perm
      → 0 < length lb.servers
      → pos 1 ≤ℤ max_idle fl lb.config
      → now ≤ℤ sent
      → leb_ℤ (max_idle fl lb.config) (time_sub now lb.last_probe_nanos) ≡ true
      → KeptAlive perm now sent count lb
  unfolding idle_round
  idle_too_long perm now sent count lb r p n positive late e =
      let t = trigger_probes-Triggered fl perm sent count lb p in
      let some_servers : (length lb.servers == 0) ≡ false = ground arith in
      let stamped : t.after.last_probe_nanos ≡ sent = rw some_servers at t.stamped in
      let some_sent : (count ≡ 0) ⊎ (0 < length t.targets) =
        subst (λ m. (count ≡ 0) ⊎ (0 < m)) (sym t.size) (min-cases count (length lb.servers) n) in
      record {
        after = t.after;
        targets = t.targets;
        returns = rw (e, r) t.returns;
        probes = inl (ground arith, t.size, some_sent, stamped);
        recent = rw stamped (omega (arith, +ℤ_parts sent (max_idle fl lb.config)));
      }

  not_yet :
      (perm : List ℕ) (now sent : Time) (count : ℕ) (lb : LoadBalancer F)
      → max_idle fl lb.config ≤ℤ max_duration
      → leb_ℤ (max_idle fl lb.config) (time_sub now lb.last_probe_nanos) ≡ false
      → KeptAlive perm now sent count lb
  unfolding idle_round
  not_yet perm now sent count lb h e = record {
    after = lb;
    targets = [];
    returns = rw e refl;
    probes = inr (ground arith, refl, refl);
    recent = time_sub-lt now lb.last_probe_nanos (max_idle fl lb.config) h e;
  }

  -- Where idleProbeLoop runs, that is with a positive max_idle in the range of a Duration, on some servers,
  -- with a probe rate that is `count` or between it and the next number, and a clock that does not go back: a
  -- tick never panics; exactly if the time noted as the last probe's, last_probe_nanos, is max_idle old or older,
  -- it notes a new time and sends `count` probes, or one to each server if there are fewer, so that at least one
  -- is sent unless `count` is 0; and behind the tick the time noted is younger than max_idle, with a `count` of 0
  -- as well, where no probe has been sent.
  pub idle_round-KeptAlive :
      (perm : List ℕ) (now sent : Time) (count : ℕ) (lb : LoadBalancer F)
      → trunc lb.config.r_probe ≡ pos count
      → IsPermutation (length lb.servers) perm
      → 0 < length lb.servers
      → pos 1 ≤ℤ max_idle fl lb.config
      → max_idle fl lb.config ≤ℤ max_duration
      → now ≤ℤ sent
      → KeptAlive perm now sent count lb
  idle_round-KeptAlive perm now sent count lb r p n positive fits late =
      elim (Bool-cases (leb_ℤ (max_idle fl lb.config) (time_sub now lb.last_probe_nanos))) [
        | inl e ↦ idle_too_long perm now sent count lb r p n positive late e
        | inr e ↦ not_yet perm now sent count lb fits e
      ]
