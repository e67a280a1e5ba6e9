-- ===== src/Balancer/Loops/Ticker.antt =====
-- balancer.go, runTickerProbeLoop: every tick before Stop probes every server once.
use prequal_nc.Base.{
  ℕ, suc, ◌+◌, ◌*◌, ◌%◌, ◌^◌, ◌≡◌, refl, ap, subst, sym, ◌∙◌, inl, inr, pos, some, List, [], ◌∷◌,
  arith, Bool-cases, length, ◌==◌,
}
use prequal_nc.Float.{Float64}
use prequal_nc.Time.{Time}
use prequal_nc.Balancer.{LoadBalancer}
use prequal_nc.Balancer.Probe.Rate.{IsPermutation, Triggered, trigger_probes-Triggered}
use prequal_nc.Balancer.Probe.Effect.{SameButProbes, trigger_probes-SameButProbes}
use prequal_nc.Balancer.Loops.{Signal, tick, stopped, ticker_loop}

-- The ticks in front of the first Stop.
abbrev pub ticks_before_stop : List Signal → ℕ
ticks_before_stop [] = 0
ticks_before_stop (stopped ∷ signals) = 0
ticks_before_stop (tick perm now ∷ signals) = suc (ticks_before_stop signals)

-- Every tick comes with a permutation of `n` indices.
abbrev pub HasPermutations : ℕ → List Signal → Type 0
HasPermutations n [] = Unit
HasPermutations n (stopped ∷ signals) = HasPermutations n signals
HasPermutations n (tick perm now ∷ signals) = IsPermutation n perm × HasPermutations n signals

module _ (fl : Float64) where
  open fl use {F}

  -- What the loop does to a load balancer over some signals.
  pub record Ticked (signals : List Signal) (lb : LoadBalancer F) : Type 0 where
    pub after : LoadBalancer F
    pub returns : ticker_loop fl signals lb ≡ some after
    pub same : SameButProbes fl after lb
    pub counted :
        after.probe_stats.triggered % 2 ^ 64
        ≡ (lb.probe_stats.triggered + ticks_before_stop signals * length lb.servers) % 2 ^ 64

  ticker_round-counted :
      (perm : List ℕ) (now : Time) (lb : LoadBalancer F)
      → (t : Triggered fl perm now (length lb.servers) lb)
      → t.after.probe_stats.triggered % 2 ^ 64
        ≡ (lb.probe_stats.triggered + length lb.servers) % 2 ^ 64
  ticker_round-counted perm now lb t = elim (Bool-cases (length lb.servers == 0)) [
    | inl e ↦ let counted = rw e at t.counted in ground (arith, counted)
    | inr e ↦ let counted = rw e at t.counted in let size = t.size in ground (arith, counted, size)
  ]

  one_more :
      (a b c ticks n m : ℕ)
      → n ≡ m
      → a % 2 ^ 64 ≡ (b + ticks * n) % 2 ^ 64
      → b % 2 ^ 64 ≡ (c + m) % 2 ^ 64
      → a % 2 ^ 64 ≡ (c + suc ticks * m) % 2 ^ 64
  one_more a b c ticks n m e f g =
      let k : ticks * n ≡ ticks * m = ap (λ j. ticks * j) e in
      let next : suc ticks * m ≡ m + ticks * m = grind arith in
      sums a b c (ticks * n) (ticks * m) m (suc ticks * m) k next f g
    where
      sums :
          (a b c x y m z : ℕ)
          → x ≡ y
          → z ≡ m + y
          → a % 2 ^ 64 ≡ (b + x) % 2 ^ 64
          → b % 2 ^ 64 ≡ (c + m) % 2 ^ 64
          → a % 2 ^ 64 ≡ (c + z) % 2 ^ 64
      sums a b c x y m z p q f g = omega arith

  trans-SameButProbes :
      (a b c : LoadBalancer F) → SameButProbes fl a b → SameButProbes fl b c → SameButProbes fl a c
  trans-SameButProbes a b c ((p0, p1, p2, p3, p4), q, (r0, r1))
        ((p0', p1', p2', p3', p4'), q', (r0', r1')) =
      ((p0 ∙ p0', p1 ∙ p1', p2 ∙ p2', p3 ∙ p3', p4 ∙ p4'), q ∙ q', (r0 ∙ r0', r1 ∙ r1'))

  -- However many signals come, with rand.Perm as documented: runTickerProbeLoop does not panic; the counter of
  -- probes grows by the number of servers with each tick before Stop, and by nothing behind it, modulo 2^64;
  -- and neither the pool nor the distribution nor the counters of requests change by it.
  pub ticker_loop-Ticked :
      (signals : List Signal) (lb : LoadBalancer F)
      → HasPermutations (length lb.servers) signals
      → Ticked signals lb
  unfolding ticker_loop
  ticker_loop-Ticked [] lb h = record {
    after = lb;
    returns = refl;
    same = ((refl, refl, refl, refl, refl), refl, (refl, refl));
    counted = omega arith;
  }
  ticker_loop-Ticked (stopped ∷ signals) lb h = record {
    after = lb;
    returns = refl;
    same = ((refl, refl, refl, refl, refl), refl, (refl, refl));
    counted = omega arith;
  }
  ticker_loop-Ticked (tick perm now ∷ signals) lb h =
      let t = trigger_probes-Triggered fl perm now (length lb.servers) lb h.0 in
      let once =
        trigger_probes-SameButProbes fl perm now (pos (length lb.servers)) lb t.after t.targets
          t.returns in
      let counted = ticker_round-counted perm now lb t in
      let n : length t.after.servers ≡ length lb.servers = ap length once.0.3 in
      let rest =
        ticker_loop-Ticked signals t.after (subst (λ k. HasPermutations k signals) (sym n) h.1) in
      let more = rest.counted in
      record {
        after = rest.after;
        returns = rw t.returns rest.returns;
        same = trans-SameButProbes rest.after t.after lb rest.same once;
        counted =
            one_more rest.after.probe_stats.triggered t.after.probe_stats.triggered
              lb.probe_stats.triggered (ticks_before_stop signals) (length t.after.servers)
              (length lb.servers) n more counted;
      }
