-- ===== src/Balancer/Probe/Reuse.antt =====
-- balancer.go, computeBReuse: how often an entry may be used.
use prequal_nc.Base.{
  ℕ, ◌+◌, ◌≤◌, ◌<◌, ◌^◌, ◌≡◌, refl, ap, subst, ◌∙◌, ◌⊎◌, inl, inr, pos, ltb_ℤ, ◌≤ℤ◌, true, false,
  ◌&&◌, arith, Bool-cases, if◌then◌else◌,
}
use prequal_nc.Float.{Float64, FloatLaws}
use prequal_nc.Types.{Config}
use prequal_nc.Balancer.Probe.{round_randomly, reuse_budget, compute_b_reuse}

-- The bound that MaxReusePool sets, which is never below 1.
abbrev pub reuse_limit : ℕ → ℕ
reuse_limit m = if ltb_ℤ (pos m) (pos 1) then 1 else m

module _ (fl : Float64) (laws : FloatLaws fl) where
  open fl use {F, of_int, trunc, fsub, flt, fle}

  -- Rounding a number between two natural numbers, up or down, stays between them.
  pub round_randomly-between :
      (draw x : F) (a b : ℕ)
      → a ≤ 2 ^ 53
      → b ≤ 2 ^ 53
      → fle (of_int (pos a)) x ≡ true
      → fle x (of_int (pos b)) ≡ true
      → (pos a ≤ℤ round_randomly fl draw x) × (round_randomly fl draw x ≤ℤ pos b)
  unfolding round_randomly
  round_randomly-between draw x a b r s h k =
      let nonneg : fle (of_int (pos 0)) x ≡ true =
        laws.fle_trans (of_int (pos 0)) (of_int (pos a)) x
          (laws.of_int_mono (pos 0) (pos a) (omega arith)) h in
      ground (arith, laws.trunc_between x a b r s h k, laws.trunc_frac x b s nonneg k)

  at_least_one :
      (most b : F) (m : ℕ)
      → most ≡ of_int (pos m)
      → (b ≡ most) ⊎ (flt b most ≡ true)
      → flt b (of_int (pos 1)) ≡ false
      → (fle (of_int (pos 1)) b ≡ true) × (fle b (of_int (pos m)) ≡ true)
  at_least_one most b m e (inl q) t =
      let same : b ≡ of_int (pos m) = q ∙ e in
      let not_below : flt (of_int (pos m)) (of_int (pos 1)) ≡ false =
        subst (λ y. flt y (of_int (pos 1)) ≡ false) same t in
      rw same (
        laws.of_int_total (pos m) (pos 1) not_below,
        laws.of_int_mono (pos m) (pos m) (omega arith),
      )
  at_least_one most b m e (inr q) t = (
    laws.fle_of_not_flt b most (pos 1) q t,
    subst (λ y. fle b y ≡ true) e (laws.fle_of_flt b most q),
  )

  limit_bounds : (m : ℕ) → (1 ≤ reuse_limit m) × (m ≤ reuse_limit m) × (reuse_limit m ≤ m + 1)
  limit_bounds m = ground arith

  budget-between :
      (most b : F) (m : ℕ)
      → most ≡ of_int (pos m)
      → (b ≡ most) ⊎ (flt b most ≡ true)
      → let c = if flt b (of_int (pos 1)) then of_int (pos 1) else b in
        (fle (of_int (pos 1)) c ≡ true) × (fle c (of_int (pos (reuse_limit m))) ≡ true)
  budget-between most b m e h =
      let (one, more, most_more) = limit_bounds m in
      let top = of_int (pos (reuse_limit m)) in
      elim (Bool-cases (flt b (of_int (pos 1)))) [
        | inl t ↦ rw t (
          laws.of_int_mono (pos 1) (pos 1) (omega arith),
          laws.of_int_mono (pos 1) (pos (reuse_limit m)) (omega arith),
        )
        | inr t ↦
            let (low, high) = at_least_one most b m e h t in
            rw t (
              low,
              laws.fle_trans b (of_int (pos m)) top high
                  (laws.of_int_mono (pos m) (pos (reuse_limit m)) (omega arith)),
            )
      ]

  reuse_budget-between :
      (cfg : Config F) (m : ℕ)
      → cfg.max_reuse_pool ≡ pos m
      → (fle (of_int (pos 1)) (reuse_budget fl cfg) ≡ true)
        × (fle (reuse_budget fl cfg) (of_int (pos (reuse_limit m))) ≡ true)
  unfolding reuse_budget
  reuse_budget-between cfg m e =
      let most = of_int cfg.max_reuse_pool in
      let denom = fsub cfg.r_probe cfg.r_remove in
      let v = fl.fdiv (fl.fadd (of_int (pos 1)) cfg.delta) denom in
      elim (Bool-cases (flt (of_int (pos 0)) denom && flt v most)) [
        | inl t ↦ rw t (budget-between most v m (ap of_int e) (inr (ground arith)))
        | inr t ↦ rw t (budget-between most most m (ap of_int e) (inl refl))
      ]

  -- Under the laws of float64, with MaxReusePool from 0 to below 2^53: computeBReuse is at least 1 and
  -- at most MaxReusePool (1, if MaxReusePool is 0), whatever the rates, the number of servers and the
  -- random draw are.
  pub compute_b_reuse-bounds :
      (draw : F) (cfg : Config F) (n m : ℕ)
      → cfg.max_reuse_pool ≡ pos m
      → m < 2 ^ 53
      → (pos 1 ≤ℤ compute_b_reuse fl draw cfg n)
        × (compute_b_reuse fl draw cfg n ≤ℤ pos (reuse_limit m))
  unfolding compute_b_reuse
  compute_b_reuse-bounds draw cfg n m e s =
      let (one, more, most_more) = limit_bounds m in
      let (low, high) = reuse_budget-between cfg m e in
      let r =
        round_randomly-between draw (reuse_budget fl cfg) 1 (reuse_limit m) (omega arith)
          (omega arith) low high in
      ground arith
