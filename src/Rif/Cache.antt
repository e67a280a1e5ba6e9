-- ===== src/Rif/Cache.antt =====
-- rif_distribution.go, Observe and Quantile in any order: the distributions that they bring about,
-- and that Quantile returns.
use prequal_nc.Base.{
  ◌≡◌, ◌≢◌, refl, ◌∙◌, sym, inl, inr, ℤ, Bool, true, Option, none, some, Bool-cases,
}
use prequal_nc.Float.{Float64}
use prequal_nc.Time.{Time, Duration, time_back}
use prequal_nc.Rif.{
  RifDistribution, QuantileCache, new_rif_distribution, observe, compute_quantile, is_cached,
  cached_value, store_quantile, quantile, quantile_of, evict_locked,
}
use prequal_nc.Rif.Tally.{IsTally, empty-IsTally}
use prequal_nc.Rif.Window.{observe-IsTally, evict_locked-Evicted}
use prequal_nc.Rif.Quantile.{quantile_of-ne-none}

module _ (fl : Float64) where
  open fl use {F, feq}

  -- The distributions that calls of Observe and Quantile can bring about.
  pub data Reached (window : Duration) : RifDistribution F → Type 0 where
    new : Reached window (new_rif_distribution fl window)
    observed :
        {d : RifDistribution F} (rif : ℤ) (now : Time)
        → Reached window d
        → Reached window (observe fl rif now d)
    asked :
        {d : RifDistribution F} (q : F) (now : Time)
        → Reached window d
        → Reached window (quantile fl q now d).0

  pub compute_quantile-state :
      (q : F) (now : Time) (d : RifDistribution F)
      → (compute_quantile fl q now d).0 ≡ evict_locked fl (time_back now d.max_age) d
  unfolding compute_quantile
  compute_quantile-state q now d = refl

  compute_quantile-answer :
      (q : F) (now : Time) (d : RifDistribution F)
      → let d' = evict_locked fl (time_back now d.max_age) d in
        (compute_quantile fl q now d).1 ≡ quantile_of fl q d'.samples d'.counts
  unfolding compute_quantile
  compute_quantile-answer q now d = refl

  pub store_quantile-answer :
      (q : F) (now : Time) (r : RifDistribution F × Option (ℤ × Bool))
      → (store_quantile fl q now r).1 ≡ r.1
  unfolding store_quantile
  store_quantile-answer q now (d, none) = refl
  store_quantile-answer q now (d, some (theta, valid)) = refl

  stored-IsTally :
      (q : F) (now : Time) (d : RifDistribution F) (answer : Option (ℤ × Bool))
      → IsTally d.samples d.counts
      → let d' = (store_quantile fl q now (d, answer)).0 in IsTally d'.samples d'.counts
  unfolding store_quantile
  stored-IsTally q now d none h = h
  stored-IsTally q now d (some (theta, valid)) h = h

  computed-IsTally :
      (q : F) (now : Time) (d : RifDistribution F)
      → IsTally d.samples d.counts
      → let d' = (store_quantile fl q now (compute_quantile fl q now d)).0 in
        IsTally d'.samples d'.counts
  computed-IsTally q now d h =
      stored-IsTally q now (compute_quantile fl q now d).0 (compute_quantile fl q now d).1 (
        rw (compute_quantile-state q now d)
          (evict_locked-Evicted fl (time_back now d.max_age) d h).tallied)

  quantile-IsTally :
      (q : F) (now : Time) (d : RifDistribution F)
      → IsTally d.samples d.counts
      → let d' = (quantile fl q now d).0 in IsTally d'.samples d'.counts
  unfolding quantile
  quantile-IsTally q now d h = elim (Bool-cases (is_cached fl q now d.cache)) [
    | inl e ↦ rw e h
    | inr e ↦ rw e (computed-IsTally q now d h)
  ]

  -- In every history of Observe and Quantile the counters tally the samples.
  pub Reached-IsTally :
      (window : Duration) {d : RifDistribution F} → Reached window d → IsTally d.samples d.counts
  unfolding new_rif_distribution
  Reached-IsTally window new = empty-IsTally
  Reached-IsTally window (observed {d = d} rif now r) =
      observe-IsTally fl rif now d (Reached-IsTally window r)
  Reached-IsTally window (asked {d = d} q now r) =
      quantile-IsTally q now d (Reached-IsTally window r)

  compute_quantile-ne-none :
      (q : F) (now : Time) (d : RifDistribution F)
      → IsTally d.samples d.counts
      → (compute_quantile fl q now d).1 ≢ none
  compute_quantile-ne-none q now d t e =
      let cutoff = time_back now d.max_age in
      quantile_of-ne-none fl q (evict_locked fl cutoff d).samples (evict_locked fl cutoff d).counts
        (evict_locked-Evicted fl cutoff d t).tallied (sym (compute_quantile-answer q now d) ∙ e)

  cached_value-ne-none :
      (q : F) (now : Time) (o : Option (QuantileCache F))
      → is_cached fl q now o ≡ true
      → cached_value fl o ≢ none
  unfolding is_cached cached_value
  cached_value-ne-none q now none h e = cc
  cached_value-ne-none q now (some c) h e = cc

  -- In every history of Observe and Quantile, Quantile returns with no panic, whatever q is.
  pub quantile-ne-none :
      (window : Duration) {d : RifDistribution F} (q : F) (now : Time)
      → Reached window d
      → (quantile fl q now d).1 ≢ none
  unfolding quantile
  quantile-ne-none window {d} q now r = elim (Bool-cases (is_cached fl q now d.cache)) [
    | inl e ↦ rw e (cached_value-ne-none q now d.cache e)
    | inr e ↦
        rw (e, store_quantile-answer q now (compute_quantile fl q now d))
          (compute_quantile-ne-none q now d (Reached-IsTally window r))
  ]
