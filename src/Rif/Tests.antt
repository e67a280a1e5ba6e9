-- ===== src/Rif/Tests.antt =====
-- Runs of the RIF distribution at small inputs, and its theorems at concrete ones.
use prequal_nc.Base.{
  ◌≤◌, ◌^◌, ◌≡◌, ◌≢◌, refl, ℤ, pos, true, false, some, none, List, [], ◌∷◌, arith, length, keep,
}
use prequal_nc.Centi.{Centi, Centi-laws}
use prequal_nc.Time.{is_after, time_back}
use prequal_nc.Rif.Tally.{IsTally}
use prequal_nc.Rif.Window.{InOrder, Evicted, evict_locked-keep, from_first_recent}
use prequal_nc.Rif.Quantile.{QuantileSpec, compute_quantile-QuantileSpec}
use prequal_nc.Rif.Cache.{Reached, new, observed, Reached-IsTally, quantile-ne-none}
use prequal_nc.Rif.History.{Event, observes, asks, after, Fresh, quantile-Fresh}
use prequal_nc.Rif.{
  RifDistribution, new_rif_distribution, observe, evict_locked, compute_quantile, quantile,
}

abbrev pub observe_all : List (ℤ × ℤ) → RifDistribution ℤ → RifDistribution ℤ
observe_all [] d = d
observe_all ((rif, t) ∷ rest) d = observe_all rest (observe Centi rif t d)

-- Sixteen probes, one each nanosecond from 1 on.
abbrev pub probes : List (ℤ × ℤ)
probes =
    (pos 3, pos 1)
    ∷ (pos 1, pos 2)
    ∷ (pos 4, pos 3)
    ∷ (pos 1, pos 4)
    ∷ (pos 5, pos 5)
    ∷ (pos 9, pos 6)
    ∷ (pos 2, pos 7)
    ∷ (pos 6, pos 8)
    ∷ (pos 5, pos 9)
    ∷ (pos 3, pos 10)
    ∷ (pos 5, pos 11)
    ∷ (pos 8, pos 12)
    ∷ (pos 9, pos 13)
    ∷ (pos 7, pos 14)
    ∷ (pos 9, pos 15)
    ∷ (pos 3, pos 16)
    ∷ []

abbrev pub window : RifDistribution ℤ
window = observe_all probes (new_rif_distribution Centi (pos 1000))

-- The values in order are 1 1 2 3 3 3 4 5 5 5 6 7 8 9 9 9, and 0.84 * 16 = 13.44.
quantile_of_window : (compute_quantile Centi (pos 84) (pos 20) window).1 ≡ some (pos 9, true)
unfolding new_rif_distribution observe compute_quantile
quantile_of_window = refl

median_of_window : (compute_quantile Centi (pos 50) (pos 20) window).1 ≡ some (pos 5, true)
unfolding new_rif_distribution observe compute_quantile
median_of_window = refl

-- Past the window the oldest samples go, and fifteen are too few.
evicted_window : (compute_quantile Centi (pos 50) (pos 1001) window).1 ≡ some (pos 0, false)
unfolding new_rif_distribution observe compute_quantile
evicted_window = refl

observe_all-Reached :
    (l : List (ℤ × ℤ)) (d : RifDistribution ℤ)
    → Reached Centi (pos 1000) d
    → Reached Centi (pos 1000) (observe_all l d)
observe_all-Reached [] d r = r
observe_all-Reached ((rif, t) ∷ rest) d r =
    observe_all-Reached rest (observe Centi rif t d) (observed rif t r)

pub window-Reached : Reached Centi (pos 1000) window
window-Reached = observe_all-Reached probes (new_rif_distribution Centi (pos 1000)) new

window-IsTally : IsTally window.samples window.counts
window-IsTally = Reached-IsTally Centi (pos 1000) window-Reached

window-size : length window.samples ≤ 2 ^ 53
unfolding observe new_rif_distribution
window-size = omega arith

window-InOrder : InOrder window.samples
unfolding observe new_rif_distribution
window-InOrder = ground arith

compute_quantile-QuantileSpec_example :
    Evicted ℤ
      (time_back (pos 20) window.max_age)
      window
      (compute_quantile Centi (pos 84) (pos 20) window).0
    × QuantileSpec Centi
        (pos 84)
        (from_first_recent (time_back (pos 20) window.max_age) window.samples)
        (compute_quantile Centi (pos 84) (pos 20) window).1
compute_quantile-QuantileSpec_example =
    compute_quantile-QuantileSpec Centi Centi-laws (pos 84) (pos 20) window window-IsTally
      window-size refl

quantile-ne-none_example : (quantile Centi (pos 100) (pos 20) window).1 ≢ none
quantile-ne-none_example = quantile-ne-none Centi (pos 1000) (pos 100) (pos 20) window-Reached

-- The sixteen probes, Quantile at 20, and one more probe.
abbrev observed_events : List (ℤ × ℤ) → List (Event ℤ) → List (Event ℤ)
observed_events [] h = h
observed_events ((rif, t) ∷ rest) h = observed_events rest (observes rif t ∷ h)

abbrev asked_once : List (Event ℤ)
asked_once = observes (pos 9) (pos 30) ∷ asks (pos 84) (pos 20) ∷ observed_events probes []

-- The answer at 40 is the one in the cache.
cached_answer :
    (quantile Centi (pos 84) (pos 40) (after Centi (pos 1000) asked_once)).1 ≡ some (pos 9, true)
unfolding after
cached_answer = refl

quantile-Fresh_example :
    Fresh Centi
      (pos 1000)
      asked_once
      (pos 84)
      (pos 40)
      (quantile Centi (pos 84) (pos 40) (after Centi (pos 1000) asked_once)).1
quantile-Fresh_example = quantile-Fresh Centi (pos 1000) asked_once (pos 84) (pos 40)

evict_locked-keep_example :
    (evict_locked Centi (pos 7) window).samples ≡ keep (λ s. is_after s.t (pos 7)) window.samples
evict_locked-keep_example = evict_locked-keep Centi (pos 7) window window-IsTally window-InOrder
