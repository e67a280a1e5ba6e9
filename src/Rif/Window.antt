-- ===== src/Rif/Window.antt =====
-- rif_distribution.go, evictLocked: which samples leave the window, and what stays.
use prequal_nc.Base.{
  ℕ, zero, suc, ◌+◌, ◌-◌, ◌≤◌, ◌≡◌, refl, ap, ◌∙◌, inl, inr, ℤ, ◌≤ℤ◌, ◌<ℤ◌, List, [], ◌∷◌, ◌++◌,
  arith, length, keep, drop, All, length-drop, take-length-append, drop-length, Bool-cases,
  if◌then◌else◌,
}
use prequal_nc.Float.{Float64}
use prequal_nc.Time.{Time, is_after}
use prequal_nc.Rif.{
  RifSample, RifDistribution, Counts, evict_loop, cut_samples, evict_locked, decrement, observe,
}
use prequal_nc.Rif.Tally.{IsTally, decrement-IsTally, increment-IsTally}

-- The samples from the first one after the cutoff.
pub from_first_recent : Time → List RifSample → List RifSample
from_first_recent cutoff [] = []
from_first_recent cutoff (s ∷ rest) =
    if is_after s.t cutoff then s ∷ rest else from_first_recent cutoff rest

pub length-from_first_recent :
    (cutoff : Time) (samples : List RifSample)
    → length (from_first_recent cutoff samples) ≤ length samples
unfolding from_first_recent
length-from_first_recent cutoff [] = omega arith
length-from_first_recent cutoff (s ∷ rest) = ground (arith, length-from_first_recent cutoff rest)

evict_loop-drop :
    (cutoff : Time) (samples : List RifSample) (m : Counts)
    → (drop (evict_loop cutoff samples m).0 samples ≡ from_first_recent cutoff samples)
      × ((evict_loop cutoff samples m).0 ≤ length samples)
unfolding evict_loop from_first_recent
evict_loop-drop cutoff [] m = (refl, omega arith)
evict_loop-drop cutoff (s ∷ rest) m =
    let ih = evict_loop-drop cutoff rest (decrement s.rif m) in
    let n = (evict_loop cutoff rest (decrement s.rif m)).0 in
    let e : drop (n + 1) (s ∷ rest) ≡ drop n rest =
      ap (λ k. drop k (s ∷ rest)) {y = suc n} (omega arith) in
    ground (arith, ih, e)

-- The counters follow the loop: what it passes leaves the tally.
evict_loop-IsTally :
    (cutoff : Time) (samples : List RifSample) (m : Counts)
    → IsTally samples m
    → IsTally (from_first_recent cutoff samples) (evict_loop cutoff samples m).1
unfolding evict_loop from_first_recent
evict_loop-IsTally cutoff [] m h = h
evict_loop-IsTally cutoff (s ∷ rest) m h =
    let ih = evict_loop-IsTally cutoff rest (decrement s.rif m) (decrement-IsTally s rest m h) in
    elim (Bool-cases (is_after s.t cutoff)) [ inl e ↦ rw e h | inr e ↦ rw e ih ]

-- The four ways to shorten the slice all leave the samples behind the cut.
cut_samples-drop :
    (cut : ℕ) (samples : List RifSample)
    → cut ≤ length samples
    → cut_samples cut samples ≡ drop cut samples
unfolding cut_samples
cut_samples-drop zero samples h = refl
cut_samples-drop (suc cut) samples h =
    let n = length samples - suc cut in
    let front = drop (suc cut) samples in
    ground (
      arith,
      drop-length (suc cut) samples,
      take-length-append n front (drop (length front) samples) (length-drop (suc cut) samples),
    )

-- `s` is the suffix of the old samples that begins with the first one after the cutoff.
pub record Evicted (F : Type 0) (cutoff : Time) (d d' : RifDistribution F) : Type 0 where
  pub window : d'.samples ≡ from_first_recent cutoff d.samples
  pub tallied : IsTally d'.samples d'.counts
  pub same_age : d'.max_age ≡ d.max_age
  pub same_cache : d'.cache ≡ d.cache

-- Timestamps do not fall along the list.
abbrev pub InOrder : List RifSample → Type 0
InOrder [] = Unit
InOrder (s ∷ rest) = All (λ u. s.t ≤ℤ u.t) rest × InOrder rest

all_recent :
    (cutoff : Time) (s : RifSample) (rest : List RifSample)
    → cutoff <ℤ s.t
    → All (λ u. s.t ≤ℤ u.t) rest
    → keep (λ u. is_after u.t cutoff) rest ≡ rest
all_recent cutoff s [] h k = refl
all_recent cutoff s (u ∷ rest) h k = ground (arith, all_recent cutoff s rest h k.1)

-- On samples in time order, the suffix is the filter.
pub from_first_recent-keep :
    (cutoff : Time) (samples : List RifSample)
    → InOrder samples
    → from_first_recent cutoff samples ≡ keep (λ s. is_after s.t cutoff) samples
unfolding from_first_recent
from_first_recent-keep cutoff [] h = refl
from_first_recent-keep cutoff (s ∷ rest) h =
    ground (arith, from_first_recent-keep cutoff rest h.1, all_recent cutoff s rest)

-- The samples split into a part that is not after the cutoff and the suffix.
pub from_first_recent-append :
    (cutoff : Time) (samples : List RifSample)
    → (old : List RifSample) × (samples ≡ old ++ from_first_recent cutoff samples)
      × All (λ s. s.t ≤ℤ cutoff) old
unfolding from_first_recent
from_first_recent-append cutoff [] = ([], refl, tt)
from_first_recent-append cutoff (s ∷ rest) =
    let (old, split, stale) = from_first_recent-append cutoff rest in
    elim (Bool-cases (is_after s.t cutoff)) [
      | inl e ↦ ([], rw e refl, tt)
      | inr e ↦ (s ∷ old, rw e (ap (◌∷◌ s) split), (ground arith, stale))
    ]

module _ (fl : Float64) where
  -- evictLocked drops the samples before the first one that is after the cutoff and no others, takes
  -- exactly these out of the counters, and leaves the window's length and the cache.
  pub evict_locked-Evicted :
      (cutoff : Time) (d : RifDistribution fl.F)
      → IsTally d.samples d.counts
      → Evicted fl.F cutoff d (evict_locked fl cutoff d)
  unfolding evict_locked
  evict_locked-Evicted cutoff d h =
      let (dropped, within) = evict_loop-drop cutoff d.samples d.counts in
      let window = cut_samples-drop _ d.samples within ∙ dropped in
      record {
        window = window;
        tallied = rw window (evict_loop-IsTally cutoff d.samples d.counts h);
        same_age = refl;
        same_cache = refl;
      }

  -- On samples in time order, evictLocked keeps exactly those after the cutoff.
  pub evict_locked-keep :
      (cutoff : Time) (d : RifDistribution fl.F)
      → IsTally d.samples d.counts
      → InOrder d.samples
      → (evict_locked fl cutoff d).samples ≡ keep (λ s. is_after s.t cutoff) d.samples
  evict_locked-keep cutoff d h k =
      (evict_locked-Evicted cutoff d h).window ∙ from_first_recent-keep cutoff d.samples k

  -- Observe appends the sample and keeps the tallies right.
  pub observe-IsTally :
      (rif : ℤ) (now : Time) (d : RifDistribution fl.F)
      → IsTally d.samples d.counts
      → IsTally (observe fl rif now d).samples (observe fl rif now d).counts
  unfolding observe
  observe-IsTally rif now d h = increment-IsTally d.samples _ d.counts h
